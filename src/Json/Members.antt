-- ===== src/Json/Members.antt =====
-- src/iperf_api.c: a message is built member by member; what a look-up in it finds.
use iperf3_windows_msvc.Prelude.{
  ◌≡◌, ◌∙◌, inl, inr, Option, none, some, List, [], ◌∷◌, if◌then◌else◌, Bool-cases,
}
use iperf3_windows_msvc.Json.{Key, same_key, Item, Json, IsLibrary}

-- The calls that add a member, in the code's order: the member's name, and its value if the call
-- is made.
abbrev pub Entries : Type 0 → Type 0
Entries F = List (Key × Option (Item F))

abbrev pub or_else {ℓ} : {A : Type ℓ} → Option A → Option A → Option A
or_else (some a) other = some a
or_else none other = other

-- The first member of that name.
abbrev pub find : {F : Type 0} → Key → Entries F → Option (Item F)
find k [] = none
find k ((l, v) ∷ es) = if same_key l k then or_else v (find k es) else find k es

module _ (lib : Json) where
  unfoldable pub add_if : lib.Obj → Key → Option (Item lib.F) → lib.Obj
  add_if o k none = o
  add_if o k (some v) = lib.add o k v

  unfoldable pub add_all : lib.Obj → Entries lib.F → lib.Obj
  unfolding add_if
  add_all o [] = o
  add_all o ((k, v) ∷ es) = add_all (add_if o k v) es

module _ (lib : Json) (law : IsLibrary lib) where
  get-add_kept :
      (o : lib.Obj) (es : Entries lib.F) (k : Key) (v : Item lib.F)
      → lib.get o k ≡ some v
      → lib.get (add_all lib o es) k ≡ some v
  unfolding add_all add_if
  get-add_kept o [] k v h = h
  get-add_kept o ((l, none) ∷ es) k v h = get-add_kept o es k v h
  get-add_kept o ((l, some u) ∷ es) k v h =
      get-add_kept (lib.add o l u) es k v (law.get_kept o l k u v h)

  -- A look-up in the built object finds the first member of that name.
  pub get-add_all :
      (o : lib.Obj) (es : Entries lib.F) (k : Key)
      → lib.get o k ≡ none
      → lib.get (add_all lib o es) k ≡ find k es
  unfolding add_all add_if
  get-add_all o [] k h = h
  get-add_all o ((l, none) ∷ es) k h = elim (Bool-cases (same_key l k)) [
    | inl e ↦ rw e (get-add_all o es k h)
    | inr e ↦ rw e (get-add_all o es k h)
  ]
  get-add_all o ((l, some u) ∷ es) k h = elim (Bool-cases (same_key l k)) [
    | inl e ↦ rw e (get-add_kept (lib.add o l u) es k u (law.get_added o l k u e h))
    | inr e ↦ rw e (get-add_all (lib.add o l u) es k (law.get_others o l k u e ∙ h))
  ]
