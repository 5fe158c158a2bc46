-- ===== src/Json/Library.antt =====
-- A JSON library to run the model on: an object is its list of members, a number is an integer, and a
-- text is printed as groups of three numbers, a member's code, a kind and a value, with one group for
-- each byte of a text value. It has no arrays, and no objects in an object.
use iperf3_windows_msvc.Prelude.{
  ℕ, zero, suc, sym, some-injective, none≢some, ◌≡◌, refl, ◌∙◌, ap, inl, inr, true, false, Option,
  none, some, List, [], ◌∷◌, ◌++◌, ◌==◌, if◌then◌else◌, Bool-cases,
}
use iperf3_windows_msvc.Prelude.Int.{ℤ, pos, negsuc}
use iperf3_windows_msvc.Json.{Bytes, key_code, Item, boolean, number, text, other, Json, IsLibrary}

abbrev Members : Type 0
Members = List (ℕ × Item ℤ)

abbrev look : Members → ℕ → Option (Item ℤ)
look [] k = none
look ((l, v) ∷ ms) k = if l == k then some v else look ms k

abbrev text_groups : Bytes → Bytes → Bytes
text_groups [] rest = rest
text_groups (b ∷ bs) rest = 0 ∷ 5 ∷ b ∷ text_groups bs rest

abbrev encode : Members → Bytes
encode [] = []
encode ((k, boolean false) ∷ ms) = k ∷ 0 ∷ 0 ∷ encode ms
encode ((k, boolean true) ∷ ms) = k ∷ 0 ∷ 1 ∷ encode ms
encode ((k, number (pos n)) ∷ ms) = k ∷ 1 ∷ n ∷ encode ms
encode ((k, number (negsuc n)) ∷ ms) = k ∷ 2 ∷ n ∷ encode ms
encode ((k, text s) ∷ ms) = k ∷ 3 ∷ 0 ∷ text_groups s (encode ms)
encode ((k, other) ∷ ms) = k ∷ 4 ∷ 0 ∷ encode ms

-- The bytes of a text value that has begun before, and the members.
abbrev group : ℕ → ℕ → ℕ → Bytes × Members → Bytes × Members
group k zero n (s, ms) = ([], (k, boolean (n == 1)) ∷ ms)
group k (suc zero) n (s, ms) = ([], (k, number (pos n)) ∷ ms)
group k (suc (suc zero)) n (s, ms) = ([], (k, number (negsuc n)) ∷ ms)
group k (suc (suc (suc zero))) n (s, ms) = ([], (k, text s) ∷ ms)
group k (suc (suc (suc (suc zero)))) n (s, ms) = ([], (k, other) ∷ ms)
group k kind n (s, ms) = (n ∷ s, ms)

abbrev decode : Bytes → Bytes × Members
decode (k ∷ kind ∷ n ∷ rest) = group k kind n (decode rest)
decode rest = ([], [])

decode-text_groups :
    (s rest : Bytes) (ms : Members) → decode rest ≡ ([], ms) → decode (text_groups s rest) ≡ (s, ms)
decode-text_groups [] rest ms h = h
decode-text_groups (b ∷ bs) rest ms h = ap (group 0 5 b) (decode-text_groups bs rest ms h)

decode-encode : (ms : Members) → decode (encode ms) ≡ ([], ms)
decode-encode [] = refl
decode-encode ((k, boolean false) ∷ ms) = ap (group k 0 0) (decode-encode ms)
decode-encode ((k, boolean true) ∷ ms) = ap (group k 0 1) (decode-encode ms)
decode-encode ((k, number (pos n)) ∷ ms) = ap (group k 1 n) (decode-encode ms)
decode-encode ((k, number (negsuc n)) ∷ ms) = ap (group k 2 n) (decode-encode ms)
decode-encode ((k, text s) ∷ ms) =
    ap (group k 3 0) (decode-text_groups s (encode ms) ms (decode-encode ms))
decode-encode ((k, other) ∷ ms) = ap (group k 4 0) (decode-encode ms)

abbrev pub plain_json : Json
plain_json = record {
  F = ℤ;
  Obj = Members;
  of_int = λ n. n;
  to_int = λ n. n;
  create = some [];
  add = λ o k v. o ++ ((key_code k, v) ∷ []);
  get = λ o k. look o (key_code k);
  add_array = λ o k xs. o;
  get_array = λ o k. none;
  add_object = λ o k x. o;
  get_object = λ o k. none;
  print = λ o. some (encode o);
  parse = λ str. some (decode str).1;
  alloc = λ n. true;
}

look_added :
    (ms : Members) (k l : ℕ) (v : Item ℤ)
    → (k == l) ≡ true
    → look ms l ≡ none
    → look (ms ++ ((k, v) ∷ [])) l ≡ some v
look_added [] k l v e h = rw e refl
look_added ((m, u) ∷ ms) k l v e h = elim (Bool-cases (m == l)) [
  | inl same ↦ absurd (none≢some (sym (rw same at h)))
  | inr differ ↦ rw differ (look_added ms k l v e (rw differ at h))
]

look_kept :
    (ms : Members) (k l : ℕ) (v u : Item ℤ)
    → look ms l ≡ some u
    → look (ms ++ ((k, v) ∷ [])) l ≡ some u
look_kept [] k l v u h = absurd (none≢some h)
look_kept ((m, x) ∷ ms) k l v u h = elim (Bool-cases (m == l)) [
  | inl same ↦ rw same (rw same at h)
  | inr differ ↦ rw differ (look_kept ms k l v u (rw differ at h))
]

look_others :
    (ms : Members) (k l : ℕ) (v : Item ℤ)
    → (k == l) ≡ false
    → look (ms ++ ((k, v) ∷ [])) l ≡ look ms l
look_others [] k l v e = rw e refl
look_others ((m, x) ∷ ms) k l v e = rw (look_others ms k l v e) refl

pub plain_json-IsLibrary : IsLibrary plain_json
plain_json-IsLibrary = record {
  get_create = λ o e k. ap (λ ms. look ms (key_code k)) (sym (some-injective e));
  get_added = λ o k l v e h. look_added o (key_code k) (key_code l) v e h;
  get_kept = λ o k l v u h. look_kept o (key_code k) (key_code l) v u h;
  get_others = λ o k l v e. look_others o (key_code k) (key_code l) v e;
  parse_print = λ o str e. (
    o,
    ap (λ s. some (decode s).1) (sym (some-injective e)) ∙ ap (λ a. some a.1) (decode-encode o),
    λ k. refl,
  );
  exact = λ n h. refl;
}
