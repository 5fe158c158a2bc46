-- ===== src/Options/Progress.antt =====
-- windows/compat/src/getopt_long.c: every call uses up some of the arguments, with one exception.
use mathlib.Core.Bool.{true≢false}
use iperf3_windows_msvc.Prelude.{
  ap, ◌==◌, ltb→lt, sym, ◌∙◌, ℕ, zero, suc, ◌+◌, ◌≤◌, ◌<◌, ◌≡◌, ◌⊎◌, inl, inr, refl, Bool, true,
  false, List, [], ◌∷◌, Option, none, some, length, get_or, drop, ltb, if◌then◌else◌, arith,
  Bool-cases, branches,
}
use iperf3_windows_msvc.Prelude.Int.{ℤ, pos, negsuc}
use iperf3_windows_msvc.Options.{
  stops, dash, next_option, start_word, start_call, getopt_long, parse_options, Bytes, HasArg,
  no_argument, required_argument, optional_argument, LongOption, Getopt, question, found_long,
  long_argument, handle_long, short_argument, short_plain, short_unknown, short_option, strchr,
  opt_requires_arg, split_value, find_long,
}

-- The bytes of the words from `i` on, with one more for each word.
abbrev pub total : List Bytes → ℕ
total [] = 0
total (w ∷ ws) = suc (length w) + total ws

total-drop : (ws : List Bytes) (i : ℕ) → total (drop (suc i) ws) ≤ total (drop i ws)
total-drop [] zero = omega arith
total-drop [] (suc i) = omega arith
total-drop (w ∷ ws) zero = omega arith
total-drop (w ∷ ws) (suc i) = total-drop ws i

total_word :
    (ws : List Bytes) (i : ℕ)
    → i < length ws
    → total (drop i ws) ≡ suc (length (get_or ws i [])) + total (drop (suc i) ws)
total_word [] i h = absurd (omega arith)
total_word (w ∷ ws) zero h = refl
total_word (w ∷ ws) (suc i) h = total_word ws i (omega arith)

-- What is left to parse: the rest of a word that is being taken apart, and the words behind it, or the
-- words from `optind` on.
abbrev pub left : List Bytes → ℕ → Option Bytes → ℕ
left argv optind none = total (drop optind argv)
left argv optind (some []) = total (drop optind argv)
left argv optind (some (b ∷ rest)) = suc (suc (length rest)) + total (drop (suc optind) argv)

abbrev pub left_of : List Bytes → Getopt → ℕ
left_of argv s = left argv s.optind s.next_short

module _ (argv : List Bytes) (optstring : Bytes) (longopts : List LongOption) where
  -- What a call may do where `m` was left: end, use something up, or miss an argument at the last
  -- word. The index stays positive.
  abbrev pub Progress : ℕ → ℤ × Getopt → Type 0
  Progress m (r, t) =
      (0 < t.optind)
      × ((r ≡ negsuc 0)
          ⊎ ((suc (left_of argv t) ≤ m) ⊎ ((r ≡ pos question) × (length argv ≤ suc t.optind))))

  -- No word is being taken apart.
  abbrev Fresh : Getopt → Type 0
  Fresh s = (i : ℕ) → left argv i s.next_short ≡ total (drop i argv)

  found_long-Progress :
      (m : ℕ) (o : LongOption) (s : Getopt)
      → Fresh s
      → suc (total (drop (suc s.optind) argv)) ≤ m
      → 0 < s.optind
      → Progress m (found_long argv optstring longopts o s)
  unfolding found_long
  found_long-Progress m o s fresh less p = go (o.flag)
    where
      go :
          (flag : Option ℕ)
          → Progress m (elim flag [
            | none ↦ (pos o.val, record s { optind = suc s.optind })
            | some address ↦
                (pos 0, record s { optind = suc s.optind; flags = (address, o.val) ∷ s.flags })
          ])
      go none = (omega arith, inr (inl (omega (arith, fresh (suc s.optind), less))))
      go (some address) = (omega arith, inr (inl (omega (arith, fresh (suc s.optind), less))))

  long_argument-Progress :
      (m : ℕ) (o : LongOption) (value : Option Bytes) (s : Getopt)
      → Fresh s
      → suc (total (drop (suc s.optind) argv)) ≤ m
      → 0 < s.optind
      → Progress m (long_argument argv optstring longopts o value s)
  unfolding long_argument
  long_argument-Progress m o value s fresh less p = go (o.has_arg) value
    where
      go :
          (has_arg : HasArg) (v : Option Bytes)
          → Progress m (elim has_arg [
            | no_argument ↦ found_long argv optstring longopts o (record s { optarg = none })
            | optional_argument ↦ found_long argv optstring longopts o (record s { optarg = v })
            | required_argument ↦ elim v [
              | some w ↦ found_long argv optstring longopts o (record s { optarg = some w })
              | none ↦
                  if ltb (suc s.optind) (length argv)
                  then found_long argv optstring longopts o (record s {
                    optarg = some (get_or argv (suc s.optind) []);
                    optind = suc s.optind;
                  })
                  else (pos question, record s { optopt = o.val })
            ]
          ])
      go no_argument v =
          found_long-Progress m o (record s { optarg = none }) fresh less (omega arith)
      go optional_argument v =
          found_long-Progress m o (record s { optarg = v }) fresh less (omega arith)
      go required_argument (some w) =
          found_long-Progress m o (record s { optarg = some w }) fresh less (omega arith)
      go required_argument none = elim (Bool-cases (ltb (suc s.optind) (length argv))) [
        | inl there ↦ rw there (
            found_long-Progress m o _ fresh (omega (arith, less, total-drop argv (suc s.optind)))
              (omega arith))
        | inr missing ↦ rw missing (omega arith, inr (inr (refl, ground arith)))
      ]

  handle_long-Progress :
      (m : ℕ) (word : Bytes) (s : Getopt)
      → Fresh s
      → suc (total (drop (suc s.optind) argv)) ≤ m
      → 0 < s.optind
      → Progress m (handle_long argv optstring longopts word s)
  unfolding handle_long
  handle_long-Progress m word s fresh less p = go (find_long 0 longopts (split_value word).0)
    where
      go :
          (found : Option (ℕ × LongOption))
          → Progress m (elim found [
            | none ↦ (pos question, record s { optind = suc s.optind })
            | some (i, o) ↦
                long_argument argv optstring longopts o
                  (split_value word).1
                  (record s { longindex = some i })
          ])
      go none = (omega arith, inr (inl (omega (arith, fresh (suc s.optind), less))))
      go (some (i, o)) =
          long_argument-Progress m o _ (record s { longindex = some i }) fresh less (omega arith)

  -- A call that takes an option off a word needs no more than the option and the words behind.
  short_argument-Progress :
      (m opt : ℕ) (rest : Bytes) (optional : Bool) (s : Getopt)
      → suc (total (drop (suc s.optind) argv)) ≤ m
      → 0 < s.optind
      → Progress m (short_argument argv optstring longopts opt rest optional s)
  unfolding short_argument
  short_argument-Progress m opt (b ∷ rest) optional s less p = (omega arith, inr (inl less))
  short_argument-Progress m opt [] true s less p = (omega arith, inr (inl less))
  short_argument-Progress m opt [] false s less p =
      branches (Progress m) (ltb (suc s.optind) (length argv))
        (omega arith, inr (inl (omega (arith, less, total-drop argv (suc s.optind)))))
        (omega arith, inr (inl less))

  short_plain-Progress :
      (m opt : ℕ) (rest : Bytes) (s : Getopt)
      → suc (suc (length rest)) + total (drop (suc s.optind) argv) ≤ m
      → 0 < s.optind
      → Progress m (short_plain argv optstring longopts opt rest s)
  unfolding short_plain
  short_plain-Progress m opt [] s less p = (omega arith, inr (inl (omega (arith, less))))
  short_plain-Progress m opt (b ∷ rest) s less p = (omega arith, inr (inl (omega (arith, less))))

  short_unknown-Progress :
      (m opt : ℕ) (rest : Bytes) (s : Getopt)
      → suc (suc (length rest)) + total (drop (suc s.optind) argv) ≤ m
      → 0 < s.optind
      → Progress m (short_unknown argv optstring longopts opt rest s)
  unfolding short_unknown
  short_unknown-Progress m opt [] s less p = (omega arith, inr (inl (omega (arith, less))))
  short_unknown-Progress m opt (b ∷ rest) s less p = (omega arith, inr (inl (omega (arith, less))))

  short_option-Progress :
      (m opt : ℕ) (rest : Bytes) (s : Getopt)
      → suc (suc (length rest)) + total (drop (suc s.optind) argv) ≤ m
      → 0 < s.optind
      → Progress m (short_option argv optstring longopts opt rest s)
  unfolding short_option
  short_option-Progress m opt rest s less p = go (strchr optstring opt)
    where
      needs : Bool × Bool
      needs = opt_requires_arg optstring opt

      go :
          (found : Option Bytes)
          → Progress m (elim found [
            | none ↦ short_unknown argv optstring longopts opt rest s
            | some q ↦
                if needs.0
                then short_argument argv optstring longopts opt rest needs.1 s
                else short_plain argv optstring longopts opt rest s
          ])
      go none = short_unknown-Progress m opt rest s less p
      go (some q) =
          branches (Progress m) needs.0
            (short_argument-Progress m opt rest needs.1 s (omega (arith, less)) p)
            (short_plain-Progress m opt rest s less p)

  start_word-Progress :
      (m : ℕ) (word : Bytes) (s : Getopt)
      → Fresh s
      → suc (length word) + total (drop (suc s.optind) argv) ≤ m
      → 0 < s.optind
      → Progress m (start_word argv optstring longopts word s)
  unfolding start_word
  start_word-Progress m [] s fresh less p = (p, inl refl)
  start_word-Progress m (a ∷ []) s fresh less p = (p, inl refl)
  start_word-Progress m (a ∷ b ∷ []) s fresh less p =
      branches (Progress m) (a == dash)
        (branches (Progress m) (b == dash) (omega arith, inl refl)
          (short_option-Progress m b [] s (omega (arith, less)) p))
        (p, inl refl)
  start_word-Progress m (a ∷ b ∷ c ∷ rest) s fresh less p =
      branches (Progress m) (a == dash)
        (branches (Progress m) (b == dash)
          (handle_long-Progress m (c ∷ rest) s fresh (omega (arith, less)) p)
          (short_option-Progress m b (c ∷ rest) s (omega (arith, less)) p))
        (p, inl refl)

  next_word-Progress :
      (s : Getopt)
      → Fresh s
      → 0 < s.optind
      → Progress (total (drop s.optind argv)) (
          if ltb s.optind (length argv)
          then start_word argv optstring longopts (get_or argv s.optind []) s
          else (negsuc 0, s))
  next_word-Progress s fresh p = elim (Bool-cases (ltb s.optind (length argv))) [
    | inl there ↦ rw there (
        start_word-Progress _ (get_or argv s.optind []) s fresh
          (omega (arith, total_word argv s.optind (ltb→lt _ _ there))) p)
    | inr done ↦ rw done (p, inl refl)
  ]

  next_option-Progress :
      (next : Option Bytes) (s : Getopt)
      → s.next_short ≡ next
      → 0 < s.optind
      → Progress (left argv s.optind next) (next_option argv optstring longopts next s)
  unfolding next_option
  next_option-Progress (some (b ∷ rest)) s h p = short_option-Progress _ b rest s (omega arith) p
  next_option-Progress (some []) s h p = next_word-Progress s (λ i. ap (left argv i) h) p
  next_option-Progress none s h p = next_word-Progress s (λ i. ap (left argv i) h) p

  getopt_long-Progress :
      (s : Getopt)
      → 0 < s.optind
      → Progress (left_of argv s) (getopt_long argv optstring longopts s)
  unfolding getopt_long start_call
  getopt_long-Progress s p =
      let going : (s.optind == 0) ≡ false = ground arith in
      rw going (next_option-Progress s.next_short (record s { optarg = none }) refl p)

  goes_on :
      (m : ℕ) (r : ℤ) (t : Getopt) → Progress m (r, t) → stops r ≡ false → suc (left_of argv t) ≤ m
  goes_on m r t (p, inl e) on = absurd (true≢false (sym (ap stops e) ∙ on))
  goes_on m r t (p, inr (inl less)) on = less
  goes_on m r t (p, inr (inr (e, last))) on = absurd (true≢false (sym (ap stops e) ∙ on))

  -- A caller that asks for options until -1 or `?` always comes to an end: what is left to parse,
  -- and one more, is fuel enough. The index is positive at the start, as it is initially.
  pub parse_options_ends :
      (fuel : ℕ) (s : Getopt)
      → 0 < s.optind
      → left_of argv s < fuel
      → (rs : List ℤ) × (t : Getopt) × (parse_options argv optstring longopts fuel s ≡ some (rs, t))
  unfolding parse_options
  parse_options_ends zero s p enough = absurd (omega arith)
  parse_options_ends (suc fuel) s p enough =
      let (r, t) = getopt_long argv optstring longopts s in
      let progress = getopt_long-Progress s p in
      elim (Bool-cases (stops r)) [
        | inl stop ↦ (r ∷ [], t, rw stop refl)
        | inr on ↦
            let less = goes_on _ r t progress on in
            let (rs, u, rest) =
              parse_options_ends fuel t (progress.0) (omega (arith, less, enough)) in
            (r ∷ rs, u, rw (on, rest) refl)
      ]
