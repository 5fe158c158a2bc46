-- ===== src/Options.antt =====
-- windows/compat/src/getopt_long.c: the option parser of the Windows port. A string is the list of its
-- bytes, without the zero at the end.
pub mod Progress
pub mod Missing
mod Examples
use iperf3_windows_msvc.Prelude.{
  ℕ, zero, suc, ◌||◌, ◌+◌, Bool, true, false, ◌&&◌, List, [], ◌∷◌, Option, none, some, length,
  get_or, ltb, ◌==◌, if◌then◌else◌,
}
use iperf3_windows_msvc.Prelude.Int.{ℤ, pos, negsuc, ◌==ℤ◌}

abbrev pub Bytes : Type 0
Bytes = List ℕ

pub data HasArg : Type 0 where
  no_argument required_argument optional_argument : HasArg

-- struct option; `flag` is an address.
pub record LongOption : Type 0 where
  pub name : Bytes
  pub has_arg : HasArg
  pub flag : Option ℕ
  pub val : ℕ

-- The global variables, the index that was written through `longindex`, and what was written through
-- `flag`. `next_short` is the rest of the word that it points into, `none` where it is NULL.
pub record Getopt : Type 0 where
  pub optind : ℕ
  pub optarg : Option Bytes
  pub optopt : ℕ
  pub next_short : Option Bytes
  pub longindex : Option ℕ
  pub flags : List (ℕ × ℕ)

-- The character codes of - = : and ?
abbrev pub dash : ℕ
dash = 45

abbrev pub equals : ℕ
equals = 61

abbrev pub colon : ℕ
colon = 58

abbrev pub question : ℕ
question = 63

-- The string from the first occurrence of a byte on, as strchr finds it.
abbrev pub strchr : Bytes → ℕ → Option Bytes
strchr [] c = none
strchr (b ∷ rest) c = if b == c then some (b ∷ rest) else strchr rest c

-- Whether the option takes an argument, and whether that may be left out.
abbrev pub colons : Bytes → Bool × Bool
colons (opt ∷ a ∷ b ∷ rest) = (a == colon, (a == colon) && (b == colon))
colons (opt ∷ a ∷ []) = (a == colon, false)
colons rest = (false, false)

unfoldable pub opt_requires_arg : Bytes → ℕ → Bool × Bool
opt_requires_arg optstring opt = elim (strchr optstring opt) [
  | none ↦ (false, false)
  | some p ↦ colons p
]

-- The name of a long option, and what follows its `=`.
abbrev pub split_value : Bytes → Bytes × Option Bytes
split_value [] = ([], none)
split_value (b ∷ rest) =
    let (name, value) = split_value rest in
    if b == equals then ([], some rest) else (b ∷ name, value)

abbrev pub same_bytes : Bytes → Bytes → Bool
same_bytes [] [] = true
same_bytes (a ∷ xs) (b ∷ ys) = (a == b) && same_bytes xs ys
same_bytes xs ys = false

-- The first entry of that name, with its index.
abbrev pub find_long : ℕ → List LongOption → Bytes → Option (ℕ × LongOption)
find_long i [] name = none
find_long i (o ∷ rest) name =
    if same_bytes o.name name then some (i, o) else find_long (i + 1) rest name

-- -1 or `?`
abbrev pub stops : ℤ → Bool
stops r = (r ==ℤ negsuc 0) || (r ==ℤ pos question)

module _ (argv : List Bytes) (optstring : Bytes) (longopts : List LongOption) where
  -- The end of the branch for an entry that was found.
  unfoldable pub found_long : LongOption → Getopt → ℤ × Getopt
  found_long o s =
      let next = record s { optind = suc s.optind } in
      elim o.flag [
        | none ↦ (pos o.val, next)
        | some address ↦ (pos 0, record next { flags = (address, o.val) ∷ s.flags })
      ]

  -- The argument of the entry `o`.
  unfoldable pub long_argument : LongOption → Option Bytes → Getopt → ℤ × Getopt
  unfolding found_long
  long_argument o value s = elim o.has_arg [
    | no_argument ↦ found_long o (record s { optarg = none })
    | optional_argument ↦ found_long o (record s { optarg = value })
    | required_argument ↦ elim value [
      | some v ↦ found_long o (record s { optarg = some v })
      | none ↦
          if ltb (suc s.optind) (length argv)
          then found_long o
              (record s { optarg = some (get_or argv (suc s.optind) []); optind = suc s.optind })
          else (pos question, record s { optopt = o.val })
    ]
  ]

  -- `name` is what follows the two dashes.
  unfoldable pub handle_long : Bytes → Getopt → ℤ × Getopt
  unfolding long_argument
  handle_long word s =
      let (name, value) = split_value word in
      elim (find_long 0 longopts name) [
        | none ↦ (pos question, record s { optind = suc s.optind })
        | some (i, o) ↦ long_argument o value (record s { longindex = some i })
      ]

  -- An option that takes an argument; `rest` is what follows it in its word.
  unfoldable pub short_argument : ℕ → Bytes → Bool → Getopt → ℤ × Getopt
  short_argument opt (b ∷ rest) optional s =
      (pos opt, record s { optarg = some (b ∷ rest); optind = suc s.optind; next_short = none })
  short_argument opt [] true s =
      (pos opt, record s { optarg = none; optind = suc s.optind; next_short = none })
  short_argument opt [] false s =
      if ltb (suc s.optind) (length argv)
      then (
        pos opt,
        record s {
          optarg = some (get_or argv (suc s.optind) []);
          optind = suc (suc s.optind);
          next_short = none;
        },
      )
      else (pos question, record s { optopt = opt; optind = suc s.optind; next_short = none })

  -- An option that takes none: the word is left once it is used up.
  unfoldable pub short_plain : ℕ → Bytes → Getopt → ℤ × Getopt
  short_plain opt [] s = (pos opt, record s { optind = suc s.optind; next_short = none })
  short_plain opt (b ∷ rest) s = (pos opt, record s { next_short = some (b ∷ rest) })

  -- An option that is not known; `next_short` may stay at the end of the word that is left.
  unfoldable pub short_unknown : ℕ → Bytes → Getopt → ℤ × Getopt
  short_unknown opt [] s =
      (pos question, record s { optopt = opt; optind = suc s.optind; next_short = some [] })
  short_unknown opt (b ∷ rest) s =
      (pos question, record s { optopt = opt; next_short = some (b ∷ rest) })

  unfoldable pub short_option : ℕ → Bytes → Getopt → ℤ × Getopt
  unfolding opt_requires_arg short_argument short_plain short_unknown
  short_option opt rest s =
      let (needs_arg, optional_arg) = opt_requires_arg optstring opt in
      elim (strchr optstring opt) [
        | none ↦ short_unknown opt rest s
        | some p ↦
            if needs_arg then short_argument opt rest optional_arg s else short_plain opt rest s
      ]

  -- `word` is the word at `optind`.
  unfoldable pub start_word : Bytes → Getopt → ℤ × Getopt
  unfolding handle_long short_option
  start_word [] s = (negsuc 0, s)
  start_word (a ∷ []) s = (negsuc 0, s)
  start_word (a ∷ b ∷ []) s =
      if a == dash
      then if b == dash then (negsuc 0, record s { optind = suc s.optind }) else short_option b [] s
      else (negsuc 0, s)
  start_word (a ∷ b ∷ c ∷ rest) s =
      if a == dash
      then if b == dash then handle_long (c ∷ rest) s else short_option b (c ∷ rest) s
      else (negsuc 0, s)

  -- The next byte of the word that is being taken apart, or the next word.
  unfoldable pub next_option : Option Bytes → Getopt → ℤ × Getopt
  unfolding short_option start_word
  next_option (some (b ∷ rest)) s = short_option b rest s
  next_option (some []) s =
      if ltb s.optind (length argv) then start_word (get_or argv s.optind []) s else (negsuc 0, s)
  next_option none s =
      if ltb s.optind (length argv) then start_word (get_or argv s.optind []) s else (negsuc 0, s)

  -- An index of 0 asks for a new start.
  unfoldable pub start_call : Getopt → Getopt
  start_call s =
      if s.optind == 0
      then record s { optarg = none; optind = 1; next_short = none }
      else record s { optarg = none }

  unfoldable pub getopt_long : Getopt → ℤ × Getopt
  unfolding next_option start_call
  getopt_long s = next_option (start_call s).next_short (start_call s)

  -- The loop of a caller that leaves it on -1 and on `?`, as iperf_parse_arguments does; the options
  -- are collected in order. `none` is out of fuel.
  unfoldable pub parse_options : ℕ → Getopt → Option (List ℤ × Getopt)
  unfolding getopt_long
  parse_options zero s = none
  parse_options (suc fuel) s =
      let (r, t) = getopt_long s in
      let rest = parse_options fuel t in
      if stops r
      then some (r ∷ [], t)
      else elim rest [ none ↦ none | some (rs, u) ↦ some (r ∷ rs, u) ]
