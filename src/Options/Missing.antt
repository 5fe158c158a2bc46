-- ===== src/Options/Missing.antt =====
-- windows/compat/src/getopt_long.c: a long option whose argument is missing.
use iperf3_windows_msvc.Prelude.{
  ℕ, suc, ◌<◌, ◌≡◌, refl, false, true, List, [], ◌∷◌, none, some, length, get_or, ltb, ◌==◌, arith,
}
use iperf3_windows_msvc.Prelude.Int.{pos}
use iperf3_windows_msvc.Options.{
  Bytes, required_argument, LongOption, Getopt, dash, question, split_value, find_long,
  long_argument, handle_long, start_word, next_option, start_call, getopt_long,
}

module _ (argv : List Bytes) (optstring : Bytes) (longopts : List LongOption) where
  -- The last word is a long option that takes an argument, and has none.
  pub record IsMissing (s : Getopt) (i : ℕ) (o : LongOption) (c : ℕ) (rest : Bytes) : Type 0 where
    pub positive : 0 < s.optind
    pub last : suc s.optind ≡ length argv
    pub fresh : s.next_short ≡ none
    pub word : get_or argv s.optind [] ≡ dash ∷ dash ∷ c ∷ rest
    pub no_value : (split_value (c ∷ rest)).1 ≡ none
    pub known : find_long 0 longopts (split_value (c ∷ rest)).0 ≡ some (i, o)
    pub takes_argument : o.has_arg ≡ required_argument

  getopt_long_missing :
      (s : Getopt) (i : ℕ) (o : LongOption) (c : ℕ) (rest : Bytes)
      → IsMissing s i o c rest
      → getopt_long argv optstring longopts s
        ≡ (pos question, record s { optarg = none; longindex = some i; optopt = o.val })
  unfolding getopt_long start_call next_option start_word handle_long long_argument
  getopt_long_missing s i o c rest h =
      let going : (s.optind == 0) ≡ false = ground (arith, h.positive) in
      let there : ltb s.optind (length argv) ≡ true = ground (arith, h.last) in
      let none_left : ltb (suc s.optind) (length argv) ≡ false = ground (arith, h.last) in
      rw
        (
          going, h.fresh, there, h.word, start_word, handle_long, h.known, long_argument,
          h.takes_argument, h.no_value, none_left,
        )
        refl

  -- If the last word is a long option whose argument is missing, the call answers `?` and does not move
  -- on: the next call starts from the same word, gives the same answer and leaves the same state, and
  -- so does every call after it.
  pub getopt_long_stuck :
      (s : Getopt) (i : ℕ) (o : LongOption) (c : ℕ) (rest : Bytes)
      → IsMissing s i o c rest
      → let (r, t) = getopt_long argv optstring longopts s in
        (r ≡ pos question)
        × (t.optind ≡ s.optind)
        × (getopt_long argv optstring longopts t ≡ (r, t))
  getopt_long_stuck s i o c rest h =
      let first = getopt_long_missing s i o c rest h in
      let t : Getopt = record s { optarg = none; longindex = some i; optopt = o.val } in
      let again : IsMissing t i o c rest = record {
        positive = h.positive;
        last = h.last;
        fresh = h.fresh;
        word = h.word;
        no_value = h.no_value;
        known = h.known;
        takes_argument = h.takes_argument;
      } in
      rw first (refl, refl, getopt_long_missing t i o c rest again)
