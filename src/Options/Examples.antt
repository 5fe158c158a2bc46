-- ===== src/Options/Examples.antt =====
-- windows/compat/src/getopt_long.c: the theorems on options at concrete arguments.
use iperf3_windows_msvc.Prelude.{◌≡◌, refl, List, [], ◌∷◌, none, some, arith}
use iperf3_windows_msvc.Prelude.Int.{ℤ, pos, negsuc}
use iperf3_windows_msvc.Options.{
  Bytes, LongOption, Getopt, required_argument, question, getopt_long, parse_options,
}
use iperf3_windows_msvc.Options.Progress.{parse_options_ends}
use iperf3_windows_msvc.Options.Missing.{IsMissing, getopt_long_stuck}

-- "--port", with the value 'p'.
abbrev port : LongOption
port = record {
  name = 112 ∷ 111 ∷ 114 ∷ 116 ∷ [];
  has_arg = required_argument;
  flag = none;
  val = 112;
}

-- "s46p:"
abbrev shorts : Bytes
shorts = 115 ∷ 52 ∷ 54 ∷ 112 ∷ 58 ∷ []

-- "iperf3 -s4p 99 --port=7"
abbrev served : List Bytes
served =
    (105 ∷ [])
    ∷ (45 ∷ 115 ∷ 52 ∷ 112 ∷ [])
    ∷ (57 ∷ 57 ∷ [])
    ∷ (45 ∷ 45 ∷ 112 ∷ 111 ∷ 114 ∷ 116 ∷ 61 ∷ 55 ∷ [])
    ∷ []

abbrev at_first : Getopt
at_first = record {
  optind = 1;
  optarg = none;
  optopt = 0;
  next_short = none;
  longindex = none;
  flags = [];
}

-- s, 4, p, p and the end.
taken :
    parse_options served shorts (port ∷ []) 20 at_first
    ≡ some (
      pos 115 ∷ pos 52 ∷ pos 112 ∷ pos 112 ∷ negsuc 0 ∷ [],
      record at_first { optind = 4; longindex = some 0 },
    )
unfolding parse_options
taken = refl

parse_options_ends_example :
    (rs : List ℤ) × (t : Getopt) × (parse_options served shorts (port ∷ []) 20 at_first
      ≡ some (rs, t))
parse_options_ends_example =
    parse_options_ends served shorts (port ∷ []) 20 at_first (omega arith) (omega arith)

-- "iperf3 --port"
abbrev no_port : List Bytes
no_port = (105 ∷ []) ∷ (45 ∷ 45 ∷ 112 ∷ 111 ∷ 114 ∷ 116 ∷ []) ∷ []

no_port-IsMissing : IsMissing no_port shorts (port ∷ []) at_first 0 port 112 (111 ∷ 114 ∷ 116 ∷ [])
no_port-IsMissing = record {
  positive = omega arith;
  last = refl;
  fresh = refl;
  word = refl;
  no_value = refl;
  known = refl;
  takes_argument = refl;
}

getopt_long_stuck_example :
    let (r, t) = getopt_long no_port shorts (port ∷ []) at_first in
    (r ≡ pos question) × (t.optind ≡ 1) × (getopt_long no_port shorts (port ∷ []) t ≡ (r, t))
getopt_long_stuck_example =
    getopt_long_stuck no_port shorts (port ∷ []) at_first 0 port 112 (111 ∷ 114 ∷ 116 ∷ [])
      no_port-IsMissing
