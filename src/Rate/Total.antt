-- ===== src/Rate/Total.antt =====
-- src/iperf_api.c: the server's limit on the rate of all streams together.
use iperf3_windows_msvc.Prelude.{
  ℕ, zero, suc, ◌+◌, ◌*◌, ◌%◌, ◌^◌, Bool, true, false, ◌||◌, List, [], ◌∷◌, Option, none, some,
  length, set, replicate, ltb, leb, ◌==◌, if◌then◌else◌,
}
use iperf3_windows_msvc.Prelude.Double.{Double}

-- The settings that the check reads.
pub record LimitSettings (F : Type 0) : Type 0 where
  pub bitrate_limit : ℕ  -- uint64_t
  pub bitrate_limit_stats_per_interval : ℕ
  pub stats_interval : F

-- The fields of `struct iperf_test` that the check reads or writes.
pub record LimitState : Type 0 where
  pub done : Bool
  pub last_interval_index : ℕ
  pub intervals_traffic_bytes : List ℕ
  pub stats_count : ℕ
  pub exceeded : Bool

-- MAX_INTERVAL, the length of the cyclic array.
abbrev pub max_interval : ℕ
max_interval = 60

-- As iperf_reset_test leaves it.
unfoldable pub reset_limit : LimitState
reset_limit = record {
  done = false;
  last_interval_index = 0;
  intervals_traffic_bytes = replicate max_interval 0;
  stats_count = 0;
  exceeded = false;
}

-- The sum over the first entries, into `total_bytes`.
abbrev pub add_intervals : ℕ → List ℕ → ℕ → ℕ
add_intervals zero xs total_bytes = total_bytes
add_intervals (suc n) [] total_bytes = total_bytes
add_intervals (suc n) (x ∷ xs) total_bytes = add_intervals n xs ((total_bytes + x) % 2 ^ 64)

module _ (D : Double) (c : LimitSettings (D.F)) where
  abbrev pub bits_per_second : ℕ → ℕ
  bits_per_second total_bytes = D.to_uint64 (
      D.div (D.of_nat (total_bytes * 8 % 2 ^ 64))
        (D.mul c.stats_interval (D.of_nat c.bitrate_limit_stats_per_interval)))

  -- The check itself, once the last interval is in the array.
  unfoldable pub check_average : LimitState → LimitState
  check_average s =
      if ltb s.stats_count c.bitrate_limit_stats_per_interval
      then s
      else if ltb c.bitrate_limit (
          bits_per_second
            (add_intervals c.bitrate_limit_stats_per_interval s.intervals_traffic_bytes 0))
      then record s { exceeded = true }
      else s

  abbrev pub next_index : ℕ → ℕ
  next_index i = if leb c.bitrate_limit_stats_per_interval (i + 1) then 0 else i + 1

  -- The total of an interval goes into the array.
  abbrev pub add_interval : ℕ → LimitState → LimitState
  add_interval last_interval_bytes_transferred s = record s {
    last_interval_index = next_index s.last_interval_index;
    intervals_traffic_bytes =
        set s.intervals_traffic_bytes (next_index s.last_interval_index)
          last_interval_bytes_transferred;
    stats_count = (s.stats_count + 1) % 2 ^ 64;
  }

  -- `none` is a write behind the end of the array.
  unfoldable pub check_total_rate : ℕ → LimitState → Option LimitState
  unfolding check_average
  check_total_rate last_interval_bytes_transferred s =
      if s.done || (c.bitrate_limit == 0)
      then some s
      else if ltb (next_index s.last_interval_index) (length s.intervals_traffic_bytes)
      then some (check_average (add_interval last_interval_bytes_transferred s))
      else none

  -- The checks at the end of successive intervals, whose totals are listed latest first.
  unfoldable pub run_checks : List ℕ → Option LimitState
  unfolding check_total_rate reset_limit
  run_checks [] = some reset_limit
  run_checks (v ∷ totals) = elim (run_checks totals) [ none ↦ none | some s ↦ check_total_rate v s ]
