-- ===== src/Rate/Overflow.antt =====
-- src/iperf_api.c: an average over more intervals than the cyclic array has.
use iperf3_windows_msvc.Prelude.{
  ℕ, suc, ◌+◌, ◌<◌, ◌≡◌, refl, true, false, List, [], ◌∷◌, none, some, length, length-set, ltb,
  ◌==◌, arith,
}
use iperf3_windows_msvc.Prelude.Double.{Double}
use iperf3_windows_msvc.Rate.Total.{
  LimitSettings, LimitState, max_interval, reset_limit, check_average, next_index, check_total_rate,
  add_interval, run_checks,
}
use iperf3_windows_msvc.Rate.Exceeded.{check_average_lem}

module _ (D : Double) (c : LimitSettings (D.F)) where
  -- The state while the first lap over the array is not over.
  record FirstLap (count : ℕ) (s : LimitState) : Type 0 where
    pub running : s.done ≡ false
    pub index : s.last_interval_index ≡ count
    pub whole : length s.intervals_traffic_bytes ≡ max_interval

  check_average-FirstLap :
      (count : ℕ) (s : LimitState) → FirstLap count s → FirstLap count (check_average D c s)
  check_average-FirstLap count s lap =
      check_average_lem D c (FirstLap count) s lap
        (record { running = lap.running; index = lap.index; whole = lap.whole })

  module _ (many : max_interval < c.bitrate_limit_stats_per_interval)
      (limited : 0 < c.bitrate_limit) where
    limit_set : (c.bitrate_limit == 0) ≡ false
    limit_set = ground arith

    check-FirstLap :
        (v count : ℕ) (s : LimitState)
        → suc count < max_interval
        → FirstLap count s
        → (t : LimitState) × (check_total_rate D c v s ≡ some t) × FirstLap (suc count) t
    unfolding check_total_rate
    check-FirstLap v count s few lap =
        let next : next_index D c s.last_interval_index ≡ suc count =
          ground (arith, lap.index, many) in
        let inside : ltb (next_index D c s.last_interval_index) (length s.intervals_traffic_bytes)
            ≡ true =
          ground (arith, next, lap.whole) in
        let s' = add_interval D c v s in
        (
          check_average D c s',
          rw (lap.running, limit_set, inside) refl,
          check_average-FirstLap (suc count) s' (record {
            running = lap.running;
            index = next;
            whole = omega (
              arith,
              length-set s.intervals_traffic_bytes (next_index D c s.last_interval_index) v,
              lap.whole,
            );
          }),
        )

    run-FirstLap :
        (totals : List ℕ)
        → length totals < max_interval
        → (t : LimitState) × (run_checks D c totals ≡ some t) × FirstLap (length totals) t
    unfolding run_checks reset_limit
    run-FirstLap [] few = (reset_limit, refl, record { running = refl; index = refl; whole = refl })
    run-FirstLap (v ∷ totals) few =
        let (s, runs, lap) = run-FirstLap totals (omega arith) in
        let (t, checks, lap') = check-FirstLap v (length totals) s few lap in
        (t, rw (runs, checks) refl, lap')

    -- If the average is over more intervals than the array has, the check at the end of the 60th
    -- interval writes behind the end of the array, whatever the totals.
    pub run_checks_overflow :
        (v : ℕ) (totals : List ℕ)
        → length totals + 1 ≡ max_interval
        → run_checks D c (v ∷ totals) ≡ none
    unfolding run_checks check_total_rate
    run_checks_overflow v totals full =
        let (s, runs, lap) = run-FirstLap totals (omega arith) in
        let outside : ltb (next_index D c s.last_interval_index) (length s.intervals_traffic_bytes)
            ≡ false =
          ground (arith, lap.index, many, lap.whole, full) in
        rw (runs, lap.running, limit_set, outside) refl
