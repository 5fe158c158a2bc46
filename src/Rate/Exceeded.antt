-- ===== src/Rate/Exceeded.antt =====
-- src/iperf_api.c: the server's rate check against the average over the last intervals.
use mathlib.Core.Path.{subst}
use iperf3_windows_msvc.Prelude.{
  branches, leb→le, inl, inr, ℕ, suc, ◌-◌, ◌*◌, ◌%◌, ◌^◌, ◌≤◌, ◌<◌, ◌≡◌, refl, sym, ap, ◌∙◌, Bool,
  true, false, ◌&&◌, List, [], ◌∷◌, some, length, take, ltb, leb, ◌==◌, if◌then◌else◌, arith,
  Bool-cases,
}
use iperf3_windows_msvc.Prelude.Double.{Double}
use iperf3_windows_msvc.Rate.Total.{
  LimitSettings, LimitState, max_interval, reset_limit, bits_per_second, check_average, next_index,
  check_total_rate, add_interval, run_checks,
}
use iperf3_windows_msvc.Rate.Window.{IsRing, sum, next-IsRing, reset-IsRing, ring_total}

exceeded_if :
    (s : LimitState) {b : Bool} (test : Bool)
    → s.exceeded ≡ b
    → (if test then record s { exceeded = true } else s).exceeded
      ≡ (if true && test then true else b)
exceeded_if s true e = refl
exceeded_if s false e = e

module _ (D : Double) (c : LimitSettings (D.F)) where
  -- At the end of some interval, the average over the `n` latest ones was above the limit.
  abbrev pub over_limit : List ℕ → Bool
  over_limit [] = false
  over_limit (v ∷ totals) =
      if leb c.bitrate_limit_stats_per_interval (length (v ∷ totals))
        && ltb c.bitrate_limit
            (bits_per_second D c (sum (take c.bitrate_limit_stats_per_interval (v ∷ totals))))
      then true
      else over_limit totals

  bits_per_second_wrap : (x : ℕ) → bits_per_second D c (x % 2 ^ 64) ≡ bits_per_second D c x
  bits_per_second_wrap x =
      let wrap : x % 2 ^ 64 * 8 % 2 ^ 64 ≡ x * 8 % 2 ^ 64 = omega arith in
      ap
        (λ t. D.to_uint64 (
          D.div (D.of_nat t)
            (D.mul c.stats_interval (D.of_nat c.bitrate_limit_stats_per_interval))))
        wrap

  -- What is known of the state after the checks for `totals`.
  record Watching (n : ℕ) (totals : List ℕ) (s : LimitState) : Type 0 where
    pub ring : IsRing n totals s
    pub running : s.done ≡ false
    pub count : s.stats_count ≡ length totals
    pub verdict : s.exceeded ≡ over_limit totals

  pub check_average_lem :
      (P : LimitState → Type 0) (s : LimitState)
      → P s
      → P (record s { exceeded = true })
      → P (check_average D c s)
  unfolding check_average
  check_average_lem P s same set_it = branches P _ same (branches P _ set_it same)

  check_average-IsRing :
      (n : ℕ) (totals : List ℕ) (s : LimitState)
      → IsRing n totals s
      → IsRing n totals (check_average D c s)
  check_average-IsRing n totals s ring = check_average_lem (IsRing n totals) s ring (record {
    lap = ring.lap;
    before = ring.before;
    unused = ring.unused;
    array = ring.array;
    index = ring.index;
    size = ring.size;
    whole = ring.whole;
    latest = ring.latest;
  })

  -- The check on the average, whose array already has the last total.
  check_average-over_limit :
      (v : ℕ) (totals : List ℕ) (s : LimitState)
      → IsRing c.bitrate_limit_stats_per_interval (v ∷ totals) s
      → s.stats_count ≡ length (v ∷ totals)
      → s.exceeded ≡ over_limit totals
      → (check_average D c s).exceeded ≡ over_limit (v ∷ totals)
  unfolding check_average
  check_average-over_limit v totals s ring count verdict =
      let n = c.bitrate_limit_stats_per_interval in
      elim (Bool-cases (ltb s.stats_count n)) [
        | inl few ↦
            let short : leb n (length (v ∷ totals)) ≡ false = ground arith in
            rw (few, short) verdict
        | inr enough ↦
            let long : leb n (length (v ∷ totals)) ≡ true = ground arith in
            let rate =
              ap (bits_per_second D c) (ring_total n (v ∷ totals) s ring (leb→le _ _ long))
              ∙ bits_per_second_wrap (sum (take n (v ∷ totals))) in
            rw (enough, long, rate) (exceeded_if s _ verdict)
      ]

  -- One more check stays inside the array.
  check-Watching :
      (n v : ℕ) (totals : List ℕ) (s : LimitState)
      → c.bitrate_limit_stats_per_interval ≡ suc n
      → suc n ≤ max_interval
      → 0 < c.bitrate_limit
      → length (v ∷ totals) < 2 ^ 64
      → Watching (suc n) totals s
      → (t : LimitState) × (check_total_rate D c v s ≡ some t) × Watching (suc n) (v ∷ totals) t
  unfolding check_total_rate
  check-Watching n v totals s per small limited fits w =
      let s' = add_interval D c v s in
      let inside : ltb (next_index D c s.last_interval_index) (length s.intervals_traffic_bytes)
          ≡ true =
        ground (arith, per, w.ring.whole, w.ring.size, w.ring.index) in
      let limit : (c.bitrate_limit == 0) ≡ false = ground arith in
      let ring = next-IsRing D c v totals s s' n per w.ring refl refl in
      let count : s'.stats_count ≡ length (v ∷ totals) = omega (arith, w.count) in
      (
        check_average D c s',
        rw (w.running, limit, inside) refl,
        record {
          ring = check_average-IsRing (suc n) (v ∷ totals) s' ring;
          running = check_average_lem (λ t. t.done ≡ false) s' w.running w.running;
          count = check_average_lem (λ t. t.stats_count ≡ length (v ∷ totals)) s' count count;
          verdict =
              check_average-over_limit v totals s'
                (subst (λ m. IsRing m (v ∷ totals) s') (sym per) ring) count w.verdict;
        },
      )

  run-Watching :
      (n : ℕ) (totals : List ℕ)
      → c.bitrate_limit_stats_per_interval ≡ suc n
      → suc n ≤ max_interval
      → 0 < c.bitrate_limit
      → length totals < 2 ^ 64
      → (t : LimitState) × (run_checks D c totals ≡ some t) × Watching (suc n) totals t
  unfolding run_checks reset_limit
  run-Watching n [] per small limited fits = (
    reset_limit,
    refl,
    record { ring = reset-IsRing n small; running = refl; count = refl; verdict = refl },
  )
  run-Watching n (v ∷ totals) per small limited fits =
      let (s, runs, w) = run-Watching n totals per small limited (omega arith) in
      let (t, checks, w') = check-Watching n v totals s per small limited fits w in
      (t, rw (runs, checks) refl, w')

  -- Whatever the totals of the intervals, the checks never leave the array, and the limit counts as
  -- exceeded exactly if at the end of some interval the last n intervals there were at least n of
  -- together had a bit rate above it; n is the number of intervals of the average, between 1 and the
  -- length of the array, and there are fewer than 2 ^ 64 intervals.
  pub run_checks-over_limit :
      (totals : List ℕ)
      → 0 < c.bitrate_limit_stats_per_interval
      → c.bitrate_limit_stats_per_interval ≤ max_interval
      → 0 < c.bitrate_limit
      → length totals < 2 ^ 64
      → (t : LimitState) × (run_checks D c totals ≡ some t) × (t.exceeded ≡ over_limit totals)
  run_checks-over_limit totals positive small limited fits =
      let n = c.bitrate_limit_stats_per_interval - 1 in
      let (t, runs, w) = run-Watching n totals (omega arith) (omega arith) limited fits in
      (t, runs, w.verdict)
