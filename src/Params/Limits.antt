-- ===== src/Params/Limits.antt =====
-- src/iperf_api.c: what the parameters that the server accepts satisfy.
use mathlib.Core.Path.{subst}
use iperf3_windows_msvc.Prelude.{
  not, ◌==◌, ltb, ℕ, ◌+◌, ◌*◌, ◌≤◌, ◌<◌, ◌^◌, ◌%◌, ◌≡◌, refl, ap, ◌∙◌, sym, Bool, true, false,
  arith, ◌&&◌, ◌||◌,
}
use iperf3_windows_msvc.Prelude.Int.{ℤ, ◌≤ℤ◌, pos, ltb_ℤ, ◌==ℤ◌, ◌+ℤ◌, eq_of_parts, +ℤ_parts}
use iperf3_windows_msvc.Json.{Json}
use iperf3_windows_msvc.Params.Words.{to_u64_id, to_u64, to_i32, to_i32_id}
use iperf3_windows_msvc.Params.Get.{
  total_requested, directions, collect_parameters, over_limit, too_long, refuse_if, check_limits,
  take_parameters,
}
use iperf3_windows_msvc.Params.{Params, ietotalrate, iemaxservertestdurationexceeded}

-- A test that was passed.
passed :
    (test : Bool) (code : ℕ) (q : ℤ × Params)
    → (refuse_if test code q).0 ≡ pos 0
    → (test ≡ false) × (refuse_if test code q ≡ q)
passed true code q h = absurd (ground (arith, h))
passed false code q h = (refl, refl)

-- The three tests found nothing.
record IsPassed (p : Params) : Type 0 where
  rate : over_limit p p.rate ≡ false
  fqrate : over_limit p p.fqrate ≡ false
  length : too_long p ≡ false

accepted : (q : ℤ × Params) → (check_limits q).0 ≡ pos 0 → IsPassed (check_limits q).1
unfolding check_limits
accepted (r, p) h =
    let (no_fqrate, e1) = passed (over_limit p p.fqrate) ietotalrate _ h in
    let (no_rate, e2) = passed (over_limit p p.rate) ietotalrate _ (ap (λ q. q.0) (sym e1) ∙ h) in
    let (no_length, e3) =
      passed (too_long p) iemaxservertestdurationexceeded (r, p)
        (ap (λ q. q.0) (sym (e1 ∙ e2)) ∙ h) in
    subst IsPassed (ap (λ q. q.1) (sym (e1 ∙ e2 ∙ e3)))
      (record { rate = no_rate; fqrate = no_fqrate; length = no_length })

-- What a server with limits has agreed to.
pub record IsWithin (s : Params) (streams duration omit : ℕ) : Type 0 where
  pub rate : streams * s.rate * directions s.mode ≤ s.bitrate_limit
  pub fqrate : streams * s.fqrate * directions s.mode ≤ s.bitrate_limit
  pub not_endless : 0 < duration
  pub short : pos (duration + omit) ≤ℤ s.max_server_duration

small_mod : (n : ℕ) → n < 2 ^ 64 → n % 2 ^ 64 ≡ n
small_mod n h = omega arith

not_over :
    (limit total : ℕ) → 0 < limit → (not (limit == 0) && ltb limit total) ≡ false → total ≤ limit
not_over limit total limited h = ground arith

total_requested-pos :
    (p : Params) (streams rate : ℕ)
    → p.num_streams ≡ pos streams
    → streams < 2 ^ 31
    → streams * rate * directions p.mode < 2 ^ 64
    → total_requested p rate ≡ streams * rate * directions p.mode
unfolding total_requested
total_requested-pos p streams rate e few h =
    ap (λ n. to_u64 n * rate * directions p.mode % 2 ^ 64) e
    ∙ ap (λ n. n * rate * directions p.mode % 2 ^ 64) (to_u64_id streams (omega arith))
    ∙ small_mod (streams * rate * directions p.mode) h

rate_bound :
    (p : Params) (streams rate : ℕ)
    → p.num_streams ≡ pos streams
    → streams < 2 ^ 31
    → 0 < p.bitrate_limit
    → streams * rate * directions p.mode < 2 ^ 64
    → over_limit p rate ≡ false
    → streams * rate * directions p.mode ≤ p.bitrate_limit
rate_bound p streams rate e few limited h under =
    let total = total_requested-pos p streams rate e few h in
    rw (total) at (not_over p.bitrate_limit (total_requested p rate) limited under)

length_bound :
    (max_duration : ℤ) (duration omit : ℕ)
    → ltb_ℤ (pos 0) max_duration ≡ true
    → duration + omit < 2 ^ 31
    → (ltb_ℤ (pos 0) max_duration
        && (ltb_ℤ max_duration (to_i32 (pos duration +ℤ pos omit)) || (pos duration ==ℤ pos 0)))
      ≡ false
    → (0 < duration) × (pos (duration + omit) ≤ℤ max_duration)
length_bound max_duration duration omit timed fits h =
    let sum : pos duration +ℤ pos omit ≡ pos (duration + omit) =
      eq_of_parts _ _ (omega (arith, +ℤ_parts (pos duration) (pos omit))) in
    let same : to_i32 (pos duration +ℤ pos omit) ≡ pos (duration + omit) =
      ap to_i32 sum ∙ to_i32_id (pos (duration + omit)) (fits, omega arith) in
    ground (arith, rw (timed, same) at h)

module _ (lib : Json) (o : lib.Obj) (has_tcpinfo : Bool) (s0 s : Params) where
  -- Parameters that the server accepts keep to its limits: the rates of all streams in all directions
  -- sum up to the limit at most, and the test is not endless and not longer than allowed, omitted time
  -- included. The limits are set, there are fewer than 2 ^ 31 streams, the sums of the rates are below
  -- 2 ^ 64, and the times are not negative and their sum is an int.
  pub take_parameters-IsWithin :
      take_parameters lib o has_tcpinfo s0 ≡ (pos 0, s)
      → (streams duration omit : ℕ) → s.num_streams ≡ pos streams
      → s.duration ≡ pos duration
      → s.omit ≡ pos omit
      → streams < 2 ^ 31
      → duration + omit < 2 ^ 31
      → streams * s.rate * directions s.mode < 2 ^ 64
      → streams * s.fqrate * directions s.mode < 2 ^ 64
      → 0 < s.bitrate_limit
      → ltb_ℤ (pos 0) s.max_server_duration ≡ true
      → IsWithin s streams duration omit
  unfolding take_parameters
  take_parameters-IsWithin ok streams duration omit e1 e2 e3 few fits small small_fq limited timed =
      let passed : IsPassed s =
        subst IsPassed (ap (λ q. q.1) ok)
          (accepted (collect_parameters lib o has_tcpinfo s0) (ap (λ q. q.0) ok)) in
      let (not_endless, short) =
        length_bound s.max_server_duration duration omit timed fits
          (rw (e2, e3) at passed.length) in
      record {
        rate = rate_bound s streams s.rate e1 few limited small passed.rate;
        fqrate = rate_bound s streams s.fqrate e1 few limited small_fq passed.fqrate;
        not_endless = not_endless;
        short = short;
      }
