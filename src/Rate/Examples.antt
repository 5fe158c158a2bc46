-- ===== src/Rate/Examples.antt =====
-- src/iperf_api.c: the theorems on the limits at concrete settings.
use iperf3_windows_msvc.Prelude.Int.{pos}
use iperf3_windows_msvc.Rate.Send.{SendCalls, SendSettings, Sender, send_mt}
use iperf3_windows_msvc.Rate.Overshoot.{send_mt_overshoot}
use iperf3_windows_msvc.Prelude.{
  max, ◌≤◌, false, ℕ, ◌+◌, ◌≡◌, refl, ◌*◌, ◌/◌, true, [], ◌∷◌, none, some, replicate, arith, ltb,
}
use iperf3_windows_msvc.Prelude.Double.{Double}
use iperf3_windows_msvc.Rate.Total.{LimitSettings, LimitState, run_checks}
use iperf3_windows_msvc.Rate.Exceeded.{over_limit, run_checks-over_limit}
use iperf3_windows_msvc.Rate.Overflow.{run_checks_overflow}

abbrev whole_numbers : Double
whole_numbers = record {
  F = ℕ;
  of_nat = λ n. n;
  add = λ a b. a + b;
  sub = λ a b. a;
  mul = λ a b. a * b;
  neg = λ a. a;
  div = λ a b. a / b;
  lt = λ a b. ltb a b;
  to_uint64 = λ a. a;
}

-- 80 bits a second at most, over three intervals of a second.
abbrev three_seconds : LimitSettings ℕ
three_seconds = record {
  bitrate_limit = 80;
  bitrate_limit_stats_per_interval = 3;
  stats_interval = 1;
}

-- The last three intervals are above the limit.
busy : over_limit whole_numbers three_seconds (20 ∷ 9 ∷ 8 ∷ 1 ∷ []) ≡ true
busy = refl

run_checks-over_limit_example :
    (t : LimitState) × (run_checks whole_numbers three_seconds (20 ∷ 9 ∷ 8 ∷ 1 ∷ []) ≡ some t)
    × (t.exceeded ≡ over_limit whole_numbers three_seconds (20 ∷ 9 ∷ 8 ∷ 1 ∷ []))
run_checks-over_limit_example =
    run_checks-over_limit whole_numbers three_seconds (20 ∷ 9 ∷ 8 ∷ 1 ∷ []) (omega arith)
      (omega arith) (omega arith) (omega arith)

-- An average over a minute, with ten reports a second.
abbrev minute : LimitSettings ℕ
minute = record { bitrate_limit = 80; bitrate_limit_stats_per_interval = 600; stats_interval = 1 }

run_checks_overflow_example : run_checks whole_numbers minute (5 ∷ replicate 59 7) ≡ none
run_checks_overflow_example =
    run_checks_overflow whole_numbers minute (omega arith) (omega arith) 5 (replicate 59 7) refl

-- Messages of 40 bytes, without a rate limit.
abbrev forty : SendCalls (Unit {0})
forty = record { snd = λ s. (pos 40, s); now = λ w. (record { secs = 1; usecs = 0 }, w) }

abbrev up_to_hundred : SendSettings
up_to_hundred = record { rate = 0; burst = 0; bytes = 100; blocks = 0; multisend = 10 }

abbrev fresh : Sender (Unit {0})
fresh = record {
  done = false;
  bytes_sent = 0;
  blocks_sent = 0;
  green_light = true;
  pending_size = 0;
  stream_bytes_sent = 0;
  start_time_fixed = record { secs = 0; usecs = 0 };
  world = tt;
}

-- Three messages are sent.
three_messages :
    (send_mt whole_numbers forty up_to_hundred (record { secs = 0; usecs = 0 }) fresh).1.bytes_sent
    ≡ 120
unfolding send_mt
three_messages = refl

send_mt_overshoot_example :
    (send_mt whole_numbers forty up_to_hundred (record { secs = 0; usecs = 0 }) fresh).1.bytes_sent
    ≤ max 0 (100 + 40) + 40
send_mt_overshoot_example =
    send_mt_overshoot whole_numbers forty up_to_hundred 40 (record { secs = 0; usecs = 0 }) fresh
      (λ s. (omega arith, refl)) (omega arith) (omega arith) (omega arith)
