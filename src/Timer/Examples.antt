-- ===== src/Timer/Examples.antt =====
-- src/timer.c: the theorems on timers at concrete lists, and a run of the timers.
use iperf3_windows_msvc.Prelude.{ℕ, ◌+◌, ◌≡◌, refl, List, [], ◌∷◌, some, true, false, arith}
use iperf3_windows_msvc.Time.{IperfTime}
use iperf3_windows_msvc.Timer.{
  Timer, Timers, Callback, tmr_create, tmr_timeout, tmr_cancel, tmr_cleanup, tmr_run, run_body,
}
use iperf3_windows_msvc.Timer.Order.{Placed, list_add_place}
use iperf3_windows_msvc.Timer.Timeout.{IsLeast, tmr_timeout-IsLeast}
use iperf3_windows_msvc.Timer.Operations.{IsSound, Operations, Operation}
use iperf3_windows_msvc.Timer.Keep.{Use, Uses, Operations-IsSound}

abbrev at : ℕ → ℕ → IperfTime
at secs usecs = record { secs = secs; usecs = usecs }

abbrev timer : ℕ → ℕ → Timer
timer address secs = record {
  address = address;
  timer_proc = 1;
  client_data = 0;
  usecs = 1000000;
  periodic = false;
  time = at secs 500000;
}

abbrev two_timers : List Timer
two_timers = timer 100 5 ∷ timer 200 8 ∷ []

abbrev running : Timers
running = record { timers = two_timers; free_timers = [] }

list_add_place_example : Placed (timer 300 5) two_timers
list_add_place_example =
    list_add_place (timer 300 5) two_timers (omega arith) (omega arith, (omega arith, tt))
      ((omega arith, tt), (tt, tt))

tmr_timeout-IsLeast_example : IsLeast (at 4 700000) two_timers (tmr_timeout (at 4 700000) running)
tmr_timeout-IsLeast_example =
    tmr_timeout-IsLeast (at 4 700000) running (omega arith) (omega arith, (omega arith, tt))
      ((omega arith, tt), (tt, tt))

abbrev empty : Timers
empty = record { timers = []; free_timers = [] }

abbrev one : Timers
one = (tmr_create (some 100) (at 4 0) 1 0 1000000 false empty).1

abbrev cancelled : Timers
cancelled = tmr_cancel (timer 100 5) one

-- A timer is created, cancelled, and its memory used again, then given back.
cancelled-count :
    tmr_cancel (timer 100 5) one ≡ record { timers = []; free_timers = timer 100 5 ∷ [] }
unfolding tmr_create tmr_cancel
cancelled-count = refl

-- Callbacks that leave the timers alone, and count how often they are called.
abbrev counting : Callback ℕ
counting t now (s, calls) = (s, calls + 1)

-- A periodic timer that is due, and another.
abbrev periodic_timer : Timer
periodic_timer = record (timer 100 5) { periodic = true }

abbrev started : Timers
started = record { timers = periodic_timer ∷ timer 200 8 ∷ []; free_timers = [] }

abbrev after_run : Timers
after_run = record {
  timers = record periodic_timer { time = at 6 500000 } ∷ timer 200 8 ∷ [];
  free_timers = [];
}

started_runs : tmr_run counting (at 6 0) 3 started 0 ≡ some (some (after_run, 1))
unfolding tmr_run iperf3_windows_msvc.Net.loop run_body iperf3_windows_msvc.Time.time_compare
    iperf3_windows_msvc.Time.time_add_usecs
started_runs = refl

started-IsSound : IsSound started
started-IsSound = record {
  normal = (omega arith, (omega arith, tt));
  ordered = ((omega arith, tt), (tt, tt));
  once = λ a. ground arith;
}

empty-IsSound : IsSound empty
empty-IsSound = record { normal = tt; ordered = tt; once = λ a. omega arith }

Operations-IsSound_example : IsSound (tmr_cleanup (tmr_cancel (timer 200 8) after_run))
Operations-IsSound_example =
    Operations-IsSound {call = counting} (λ p now s w. Operations.start) started-IsSound
      (Uses.then_use
        (Uses.then_use (Uses.then_use Uses.unused (Use.run (at 6 0) 3 0 1 started_runs))
          (Use.operation (Operation.cancel (timer 200 8) (omega arith))))
        (Use.operation Operation.cleanup))

-- The timer that is due is called once and freed; the other one stays.
run_example :
    tmr_run counting (at 6 0) 3 running 0
    ≡ some (some (record { timers = timer 200 8 ∷ []; free_timers = timer 100 5 ∷ [] }, 1))
unfolding tmr_run iperf3_windows_msvc.Net.loop run_body iperf3_windows_msvc.Time.time_compare
run_example = refl
