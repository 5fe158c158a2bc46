-- ===== src/Timer/Timeout.antt =====
-- src/timer.c: `tmr_timeout` is the time until the earliest timer.
use iperf3_windows_msvc.Prelude.{
  ℕ, ◌+◌, ◌-◌, ◌*◌, ◌≤◌, ◌≡◌, refl, List, [], ◌∷◌, Option, none, some, All, arith, min,
  if◌then◌else◌, ◌==◌, ◌<◌,
}
use iperf3_windows_msvc.Time.{IperfTime, IsNormal, time_diff, time_in_usecs}
use iperf3_windows_msvc.Time.Laws.{instant, instant-diff, in_usecs_instant, time_diff_distance}
use iperf3_windows_msvc.Timer.{Timer, Timers, timeout_of, tmr_timeout}
use iperf3_windows_msvc.Timer.Order.{Normal, Ordered}

-- The microseconds from `now` until the first of the timers is due; 0 if one is due already.
abbrev pub remaining : IperfTime → Timer → List Timer → ℕ
remaining now t [] = instant t.time - instant now
remaining now t (u ∷ ts) = min (instant t.time - instant now) (remaining now u ts)

remaining-head :
    (now : IperfTime) (t : Timer) (ts : List Timer)
    → All (λ u. instant t.time ≤ instant u.time) ts
    → Ordered ts
    → remaining now t ts ≡ instant t.time - instant now
remaining-head now t [] a o = refl
remaining-head now t (u ∷ ts) (le, a) (first, o) = omega (arith, remaining-head now u ts first o)

-- What `tmr_timeout` puts into the timeval for the head of the list.
wait_usecs : IperfTime → Timer → ℕ
wait_usecs now t =
    let (past, diff) = time_diff t.time now in if past == 0 then time_in_usecs diff else 0

wait_usecs_lem :
    (now : IperfTime) (t : Timer)
    → IsNormal now
    → IsNormal t.time
    → wait_usecs now t ≡ instant t.time - instant now
unfolding wait_usecs
wait_usecs_lem now t nn nt =
    let (dist, late) = instant-diff t.time now nt nn in
    let (_, normal, _) = time_diff_distance t.time now nt nn in
    ground (arith, dist, late, in_usecs_instant (time_diff t.time now).1 normal)

-- What the timeout of the timers `ts` has to be: the least time that remains to any of them.
abbrev pub IsLeast : IperfTime → List Timer → Option (ℕ × ℕ) → Type 0
IsLeast now [] timeout = timeout ≡ none
IsLeast now (t ∷ ts) none = ⊥
IsLeast now (t ∷ ts) (some (sec, usec)) =
    (usec < 1000000) × (sec * 1000000 + usec ≡ remaining now t ts)

timeout_of-IsLeast :
    (now : IperfTime) (ts : List Timer)
    → IsNormal now
    → Normal ts
    → Ordered ts
    → IsLeast now ts (timeout_of now ts)
unfolding timeout_of wait_usecs
timeout_of-IsLeast now [] nn n o = refl
timeout_of-IsLeast now (t ∷ ts) nn (nt, n) (first, o) =
    (omega arith, omega (arith, wait_usecs_lem now t nn nt, remaining-head now t ts first o))

-- The timeout of a sorted list is the least time that remains to any of its timers, split into
-- seconds and microseconds; there is none where there is no timer. All timestamps are in range.
pub tmr_timeout-IsLeast :
    (now : IperfTime) (s : Timers)
    → IsNormal now
    → Normal s.timers
    → Ordered s.timers
    → IsLeast now s.timers (tmr_timeout now s)
unfolding tmr_timeout
tmr_timeout-IsLeast now s nn n o = timeout_of-IsLeast now s.timers nn n o
