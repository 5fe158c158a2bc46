-- ===== src/Server/Wait.antt =====
-- src/iperf_server_api.c: how long the main loop lets select(2) wait.
use mathlib.Core.Bool.{true≢false}
use iperf3_windows_msvc.Prelude.{
  ℕ, ◌+◌, ◌*◌, ◌≡◌, refl, min, Bool, true, false, ◌||◌, List, [], ◌∷◌, Option, none, some, arith,
  ltb, leb, ◌==◌, if◌then◌else◌,
}
use iperf3_windows_msvc.Prelude.Int.{pos, ltb_ℤ}
use iperf3_windows_msvc.Time.{IperfTime, IsNormal}
use iperf3_windows_msvc.Time.Laws.{instant}
use iperf3_windows_msvc.Timer.{Timer, Timers, tmr_timeout}
use iperf3_windows_msvc.Timer.Order.{Normal, Ordered}
use iperf3_windows_msvc.Timer.Timeout.{remaining, IsLeast, tmr_timeout-IsLeast}
use iperf3_windows_msvc.Control.{Mode, sender, receiver, bidirectional, iperf_start}

abbrev pub is_sender : Mode → Bool
is_sender sender = true
is_sender receiver = false
is_sender bidirectional = false

-- A timeval in microseconds.
abbrev pub timeval_usecs : ℕ × ℕ → ℕ
timeval_usecs (sec, usec) = sec * 1000000 + usec

-- `used_timeout` in an active test that receives.
unfoldable pub used_timeout : IperfTime → Option (ℕ × ℕ) → ℕ × ℕ
used_timeout rcv_timeout none = (rcv_timeout.secs, rcv_timeout.usecs)
used_timeout rcv_timeout (some timeout) =
    let timeout_us =
      if ltb_ℤ (pos 1000000) (pos (timeval_usecs timeout))
      then pos 1000000
      else pos (timeval_usecs timeout) in
    if ltb_ℤ timeout_us (pos 0)
      || ltb_ℤ (pos (timeval_usecs (rcv_timeout.secs, rcv_timeout.usecs))) timeout_us
    then (rcv_timeout.secs, rcv_timeout.usecs)
    else timeout

-- The timeout for select(2); `none` is no timeout, and `timeout` what tmr_timeout answered.
unfoldable pub select_timeout : ℕ → Mode → ℕ → IperfTime → Option (ℕ × ℕ) → Option (ℕ × ℕ)
unfolding used_timeout
select_timeout state mode idle_timeout rcv_timeout timeout =
    if state == iperf_start
    then elim timeout [
      | none ↦ if ltb 0 idle_timeout then some (idle_timeout, 0) else none
      | some t ↦ some t
    ]
    else elim mode [
      | sender ↦ timeout
      | receiver ↦ some (used_timeout rcv_timeout timeout)
      | bidirectional ↦ some (used_timeout rcv_timeout timeout)
    ]

-- What the wait comes to, with `left` until the first timer is due: up to a second it is the smaller
-- of that and the limit for receiving; above a second it is the limit only if that is below a second.
abbrev pub wait_time : ℕ → ℕ → ℕ
wait_time limit left =
    if leb left 1000000 then min left limit else if ltb limit 1000000 then limit else left

-- The server waits that long for the timers `ts`, and for the limit where there is none.
abbrev pub Waits : IperfTime → IperfTime → List Timer → Option (ℕ × ℕ) → Type 0
Waits now rcv_timeout ts none = ⊥
Waits now rcv_timeout [] (some wait) = timeval_usecs wait ≡ instant rcv_timeout
Waits now rcv_timeout (t ∷ ts) (some wait) =
    timeval_usecs wait ≡ wait_time (instant rcv_timeout) (remaining now t ts)

used_timeout-Waits :
    (now rcv_timeout : IperfTime) (ts : List Timer) (timeout : Option (ℕ × ℕ))
    → IsLeast now ts timeout
    → Waits now rcv_timeout ts (some (used_timeout rcv_timeout timeout))
unfolding used_timeout
used_timeout-Waits now rcv_timeout [] none h = refl
used_timeout-Waits now rcv_timeout [] (some t) h = absurd (ground (arith, h))
used_timeout-Waits now rcv_timeout (t ∷ ts) none h = elim h [ ]
used_timeout-Waits now rcv_timeout (t ∷ ts) (some (sec, usec)) (small, least) =
    ground (arith, least)

-- While a test runs in which the server receives, select(2) waits until the first timer is due, and
-- no longer than the receive timeout, if that timer is due within a second; a timer that is due later
-- is waited for however long it takes, unless the receive timeout is less than a second. With no
-- timer the wait is the receive timeout. The timers are sorted and all timestamps are in range.
pub select_timeout-Waits :
    (now rcv_timeout : IperfTime) (s : Timers) (state idle_timeout : ℕ) (mode : Mode)
    → (state == iperf_start) ≡ false
    → is_sender mode ≡ false
    → IsNormal now
    → Normal s.timers
    → Ordered s.timers
    → Waits now rcv_timeout s.timers
        (select_timeout state mode idle_timeout rcv_timeout (tmr_timeout now s))
unfolding select_timeout
select_timeout-Waits now rcv_timeout s state idle_timeout sender active receives nn n o =
    absurd (true≢false receives)
select_timeout-Waits now rcv_timeout s state idle_timeout receiver active receives nn n o =
    rw active (
      used_timeout-Waits now rcv_timeout s.timers (tmr_timeout now s)
        (tmr_timeout-IsLeast now s nn n o))
select_timeout-Waits now rcv_timeout s state idle_timeout bidirectional active receives nn n o =
    rw active (
      used_timeout-Waits now rcv_timeout s.timers (tmr_timeout now s)
        (tmr_timeout-IsLeast now s nn n o))
