-- ===== src/Timer/Keep.antt =====
-- src/timer.c: the operations on the two lists, and a run of the timers, keep them sound.
use mathlib.Core.Path.{subst}
use iperf3_windows_msvc.Prelude.{
  zero, suc, ℕ, ◌<◌, ◌≡◌, refl, List, [], ◌∷◌, Option, none, some, arith, Bool-cases, ◌==◌, inl,
  inr, ap, ==_iff, sym, ◌∙◌, none≢some, some-injective, branches,
}
use iperf3_windows_msvc.Prelude.Int.{pos, ltb_ℤ}
use iperf3_windows_msvc.Time.{IperfTime, time_add_usecs, time_compare}
use iperf3_windows_msvc.Time.Laws.{time_add_usecs-IsNormal}
use iperf3_windows_msvc.Net.{Round, return, continue, loop}
use iperf3_windows_msvc.Timer.{
  Timer, Timers, Callback, Running, find, next_of, settle, run_body, tmr_run,
}
use iperf3_windows_msvc.Timer.Operations.{
  IsSound, count_at, resorted-IsSound, tmr_cancel-IsSound, Operation, Operations, Operation-IsSound,
  steps-IsSound,
}

find_active :
    (p : ℕ) (ts : List Timer) {t : Timer}
    → find p ts ≡ some t
    → (t.address ≡ p) × (0 < count_at p ts)
unfolding find
find_active p [] e = absurd (none≢some e)
find_active p (u ∷ ts) e = elim (Bool-cases (u.address == p)) [
  | inl here ↦
      let same = some-injective (rw here at e) in
      (ap (λ v. v.address) (sym same) ∙ (==_iff _ _).0 here, rw here (omega arith))
  | inr there ↦
      let (address, active) = find_active p ts (rw there at e) in (address, rw there (omega arith))
]

-- The lists of a loop that goes on, or that has come to its end without a fault, are sound.
abbrev SoundEnd : {W : Type 0} → Option (Timers × W) → Type 0
SoundEnd none = Unit
SoundEnd (some a) = IsSound a.0

abbrev Sound : {W : Type 0} → Round (Option (Timers × W)) (Running W) → Type 0
Sound (return a) = SoundEnd a
Sound (continue s) = IsSound s.lists

-- To split on an answer inside a goal.
on_option :
    {A X : Type 0} (P : X → Type 0) (o : Option A) {x : X} {f : A → X}
    → P x
    → ((a : A) → o ≡ some a → P (f a))
    → P (elim o [ none ↦ x | some a ↦ f a ])
on_option P none h k = h
on_option P (some a) h k = k a refl

abbrev SoundLoop : {W : Type 0} → Option (Option (Timers × W)) → Type 0
SoundLoop none = Unit
SoundLoop (some a) = SoundEnd a

after_round :
    {W : Type 0} (rest : Running W → Option (Option (Timers × W)))
    → ((s : Running W) → IsSound s.lists → SoundLoop (rest s))
    → (r : Round (Option (Timers × W)) (Running W)) → Sound r
    → SoundLoop (elim r [ return a ↦ some a | continue s ↦ rest s ])
after_round rest k (return a) h = h
after_round rest k (continue s) h = k s h

module _ {W : Type 0} (call : Callback W) (now : IperfTime)
    (calls : (t : Timer) (at : IperfTime) (s : Timers) (w : W)
      → Operations s (call t at (s, w)).0) where
  settle-Sound :
      (p : ℕ) (after : Option ℕ) (a : Timers × W) → IsSound a.0 → Sound (settle call now p after a)
  unfolding settle
  settle-Sound p after a h = on_option Sound (find p a.0.timers) tt (λ t e.
      let (address, active) = find_active p a.0.timers e in
      let here : 0 < count_at t.address a.0.timers = rw address active in
      branches IsSound t.periodic
        (resorted-IsSound t (time_add_usecs t.time t.usecs) a.0 h here
          (time_add_usecs-IsNormal t.time t.usecs))
        (tmr_cancel-IsSound t a.0 h here))

  run_body-Sound : (s : Running W) → IsSound s.lists → Sound (run_body call now s)
  unfolding run_body
  run_body-Sound s h = on_option Sound s.cur h (λ p at.
      on_option Sound (find p s.lists.timers) tt (λ t found.
        branches Sound (ltb_ℤ (pos 0) (time_compare t.time now)) h (
          settle-Sound p (next_of p s.lists.timers) (call t now (s.lists, s.world))
            (steps-IsSound h (calls t now s.lists s.world)))))

  loop_sound :
      (fuel : ℕ) (s : Running W) → IsSound s.lists → SoundLoop (loop (run_body call now) fuel s)
  unfolding loop
  loop_sound zero s h = tt
  loop_sound (suc fuel) s h =
      after_round (loop (run_body call now) fuel) (loop_sound fuel) (run_body call now s)
        (run_body-Sound s h)

  tmr_run-IsSound :
      (fuel : ℕ) (s u : Timers) (w v : W)
      → IsSound s
      → tmr_run call now fuel s w ≡ some (some (u, v))
      → IsSound u
  unfolding tmr_run
  tmr_run-IsSound fuel s u w v h e = subst SoundLoop e (loop_sound fuel _ h)

-- A use of the timers: an operation, or a run of the timers that are due that comes to its end, with a
-- callback `call`. A fault is no end.
pub data Use {W : Type 0} (call : Callback W) (s : Timers) : Timers → Type 0 where
  operation : {t : Timers} → Operation s t → Use call s t
  run :
      (now : IperfTime) (fuel : ℕ) (w v : W) {t : Timers}
      → tmr_run call now fuel s w ≡ some (some (t, v))
      → Use call s t

pub data Uses {W : Type 0} (call : Callback W) (s : Timers) : Timers → Type 0 where
  unused : Uses call s s
  then_use : {t u : Timers} → Uses call s t → Use call t u → Uses call s u

-- Whatever the operations on timers and the runs of the timers that are due, and their order, the active
-- timers stay sorted by time, with timestamps in range, and no timer is on the two lists twice. A timer
-- is cancelled or reset only while it is active, a callback changes the timers only by such operations,
-- and a run comes to its end without a fault.
pub Operations-IsSound :
    {W : Type 0} {call : Callback W} {s t : Timers}
    → ((p : Timer) (at : IperfTime) (v : Timers) (w : W) → Operations v (call p at (v, w)).0)
    → IsSound s
    → Uses call s t
    → IsSound t
Operations-IsSound calls h unused = h
Operations-IsSound calls h (then_use uses (operation op)) =
    Operation-IsSound _ (Operations-IsSound calls h uses) op
Operations-IsSound {call = call} calls h (then_use uses (run now fuel w v e)) =
    tmr_run-IsSound call now calls fuel _ _ w v (Operations-IsSound calls h uses) e
