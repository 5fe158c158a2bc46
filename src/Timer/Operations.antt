-- ===== src/Timer/Operations.antt =====
-- src/timer.c: every operation on the two lists keeps them sound.
use iperf3_windows_msvc.Prelude.{
  ℕ, ◌+◌, ◌≤◌, ◌<◌, ◌≡◌, refl, List, [], ◌∷◌, Option, none, some, All, arith, Bool, Bool-cases,
  ◌==◌, if◌then◌else◌, inl, inr, ap, ==_iff,
}
use iperf3_windows_msvc.Prelude.Int.{pos, ltb_ℤ}
use iperf3_windows_msvc.Time.{IperfTime, IsNormal, time_add_usecs, time_compare}
use iperf3_windows_msvc.Time.Laws.{time_add_usecs-IsNormal}
use iperf3_windows_msvc.Timer.{
  Timer, Timers, list_add, list_remove, list_resort, take_free, tmr_create, tmr_reset, tmr_cancel,
  tmr_cleanup, cancel_all, tmr_destroy,
}
use iperf3_windows_msvc.Timer.Order.{Normal, Ordered, All-list_add, list_add-Ordered}

-- How many timers of the list are at the address.
abbrev pub count_at : ℕ → List Timer → ℕ
count_at a [] = 0
count_at a (t ∷ ts) = (if t.address == a then 1 else 0) + count_at a ts

-- The active timers are sorted, and no timer is on the lists twice.
pub record IsSound (s : Timers) : Type 0 where
  pub normal : Normal s.timers
  pub ordered : Ordered s.timers
  pub once : (a : ℕ) → count_at a s.timers + count_at a s.free_timers ≤ 1

count_at-list_add :
    (a : ℕ) (t : Timer) (ts : List Timer) → count_at a (list_add t ts) ≡ count_at a (t ∷ ts)
unfolding list_add
count_at-list_add a t [] = refl
count_at-list_add a t (u ∷ ts) = elim (Bool-cases (ltb_ℤ (time_compare t.time u.time) (pos 0))) [
  | inl sooner ↦ rw sooner
  | inr later ↦ rw later (omega (arith, count_at-list_add a t ts))
]

-- Taking out a timer that is there lowers the count at its address by one.
count_at-list_remove :
    (a p : ℕ) (ts : List Timer)
    → 0 < count_at p ts
    → count_at a (list_remove p ts) + (if p == a then 1 else 0) ≡ count_at a ts
unfolding list_remove
count_at-list_remove a p [] h = absurd (omega arith)
count_at-list_remove a p (t ∷ ts) h = elim (Bool-cases (t.address == p)) [
  | inl here ↦ rw here (ground arith)
  | inr there ↦ rw there (ground (arith, count_at-list_remove a p ts (ground arith)))
]

All-list_remove :
    (P : Timer → Type 0) (p : ℕ) (ts : List Timer) → All P ts → All P (list_remove p ts)
unfolding list_remove
All-list_remove P p [] h = tt
All-list_remove P p (t ∷ ts) (pt, h) = elim (Bool-cases (t.address == p)) [
  | inl here ↦ rw here h
  | inr there ↦ rw there (pt, All-list_remove P p ts h)
]

list_remove-Ordered : (p : ℕ) (ts : List Timer) → Ordered ts → Ordered (list_remove p ts)
unfolding list_remove
list_remove-Ordered p [] o = tt
list_remove-Ordered p (t ∷ ts) (first, o) = elim (Bool-cases (t.address == p)) [
  | inl here ↦ rw here o
  | inr there ↦ rw there (All-list_remove _ p ts first, list_remove-Ordered p ts o)
]

pub tmr_cancel-IsSound :
    (t : Timer) (s : Timers)
    → IsSound s
    → 0 < count_at t.address s.timers
    → IsSound (tmr_cancel t s)
unfolding tmr_cancel
tmr_cancel-IsSound t s h active = record {
  normal = All-list_remove _ t.address s.timers h.normal;
  ordered = list_remove-Ordered t.address s.timers h.ordered;
  once = λ a. omega (arith, h.once a, count_at-list_remove a t.address s.timers active);
}

-- The timer at an active address gets another time.
pub resorted-IsSound :
    (t : Timer) (time : IperfTime) (s : Timers)
    → IsSound s
    → 0 < count_at t.address s.timers
    → IsNormal time
    → IsSound (record s { timers = list_resort (record t { time = time }) s.timers })
unfolding list_resort
resorted-IsSound t time s h active nt =
    let t' : Timer = record t { time = time } in
    let left = list_remove t.address s.timers in
    let nl = All-list_remove (λ u. IsNormal u.time) t.address s.timers h.normal in
    record {
      normal = All-list_add (λ u. IsNormal u.time) t' left nt nl;
      ordered = list_add-Ordered t' left nt nl (list_remove-Ordered t.address s.timers h.ordered);
      once = λ a. omega (
        arith,
        h.once a,
        count_at-list_add a t' left,
        count_at-list_remove a t.address s.timers active,
      );
    }

tmr_reset-IsSound :
    (now : IperfTime) (t : Timer) (s : Timers)
    → IsSound s
    → 0 < count_at t.address s.timers
    → IsSound (tmr_reset now t s)
unfolding tmr_reset
tmr_reset-IsSound now t s h active =
    resorted-IsSound t (time_add_usecs now t.usecs) s h active (time_add_usecs-IsNormal now t.usecs)

-- malloc gives an address that is on neither list.
abbrev pub Fresh : Option ℕ → Timers → Type 0
Fresh none s = Unit
Fresh (some a) s = count_at a s.timers + count_at a s.free_timers ≡ 0

created-IsSound :
    (a : ℕ) (t : Timer) (s : Timers) (free : List Timer)
    → IsSound s
    → t.address ≡ a
    → IsNormal t.time
    → ((b : ℕ) → count_at b (t ∷ s.timers) + count_at b free ≤ 1)
    → IsSound (record { timers = list_add t s.timers; free_timers = free })
created-IsSound a t s free h e nt once = record {
  normal = All-list_add (λ u. IsNormal u.time) t s.timers nt h.normal;
  ordered = list_add-Ordered t s.timers nt h.normal h.ordered;
  once = λ b. omega (arith, once b, count_at-list_add b t s.timers);
}

create_lists-IsSound :
    (malloc : Option ℕ) (now : IperfTime) (proc arg usecs : ℕ) (periodic : Bool)
    (ts free : List Timer)
    → let s : Timers = record { timers = ts; free_timers = free } in
      IsSound s
      → Fresh malloc s
      → IsNormal (time_add_usecs now usecs)
      → IsSound (tmr_create malloc now proc arg usecs periodic s).1
unfolding tmr_create take_free
create_lists-IsSound none now proc arg usecs periodic ts [] h f nt = h
create_lists-IsSound (some a) now proc arg usecs periodic ts [] h f nt =
    created-IsSound a _ _ [] h refl nt (λ b. elim (Bool-cases (a == b)) [
      | inl e ↦ ground (arith, f, h.once b, ap (λ c. count_at c ts) ((==_iff a b).0 e))
      | inr n ↦ ground (arith, h.once b)
    ])
create_lists-IsSound malloc now proc arg usecs periodic ts (u ∷ free) h f nt =
    created-IsSound u.address _ _ free h refl nt (λ b. omega (arith, h.once b))

tmr_create-IsSound :
    (malloc : Option ℕ) (now : IperfTime) (proc arg usecs : ℕ) (periodic : Bool) (s : Timers)
    → IsSound s
    → Fresh malloc s
    → IsSound (tmr_create malloc now proc arg usecs periodic s).1
tmr_create-IsSound malloc now proc arg usecs periodic s h f =
    create_lists-IsSound malloc now proc arg usecs periodic s.timers s.free_timers h f
      (time_add_usecs-IsNormal now usecs)

cancel_all-IsSound :
    (ts free : List Timer)
    → ((a : ℕ) → count_at a ts + count_at a free ≤ 1)
    → IsSound (cancel_all ts free)
unfolding cancel_all
cancel_all-IsSound [] free once = record { normal = tt; ordered = tt; once = once }
cancel_all-IsSound (t ∷ ts) free once =
    cancel_all-IsSound ts (t ∷ free) (λ a. omega (arith, once a))

tmr_cleanup-IsSound : (s : Timers) → IsSound s → IsSound (tmr_cleanup s)
unfolding tmr_cleanup
tmr_cleanup-IsSound s h = record {
  normal = h.normal;
  ordered = h.ordered;
  once = λ a. omega (arith, h.once a);
}

-- The operations that a callback may make, in any order. A timer is cancelled or reset only while it is
-- active.
pub data Operation (s : Timers) : Timers → Type 0 where
  create :
      (malloc : Option ℕ) (now : IperfTime) (proc arg usecs : ℕ) (periodic : Bool)
      → Fresh malloc s
      → Operation s (tmr_create malloc now proc arg usecs periodic s).1
  reset :
      (now : IperfTime) (t : Timer)
      → 0 < count_at t.address s.timers
      → Operation s (tmr_reset now t s)
  cancel : (t : Timer) → 0 < count_at t.address s.timers → Operation s (tmr_cancel t s)
  cleanup : Operation s (tmr_cleanup s)
  destroy : Operation s (tmr_destroy s)

pub data Operations (s : Timers) : Timers → Type 0 where
  start : Operations s s
  next : {t u : Timers} → Operations s t → Operation t u → Operations s u

pub Operation-IsSound : (s : Timers) {t : Timers} → IsSound s → Operation s t → IsSound t
unfolding tmr_destroy
Operation-IsSound s h (create malloc now proc arg usecs periodic f) =
    tmr_create-IsSound malloc now proc arg usecs periodic s h f
Operation-IsSound s h (reset now t active) = tmr_reset-IsSound now t s h active
Operation-IsSound s h (cancel t active) = tmr_cancel-IsSound t s h active
Operation-IsSound s h cleanup = tmr_cleanup-IsSound s h
Operation-IsSound s h destroy =
    tmr_cleanup-IsSound _ (cancel_all-IsSound s.timers s.free_timers h.once)

pub steps-IsSound : {s t : Timers} → IsSound s → Operations s t → IsSound t
steps-IsSound h start = h
steps-IsSound h (next ops op) = Operation-IsSound _ (steps-IsSound h ops) op
