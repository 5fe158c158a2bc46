-- ===== src/Timer/Order.antt =====
-- src/timer.c: insertion keeps the list sorted by time, and keeps its timers.
use mathlib.Core.List.{Perm}
use mathlib.Core.List.Perm
use native.Mathlib.Nat.{le_trans}
use iperf3_windows_msvc.Prelude.{
  ap, ◌≡◌, refl, ◌++◌, ◌<◌, ℕ, ◌≤◌, inl, inr, List, [], ◌∷◌, All, arith, ltb, Bool-cases, ltb→lt,
  branches,
}
use iperf3_windows_msvc.Prelude.Int.{pos, ltb_ℤ}
use iperf3_windows_msvc.Time.{IsNormal, time_compare}
use iperf3_windows_msvc.Time.Laws.{instant, before_lem}
use iperf3_windows_msvc.Timer.{Timer, list_add}

-- Every timestamp is in range.
abbrev pub Normal : List Timer → Type 0
Normal = All (λ t. IsNormal t.time)

-- No timer is due before an earlier one of the list.
abbrev pub Ordered : List Timer → Type 0
Ordered [] = Unit
Ordered (t ∷ ts) = All (λ u. instant t.time ≤ instant u.time) ts × Ordered ts

pub All-list_add :
    (P : Timer → Type 0) (t : Timer) (ts : List Timer) → P t → All P ts → All P (list_add t ts)
unfolding list_add
All-list_add P t [] p a = (p, tt)
All-list_add P t (u ∷ ts) p (pu, a) =
    elim (Bool-cases (ltb_ℤ (time_compare t.time u.time) (pos 0))) [
      | inl sooner ↦ rw sooner (p, (pu, a))
      | inr later ↦ rw later (pu, All-list_add P t ts p a)
    ]

bound_weaken :
    (m n : ℕ) (ts : List Timer)
    → m ≤ n
    → All (λ u. n ≤ instant u.time) ts
    → All (λ u. m ≤ instant u.time) ts
bound_weaken m n [] h a = tt
bound_weaken m n (t ∷ ts) h (le, a) = (le_trans h le, bound_weaken m n ts h a)

pub list_add-Ordered :
    (t : Timer) (ts : List Timer)
    → IsNormal t.time
    → Normal ts
    → Ordered ts
    → Ordered (list_add t ts)
unfolding list_add
list_add-Ordered t [] nt n o = (tt, tt)
list_add-Ordered t (u ∷ ts) nt (nu, n) (first, o) =
    elim (Bool-cases (ltb (instant t.time) (instant u.time))) [
      | inl lt ↦
          rw (before_lem t.time u.time nt nu, lt)
            (
              (
                omega (arith, ltb→lt _ _ lt),
                bound_weaken _ _ ts (omega (arith, ltb→lt _ _ lt)) first,
              ),
              (first, o),
            )
      | inr ge ↦
          rw (before_lem t.time u.time nt nu, ge)
            (
              All-list_add (λ v. instant u.time ≤ instant v.time) t ts (ground arith) first,
              list_add-Ordered t ts nt n o,
            )
    ]

list_add-perm : (t : Timer) (ts : List Timer) → Perm (list_add t ts) (t ∷ ts)
unfolding list_add
list_add-perm t [] = Perm.refl (t ∷ [])
list_add-perm t (u ∷ ts) =
    branches (λ xs. Perm xs (t ∷ u ∷ ts)) _ (Perm.refl _)
      (Perm.trans (Perm.cons u (list_add-perm t ts)) (Perm.swap t u ts))

-- Where a timer goes: `before` and `after` are the timers in front of it and behind it.
pub record Placed (t : Timer) (ts : List Timer) : Type 0 where
  pub before : List Timer
  pub after : List Timer
  pub parts : ts ≡ before ++ after
  pub inserted : list_add t ts ≡ before ++ (t ∷ after)
  pub no_later : All (λ u. instant u.time ≤ instant t.time) before
  pub later : All (λ u. instant t.time < instant u.time) after

-- A timer is inserted into a sorted list behind every timer that is due no later, and in front of
-- every timer that is due later; all timestamps are in range.
pub list_add_place :
    (t : Timer) (ts : List Timer) → IsNormal t.time → Normal ts → Ordered ts → Placed t ts
unfolding list_add
list_add_place t [] nt n o = record {
  before = [];
  after = [];
  parts = refl;
  inserted = refl;
  no_later = tt;
  later = tt;
}
list_add_place t (u ∷ ts) nt (nu, n) (first, o) =
    elim (Bool-cases (ltb (instant t.time) (instant u.time))) [
      | inl lt ↦ record {
        before = [];
        after = u ∷ ts;
        parts = refl;
        inserted = rw (before_lem t.time u.time nt nu, lt);
        no_later = tt;
        later = (ltb→lt _ _ lt, bound_weaken _ _ ts (ltb→lt _ _ lt) first);
      }
      | inr ge ↦
          let p = list_add_place t ts nt n o in
          record {
            before = u ∷ p.before;
            after = p.after;
            parts = ap (λ xs. u ∷ xs) p.parts;
            inserted = rw (before_lem t.time u.time nt nu, ge) (ap (λ xs. u ∷ xs) p.inserted);
            no_later = (ground arith, p.no_later);
            later = p.later;
          }
    ]
