-- ===== src/Net/Loop.antt =====
-- src/net.c: the rule for its loops.
use mathlib.Core.Path.{subst}
use iperf3_windows_msvc.Prelude.{ℕ, zero, suc, ◌<◌, ◌≡◌, some, none, refl, arith}
use iperf3_windows_msvc.Net.{Round, return, continue, loop}

-- A round returns what is wanted, or keeps the invariant and makes the measure smaller.
abbrev pub Keeps {ℓ κ} :
    {A S : Type ℓ} → (S → Type κ) → (A → Type κ) → (S → ℕ) → ℕ → Round A S → Type κ
Keeps P Q measure m (return a) = Q a
Keeps P Q measure m (continue s) = (measure s < m) × P s

Round-cases {ℓ κ} :
    {A S : Type ℓ} {C : Type κ} (r : Round A S)
    → ((a : A) → r ≡ return a → C)
    → ((s : S) → r ≡ continue s → C)
    → C
Round-cases (return a) f g = f a refl
Round-cases (continue s) f g = g s refl

-- With fuel above the measure such a loop returns, and returns what is wanted.
pub loop_inv {ℓ κ} :
    {A S : Type ℓ} (P : S → Type κ) (Q : A → Type κ) (measure : S → ℕ) (body : S → Round A S)
    → ((s : S) → P s → Keeps P Q measure (measure s) (body s))
    → (fuel : ℕ) (s : S) → measure s < fuel
    → P s
    → (a : A) × (loop body fuel s ≡ some a) × Q a
unfolding loop
loop_inv P Q measure body keep zero s m h = absurd (omega arith)
loop_inv P Q measure body keep (suc fuel) s m h =
    Round-cases (body s)
      (λ a e. (a, rw (e, loop), subst (Keeps P Q measure (measure s)) e (keep s h)))
      (λ s' e.
        let (less, inv) = subst (Keeps P Q measure (measure s)) e (keep s h) in
        let (a, runs, wanted) = loop_inv P Q measure body keep fuel s' (omega arith) inv in
        (a, rw (e, loop) runs, wanted))

module _ {ℓ} {A S : Type ℓ} (body : S → Round A S) (fuel : ℕ) (s : S) where
  pub loop-return : {a : A} → body s ≡ return a → loop body (suc fuel) s ≡ some a
  unfolding loop
  loop-return e = rw (e, loop)

  pub loop-continue : {t : S} → body s ≡ continue t → loop body (suc fuel) s ≡ loop body fuel t
  unfolding loop
  loop-continue e = rw (e, loop)

pub loop-zero {ℓ} : {A S : Type ℓ} (body : S → Round A S) (s : S) → loop body 0 s ≡ none
unfolding loop
loop-zero body s = refl
