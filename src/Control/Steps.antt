-- ===== src/Control/Steps.antt =====
-- src/iperf_api.c: a rule for the chains of calls of which each may fail, and what its links keep.
use iperf3_windows_msvc.Prelude.{
  ◌≢◌, arith, ◌==◌, ℕ, ◌≡◌, refl, true, false, List, [], ◌∷◌, Option, none, some, branches,
}
use iperf3_windows_msvc.Prelude.Int.{ℤ, pos, ltb_ℤ}
use iperf3_windows_msvc.Control.{
  Test, Status, ok, failed, and_then, Calls, set_test_state, set_send_state, checked,
  exchange_results,
}
use iperf3_windows_msvc.Control.Sockets.{IsCleared}

pub other_state : {a b : ℕ} → (a == b) ≡ false → a ≢ b
other_state h e = absurd (ground arith)

-- What holds after a call that succeeded, and after one that failed.
abbrev pub Holds : {W : Type 0} → (Test W → Type 0) → (Test W → Type 0) → Status W → Type 0
Holds P Q (ok t) = P t
Holds P Q (failed t) = Q t

pub and_then-Holds :
    {W : Type 0} (P R Q : Test W → Type 0) (s : Status W) (next : Test W → Status W)
    → Holds P Q s
    → ((t : Test W) → P t → Holds R Q (next t))
    → Holds R Q (and_then s next)
unfolding and_then
and_then-Holds P R Q (ok t) next h step = step t h
and_then-Holds P R Q (failed t) next h step = h

-- The test is done, and no socket of its streams is waited on; its control socket is open.
abbrev pub IsFinished : {W : Type 0} → List ℤ → Test W → Type 0
IsFinished sockets t =
    (t.done ≡ true)
    × (ltb_ℤ t.ctrl_sck (pos 0) ≡ false)
    × (t.streams ≡ sockets)
    × IsCleared t sockets

module _ {W : Type 0} (calls : Calls W) (sockets : List ℤ) where
  pub set_send_state-IsFinished :
      (state : ℕ) (t : Test W)
      → IsFinished sockets t
      → Holds
          (λ u. IsFinished sockets u × (u.state ≡ state))
          (IsFinished sockets)
          (set_send_state calls state t)
  unfolding set_send_state set_test_state
  set_send_state-IsFinished state t (done, sock, same, clear) = rw sock (
      branches (Holds (λ u. IsFinished sockets u × (u.state ≡ state)) (IsFinished sockets))
        (ltb_ℤ (calls.nwrite t.ctrl_sck (state ∷ []) t.world).0 (pos 0)) (done, sock, same, clear)
        ((done, sock, same, clear), refl))

  checked-IsFinished :
      (call : W → Option ℕ × W) (t : Test W)
      → IsFinished sockets t
      → Holds (IsFinished sockets) (IsFinished sockets) (checked call t)
  unfolding checked
  checked-IsFinished call t h = go (call t.world)
    where
      go :
          (answer : Option ℕ × W)
          → Holds (IsFinished sockets) (IsFinished sockets) (elim answer.0 [
            | none ↦ ok (record t { world = answer.1 })
            | some e ↦ failed (record t { i_errno = e; world = answer.1 })
          ])
      go (none, w) = h
      go (some e, w) = h

  pub exchange_results-IsFinished :
      (t : Test W)
      → IsFinished sockets t
      → Holds (IsFinished sockets) (IsFinished sockets) (exchange_results calls false t)
  unfolding exchange_results
  exchange_results-IsFinished t h =
      and_then-Holds _ _ _ (checked calls.get_results t) _
        (checked-IsFinished calls.get_results t h)
        (λ u g. checked-IsFinished calls.send_results u g)
