-- ===== src/Client/States.antt =====
-- src/iperf_client_api.c: the calls of the client that leave the state of the test as it is.
use iperf3_windows_msvc.Prelude.{ℕ, ◌≡◌, Bool, true, false, ◌++◌, Option, none, some}
use iperf3_windows_msvc.Control.{
  Mode, sender, receiver, bidirectional, Test, Status, ok, failed, and_then, checked,
  exchange_results,
}
use iperf3_windows_msvc.Control.Steps.{Holds, and_then-Holds}
use iperf3_windows_msvc.Client.Message.{
  ClientCalls, create_streams, on_create_streams, on_test_start,
}

-- The test is in that state, whether the call succeeded or not.
abbrev pub InState : {W : Type 0} → ℕ → Status W → Type 0
InState state = Holds (λ t. t.state ≡ state) (λ t. t.state ≡ state)

module _ {W : Type 0} (calls : ClientCalls W) (m : ℕ) where
  pub checked-InState :
      (call : W → Option ℕ × W) (t : Test W) → t.state ≡ m → InState m (checked call t)
  unfolding checked
  checked-InState call t h = go (call t.world)
    where
      go :
          (answer : Option ℕ × W)
          → InState m (elim answer.0 [
            | none ↦ ok (record t { world = answer.1 })
            | some e ↦ failed (record t { i_errno = e; world = answer.1 })
          ])
      go (none, w) = h
      go (some e, w) = h

  pub chain-InState :
      (s : Status W) (next : Test W → Status W)
      → InState m s
      → ((t : Test W) → t.state ≡ m → InState m (next t))
      → InState m (and_then s next)
  chain-InState s next h step = and_then-Holds (λ t. t.state ≡ m) _ _ s next h step

  pub exchange_results-InState :
      (t : Test W) → t.state ≡ m → InState m (exchange_results (calls.common) true t)
  unfolding exchange_results
  exchange_results-InState t h =
      chain-InState (checked calls.common.send_results t) (checked calls.common.get_results)
        (checked-InState (calls.common.send_results) t h)
        (checked-InState (calls.common.get_results))

  pub create_streams-InState :
      (sends : Bool) (t : Test W) → t.state ≡ m → InState m (create_streams calls sends t)
  unfolding create_streams
  create_streams-InState sends t h = go (calls.create_streams sends t.world).0.0
    where
      go :
          (error : Option ℕ)
          → let u = record t {
            streams = t.streams ++ (calls.create_streams sends t.world).0.1;
            world = (calls.create_streams sends t.world).1;
          } in
            InState m (elim error [ none ↦ ok u | some e ↦ failed (record u { i_errno = e }) ])
      go none = h
      go (some e) = h

  pub on_create_streams-InState : (t : Test W) → t.state ≡ m → InState m (on_create_streams calls t)
  unfolding on_create_streams
  on_create_streams-InState t h = go (t.mode)
    where
      go :
          (mode : Mode)
          → InState m (elim mode [
            | bidirectional ↦ and_then (create_streams calls true t) (create_streams calls false)
            | sender ↦ create_streams calls true t
            | receiver ↦ create_streams calls false t
          ])
      go bidirectional =
          chain-InState (create_streams calls true t) (create_streams calls false)
            (create_streams-InState true t h) (create_streams-InState false)
      go sender = create_streams-InState true t h
      go receiver = create_streams-InState false t h

  pub on_test_start-InState : (t : Test W) → t.state ≡ m → InState m (on_test_start calls t)
  unfolding on_test_start
  on_test_start-InState t h = go (t.mode)
    where
      two : Status W
      two = and_then (checked calls.init_test t) (checked calls.create_client_timers)

      timers : Status W
      timers = and_then two (checked calls.create_client_omit_timer)

      timers_keep : InState m timers
      timers_keep =
          chain-InState two (checked calls.create_client_omit_timer)
            (chain-InState (checked calls.init_test t) (checked calls.create_client_timers)
              (checked-InState (calls.init_test) t h)
              (checked-InState (calls.create_client_timers)))
            (checked-InState (calls.create_client_omit_timer))

      go :
          (mode : Mode)
          → InState m (elim mode [
            | receiver ↦ timers
            | sender ↦ and_then timers (checked calls.create_send_timers)
            | bidirectional ↦ and_then timers (checked calls.create_send_timers)
          ])
      go receiver = timers_keep
      go sender =
          chain-InState timers (checked calls.create_send_timers) timers_keep
            (checked-InState (calls.create_send_timers))
      go bidirectional =
          chain-InState timers (checked calls.create_send_timers) timers_keep
            (checked-InState (calls.create_send_timers))
