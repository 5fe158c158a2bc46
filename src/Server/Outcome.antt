-- ===== src/Server/Outcome.antt =====
-- src/iperf_server_api.c: in which states a message of the client may leave the server.
use iperf3_windows_msvc.Prelude.{
  ◌≢◌, ℕ, ◌≡◌, refl, arith, ◌∙◌, ap, inl, inr, true, false, List, ◌==◌, Bool-cases, ==_iff,
}
use iperf3_windows_msvc.Prelude.Int.{ℤ, pos, ltb_ℤ, ◌==ℤ◌}
use iperf3_windows_msvc.Control.{
  test_end, client_terminate, iectrlclose, Test, Status, ok, failed, and_then, Calls,
  set_test_state, set_send_state, exchange_results, test_start, exchange_results_state,
  display_results, iperf_done, ierecvmessage, iemessage,
}
use iperf3_windows_msvc.Control.Sockets.{IsCleared, close_streams_keeps, close_streams-IsCleared}
use iperf3_windows_msvc.Control.Steps.{
  other_state, Holds, and_then-Holds, IsFinished, set_send_state-IsFinished,
  exchange_results-IsFinished,
}
use iperf3_windows_msvc.Server.Message.{
  received_state, finish_test, on_test_end, on_client_terminate, server_switch, server_answer,
  handle_message_server,
}

-- How a message may leave the server when the handler succeeds.
pub data IsNext {W : Type 0} (message : ℕ) (sockets : List ℤ) (t : Test W) : Type 0 where
  started : message ≡ test_start → t.state ≡ test_start → IsNext message sockets t
  finished :
      message ≡ test_end
      → IsFinished sockets t
      → t.state ≡ display_results
      → IsNext message sockets t
  terminated :
      message ≡ client_terminate
      → IsCleared t sockets
      → t.state ≡ iperf_done
      → IsNext message sockets t
  over : message ≡ iperf_done → t.state ≡ iperf_done → IsNext message sockets t

-- Why the handler may fail.
pub data IsError {W : Type 0} (message : ℕ) (sockets : List ℤ) (t : Test W) : Type 0 where
  unknown :
      (message ≢ test_start)
        × (message ≢ test_end)
        × (message ≢ iperf_done)
        × (message ≢ client_terminate)
      → t.i_errno ≡ iemessage
      → IsError message sockets t
  unfinished : message ≡ test_end → IsFinished sockets t → IsError message sockets t

-- What the answer of the handler may be, on a message that came.
abbrev Answers : {W : Type 0} → ℕ → List ℤ → Status W → Type 0
Answers message sockets = Holds (IsNext message sockets) (IsError message sockets)

-- What the answer of the handler may be, by what Nread answered.
pub data Handled {W : Type 0} (rval : ℤ) (message : ℕ) (sockets : List ℤ) (s : Status W)
    : Type 0 where
  closed :
      (rval ==ℤ pos 0) ≡ true
      → Holds (λ t. (t.i_errno ≡ iectrlclose) × (t.state ≡ iperf_done)) (λ t. ⊥) s
      → Handled rval message sockets s
  unreadable :
      ltb_ℤ rval (pos 0) ≡ true
      → Holds (λ t. ⊥) (λ t. t.i_errno ≡ ierecvmessage) s
      → Handled rval message sockets s
  came :
      ltb_ℤ (pos 0) rval ≡ true
      → Holds (IsNext message sockets) (IsError message sockets) s
      → Handled rval message sockets s

abbrev IsFinishedIn : {W : Type 0} → ℕ → List ℤ → Test W → Type 0
IsFinishedIn state sockets t = IsFinished sockets t × (t.state ≡ state)

above_0 : (r : ℤ) → (r ==ℤ pos 0) ≡ false → ltb_ℤ r (pos 0) ≡ false → ltb_ℤ (pos 0) r ≡ true
above_0 r h g = ground arith

module _ {W : Type 0} (calls : Calls W) where
  finish_test-IsFinished :
      (test : Test W)
      → ltb_ℤ test.ctrl_sck (pos 0) ≡ false
      → IsFinished test.streams (finish_test calls test)
  unfolding finish_test
  finish_test-IsFinished test sock =
      let counted : Test W = record test {
        done = true;
        world = calls.stats_callback (calls.cpu_util test.world);
      } in
      let (state, done, error, ctrl, streams) = close_streams_keeps calls test.streams counted in
      (
        done,
        ap (λ c. ltb_ℤ c (pos 0)) ctrl ∙ sock,
        streams,
        close_streams-IsCleared calls test.streams counted,
      )

  on_test_end-IsFinished :
      (test : Test W)
      → ltb_ℤ test.ctrl_sck (pos 0) ≡ false
      → Holds
          (IsFinishedIn display_results test.streams)
          (IsFinished test.streams)
          (on_test_end calls test)
  unfolding on_test_end
  on_test_end-IsFinished test sock =
      let all = test.streams in
      let first = set_send_state calls exchange_results_state (finish_test calls test) in
      let second = and_then first (exchange_results calls false) in
      let third = and_then second (set_send_state calls display_results) in
      let sent =
        set_send_state-IsFinished calls all exchange_results_state (finish_test calls test)
          (finish_test-IsFinished test sock) in
      let exchanged =
        and_then-Holds (IsFinishedIn exchange_results_state all) (IsFinished all) (IsFinished all)
          first (exchange_results calls false) sent
          (λ t h. exchange_results-IsFinished calls all t (h.0)) in
      let displayed =
        and_then-Holds (IsFinished all) (IsFinishedIn display_results all) (IsFinished all) second
          (set_send_state calls display_results) exchanged
          (λ t h. set_send_state-IsFinished calls all display_results t h) in
      and_then-Holds (IsFinishedIn display_results all) (IsFinishedIn display_results all)
        (IsFinished all) third (λ t. ok (record t { world = calls.on_test_finish t.world }))
        displayed (λ t h. h)

  of_test_end :
      (sockets : List ℤ) (message : ℕ) (s : Status W)
      → message ≡ test_end
      → Holds (IsFinishedIn display_results sockets) (IsFinished sockets) s
      → Answers message sockets s
  of_test_end sockets message (ok t) e h = IsNext.finished e (h.0) (h.1)
  of_test_end sockets message (failed t) e h = IsError.unfinished e h

  server_switch-Answers :
      (test : Test W)
      → ltb_ℤ test.ctrl_sck (pos 0) ≡ false
      → Answers test.state test.streams (server_switch calls test)
  unfolding server_switch on_client_terminate set_test_state
  server_switch-Answers test sock = elim (Bool-cases (test.state == test_start)) [
    | inl a ↦ let e = (==_iff _ _).0 a in rw a (IsNext.started e e)
    | inr a ↦ elim (Bool-cases (test.state == test_end)) [
      | inl b ↦
          rw (a, b)
            (of_test_end test.streams test.state (on_test_end calls test) ((==_iff _ _).0 b)
              (on_test_end-IsFinished test sock))
      | inr b ↦ elim (Bool-cases (test.state == iperf_done)) [
        | inl c ↦ let e = (==_iff _ _).0 c in rw (a, b, c) (IsNext.over e e)
        | inr c ↦ elim (Bool-cases (test.state == client_terminate)) [
          | inl d ↦
              rw (a, b, c, d)
                (IsNext.terminated ((==_iff _ _).0 d) (close_streams-IsCleared calls test.streams _)
                  refl)
          | inr d ↦
              rw (a, b, c, d)
                (IsError.unknown (other_state a, other_state b, other_state c, other_state d) refl)
        ]
      ]
    ]
  ]

  server_answer-Handled :
      (test : Test W) (rval : ℤ) (bytes : List ℕ) (w : W)
      → ltb_ℤ test.ctrl_sck (pos 0) ≡ false
      → Handled rval
          (received_state bytes test.state)
          test.streams
          (server_answer calls test rval bytes w)
  unfolding server_answer set_test_state
  server_answer-Handled test rval bytes w sock = elim (Bool-cases (rval ==ℤ pos 0)) [
    | inl a ↦ Handled.closed a (rw a (refl, refl))
    | inr a ↦ elim (Bool-cases (ltb_ℤ rval (pos 0))) [
      | inl b ↦ Handled.unreadable b (rw (a, b) refl)
      | inr b ↦
          let message = received_state bytes test.state in
          Handled.came (above_0 rval a b)
            (rw (a, b) (server_switch-Answers (record test { state = message; world = w }) sock))
    ]
  ]

  -- Whatever the calls of the handler answer: if Nread finds the connection closed, the handler succeeds
  -- in IPERF_DONE with IECTRLCLOSE, and if Nread fails, it fails with IERECVMESSAGE. A message that
  -- came leads to its own outcome. TEST_START leaves the server in that state; TEST_END leaves the test done, with no socket
  -- of a stream in the sets that the main loop waits on, and, if nothing failed, in the state
  -- DISPLAY_RESULTS; CLIENT_TERMINATE takes these sockets out of the sets too and ends the test, as
  -- IPERF_DONE does; any other byte fails with IEMESSAGE. The control socket is open.
  pub handle_message_server-Handled :
      (test : Test W)
      → ltb_ℤ test.ctrl_sck (pos 0) ≡ false
      → Handled
          (calls.nread test.ctrl_sck 1 test.world).0.0
          (received_state (calls.nread test.ctrl_sck 1 test.world).0.1 test.state)
          test.streams
          (handle_message_server calls test)
  unfolding handle_message_server
  handle_message_server-Handled test sock =
      let ((rval, bytes), w) = calls.nread test.ctrl_sck 1 test.world in
      server_answer-Handled test rval bytes w sock
