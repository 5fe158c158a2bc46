-- ===== src/Server/Message.antt =====
-- src/iperf_server_api.c: what the server does on a message of the client.
use iperf3_windows_msvc.Prelude.{ℕ, true, false, List, [], ◌∷◌, ◌==◌, if◌then◌else◌}
use iperf3_windows_msvc.Prelude.Int.{ℤ, pos, ltb_ℤ, ◌==ℤ◌}
use iperf3_windows_msvc.Control.{
  Test, Status, ok, failed, and_then, Calls, set_test_state, set_send_state, exchange_results,
  close_streams, test_start, test_end, exchange_results_state, display_results, iperf_done,
  client_terminate, iectrlclose, ierecvmessage, iemessage, ieclientterm,
}

-- The byte that Nread put into `test->state`; if it put none, the state stays.
abbrev pub received_state : List ℕ → ℕ → ℕ
received_state [] state = state
received_state (byte ∷ rest) state = byte

module _ {W : Type 0} (calls : Calls W) where
  -- The calls of the server on TEST_END, up to the exchange of results.
  unfoldable pub finish_test : Test W → Test W
  unfolding close_streams
  finish_test test =
      let counted = record test {
        done = true;
        world = calls.stats_callback (calls.cpu_util test.world);
      } in
      let closed = close_streams calls counted.streams counted in
      record closed { world = calls.reporter_callback closed.state closed.world }

  unfoldable pub on_test_end : Test W → Status W
  unfolding finish_test set_send_state exchange_results and_then
  on_test_end test =
      and_then
        (and_then
          (and_then (set_send_state calls exchange_results_state (finish_test test))
            (exchange_results calls false))
          (set_send_state calls display_results))
        (λ t. ok (record t { world = calls.on_test_finish t.world }))

  -- The last statistics are reported in the state DISPLAY_RESULTS.
  unfoldable pub on_client_terminate : Test W → Status W
  unfolding close_streams set_test_state
  on_client_terminate test =
      let reported = record test {
        i_errno = ieclientterm;
        world = calls.reporter_callback display_results (calls.cpu_util test.world);
      } in
      ok (set_test_state iperf_done (close_streams calls reported.streams reported))

  -- `switch (test->state)`
  unfoldable pub server_switch : Test W → Status W
  unfolding on_test_end on_client_terminate
  server_switch test =
      if test.state == test_start
      then ok test
      else if test.state == test_end
      then on_test_end test
      else if test.state == iperf_done
      then ok test
      else if test.state == client_terminate
      then on_client_terminate test
      else failed (record test { i_errno = iemessage })

  -- What Nread answered, and what it put into `test->state`.
  unfoldable pub server_answer : Test W → ℤ → List ℕ → W → Status W
  unfolding server_switch set_test_state
  server_answer test rval bytes w =
      let read = record test { state = received_state bytes test.state; world = w } in
      if rval ==ℤ pos 0
      then ok (set_test_state iperf_done (record read { i_errno = iectrlclose }))
      else if ltb_ℤ rval (pos 0)
      then failed (record read { i_errno = ierecvmessage })
      else server_switch read

  unfoldable pub handle_message_server : Test W → Status W
  unfolding server_answer
  handle_message_server test =
      let ((rval, bytes), w) = calls.nread test.ctrl_sck 1 test.world in
      server_answer test rval bytes w
