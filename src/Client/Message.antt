-- ===== src/Client/Message.antt =====
-- src/iperf_client_api.c: what the client does on a message of the server.
use iperf3_windows_msvc.Prelude.{
  ℕ, Bool, true, false, List, [], ◌∷◌, ◌++◌, Option, none, some, length, drop, ltb, ◌==◌, ◌&&◌,
  if◌then◌else◌,
}
use iperf3_windows_msvc.Prelude.Int.{ℤ, pos, ltb_ℤ, ◌==ℤ◌}
use iperf3_windows_msvc.Udp.Packet.{of_be32}
use iperf3_windows_msvc.Control.{
  sender, receiver, bidirectional, Test, Status, ok, failed, and_then, Calls, checked,
  set_send_state, exchange_results, param_exchange, create_streams_state, test_start, test_running,
  exchange_results_state, display_results, iperf_done, server_terminate, access_denied,
  server_error, iectrlclose, ierecvmessage, iemessage, ieserverterm, ieaccessdenied, iectrlread,
}

-- What the client calls besides. Creating streams brings the sockets that were opened, also when it
-- fails half-way.
pub record ClientCalls (W : Type 0) : Type 0 where
  pub common : Calls W
  pub read : ℤ → ℕ → W → (ℤ × List ℕ) × W
  pub send_parameters : W → Option ℕ × W
  pub on_connect : W → W
  pub create_streams : Bool → W → (Option ℕ × List ℤ) × W
  pub init_test : W → Option ℕ × W
  pub create_client_timers : W → Option ℕ × W
  pub create_client_omit_timer : W → Option ℕ × W
  pub create_send_timers : W → Option ℕ × W
  pub sync_close_socket : ℤ → W → W

-- What a read of `bytes` leaves of a variable that had other bytes.
abbrev pub overwrite : List ℕ → List ℕ → List ℕ
overwrite old bytes = bytes ++ drop (length bytes) old

-- The byte that was read into `test->state`.
abbrev pub new_state : List ℕ → ℕ → ℕ
new_state [] state = state
new_state (byte ∷ rest) state = byte

-- A signed char above 0.
abbrev pub is_positive_char : ℕ → Bool
is_positive_char state = ltb 0 state && ltb state 128

-- The test, whatever a call answered.
unfoldable pub state_of : {W : Type 0} → Status W → Test W
state_of (ok t) = t
state_of (failed t) = t

module _ {W : Type 0} (calls : ClientCalls W) where
  close_sockets : List ℤ → W → W
  close_sockets [] w = w
  close_sockets (socket ∷ rest) w = close_sockets rest (calls.common.close socket w)

  -- iperf_client_end first closes the sockets of the streams, and reports.
  unfoldable pub report_end : Test W → Test W
  unfolding close_sockets
  report_end test = record test {
    world = calls.common.reporter_callback test.state (close_sockets test.streams test.world);
  }

  -- It closes the control socket last.
  unfoldable pub close_control : Test W → Status W
  close_control test = ok (
      if ltb_ℤ test.ctrl_sck (pos 0)
      then test
      else record test { world = calls.sync_close_socket test.ctrl_sck test.world })

  -- iperf_client_end, whose answer the handler drops.
  unfoldable pub client_end : Test W → Status W
  unfolding report_end set_send_state close_control and_then
  client_end test =
      and_then
        (if is_positive_char test.state
          then set_send_state (calls.common) iperf_done (report_end test)
          else ok (report_end test))
        close_control

  unfoldable pub create_streams : Bool → Test W → Status W
  create_streams sends test =
      let ((error, sockets), w) = calls.create_streams sends test.world in
      let t = record test { streams = test.streams ++ sockets; world = w } in
      elim error [ none ↦ ok t | some e ↦ failed (record t { i_errno = e }) ]

  unfoldable pub on_create_streams : Test W → Status W
  unfolding create_streams and_then
  on_create_streams test = elim test.mode [
    | bidirectional ↦ and_then (create_streams true test) (create_streams false)
    | sender ↦ create_streams true test
    | receiver ↦ create_streams false test
  ]

  unfoldable pub on_test_start : Test W → Status W
  unfolding checked and_then
  on_test_start test =
      let timers =
        and_then (and_then (checked calls.init_test test) (checked calls.create_client_timers))
          (checked calls.create_client_omit_timer) in
      elim test.mode [
        | receiver ↦ timers
        | sender ↦ and_then timers (checked calls.create_send_timers)
        | bidirectional ↦ and_then timers (checked calls.create_send_timers)
      ]

  -- The last statistics are reported in the state DISPLAY_RESULTS.
  unfoldable pub on_server_terminate : Test W → Status W
  on_server_terminate test = failed (record test {
    i_errno = ieserverterm;
    world = calls.common.reporter_callback display_results (calls.common.cpu_util test.world);
  })

  -- Two numbers follow: the code of the error, and `errno` of the server, which is only printed. `err`
  -- is the memory of the variable that they are read into.
  unfoldable pub on_server_error : List ℕ → Test W → Status W
  on_server_error err test =
      let ((r, code), w) = calls.common.nread test.ctrl_sck 4 test.world in
      if ltb_ℤ r (pos 0)
      then failed (record test { i_errno = iectrlread; world = w })
      else let ((r', number), w') = calls.common.nread test.ctrl_sck 4 w in
        if ltb_ℤ r' (pos 0)
        then failed (record test { i_errno = iectrlread; world = w' })
        else failed (record test { i_errno = of_be32 (overwrite err code); world = w' })

  -- The cases of the switch from DISPLAY_RESULTS on.
  unfoldable pub closing_switch : List ℕ → Test W → Status W
  unfolding client_end state_of on_server_terminate on_server_error
  closing_switch err test =
      if test.state == display_results
      then ok
          (state_of (client_end (record test { world = calls.common.on_test_finish test.world })))
      else if test.state == iperf_done
      then ok test
      else if test.state == server_terminate
      then on_server_terminate test
      else if test.state == access_denied
      then failed (record test { i_errno = ieaccessdenied })
      else if test.state == server_error
      then on_server_error err test
      else failed (record test { i_errno = iemessage })

  -- `switch (test->state)`
  unfoldable pub client_switch : List ℕ → Test W → Status W
  unfolding checked on_create_streams on_test_start exchange_results closing_switch and_then
  client_switch err test =
      if test.state == param_exchange
      then and_then (checked calls.send_parameters test)
          (λ t. ok (record t { world = calls.on_connect t.world }))
      else if test.state == create_streams_state
      then on_create_streams test
      else if test.state == test_start
      then on_test_start test
      else if test.state == exchange_results_state
      then exchange_results (calls.common) true test
      else if test.state == test_running
      then ok test
      else closing_switch err test

  -- What read(2) answered, and what it put into `test->state`.
  unfoldable pub client_answer : List ℕ → Test W → ℤ → List ℕ → W → Status W
  unfolding client_switch
  client_answer err test rval bytes w =
      let read = record test { state = new_state bytes test.state; world = w } in
      if rval ==ℤ pos 0
      then failed (record read { i_errno = iectrlclose })
      else if ltb_ℤ rval (pos 0)
      then failed (record read { i_errno = ierecvmessage })
      else client_switch err read

  unfoldable pub handle_message_client : List ℕ → Test W → Status W
  unfolding client_answer
  handle_message_client err test =
      let ((rval, bytes), w) = calls.read test.ctrl_sck 1 test.world in
      client_answer err test rval bytes w
