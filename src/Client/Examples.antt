-- ===== src/Client/Examples.antt =====
-- src/iperf_client_api.c: the theorem on the client at a concrete test.
use iperf3_windows_msvc.Prelude.{ℕ, ◌≡◌, refl, true, List, [], ◌∷◌, none}
use iperf3_windows_msvc.Prelude.Int.{ℤ, pos, negsuc}
use iperf3_windows_msvc.Control.{Test, Calls, Status, sender, test_running, display_results}
use iperf3_windows_msvc.Client.Message.{
  ClientCalls, new_state, handle_message_client, state_of, on_server_error,
}
use iperf3_windows_msvc.Client.Code.{on_server_error-be32, on_server_error_unset}
use iperf3_windows_msvc.Prelude.{take, drop, arith}
use iperf3_windows_msvc.Client.Outcome.{Answered, handle_message_client-Answered}

-- The bytes that the server sent; nothing can be sent to it.
abbrev take_byte : List ℕ → (ℤ × List ℕ) × List ℕ
take_byte [] = ((pos 0, []), [])
take_byte (byte ∷ rest) = ((pos 1, byte ∷ []), rest)

abbrev common : Calls (List ℕ)
common = record {
  nread = λ fd count w. take_byte w;
  nwrite = λ fd bytes w. (negsuc 1, w);
  close = λ fd w. w;
  cpu_util = λ w. w;
  stats_callback = λ w. w;
  reporter_callback = λ state w. w;
  on_test_finish = λ w. w;
  send_results = λ w. (none, w);
  get_results = λ w. (none, w);
}

abbrev calls : ClientCalls (List ℕ)
calls = record {
  common = common;
  read = λ fd count w. take_byte w;
  send_parameters = λ w. (none, w);
  on_connect = λ w. w;
  create_streams = λ sends w. ((none, []), w);
  init_test = λ w. (none, w);
  create_client_timers = λ w. (none, w);
  create_client_omit_timer = λ w. (none, w);
  create_send_timers = λ w. (none, w);
  sync_close_socket = λ fd w. w;
}

abbrev finishing : Test (List ℕ)
finishing = record {
  state = test_running;
  done = true;
  i_errno = 0;
  mode = sender;
  ctrl_sck = pos 5;
  streams = pos 7 ∷ [];
  read_set = [];
  write_set = [];
  world = display_results ∷ [];
}

-- IPERF_DONE cannot be sent, but the client is in that state.
finished :
    handle_message_client calls [] finishing
    ≡ Status.ok (record finishing { state = 16; i_errno = 111; world = [] })
unfolding handle_message_client
finished = refl

handle_message_client-Answered_example :
    Answered
      (calls.read (pos 5) 1 (display_results ∷ [])).0.0
      (new_state (calls.read (pos 5) 1 (display_results ∷ [])).0.1 test_running)
      (handle_message_client calls [] finishing)
handle_message_client-Answered_example = handle_message_client-Answered calls [] finishing refl

-- The server reports its code 160, and 0 for the second number.
abbrev reporting : ClientCalls (List ℕ)
reporting = record calls {
  common = record common { nread = λ fd count w. ((pos 4, take 4 w), drop 4 w) };
}

abbrev failing : Test (List ℕ)
failing = record finishing { state = 254; world = 0 ∷ 0 ∷ 0 ∷ 160 ∷ 0 ∷ 0 ∷ 0 ∷ 0 ∷ [] }

on_server_error-be32_example : (state_of (on_server_error reporting [] failing)).i_errno ≡ 160
on_server_error-be32_example = on_server_error-be32 reporting [] failing 160 (omega arith) refl refl

-- The connection is closed; the memory has a 7.
abbrev closing : Test (List ℕ)
closing = record finishing { state = 254; world = [] }

on_server_error_unset_example :
    (state_of (on_server_error calls (0 ∷ 0 ∷ 0 ∷ 7 ∷ []) closing)).i_errno ≡ 7
on_server_error_unset_example = on_server_error_unset calls (0 ∷ 0 ∷ 0 ∷ 7 ∷ []) closing refl refl
