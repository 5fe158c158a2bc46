-- ===== src/Server/Examples.antt =====
-- src/iperf_server_api.c: the theorems on the server at concrete tests.
use iperf3_windows_msvc.Prelude.{ℕ, ◌≡◌, refl, true, false, List, [], ◌∷◌, ◌++◌, none, some, arith}
use iperf3_windows_msvc.Prelude.Int.{ℤ, pos, negsuc}
use iperf3_windows_msvc.Time.{IperfTime}
use iperf3_windows_msvc.Timer.{Timers, tmr_timeout}
use iperf3_windows_msvc.Control.{Test, Calls, Status, sender, receiver, test_running, test_end}
use iperf3_windows_msvc.Server.Message.{received_state, handle_message_server}
use iperf3_windows_msvc.Server.Outcome.{Handled, handle_message_server-Handled}
use iperf3_windows_msvc.Server.Expire.{server_timer_proc}
use iperf3_windows_msvc.Server.Release.{server_timer_proc_ends, server_timer_proc_stuck}
use iperf3_windows_msvc.Server.Wait.{Waits, select_timeout, select_timeout-Waits}

-- The bytes that the client sent, and those that the server sends.
abbrev Wire : Type 0
Wire = List ℕ × List ℕ

abbrev take_byte : List ℕ → List ℕ → (ℤ × List ℕ) × Wire
take_byte [] out = ((pos 0, []), ([], out))
take_byte (byte ∷ rest) out = ((pos 1, byte ∷ []), (rest, out))

abbrev wire : Calls Wire
wire = record {
  nread = λ fd count w. take_byte w.0 w.1;
  nwrite = λ fd bytes w. (pos 1, (w.0, w.1 ++ bytes));
  close = λ fd w. w;
  cpu_util = λ w. w;
  stats_callback = λ w. w;
  reporter_callback = λ state w. w;
  on_test_finish = λ w. w;
  send_results = λ w. (none, w);
  get_results = λ w. (none, w);
}

-- A test of two streams that the client ends.
abbrev running : Test Wire
running = record {
  state = test_running;
  done = false;
  i_errno = 0;
  mode = receiver;
  ctrl_sck = pos 5;
  streams = pos 7 ∷ pos 8 ∷ [];
  read_set = pos 3 ∷ pos 5 ∷ pos 7 ∷ pos 8 ∷ [];
  write_set = pos 7 ∷ [];
  world = (test_end ∷ [], []);
}

-- EXCHANGE_RESULTS and DISPLAY_RESULTS are sent; the listener and the control socket stay.
ended :
    handle_message_server wire running
    ≡ Status.ok (record running {
      state = 14;
      done = true;
      read_set = pos 3 ∷ pos 5 ∷ [];
      write_set = [];
      world = ([], 13 ∷ 14 ∷ []);
    })
unfolding handle_message_server iperf3_windows_msvc.Control.set_send_state
    iperf3_windows_msvc.Control.exchange_results iperf3_windows_msvc.Control.close_streams
ended = refl

handle_message_server-Handled_example :
    Handled
      (wire.nread (pos 5) 1 (test_end ∷ [], [])).0.0
      (received_state (wire.nread (pos 5) 1 (test_end ∷ [], [])).0.1 test_running)
      (pos 7 ∷ pos 8 ∷ [])
      (handle_message_server wire running)
handle_message_server-Handled_example = handle_message_server-Handled wire running refl

-- A timer that is due in five seconds.
abbrev report : Timers
report = record {
  timers =
      record {
        address = 100;
        timer_proc = 1;
        client_data = 0;
        usecs = 5000000;
        periodic = true;
        time = record { secs = 15; usecs = 0 };
      }
      ∷ [];
  free_timers = [];
}

abbrev at_ten : IperfTime
at_ten = record { secs = 10; usecs = 0 }

-- With a receive timeout of three seconds the server waits for five.
waits_for_timer :
    select_timeout test_running receiver 0
      (record { secs = 3; usecs = 0 })
      (tmr_timeout at_ten report)
    ≡ some (5, 0)
unfolding select_timeout tmr_timeout iperf3_windows_msvc.Time.time_diff
    iperf3_windows_msvc.Time.time_in_usecs
waits_for_timer = refl

select_timeout-Waits_example :
    Waits at_ten
      (record { secs = 3; usecs = 0 })
      (report.timers)
      (select_timeout test_running receiver 0
        (record { secs = 3; usecs = 0 })
        (tmr_timeout at_ten report))
select_timeout-Waits_example =
    select_timeout-Waits at_ten (record { secs = 3; usecs = 0 }) report test_running 0 receiver refl
      refl (omega arith) (omega arith, tt) (tt, tt)

-- Both streams have a socket. The wire answers 1 for every write, so that only the code of the error
-- follows SERVER_ERROR.
expired :
    server_timer_proc wire 3 running
    ≡ some (record running {
      done = true;
      i_errno = 160;
      streams = [];
      ctrl_sck = negsuc 0;
      state = 254;
      world = (test_end ∷ [], 254 ∷ 0 ∷ 0 ∷ 0 ∷ 160 ∷ []);
    })
unfolding server_timer_proc iperf3_windows_msvc.Control.set_send_state iperf3_windows_msvc.Net.loop
expired = refl

server_timer_proc_ends_example :
    (t : Test Wire) × (server_timer_proc wire 3 running ≡ some t)
    × (t.done ≡ true)
    × (t.streams ≡ [])
    × (t.ctrl_sck ≡ negsuc 0)
server_timer_proc_ends_example = server_timer_proc_ends wire running refl (refl, (refl, tt))

-- The first stream has lost its socket.
abbrev lost : Test Wire
lost = record running { streams = negsuc 0 ∷ pos 8 ∷ [] }

server_timer_proc_stuck_example : server_timer_proc wire 50 lost ≡ none
server_timer_proc_stuck_example = server_timer_proc_stuck wire 50 lost (pos 8 ∷ []) refl refl
