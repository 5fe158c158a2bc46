-- ===== src/Server/Scenarios.antt =====
-- src/iperf_server_api.c: the main loop at concrete servers.
use iperf3_windows_msvc.Prelude.{
  ℕ, ◌≡◌, refl, true, false, none, List, [], ◌∷◌, ◌++◌, value_or, All, ◌⊎◌, inl, inr,
}
use iperf3_windows_msvc.Prelude.Int.{ℤ, pos, negsuc}
use iperf3_windows_msvc.Time.{IperfTime}
use iperf3_windows_msvc.Control.{receiver, test_running, client_terminate}
use iperf3_windows_msvc.Server.Run.{Server, ServerCalls, going}
use iperf3_windows_msvc.Server.Round.{run_rounds}
use iperf3_windows_msvc.Server.Start.{start_threads}
use iperf3_windows_msvc.Server.Shut.{IsEmptied}
use iperf3_windows_msvc.Server.Closed.{Closes, Gone, sockets}
use iperf3_windows_msvc.Server.Busy.{start_threads-goes_on}

-- The bytes that the client sent, those that the server sends, and the descriptors that were closed.
abbrev Wire : Type 0
Wire = List ℕ × List ℕ × List ℤ

abbrev take_byte : List ℕ → List ℕ → List ℤ → (ℤ × List ℕ) × Wire
take_byte [] out gone = ((pos 0, []), ([], out, gone))
take_byte (byte ∷ rest) out gone = ((pos 1, byte ∷ []), (rest, out, gone))

abbrev close_fd : ℤ → Wire → Wire
close_fd fd w = (w.0, w.1, fd ∷ w.2)

abbrev noon : IperfTime
noon = record { secs = 43200; usecs = 0 }

-- The control socket, 5, is always ready; attributes cannot be made.
abbrev wire : ServerCalls Wire
wire = record {
  calls = record {
    nread = λ fd count w. take_byte w.0 w.1 w.2;
    nwrite = λ fd bytes w. (pos 1, (w.0, w.1 ++ bytes, w.2));
    close = close_fd;
    cpu_util = λ w. w;
    stats_callback = λ w. w;
    reporter_callback = λ state w. w;
    on_test_finish = λ w. w;
    send_results = λ w. (none, w);
    get_results = λ w. (none, w);
  };
  errno = λ w. 0;
  cancel_threads = λ sockets w. w;
  sync_close = close_fd;
  cancel_timers = λ w. w;
  accept = λ fd w. (pos 9, w);
  set_no_delay = λ fd w. (true, w);
  set_keepalive = λ fd w. (none, w);
  exchange_parameters = λ s. (pos 0, s);
  set_affinity = λ w. (none, w);
  on_connect = λ w. w;
  proto_accept = λ fd w. (none, pos 10, w);
  common_sockopts = λ fd w. (none, w);
  is_closed = λ fd w. (false, w);
  new_stream = λ fd part w. (none, w);
  announce = λ w. (pos 3, w);
  init_test = λ w. (none, w);
  create_timers = λ w. (none, w);
  create_omit_timer = λ w. (none, w);
  create_send_timers = λ w. (none, w);
  attr_init = λ w. (false, w);
  attr_destroy = λ w. (true, w);
  create_thread = λ fd w. (true, w);
  now = λ w. (noon, w);
  tmr_timeout = λ now w. (none, w);
  select = λ reads writes timeout w. (pos 1, false, pos 5 ∷ [], w);
  run_timers = λ now s. s;
  json_finish = λ w. (true, w);
  clear_affinity = λ w. (none, w);
}

-- A test of two streams that the client breaks off.
abbrev serving : Server Wire
serving = record {
  test = record {
    state = test_running;
    done = false;
    i_errno = 0;
    mode = receiver;
    ctrl_sck = pos 5;
    streams = pos 7 ∷ pos 8 ∷ [];
    read_set = pos 3 ∷ pos 5 ∷ pos 7 ∷ pos 8 ∷ [];
    write_set = pos 7 ∷ [];
    world = (client_terminate ∷ [], [], []);
  };
  listener = pos 3;
  prot_listener = negsuc 0;
  num_streams = 2;
  is_tcp = true;
  reopens = false;
  rate = 0;
  bitrate_limit = 0;
  bitrate_limit_exceeded = false;
  blocks_received = 4;
  idle_timeout = 0;
  rcv_timeout = record { secs = 120; usecs = 0 };
  send_streams_accepted = 0;
  rec_streams_accepted = 2;
  streams_to_send = 0;
  streams_to_rec = 2;
  flag = negsuc 0;
  json_output = true;
  server_affinity = negsuc 0;
  last_receive_time = noon;
  last_receive_blocks = 4;
}

abbrev finished : ℤ × Server Wire
unfolding run_rounds
finished = value_or (pos 7, serving) (run_rounds wire 2 serving)

abbrev Has : ℤ → List ℤ → Type 0
Has fd [] = ⊥
Has fd (x ∷ rest) = (x ≡ fd) ⊎ Has fd rest

abbrev IsClosed : ℤ → Wire → Type 0
IsClosed fd w = Has fd (w.2)

wire-Closes : Closes wire IsClosed
wire-Closes = record {
  close = λ fd w. inl refl;
  sync_close = λ fd w. inl refl;
  close_keeps = λ fd x w h. inr h;
  sync_close_keeps = λ fd x w h. inr h;
  timers_keep = λ x w h. h;
  thread_keeps = λ fd x w h. h;
  attr_keeps = λ x w h. h;
  now_keeps = λ x w h. h;
  affinity_keeps = λ x w h. h;
}

start_threads-goes_on_example :
    (t : Server Wire) × (start_threads wire serving ≡ going t)
    × All (Gone IsClosed t.test.world) (sockets serving)
    × IsEmptied t
start_threads-goes_on_example =
    start_threads-goes_on wire IsClosed wire-Closes serving refl (λ fd w. refl) (λ w. refl)
