-- ===== src/Server/Round.antt =====
-- src/iperf_server_api.c: one round of the main loop of `iperf_run_server`, and the loop.
use iperf3_windows_msvc.Prelude.{
  ℕ, zero, suc, ◌+◌, ◌*◌, Bool, false, Option, none, some, List, [], ◌∷◌, not, ◌&&◌, ◌||◌, ltb,
  ◌==◌, if◌then◌else◌,
}
use iperf3_windows_msvc.Prelude.Int.{ℤ, pos, negsuc, ltb_ℤ, ◌==ℤ◌}
use iperf3_windows_msvc.Time.{IperfTime, time_diff, time_in_usecs}
use iperf3_windows_msvc.Udp.Packet.{be32}
use iperf3_windows_msvc.Control.{
  sender, receiver, ok, failed, set_send_state, create_streams_state, server_error, iperf_start,
  iperf_done,
}
use iperf3_windows_msvc.Server.Message.{handle_message_server}
use iperf3_windows_msvc.Server.Wait.{is_sender, select_timeout}
use iperf3_windows_msvc.Server.Accept.{accept_client}
use iperf3_windows_msvc.Server.Start.{on_stream, start_test}
use iperf3_windows_msvc.Server.Run.{
  finish_run, ietotalrate, Server, ServerCalls, Step, going, leave, then_step, set_errno, with_test,
  has_world, cleanup_server, bail,
}

abbrev pub iectrlwrite : ℕ
iectrlwrite = 107

abbrev pub ieselect : ℕ
ieselect = 118

abbrev pub ienomsg : ℕ
ienomsg = 144

abbrev pub mem : ℤ → List ℤ → Bool
mem fd [] = false
mem fd (s ∷ set) = (s ==ℤ fd) || mem fd set

module _ {W : Type 0} (sc : ServerCalls W) where
  -- The two codes for the client.
  abbrev pub write_code : Server W → ℤ × W
  write_code s = sc.calls.nwrite s.test.ctrl_sck (be32 s.test.i_errno) s.test.world

  abbrev pub write_errno : Server W → ℤ × W
  write_errno s = let w = (write_code s).1 in sc.calls.nwrite s.test.ctrl_sck (be32 (sc.errno w)) w

  -- The rate limit was exceeded: the client is told, and the server leaves in any case. The code of a
  -- failed write is set after the cleaning up.
  unfoldable pub tell_exceeded : Server W → Step W
  unfolding cleanup_server
  tell_exceeded s =
      if ltb_ℤ (write_code s).0 (pos 0)
      then leave (negsuc 0)
          (set_errno iectrlwrite (cleanup_server sc (has_world s (write_code s).1)))
      else if ltb_ℤ (write_errno s).0 (pos 0)
      then leave (negsuc 0)
          (set_errno iectrlwrite (cleanup_server sc (has_world s (write_errno s).1)))
      else leave (negsuc 0) (cleanup_server sc (has_world s (write_errno s).1))

  unfoldable pub leave_exceeded : Server W → Step W
  unfolding bail tell_exceeded set_send_state
  leave_exceeded s = elim (set_send_state sc.calls server_error (set_errno ietotalrate s).test) [
    | failed t ↦ bail sc (negsuc 0) (with_test s t)
    | ok t ↦ tell_exceeded (with_test s t)
  ]

  -- The server has been idle for too long, or no block has come for too long.
  abbrev pub is_idle : ℕ → Server W → Bool
  is_idle t_usecs s = ltb 0 s.idle_timeout && not (ltb t_usecs (s.idle_timeout * 1000000))

  abbrev pub is_silent : ℕ → Server W → Bool
  is_silent t_usecs s =
      not (is_sender s.test.mode)
      && ltb (s.rcv_timeout.secs * 1000000 + s.rcv_timeout.usecs) t_usecs
      && (s.blocks_received == s.last_receive_blocks)

  -- Nothing came in time.
  unfoldable pub on_timeout : IperfTime → Server W → Step W
  unfolding bail
  on_timeout now s =
      let (order, apart) = time_diff now s.last_receive_time in
      let t_usecs = time_in_usecs apart in
      if not (order == 0)
      then going s
      else if s.test.state == iperf_start
      then (if is_idle t_usecs s then bail sc (pos 2) s else going s)
      else if is_silent t_usecs s
      then bail sc (negsuc 0) (set_errno ienomsg s)
      else going s

  unfoldable pub note_progress : IperfTime → Server W → Server W
  note_progress now s =
      if ltb s.last_receive_blocks s.blocks_received
      then record s { last_receive_blocks = s.blocks_received; last_receive_time = now }
      else s

  -- How many streams of each kind are to come.
  unfoldable pub set_targets : Server W → Server W
  set_targets s = record s {
    streams_to_send = elim s.test.mode [ receiver ↦ 0 | _ ↦ s.num_streams ];
    streams_to_rec = elim s.test.mode [ sender ↦ 0 | _ ↦ s.num_streams ];
  }

  -- A client on the control port.
  unfoldable pub on_listener : Server W → Step W
  unfolding accept_client bail set_targets
  on_listener s = elim (accept_client sc s) [
    | leave r t ↦ bail sc (negsuc 0) t
    | going t ↦ going (set_targets t)
  ]

  unfoldable pub on_control : Server W → Step W
  unfolding handle_message_server bail
  on_control s = elim (handle_message_server sc.calls s.test) [
    | ok t ↦ going (with_test s t)
    | failed t ↦ bail sc (negsuc 0) (with_test s t)
  ]

  unfoldable pub start_complete : Server W → Step W
  unfolding start_test
  start_complete s =
      if (s.rec_streams_accepted == s.streams_to_rec)
        && (s.send_streams_accepted == s.streams_to_send)
      then start_test sc s
      else going s

  unfoldable pub on_streams : List ℤ → Server W → Step W
  unfolding then_step on_stream start_complete
  on_streams ready s =
      if s.test.state == create_streams_state
      then then_step (if mem s.prot_listener ready then on_stream sc s else going s) start_complete
      else going s

  -- What `select` found.
  unfoldable pub on_ready : List ℤ → Server W → Step W
  unfolding then_step on_listener on_control on_streams
  on_ready ready s =
      then_step
        (if mem s.listener ready && not (s.test.state == create_streams_state)
          then on_listener s
          else going s)
        λ t.
          then_step (if mem t.test.ctrl_sck ready then on_control t else going t) (on_streams ready)

  abbrev pub is_now : Option (ℕ × ℕ) → Bool
  is_now none = false
  is_now (some (sec, usec)) = (sec == 0) && (usec == 0)

  -- `result` is what `select` answered, `interrupted` whether `errno` is EINTR.
  unfoldable pub on_select : ℤ → Bool → List ℤ → Option (ℕ × ℕ) → IperfTime → Server W → Step W
  unfolding then_step bail cleanup_server on_timeout note_progress on_ready
  on_select result interrupted ready timeout now s =
      if ltb_ℤ result (pos 0) && not interrupted
      then leave (negsuc 0) (set_errno ieselect (cleanup_server sc s))
      else then_step
          (if result ==ℤ pos 0
            then (let (later, w) = sc.now s.test.world in
                then_step (on_timeout later (has_world s w)) (λ t. going (note_progress later t)))
            else going (note_progress now s))
          λ t. then_step (if ltb_ℤ (pos 0) result then on_ready ready t else going t) λ u.
            if (result ==ℤ pos 0) || is_now timeout
            then (let (later, w) = sc.now u.test.world in
                going (sc.run_timers later (has_world u w)))
            else going u

  -- The body of `while (test->state != IPERF_DONE)`.
  unfoldable pub server_round : Server W → Step W
  unfolding leave_exceeded on_select
  server_round s =
      if s.bitrate_limit_exceeded
      then leave_exceeded s
      else (let (now, w1) = sc.now s.test.world in
          let (due, w2) = sc.tmr_timeout now w1 in
          let timeout = select_timeout s.test.state s.test.mode s.idle_timeout s.rcv_timeout due in
          let (result, interrupted, ready, w3) =
            sc.select s.test.read_set s.test.write_set timeout w2 in
          on_select result interrupted ready timeout now (has_world s w3))

  -- The loop on fuel, and what follows it; `none` is a loop that still goes on.
  unfoldable pub run_rounds : ℕ → Server W → Option (ℤ × Server W)
  unfolding server_round finish_run
  run_rounds zero s = none
  run_rounds (suc fuel) s =
      if s.test.state == iperf_done
      then some (finish_run sc s)
      else elim (server_round s) [ leave r t ↦ some (r, t) | going t ↦ run_rounds fuel t ]
