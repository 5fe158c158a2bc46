-- ===== src/Server/Run.antt =====
-- src/iperf_server_api.c: the state of `iperf_run_server`, how a server accepts a client, and how it
-- is cleaned up.
use iperf3_windows_msvc.Prelude.{
  ℕ, Bool, Option, none, some, List, [], ◌∷◌, not, ◌&&◌, ◌==◌, map, if◌then◌else◌,
}
use iperf3_windows_msvc.Prelude.Int.{ℤ, pos, negsuc, ltb_ℤ, ◌==ℤ◌}
use iperf3_windows_msvc.Time.{IperfTime}
use iperf3_windows_msvc.Udp.Packet.{be32}
use iperf3_windows_msvc.Control.{Test, ok, failed, Calls, set_send_state, server_error}

-- The error codes that this part of the code sets.
abbrev pub ietotalrate : ℕ
ietotalrate = 27

-- The fields of `struct iperf_test` and the variables of `iperf_run_server`. `is_tcp` says whether the
-- protocol is TCP, `reopens` whether one of `no_delay`, `mss` and `socket_bufsize` is set; `flag` is
-- -1 for none.
pub record Server (W : Type 0) : Type 0 where
  pub test : Test W
  pub listener : ℤ
  pub prot_listener : ℤ
  pub num_streams : ℕ
  pub is_tcp : Bool
  pub reopens : Bool
  pub rate : ℕ
  pub bitrate_limit : ℕ
  pub bitrate_limit_exceeded : Bool
  pub blocks_received : ℕ
  pub idle_timeout : ℕ
  pub rcv_timeout : IperfTime
  pub send_streams_accepted : ℕ
  pub rec_streams_accepted : ℕ
  pub streams_to_send : ℕ
  pub streams_to_rec : ℕ
  pub flag : ℤ
  pub json_output : Bool
  pub server_affinity : ℤ
  pub last_receive_time : IperfTime
  pub last_receive_blocks : ℕ

-- What the server calls in other parts of the program and in the system. A call that may fail brings
-- its error code. The exchange of the parameters and the timers may change the whole state.
pub record ServerCalls (W : Type 0) : Type 0 where
  pub calls : Calls W
  pub errno : W → ℕ
  pub cancel_threads : List ℤ → W → W
  pub sync_close : ℤ → W → W
  pub cancel_timers : W → W
  pub accept : ℤ → W → ℤ × W
  pub set_no_delay : ℤ → W → Bool × W
  pub set_keepalive : ℤ → W → Option ℕ × W
  pub exchange_parameters : Server W → ℤ × Server W
  pub set_affinity : W → Option ℕ × W
  pub on_connect : W → W
  pub proto_accept : ℤ → W → Option ℕ × ℤ × W
  pub common_sockopts : ℤ → W → Option ℕ × W
  pub is_closed : ℤ → W → Bool × W
  pub new_stream : ℤ → Bool → W → Option ℕ × W
  pub announce : W → ℤ × W
  pub init_test : W → Option ℕ × W
  pub create_timers : W → Option ℕ × W
  pub create_omit_timer : W → Option ℕ × W
  pub create_send_timers : W → Option ℕ × W
  pub attr_init : W → Bool × W
  pub attr_destroy : W → Bool × W
  pub create_thread : ℤ → W → Bool × W
  pub now : W → IperfTime × W
  pub tmr_timeout : IperfTime → W → Option (ℕ × ℕ) × W
  pub select : List ℤ → List ℤ → Option (ℕ × ℕ) → W → ℤ × Bool × List ℤ × W
  pub run_timers : IperfTime → Server W → Server W
  pub json_finish : W → Bool × W
  pub clear_affinity : W → Option ℕ × W

abbrev pub with_test : {W : Type 0} → Server W → Test W → Server W
with_test s t = record s { test = t }

abbrev pub set_errno : {W : Type 0} → ℕ → Server W → Server W
set_errno code s = record s { test = record s.test { i_errno = code } }

abbrev pub has_world : {W : Type 0} → Server W → W → Server W
has_world s w = record s { test = record s.test { world = w } }

-- The int that a function returns, and the state.
pub data Step (W : Type 0) : Type 0 where
  going : Server W → Step W
  leave : ℤ → Server W → Step W

unfoldable pub then_step : {W : Type 0} → Step W → (Server W → Step W) → Step W
then_step (going s) next = next s
then_step (leave r s) next = leave r s

module _ {W : Type 0} (sc : ServerCalls W) where
  -- `close` for each socket that is open.
  unfoldable pub close_open : List ℤ → W → W
  close_open [] w = w
  close_open (socket ∷ rest) w =
      close_open rest (if ltb_ℤ (negsuc 0) socket then sc.calls.close socket w else w)

  -- The error code and `errno` for the client.
  unfoldable pub send_error : Test W → Test W
  unfolding set_send_state
  send_error test =
      if not (test.i_errno == 0) && not (test.ctrl_sck ==ℤ negsuc 0)
      then elim (set_send_state sc.calls server_error test) [
        | failed t ↦ t
        | ok t ↦
            let (r, w) = sc.calls.nwrite t.ctrl_sck (be32 t.i_errno) t.world in
            let w' =
              if ltb_ℤ r (pos 0) then w else (sc.calls.nwrite t.ctrl_sck (be32 (sc.errno w)) w).1 in
            record t { world = w' }
      ]
      else test

  -- As on Windows, where the sets of descriptors are emptied at once.
  unfoldable pub cleanup_server : Server W → Server W
  unfolding send_error close_open
  cleanup_server s =
      let t = send_error s.test in
      let w1 = close_open t.streams (sc.cancel_threads t.streams t.world) in
      let w2 = if ltb_ℤ (negsuc 0) t.ctrl_sck then sc.sync_close t.ctrl_sck w1 else w1 in
      let w3 = if ltb_ℤ (negsuc 0) s.listener then sc.calls.close s.listener w2 else w2 in
      let w4 = if ltb_ℤ (negsuc 0) s.prot_listener then sc.calls.close s.prot_listener w3 else w3 in
      record s {
        test = record t {
          ctrl_sck = if ltb_ℤ (negsuc 0) t.ctrl_sck then negsuc 0 else t.ctrl_sck;
          streams = map (λ socket. if ltb_ℤ (negsuc 0) socket then negsuc 0 else socket) t.streams;
          read_set = [];
          write_set = [];
          world = sc.cancel_timers w4;
        };
        listener = if ltb_ℤ (negsuc 0) s.listener then negsuc 0 else s.listener;
        prot_listener = if ltb_ℤ (negsuc 0) s.prot_listener then negsuc 0 else s.prot_listener;
      }

  -- After the cleaning up at the end, the affinity that was set is cleared.
  unfoldable pub close_run : Server W → ℤ × Server W
  unfolding cleanup_server
  close_run s =
      let cleaned = cleanup_server s in
      let (error, w) = sc.clear_affinity cleaned.test.world in
      if cleaned.server_affinity ==ℤ negsuc 0 then (pos 0, cleaned) else elim error [
        | none ↦ (pos 0, has_world cleaned w)
        | some code ↦ (negsuc 0, set_errno code (has_world cleaned w))
      ]

  -- What follows the loop: the output is finished, and only then the server cleans up.
  unfoldable pub finish_run : Server W → ℤ × Server W
  unfolding close_run
  finish_run s =
      let (printed, w) = sc.json_finish s.test.world in
      if s.json_output
      then (if printed then close_run (has_world s w) else (negsuc 0, has_world s w))
      else close_run s

  -- `cleanup_server(test); return r;`
  unfoldable pub bail : ℤ → Server W → Step W
  unfolding cleanup_server
  bail r s = leave r (cleanup_server s)

  -- A step that may fail with a code, and then ends the server.
  unfoldable pub must : (W → Option ℕ × W) → Server W → Step W
  unfolding bail
  must call s =
      let (error, w) = call s.test.world in
      let s' = record s { test = record s.test { world = w } } in
      elim error [ none ↦ going s' | some code ↦ bail (negsuc 0) (set_errno code s') ]

  unfoldable pub must_send : ℕ → Server W → Step W
  unfolding bail set_send_state
  must_send state s = elim (set_send_state sc.calls state s.test) [
    | ok t ↦ going (with_test s t)
    | failed t ↦ bail (negsuc 0) (with_test s t)
  ]
