-- ===== src/Server/Expire.antt =====
-- src/iperf_server_api.c: what the server does when a test has lasted too long.
use iperf3_windows_msvc.Prelude.{ℕ, true, [], ◌∷◌, Option, none, some, if◌then◌else◌}
use iperf3_windows_msvc.Prelude.Int.{pos, negsuc, ◌==ℤ◌}
use iperf3_windows_msvc.Net.{Round, return, continue, loop}
use iperf3_windows_msvc.Udp.Packet.{be32}
use iperf3_windows_msvc.Control.{Test, Status, ok, failed, Calls, set_send_state, server_error}

abbrev pub ieservertestdurationexpired : ℕ
ieservertestdurationexpired = 160

module _ {W : Type 0} (calls : Calls W) where
  -- The code of the error, and a second number of 0 if all four bytes of the code were written.
  unfoldable pub send_codes : Test W → Test W
  send_codes test =
      let t = record test { i_errno = ieservertestdurationexpired } in
      let (r, w) = calls.nwrite t.ctrl_sck (be32 ieservertestdurationexpired) t.world in
      if r ==ℤ pos 4
      then record t { world = (calls.nwrite t.ctrl_sck (be32 0) w).1 }
      else record t { world = w }

  unfoldable pub report_expired : Status W → Test W
  unfolding send_codes
  report_expired (ok test) = send_codes test
  report_expired (failed test) = test

  -- A round of `while (!SLIST_EMPTY(&test->streams))`.
  unfoldable pub free_stream_body : Test W → Round (Test W) (Test W)
  free_stream_body test = elim test.streams [
    | [] ↦ return test
    | socket ∷ rest ↦
        if socket ==ℤ negsuc 0
        then continue test
        else continue (record test { streams = rest; world = calls.close socket test.world })
  ]

  -- The control socket is closed last.
  unfoldable pub close_ctrl_sck : Option (Test W) → Option (Test W)
  close_ctrl_sck none = none
  close_ctrl_sck (some test) =
      some (record test { ctrl_sck = negsuc 0; world = calls.close test.ctrl_sck test.world })

  unfoldable pub server_timer_proc : ℕ → Test W → Option (Test W)
  unfolding report_expired set_send_state free_stream_body close_ctrl_sck loop
  server_timer_proc fuel test =
      if test.done
      then some test
      else close_ctrl_sck (
          loop free_stream_body fuel
            (report_expired (set_send_state calls server_error (record test { done = true }))))
