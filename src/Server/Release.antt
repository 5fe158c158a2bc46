-- ===== src/Server/Release.antt =====
-- src/iperf_server_api.c: when the release of the streams of an expired test ends.
use iperf3_windows_msvc.Prelude.{
  ℕ, zero, suc, ◌≡◌, refl, sym, ap, ◌∙◌, true, false, List, [], ◌∷◌, none, some, All, length, arith,
  Bool-cases, branches, inl, inr, if◌then◌else◌,
}
use iperf3_windows_msvc.Prelude.Int.{ℤ, pos, negsuc, ltb_ℤ, ◌==ℤ◌}
use iperf3_windows_msvc.Net.{return, continue, loop}
use iperf3_windows_msvc.Net.Loop.{Keeps, loop_inv, loop-zero, loop-continue}
use iperf3_windows_msvc.Control.{
  Test, Status, ok, failed, Calls, set_test_state, set_send_state, server_error,
}
use mathlib.Core.Path.{subst}
use iperf3_windows_msvc.Udp.Packet.{be32}
use iperf3_windows_msvc.Control.Steps.{Holds}
use iperf3_windows_msvc.Server.Expire.{
  ieservertestdurationexpired, send_codes, report_expired, free_stream_body, close_ctrl_sck,
  server_timer_proc,
}

-- Every stream has a socket.
abbrev pub Open : List ℤ → Type 0
Open = All (λ socket. (socket ==ℤ negsuc 0) ≡ false)

-- The streams and the flag are those of `test`.
abbrev Same : {W : Type 0} → Test W → Test W → Type 0
Same test t = (t.streams ≡ test.streams) × (t.done ≡ test.done)

-- What the loop keeps, and what it ends with.
abbrev Releasing : {W : Type 0} → Test W → Type 0
Releasing t = Open t.streams × (t.done ≡ true)

abbrev Released : {W : Type 0} → Test W → Type 0
Released t = (t.streams ≡ []) × (t.done ≡ true)

module _ {W : Type 0} (calls : Calls W) where
  send_codes-Same : (test t : Test W) → Same test t → Same test (send_codes calls t)
  unfolding send_codes
  send_codes-Same test t h =
      elim (Bool-cases
        ((calls.nwrite t.ctrl_sck (be32 ieservertestdurationexpired) t.world).0 ==ℤ pos 4)) [
          | inl e ↦ rw e h
          | inr e ↦ rw e h
        ]

  set_send_state-Same :
      (test : Test W) → Holds (Same test) (Same test) (set_send_state calls server_error test)
  unfolding set_send_state set_test_state
  set_send_state-Same test =
      branches (Holds (Same test) (Same test)) (ltb_ℤ test.ctrl_sck (pos 0)) (refl, refl)
        (branches (Holds (Same test) (Same test))
          (ltb_ℤ (calls.nwrite test.ctrl_sck (server_error ∷ []) test.world).0 (pos 0)) (refl, refl)
          (refl, refl))

  -- The report leaves the streams alone.
  report_expired-Same :
      (test : Test W) (s : Status W)
      → Holds (Same test) (Same test) s
      → Same test (report_expired calls s)
  unfolding report_expired
  report_expired-Same test (ok t) h = send_codes-Same test t h
  report_expired-Same test (failed t) h = h

  free_stream_body-Keeps :
      (t : Test W)
      → Releasing t
      → Keeps Releasing Released
          (λ u. length u.streams)
          (length t.streams)
          (free_stream_body calls t)
  unfolding free_stream_body
  free_stream_body-Keeps t (all_open, done) = go (t.streams) refl all_open
    where
      go :
          (sockets : List ℤ)
          → t.streams ≡ sockets
          → Open sockets
          → Keeps Releasing Released
              (λ u. length u.streams)
              (length t.streams)
              (elim sockets [
                | [] ↦ return t
                | socket ∷ rest ↦
                    if socket ==ℤ negsuc 0
                    then continue t
                    else continue (record t { streams = rest; world = calls.close socket t.world })
              ])
      go [] e h = (e, done)
      go (socket ∷ rest) e (h, hs) = rw h (omega (arith, ap length e), (hs, done))

  -- A test that expires is released: the function returns, with the test done, no stream left and no
  -- control socket, if every stream has a socket. One more than the number of streams is fuel enough.
  pub server_timer_proc_ends :
      (test : Test W)
      → test.done ≡ false
      → Open test.streams
      → (t : Test W) × (server_timer_proc calls (suc (length test.streams)) test ≡ some t)
        × (t.done ≡ true)
        × (t.streams ≡ [])
        × (t.ctrl_sck ≡ negsuc 0)
  unfolding server_timer_proc close_ctrl_sck
  server_timer_proc_ends test running all_open =
      let expired : Test W = record test { done = true } in
      let reported = report_expired calls (set_send_state calls server_error expired) in
      let (same, done) =
        report_expired-Same expired (set_send_state calls server_error expired)
          (set_send_state-Same expired) in
      let (t, runs, (none_left, still)) =
        loop_inv Releasing Released (λ u. length u.streams) (free_stream_body calls)
          free_stream_body-Keeps (suc (length test.streams)) reported
          (omega (arith, ap length same)) (subst Open (sym same) all_open, done) in
      (
        record t { ctrl_sck = negsuc 0; world = calls.close t.ctrl_sck t.world },
        rw (running, runs) refl,
        still,
        none_left,
        refl,
      )

  stuck_round :
      (t : Test W) (rest : List ℤ)
      → t.streams ≡ negsuc 0 ∷ rest
      → free_stream_body calls t ≡ continue t
  unfolding free_stream_body
  stuck_round t rest first = rw first refl

  loop_stuck :
      (fuel : ℕ) (t : Test W)
      → free_stream_body calls t ≡ continue t
      → loop (free_stream_body calls) fuel t ≡ none
  loop_stuck zero t again = loop-zero (free_stream_body calls) t
  loop_stuck (suc fuel) t again =
      loop-continue (free_stream_body calls) fuel t again ∙ loop_stuck fuel t again

  -- If the test is not done yet and the first stream has no socket, the function never returns, whatever
  -- the fuel.
  pub server_timer_proc_stuck :
      (fuel : ℕ) (test : Test W) (rest : List ℤ)
      → test.done ≡ false
      → test.streams ≡ negsuc 0 ∷ rest
      → server_timer_proc calls fuel test ≡ none
  unfolding server_timer_proc close_ctrl_sck
  server_timer_proc_stuck fuel test rest running first =
      let expired : Test W = record test { done = true } in
      let reported = report_expired calls (set_send_state calls server_error expired) in
      let same =
        (report_expired-Same expired (set_send_state calls server_error expired)
          (set_send_state-Same expired)).0 in
      rw (running, loop_stuck fuel reported (stuck_round reported rest (same ∙ first))) refl
