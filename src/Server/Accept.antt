-- ===== src/Server/Accept.antt =====
-- src/iperf_server_api.c: `iperf_accept`.
use iperf3_windows_msvc.Prelude.{ℕ, Option, none, some, [], ◌∷◌, not, if◌then◌else◌}
use iperf3_windows_msvc.Prelude.Int.{ℤ, pos, negsuc, ltb_ℤ, ◌==ℤ◌}
use iperf3_windows_msvc.Control.{ok, failed, set_send_state, param_exchange, access_denied}
use iperf3_windows_msvc.Server.Run.{
  Server, ServerCalls, Step, going, leave, then_step, set_errno, with_test,
}

abbrev pub ieaccept : ℕ
ieaccept = 104

abbrev pub ierecvcookie : ℕ
ierecvcookie = 106

abbrev pub iesetnodelay : ℕ
iesetnodelay = 122

abbrev pub cookie_size : ℕ
cookie_size = 37

module _ {W : Type 0} (sc : ServerCalls W) where
  -- A call with a code: `return -1` if it fails.
  unfoldable pub attempt : (W → Option ℕ × W) → Server W → Step W
  attempt call s =
      let (error, w) = call s.test.world in
      let s' = record s { test = record s.test { world = w } } in
      elim error [ none ↦ going s' | some code ↦ leave (negsuc 0) (set_errno code s') ]

  unfoldable pub read_cookie : Server W → Step W
  read_cookie s =
      let ((r, cookie), w) = sc.calls.nread s.test.ctrl_sck cookie_size s.test.world in
      let s' = record s { test = record s.test { world = w } } in
      if r ==ℤ pos cookie_size
      then going
          (record s' { test = record s'.test { read_set = s'.test.ctrl_sck ∷ s'.test.read_set } })
      else leave (negsuc 0) (set_errno ierecvcookie s')

  unfoldable pub ask_parameters : Server W → Step W
  unfolding set_send_state
  ask_parameters s = elim (set_send_state sc.calls param_exchange s.test) [
    | failed t ↦ leave (negsuc 0) (with_test s t)
    | ok t ↦
        let (r, s') = sc.exchange_parameters (with_test s t) in
        if ltb_ℤ r (pos 0) then leave (negsuc 0) s' else going s'
  ]

  -- The server is free. The affinity is set only if the client asks for it, which is up to the call.
  unfoldable pub welcome : ℤ → Server W → Step W
  unfolding then_step attempt read_cookie ask_parameters
  welcome fd s =
      let (set, w) = sc.set_no_delay fd s.test.world in
      let taken = record s { test = record s.test { ctrl_sck = fd; world = w } } in
      if not set
      then leave (negsuc 0) (set_errno iesetnodelay taken)
      else then_step
          (then_step
            (then_step (then_step (attempt (sc.set_keepalive fd) taken) read_cookie) ask_parameters)
            (attempt sc.set_affinity))
          (λ t. going (record t { test = record t.test { world = sc.on_connect t.test.world } }))

  -- A test is on: the client is told, whether or not that succeeds.
  unfoldable pub turn_away : ℤ → Server W → Server W
  turn_away fd s =
      let w = (sc.calls.nwrite fd (access_denied ∷ []) s.test.world).1 in
      record s { test = record s.test { world = sc.calls.close fd w } }

  unfoldable pub accept_client : Server W → Step W
  unfolding welcome turn_away
  accept_client s =
      let (fd, w) = sc.accept s.listener s.test.world in
      let s' = record s { test = record s.test { world = w } } in
      if ltb_ℤ fd (pos 0)
      then leave (negsuc 0) (set_errno ieaccept s')
      else if s'.test.ctrl_sck ==ℤ negsuc 0
      then welcome fd s'
      else going (turn_away fd s')
