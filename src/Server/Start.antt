-- ===== src/Server/Start.antt =====
-- src/iperf_server_api.c: how `iperf_run_server` takes the streams of a client, and starts the test.
use iperf3_windows_msvc.Prelude.{
  ℕ, ◌+◌, ◌*◌, ◌%◌, ◌^◌, Bool, true, false, none, some, List, [], ◌∷◌, not, ◌&&◌, ltb, ◌==◌,
  if◌then◌else◌,
}
use iperf3_windows_msvc.Prelude.Int.{ℤ, pos, negsuc, ltb_ℤ, ◌==ℤ◌}
use iperf3_windows_msvc.Control.{fd_clr, test_start, test_running}
use iperf3_windows_msvc.Params.{is_receiver}
use iperf3_windows_msvc.Params.Get.{directions}
use iperf3_windows_msvc.Server.Run.{
  ietotalrate, Server, ServerCalls, Step, going, leave, then_step, set_errno, has_world,
  cleanup_server, bail, must, must_send,
}

abbrev pub ielisten : ℕ
ielisten = 102

abbrev pub iepthreadcreate : ℕ
iepthreadcreate = 150

abbrev pub iepthreadattrinit : ℕ
iepthreadattrinit = 153

abbrev pub iepthreadattrdestroy : ℕ
iepthreadattrdestroy = 154

module _ {W : Type 0} (sc : ServerCalls W) where
  -- Receiving streams come first. If all have come, the flag stays as it is.
  unfoldable pub count_stream : Server W → Server W
  count_stream s =
      if not (s.rec_streams_accepted == s.streams_to_rec)
      then record s { flag = pos 0; rec_streams_accepted = s.rec_streams_accepted + 1 }
      else if not (s.send_streams_accepted == s.streams_to_send)
      then record s { flag = pos 1; send_streams_accepted = s.send_streams_accepted + 1 }
      else s

  unfoldable pub open_stream : ℤ → Server W → Step W
  unfolding count_stream bail
  open_stream fd s =
      let counted = count_stream s in
      if counted.flag ==ℤ negsuc 0
      then going counted
      else (let (error, w) = sc.new_stream fd (not (counted.flag ==ℤ pos 0)) counted.test.world in
          let made = has_world counted w in
          elim error [
            | some code ↦ bail sc (negsuc 0) (set_errno code made)
            | none ↦ going (record made {
              flag = negsuc 0;
              test = record made.test { streams = fd ∷ made.test.streams };
            })
          ])

  -- A connection for a stream.
  unfoldable pub on_stream : Server W → Step W
  unfolding open_stream bail must then_step
  on_stream s =
      let (error, fd, w) = sc.proto_accept s.prot_listener s.test.world in
      elim error [
        | some code ↦ bail sc (negsuc 0) (set_errno code (has_world s w))
        | none ↦ then_step (must sc (sc.common_sockopts fd) (has_world s w)) λ t.
            let (closed, w') = sc.is_closed fd t.test.world in
            if closed then going (has_world t w') else open_stream fd (has_world t w')
      ]

  -- The listener is closed, and opened anew.
  abbrev pub new_listener : Server W → ℤ × W
  new_listener s = sc.announce (sc.calls.close s.listener s.test.world)

  abbrev pub without_listener : Server W → Server W
  without_listener s = record s {
    listener = negsuc 0;
    test = record s.test {
      read_set = fd_clr s.listener s.test.read_set;
      world = (new_listener s).1;
    };
  }

  unfoldable pub reopen : Server W → Step W
  unfolding cleanup_server
  reopen s =
      let fd = (new_listener s).0 in
      let shut = without_listener s in
      if ltb_ℤ fd (pos 0)
      then leave (negsuc 0) (set_errno ielisten (cleanup_server sc shut))
      else going (record shut {
        listener = fd;
        test = record shut.test { read_set = fd ∷ shut.test.read_set };
      })

  -- TCP streams whose options differ need the listener anew; the one of UDP is done with.
  unfoldable pub reopen_listener : Server W → Step W
  unfolding reopen
  reopen_listener s =
      if s.is_tcp
      then (if s.reopens then reopen s else going s)
      else going (record s {
        prot_listener = negsuc 0;
        test = record s.test {
          read_set = fd_clr s.prot_listener s.test.read_set;
          world = sc.calls.close s.prot_listener s.test.world;
        };
      })

  abbrev pub is_over : Server W → Bool
  is_over s =
      ltb 0 s.bitrate_limit
      && ltb s.bitrate_limit (s.num_streams * s.rate * directions s.test.mode % 2 ^ 64)

  unfoldable pub check_rate : Server W → Step W
  unfolding cleanup_server
  check_rate s =
      if is_over s then leave (negsuc 0) (set_errno ietotalrate (cleanup_server sc s)) else going s

  -- One thread for each stream.
  unfoldable pub create_threads : List ℤ → Server W → Step W
  unfolding bail
  create_threads [] s = going s
  create_threads (fd ∷ rest) s =
      let (made, w) = sc.create_thread fd s.test.world in
      elim made [
        | true ↦ create_threads rest (has_world s w)
        | false ↦ bail sc (negsuc 0) (set_errno iepthreadcreate (has_world s w))
      ]

  -- After a failure of these two calls the server cleans up, but goes on.
  unfoldable pub with_attributes : ℕ → (W → Bool × W) → Server W → Server W
  unfolding cleanup_server
  with_attributes code call s =
      let (good, w) = call s.test.world in
      if good then has_world s w else cleanup_server sc (set_errno code (has_world s w))

  unfoldable pub start_threads : Server W → Step W
  unfolding then_step create_threads with_attributes
  start_threads s =
      let ready = with_attributes iepthreadattrinit sc.attr_init s in
      then_step (create_threads ready.test.streams ready) λ t.
        let done = with_attributes iepthreadattrdestroy sc.attr_destroy t in
        let (now, w) = sc.now done.test.world in
        going (record (has_world done w) {
          last_receive_blocks = done.blocks_received;
          last_receive_time = now;
        })

  -- All streams are there: the test starts.
  unfoldable pub start_test : Server W → Step W
  unfolding then_step reopen_listener check_rate must must_send start_threads
  start_test s = then_step (reopen_listener s) λ a.
      then_step (check_rate (record a { prot_listener = negsuc 0 })) λ b.
        then_step (must_send sc test_start (has_world b (sc.calls.cpu_util b.test.world))) λ c.
          then_step (must sc sc.init_test c) λ d. then_step (must sc sc.create_timers d) λ e.
            then_step (must sc sc.create_omit_timer e) λ f.
              then_step
                (if is_receiver f.test.mode then going f else must sc sc.create_send_timers f)
                λ g. then_step (must_send sc test_running g) start_threads
