-- ===== src/Server/Busy.antt =====
-- src/iperf_server_api.c: a second client during a test, and a failure of pthread_attr_init.
use iperf3_windows_msvc.Prelude.{◌≡◌, refl, true, false, List, [], ◌∷◌, All}
use iperf3_windows_msvc.Prelude.Int.{ℤ}
use iperf3_windows_msvc.Server.Run.{
  Server, ServerCalls, going, then_step, has_world, set_errno, cleanup_server,
}
use iperf3_windows_msvc.Control.{access_denied}
use iperf3_windows_msvc.Server.Start.{
  create_threads, with_attributes, start_threads, iepthreadattrinit,
}
use iperf3_windows_msvc.Server.Shut.{IsEmptied, cleanup_server-IsEmptied}
use iperf3_windows_msvc.Server.Closed.{
  Closes, Gone, sockets, All-weaken, Gone-keeps, cleanup_closes,
}

-- A client was turned away: it was told so, and its socket was closed after that. The test goes on with
-- its state, sockets and streams; only the world has changed, by these two calls.
pub record IsUndisturbed {W : Type 0} (sc : ServerCalls W) (fd : ℤ) (w : W) (s t : Server W)
    : Type 0 where
  pub told : W
  pub answer : ℤ
  pub denied : sc.calls.nwrite fd (access_denied ∷ []) w ≡ (answer, told)
  pub test : t.test ≡ record s.test { world = sc.calls.close fd told }
  pub listener : t.listener ≡ s.listener
  pub prot_listener : t.prot_listener ≡ s.prot_listener
  pub sending : t.send_streams_accepted ≡ s.send_streams_accepted
  pub receiving : t.rec_streams_accepted ≡ s.rec_streams_accepted
  pub progress : t.last_receive_blocks ≡ s.last_receive_blocks

module _ {W : Type 0} (sc : ServerCalls W) (IsClosed : ℤ → W → Type 0)
    (laws : Closes sc IsClosed) where
  create_threads-going :
      ((fd : ℤ) (w : W) → (sc.create_thread fd w).0 ≡ true)
      → (fds : List ℤ) (s : Server W)
      → (w : W) × (create_threads sc fds s ≡ going (has_world s w))
        × ((x : ℤ) → IsClosed x s.test.world → IsClosed x w)
  unfolding create_threads
  create_threads-going makes [] s = (s.test.world, refl, λ x h. h)
  create_threads-going makes (fd ∷ rest) s =
      let (w, e, keeps) =
        create_threads-going makes rest (has_world s (sc.create_thread fd s.test.world).1) in
      (
        w,
        rw (create_threads, makes fd s.test.world) e,
        λ x h. keeps x (laws.thread_keeps fd x s.test.world h),
      )

  -- If pthread_attr_init fails and the calls after it do not, the server is cleaned up, so that every
  -- socket that it had is closed, and yet the step ends with the loop going on. close(2) closes a
  -- descriptor, and the calls that follow it do not open one.
  pub start_threads-goes_on :
      (s : Server W)
      → (sc.attr_init s.test.world).0 ≡ false
      → ((fd : ℤ) (w : W) → (sc.create_thread fd w).0 ≡ true)
      → ((w : W) → (sc.attr_destroy w).0 ≡ true)
      → (t : Server W) × (start_threads sc s ≡ going t)
        × All (Gone IsClosed t.test.world) (sockets s)
        × IsEmptied t
  unfolding start_threads with_attributes then_step IsEmptied
  start_threads-goes_on s fails makes destroys =
      let failed = set_errno iepthreadattrinit (has_world s (sc.attr_init s.test.world).1) in
      let cleaned = cleanup_server sc failed in
      let (w, e, keeps) = create_threads-going makes cleaned.test.streams cleaned in
      let v = (sc.attr_destroy w).1 in
      let now = sc.now v in
      (
        record (has_world cleaned now.1) {
          last_receive_blocks = cleaned.blocks_received;
          last_receive_time = now.0;
        },
        rw (start_threads, with_attributes, fails, e, destroys w) refl,
        All-weaken (sockets s)
            (λ x h.
              Gone-keeps IsClosed _ _ x (λ g. laws.now_keeps x v (laws.attr_keeps x w (keeps x g)))
                h)
            (cleanup_closes sc IsClosed laws failed),
        cleanup_server-IsEmptied sc failed,
      )
