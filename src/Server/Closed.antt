-- ===== src/Server/Closed.antt =====
-- src/iperf_server_api.c: `cleanup_server` closes every socket that the server has.
use mathlib.Core.Path.{subst}
use iperf3_windows_msvc.Prelude.{
  ℕ, ◌≡◌, refl, false, List, [], ◌∷◌, All, ◌⊎◌, inl, inr, if◌then◌else◌, Bool-cases, branches, not,
  ◌&&◌, ◌==◌,
}
use iperf3_windows_msvc.Prelude.Int.{ℤ, negsuc, pos, ltb_ℤ, ◌==ℤ◌}
use iperf3_windows_msvc.Control.{
  Test, Status, Calls, ok, failed, set_send_state, set_test_state, server_error,
}
use iperf3_windows_msvc.Control.Steps.{Holds}
use iperf3_windows_msvc.Server.Run.{
  Server, ServerCalls, set_errno, has_world, send_error, close_open, cleanup_server,
}
use iperf3_windows_msvc.Server.Shut.{IsEmptied, cleanup_server-IsEmptied}

-- What the system documents of close(2), of which `IsClosed fd w` is the outcome: it closes the
-- descriptor, and neither it nor the calls that may follow it here open one.
pub record Closes {W : Type 0} (sc : ServerCalls W) (IsClosed : ℤ → W → Type 0) : Type 0 where
  pub close : (fd : ℤ) (w : W) → IsClosed fd (sc.calls.close fd w)
  pub sync_close : (fd : ℤ) (w : W) → IsClosed fd (sc.sync_close fd w)
  pub close_keeps : (fd x : ℤ) (w : W) → IsClosed x w → IsClosed x (sc.calls.close fd w)
  pub sync_close_keeps : (fd x : ℤ) (w : W) → IsClosed x w → IsClosed x (sc.sync_close fd w)
  pub timers_keep : (x : ℤ) (w : W) → IsClosed x w → IsClosed x (sc.cancel_timers w)
  pub thread_keeps : (fd x : ℤ) (w : W) → IsClosed x w → IsClosed x (sc.create_thread fd w).1
  pub attr_keeps : (x : ℤ) (w : W) → IsClosed x w → IsClosed x (sc.attr_destroy w).1
  pub now_keeps : (x : ℤ) (w : W) → IsClosed x w → IsClosed x (sc.now w).1
  pub affinity_keeps : (x : ℤ) (w : W) → IsClosed x w → IsClosed x (sc.clear_affinity w).1

-- The sockets that the server has; -1 is none.
abbrev pub sockets : {W : Type 0} → Server W → List ℤ
sockets s = s.test.ctrl_sck ∷ s.listener ∷ s.prot_listener ∷ s.test.streams

-- No socket, or one that is closed.
abbrev pub Gone : {W : Type 0} → (ℤ → W → Type 0) → W → ℤ → Type 0
Gone IsClosed w fd = (ltb_ℤ (negsuc 0) fd ≡ false) ⊎ IsClosed fd w

pub All-weaken :
    {P Q : ℤ → Type 0} (fds : List ℤ) → ((fd : ℤ) → P fd → Q fd) → All P fds → All Q fds
All-weaken [] f h = tt
All-weaken (fd ∷ rest) f (p, h) = (f fd p, All-weaken rest f h)

pub Gone-keeps :
    {W : Type 0} (IsClosed : ℤ → W → Type 0) (w v : W) (x : ℤ)
    → (IsClosed x w → IsClosed x v)
    → Gone IsClosed w x
    → Gone IsClosed v x
Gone-keeps IsClosed w v x f (inl e) = inl e
Gone-keeps IsClosed w v x f (inr h) = inr (f h)

-- The test has the same sockets.
abbrev SameSockets : {W : Type 0} → Test W → Test W → Type 0
SameSockets t u = (u.ctrl_sck ≡ t.ctrl_sck) × (u.streams ≡ t.streams)

after_status :
    {W : Type 0} (P : Test W → Type 0) (a : Status W) {f : Test W → Test W}
    → Holds P P a
    → ((t : Test W) → P t → P (f t))
    → P (elim a [ failed t ↦ t | ok t ↦ f t ])
after_status P (ok t) h k = k t h
after_status P (failed t) h k = h

set_send_state-SameSockets :
    {W : Type 0} (calls : Calls W) (state : ℕ) (t : Test W)
    → Holds (SameSockets t) (SameSockets t) (set_send_state calls state t)
unfolding set_send_state set_test_state
set_send_state-SameSockets calls state t =
    branches (Holds (SameSockets t) (SameSockets t)) (ltb_ℤ t.ctrl_sck (pos 0)) (refl, refl)
      (branches (Holds (SameSockets t) (SameSockets t))
        (ltb_ℤ (calls.nwrite t.ctrl_sck (state ∷ []) t.world).0 (pos 0)) (refl, refl) (refl, refl))

-- Telling the client changes no socket.
send_error-SameSockets :
    {W : Type 0} (sc : ServerCalls W) (t : Test W) → SameSockets t (send_error sc t)
unfolding send_error
send_error-SameSockets sc t =
    branches (SameSockets t) (not (t.i_errno == 0) && not (t.ctrl_sck ==ℤ negsuc 0))
      (after_status (SameSockets t) (set_send_state sc.calls server_error t)
        (set_send_state-SameSockets sc.calls server_error t) (λ u h. h))
      (refl, refl)

module _ {W : Type 0} (sc : ServerCalls W) (IsClosed : ℤ → W → Type 0)
    (laws : Closes sc IsClosed) where
  -- `if (fd > -1) close(fd)`, by either function.
  Gone-if_open :
      (by : ℤ → W → W)
      → ((fd : ℤ) (w : W) → IsClosed fd (by fd w))
      → (fd : ℤ) (w : W) → Gone IsClosed (if ltb_ℤ (negsuc 0) fd then by fd w else w) fd
  Gone-if_open by closes fd w = elim (Bool-cases (ltb_ℤ (negsuc 0) fd)) [
    | inl e ↦ rw e (inr (closes fd w))
    | inr e ↦ inl e
  ]

  kept_if_open :
      (by : ℤ → W → W)
      → ((fd x : ℤ) (w : W) → IsClosed x w → IsClosed x (by fd w))
      → (fd x : ℤ) (w : W) → Gone IsClosed w x
      → Gone IsClosed (if ltb_ℤ (negsuc 0) fd then by fd w else w) x
  kept_if_open by keeps fd x w h =
      branches (λ v. Gone IsClosed v x) (ltb_ℤ (negsuc 0) fd)
        (Gone-keeps IsClosed w _ x (keeps fd x w) h) h

  close_open-keeps :
      (fds : List ℤ) (x : ℤ) (w : W) → Gone IsClosed w x → Gone IsClosed (close_open sc fds w) x
  unfolding close_open
  close_open-keeps [] x w h = h
  close_open-keeps (fd ∷ rest) x w h =
      close_open-keeps rest x _ (kept_if_open sc.calls.close laws.close_keeps fd x w h)

  close_open-Gone : (fds : List ℤ) (w : W) → All (Gone IsClosed (close_open sc fds w)) fds
  unfolding close_open
  close_open-Gone [] w = tt
  close_open-Gone (fd ∷ rest) w = (
    close_open-keeps rest fd _ (Gone-if_open sc.calls.close laws.close fd w),
    close_open-Gone rest _,
  )

  -- The sockets after each step of the cleaning up, by the worlds that the steps leave.
  cleaned-Gone :
      (ctrl listener prot : ℤ) (fds : List ℤ) (w : W)
      → let w1 = close_open sc fds w in
        let w2 = if ltb_ℤ (negsuc 0) ctrl then sc.sync_close ctrl w1 else w1 in
        let w3 = if ltb_ℤ (negsuc 0) listener then sc.calls.close listener w2 else w2 in
        let w4 = if ltb_ℤ (negsuc 0) prot then sc.calls.close prot w3 else w3 in
        All (Gone IsClosed (sc.cancel_timers w4)) (ctrl ∷ listener ∷ prot ∷ fds)
  cleaned-Gone ctrl listener prot fds w =
      let w1 = close_open sc fds w in
      let w2 = if ltb_ℤ (negsuc 0) ctrl then sc.sync_close ctrl w1 else w1 in
      let w3 = if ltb_ℤ (negsuc 0) listener then sc.calls.close listener w2 else w2 in
      let w4 = if ltb_ℤ (negsuc 0) prot then sc.calls.close prot w3 else w3 in
      let last = λ (x : ℤ) (h : Gone IsClosed w4 x).
        Gone-keeps IsClosed w4 (sc.cancel_timers w4) x (laws.timers_keep x w4) h in
      let fourth = λ (x : ℤ) (h : Gone IsClosed w3 x).
        last x (kept_if_open sc.calls.close laws.close_keeps prot x w3 h) in
      let third = λ (x : ℤ) (h : Gone IsClosed w2 x).
        fourth x (kept_if_open sc.calls.close laws.close_keeps listener x w2 h) in
      let second = λ (x : ℤ) (h : Gone IsClosed w1 x).
        third x (kept_if_open sc.sync_close laws.sync_close_keeps ctrl x w1 h) in
      (
        third ctrl (Gone-if_open sc.sync_close laws.sync_close ctrl w1),
        (
          fourth listener (Gone-if_open sc.calls.close laws.close listener w2),
          (
            last prot (Gone-if_open sc.calls.close laws.close prot w3),
            All-weaken fds second (close_open-Gone fds w),
          ),
        ),
      )

  pub cleanup_closes :
      (s : Server W) → All (Gone IsClosed (cleanup_server sc s).test.world) (sockets s)
  unfolding cleanup_server
  cleanup_closes s =
      let t = send_error sc s.test in
      let (ctrl, streams) = send_error-SameSockets sc s.test in
      let h =
        cleaned-Gone t.ctrl_sck s.listener s.prot_listener t.streams
          (sc.cancel_threads t.streams t.world) in
      let (gone, (listener, (prot, all))) = h in
      (
        subst (Gone IsClosed (cleanup_server sc s).test.world) ctrl gone,
        (
          listener,
          (prot, subst (All (Gone IsClosed (cleanup_server sc s).test.world)) streams all),
        ),
      )

-- A state in which the server was left after it was cleaned up: `last` is the state before that, and
-- the affinity may have been cleared since.
pub data Cleaned {W : Type 0} (sc : ServerCalls W) (last t : Server W) : Type 0 where
  at_once : (code : ℕ) → t ≡ set_errno code (cleanup_server sc last) → Cleaned sc last t
  unbound :
      (code : ℕ)
      → t
        ≡ set_errno code (
            has_world
              (cleanup_server sc last)
              (sc.clear_affinity (cleanup_server sc last).test.world).1)
      → Cleaned sc last t

-- Every socket that the server had when it was cleaned up is closed, and it has none any more.
pub record IsReleased {W : Type 0} (sc : ServerCalls W) (IsClosed : ℤ → W → Type 0) (t : Server W)
    : Type 0 where
  pub last : Server W
  pub cleaned : Cleaned sc last t
  pub closed : All (Gone IsClosed t.test.world) (sockets last)
  pub emptied : IsEmptied t

module _ {W : Type 0} (sc : ServerCalls W) (IsClosed : ℤ → W → Type 0)
    (laws : Closes sc IsClosed) where
  pub cleanup_server-IsReleased :
      (code : ℕ) (s : Server W) → IsReleased sc IsClosed (set_errno code (cleanup_server sc s))
  unfolding IsEmptied
  cleanup_server-IsReleased code s = record {
    last = s;
    cleaned = Cleaned.at_once code refl;
    closed = cleanup_closes sc IsClosed laws s;
    emptied = cleanup_server-IsEmptied sc s;
  }

  pub unbound-IsReleased :
      (code : ℕ) (s : Server W)
      → IsReleased sc IsClosed (
          set_errno code (
            has_world (cleanup_server sc s) (sc.clear_affinity (cleanup_server sc s).test.world).1))
  unfolding IsEmptied
  unbound-IsReleased code s = record {
    last = s;
    cleaned = Cleaned.unbound code refl;
    closed =
        All-weaken (sockets s) (λ x h. Gone-keeps IsClosed _ _ x (laws.affinity_keeps x _) h)
          (cleanup_closes sc IsClosed laws s);
    emptied = cleanup_server-IsEmptied sc s;
  }
