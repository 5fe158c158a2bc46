-- ===== src/Server/Shut.antt =====
-- src/iperf_server_api.c: after cleaning up all sockets are closed; every way in which taking a stream
-- and starting the test end the server cleans up.
use iperf3_windows_msvc.Prelude.{
  not, ℕ, ◌≡◌, refl, Bool, true, false, Option, none, some, List, [], ◌∷◌, map, All, if◌then◌else◌,
  branches, Bool-cases, inl, inr,
}
use iperf3_windows_msvc.Prelude.Int.{◌==ℤ◌, ℤ, pos, negsuc, ltb_ℤ}
use iperf3_windows_msvc.Control.{Test, Status, test_start, test_running, ok, failed}
use iperf3_windows_msvc.Params.{is_receiver}
use iperf3_windows_msvc.Server.Run.{
  ietotalrate, Server, ServerCalls, Step, going, leave, then_step, set_errno, with_test, has_world,
  cleanup_server, bail, must, must_send, send_error,
}
use iperf3_windows_msvc.Server.Start.{
  count_stream, new_listener, without_listener, reopen, is_over, iepthreadcreate, ielisten,
  open_stream, on_stream, reopen_listener, check_rate, create_threads, start_threads, start_test,
}

abbrev pub IsShut : ℤ → Type 0
IsShut socket = ltb_ℤ (negsuc 0) socket ≡ false

-- No socket is left, and none is waited for.
unfoldable pub IsEmptied : {W : Type 0} → Server W → Type 0
IsEmptied s =
    IsShut s.test.ctrl_sck
    × IsShut s.listener
    × IsShut s.prot_listener
    × All IsShut s.test.streams
    × (s.test.read_set ≡ [])
    × (s.test.write_set ≡ [])

-- A step that ends the server ends it in a state of which `R` holds.
unfoldable pub EndsReleased : {W : Type 0} → (Server W → Type 0) → Step W → Type 0
EndsReleased R (going s) = Unit
EndsReleased R (leave r s) = R s

pub goes : {W : Type 0} (R : Server W → Type 0) (s : Server W) → EndsReleased R (going s)
unfolding EndsReleased
goes R s = tt

pub leaves :
    {W : Type 0} (R : Server W → Type 0) (r : ℤ) (s : Server W) → R s → EndsReleased R (leave r s)
unfolding EndsReleased
leaves R r s h = h

shut : (socket : ℤ) → IsShut (if ltb_ℤ (negsuc 0) socket then negsuc 0 else socket)
shut socket = elim (Bool-cases (ltb_ℤ (negsuc 0) socket)) [ inl e ↦ rw e refl | inr e ↦ rw e e ]

All-IsShut :
    (sockets : List ℤ)
    → All IsShut (map (λ socket. if ltb_ℤ (negsuc 0) socket then negsuc 0 else socket) sockets)
All-IsShut [] = tt
All-IsShut (socket ∷ rest) = (shut socket, All-IsShut rest)

pub then_step-EndsReleased :
    {W : Type 0} (R : Server W → Type 0) (a : Step W) (next : Server W → Step W)
    → EndsReleased R a
    → ((s : Server W) → EndsReleased R (next s))
    → EndsReleased R (then_step a next)
unfolding then_step EndsReleased
then_step-EndsReleased R (going s) next h k = k s
then_step-EndsReleased R (leave r s) next h k = h

-- What holds in all cases holds of the choice.
pub on_error :
    {X : Type 0} (P : X → Type 0) (a : Option ℕ) {x : X} {f : ℕ → X}
    → P x
    → ((code : ℕ) → P (f code))
    → P (elim a [ none ↦ x | some code ↦ f code ])
on_error P none h k = h
on_error P (some code) h k = k code

on_bool :
    {X : Type 0} (P : X → Type 0) (a : Bool) {x y : X}
    → P x
    → P y
    → P (elim a [ true ↦ x | false ↦ y ])
on_bool P true h k = h
on_bool P false h k = k

pub on_status :
    {W X : Type 0} (P : X → Type 0) (a : Status W) {f g : Test W → X}
    → ((t : Test W) → P (f t))
    → ((t : Test W) → P (g t))
    → P (elim a [ ok t ↦ f t | failed t ↦ g t ])
on_status P (ok t) h k = h t
on_status P (failed t) h k = k t

pub on_step :
    {W X : Type 0} (P : X → Type 0) (a : Step W) {f : Server W → X} {g : ℤ → Server W → X}
    → ((t : Server W) → P (f t))
    → ((r : ℤ) (t : Server W) → P (g r t))
    → P (elim a [ going t ↦ f t | leave r t ↦ g r t ])
on_step P (going t) h k = h t
on_step P (leave r t) h k = k r t

module _ {W : Type 0} (sc : ServerCalls W) where
  pub cleanup_server-IsEmptied : (s : Server W) → IsEmptied (cleanup_server sc s)
  unfolding cleanup_server IsEmptied
  cleanup_server-IsEmptied s = (
    shut (send_error sc s.test).ctrl_sck,
    shut s.listener,
    shut s.prot_listener,
    All-IsShut (send_error sc s.test).streams,
    refl,
    refl,
  )

-- `R` is a property that cleaning up establishes, whatever the error code is then.
module _ {W : Type 0} (sc : ServerCalls W) (R : Server W → Type 0)
    (holds : (code : ℕ) (s : Server W) → R (set_errno code (cleanup_server sc s))) where
  pub bail-EndsReleased : (r : ℤ) (s : Server W) → EndsReleased R (bail sc r s)
  unfolding bail
  bail-EndsReleased r s = leaves R _ _ (holds (cleanup_server sc s).test.i_errno s)

  must-EndsReleased : (call : W → Option ℕ × W) (s : Server W) → EndsReleased R (must sc call s)
  unfolding must
  must-EndsReleased call s =
      on_error (EndsReleased R) (call s.test.world).0 (goes R _)
        (λ code. bail-EndsReleased (negsuc 0) (set_errno code (has_world s (call s.test.world).1)))

  must_send-EndsReleased : (state : ℕ) (s : Server W) → EndsReleased R (must_send sc state s)
  unfolding must_send
  must_send-EndsReleased state s =
      on_status (EndsReleased R) _ (λ t. (goes R _))
        (λ t. bail-EndsReleased (negsuc 0) (with_test s t))

  open_stream-EndsReleased : (fd : ℤ) (s : Server W) → EndsReleased R (open_stream sc fd s)
  unfolding open_stream
  open_stream-EndsReleased fd s =
      let counted = count_stream sc s in
      let made = sc.new_stream fd (not (counted.flag ==ℤ pos 0)) counted.test.world in
      branches (EndsReleased R) (counted.flag ==ℤ negsuc 0) (goes R counted) (
        on_error (EndsReleased R) made.0 (goes R _)
          (λ code. bail-EndsReleased (negsuc 0) (set_errno code (has_world counted made.1))))

  pub on_stream-EndsReleased : (s : Server W) → EndsReleased R (on_stream sc s)
  unfolding on_stream
  on_stream-EndsReleased s =
      let a = sc.proto_accept s.prot_listener s.test.world in
      let came = has_world s a.2 in
      let fd = a.1 in
      on_error (EndsReleased R) a.0
        (then_step-EndsReleased R _ _ (must-EndsReleased (sc.common_sockopts fd) came) (λ t.
          let c = sc.is_closed fd t.test.world in
          branches (EndsReleased R) c.0 (goes R (has_world t c.1))
            (open_stream-EndsReleased fd (has_world t c.1))))
        (λ code. bail-EndsReleased (negsuc 0) (set_errno code came))

  reopen-EndsReleased : (s : Server W) → EndsReleased R (reopen sc s)
  unfolding reopen
  reopen-EndsReleased s =
      branches (EndsReleased R) (ltb_ℤ (new_listener sc s).0 (pos 0))
        (leaves R (negsuc 0) _ (holds ielisten (without_listener sc s))) (goes R _)

  reopen_listener-EndsReleased : (s : Server W) → EndsReleased R (reopen_listener sc s)
  unfolding reopen_listener
  reopen_listener-EndsReleased s =
      branches (EndsReleased R) s.is_tcp
        (branches (EndsReleased R) s.reopens (reopen-EndsReleased s) (goes R s)) (goes R _)

  check_rate-EndsReleased : (s : Server W) → EndsReleased R (check_rate sc s)
  unfolding check_rate
  check_rate-EndsReleased s =
      branches (EndsReleased R) (is_over sc s) (leaves R (negsuc 0) _ (holds ietotalrate s))
        (goes R s)

  create_threads-EndsReleased :
      (fds : List ℤ) (s : Server W) → EndsReleased R (create_threads sc fds s)
  unfolding create_threads
  create_threads-EndsReleased [] s = (goes R _)
  create_threads-EndsReleased (fd ∷ rest) s =
      let made = sc.create_thread fd s.test.world in
      on_bool (EndsReleased R) made.0 (create_threads-EndsReleased rest (has_world s made.1))
        (bail-EndsReleased (negsuc 0) (set_errno iepthreadcreate (has_world s made.1)))

  start_threads-EndsReleased : (s : Server W) → EndsReleased R (start_threads sc s)
  unfolding start_threads
  start_threads-EndsReleased s =
      then_step-EndsReleased R _ _ (create_threads-EndsReleased _ _) (λ t. (goes R _))

  pub start_test-EndsReleased : (s : Server W) → EndsReleased R (start_test sc s)
  unfolding start_test
  start_test-EndsReleased s = then_step-EndsReleased R _ _ (reopen_listener-EndsReleased s) λ a.
      then_step-EndsReleased R _ _ (check_rate-EndsReleased (record a { prot_listener = negsuc 0 }))
        λ b.
          then_step-EndsReleased R _ _
            (must_send-EndsReleased test_start (has_world b (sc.calls.cpu_util b.test.world)))
            λ c. then_step-EndsReleased R _ _ (must-EndsReleased sc.init_test c) λ d.
              then_step-EndsReleased R _ _ (must-EndsReleased sc.create_timers d) λ e.
                then_step-EndsReleased R _ _ (must-EndsReleased sc.create_omit_timer e) λ f.
                  then_step-EndsReleased R _ _
                    (branches (EndsReleased R) (is_receiver f.test.mode) (goes R f)
                      (must-EndsReleased sc.create_send_timers f))
                    λ g.
                      then_step-EndsReleased R _ _ (must_send-EndsReleased test_running g)
                        start_threads-EndsReleased
