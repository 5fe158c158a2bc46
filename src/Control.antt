-- ===== src/Control.antt =====
-- src/iperf_api.c, iperf_api.h: the state of a test, and the messages that change it on both sides.
pub mod Sockets
pub mod Steps
use iperf3_windows_msvc.Prelude.{
  ℕ, suc, ◌+◌, Bool, true, false, List, [], ◌∷◌, Option, none, some, not, ltb, ◌==◌, if◌then◌else◌,
}
use iperf3_windows_msvc.Prelude.Int.{ℤ, pos, negsuc, ltb_ℤ, ◌==ℤ◌}

-- The states; a signed char is kept as its byte, so ACCESS_DENIED is 255 and SERVER_ERROR is 254.
abbrev pub test_start : ℕ
test_start = 1

abbrev pub test_running : ℕ
test_running = 2

abbrev pub test_end : ℕ
test_end = 4

abbrev pub param_exchange : ℕ
param_exchange = 9

abbrev pub create_streams_state : ℕ
create_streams_state = 10

abbrev pub server_terminate : ℕ
server_terminate = 11

abbrev pub client_terminate : ℕ
client_terminate = 12

abbrev pub exchange_results_state : ℕ
exchange_results_state = 13

abbrev pub display_results : ℕ
display_results = 14

abbrev pub iperf_start : ℕ
iperf_start = 15

abbrev pub iperf_done : ℕ
iperf_done = 16

abbrev pub access_denied : ℕ
access_denied = 255

abbrev pub server_error : ℕ
server_error = 254

-- The error codes that this part of the code sets.
abbrev pub iectrlread : ℕ
iectrlread = 108

abbrev pub iectrlclose : ℕ
iectrlclose = 109

abbrev pub iemessage : ℕ
iemessage = 110

abbrev pub iesendmessage : ℕ
iesendmessage = 111

abbrev pub ierecvmessage : ℕ
ierecvmessage = 112

abbrev pub ieclientterm : ℕ
ieclientterm = 119

abbrev pub ieserverterm : ℕ
ieserverterm = 120

abbrev pub ieaccessdenied : ℕ
ieaccessdenied = 121

-- `test->mode`
pub data Mode : Type 0 where
  sender receiver bidirectional : Mode

-- The fields of `struct iperf_test` that the control connection is about, with `i_errno`. `W` is the
-- rest of the program: the counters, the results, the world outside. A stream is known by its socket,
-- a set of descriptors is the list of its members.
pub record Test (W : Type 0) : Type 0 where
  pub state : ℕ
  pub done : Bool
  pub i_errno : ℕ
  pub mode : Mode
  pub ctrl_sck : ℤ
  pub streams : List ℤ
  pub read_set : List ℤ
  pub write_set : List ℤ
  pub world : W

-- An `int` that is 0 or -1, with the state of the test.
pub data Status (W : Type 0) : Type 0 where
  ok failed : Test W → Status W

-- `if (...) return -1;`
unfoldable pub and_then : {W : Type 0} → Status W → (Test W → Status W) → Status W
and_then (ok t) next = next t
and_then (failed t) next = failed t

-- What a handler calls, on the rest of the program: the socket loops of net.c, the exchange of
-- results, and the callbacks. A failure of the exchange brings its error code.
pub record Calls (W : Type 0) : Type 0 where
  pub nread : ℤ → ℕ → W → (ℤ × List ℕ) × W
  pub nwrite : ℤ → List ℕ → W → ℤ × W
  pub close : ℤ → W → W
  pub cpu_util : W → W
  pub stats_callback : W → W
  pub reporter_callback : ℕ → W → W
  pub on_test_finish : W → W
  pub send_results : W → Option ℕ × W
  pub get_results : W → Option ℕ × W

unfoldable pub set_test_state : {W : Type 0} → ℕ → Test W → Test W
set_test_state state test = record test { state = state }

-- FD_CLR
abbrev pub fd_clr : ℤ → List ℤ → List ℤ
fd_clr fd [] = []
fd_clr fd (s ∷ set) = if s ==ℤ fd then fd_clr fd set else s ∷ fd_clr fd set

-- A call that says by an error code that it failed.
unfoldable pub checked : {W : Type 0} → (W → Option ℕ × W) → Test W → Status W
checked call test =
    let (error, w) = call test.world in
    elim error [
      | none ↦ ok (record test { world = w })
      | some e ↦ failed (record test { i_errno = e; world = w })
    ]

module _ {W : Type 0} (calls : Calls W) where
  unfoldable pub set_send_state : ℕ → Test W → Status W
  unfolding set_test_state
  set_send_state state test =
      if ltb_ℤ test.ctrl_sck (pos 0)
      then ok test
      else let (r, w) = calls.nwrite test.ctrl_sck (state ∷ []) test.world in
        if ltb_ℤ r (pos 0)
        then failed (record (set_test_state state test) { i_errno = iesendmessage; world = w })
        else ok (record (set_test_state state test) { world = w })

  -- The server gets the results before it sends its own, the client the other way round.
  unfoldable pub exchange_results : Bool → Test W → Status W
  unfolding checked and_then
  exchange_results client test =
      if client
      then and_then (checked calls.send_results test) (checked calls.get_results)
      else and_then (checked calls.get_results test) (checked calls.send_results)

  -- The sockets of the streams leave the sets of descriptors, and are closed.
  unfoldable pub close_streams : List ℤ → Test W → Test W
  close_streams [] test = test
  close_streams (socket ∷ rest) test = close_streams rest (record test {
    read_set = fd_clr socket test.read_set;
    write_set = fd_clr socket test.write_set;
    world = calls.close socket test.world;
  })
