-- ===== src/Server/Released.antt =====
-- src/iperf_server_api.c: the ends of the main loop of `iperf_run_server`.
use iperf3_windows_msvc.Prelude.{◌≡◌, true, false, Option, none, some}
use iperf3_windows_msvc.Prelude.Int.{ℤ, negsuc}
use iperf3_windows_msvc.Control.{iperf_done}
use iperf3_windows_msvc.Server.Closed.{Closes, IsReleased}
use iperf3_windows_msvc.Server.Run.{Server, ServerCalls, has_world}

-- What holds of an end, if there is one.
abbrev Out : {A : Type 0} → (A → Type 0) → Option A → Type 0
Out P none = Unit
Out P (some a) = P a

-- How iperf_run_server may end: with all closed, or, without cleaning up, if the JSON output cannot be
-- finished.
pub data IsOver {W : Type 0} (sc : ServerCalls W) (IsClosed : ℤ → W → Type 0) (r : ℤ) (t : Server W)
    : Type 0 where
  released : IsReleased sc IsClosed t → IsOver sc IsClosed r t
  unprinted :
      (last : Server W)
      → (last.test.state ≡ iperf_done)
        × (last.json_output ≡ true)
        × ((sc.json_finish last.test.world).0 ≡ false)
      → r ≡ negsuc 0
      → t ≡ has_world last (sc.json_finish last.test.world).1
      → IsOver sc IsClosed r t

module _ {W : Type 0} (sc : ServerCalls W) (IsClosed : ℤ → W → Type 0)
    (laws : Closes sc IsClosed) where
  abbrev Over : ℤ × Server W → Type 0
  Over a = IsOver sc IsClosed (a.0) (a.1)
