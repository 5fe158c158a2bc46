-- ===== src/Client/Code.antt =====
-- src/iperf_client_api.c: the error code that the client takes over from the server.
use iperf3_windows_msvc.Prelude.{ℕ, ap, ◌^◌, ◌<◌, ◌≡◌, refl, ◌∙◌, false, List, [], drop}
use iperf3_windows_msvc.Prelude.Int.{ℤ, pos, ltb_ℤ}
use iperf3_windows_msvc.Udp.Packet.{be32, of_be32, of_be32-be32}
use iperf3_windows_msvc.Control.{Test}
use iperf3_windows_msvc.Client.Message.{ClientCalls, overwrite, state_of, on_server_error}

module _ {W : Type 0} (calls : ClientCalls W) (err : List ℕ) (t : Test W) where
  abbrev first_read : (ℤ × List ℕ) × W
  first_read = calls.common.nread t.ctrl_sck 4 t.world

  abbrev second_read : (ℤ × List ℕ) × W
  second_read = calls.common.nread t.ctrl_sck 4 first_read.1

  -- Where neither read fails, the code is what the first one left in the variable.
  on_server_error_lem :
      ltb_ℤ first_read.0.0 (pos 0) ≡ false
      → ltb_ℤ second_read.0.0 (pos 0) ≡ false
      → (state_of (on_server_error calls err t)).i_errno ≡ of_be32 (overwrite err first_read.0.1)
  unfolding on_server_error state_of
  on_server_error_lem h h' = rw (h, h') refl

  -- If the four bytes of the code that the server sent arrive, and the second read does not fail, the
  -- client ends with the server's code, which fits 32 bits.
  pub on_server_error-be32 :
      (code : ℕ)
      → code < 2 ^ 32
      → first_read.0 ≡ (pos 4, be32 code)
      → ltb_ℤ second_read.0.0 (pos 0) ≡ false
      → (state_of (on_server_error calls err t)).i_errno ≡ code
  on_server_error-be32 code small came h' =
      on_server_error_lem (ap (λ x. ltb_ℤ x.0 (pos 0)) came) h'
      ∙ ap (λ x. of_be32 (overwrite err x.1)) came
      ∙ of_be32-be32 code (drop 4 err) small

  -- If the connection closes before a byte of the code, and the second read does not fail, the client
  -- ends with the code that happened to be in the memory of the variable.
  pub on_server_error_unset :
      first_read.0 ≡ (pos 0, [])
      → ltb_ℤ second_read.0.0 (pos 0) ≡ false
      → (state_of (on_server_error calls err t)).i_errno ≡ of_be32 err
  on_server_error_unset closed h' =
      on_server_error_lem (ap (λ x. ltb_ℤ x.0 (pos 0)) closed) h'
      ∙ ap (λ x. of_be32 (overwrite err x.1)) closed
