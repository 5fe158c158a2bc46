-- ===== src/Params/Exchange.antt =====
-- src/iperf_api.c: `send_parameters`, `get_parameters` and `iperf_exchange_parameters`.
use iperf3_windows_msvc.Prelude.{
  ℕ, ◌*◌, ◌≡◌, refl, ap, ◌∙◌, Bool, true, false, Option, none, some, ◌∷◌, ◌++◌, ◌&&◌, if◌then◌else◌,
}
use iperf3_windows_msvc.Prelude.Int.{ℤ, pos, negsuc, pos_part, ltb_ℤ}
use iperf3_windows_msvc.Control.{
  Test, Status, ok, failed, Calls, set_send_state, create_streams_state,
}
use iperf3_windows_msvc.Net.{Bytes, Sys}
use iperf3_windows_msvc.Net.Whole.{IsLocal}
use iperf3_windows_msvc.Json.{Key, Json, IsLibrary}
use iperf3_windows_msvc.Json.Members.{find, add_all, get-add_all}
use iperf3_windows_msvc.Json.Frame.{json_write, json_read}
use iperf3_windows_msvc.Json.Channel.{frame}
use iperf3_windows_msvc.Json.Trip.{IsSendable, Takes, Quiet, json_read-json_write}
use iperf3_windows_msvc.Params.Entries.{param_entries}
use iperf3_windows_msvc.Params.Get.{take_parameters}
use iperf3_windows_msvc.Params.Agreed.{IsSent, IsAgreed}
use iperf3_windows_msvc.Params.Agree.{take_parameters-IsAgreed}
use iperf3_windows_msvc.Params.{
  iesendparams, ierecvparams, client, server, pudp, same_protocol, Params, direction, known,
}

-- MAX_PARAMS_JSON_STRING
abbrev pub max_params_json_string : ℕ
max_params_json_string = 8 * 1024

module _ {W : Type 0} (lib : Json) (sys : Sys W) (fd : ℕ) (has_tcpinfo : Bool) where
  -- The int that is returned, the parameters with `i_errno`, and the world; `none` is a lack of fuel.
  unfoldable pub send_parameters : Params → W → Option (ℤ × Params × W)
  send_parameters p w =
      let broken = record p { i_errno = iesendparams } in
      elim lib.create [
        | none ↦ some (negsuc 0, broken, w)
        | some j ↦ elim (json_write lib sys fd (add_all lib j (param_entries lib p)) w) [
          | none ↦ none
          | some (r, w') ↦
              if ltb_ℤ r (pos 0) then some (negsuc 0, broken, w') else some (pos 0, p, w')
        ]
      ]

  unfoldable pub get_parameters : Params → W → Option (ℤ × Params × W)
  get_parameters p w = elim (json_read lib sys fd max_params_json_string w) [
    | none ↦ none
    | some (none, w') ↦ some (negsuc 0, record p { i_errno = ierecvparams }, w')
    | some (some j, w') ↦ let a = take_parameters lib j has_tcpinfo p in some (a.0, a.1, w')
  ]

-- The rest of the program is the parameters and a world. `listen` is the protocol's, with the
-- `i_errno` that it leaves.
module _ {V : Type 0} (lib : Json) (sys : Sys V) (has_tcpinfo : Bool) (calls : Calls (Params × V))
    (listen : Params × V → ℤ × ℕ × Params × V) where
  -- After the parameters have been taken over.
  unfoldable pub await_streams : Test (Params × V) → Status (Params × V)
  await_streams test =
      let (s, e, p, w) = listen test.world in
      let heard = record test { i_errno = e; world = (p, w) } in
      if ltb_ℤ s (pos 0)
      then failed heard
      else set_send_state calls create_streams_state
          (record heard { read_set = s ∷ heard.read_set })

  -- An int below 0 ends the function.
  unfoldable pub with_result :
      Test (Params × V)
      → ℤ × Params × V
      → (Test (Params × V) → Status (Params × V))
      → Status (Params × V)
  with_result test (r, p, w) next =
      let t = record test { i_errno = p.i_errno; world = (p, w) } in
      if ltb_ℤ r (pos 0) then failed t else next t

  unfoldable pub exchange_parameters : Test (Params × V) → Option (Status (Params × V))
  unfolding send_parameters get_parameters with_result await_streams
  exchange_parameters test =
      let (p, w) = test.world in
      let fd = pos_part test.ctrl_sck in
      elim p.role [
        | client ↦ elim (send_parameters lib sys fd has_tcpinfo p w) [
          | none ↦ none
          | some a ↦ some (with_result test a ok)
        ]
        | server ↦ elim (get_parameters lib sys fd has_tcpinfo p w) [
          | none ↦ none
          | some a ↦ some (with_result test a await_streams)
        ]
      ]

module _ {W : Type 0} (lib : Json) (law : IsLibrary lib) (sys : Sys W) (fd : ℕ) (has_tcpinfo : Bool)
    (sent incoming : W → Bytes) (takes : Takes sys fd sent) (quiet : Quiet sys fd incoming)
    (near : IsLocal sys fd incoming) where
  -- `send_parameters` of the client sends one frame and returns 0; `get_parameters` of the server, on a
  -- stream with this frame in front, takes just the frame, and leaves the server with the client's
  -- parameters. The kernel takes and has all bytes at once; the text is not empty and within the 8 KB of
  -- the server, and there is memory for it; the values are ints, or below
  -- 2 ^ 32 for the pacing timer, and bytes, blocks and rates are at most 2 ^ 53; the server knows the
  -- protocol, does not write a UDP test to a file, has the role of a server and is in its initial
  -- direction.
  pub get_parameters-send_parameters :
      (c s0 : Params) (j : lib.Obj) (str : Bytes)
      → lib.create ≡ some j
      → lib.print (add_all lib j (param_entries lib c)) ≡ some str
      → IsSendable lib max_params_json_string str
      → IsSent c
      → known c.protocol s0.protocols ≡ true
      → (same_protocol c.protocol pudp && s0.has_file) ≡ false
      → s0.role ≡ server
      → s0.mode ≡ direction server false
      → (w u : W) (rest : Bytes) → incoming u ≡ frame str ++ rest
      → ((v : W) × (send_parameters lib sys fd has_tcpinfo c w ≡ some (pos 0, c, v))
          × (sent v ≡ sent w ++ frame str))
        × ((r : ℤ) × (s : Params) × (x : W) × (get_parameters lib sys fd has_tcpinfo s0 u
              ≡ some (r, s, x))
            × (incoming x ≡ rest)
            × IsAgreed c s0 s)
  unfolding send_parameters get_parameters
  get_parameters-send_parameters c s0 j str created printed small good is_known fits is_server fresh
        w u rest e =
      let o = add_all lib j (param_entries lib c) in
      let ((v, wrote, front), (p, x, read, left, members)) =
        json_read-json_write lib sys fd law sent incoming takes quiet near o str printed
          max_params_json_string small w u rest e in
      let same : (k : Key) → lib.get p k ≡ find k (param_entries lib c) = λ k.
        members k ∙ get-add_all lib law j (param_entries lib c) k (law.get_create j created k) in
      (
        (v, rw (created, wrote, send_parameters) refl, front),
        (
          _,
          _,
          x,
          ap (λ a. heard a) read,
          left,
          take_parameters-IsAgreed lib law has_tcpinfo c s0 p same good is_known fits is_server
              fresh,
        ),
      )
    where
      heard : Option (Option lib.Obj × W) → Option (ℤ × Params × W)
      heard a = elim a [
        | none ↦ none
        | some (none, w') ↦ some (negsuc 0, record s0 { i_errno = ierecvparams }, w')
        | some (some k, w') ↦ let b = take_parameters lib k has_tcpinfo s0 in some (b.0, b.1, w')
      ]
