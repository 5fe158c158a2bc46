-- ===== src/Json/Frame.antt =====
-- src/iperf_api.c: a JSON text on the control connection, after its length in network byte order.
use iperf3_windows_msvc.Prelude.{
  ℕ, ◌+◌, ◌%◌, ◌^◌, ◌&&◌, ◌||◌, Option, none, some, ltb, leb, ◌==◌, length, if◌then◌else◌,
}
use iperf3_windows_msvc.Prelude.Int.{ℤ, pos, negsuc, ltb_ℤ, ◌==ℤ◌}
use iperf3_windows_msvc.Net.{Sys, nread, nwrite}
use iperf3_windows_msvc.Udp.Packet.{be32, of_be32}
use iperf3_windows_msvc.Json.{Bytes, Json}

-- An outer `none` is a lack of fuel, which the theorems exclude.
module _ {W : Type 0} (lib : Json) (sys : Sys W) (fd : ℕ) where
  -- What follows the first `Nwrite`.
  unfoldable pub write_text : Bytes → ℤ × W → Option (ℤ × W)
  write_text str (r, w) =
      if ltb_ℤ r (pos 0) then some (negsuc 0, w) else elim (nwrite sys fd str (length str) w) [
        | none ↦ none
        | some (r', w') ↦ some (if ltb_ℤ r' (pos 0) then negsuc 0 else pos 0, w')
      ]

  -- `hsize` is a uint32_t; no text that this program prints is longer.
  unfoldable pub json_write : lib.Obj → W → Option (ℤ × W)
  unfolding write_text
  json_write json w = elim (lib.print json) [
    | none ↦ some (negsuc 0, w)
    | some str ↦ elim (nwrite sys fd (be32 (length str)) 4 w) [
      | none ↦ none
      | some a ↦ write_text str a
    ]
  ]

  -- The text is parsed only if all of it came.
  unfoldable pub parse_text : ℕ → ℤ × Bytes × W → Option lib.Obj × W
  parse_text hsize (rc, str, w) =
      if ltb_ℤ rc (pos 0) then (none, w) else (if rc ==ℤ pos hsize then lib.parse str else none, w)

  -- `hsize` and `strsize` are of type uint32_t and size_t; the sum is made in 32 bits.
  unfoldable pub read_text : ℕ → ℕ → W → Option (Option lib.Obj × W)
  unfolding parse_text
  read_text max_size hsize w =
      let strsize = (hsize + 1) % 2 ^ 32 in
      let body : Option (Option lib.Obj × W) = elim (nread sys fd hsize w) [
        | none ↦ none
        | some a ↦ some (parse_text hsize a)
      ] in
      if ltb 0 hsize && ((max_size == 0) || leb hsize max_size)
      then (if ltb 0 strsize && lib.alloc strsize then body else some (none, w))
      else some (none, w)

  unfoldable pub json_read : ℕ → W → Option (Option lib.Obj × W)
  unfolding read_text
  json_read max_size w = elim (nread sys fd 4 w) [
    | none ↦ none
    | some (rc, nsize, w') ↦
        if rc ==ℤ pos 4 then read_text max_size (of_be32 nsize) w' else some (none, w')
  ]
