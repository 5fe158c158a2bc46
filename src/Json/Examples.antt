-- ===== src/Json/Examples.antt =====
-- src/iperf_api.c: a message over a connection.
use iperf3_windows_msvc.Prelude.{Option, ◌≡◌, refl, some, none, [], ◌∷◌, ◌++◌, arith}
use iperf3_windows_msvc.Prelude.Int.{pos}
use iperf3_windows_msvc.Net.{Bytes, nread}
use iperf3_windows_msvc.Json.Frame.{json_write, json_read}
use iperf3_windows_msvc.Json.Channel.{frame, Outcome, json_read_lem}
use iperf3_windows_msvc.Json.Library.{plain_json, plain_json-IsLibrary}
use iperf3_windows_msvc.Json.Local.{Wire, wire, wire-IsStream, wire-IsLocal, wire-Takes, wire-Quiet}
use iperf3_windows_msvc.Json.Trip.{json_read-json_write}
use iperf3_windows_msvc.Json.{Key, number}

-- "time" is 10, as the library prints it.
abbrev ten_text : Bytes
ten_text = 5 ∷ 1 ∷ 10 ∷ []

abbrev ten : plain_json.Obj
ten = plain_json.add [] Key.time (number (pos 10))

abbrev ten_sent : Wire
ten_sent = record { incoming = frame ten_text ++ (7 ∷ []); sent = [] }

abbrev empty_wire : Wire
empty_wire = record { incoming = []; sent = [] }

-- A length above the limit is refused, and the text stays in the stream.
too_long_text :
    json_read plain_json wire 4 2 ten_sent
    ≡ some (none, record ten_sent { incoming = ten_text ++ (7 ∷ []) })
unfolding json_read nread
too_long_text = refl

json_read_lem_example :
    (a : Option plain_json.Obj × Wire) × (json_read plain_json wire 4 8192 ten_sent ≡ some a)
    × Outcome plain_json wire 4 (λ w. w.incoming) 8192 ten_sent a
json_read_lem_example =
    json_read_lem plain_json wire 4 (λ w. w.incoming) wire-IsStream 8192 (omega arith) ten_sent
      (omega arith)

json_read-json_write_example :
    ((v : Wire) × (json_write plain_json wire 4 ten empty_wire ≡ some (pos 0, v))
      × (v.sent ≡ frame ten_text))
    × ((p : plain_json.Obj) × (x : Wire) × (json_read plain_json wire 4 8192 ten_sent
          ≡ some (some p, x))
        × (x.incoming ≡ 7 ∷ [])
        × ((k : Key) → plain_json.get p k ≡ plain_json.get ten k))
json_read-json_write_example =
    json_read-json_write plain_json wire 4 plain_json-IsLibrary (λ w. w.sent) (λ w. w.incoming)
      wire-Takes wire-Quiet wire-IsLocal ten ten_text refl 8192
      (record { not_empty = omega arith; small = omega arith; within = refl; space = refl })
      empty_wire ten_sent (7 ∷ []) refl
