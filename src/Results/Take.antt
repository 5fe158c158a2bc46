-- ===== src/Results/Take.antt =====
-- src/iperf_api.c: `get_results`.
use iperf3_windows_msvc.Prelude.{ℕ, Option, none, some, List, [], ◌∷◌, if◌then◌else◌}
use iperf3_windows_msvc.Prelude.Int.{ℤ, pos, negsuc, ltb_ℤ, ◌==ℤ◌}
use iperf3_windows_msvc.Control.{sender, receiver, bidirectional}
use iperf3_windows_msvc.Net.{Sys}
use iperf3_windows_msvc.Json.{Key, Json, get_number, get_text}
use iperf3_windows_msvc.Json.Frame.{json_read}
use iperf3_windows_msvc.Params.{client, server}
use iperf3_windows_msvc.Params.Words.{to_i32, to_u64}
use iperf3_windows_msvc.Results.{ierecvresults, iestreamid, Stream, ResultsTest, Seconds}

-- What the peer reports of one stream. The omitted errors and packets may be missing, and the times.
pub record Report (F : Type 0) : Type 0 where
  pub sid : ℤ
  pub bytes_transferred : ℕ
  pub retransmits : ℤ
  pub jitter : F
  pub cerror : ℤ
  pub pcount : ℤ
  pub omitted : Option (ℤ × ℤ)
  pub times : Option (F × F)

-- A member without which there are no results.
unfoldable pub need {ℓ κ} : {A : Type ℓ} {B : Type κ} → Option A → (A → Option B) → Option B
need none next = none
need (some a) next = next a

-- Both or neither.
unfoldable pub both {ℓ} : {A : Type ℓ} → Option A → Option A → Option (Option (A × A))
both none none = some none
both (some a) (some b) = some (some (a, b))
both a b = none

unfoldable pub if_both {ℓ} : {A : Type ℓ} → Option A → Option A → Option (A × A)
if_both (some a) (some b) = some (a, b)
if_both a b = none

module _ (lib : Json) where
  unfoldable pub valueint : lib.Obj → Key → Option ℤ
  unfolding get_number
  valueint j k = elim (get_number lib j k) [ none ↦ none | some x ↦ some (lib.to_int x) ]

  unfoldable pub read_report : lib.Obj → Option (Report lib.F)
  unfolding valueint get_number to_i32 to_u64 need both if_both
  read_report j = need (valueint j Key.id) λ id. need (valueint j Key.bytes) λ bytes.
      need (valueint j Key.retransmits) λ retransmits. need (get_number lib j Key.jitter) λ jitter.
        need (valueint j Key.errors) λ errors. need (valueint j Key.packets) λ packets.
          need (both (valueint j Key.omitted_errors) (valueint j Key.omitted_packets)) λ omitted.
            some (record {
              sid = to_i32 id;
              bytes_transferred = to_u64 bytes;
              retransmits = to_i32 retransmits;
              jitter = jitter;
              cerror = errors;
              pcount = packets;
              omitted = omitted;
              times = if_both (get_number lib j Key.start_time) (get_number lib j Key.end_time);
            })

  module _ (secs : Seconds lib.F) where
    unfoldable pub duration_of : Option (lib.F × lib.F) → lib.F
    duration_of none = secs.zero
    duration_of (some (start, end)) = secs.minus end start

    -- The errors and packets of the omitted time; -1 for an error count that is not known.
    unfoldable pub with_omitted : Option (ℤ × ℤ) → Stream lib.F → Stream lib.F
    with_omitted (some (errors, packets)) sp = record sp {
      omitted_cnt_error = errors;
      peer_omitted_packet_count = packets;
    }
    with_omitted none sp =
        let unknown = if ltb_ℤ (pos 0) sp.cnt_error then negsuc 0 else pos 0 in
        record sp {
          peer_omitted_packet_count = sp.omitted_packet_count;
          omitted_cnt_error =
              if ltb_ℤ (pos 0) sp.omitted_packet_count then unknown else sp.cnt_error;
        }

    -- A stream that this side sends, and one that it receives.
    unfoldable pub merge : Report lib.F → Stream lib.F → Stream lib.F
    unfolding with_omitted duration_of
    merge rep sp =
        if sp.is_sender
        then record (with_omitted rep.omitted (record sp {
          jitter = rep.jitter;
          cnt_error = rep.cerror;
          peer_packet_count = rep.pcount;
          bytes_received = rep.bytes_transferred;
        })) { receiver_time = duration_of rep.times }
        else record sp {
          peer_packet_count = rep.pcount;
          bytes_sent = rep.bytes_transferred;
          stream_retrans = rep.retransmits;
          peer_omitted_packet_count = elim rep.omitted [ none ↦ rep.pcount | some o ↦ o.1 ];
          sender_time = duration_of rep.times;
        }

    -- The first stream of that number; `none` if there is none.
    unfoldable pub merge_into : Report lib.F → List (Stream lib.F) → Option (List (Stream lib.F))
    unfolding merge
    merge_into rep [] = none
    merge_into rep (sp ∷ rest) =
        let later = merge_into rep rest in
        if sp.id ==ℤ rep.sid
        then some (merge rep sp ∷ rest)
        else elim later [ none ↦ none | some changed ↦ some (sp ∷ changed) ]

    -- The result, `i_errno` and the streams; a bad entry does not keep the others from being taken.
    unfoldable pub take_stream : lib.Obj → ℤ × ℕ × List (Stream lib.F) → ℤ × ℕ × List (Stream lib.F)
    unfolding read_report merge_into
    take_stream j (r, e, streams) = elim (read_report j) [
      | none ↦ (negsuc 0, ierecvresults, streams)
      | some rep ↦ elim (merge_into rep streams) [
        | none ↦ (negsuc 0, iestreamid, streams)
        | some changed ↦ (r, e, changed)
      ]
    ]

    unfoldable pub take_streams :
        List lib.Obj → ℤ × ℕ × List (Stream lib.F) → ℤ × ℕ × List (Stream lib.F)
    unfolding take_stream
    take_streams [] s = s
    take_streams (j ∷ rest) s = take_streams rest (take_stream j s)

    -- The retransmits of the other side.
    unfoldable pub note_retransmits : ℤ → ResultsTest lib → ResultsTest lib
    note_retransmits has test = elim test.mode [
      | receiver ↦ record test { sender_has_retransmits = has; other_side_has_retransmits = pos 0 }
      | bidirectional ↦ record test { other_side_has_retransmits = has }
      | sender ↦ test
    ]

    -- The output of the server, on a client that asked for it.
    unfoldable pub note_output : lib.Obj → ResultsTest lib → ResultsTest lib
    unfolding get_text
    note_output j test = elim test.role [
      | server ↦ test
      | client ↦
          if test.get_server_output
          then elim (lib.get_object j Key.server_output_json) [
            | some output ↦ record test { json_server_output = some output }
            | none ↦ elim (get_text lib j Key.server_output_text) [
              | some output ↦ record test { server_output_text = some output }
              | none ↦ test
            ]
          ]
          else test
    ]

    -- The body, with all four members there.
    unfoldable pub take_body : lib.Obj → ResultsTest lib → ℤ × ResultsTest lib
    unfolding take_streams note_output
    take_body j test = elim (lib.get_array j Key.streams) [
      | none ↦ (negsuc 0, record test { i_errno = ierecvresults })
      | some objects ↦
          let (r, e, streams) = take_streams objects (pos 0, test.i_errno, test.streams) in
          (r, note_output j (record test { i_errno = e; streams = streams }))
    ]

    unfoldable pub take_results : lib.Obj → ResultsTest lib → ℤ × ResultsTest lib
    unfolding need valueint get_number get_text note_retransmits take_body to_i32
    take_results j test =
        let members : Option ((lib.F × lib.F × lib.F) × ℤ) =
          need (get_number lib j Key.cpu_util_total) λ total.
            need (get_number lib j Key.cpu_util_user) λ user.
              need (get_number lib j Key.cpu_util_system) λ system.
                need (valueint j Key.sender_has_retransmits)
                  λ has. some ((total, user, system), to_i32 has) in
        let (r, taken) : ℤ × ResultsTest lib = elim members [
          | none ↦ (negsuc 0, record test { i_errno = ierecvresults })
          | some (cpu, has) ↦
              take_body j (note_retransmits has (record test { remote_cpu_util = cpu }))
        ] in
        elim (get_text lib j Key.congestion_used) [
          | none ↦ (r, taken)
          | some s ↦ (r, record taken { remote_congestion_used = some s })
        ]

    module _ {W : Type 0} (sys : Sys W) (fd : ℕ) where
      unfoldable pub get_results : ResultsTest lib → W → Option (ℤ × ResultsTest lib × W)
      unfolding take_results
      get_results test w = elim (json_read lib sys fd 0 w) [
        | none ↦ none
        | some (none, w') ↦ some (negsuc 0, record test { i_errno = ierecvresults }, w')
        | some (some j, w') ↦ let (r, t) = take_results j test in some (r, t, w')
      ]
