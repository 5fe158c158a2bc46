-- ===== src/Results/Send.antt =====
-- src/iperf_api.c: `send_results`.
use iperf3_windows_msvc.Prelude.{
  ℕ, ◌+◌, ◌-◌, ◌%◌, ◌^◌, Bool, true, false, Option, none, some, List, [], ◌∷◌, ◌++◌, ◌&&◌, not,
  if◌then◌else◌,
}
use iperf3_windows_msvc.Prelude.Int.{ℤ, pos, negsuc, ltb_ℤ, ◌==ℤ◌}
use iperf3_windows_msvc.Time.{time_diff}
use iperf3_windows_msvc.Net.{Sys}
use iperf3_windows_msvc.Json.{Bytes, Key, number, text, Json}
use iperf3_windows_msvc.Json.Members.{Entries, add_all}
use iperf3_windows_msvc.Json.Frame.{json_write}
use iperf3_windows_msvc.Params.{client, server, is_receiver}
use iperf3_windows_msvc.Params.Entries.{int_item, text_item}
use iperf3_windows_msvc.Results.{iepackageresults, iesendresults, Stream, ResultsTest, Seconds}

-- What one side has moved, by its part in the stream.
unfoldable pub bytes_transferred : {F : Type 0} → Stream F → ℕ
bytes_transferred sp =
    if sp.is_sender
    then (sp.bytes_sent + 2 ^ 64 - sp.bytes_sent_omit) % 2 ^ 64
    else sp.bytes_received

-- The lines of the output, one after the other.
abbrev pub concat : List Bytes → Bytes
concat [] = []
concat (line ∷ lines) = line ++ concat lines

module _ (lib : Json) (secs : Seconds lib.F) where
  unfoldable pub stream_entries : ResultsTest lib → Stream lib.F → Entries lib.F
  unfolding bytes_transferred
  stream_entries test sp =
      let retransmits =
        if sp.is_sender && not (test.sender_has_retransmits ==ℤ pos 0)
        then sp.stream_retrans
        else negsuc 0 in
      (Key.id, some (int_item lib sp.id))
      ∷ (Key.bytes, some (int_item lib (pos (bytes_transferred sp))))
      ∷ (Key.retransmits, some (int_item lib retransmits))
      ∷ (Key.jitter, some (number sp.jitter))
      ∷ (Key.errors, some (int_item lib sp.cnt_error))
      ∷ (Key.omitted_errors, some (int_item lib sp.omitted_cnt_error))
      ∷ (Key.packets, some (int_item lib sp.packet_count))
      ∷ (Key.omitted_packets, some (int_item lib sp.omitted_packet_count))
      ∷ (Key.start_time, some (number (secs.in_secs (time_diff sp.start_time sp.start_time).1)))
      ∷ (Key.end_time, some (number (secs.in_secs (time_diff sp.start_time sp.end_time).1)))
      ∷ []

  unfoldable pub result_entries : ResultsTest lib → Entries lib.F
  result_entries test =
      let retransmits = if is_receiver test.mode then negsuc 0 else test.sender_has_retransmits in
      (Key.cpu_util_total, some (number test.cpu_util.0))
      ∷ (Key.cpu_util_user, some (number test.cpu_util.1))
      ∷ (Key.cpu_util_system, some (number test.cpu_util.2))
      ∷ (Key.sender_has_retransmits, some (int_item lib retransmits))
      ∷ (Key.congestion_used, text_item test.congestion_used)
      ∷ []

  -- The output of a server that the client wants.
  unfoldable pub add_output : ResultsTest lib → lib.Obj → lib.Obj
  add_output test j = elim test.role [
    | server ↦
        if test.get_server_output
        then (if test.json_output
            then lib.add_object j Key.server_output_json test.json_top
            else lib.add j Key.server_output_text (text (concat test.server_output_list)))
        else j
    | client ↦ j
  ]

  -- One object for each stream; without memory for one, the others are still made.
  unfoldable pub stream_objects : ResultsTest lib → List (Stream lib.F) → Bool × List lib.Obj
  unfolding add_all
  stream_objects test [] = (true, [])
  stream_objects test (sp ∷ rest) =
      let (r, objects) = stream_objects test rest in
      elim lib.create [
        | none ↦ (false, objects)
        | some j ↦ (r, add_all lib j (stream_entries test sp) ∷ objects)
      ]

  module _ {W : Type 0} (sys : Sys W) (fd : ℕ) where
    -- The int that is returned, the test with `i_errno`, and the world; `none` is a lack of fuel.
    unfoldable pub send_results : ResultsTest lib → W → Option (ℤ × ResultsTest lib × W)
    unfolding add_all
    send_results test w =
        let unpacked = record test { i_errno = iepackageresults } in
        let (made, objects) = stream_objects test test.streams in
        elim lib.create [
          | none ↦ some (negsuc 0, unpacked, w)
          | some j ↦
              if not made
              then some (negsuc 0, unpacked, w)
              else elim (json_write lib sys fd
                  (lib.add_array (add_output test (add_all lib j (result_entries test))) Key.streams
                    objects)
                  w) [
                    | none ↦ none
                    | some (r, w') ↦
                        if ltb_ℤ r (pos 0)
                        then some (negsuc 0, record test { i_errno = iesendresults }, w')
                        else some (pos 0, test, w')
                  ]
        ]
