-- ===== src/Results/Merge.antt =====
-- src/iperf_api.c: one stream's entry, from `send_results` to `get_results`.
use iperf3_windows_msvc.Prelude.{◌≤◌, ◌^◌, ◌≡◌, refl, ap, arith, some, ◌&&◌, not, if◌then◌else◌}
use iperf3_windows_msvc.Prelude.Int.{ℤ, pos, negsuc, ◌==ℤ◌}
use iperf3_windows_msvc.Time.{time_diff}
use iperf3_windows_msvc.Json.{Key, number, Json, IsLibrary, IsExact, get_number}
use iperf3_windows_msvc.Json.Members.{find}
use iperf3_windows_msvc.Params.Words.{IsInt, to_i32_id, to_u64_id, int_IsExact}
use iperf3_windows_msvc.Params.Entries.{int_item}
use iperf3_windows_msvc.Results.Send.{bytes_transferred, stream_entries}
use iperf3_windows_msvc.Results.Take.{Report, need, both, if_both, valueint, read_report}
use iperf3_windows_msvc.Results.{Stream, ResultsTest, Seconds}

-- The retransmits of a stream, or -1.
abbrev pub retransmits_of : {lib : Json} → ResultsTest lib → Stream lib.F → ℤ
retransmits_of test sp =
    if sp.is_sender && not (test.sender_has_retransmits ==ℤ pos 0)
    then sp.stream_retrans
    else negsuc 0

-- The counts fit their types, and a double.
pub record IsReported {lib : Json} (test : ResultsTest lib) (sp : Stream lib.F) : Type 0 where
  pub id : IsInt sp.id
  pub bytes : bytes_transferred sp ≤ 2 ^ 53
  pub retransmits : IsInt (retransmits_of test sp)
  pub cnt_error : IsExact sp.cnt_error
  pub omitted_cnt_error : IsExact sp.omitted_cnt_error
  pub packet_count : IsExact sp.packet_count
  pub omitted_packet_count : IsExact sp.omitted_packet_count

module _ (lib : Json) (secs : Seconds lib.F) where
  -- What the peer learns of a stream.
  abbrev pub report_of : ResultsTest lib → Stream lib.F → Report lib.F
  report_of test sp = record {
    sid = sp.id;
    bytes_transferred = bytes_transferred sp;
    retransmits = retransmits_of test sp;
    jitter = sp.jitter;
    cerror = sp.cnt_error;
    pcount = sp.packet_count;
    omitted = some (sp.omitted_cnt_error, sp.omitted_packet_count);
    times = some (
      secs.in_secs (time_diff sp.start_time sp.start_time).1,
      secs.in_secs (time_diff sp.start_time sp.end_time).1,
    );
  }

  module _ (law : IsLibrary lib) (o : lib.Obj) where
    int_read :
        (k : Key) (n : ℤ)
        → IsExact n
        → lib.get o k ≡ some (int_item lib n)
        → valueint lib o k ≡ some n
    unfolding valueint get_number
    int_read k n small e = rw (e, valueint) (ap some (law.exact n small))

    number_read :
        (k : Key) (x : lib.F) → lib.get o k ≡ some (number x) → get_number lib o k ≡ some x
    unfolding get_number
    number_read k x e = rw (e, get_number) refl

    pub read_report-stream_entries :
        (test : ResultsTest lib) (sp : Stream lib.F)
        → ((k : Key) → lib.get o k ≡ find k (stream_entries lib secs test sp))
        → IsReported test sp
        → read_report lib o ≡ some (report_of test sp)
    unfolding read_report need both if_both stream_entries
    read_report-stream_entries test sp same good =
        let i1 = int_read Key.id sp.id (int_IsExact sp.id good.id) (same Key.id) in
        let i2 =
          int_read Key.bytes (pos (bytes_transferred sp)) (omega (arith, good.bytes))
            (same Key.bytes) in
        let i3 =
          int_read Key.retransmits (retransmits_of test sp)
            (int_IsExact (retransmits_of test sp) good.retransmits) (same Key.retransmits) in
        let x4 = number_read Key.jitter sp.jitter (same Key.jitter) in
        let i5 = int_read Key.errors sp.cnt_error good.cnt_error (same Key.errors) in
        let i6 = int_read Key.packets sp.packet_count good.packet_count (same Key.packets) in
        let i7 =
          int_read Key.omitted_errors sp.omitted_cnt_error good.omitted_cnt_error
            (same Key.omitted_errors) in
        let i8 =
          int_read Key.omitted_packets sp.omitted_packet_count good.omitted_packet_count
            (same Key.omitted_packets) in
        let x9 = number_read Key.start_time _ (same Key.start_time) in
        let x10 = number_read Key.end_time _ (same Key.end_time) in
        rw
          (
            i1,
            i2,
            i3,
            x4,
            i5,
            i6,
            i7,
            i8,
            x9,
            x10,
            to_i32_id sp.id good.id,
            to_i32_id (retransmits_of test sp) good.retransmits,
            to_u64_id (bytes_transferred sp) (omega (arith, good.bytes)),
            read_report,
          )
          refl
