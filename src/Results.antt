-- ===== src/Results.antt =====
-- src/iperf_api.c: the results that the two sides exchange after a test.
pub mod Send
pub mod Take
pub mod Merge
pub mod Pairing
pub mod Exchange
mod Examples
use iperf3_windows_msvc.Prelude.{ℕ, Bool, List, Option}
use iperf3_windows_msvc.Prelude.Int.{ℤ}
use iperf3_windows_msvc.Time.{IperfTime}
use iperf3_windows_msvc.Control.{Mode}
use iperf3_windows_msvc.Params.{Role}
use iperf3_windows_msvc.Json.{Bytes, Json}

-- The error codes that this part of the code sets.
abbrev pub iepackageresults : ℕ
iepackageresults = 115

abbrev pub iesendresults : ℕ
iesendresults = 116

abbrev pub ierecvresults : ℕ
ierecvresults = 117

abbrev pub iestreamid : ℕ
iestreamid = 208

-- The fields of `struct iperf_stream` and `struct iperf_stream_result` that the exchange reads or sets.
-- An int64_t and an int are integers, an iperf_size_t is a number.
pub record Stream (F : Type 0) : Type 0 where
  pub id : ℤ
  pub is_sender : Bool
  pub jitter : F
  pub cnt_error : ℤ
  pub omitted_cnt_error : ℤ
  pub packet_count : ℤ
  pub omitted_packet_count : ℤ
  pub peer_packet_count : ℤ
  pub peer_omitted_packet_count : ℤ
  pub bytes_sent : ℕ
  pub bytes_sent_omit : ℕ
  pub bytes_received : ℕ
  pub stream_retrans : ℤ
  pub start_time : IperfTime
  pub end_time : IperfTime
  pub sender_time : F
  pub receiver_time : F

-- The fields of `struct iperf_test`. `json_top` and the lines of `server_output_list` are the output
-- of a server, that it may send as well; a string or an object that may be NULL is an option.
pub record ResultsTest (lib : Json) : Type 0 where
  pub role : Role
  pub mode : Mode
  pub cpu_util : lib.F × lib.F × lib.F
  pub remote_cpu_util : lib.F × lib.F × lib.F
  pub sender_has_retransmits : ℤ
  pub other_side_has_retransmits : ℤ
  pub congestion_used : Option Bytes
  pub remote_congestion_used : Option Bytes
  pub get_server_output : Bool
  pub json_output : Bool
  pub json_top : lib.Obj
  pub server_output_list : List Bytes
  pub json_server_output : Option lib.Obj
  pub server_output_text : Option Bytes
  pub streams : List (Stream lib.F)
  pub i_errno : ℕ

-- The arithmetic of doubles that the results need.
pub record Seconds (F : Type 0) : Type 0 where
  pub minus : F → F → F
  pub in_secs : IperfTime → F
  pub zero : F
