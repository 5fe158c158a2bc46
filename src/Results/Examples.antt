-- ===== src/Results/Examples.antt =====
-- src/iperf_api.c: two streams, of which the peer reports in the other order.
use iperf3_windows_msvc.Prelude.{List, ◌≡◌, refl, true, false, none, [], ◌∷◌, arith, map}
use iperf3_windows_msvc.Prelude.Int.{ℤ, pos, ◌-ℤ◌}
use iperf3_windows_msvc.Control.{receiver}
use iperf3_windows_msvc.Json.Library.{plain_json, plain_json-IsLibrary}
use iperf3_windows_msvc.Params.Words.{IsInt}
use iperf3_windows_msvc.Json.{IsExact}
use iperf3_windows_msvc.Params.{server}
use iperf3_windows_msvc.Results.Merge.{IsReported}
use iperf3_windows_msvc.Results.Pairing.{exchanged_all}
use iperf3_windows_msvc.Results.Send.{bytes_transferred, stream_objects}
use iperf3_windows_msvc.Results.Take.{take_streams}
use iperf3_windows_msvc.Results.Exchange.{take_streams-stream_objects}
use iperf3_windows_msvc.Results.{Stream, ResultsTest, Seconds}

abbrev whole_seconds : Seconds ℤ
whole_seconds = record { minus = λ a b. a -ℤ b; in_secs = λ t. pos t.secs; zero = pos 0 }

abbrev stream_of : ℤ → Stream ℤ
stream_of i = record {
  id = i;
  is_sender = true;
  jitter = pos 0;
  cnt_error = pos 0;
  omitted_cnt_error = pos 0;
  packet_count = pos 100;
  omitted_packet_count = pos 10;
  peer_packet_count = pos 0;
  peer_omitted_packet_count = pos 0;
  bytes_sent = 5000;
  bytes_sent_omit = 500;
  bytes_received = 0;
  stream_retrans = pos 0;
  start_time = record { secs = 5; usecs = 0 };
  end_time = record { secs = 15; usecs = 0 };
  sender_time = pos 0;
  receiver_time = pos 0;
}

abbrev received : ℤ → ℤ → Stream ℤ
received i lost = record (stream_of i) {
  is_sender = false;
  cnt_error = lost;
  packet_count = pos 98;
  bytes_received = 4400;
}

abbrev ours : List (Stream ℤ)
ours = stream_of (pos 1) ∷ stream_of (pos 3) ∷ []

abbrev theirs : List (Stream ℤ)
theirs = received (pos 3) (pos 2) ∷ received (pos 1) (pos 0) ∷ []

abbrev their_test : ResultsTest plain_json
their_test = record {
  role = server;
  mode = receiver;
  cpu_util = (pos 1, pos 1, pos 0);
  remote_cpu_util = (pos 0, pos 0, pos 0);
  sender_has_retransmits = pos 0;
  other_side_has_retransmits = pos 0;
  congestion_used = none;
  remote_congestion_used = none;
  get_server_output = false;
  json_output = false;
  json_top = [];
  server_output_list = [];
  json_server_output = none;
  server_output_text = none;
  streams = theirs;
  i_errno = 0;
}

received-IsReported :
    (i lost : ℤ) → IsInt i → IsExact lost → IsReported their_test (received i lost)
unfolding bytes_transferred
received-IsReported i lost small exact = record {
  id = small;
  bytes = omega arith;
  retransmits = (omega arith, omega arith);
  cnt_error = exact;
  omitted_cnt_error = omega arith;
  packet_count = omega arith;
  omitted_packet_count = omega arith;
}

take_streams-stream_objects_example :
    take_streams plain_json whole_seconds
      (stream_objects plain_json whole_seconds their_test theirs).1
      (pos 0, 0, ours)
    ≡ (pos 0, 0, map (exchanged_all plain_json whole_seconds their_test theirs) ours)
take_streams-stream_objects_example =
    take_streams-stream_objects plain_json plain_json-IsLibrary whole_seconds their_test [] refl
      theirs (pos 0) 0 ours
      (
        received-IsReported (pos 3) (pos 2) (omega arith, omega arith) (omega arith),
        (received-IsReported (pos 1) (pos 0) (omega arith, omega arith) (omega arith), tt),
      )
      (refl, (refl, tt)) (refl, (refl, tt)) (refl, (refl, tt))
