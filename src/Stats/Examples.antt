-- ===== src/Stats/Examples.antt =====
-- src/iperf_api.c: a UDP receiver over two intervals.
use iperf3_windows_msvc.Prelude.{List, ℕ, refl, true, false, [], ◌∷◌}
use iperf3_windows_msvc.Prelude.Int.{pos}
use iperf3_windows_msvc.Time.{IperfTime}
use iperf3_windows_msvc.Params.{pudp, server}
use iperf3_windows_msvc.Stats.Account.{
  Event, moved, counted, ended, run_events, IsAccounted, run_events-IsAccounted,
}
use iperf3_windows_msvc.Stats.{Interval, StatStream, StatTest, no_info}

abbrev at : ℕ → IperfTime
at n = record { secs = n; usecs = 0 }

abbrev seconds_of : IperfTime → ℕ
seconds_of t = t.secs

abbrev receiving : StatTest
receiving = record {
  role = server;
  protocol = pudp;
  omitting = false;
  sender_has_retransmits = false;
  has_tcpinfo = true;
}

abbrev blank : Interval ℕ
blank = record {
  bytes_transferred = 0;
  interval_start_time = at 0;
  interval_end_time = at 0;
  interval_duration = 0;
  interval_packet_count = pos 0;
  interval_outoforder_packets = pos 0;
  interval_cnt_error = pos 0;
  packet_count = pos 0;
  jitter = 0;
  outoforder_packets = pos 0;
  cnt_error = pos 0;
  omitted = false;
  interval_retrans = pos 0;
  snd_cwnd = pos 0;
  snd_wnd = pos 0;
  rtt = pos 0;
  rttvar = pos 0;
  pmtu = pos 0;
  reorder = pos 0;
}

abbrev fresh : StatStream ℕ
fresh = record {
  is_sender = false;
  packet_count = pos 0;
  omitted_packet_count = pos 0;
  jitter = 0;
  outoforder_packets = pos 0;
  omitted_outoforder_packets = pos 0;
  cnt_error = pos 0;
  omitted_cnt_error = pos 0;
  bytes_received = 0;
  bytes_sent = 0;
  bytes_received_this_interval = 0;
  bytes_sent_this_interval = 0;
  bytes_sent_omit = 0;
  stream_prev_total_retrans = pos 0;
  stream_retrans = pos 0;
  stream_reorder = pos 0;
  stream_max_rtt = pos 0;
  stream_min_rtt = pos 0;
  stream_sum_rtt = pos 0;
  stream_count_rtt = pos 0;
  stream_max_snd_cwnd = pos 0;
  stream_max_snd_wnd = pos 0;
  start_time = at 100;
  end_time = at 0;
  interval_results = [];
}

-- Latest first: 300 bytes until 101, 500 until 102, then 7.
abbrev events : List (Event ℕ)
events =
    moved 7
    ∷ ended (at 102) no_info blank
    ∷ counted (pos 8) (pos 1) (pos 2)
    ∷ moved 500
    ∷ ended (at 101) no_info blank
    ∷ counted (pos 3) (pos 0) (pos 0)
    ∷ moved 200
    ∷ moved 100
    ∷ []

run_events-IsAccounted_example :
    IsAccounted seconds_of receiving fresh 807
      (run_events seconds_of receiving events fresh).0
      (run_events seconds_of receiving events fresh).1
run_events-IsAccounted_example = run_events-IsAccounted seconds_of receiving events fresh refl refl
