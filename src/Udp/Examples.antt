-- ===== src/Udp/Examples.antt =====
-- src/iperf_udp.c: the theorems at concrete streams and buffers.
use iperf3_windows_msvc.Prelude.{
  ℕ, ◌+◌, ◌≡◌, refl, true, false, none, some, List, [], ◌∷◌, ◌++◌, arith, length, replicate,
  if◌then◌else◌,
}
use iperf3_windows_msvc.Net.{Bytes, failed, eagain, enobufs, ready, Sys, loop}
use iperf3_windows_msvc.Udp.{Double, UdpStream, UdpSettings}
use iperf3_windows_msvc.Udp.Packet.{header, read_header, read_header-header}
use iperf3_windows_msvc.Udp.Count.{count_packets}
use iperf3_windows_msvc.Udp.Count.Loss.{Distinct, highest, late, count_packets_exact}
use iperf3_windows_msvc.Udp.Recv.{parse_body, parse_datagrams}
use iperf3_windows_msvc.Udp.Recv.Datagrams.{
  SameCounters, counters_at, parse_datagrams_in_order, parse_body_stuck,
}
use iperf3_windows_msvc.Udp.Send.{Filling, Sent, fill_headers, udp_send}
use iperf3_windows_msvc.Udp.Send.Fill.{numbers, Clock}
use iperf3_windows_msvc.Udp.Send.Result.{is_positive, parse-fill, udp_send_segmented}

-- Numbers in place of doubles.
abbrev whole_numbers : Double
whole_numbers = record {
  F = ℕ;
  of_nat = λ n. n;
  add = λ a b. a;
  sub = λ a b. a;
  mul = λ a b. a;
  to_uint64 = λ a. a;
  neg = λ a. a;
  div = λ a b. a;
  lt = λ a b. false;
}

-- The clock stands still, and no datagram leaves the host.
abbrev idle : Sys (Unit {0})
idle = record {
  msg_trunc = 0x20;
  select = λ fd t w. (ready, w);
  read = λ fd n w. (failed eagain, w);
  recv = λ fd n opt w. (failed eagain, w);
  write = λ fd xs w. (failed enobufs, w);
  now = λ w. (record { secs = 5; usecs = 17 }, w);
  recvmsg = λ fd n w. ((failed eagain, none), w);
  sendmsg = λ fd xs gso w. (failed enobufs, w);
}

idle-Clock : Clock idle
idle-Clock w = (omega arith, omega arith)

abbrev fresh : UdpStream ℕ
fresh = record {
  packet_count = 0;
  cnt_error = 0;
  outoforder_packets = 0;
  jitter = 0;
  prev_transit = 0;
  bytes_received = 0;
  bytes_received_this_interval = 0;
  bytes_sent = 0;
  bytes_sent_this_interval = 0;
}

abbrev settings : UdpSettings
settings = record {
  blksize = 16;
  gro = false;
  gro_bf_size = 65507;
  gso = true;
  gso_dg_size = 20;
  gso_bf_size = 60;
  skip_rx_copy = false;
  udp_counters_64bit = false;
  test_running = true;
}

read_header-header_example :
    read_header false (header false (record { secs = 70000; usecs = 3 }) 258 ++ 9 ∷ [])
    ≡ (record { secs = 70000; usecs = 3 }, 258)
read_header-header_example =
    read_header-header false (record { secs = 70000; usecs = 3 }) 258 (9 ∷ []) (omega arith)
      (omega arith) (omega arith)

-- 2 and 4 are overtaken, 6 is lost.
abbrev arrivals : List ℕ
arrivals = 1 ∷ 3 ∷ 2 ∷ 5 ∷ 4 ∷ 7 ∷ []

arrivals-Distinct : Distinct arrivals
arrivals-Distinct x = ground arith

count_packets_exact_example :
    let after = count_packets fresh arrivals in
    (after.packet_count ≡ highest 0 arrivals)
    × (after.cnt_error + length arrivals ≡ highest 0 arrivals)
    × (after.outoforder_packets ≡ late 0 arrivals)
count_packets_exact_example =
    count_packets_exact arrivals fresh refl refl refl (omega arith) arrivals-Distinct

counted : (count_packets fresh arrivals).cnt_error ≡ 1
unfolding count_packets iperf3_windows_msvc.Udp.Count.count_packet
counted = refl

abbrev blank : Bytes
blank = replicate 60 0

parse_datagrams_in_order_example :
    (out : UdpStream ℕ × Unit {0}) × (parse_datagrams whole_numbers idle false 20 60 blank true
        fresh tt
      ≡ some out)
    × SameCounters out.0 (count_packets fresh (counters_at false 20 blank 0 3))
parse_datagrams_in_order_example =
    parse_datagrams_in_order whole_numbers idle false 20 60 blank 3 true fresh tt (omega arith)
      (omega arith) (omega arith)

parse_body_stuck_example :
    loop
      (parse_body whole_numbers idle true 0 60 blank)
      1000
      (record { offset = 0; buf_sz = 60; first_packet = true; sp = fresh; world = tt })
    ≡ none
parse_body_stuck_example =
    parse_body_stuck whole_numbers idle true 60 blank true fresh tt 1000 (omega arith)

parse-fill_example :
    (filled : Filling (Unit {0})) × (got : UdpStream ℕ × Unit {0}) × (fill_headers idle false 20 60
        blank 0 tt
      ≡ some filled)
    × (parse_datagrams whole_numbers idle false 20 60 filled.buffer true fresh tt ≡ some got)
    × (got.0.packet_count ≡ filled.packet_count)
    × (filled.packet_count ≡ 0 + 3)
    × (got.0.cnt_error ≡ fresh.cnt_error)
    × (got.0.outoforder_packets ≡ fresh.outoforder_packets)
parse-fill_example =
    parse-fill whole_numbers idle idle idle-Clock false 20 60 3 blank 0 tt true fresh tt
      (omega arith) (omega arith) (omega arith) (omega arith) (omega arith) (omega arith) refl

-- The kernel refuses the three datagrams; two of their numbers are gone.
udp_send_segmented_example :
    (out : Sent ℕ (Unit {0})) × (udp_send idle settings 4 fresh blank tt ≡ some out)
    × (counters_at false 20 out.buffer 0 3 ≡ numbers 0 3)
    × (out.sp.packet_count ≡ (if is_positive out.result then 0 + 2 + 1 else 0 + 2))
udp_send_segmented_example =
    udp_send_segmented idle idle-Clock settings 2 4 fresh blank tt refl (omega arith) (omega arith)
      (omega arith) (omega arith) (omega arith) (omega arith) (omega arith)
