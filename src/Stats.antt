-- ===== src/Stats.antt =====
-- src/iperf_api.c, iperf.h: the statistics of the streams at the end of each interval.
pub mod Account
mod Examples
use iperf3_windows_msvc.Prelude.{
  ℕ, ◌+◌, ◌%◌, ◌^◌, Bool, true, false, Option, none, some, List, [], ◌∷◌, ◌++◌, ◌&&◌, ◌||◌,
  if◌then◌else◌,
}
use iperf3_windows_msvc.Prelude.Int.{ℤ, pos, ltb_ℤ, ◌==ℤ◌, ◌+ℤ◌, ◌-ℤ◌}
use iperf3_windows_msvc.Prelude.Double.{Double}
use iperf3_windows_msvc.Time.{IperfTime, time_diff}
use iperf3_windows_msvc.Params.{Protocol, ptcp, same_protocol, Role, client, server}
use iperf3_windows_msvc.Params.Words.{to_i32}
use iperf3_windows_msvc.Rate.Total.{LimitSettings, LimitState, check_total_rate}

-- `struct iperf_interval_results`; a long has 32 bits on Windows.
pub record Interval (F : Type 0) : Type 0 where
  pub bytes_transferred : ℕ
  pub interval_start_time : IperfTime
  pub interval_end_time : IperfTime
  pub interval_duration : F
  pub interval_packet_count : ℤ
  pub interval_outoforder_packets : ℤ
  pub interval_cnt_error : ℤ
  pub packet_count : ℤ
  pub jitter : F
  pub outoforder_packets : ℤ
  pub cnt_error : ℤ
  pub omitted : Bool
  pub interval_retrans : ℤ
  pub snd_cwnd : ℤ
  pub snd_wnd : ℤ
  pub rtt : ℤ
  pub rttvar : ℤ
  pub pmtu : ℤ
  pub reorder : ℤ

-- The fields of `struct iperf_stream` and `struct iperf_stream_result` that the statistics are about.
pub record StatStream (F : Type 0) : Type 0 where
  pub is_sender : Bool
  pub packet_count : ℤ
  pub omitted_packet_count : ℤ
  pub jitter : F
  pub outoforder_packets : ℤ
  pub omitted_outoforder_packets : ℤ
  pub cnt_error : ℤ
  pub omitted_cnt_error : ℤ
  pub bytes_received : ℕ
  pub bytes_sent : ℕ
  pub bytes_received_this_interval : ℕ
  pub bytes_sent_this_interval : ℕ
  pub bytes_sent_omit : ℕ
  pub stream_prev_total_retrans : ℤ
  pub stream_retrans : ℤ
  pub stream_reorder : ℤ
  pub stream_max_rtt : ℤ
  pub stream_min_rtt : ℤ
  pub stream_sum_rtt : ℤ
  pub stream_count_rtt : ℤ
  pub stream_max_snd_cwnd : ℤ
  pub stream_max_snd_wnd : ℤ
  pub start_time : IperfTime
  pub end_time : IperfTime
  pub interval_results : List (Interval F)

-- What the operating system tells of a connection, through the functions of tcp_info.c.
pub record TcpInfo : Type 0 where
  pub total_retransmits : ℤ
  pub snd_cwnd : ℤ
  pub snd_wnd : ℤ
  pub rtt : ℤ
  pub rttvar : ℤ
  pub pmtu : ℤ
  pub reorder : ℤ

abbrev pub no_info : TcpInfo
no_info = record {
  total_retransmits = pos 0;
  snd_cwnd = pos 0;
  snd_wnd = pos 0;
  rtt = pos 0;
  rttvar = pos 0;
  pmtu = pos 0;
  reorder = pos 0;
}

-- The settings of the test that the callback reads.
pub record StatTest : Type 0 where
  pub role : Role
  pub protocol : Protocol
  pub omitting : Bool
  pub sender_has_retransmits : Bool
  pub has_tcpinfo : Bool

abbrev pub last {ℓ} : {A : Type ℓ} → List A → Option A
last [] = none
last (x ∷ []) = some x
last (x ∷ (y ∷ ys)) = last (y ∷ ys)

abbrev pub drop_last {ℓ} : {A : Type ℓ} → List A → List A
drop_last [] = []
drop_last (x ∷ []) = []
drop_last (x ∷ (y ∷ ys)) = x ∷ drop_last (y ∷ ys)

-- The old last entry is freed.
unfoldable pub add_to_interval_list {ℓ} : {A : Type ℓ} → List A → A → List A
add_to_interval_list results new = drop_last results ++ (new ∷ [])

-- `if (a > b) b = a`
abbrev pub max_ℤ : ℤ → ℤ → ℤ
max_ℤ a b = if ltb_ℤ b a then a else b

abbrev pub min_rtt : ℤ → ℤ → ℤ
min_rtt rtt least = if (least ==ℤ pos 0) || ltb_ℤ rtt least then rtt else least

module _ {F : Type 0} where
  -- The figures of a TCP sender.
  unfoldable pub note_tcp_info : TcpInfo → Interval F × StatStream F → Interval F × StatStream F
  unfolding to_i32
  note_tcp_info info (temp, rp) =
      let retrans = to_i32 (info.total_retransmits -ℤ rp.stream_prev_total_retrans) in
      (
        record temp {
          interval_retrans = retrans;
          snd_cwnd = info.snd_cwnd;
          snd_wnd = info.snd_wnd;
          rtt = info.rtt;
          rttvar = info.rttvar;
          pmtu = info.pmtu;
          reorder = info.reorder;
        },
        record rp {
          stream_retrans = to_i32 (rp.stream_retrans +ℤ retrans);
          stream_prev_total_retrans = info.total_retransmits;
          stream_max_snd_cwnd = max_ℤ info.snd_cwnd rp.stream_max_snd_cwnd;
          stream_max_snd_wnd = max_ℤ info.snd_wnd rp.stream_max_snd_wnd;
          stream_max_rtt = max_ℤ info.rtt rp.stream_max_rtt;
          stream_min_rtt = min_rtt info.rtt rp.stream_min_rtt;
          stream_sum_rtt = to_i32 (rp.stream_sum_rtt +ℤ info.rtt);
          stream_count_rtt = to_i32 (rp.stream_count_rtt +ℤ pos 1);
          stream_reorder = info.reorder;
        },
      )

  -- The packets since the last interval.
  unfoldable pub note_packets : Option (Interval F) → StatStream F → Interval F → Interval F
  note_packets irp sp temp =
      let (packets, outoforder, errors) : ℤ × ℤ × ℤ = elim irp [
        | none ↦ (sp.packet_count, sp.outoforder_packets, sp.cnt_error)
        | some i ↦ (
          sp.packet_count -ℤ i.packet_count,
          sp.outoforder_packets -ℤ i.outoforder_packets,
          sp.cnt_error -ℤ i.cnt_error,
        )
      ] in
      record temp {
        interval_packet_count = packets;
        interval_outoforder_packets = outoforder;
        interval_cnt_error = errors;
        packet_count = sp.packet_count;
        jitter = sp.jitter;
        outoforder_packets = sp.outoforder_packets;
        cnt_error = sp.cnt_error;
      }

  module _ (in_secs : IperfTime → F) (test : StatTest) where
    -- The protocol's figures. `temp` is one variable for all streams.
    unfoldable pub note_protocol :
        Option (Interval F) → TcpInfo → Interval F × StatStream F → Interval F × StatStream F
    unfolding note_tcp_info note_packets
    note_protocol irp info (temp, sp) =
        if same_protocol test.protocol ptcp
        then (if test.has_tcpinfo && test.sender_has_retransmits
            then note_tcp_info info (temp, sp)
            else (temp, sp))
        else (note_packets irp sp temp, sp)

    -- The bytes and times of an interval that ends at `now`.
    abbrev pub begin_interval : IperfTime → Interval F → StatStream F → Interval F × StatStream F
    begin_interval now temp sp =
        let from : IperfTime = elim (last sp.interval_results) [
          | none ↦ sp.start_time
          | some i ↦ sp.end_time
        ] in
        (
          record temp {
            bytes_transferred =
                if sp.is_sender
                then sp.bytes_sent_this_interval
                else sp.bytes_received_this_interval;
            interval_start_time = from;
            interval_end_time = now;
            interval_duration = in_secs (time_diff from now).1;
          },
          record sp { end_time = now },
        )

    -- The interval joins the list, and the next one has no bytes yet.
    unfoldable pub close_interval : List (Interval F) → Interval F × StatStream F → StatStream F
    unfolding add_to_interval_list
    close_interval results (new, rp) = record rp {
      interval_results = add_to_interval_list results new;
      bytes_received_this_interval = 0;
      bytes_sent_this_interval = 0;
    }

    -- One stream, at the time `now`.
    unfoldable pub measure :
        IperfTime → TcpInfo → Interval F → StatStream F → Interval F × StatStream F
    unfolding note_protocol close_interval
    measure now info temp sp =
        let q = note_protocol (last sp.interval_results) info (begin_interval now temp sp) in
        (q.0, close_interval sp.interval_results q)

-- The clock, and getsockopt(2) or its like on the socket of a stream.
pub record StatCalls (F W : Type 0) : Type 0 where
  pub now : W → IperfTime × W
  pub tcp_info : StatStream F → W → TcpInfo × W

module _ {W : Type 0} (D : Double) (in_secs : IperfTime → D.F) (calls : StatCalls D.F W)
    (test : StatTest) where
  -- The streams in turn, with the bytes of all of them modulo 2 ^ 64.
  unfoldable pub measure_all :
      Interval D.F → List (StatStream D.F) → W → ℕ × List (StatStream D.F) × W
  unfolding measure
  measure_all temp [] w = (0, [], w)
  measure_all temp (sp ∷ rest) w =
      let (now, w1) = calls.now w in
      let (info, w2) : TcpInfo × W =
        if same_protocol test.protocol ptcp && test.has_tcpinfo
        then calls.tcp_info sp w1
        else (no_info, w1) in
      let (new, measured) = measure in_secs test now info temp sp in
      let (bytes, streams, w3) = measure_all new rest w2 in
      (
        (sp.bytes_sent_this_interval + sp.bytes_received_this_interval + bytes) % 2 ^ 64,
        measured ∷ streams,
        w3,
      )

  -- `temp` starts with whatever the stack holds. `none` is a write behind the end of the array of the
  -- rate check.
  unfoldable pub stats_callback :
      LimitSettings D.F
      → Interval D.F
      → LimitState
      → List (StatStream D.F)
      → W
      → Option (LimitState × List (StatStream D.F) × W)
  unfolding measure_all check_total_rate
  stats_callback settings stack limit streams w =
      let temp = record stack {
        omitted = test.omitting;
        rtt = pos 0;
        rttvar = pos 0;
        pmtu = pos 0;
      } in
      let (bytes, measured, w') = measure_all temp streams w in
      elim test.role [
        | client ↦ some (limit, measured, w')
        | server ↦ elim (check_total_rate D settings bytes limit) [
          | none ↦ none
          | some checked ↦ some (checked, measured, w')
        ]
      ]

  -- `iperf_reset_stats` for one stream.
  unfoldable pub reset_stream : D.F → IperfTime → W → StatStream D.F → StatStream D.F × W
  reset_stream zero now w sp =
      let (total, w') : ℤ × W =
        if test.sender_has_retransmits
        then (let (info, v) = calls.tcp_info sp w in (info.total_retransmits, v))
        else (sp.stream_prev_total_retrans, w) in
      (
        record sp {
          omitted_packet_count = sp.packet_count;
          omitted_cnt_error = sp.cnt_error;
          omitted_outoforder_packets = sp.outoforder_packets;
          jitter = zero;
          bytes_sent_omit = sp.bytes_sent;
          bytes_received = 0;
          bytes_received_this_interval = 0;
          bytes_sent_this_interval = 0;
          stream_prev_total_retrans = total;
          stream_retrans = pos 0;
          start_time = now;
        },
        w',
      )

  unfoldable pub reset_streams :
      D.F → IperfTime → List (StatStream D.F) → W → List (StatStream D.F) × W
  unfolding reset_stream
  reset_streams zero now [] w = ([], w)
  reset_streams zero now (sp ∷ rest) w =
      let (reset, w1) = reset_stream zero now w sp in
      let (streams, w2) = reset_streams zero now rest w1 in (reset ∷ streams, w2)
