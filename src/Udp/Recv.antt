-- ===== src/Udp/Recv.antt =====
-- src/iperf_udp.c: `iperf_udp_recv`.
pub mod Datagrams
use Prim.Native.Nat.{bit_and}
use iperf3_windows_msvc.Prelude.{
  ℕ, zero, suc, ◌+◌, ◌-◌, ◌≡◌, Bool, true, false, ◌&&◌, List, [], Option, none, some, drop, ltb,
  leb, ◌==◌, if◌then◌else◌,
}
use iperf3_windows_msvc.Prelude.Int.{ℤ, pos, negsuc}
use iperf3_windows_msvc.Time.{IperfTime, u64, time_diff}
use iperf3_windows_msvc.Net.{Bytes, Sys, Round, return, continue, loop, nrecv_no_select}
use iperf3_windows_msvc.Net.Offload.{nread_gro}
use iperf3_windows_msvc.Udp.{Double, UdpStream, UdpSettings}
use iperf3_windows_msvc.Udp.Packet.{read_header}
use iperf3_windows_msvc.Udp.Count.{count_packet}

-- The variables of the loop over the datagrams of one buffer; `offset` is `dgram_buf - sp->buffer`.
pub record Parsing (F W : Type 0) : Type 0 where
  pub offset : ℕ
  pub buf_sz : ℕ
  pub first_packet : Bool
  pub sp : UdpStream F
  pub world : W

abbrev pub min_pkt_size : ℕ
min_pkt_size = 12

-- `sizeof(uint32_t) * 2 + sizeof(uint64_t)`
abbrev pub wide_pkt_size : ℕ
wide_pkt_size = 16

module _ (D : Double) where
  open D use {F, of_nat, add, sub, neg, div, lt}

  -- `iperf_time_in_secs`
  time_in_secs : IperfTime → F
  time_in_secs time = add (of_nat time.secs) (div (of_nat time.usecs) (of_nat 1000000))

  abbrev magnitude : F → F
  magnitude d = if lt d (of_nat 0) then neg d else d

  -- The jitter of RFC 1889 after a packet with the transit time `transit`.
  measure_jitter : Bool → F → UdpStream F → UdpStream F
  measure_jitter first_packet transit sp =
      let prev_transit = if first_packet then transit else sp.prev_transit in
      let d = magnitude (sub transit prev_transit) in
      record sp {
        prev_transit = transit;
        jitter = add sp.jitter (div (sub d sp.jitter) (of_nat 16));
      }

  -- One datagram, which starts at the front of `buf` and arrived at `arrival_time`.
  unfoldable pub take_datagram : Bool → IperfTime → Bool → Bytes → UdpStream F → UdpStream F
  unfolding measure_jitter time_in_secs
  take_datagram wide arrival_time first_packet buf sp =
      let (sent_time, pcount) = read_header wide buf in
      measure_jitter first_packet (time_in_secs (time_diff arrival_time sent_time).1)
        (count_packet pcount sp)

  module _ {W : Type 0} (sys : Sys W) where
    -- The body of the `while` loop; `buffer` holds what was received, `r` bytes.
    unfoldable pub parse_body :
        Bool → ℕ → ℕ → Bytes → Parsing F W → Round (UdpStream F × W) (Parsing F W)
    parse_body wide dgram_sz r buffer s =
        let (arrival_time, w) = sys.now s.world in
        if leb dgram_sz s.buf_sz && leb (s.offset + dgram_sz) r
        then if ltb s.buf_sz min_pkt_size
          then return (s.sp, s.world)
          else if wide && ltb s.buf_sz wide_pkt_size
          then return (s.sp, s.world)
          else continue (record {
            offset = s.offset + dgram_sz;
            buf_sz = s.buf_sz - dgram_sz;
            first_packet = false;
            sp = take_datagram wide arrival_time s.first_packet (drop s.offset buffer) s.sp;
            world = w;
          })
        else return (s.sp, s.world)

    -- The loop over a buffer of `r` bytes.
    unfoldable pub parse_datagrams :
        Bool → ℕ → ℕ → Bytes → Bool → UdpStream F → W → Option (UdpStream F × W)
    parse_datagrams wide dgram_sz r buffer first_packet sp w =
        loop (parse_body wide dgram_sz r buffer) (suc r)
          (record { offset = 0; buf_sz = r; first_packet = first_packet; sp = sp; world = w })

    -- The bytes are counted, and the datagrams taken, only while the test runs.
    received : UdpSettings → ℕ → Bytes → UdpStream F → W → Option (ℤ × UdpStream F × W)
    received settings r buffer sp w =
        let counted = record sp {
          bytes_received = u64 (sp.bytes_received + r);
          bytes_received_this_interval = u64 (sp.bytes_received_this_interval + r);
        } in
        if settings.test_running
        then elim (parse_datagrams settings.udp_counters_64bit settings.blksize r buffer
            (sp.bytes_received == 0) counted w) [
              | none ↦ none
              | some (sp', w') ↦ some (pos r, sp', w')
            ]
        else some (pos r, sp, w)

    -- An error, or nothing received, skips the packet processing.
    dispatch : UdpSettings → ℤ × Bytes × W → UdpStream F → Option (ℤ × UdpStream F × W)
    unfolding received
    dispatch settings (pos (suc r), buffer, w) sp = received settings (suc r) buffer sp w
    dispatch settings (r, buffer, w) sp = some (r, sp, w)

    unfoldable pub udp_recv : UdpSettings → ℕ → UdpStream F → W → Option (ℤ × UdpStream F × W)
    unfolding dispatch
    udp_recv settings socket sp w =
        let sock_opt = if settings.skip_rx_copy then sys.msg_trunc else 0 in
        let size = if settings.skip_rx_copy then wide_pkt_size else settings.blksize in
        let ((r, dgram_sz, buffer), w1) = nread_gro sys socket settings.gro_bf_size (pos 0) w in
        if settings.gro
        then dispatch settings (r, buffer, w1) sp
        else elim (nrecv_no_select sys socket size sock_opt w) [
          | none ↦ none
          | some answer ↦ dispatch settings answer sp
        ]
