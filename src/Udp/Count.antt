-- ===== src/Udp/Count.antt =====
-- src/iperf_udp.c: how `iperf_udp_recv` counts lost and reordered packets.
pub mod Loss
use iperf3_windows_msvc.Prelude.{ℕ, ◌+◌, ◌-◌, ◌^◌, List, [], ◌∷◌, ◌&&◌, ltb, leb, if◌then◌else◌}
use iperf3_windows_msvc.Time.{u64}
use iperf3_windows_msvc.Net.{sub64}
use iperf3_windows_msvc.Udp.{UdpStream}

module _ {F : Type 0} where
  -- The bookkeeping of one packet with the sequence number `pcount`, in uint64_t arithmetic.
  unfoldable pub count_packet : ℕ → UdpStream F → UdpStream F
  count_packet pcount sp =
      if leb (u64 (sp.packet_count + 1)) pcount
      then record sp {
        cnt_error =
            if ltb (u64 (sp.packet_count + 1)) pcount
            then u64 (sp.cnt_error + sub64 (sub64 pcount 1) sp.packet_count)
            else sp.cnt_error;
        packet_count = pcount;
      }
      else record sp {
        outoforder_packets = u64 (sp.outoforder_packets + 1);
        -- `sp->cnt_error > 0`, as an int64_t
        cnt_error =
            if ltb 0 sp.cnt_error && ltb sp.cnt_error (2 ^ 63)
            then sp.cnt_error - 1
            else sp.cnt_error;
      }

  -- A run of packets, the oldest first.
  unfoldable pub count_packets : UdpStream F → List ℕ → UdpStream F
  count_packets sp [] = sp
  count_packets sp (p ∷ ps) = count_packets (count_packet p sp) ps
