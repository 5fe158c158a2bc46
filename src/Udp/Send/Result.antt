-- ===== src/Udp/Send/Result.antt =====
-- src/iperf_udp.c: a sender and a receiver agree on the numbering, and what a failed write does to it.
use iperf3_windows_msvc.Prelude.{
  ℕ, zero, suc, ◌+◌, ◌*◌, ◌^◌, ◌≤◌, ◌<◌, ◌≡◌, refl, sym, ap, ◌∙◌, Bool, true, some, take, length,
  arith, if◌then◌else◌,
}
use iperf3_windows_msvc.Prelude.Int.{ℤ, pos, negsuc, ltb_ℤ}
use iperf3_windows_msvc.Net.{Bytes, Sys}
use iperf3_windows_msvc.Net.Offload.{nwrite_gso}
use iperf3_windows_msvc.Udp.{Double, UdpStream, UdpSettings}
use iperf3_windows_msvc.Udp.Packet.{counter_range}
use iperf3_windows_msvc.Udp.Count.{count_packet, count_packets}
use iperf3_windows_msvc.Udp.Recv.{parse_datagrams}
use iperf3_windows_msvc.Udp.Recv.Datagrams.{header_size, counters_at, parse_datagrams_in_order}
use iperf3_windows_msvc.Udp.Send.{
  Filling, Sent, plan, fill_headers, transmit, account, deliver, udp_send,
}
use iperf3_windows_msvc.Udp.Send.Fill.{numbers, Clock, fill_headers-numbers}

module _ {F : Type 0} where
  count_next :
      (n : ℕ) (sp : UdpStream F)
      → sp.packet_count ≡ n
      → n + 1 < 2 ^ 64
      → count_packet (n + 1) sp ≡ record sp { packet_count = n + 1 }
  unfolding count_packet
  count_next n sp e h = ground arith

  -- A run of numbers without a gap.
  count_numbers :
      (k n : ℕ) (sp : UdpStream F)
      → sp.packet_count ≡ n
      → n + k < 2 ^ 64
      → count_packets sp (numbers n k) ≡ record sp { packet_count = n + k }
  unfolding count_packets
  count_numbers zero n sp e h = ground arith
  count_numbers (suc k) n sp e h =
      let sum : n + 1 + k ≡ n + suc k = omega arith in
      ap (λ (t : UdpStream F). count_packets t (numbers (n + 1) k))
        (count_next n sp e (omega arith))
      ∙ count_numbers k (n + 1) (record sp { packet_count = n + 1 }) refl (omega arith)
      ∙ ap (λ (m : ℕ). record sp { packet_count = m }) sum

module _ (D : Double) {W V : Type 0} (sys : Sys W) (far : Sys V) (clock : Clock sys) where
  open D use {F}

  -- A buffer of datagrams that a sender has numbered is taken by a receiver that has seen every
  -- number so far with no loss and no reordering, and leaves it at the sender's packet count.
  pub parse-fill :
      (wide : Bool) (dgram_sz total k : ℕ) (buffer : Bytes) (packet_count : ℕ) (w : W)
      (first : Bool) (sp : UdpStream F) (v : V)
      → header_size wide ≤ dgram_sz
      → k * dgram_sz ≤ total
      → total < k * dgram_sz + dgram_sz
      → total ≤ length buffer
      → packet_count + k < counter_range wide
      → packet_count + k < 2 ^ 64
      → sp.packet_count ≡ packet_count
      → (filled : Filling W) × (got : UdpStream F × V) × (fill_headers sys wide dgram_sz total
            buffer packet_count w
          ≡ some filled)
        × (parse_datagrams D far wide dgram_sz total filled.buffer first sp v ≡ some got)
        × (got.0.packet_count ≡ filled.packet_count)
        × (filled.packet_count ≡ packet_count + k)
        × (got.0.cnt_error ≡ sp.cnt_error)
        × (got.0.outoforder_packets ≡ sp.outoforder_packets)
  parse-fill wide dgram_sz total k buffer packet_count w first sp v h lo hi len r1 r2 sync =
      let (filled, runs, count, cs) =
        fill_headers-numbers sys clock wide dgram_sz total k buffer packet_count w h lo hi len r1
          r2 in
      let (got, taken, same) =
        parse_datagrams_in_order D far wide dgram_sz total filled.buffer k first sp v h lo hi in
      let all : count_packets sp (counters_at wide dgram_sz filled.buffer 0 k)
          ≡ record sp { packet_count = packet_count + k } =
        ap (count_packets sp) cs ∙ count_numbers k packet_count sp sync r2 in
      (
        filled,
        got,
        runs,
        taken,
        same.same_count ∙ ap (λ (t : UdpStream F). t.packet_count) all ∙ sym count,
        count,
        same.same_error ∙ ap (λ (t : UdpStream F). t.cnt_error) all,
        same.same_order ∙ ap (λ (t : UdpStream F). t.outoforder_packets) all,
      )

-- Whether the write sent data.
abbrev pub is_positive : ℤ → Bool
is_positive r = ltb_ℤ (pos 0) r

account_number :
    {F : Type 0} (r : ℤ) (sp : UdpStream F) (n : ℕ)
    → sp.packet_count ≡ n + 1
    → n + 1 < 2 ^ 64
    → (account r sp).packet_count ≡ (if is_positive r then n + 1 else n)
unfolding account
account_number (negsuc m) sp n e h = ground arith
account_number (pos zero) sp n e h = ground arith
account_number (pos (suc m)) sp n e h = ground arith

module _ {W : Type 0} (sys : Sys W) (clock : Clock sys) {F : Type 0} (settings : UdpSettings)
    (k : ℕ) (socket : ℕ) (sp : UdpStream F) (buffer : Bytes) (w : W) where
  plan_on :
      settings.gso ≡ true
      → 12 ≤ settings.gso_dg_size
      → settings.gso_dg_size ≤ settings.gso_bf_size
      → plan settings ≡ (settings.gso_dg_size, settings.gso_bf_size, settings)
  unfolding plan
  plan_on on h le = ground arith

  abbrev answer : Filling W → ℤ × W
  answer filled =
      nwrite_gso sys socket (take settings.gso_bf_size filled.buffer) settings.gso_dg_size
        filled.world

  abbrev outcome : Filling W → Sent F W
  outcome filled = record {
    result = (answer filled).0;
    sp = account (answer filled).0 (record sp { packet_count = filled.packet_count });
    buffer = filled.buffer;
    settings = settings;
    world = (answer filled).1;
  }

  deliver_on :
      (filled : Filling W)
      → settings.gso ≡ true
      → deliver sys settings socket sp (some filled) ≡ some (outcome filled)
  unfolding deliver transmit
  deliver_on filled on = rw (on, transmit)

  udp_send_planned :
      (dgram_sz total : ℕ)
      → plan settings ≡ (dgram_sz, total, settings)
      → udp_send sys settings socket sp buffer w
        ≡ deliver sys settings socket sp
            (fill_headers sys settings.udp_counters_64bit dgram_sz total buffer sp.packet_count w)
  unfolding udp_send
  udp_send_planned dgram_sz total e = rw e

  -- A send that uses segmentation numbers the datagrams of its buffer from the packet count on; if
  -- data was sent, the packet count is the last of these numbers, and if not, it is one less,
  -- however many datagrams the buffer holds.
  pub udp_send_segmented :
      settings.gso ≡ true
      → header_size settings.udp_counters_64bit ≤ settings.gso_dg_size
      → 12 ≤ settings.gso_dg_size
      → suc k * settings.gso_dg_size ≤ settings.gso_bf_size
      → settings.gso_bf_size < suc k * settings.gso_dg_size + settings.gso_dg_size
      → settings.gso_bf_size ≤ length buffer
      → sp.packet_count + suc k < counter_range settings.udp_counters_64bit
      → sp.packet_count + suc k < 2 ^ 64
      → (out : Sent F W) × (udp_send sys settings socket sp buffer w ≡ some out)
        × (counters_at settings.udp_counters_64bit settings.gso_dg_size out.buffer 0 (suc k)
            ≡ numbers sp.packet_count (suc k))
        × (out.sp.packet_count
            ≡ (if is_positive out.result then sp.packet_count + k + 1 else sp.packet_count + k))
  udp_send_segmented on h h12 lo hi len r1 r2 =
      let (filled, runs, count, cs) =
        fill_headers-numbers sys clock settings.udp_counters_64bit settings.gso_dg_size
          settings.gso_bf_size (suc k) buffer sp.packet_count w h lo hi len r1 r2 in
      (
        outcome filled,
        udp_send_planned _ _ (plan_on on h12 (omega arith))
            ∙ ap (deliver sys settings socket sp) runs
            ∙ deliver_on filled on,
        cs,
        account_number (answer filled).0 (record sp { packet_count = filled.packet_count })
            (sp.packet_count + k) (omega (arith, count)) (omega arith),
      )
