-- ===== src/Udp/Recv/Datagrams.antt =====
-- src/iperf_udp.c: the loop of `iperf_udp_recv` takes every datagram of the buffer, once and in order.
use native.Mathlib.Nat.{le_trans}
use iperf3_windows_msvc.Prelude.{
  ℕ, zero, suc, ◌+◌, ◌-◌, ◌*◌, ◌≤◌, ◌<◌, ◌≡◌, refl, ◌∙◌, Bool, true, false, List, [], ◌∷◌, none,
  some, drop, arith, ltb, ◌&&◌, le→leb,
}
use iperf3_windows_msvc.Time.{IperfTime}
use iperf3_windows_msvc.Net.{Bytes, Sys, return, continue, loop}
use iperf3_windows_msvc.Net.Loop.{loop-return, loop-continue}
use iperf3_windows_msvc.Udp.{Double, UdpStream}
use iperf3_windows_msvc.Udp.Packet.{read_header}
use iperf3_windows_msvc.Udp.Count.{count_packet, count_packets}
use iperf3_windows_msvc.Udp.Recv.{Parsing, take_datagram, parse_body, parse_datagrams}

-- The size of a header.
abbrev pub header_size : Bool → ℕ
header_size true = 16
header_size false = 12

-- The counters in the headers of `k` datagrams, the first at `offset`, one every `dgram_sz` bytes.
abbrev pub counters_at : Bool → ℕ → Bytes → ℕ → ℕ → List ℕ
counters_at wide dgram_sz buffer offset zero = []
counters_at wide dgram_sz buffer offset (suc k) =
    (read_header wide (drop offset buffer)).1
    ∷ counters_at wide dgram_sz buffer (offset + dgram_sz) k

-- The packet counters of two streams are the same.
pub record SameCounters {F : Type 0} (a b : UdpStream F) : Type 0 where
  pub same_count : a.packet_count ≡ b.packet_count
  pub same_error : a.cnt_error ≡ b.cnt_error
  pub same_order : a.outoforder_packets ≡ b.outoforder_packets

count_packet-SameCounters :
    {F : Type 0} (p : ℕ) (a b : UdpStream F)
    → SameCounters a b
    → SameCounters (count_packet p a) (count_packet p b)
unfolding count_packet
count_packet-SameCounters p a b h = ground arith

count_packets-SameCounters :
    {F : Type 0} (ps : List ℕ) (a b : UdpStream F)
    → SameCounters a b
    → SameCounters (count_packets a ps) (count_packets b ps)
unfolding count_packets
count_packets-SameCounters [] a b h = h
count_packets-SameCounters (p ∷ ps) a b h =
    count_packets-SameCounters ps _ _ (count_packet-SameCounters p a b h)

pub header_pos : (wide : Bool) (n : ℕ) → header_size wide ≤ n → 0 < n
header_pos true n h = omega arith
header_pos false n h = omega arith

pub le_rounds : (k d r : ℕ) → 0 < d → k * d ≤ r → k < suc r
le_rounds k d r h le = grind arith

header_room :
    (wide : Bool) (n : ℕ) → header_size wide ≤ n → (ltb n 12 ≡ false) × ((wide && ltb n 16) ≡ false)
header_room true n h = ground arith
header_room false n h = ground arith

take_datagram-SameCounters :
    (D : Double) (wide : Bool) (now : IperfTime) (first : Bool) (buf : Bytes) (sp : UdpStream D.F)
    → SameCounters
        (take_datagram D wide now first buf sp)
        (count_packet (read_header wide buf).1 sp)
unfolding take_datagram
take_datagram-SameCounters D wide now first buf sp = record {
  same_count = refl;
  same_error = refl;
  same_order = refl;
}

SameCounters-trans :
    {F : Type 0} {a b c : UdpStream F} → SameCounters a b → SameCounters b c → SameCounters a c
SameCounters-trans h k = record {
  same_count = h.same_count ∙ k.same_count;
  same_error = h.same_error ∙ k.same_error;
  same_order = h.same_order ∙ k.same_order;
}

module _ (D : Double) {W : Type 0} (sys : Sys W) (wide : Bool) (dgram_sz r : ℕ)
    (buffer : Bytes) where
  open D use {F}

  -- A whole datagram is left.
  step :
      (s : Parsing F W)
      → header_size wide ≤ s.buf_sz
      → s.offset + s.buf_sz ≡ r
      → dgram_sz ≤ s.buf_sz
      → parse_body D sys wide dgram_sz r buffer s
        ≡ continue (record {
          offset = s.offset + dgram_sz;
          buf_sz = s.buf_sz - dgram_sz;
          first_packet = false;
          sp = take_datagram D wide (sys.now s.world).0 s.first_packet (drop s.offset buffer) s.sp;
          world = (sys.now s.world).1;
        })
  unfolding parse_body
  step s h e le =
      let (t1, t2) = header_room wide s.buf_sz h in
      rw (le→leb _ _ le, le→leb (s.offset + dgram_sz) r (omega arith), t1, t2)

  finish :
      (s : Parsing F W)
      → s.buf_sz < dgram_sz
      → parse_body D sys wide dgram_sz r buffer s ≡ return (s.sp, s.world)
  unfolding parse_body
  finish s lt = ground arith

  -- `k` whole datagrams are left.
  parse_rest :
      (k fuel : ℕ) (s : Parsing F W)
      → k < fuel
      → header_size wide ≤ dgram_sz
      → s.offset + s.buf_sz ≡ r
      → k * dgram_sz ≤ s.buf_sz
      → s.buf_sz < k * dgram_sz + dgram_sz
      → (out : UdpStream F × W) × (loop (parse_body D sys wide dgram_sz r buffer) fuel s ≡ some out)
        × SameCounters out.0 (count_packets s.sp (counters_at wide dgram_sz buffer s.offset k))
  unfolding count_packets
  parse_rest k zero s f h e lo hi = absurd (omega arith)
  parse_rest zero (suc fuel) s f h e lo hi = (
    (s.sp, s.world),
    loop-return _ fuel s (finish s (omega arith)),
    record { same_count = refl; same_error = refl; same_order = refl },
  )
  parse_rest (suc k) (suc fuel) s f h e lo hi =
      let taken =
        take_datagram D wide (sys.now s.world).0 s.first_packet (drop s.offset buffer) s.sp in
      let (out, runs, same) =
        parse_rest k fuel
          (record {
            offset = s.offset + dgram_sz;
            buf_sz = s.buf_sz - dgram_sz;
            first_packet = false;
            sp = taken;
            world = (sys.now s.world).1;
          })
          (omega arith) h (omega arith) (omega arith) (omega arith) in
      (
        out,
        loop-continue _ fuel s (step s (le_trans h (omega arith)) e (omega arith)) ∙ runs,
        SameCounters-trans same (
            count_packets-SameCounters (counters_at wide dgram_sz buffer (s.offset + dgram_sz) k) _
              _
              (take_datagram-SameCounters D wide (sys.now s.world).0 s.first_packet
                (drop s.offset buffer) s.sp)),
      )

  -- The loop over a received buffer of `r` bytes always ends, and its packet counters are those of
  -- taking the datagrams that fit into it whole, one every `dgram_sz` bytes from the front, in
  -- order. The datagram size leaves room for the header.
  pub parse_datagrams_in_order :
      (k : ℕ) (first_packet : Bool) (sp : UdpStream F) (w : W)
      → header_size wide ≤ dgram_sz
      → k * dgram_sz ≤ r
      → r < k * dgram_sz + dgram_sz
      → (out : UdpStream F × W) × (parse_datagrams D sys wide dgram_sz r buffer first_packet sp w
          ≡ some out)
        × SameCounters out.0 (count_packets sp (counters_at wide dgram_sz buffer 0 k))
  unfolding parse_datagrams
  parse_datagrams_in_order k first_packet sp w h lo hi =
      parse_rest k (suc r)
        (record { offset = 0; buf_sz = r; first_packet = first_packet; sp = sp; world = w })
        (le_rounds k dgram_sz r (header_pos wide dgram_sz h) lo) h (omega arith) lo hi

-- `dgram_sz` is 0.
module _ (D : Double) {W : Type 0} (sys : Sys W) (wide : Bool) (r : ℕ) (buffer : Bytes) where
  open D use {F}

  stuck_from :
      (fuel : ℕ) (s : Parsing F W)
      → header_size wide ≤ s.buf_sz
      → s.offset + s.buf_sz ≡ r
      → loop (parse_body D sys wide 0 r buffer) fuel s ≡ none
  unfolding loop
  stuck_from zero s h e = refl
  stuck_from (suc fuel) s h e =
      loop-continue _ fuel s (step D sys wide 0 r buffer s h e (omega arith))
      ∙ stuck_from fuel _ (omega (arith, h)) (omega arith)

  -- A datagram size of 0 makes the loop over a received buffer run for ever if the bytes that were
  -- received have room for a header: no amount of fuel lets it end.
  pub parse_body_stuck :
      (first_packet : Bool) (sp : UdpStream F) (w : W) (fuel : ℕ)
      → header_size wide ≤ r
      → loop
          (parse_body D sys wide 0 r buffer)
          fuel
          (record { offset = 0; buf_sz = r; first_packet = first_packet; sp = sp; world = w })
        ≡ none
  parse_body_stuck first_packet sp w fuel h = stuck_from fuel _ h (omega arith)
