-- ===== src/Udp/Send/Fill.antt =====
-- src/iperf_udp.c: the headers that `iperf_udp_send` writes number the datagrams of the buffer.
use mathlib.Core.Path.{ap₂}
use iperf3_windows_msvc.Prelude.{
  ℕ, zero, suc, ◌+◌, ◌-◌, ◌*◌, ◌^◌, ◌≤◌, ◌<◌, ◌≡◌, refl, sym, ap, ◌∙◌, Bool, true, false, List, [],
  ◌∷◌, ◌++◌, append_assoc, some, take, drop, length, length-append, length-drop, length-take,
  take-append-drop, arith, ltb, le→leb, lt→ltb,
}
use iperf3_windows_msvc.Time.{IperfTime, u64}
use iperf3_windows_msvc.Net.{Bytes, Sys, return, continue, loop}
use iperf3_windows_msvc.Net.Loop.{loop-return, loop-continue}
use iperf3_windows_msvc.Udp.Packet.{header, read_header, counter_range, read_header-header}
use iperf3_windows_msvc.Udp.Recv.Datagrams.{header_size, counters_at, le_rounds, header_pos}
use iperf3_windows_msvc.Udp.Send.{Filling, write_at, fill_body, fill_headers}

-- The numbers `n + 1` to `n + k`.
abbrev pub numbers : ℕ → ℕ → List ℕ
numbers n zero = []
numbers n (suc k) = (n + 1) ∷ numbers (n + 1) k

-- The clock gives times that fit `struct iperf_time`.
abbrev pub Clock : {W : Type 0} → Sys W → Type 0
Clock {W} sys = (w : W) → ((sys.now w).0.secs < 2 ^ 32) × ((sys.now w).0.usecs < 2 ^ 32)

length-header : (wide : Bool) (t : IperfTime) (n : ℕ) → length (header wide t n) ≡ header_size wide
unfolding header
length-header true t n = refl
length-header false t n = refl

take-length : (xs ys : Bytes) → take (length xs) (xs ++ ys) ≡ xs
take-length [] ys = refl
take-length (x ∷ xs) ys = ap (λ zs. x ∷ zs) (take-length xs ys)

drop-length : (n : ℕ) (xs ys : Bytes) → drop (length xs + n) (xs ++ ys) ≡ drop n ys
drop-length n [] ys = ap (λ k. drop k ys) (omega arith)
drop-length n (x ∷ xs) ys =
    let e : suc (length xs) + n ≡ suc (length xs + n) = omega arith in rw e (drop-length n xs ys)

-- A write behind `xs`.
write_at-append :
    (xs ys h : Bytes) → write_at (length xs) h (xs ++ ys) ≡ xs ++ (h ++ drop (length h) ys)
write_at-append xs ys h = rw (take-length xs ys, drop-length (length h) xs ys)

drop-header : (n : ℕ) (xs ys : Bytes) → length xs ≡ n → drop n (xs ++ ys) ≡ ys
drop-header n xs ys e =
    let z : n ≡ length xs + 0 = omega arith in ap (λ k. drop k (xs ++ ys)) z ∙ drop-length 0 xs ys

regroup : (a b c d : Bytes) → (a ++ (b ++ c)) ++ d ≡ a ++ (b ++ (c ++ d))
regroup a b c d = append_assoc a (b ++ c) d ∙ ap (λ xs. a ++ xs) (append_assoc b c d)

-- A buffer in which one more datagram has its header: `front` is longer by a datagram.
record Stamped (d offset : ℕ) (front rest hdr : Bytes) : Type 0 where
  pad : Bytes
  rest1 : Bytes
  shape : write_at offset hdr (front ++ rest) ≡ (front ++ (hdr ++ pad)) ++ rest1
  reach : length (front ++ (hdr ++ pad)) ≡ offset + d
  left : length rest1 + d ≡ length rest

stamp :
    (d offset : ℕ) (front rest hdr : Bytes)
    → length front ≡ offset
    → length hdr ≤ d
    → d ≤ length rest
    → Stamped d offset front rest hdr
stamp d offset front rest hdr e h le =
    let behind = drop (length hdr) rest in
    let m = d - length hdr in
    let lb = length-drop (length hdr) rest in
    record {
      pad = take m behind;
      rest1 = drop m behind;
      shape =
          ap (λ k. write_at k hdr (front ++ rest)) (sym e)
          ∙ write_at-append front rest hdr
          ∙ ap (λ xs. front ++ (hdr ++ xs)) (sym (take-append-drop m behind))
          ∙ ap (λ xs. front ++ xs) (sym (append_assoc hdr (take m behind) (drop m behind)))
          ∙ sym (append_assoc front (hdr ++ take m behind) (drop m behind));
      reach = omega (
        arith,
        length-append front (hdr ++ take m behind),
        length-append hdr (take m behind),
        length-take m behind,
        lb,
      );
      left = omega (arith, length-drop m behind, lb);
    }

module _ {W : Type 0} (sys : Sys W) (clock : Clock sys) (wide : Bool) (dgram_sz total : ℕ) where
  step :
      (s : Filling W)
      → 0 < dgram_sz
      → s.offset + s.buf_sz ≡ total
      → dgram_sz ≤ s.buf_sz
      → s.packet_count + 1 < 2 ^ 64
      → fill_body sys wide dgram_sz total s
        ≡ continue (record {
          offset = s.offset + dgram_sz;
          buf_sz = s.buf_sz - dgram_sz;
          buffer =
              write_at s.offset (header wide (sys.now s.world).0 (s.packet_count + 1)) s.buffer;
          packet_count = s.packet_count + 1;
          world = (sys.now s.world).1;
        })
  unfolding fill_body
  step s pos e le fit =
      let keep : u64 (s.packet_count + 1) ≡ s.packet_count + 1 = omega arith in
      let enough : ltb s.buf_sz dgram_sz ≡ false = ground arith in
      rw (
        keep,
        lt→ltb 0 s.buf_sz (omega arith),
        le→leb (s.offset + dgram_sz) total (omega arith),
        enough,
      )

  finish :
      (s : Filling W)
      → s.offset + s.buf_sz ≡ total
      → s.buf_sz < dgram_sz
      → fill_body sys wide dgram_sz total s ≡ return s
  unfolding fill_body
  finish s e lt = ground arith

  -- From a buffer whose front `front` is done: `k` datagrams are left.
  fill_rest :
      (k fuel : ℕ) (s : Filling W) (front rest : Bytes)
      → k < fuel
      → header_size wide ≤ dgram_sz
      → s.offset + s.buf_sz ≡ total
      → k * dgram_sz ≤ s.buf_sz
      → s.buf_sz < k * dgram_sz + dgram_sz
      → s.packet_count + k < counter_range wide
      → s.packet_count + k < 2 ^ 64
      → s.buffer ≡ front ++ rest
      → length front ≡ s.offset
      → s.buf_sz ≤ length rest
      → (out : Filling W) × (rest' : Bytes) × (loop (fill_body sys wide dgram_sz total) fuel s
          ≡ some out)
        × (out.packet_count ≡ s.packet_count + k)
        × (out.buffer ≡ front ++ rest')
        × (counters_at wide dgram_sz out.buffer s.offset k ≡ numbers s.packet_count k)
  fill_rest k zero s front rest f h e lo hi r1 r2 eb el len = absurd (omega arith)
  fill_rest zero (suc fuel) s front rest f h e lo hi r1 r2 eb el len =
      (s, rest, loop-return _ fuel s (finish s e (omega arith)), omega arith, eb, refl)
  fill_rest (suc k) (suc fuel) s front rest f h e lo hi r1 r2 eb el len =
      let n = s.packet_count + 1 in
      let now = (sys.now s.world).0 in
      let hdr = header wide now n in
      let lh = length-header wide now n in
      let st = stamp dgram_sz s.offset front rest hdr el (omega (arith, lh)) (omega arith) in
      let (out, rest', runs, count, buf, cs) =
        fill_rest k fuel
          (record {
            offset = s.offset + dgram_sz;
            buf_sz = s.buf_sz - dgram_sz;
            buffer = write_at s.offset hdr s.buffer;
            packet_count = n;
            world = (sys.now s.world).1;
          })
          (front ++ (hdr ++ st.pad)) st.rest1 (omega arith) h (omega arith) (omega arith)
          (omega arith) (omega arith) (omega arith) (ap (write_at s.offset hdr) eb ∙ st.shape)
          st.reach (omega (arith, st.left)) in
      let whole : out.buffer ≡ front ++ (hdr ++ (st.pad ++ rest')) =
        buf ∙ regroup front hdr st.pad rest' in
      (
        out,
        hdr ++ (st.pad ++ rest'),
        loop-continue _ fuel s (step s (header_pos wide dgram_sz h) e (omega arith) (omega arith))
            ∙ runs,
        omega (arith, count),
        whole,
        ap₂ (λ m ns. m ∷ ns)
            (ap (λ b. (read_header wide (drop s.offset b)).1) whole
              ∙ ap (λ b. (read_header wide b).1) (drop-header s.offset front _ el)
              ∙ ap (λ p. p.1)
                  (read_header-header wide now n (st.pad ++ rest') (clock s.world).0
                    (clock s.world).1 (omega arith)))
            cs,
      )

  -- The headers that `iperf_udp_send` writes into a buffer of `total` bytes number the `k`
  -- datagrams that fit into it whole, from the packet count on, and the packet count moves by `k`.
  -- The datagram size leaves room for the header, and the numbers fit the counter of the header.
  pub fill_headers-numbers :
      (k : ℕ) (buffer : Bytes) (packet_count : ℕ) (w : W)
      → header_size wide ≤ dgram_sz
      → k * dgram_sz ≤ total
      → total < k * dgram_sz + dgram_sz
      → total ≤ length buffer
      → packet_count + k < counter_range wide
      → packet_count + k < 2 ^ 64
      → (out : Filling W) × (fill_headers sys wide dgram_sz total buffer packet_count w ≡ some out)
        × (out.packet_count ≡ packet_count + k)
        × (counters_at wide dgram_sz out.buffer 0 k ≡ numbers packet_count k)
  unfolding fill_headers
  fill_headers-numbers k buffer packet_count w h lo hi len r1 r2 =
      let (out, rest', runs, count, buf, cs) =
        fill_rest k (suc total)
          (record {
            offset = 0;
            buf_sz = total;
            buffer = buffer;
            packet_count = packet_count;
            world = w;
          })
          [] buffer (le_rounds k dgram_sz total (header_pos wide dgram_sz h) lo) h (omega arith) lo
          hi r1 r2 refl refl len in
      (out, runs, count, cs)
