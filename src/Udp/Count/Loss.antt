-- ===== src/Udp/Count/Loss.antt =====
-- src/iperf_udp.c: the packet counters of a receiver against the packets that arrived.
use iperf3_windows_msvc.Prelude.{
  ℕ, zero, suc, ◌+◌, ◌-◌, ◌^◌, ◌≤◌, ◌<◌, ◌≡◌, refl, ap, ◌∙◌, inl, inr, List, [], ◌∷◌, arith, length,
  ltb, ◌==◌, if◌then◌else◌, Bool-cases, ltb→lt, max,
}
use native.Mathlib.Nat.{le_refl}
use iperf3_windows_msvc.Udp.{UdpStream}
use iperf3_windows_msvc.Udp.Count.{count_packet, count_packets}

-- How often `x` is in the list.
abbrev pub count : ℕ → List ℕ → ℕ
count x [] = 0
count x (y ∷ ys) = (if x == y then 1 else 0) + count x ys

-- No sequence number comes twice.
abbrev pub Distinct : List ℕ → Type 0
Distinct ps = (x : ℕ) → count x ps ≤ 1

-- Every sequence number is positive and fits an int64_t.
abbrev pub InRange : List ℕ → Type 0
InRange [] = Unit
InRange (p ∷ ps) = (0 < p) × (p < 2 ^ 63) × InRange ps

-- The highest of `m` and the numbers of the list.
abbrev pub highest : ℕ → List ℕ → ℕ
highest m [] = m
highest m (p ∷ ps) = highest (max m p) ps

-- How many numbers of the list come after a higher one, or below `m`.
abbrev pub late : ℕ → List ℕ → ℕ
late m [] = 0
late m (p ∷ ps) = (if ltb m p then 0 else 1) + late (max m p) ps

-- How many of the list lie in 1 .. m.
tally : ℕ → List ℕ → ℕ
tally zero ps = 0
tally (suc m) ps = tally m ps + count (suc m) ps

tally-le : (m : ℕ) (ps : List ℕ) → Distinct ps → tally m ps ≤ m
unfolding tally
tally-le zero ps d = omega arith
tally-le (suc m) ps d = omega (arith, tally-le m ps d, d (suc m))

tally-nil : (m : ℕ) → tally m [] ≡ 0
unfolding tally
tally-nil zero = refl
tally-nil (suc m) = omega (arith, tally-nil m)

tally_above : (m p : ℕ) (ps : List ℕ) → m < p → tally m (p ∷ ps) ≡ tally m ps
unfolding tally
tally_above zero p ps h = refl
tally_above (suc m) p ps h = ground (arith, tally_above m p ps (omega arith))

tally-cons : (m p : ℕ) (ps : List ℕ) → 0 < p → p ≤ m → tally m (p ∷ ps) ≡ tally m ps + 1
unfolding tally
tally-cons zero p ps h k = absurd (omega arith)
tally-cons (suc m) p ps h k = elim (Bool-cases (p == suc m)) [
  | inl e ↦ ground (arith, tally_above m p ps)
  | inr n ↦ ground (arith, tally-cons m p ps h)
]

-- All numbers of the list lie in 1 .. m.
abbrev Below : ℕ → List ℕ → Type 0
Below m [] = Unit
Below m (p ∷ ps) = (0 < p) × (p ≤ m) × Below m ps

Below-mono : (m n : ℕ) (ps : List ℕ) → m ≤ n → Below m ps → Below n ps
Below-mono m n [] h b = tt
Below-mono m n (p ∷ ps) h (pos, le, b) = (pos, omega arith, Below-mono m n ps h b)

length-tally : (m : ℕ) (ps : List ℕ) → Below m ps → length ps ≡ tally m ps
length-tally m [] b = omega (arith, tally-nil m)
length-tally m (p ∷ ps) (pos, le, b) = omega (arith, tally-cons m p ps pos le, length-tally m ps b)

-- Distinct numbers in 1 .. m are at most m.
pigeonhole : (m : ℕ) (ps : List ℕ) → Below m ps → Distinct ps → length ps ≤ m
pigeonhole m ps b d = omega (arith, length-tally m ps b, tally-le m ps d)

module _ {F : Type 0} where
  -- What the counters say after the packets `seen`.
  record Accounts (sp : UdpStream F) (seen : List ℕ) : Type 0 where
    below : Below sp.packet_count seen
    fits : sp.packet_count < 2 ^ 63
    lost : sp.cnt_error + length seen ≡ sp.packet_count
    small : sp.outoforder_packets ≤ length seen

  count_forward :
      (p : ℕ) (sp : UdpStream F)
      → sp.packet_count < p
      → p < 2 ^ 63
      → sp.cnt_error ≤ sp.packet_count
      → count_packet p sp
        ≡ record sp { cnt_error = sp.cnt_error + (p - 1 - sp.packet_count); packet_count = p }
  unfolding count_packet
  count_forward p sp h k e = ground arith

  count_backward :
      (p : ℕ) (sp : UdpStream F)
      → p ≤ sp.packet_count
      → sp.packet_count < 2 ^ 63
      → 0 < sp.cnt_error
      → sp.cnt_error ≤ sp.packet_count
      → sp.outoforder_packets ≤ sp.packet_count
      → count_packet p sp
        ≡ record sp { outoforder_packets = sp.outoforder_packets + 1; cnt_error = sp.cnt_error - 1 }
  unfolding count_packet
  count_backward p sp h k e f o = ground arith

  -- The counters after one more packet.
  abbrev Counted : ℕ → UdpStream F → UdpStream F → List ℕ → Type 0
  Counted p before after seen =
      Accounts after (p ∷ seen)
      × (after.packet_count ≡ max before.packet_count p)
      × (after.outoforder_packets
          ≡ before.outoforder_packets + (if ltb before.packet_count p then 0 else 1))

  count_packet-Counted :
      (p : ℕ) (sp : UdpStream F) (seen : List ℕ)
      → Accounts sp seen
      → 0 < p
      → p < 2 ^ 63
      → Distinct (p ∷ seen)
      → Counted p sp (count_packet p sp) seen
  count_packet-Counted p sp seen h pos fit d = elim (Bool-cases (ltb sp.packet_count p)) [
    | inl forward ↦
        let lt = ltb→lt _ _ forward in
        rw (count_forward p sp lt fit (omega (arith, h.lost))) (
          record {
            below = (pos, le_refl p, Below-mono sp.packet_count p seen (omega arith) h.below);
            fits = fit;
            lost = omega (arith, h.lost);
            small = omega (arith, h.small);
          },
          omega arith,
          ground arith,
        )
    | inr backward ↦
        let le : p ≤ sp.packet_count = ground arith in
        let room = pigeonhole sp.packet_count (p ∷ seen) (pos, le, h.below) d in
        rw
          (count_backward p sp le h.fits (omega (arith, h.lost)) (omega (arith, h.lost))
            (omega (arith, h.small, h.lost)))
          (
            record {
              below = (pos, le, h.below);
              fits = h.fits;
              lost = omega (arith, h.lost, room);
              small = omega (arith, h.small);
            },
            omega arith,
            ground arith,
          )
  ]

  -- From what was seen to what is yet to come.
  count_packets-Accounts :
      (ps seen : List ℕ) (sp : UdpStream F)
      → Accounts sp seen
      → InRange ps
      → ((x : ℕ) → count x seen + count x ps ≤ 1)
      → let after = count_packets sp ps in
        (after.packet_count ≡ highest sp.packet_count ps)
        × (after.cnt_error + length seen + length ps ≡ highest sp.packet_count ps)
        × (after.outoforder_packets ≡ sp.outoforder_packets + late sp.packet_count ps)
  unfolding count_packets
  count_packets-Accounts [] seen sp h range d = (refl, omega (arith, h.lost), omega arith)
  count_packets-Accounts (p ∷ ps) seen sp h (pos, fit, range) d =
      let (acc, top, ooo) = count_packet-Counted p sp seen h pos fit (λ x. omega (arith, d x)) in
      let (a, b, c) =
        count_packets-Accounts ps (p ∷ seen) (count_packet p sp) acc range
          (λ x. omega (arith, d x)) in
      let eh = ap (λ m. highest m ps) top in
      let el = ap (λ m. late m ps) top in (a ∙ eh, omega (arith, b, eh), ground (arith, c, el, ooo))

  -- However the packets of a test are lost or reordered on the way, if none comes twice, then the
  -- receiver ends with the highest sequence number that came, with exactly the numbers up to it that
  -- did not come counted as lost, and with one reordered packet for each that came after a higher
  -- one. It starts from counters of 0, and the numbers are positive and fit an int64_t.
  pub count_packets_exact :
      (ps : List ℕ) (sp : UdpStream F)
      → sp.packet_count ≡ 0
      → sp.cnt_error ≡ 0
      → sp.outoforder_packets ≡ 0
      → InRange ps
      → Distinct ps
      → let after = count_packets sp ps in
        (after.packet_count ≡ highest 0 ps)
        × (after.cnt_error + length ps ≡ highest 0 ps)
        × (after.outoforder_packets ≡ late 0 ps)
  count_packets_exact ps sp p0 e0 o0 range d =
      let start : Accounts sp [] = record {
        below = tt;
        fits = omega arith;
        lost = omega arith;
        small = omega arith;
      } in
      let (a, b, c) = count_packets-Accounts ps [] sp start range (λ x. omega (arith, d x)) in
      let eh = ap (λ m. highest m ps) p0 in
      let el = ap (λ m. late m ps) p0 in (a ∙ eh, omega (arith, b, eh), omega (arith, c, el, o0))
