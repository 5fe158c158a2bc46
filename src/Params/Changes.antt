-- ===== src/Params/Changes.antt =====
-- src/iperf_api.c: which fields the branching steps of `get_parameters` change.
use iperf3_windows_msvc.Prelude.{ℕ, ◌≡◌, ◌&&◌, refl, ap, Bool, true, false, if◌then◌else◌}
use iperf3_windows_msvc.Prelude.Int.{ℤ, pos, pos_part, ltb_ℤ, ◌==ℤ◌, ◌*ℤ◌}
use iperf3_windows_msvc.Control.{Mode, bidirectional}
use iperf3_windows_msvc.Params.Words.{quot}
use iperf3_windows_msvc.Params.Get.{derive_gso, check_limits, refuse_if, over_limit, too_long, turn}
use iperf3_windows_msvc.Params.{
  ietotalrate, iemaxservertestdurationexceeded, server, Params, same_protocol, pudp, direction,
  set_test_reverse, set_test_bidirectional, check_sender_has_retransmits,
}

-- The tests at the end change `i_errno` at most.
abbrev pub SameButErrno : Params → ℤ × Params → Type 0
SameButErrno p q = (e : ℕ) × (q.1 ≡ record p { i_errno = e })

refuse_if-SameButErrno :
    (test : Bool) (code : ℕ) (p : Params) (q : ℤ × Params)
    → SameButErrno p q
    → SameButErrno p (refuse_if test code q)
refuse_if-SameButErrno true code p q (e, h) =
    (code, ap {A = Params} (λ x. record x { i_errno = code }) h)
refuse_if-SameButErrno false code p q h = h

pub check_limits-SameButErrno : (r : ℤ) (p : Params) → SameButErrno p (check_limits (r, p))
unfolding check_limits
check_limits-SameButErrno r p = refuse_if-SameButErrno (over_limit p p.fqrate) ietotalrate p _ (
    refuse_if-SameButErrno (over_limit p p.rate) ietotalrate p _ (
      refuse_if-SameButErrno (too_long p) iemaxservertestdurationexceeded p (r, p)
        (p.i_errno, refl)))

-- The size of a datagram and of a buffer, from the switch for segmentation, these two sizes and the size
-- of a block. For an old client, which sends no size of a datagram, they come of the size of a block.
abbrev pub derived : Bool → ℤ → ℤ → Bool
derived udp gso dg = udp && (gso ==ℤ pos 1) && (dg ==ℤ pos 0)

abbrev pub datagram_size : Bool → ℤ → ℤ → ℤ
datagram_size old dg size = if old then (if ltb_ℤ (pos 0) size then size else pos 1460) else dg

abbrev pub buffer_size : Bool → ℤ → ℤ → ℤ
buffer_size old bf size =
    if old then (if ltb_ℤ (pos 0) size then quot bf (pos_part size) *ℤ size else bf) else bf

-- The derivation for old clients changes two sizes at most.
abbrev pub SameButGso : Params → Params → Type 0
SameButGso p q =
    let old = derived (same_protocol p.protocol pudp) p.gso p.gso_dg_size in
    (dg : ℤ) × (bf : ℤ) × (q ≡ record p { gso_dg_size = dg; gso_bf_size = bf })
    × (dg ≡ datagram_size old p.gso_dg_size p.blksize)
    × (bf ≡ buffer_size old p.gso_bf_size p.blksize)

gso_sized :
    (p : Params) (old positive : Bool)
    → let size = p.blksize in
      let sized = record p {
        gso_dg_size = size;
        gso_bf_size = quot p.gso_bf_size (pos_part size) *ℤ size;
      } in
      (dg : ℤ) × (bf : ℤ) × ((if old
          then (if positive then sized else record p { gso_dg_size = pos 1460 })
          else p)
        ≡ record p { gso_dg_size = dg; gso_bf_size = bf })
      × (dg ≡ (if old then (if positive then size else pos 1460) else p.gso_dg_size))
      × (bf ≡ (
          if old
          then (if positive then quot p.gso_bf_size (pos_part size) *ℤ size else p.gso_bf_size)
          else p.gso_bf_size))
gso_sized p false positive = (_, _, refl, refl, refl)
gso_sized p true false = (_, _, refl, refl, refl)
gso_sized p true true = (_, _, refl, refl, refl)

pub derive_gso-SameButGso : (p : Params) → SameButGso p (derive_gso p)
unfolding derive_gso
derive_gso-SameButGso p =
    gso_sized p (derived (same_protocol p.protocol pudp) p.gso p.gso_dg_size)
      (ltb_ℤ (pos 0) p.blksize)

-- The calls that set the direction change these fields at most, and set what the two flags ask for.
abbrev pub SameButMode : Bool → Bool → Params → Params → Type 0
SameButMode r b p q =
    (m : Mode) × (x : Bool) × (y : Bool) × (z : Bool) × (q
      ≡ record p { mode = m; reverse = x; bidir = y; sender_has_retransmits = z })
    × (m ≡ (if b then bidirectional else direction server r))

pub turn-SameButMode :
    (has_tcpinfo r b : Bool) (p : Params)
    → p.role ≡ server
    → p.mode ≡ direction server false
    → SameButMode r b p (turn has_tcpinfo r b p)
unfolding turn set_test_reverse set_test_bidirectional check_sender_has_retransmits
turn-SameButMode has_tcpinfo false false p is_server fresh = (_, _, _, _, refl, fresh)
turn-SameButMode has_tcpinfo true false p is_server fresh =
    (_, _, _, _, refl, ap (λ role. direction role true) is_server)
turn-SameButMode has_tcpinfo false true p is_server fresh = (_, _, _, _, refl, refl)
turn-SameButMode has_tcpinfo true true p is_server fresh = (_, _, _, _, refl, refl)
