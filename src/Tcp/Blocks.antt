-- ===== src/Tcp/Blocks.antt =====
-- src/iperf_tcp.c, src/iperf_api.c: the blocks that the test counts are those that a stream has sent.
use iperf3_windows_msvc.Prelude.{
  Bool-cases, ℕ, ◌+◌, ◌-◌, ◌*◌, ◌%◌, ◌^◌, ◌≤◌, ◌<◌, ◌≡◌, refl, ap, ◌⊎◌, inl, inr, sym, append-nil,
  Bool, true, false, some, ◌++◌, length, take, ◌==◌, if◌then◌else◌, arith,
}
use iperf3_windows_msvc.Prelude.Int.{ℤ, pos, negsuc, pos_part}
use iperf3_windows_msvc.Net.{nwrite, Bytes, Sys, net_softerror, net_harderror}
use iperf3_windows_msvc.Net.Write.{Accepts, nwrite_front}
use iperf3_windows_msvc.Tcp.{TcpStream, account_send, next_block, tcp_send}
use iperf3_windows_msvc.Rate.Send.{Sender, count_message}

-- The bytes of the test are those of its whole blocks and of the block that is not over.
pub record InBlocks {W : Type 0} (blksize : ℕ) (t : Sender W) : Type 0 where
  pub small : t.pending_size ≤ blksize
  pub bytes :
      t.bytes_sent + t.pending_size
      ≡ t.blocks_sent * blksize + (if t.pending_size == 0 then 0 else blksize)

-- What iperf_send_mt counts after a send that answered `r`; after an error it counts nothing.
abbrev pub count_answer : {W : Type 0} → ℤ → TcpStream → Sender W → Sender W
count_answer (negsuc n) sp t = record t { pending_size = sp.pending_size }
count_answer (pos r) sp t = count_message r (record t { pending_size = sp.pending_size })

next_product : (a k : ℕ) → (a + 1) * k ≡ a * k + k
next_product a k = omega arith

account_send-InBlocks :
    {W : Type 0} (r : ℤ) (sp : TcpStream) (t : Sender W)
    → 0 < sp.blksize
    → sp.pending_size ≡ t.pending_size
    → pos_part r ≤ (next_block sp).pending_size
    → t.bytes_sent + sp.blksize < 2 ^ 64
    → t.blocks_sent + 1 < 2 ^ 64
    → InBlocks sp.blksize t
    → InBlocks sp.blksize (count_answer r (account_send r (next_block sp)) t)
unfolding account_send
account_send-InBlocks (negsuc n) sp t positive same le fits fits' h = record {
  small = ground (arith, same, h.small);
  bytes = ground (arith, same, h.bytes, positive);
}
account_send-InBlocks (pos r) sp t positive same le fits fits' h = record {
  small = ground (arith, same, le, h.small);
  bytes =
      let wrap : (t.blocks_sent + 1) % 2 ^ 64 ≡ t.blocks_sent + 1 = omega arith in
      elim (Bool-cases ((next_block sp).pending_size - r == 0)) [
        | inl e ↦
            rw (e, wrap)
              (ground (arith, same, le, h.small, h.bytes, next_product t.blocks_sent sp.blksize))
        | inr e ↦ rw e (ground (arith, same, le, h.small, h.bytes))
      ];
}

answer_bounded :
    (r : ℤ) (taken pending : ℕ)
    → (r ≡ pos taken) ⊎ (((r ≡ net_softerror) ⊎ (r ≡ net_harderror)) × (taken < pending))
    → taken ≤ pending
    → (pos_part r ≤ pending) × ((r ≡ pos taken) ⊎ ((r ≡ net_softerror) ⊎ (r ≡ net_harderror)))
answer_bounded r taken pending (inl e) le = (omega (arith, ap pos_part e, le), inl e)
answer_bounded r taken pending (inr (inl e, less)) le = (omega (arith, ap pos_part e), inr (inl e))
answer_bounded r taken pending (inr (inr e, less)) le = (omega (arith, ap pos_part e), inr (inr e))

tcp_send_lem :
    {W : Type 0} (sys : Sys W) (sp : TcpStream) (w : W) (answer : ℤ × W)
    → nwrite sys sp.socket sp.buffer (next_block sp).pending_size w ≡ some answer
    → tcp_send sys false sp w ≡ some (answer.0, account_send (answer.0) (next_block sp), answer.1)
unfolding tcp_send
tcp_send_lem sys sp w answer runs = rw (tcp_send, runs) refl

-- What a round of sending leaves: bytes of the buffer went to the kernel, in order, and the counters
-- are those of the blocks.
pub record IsSent {W V : Type 0} (sent : W → Bytes) (sp : TcpStream) (w : W) (t : Sender V) (r : ℤ)
    (sp1 : TcpStream) (w1 : W) : Type 0 where
  pub taken : ℕ
  pub front : sent w1 ≡ sent w ++ take taken sp.buffer
  pub answer : (r ≡ pos taken) ⊎ ((r ≡ net_softerror) ⊎ (r ≡ net_harderror))
  pub counters : InBlocks sp.blksize (count_answer r sp1 t)

-- The sending by Nwrite.
written-IsSent :
    {W V : Type 0} (sys : Sys W) (sent : W → Bytes) (sp : TcpStream) (t : Sender V) (w : W)
    → ((xs : Bytes) (v : W) → Accepts sent xs (sent v) (sys.write sp.socket xs v))
    → 0 < sp.blksize
    → sp.blksize < 2 ^ 31
    → sp.blksize ≤ length sp.buffer
    → sp.pending_size ≡ t.pending_size
    → t.bytes_sent + sp.blksize < 2 ^ 64
    → t.blocks_sent + 1 < 2 ^ 64
    → InBlocks sp.blksize t
    → (r : ℤ) × (sp1 : TcpStream) × (w1 : W) × (tcp_send sys false sp w ≡ some (r, sp1, w1))
      × IsSent sent sp w t r sp1 w1
written-IsSent sys sent sp t w kernel positive small whole same fits fits' h =
    let pending = (next_block sp).pending_size in
    let size : pending ≤ sp.blksize = ground (arith, same, h.small) in
    let (answer, runs, written) =
      nwrite_front sys sp.socket sent sp.buffer pending w (omega (arith, size))
        (omega (arith, size)) kernel in
    let (bounded, result) =
      answer_bounded (answer.0) written.taken pending written.result written.fits in
    (
      answer.0,
      account_send (answer.0) (next_block sp),
      answer.1,
      tcp_send_lem sys sp w answer runs,
      record {
        taken = written.taken;
        front = written.front;
        answer = result;
        counters = account_send-InBlocks (answer.0) sp t positive same bounded fits fits' h;
      },
    )

-- In a test of one stream, iperf_tcp_send always returns, and with the counting of iperf_send_mt it keeps
-- the account of the blocks: after any answer, the bytes of the test and what is pending make whole
-- blocks, of which all are counted but the one that is pending. The build has no sendfile(2), as on
-- Windows; the kernel takes bytes off the front of what it is given; the block is not larger than the
-- buffer and fits an int, and the counters fit 64 bits.
pub tcp_send-InBlocks :
    {W V : Type 0} (sys : Sys W) (sent : W → Bytes) (zerocopy : Bool) (sp : TcpStream)
    (t : Sender V) (w : W)
    → ((xs : Bytes) (v : W) → Accepts sent xs (sent v) (sys.write sp.socket xs v))
    → 0 < sp.blksize
    → sp.blksize < 2 ^ 31
    → sp.blksize ≤ length sp.buffer
    → sp.pending_size ≡ t.pending_size
    → t.bytes_sent + sp.blksize < 2 ^ 64
    → t.blocks_sent + 1 < 2 ^ 64
    → InBlocks sp.blksize t
    → (r : ℤ) × (sp1 : TcpStream) × (w1 : W) × (tcp_send sys zerocopy sp w ≡ some (r, sp1, w1))
      × IsSent sent sp w t r sp1 w1
unfolding tcp_send
tcp_send-InBlocks sys sent false sp t w kernel positive small whole same fits fits' h =
    written-IsSent sys sent sp t w kernel positive small whole same fits fits' h
tcp_send-InBlocks sys sent true sp t w kernel positive small whole same fits fits' h = (
  net_harderror,
  account_send net_harderror (next_block sp),
  w,
  refl,
  record {
    taken = 0;
    front = sym (append-nil (sent w));
    answer = inr (inr refl);
    counters = account_send-InBlocks net_harderror sp t positive same (omega arith) fits fits' h;
  },
)
