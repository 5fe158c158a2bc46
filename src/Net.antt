-- ===== src/Net.antt =====
-- src/net.c: the loops that read and write a socket. The system calls are a parameter.
pub mod Loop
pub mod Recv
pub mod Write
pub mod Whole
pub mod Offload
mod Examples
use Prim.Native.Nat.{bit_and}
use iperf3_windows_msvc.Prelude.{
  ℕ, zero, suc, ◌+◌, ◌-◌, ◌*◌, ◌%◌, ◌^◌, ◌≡◌, ◌≤◌, Bool, true, false, ◌||◌, List, [], ◌∷◌, ◌++◌,
  Option, none, some, length, take, drop, ltb, ◌==◌, if◌then◌else◌,
}
use iperf3_windows_msvc.Prelude.Int.{ℤ, pos, negsuc, ltb_ℤ}
use iperf3_windows_msvc.Time.{IperfTime, time_add_usecs, time_compare}

abbrev pub Bytes : Type 0
Bytes = List ℕ

-- The values of `errno` that the code tells apart.
pub data Errno : Type 0 where
  eintr eagain ewouldblock enobufs : Errno
  other : ℕ → Errno

-- What read(2), recv(2) or write(2) answer: the result, with the bytes put into the buffer, or -1.
pub data Answer : Type 0 where
  got : ℕ → Bytes → Answer
  failed : Errno → Answer

-- select(2) on one descriptor, with a timeout.
pub data Selected : Type 0 where
  ready expired broken : Selected

-- The system calls that the loops make; `W` is the state of the world outside the process.
pub record Sys (W : Type 0) : Type 0 where
  pub msg_trunc : ℕ
  pub select : ℕ → IperfTime → W → Selected × W
  pub read : ℕ → ℕ → W → Answer × W
  pub recv : ℕ → ℕ → ℕ → W → Answer × W
  pub write : ℕ → Bytes → W → Answer × W
  pub now : W → IperfTime × W
  -- recvmsg(2), with the segment size of a UDP_GRO control message.
  pub recvmsg : ℕ → ℕ → W → (Answer × Option ℕ) × W
  -- sendmsg(2), with the segment size of a UDP_SEGMENT control message.
  pub sendmsg : ℕ → Bytes → ℕ → W → Answer × W

abbrev pub net_softerror : ℤ
net_softerror = negsuc 0

abbrev pub net_harderror : ℤ
net_harderror = negsuc 1

abbrev pub nread_read_timeout : IperfTime
nread_read_timeout = record { secs = 10; usecs = 0 }

abbrev pub nread_overall_timeout : ℕ
nread_overall_timeout = 30

-- size_t a - b
abbrev pub sub64 : ℕ → ℕ → ℕ
sub64 a b = (a + 2 ^ 64 - b) % 2 ^ 64

-- A size_t returned as an int.
abbrev pub to_int : ℕ → ℤ
to_int n = let w = n % 2 ^ 32 in if ltb w (2 ^ 31) then pos w else negsuc (2 ^ 32 - w - 1)

-- `errno == EINTR || errno == EAGAIN || errno == EWOULDBLOCK`
abbrev pub is_transient : Errno → Bool
is_transient eintr = true
is_transient eagain = true
is_transient ewouldblock = true
is_transient enobufs = false
is_transient (other _) = false

-- How far one answer moves the buffer: with MSG_TRUNC the result may exceed what was copied.
abbrev pub advance : ℕ → ℕ → ℕ → ℕ → ℕ
advance msg_trunc sock_opt nleft r =
    if bit_and sock_opt msg_trunc == 0 then r else if ltb nleft r then nleft else r

-- One round of a loop: it returns, or it goes on from a new state.
pub data Round {ℓ} (A S : Type ℓ) : Type ℓ where
  return : A → Round A S
  continue : S → Round A S

-- A loop on fuel; `none` is a loop that is still running when the fuel ends.
unfoldable pub loop {ℓ} : {A S : Type ℓ} → (S → Round A S) → ℕ → S → Option A
loop body zero s = none
loop body (suc fuel) s = elim (body s) [ return a ↦ some a | continue s' ↦ loop body fuel s' ]

-- The variables of the loop of `Nrecv`; `buf` is what has been put into the buffer.
pub record Receiving (W : Type 0) : Type 0 where
  pub nleft : ℕ
  pub ftimeout : IperfTime
  pub buf : Bytes
  pub world : W

-- The variables of the loop of `Nwrite`; `rest` is what `buf` points to.
pub record Writing (W : Type 0) : Type 0 where
  pub nleft : ℕ
  pub rest : Bytes
  pub world : W

module _ {W : Type 0} (sys : Sys W) where
  -- `if (sock_opt) recv(…) else read(…)`
  receive : ℕ → ℕ → ℕ → W → Answer × W
  receive fd nleft sock_opt w =
      if sock_opt == 0 then sys.read fd nleft w else sys.recv fd nleft sock_opt w

  -- `ftimeout` is set at the first partial result.
  deadline : IperfTime → IperfTime → IperfTime
  deadline ftimeout now =
      if ftimeout.secs == 0 then time_add_usecs now (nread_overall_timeout * 1000000) else ftimeout

  -- What the second `select` decides.
  selected : ℕ → Receiving W → IperfTime → Selected × W → Round (ℤ × Bytes × W) (Receiving W)
  selected count s ftimeout (broken, w) = return (net_harderror, s.buf, w)
  selected count s ftimeout (expired, w) = return (to_int (sub64 count s.nleft), s.buf, w)
  selected count s ftimeout (ready, w) = continue (record s { ftimeout = ftimeout; world = w })

  -- After a partial result: go on only if the time is not up and `select` finds more.
  await : ℕ → ℕ → Receiving W → Round (ℤ × Bytes × W) (Receiving W)
  unfolding deadline selected time_compare time_add_usecs
  await fd count s =
      let (now, w) = sys.now s.world in
      let ftimeout = deadline s.ftimeout now in
      if ltb_ℤ (time_compare ftimeout now) (pos 0)
      then return (to_int (sub64 count s.nleft), s.buf, w)
      else selected count s ftimeout (sys.select fd nread_read_timeout w)

  -- The answer of the read.
  absorb : ℕ → ℕ → ℕ → Receiving W → Answer × W → Round (ℤ × Bytes × W) (Receiving W)
  unfolding await
  absorb fd count sock_opt s (failed e, w) =
      if is_transient e
      then return (to_int (sub64 count s.nleft), s.buf, w)
      else return (net_harderror, s.buf, w)
  absorb fd count sock_opt s (got zero bytes, w) = return (to_int (sub64 count s.nleft), s.buf, w)
  absorb fd count sock_opt s (got (suc r) bytes, w) =
      let nleft = sub64 s.nleft (advance sys.msg_trunc sock_opt s.nleft (suc r)) in
      let s' = record s { nleft = nleft; buf = s.buf ++ bytes; world = w } in
      if ltb 0 nleft then await fd count s' else continue s'

  -- The body of `while (nleft > 0)` in `Nrecv`.
  recv_body : ℕ → ℕ → ℕ → Receiving W → Round (ℤ × Bytes × W) (Receiving W)
  unfolding receive absorb
  recv_body fd count sock_opt s =
      if ltb 0 s.nleft
      then absorb fd count sock_opt s (receive fd s.nleft sock_opt s.world)
      else return (to_int (sub64 count s.nleft), s.buf, s.world)

  -- The variables of `Nrecv` before its loop.
  start : ℕ → W → Receiving W
  start count w = record {
    nleft = count;
    ftimeout = record { secs = 0; usecs = 0 };
    buf = [];
    world = w;
  }

  -- `Nrecv` after its first `select`.
  enter : ℕ → ℕ → ℕ → Selected × W → Option (ℤ × Bytes × W)
  unfolding recv_body loop start
  enter fd count sock_opt (broken, w) = some (net_harderror, [], w)
  enter fd count sock_opt (expired, w) = some (pos 0, [], w)
  enter fd count sock_opt (ready, w) =
      loop (recv_body fd count sock_opt) (suc count) (start count w)

  -- The int that `Nrecv` returns, what it put into the buffer, and the world afterwards.
  unfoldable pub nrecv : ℕ → ℕ → ℕ → W → Option (ℤ × Bytes × W)
  unfolding enter
  nrecv fd count sock_opt w = enter fd count sock_opt (sys.select fd nread_read_timeout w)

  unfoldable pub nread : ℕ → ℕ → W → Option (ℤ × Bytes × W)
  unfolding nrecv
  nread fd count w = nrecv fd count 0 w

  -- The answer of the read in `Nrecv_no_select`.
  absorb_no_select : ℕ → ℕ → Receiving W → Answer × W → Round (ℤ × Bytes × W) (Receiving W)
  absorb_no_select count sock_opt s (failed e, w) =
      if is_transient e
      then return (to_int (sub64 count s.nleft), s.buf, w)
      else return (net_harderror, s.buf, w)
  absorb_no_select count sock_opt s (got zero bytes, w) =
      return (to_int (sub64 count s.nleft), s.buf, w)
  absorb_no_select count sock_opt s (got (suc r) bytes, w) =
      let nleft = sub64 s.nleft (advance sys.msg_trunc sock_opt s.nleft (suc r)) in
      continue (record s { nleft = nleft; buf = s.buf ++ bytes; world = w })

  recv_no_select_body : ℕ → ℕ → ℕ → Receiving W → Round (ℤ × Bytes × W) (Receiving W)
  unfolding receive absorb_no_select
  recv_no_select_body fd count sock_opt s =
      if ltb 0 s.nleft
      then absorb_no_select count sock_opt s (receive fd s.nleft sock_opt s.world)
      else return (to_int (sub64 count s.nleft), s.buf, s.world)

  unfoldable pub nrecv_no_select : ℕ → ℕ → ℕ → W → Option (ℤ × Bytes × W)
  unfolding recv_no_select_body loop start
  nrecv_no_select fd count sock_opt w =
      loop (recv_no_select_body fd count sock_opt) (suc count) (start count w)

  unfoldable pub nread_no_select : ℕ → ℕ → W → Option (ℤ × Bytes × W)
  unfolding nrecv_no_select
  nread_no_select fd count w = nrecv_no_select fd count 0 w

  -- The answer of the write, by the `switch` on `errno`.
  emit : ℕ → Writing W → Answer × W → Round (ℤ × W) (Writing W)
  emit count s (failed enobufs, w) = return (net_softerror, w)
  emit count s (failed (other n), w) = return (net_harderror, w)
  emit count s (failed e, w) =
      if count == s.nleft
      then return (net_softerror, w)
      else return (to_int (sub64 count s.nleft), w)
  emit count s (got zero bytes, w) = return (net_softerror, w)
  emit count s (got (suc r) bytes, w) =
      continue (record { nleft = sub64 s.nleft (suc r); rest = drop (suc r) s.rest; world = w })

  -- The body of `while (nleft > 0)` in `Nwrite`; write(2) is given the first `nleft` bytes.
  write_body : ℕ → ℕ → Writing W → Round (ℤ × W) (Writing W)
  unfolding emit
  write_body fd count s =
      if ltb 0 s.nleft
      then emit count s (sys.write fd (take s.nleft s.rest) s.world)
      else return (to_int count, s.world)

  unfoldable pub nwrite : ℕ → Bytes → ℕ → W → Option (ℤ × W)
  unfolding write_body loop
  nwrite fd buf count w =
      loop (write_body fd count) (suc count) (record { nleft = count; rest = buf; world = w })
