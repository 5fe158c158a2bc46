-- ===== src/Net/Offload.antt =====
-- src/net.c: the calls for generic receive and segmentation offload.
use iperf3_windows_msvc.Prelude.{
  ℕ, zero, suc, ◌-◌, ◌||◌, [], Option, some, ltb, ◌==◌, if◌then◌else◌,
}
use iperf3_windows_msvc.Prelude.Int.{ℤ, pos, negsuc}
use iperf3_windows_msvc.Net.{
  Bytes, enobufs, Answer, got, failed, Sys, is_transient, net_softerror, net_harderror,
}

abbrev pub max_udp_blocksize : ℕ
max_udp_blocksize = 65535 - 8 - 20

-- `*gso_size` after `recv_msg_gro`: -1 unless a valid segment size came with data.
segment_size : ℕ → Answer → Option ℕ → ℤ
segment_size len (got (suc r) bytes) (some gso) =
    if gso == 0 || ltb len gso then negsuc 0 else pos gso
segment_size len answer cmsg = negsuc 0

-- `*dgram_sz` after `Nread_gro`: no larger than what was received.
clamp_segment : ℕ → ℤ → ℤ
clamp_segment r (pos (suc d)) = pos (if ltb r (suc d) then r else suc d)
clamp_segment r d = d

-- The returned int, `*dgram_sz` and the bytes in the buffer.
read_gro_result : ℕ → Answer → Option ℕ → ℤ × ℤ × Bytes
unfolding segment_size clamp_segment
read_gro_result count (failed e) cmsg =
    (if is_transient e then pos 0 else net_harderror, segment_size count (failed e) cmsg, [])
read_gro_result count (got zero bytes) cmsg = (pos 0, segment_size count (got zero bytes) cmsg, [])
read_gro_result count (got (suc r) bytes) cmsg =
    (pos (suc r), clamp_segment (suc r) (segment_size count (got (suc r) bytes) cmsg), bytes)

-- The answer of `udp_sendmsg_gso`, by the `switch` on `errno`.
write_gso_result : Answer → ℤ
write_gso_result (failed enobufs) = net_softerror
write_gso_result (failed e) = if is_transient e then pos 0 else net_harderror
write_gso_result (got r bytes) = pos r

module _ {W : Type 0} (sys : Sys W) where
  -- With `buf` and `dgram_sz` not NULL; `dgram_before` is what `*dgram_sz` held.
  unfoldable pub nread_gro : ℕ → ℕ → ℤ → W → (ℤ × ℤ × Bytes) × W
  unfolding read_gro_result
  nread_gro fd count dgram_before w =
      let limit = if ltb max_udp_blocksize count then max_udp_blocksize else count in
      let ((answer, cmsg), w1) = sys.recvmsg fd limit w in
      if count == 0
      then ((net_harderror, dgram_before, []), w)
      else (read_gro_result limit answer cmsg, w1)

  unfoldable pub nwrite_gso : ℕ → Bytes → ℕ → W → ℤ × W
  unfolding write_gso_result
  nwrite_gso fd buf gso_size w =
      let (answer, w1) = sys.sendmsg fd buf gso_size w in (write_gso_result answer, w1)
