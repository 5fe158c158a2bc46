-- ===== src/Tcp.antt =====
-- src/iperf_tcp.c: what a TCP stream sends and receives.
pub mod Blocks
mod Examples
use iperf3_windows_msvc.Prelude.{
  ℕ, ◌+◌, ◌-◌, ◌%◌, ◌^◌, Bool, Option, none, some, ◌==◌, if◌then◌else◌,
}
use iperf3_windows_msvc.Prelude.Int.{ℤ, pos, negsuc}
use iperf3_windows_msvc.Net.{Bytes, Sys, net_harderror, nwrite, nrecv_no_select}

-- The fields of a stream that the TCP code reads or writes.
pub record TcpStream : Type 0 where
  pub socket : ℕ
  pub buffer : Bytes
  pub blksize : ℕ
  pub pending_size : ℕ
  pub bytes_sent : ℕ  -- uint64_t
  pub bytes_sent_this_interval : ℕ  -- uint64_t
  pub bytes_received : ℕ  -- uint64_t
  pub bytes_received_this_interval : ℕ  -- uint64_t

-- What a send that answered `r` changes; it sends no more than what is pending.
unfoldable pub account_send : ℤ → TcpStream → TcpStream
account_send (negsuc n) sp = sp
account_send (pos r) sp = record sp {
  pending_size = sp.pending_size - r;
  bytes_sent = (sp.bytes_sent + r) % 2 ^ 64;
  bytes_sent_this_interval = (sp.bytes_sent_this_interval + r) % 2 ^ 64;
}

-- Bytes count only while the test runs.
unfoldable pub account_receive : Bool → ℤ → TcpStream → TcpStream
account_receive test_running (negsuc n) sp = sp
account_receive test_running (pos r) sp =
    if test_running
    then record sp {
      bytes_received = (sp.bytes_received + r) % 2 ^ 64;
      bytes_received_this_interval = (sp.bytes_received_this_interval + r) % 2 ^ 64;
    }
    else sp

-- A block that is not over goes on; else the next one begins.
abbrev pub next_block : TcpStream → TcpStream
next_block sp = if sp.pending_size == 0 then record sp { pending_size = sp.blksize } else sp

-- Nsendfile in a build without sendfile(2), as on Windows: a hard error, and nothing is sent.
unfoldable pub nsendfile : {W : Type 0} → ℕ → W → ℤ × W
nsendfile count w = (net_harderror, w)

module _ {W : Type 0} (sys : Sys W) where
  -- `none` is a loop out of fuel.
  unfoldable pub tcp_send : Bool → TcpStream → W → Option (ℤ × TcpStream × W)
  unfolding account_send nsendfile
  tcp_send zerocopy sp w =
      let s = next_block sp in
      let answer =
        if zerocopy
        then some (nsendfile s.pending_size w)
        else nwrite sys sp.socket sp.buffer s.pending_size w in
      elim answer [ none ↦ none | some (r, w1) ↦ some (r, account_send r s, w1) ]

  unfoldable pub tcp_recv : Bool → Bool → TcpStream → W → Option (ℤ × TcpStream × W)
  unfolding account_receive
  tcp_recv skip_rx_copy test_running sp w =
      let sock_opt = if skip_rx_copy then sys.msg_trunc else 0 in
      elim (nrecv_no_select sys sp.socket sp.blksize sock_opt w) [
        | none ↦ none
        | some (r, bytes, w1) ↦
            some (r, account_receive test_running r (record sp { buffer = bytes }), w1)
      ]
