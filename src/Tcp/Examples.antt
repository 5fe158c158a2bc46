-- ===== src/Tcp/Examples.antt =====
-- src/iperf_tcp.c: the theorem on blocks at a concrete stream.
use iperf3_windows_msvc.Prelude.{
  ◌≡◌, refl, true, false, [], ◌∷◌, ◌++◌, none, some, length, take, arith,
}
use iperf3_windows_msvc.Prelude.Int.{ℤ}
use iperf3_windows_msvc.Net.{Bytes, Answer, Selected, Sys}
use iperf3_windows_msvc.Net.Write.{Accepts}
use iperf3_windows_msvc.Tcp.{TcpStream, tcp_send}
use iperf3_windows_msvc.Tcp.Blocks.{IsSent, tcp_send-InBlocks}
use iperf3_windows_msvc.Rate.Send.{Sender}

-- A kernel that takes two bytes at a time; the world is what it has taken.
abbrev two_by_two : Sys Bytes
two_by_two = record {
  msg_trunc = 32;
  select = λ fd timeout w. (Selected.ready, w);
  read = λ fd n w. (Answer.got 0 [], w);
  recv = λ fd n flags w. (Answer.got 0 [], w);
  write = λ fd xs w. (Answer.got (length (take 2 xs)) [], w ++ take 2 xs);
  now = λ w. (record { secs = 1; usecs = 0 }, w);
  recvmsg = λ fd n w. ((Answer.got 0 [], none), w);
  sendmsg = λ fd xs n w. (Answer.got 0 [], w);
}

abbrev stream : TcpStream
stream = record {
  socket = 7;
  buffer = 1 ∷ 2 ∷ 3 ∷ 4 ∷ 5 ∷ [];
  blksize = 5;
  pending_size = 0;
  bytes_sent = 0;
  bytes_sent_this_interval = 0;
  bytes_received = 0;
  bytes_received_this_interval = 0;
}

abbrev counters : Sender (Unit {0})
counters = record {
  done = false;
  bytes_sent = 0;
  blocks_sent = 0;
  green_light = true;
  pending_size = 0;
  stream_bytes_sent = 0;
  start_time_fixed = record { secs = 0; usecs = 0 };
  world = tt;
}

take_two : (xs v : Bytes) → Accepts (λ w. w) xs v (two_by_two.write 7 xs v)
take_two [] v = (omega arith, refl)
take_two (a ∷ []) v = (omega arith, refl)
take_two (a ∷ b ∷ xs) v = (omega arith, refl)

tcp_send-InBlocks_example :
    (r : ℤ) × (sp1 : TcpStream) × (w1 : Bytes) × (tcp_send two_by_two false stream []
      ≡ some (r, sp1, w1))
    × IsSent (λ w. w) stream [] counters r sp1 w1
tcp_send-InBlocks_example =
    tcp_send-InBlocks two_by_two (λ w. w) false stream counters [] take_two (omega arith)
      (omega arith) (omega arith) refl (omega arith) (omega arith)
      (record { small = omega arith; bytes = refl })
