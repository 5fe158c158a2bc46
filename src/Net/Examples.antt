-- ===== src/Net/Examples.antt =====
-- src/net.c: the loops against a kernel that moves at most three bytes at a time.
use iperf3_windows_msvc.Prelude.{
  none, ℕ, ◌≡◌, refl, sym, some, [], ◌∷◌, ◌++◌, arith, length, length-take, take, drop,
  take-append-drop, min,
}
use iperf3_windows_msvc.Prelude.Int.{ℤ, pos}
use iperf3_windows_msvc.Net.{Bytes, got, failed, eagain, ready, Sys, nread, nread_no_select, nwrite}
use iperf3_windows_msvc.Net.Recv.{IsStream, IsRead, nread_front, nread_no_select_front}
use iperf3_windows_msvc.Net.Write.{Accepts, IsWrite, nwrite_front}

-- What has yet to be read, and what has been written.
record Pipe : Type 0 where
  incoming : Bytes
  sent : Bytes

abbrev chunk : ℕ → Bytes → ℕ
chunk n xs = length (take (min n 3) xs)

abbrev pipe : Sys Pipe
pipe = record {
  msg_trunc = 0x20;
  select = λ fd t w. (ready, w);
  read = λ fd n w. (
    got (chunk n w.incoming) (take (min n 3) w.incoming),
    record w { incoming = drop (min n 3) w.incoming },
  );
  recv = λ fd n opt w. (
    got (chunk n w.incoming) (take (min n 3) w.incoming),
    record w { incoming = drop (min n 3) w.incoming },
  );
  write = λ fd xs w.
      (got (min (length xs) 3) [], record w { sent = w.sent ++ take (min (length xs) 3) xs });
  now = λ w. (record { secs = 5; usecs = 0 }, w);
  recvmsg = λ fd n w. ((failed eagain, none), w);
  sendmsg = λ fd xs gso w. (failed eagain, w);
}

abbrev eight : Bytes
eight = 1 ∷ 2 ∷ 3 ∷ 4 ∷ 5 ∷ 6 ∷ 7 ∷ 8 ∷ []

abbrev full : Pipe
full = record { incoming = eight; sent = [] }

-- Seven bytes come in three rounds.
read_seven : nread pipe 4 7 full ≡ some (pos 7, take 7 eight, record full { incoming = 8 ∷ [] })
unfolding nread
read_seven = refl

pipe-IsStream : IsStream pipe 4 (λ w. w.incoming)
pipe-IsStream = record {
  read_law = λ n w. (
    refl,
    omega (arith, length-take (min n 3) w.incoming),
    sym (take-append-drop (min n 3) w.incoming),
  );
  select_law = λ t w. refl;
  now_law = λ w. refl;
}

nread_front_example :
    (r : ℤ × Bytes × Pipe) × (nread pipe 4 7 full ≡ some r)
    × IsRead pipe 4 (λ w. w.incoming) 7 full r
nread_front_example = nread_front pipe 4 (λ w. w.incoming) pipe-IsStream 7 (omega arith) full

nread_no_select_front_example :
    (r : ℤ × Bytes × Pipe) × (nread_no_select pipe 4 9 full ≡ some r)
    × IsRead pipe 4 (λ w. w.incoming) 9 full r
nread_no_select_front_example =
    nread_no_select_front pipe 4 (λ w. w.incoming) pipe-IsStream 9 (omega arith) full

pipe-Accepts : (xs : Bytes) (w : Pipe) → Accepts (λ w. w.sent) xs w.sent (pipe.write 4 xs w)
pipe-Accepts xs w = (omega arith, refl)

nwrite_front_example :
    (r : ℤ × Pipe) × (nwrite pipe 4 eight 8 full ≡ some r)
    × IsWrite pipe 4 (λ w. w.sent) eight 8 full r
nwrite_front_example =
    nwrite_front pipe 4 (λ w. w.sent) eight 8 full (omega arith) (omega arith) pipe-Accepts
