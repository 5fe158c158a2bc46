-- ===== src/Net/Whole.antt =====
-- src/net.c: `Nread` and `Nwrite` where the kernel has, or takes, all of the bytes at once.
use iperf3_windows_msvc.Prelude.{
  ℕ, zero, suc, ◌^◌, ◌<◌, ◌≡◌, refl, sym, ◌∙◌, ap, some, [], ◌∷◌, ◌++◌, arith, length, take, drop,
  lt→ltb,
}
use iperf3_windows_msvc.Prelude.Int.{pos}
use iperf3_windows_msvc.Time.{IperfTime}
use iperf3_windows_msvc.Net.Loop.{loop-return, loop-continue}
use iperf3_windows_msvc.Net.Recv.{advance-zero}
use iperf3_windows_msvc.Net.{
  Bytes, got, Selected, ready, Sys, Receiving, Writing, return, continue, sub64, to_int,
  nread_read_timeout, recv_body, start, enter, absorb, receive, nrecv, nread, emit, write_body,
  nwrite,
}

-- A descriptor that is always ready, and of which a read takes all that is asked for if it is there.
pub record IsLocal {W : Type 0} (sys : Sys W) (fd : ℕ) (incoming : W → Bytes) : Type 0 where
  pub is_ready : (t : IperfTime) (w : W) → (sys.select fd t w).0 ≡ ready
  pub reads :
      (n : ℕ) (w : W) (front rest : Bytes)
      → length front ≡ n
      → incoming w ≡ front ++ rest
      → (v : W) × (sys.read fd n w ≡ (got n front, v)) × (incoming v ≡ rest)

module _ {W : Type 0} (sys : Sys W) (fd : ℕ) (incoming : W → Bytes)
    (quiet : (t : IperfTime) (w : W) → incoming (sys.select fd t w).1 ≡ incoming w)
    (near : IsLocal sys fd incoming) where
  enter_ready :
      (count : ℕ) (a : Selected × W)
      → a.0 ≡ ready
      → enter sys fd count 0 a ≡ enter sys fd count 0 (ready, a.1)
  enter_ready count a e = ap (λ s. enter sys fd count 0 (s, a.1)) e

  -- The two rounds of the loop.
  two_rounds :
      (n : ℕ) (front : Bytes) (w v : W)
      → suc n < 2 ^ 31
      → sys.read fd (suc n) w ≡ (got (suc n) front, v)
      → enter sys fd (suc n) 0 (ready, w) ≡ some (pos (suc n), front, v)
  unfolding enter start recv_body receive absorb
  two_rounds n front w v small e =
      loop-continue (recv_body sys fd (suc n) 0) (suc n) before first
      ∙ loop-return (recv_body sys fd (suc n) 0) n after second
    where
      none_left : sub64 (suc n) (suc n) ≡ 0
      none_left = ground arith

      before : Receiving W
      before = record {
        nleft = suc n;
        ftimeout = record { secs = 0; usecs = 0 };
        buf = [];
        world = w;
      }

      after : Receiving W
      after = record {
        nleft = 0;
        ftimeout = record { secs = 0; usecs = 0 };
        buf = front;
        world = v;
      }

      first : recv_body sys fd (suc n) 0 before ≡ continue after
      first = rw (lt→ltb 0 (suc n) (omega arith), e, advance-zero, none_left) refl

      second : recv_body sys fd (suc n) 0 after ≡ return (pos (suc n), front, v)
      second = ap (λ r. return (r, front, v)) full
        where
          full : to_int (sub64 (suc n) 0) ≡ pos (suc n)
          full = ground arith

  -- `Nread` gets all of it.
  pub nread_whole :
      (front rest : Bytes) (w : W)
      → 0 < length front
      → length front < 2 ^ 31
      → incoming w ≡ front ++ rest
      → (v : W) × (nread sys fd (length front) w ≡ some (pos (length front), front, v))
        × (incoming v ≡ rest)
  unfolding nread nrecv
  nread_whole front rest w some_bytes small e = go (length front) refl some_bytes small
    where
      go :
          (n : ℕ)
          → length front ≡ n
          → 0 < n
          → n < 2 ^ 31
          → (v : W) × (nread sys fd n w ≡ some (pos n, front, v)) × (incoming v ≡ rest)
      go zero len h small = absurd (omega arith)
      go (suc n) len h small =
          let a = sys.select fd nread_read_timeout w in
          let (v, took, left) = near.reads (suc n) a.1 front rest len (quiet _ w ∙ e) in
          (v, enter_ready (suc n) a (near.is_ready _ w) ∙ two_rounds n front a.1 v small took, left)

take-length : (xs : Bytes) → take (length xs) xs ≡ xs
take-length [] = refl
take-length (x ∷ xs) = ap (λ ys. x ∷ ys) (take-length xs)

module _ {W : Type 0} (sys : Sys W) (fd : ℕ) (sent : W → Bytes)
    (takes : (xs : Bytes) (w : W)
      → (v : W) × (bytes : Bytes) × (sys.write fd xs w ≡ (got (length xs) bytes, v))
        × (sent v ≡ sent w ++ xs)) where
  -- `Nwrite` sends all of it.
  pub nwrite_whole :
      (buf : Bytes) (w : W)
      → 0 < length buf
      → length buf < 2 ^ 31
      → (v : W) × (nwrite sys fd buf (length buf) w ≡ some (pos (length buf), v))
        × (sent v ≡ sent w ++ buf)
  unfolding nwrite write_body emit
  nwrite_whole buf w some_bytes small = go (length buf) refl some_bytes small
    where
      go :
          (n : ℕ)
          → length buf ≡ n
          → 0 < n
          → n < 2 ^ 31
          → (v : W) × (nwrite sys fd buf n w ≡ some (pos n, v)) × (sent v ≡ sent w ++ buf)
      go zero len h small = absurd (omega arith)
      go (suc n) len h small =
          let (v, bytes, took, more) = takes buf w in
          let whole : take (suc n) buf ≡ buf = ap (λ k. take k buf) (sym len) ∙ take-length buf in
          (
            v,
            loop-continue (write_body sys fd (suc n)) (suc n) sending (first v bytes whole took)
                ∙ loop-return (write_body sys fd (suc n)) n (sent_all v) (second v),
            more,
          )
        where
          sending : Writing W
          sending = record { nleft = suc n; rest = buf; world = w }

          sent_all : W → Writing W
          sent_all v = record { nleft = 0; rest = drop (suc n) buf; world = v }

          first :
              (v : W) (bytes : Bytes)
              → take (suc n) buf ≡ buf
              → sys.write fd buf w ≡ (got (length buf) bytes, v)
              → write_body sys fd (suc n) sending ≡ continue (sent_all v)
          first v bytes whole took =
              let none_left : sub64 (suc n) (suc n) ≡ 0 = ground arith in
              rw (lt→ltb 0 (suc n) (omega arith), whole, took, len, none_left) refl

          second : (v : W) → write_body sys fd (suc n) (sent_all v) ≡ return (pos (suc n), v)
          second v = ap (λ r. return (r, v)) (ground arith)
