-- ===== src/Net/Recv.antt =====
-- src/net.c: what `Nread` and `Nread_no_select` return, and what they put into the buffer.
use Prim.Native.Nat.{bit_and, bit_and-bitwise}
use iperf3_windows_msvc.Prelude.{
  ℕ, zero, suc, ◌+◌, ◌^◌, ◌≤◌, ◌<◌, ◌≡◌, refl, sym, ◌∙◌, ap, ◌⊎◌, inl, inr, some, [], ◌∷◌, ◌++◌,
  append_assoc, arith, length, length-append, branches,
}
use iperf3_windows_msvc.Prelude.Int.{ℤ, pos}
use iperf3_windows_msvc.Time.{IperfTime}
use iperf3_windows_msvc.Net.Loop.{Keeps, loop_inv}
use iperf3_windows_msvc.Net.{
  Bytes, Answer, got, failed, Selected, ready, expired, broken, Sys, Receiving, Round, return,
  continue, sub64, to_int, net_harderror, nread_read_timeout, recv_body, recv_no_select_body, start,
  enter, absorb, absorb_no_select, await, selected, advance, receive, nrecv, nread, nrecv_no_select,
  nread_no_select,
}

-- An answer of read(2) on a byte stream that holds `xs`: at most the `n` bytes that were asked for,
-- off the front; an error takes nothing.
abbrev pub Delivers : {W : Type 0} → (W → Bytes) → ℕ → Bytes → Answer × W → Type 0
Delivers incoming n xs (got r bytes, w) = (length bytes ≡ r) × (r ≤ n) × (xs ≡ bytes ++ incoming w)
Delivers incoming n xs (failed e, w) = xs ≡ incoming w

-- The descriptor is a byte stream: `incoming` is what it has yet to deliver.
pub record IsStream {W : Type 0} (sys : Sys W) (fd : ℕ) (incoming : W → Bytes) : Type 0 where
  pub read_law : (n : ℕ) (w : W) → Delivers incoming n (incoming w) (sys.read fd n w)
  pub select_law : (t : IperfTime) (w : W) → incoming w ≡ incoming (sys.select fd t w).1
  pub now_law : (w : W) → incoming w ≡ incoming (sys.now w).1

zero-bit_and : (b : ℕ) → bit_and 0 b ≡ 0
zero-bit_and b = bit_and-bitwise 0 b

-- With no flag the buffer moves by the result.
pub advance-zero : (m n r : ℕ) → advance m 0 n r ≡ r
advance-zero m n r = rw zero-bit_and

module _ {W : Type 0} (sys : Sys W) (fd : ℕ) (incoming : W → Bytes) where
  -- What a caller of `Nread` gets: a hard error, or the number of bytes in the buffer; these are at
  -- most `count`, and they are the front of the stream.
  pub record IsRead (count : ℕ) (w : W) (r : ℤ × Bytes × W) : Type 0 where
    pub result : (r.0 ≡ net_harderror) ⊎ (r.0 ≡ pos (length r.1))
    pub fits : length r.1 ≤ count
    pub front : incoming w ≡ r.1 ++ incoming r.2

  record Inv (count : ℕ) (w : W) (s : Receiving W) : Type 0 where
    filled : length s.buf + s.nleft ≡ count
    so_far : incoming w ≡ s.buf ++ incoming s.world

  to_int_small : (n m : ℕ) → n + m < 2 ^ 31 → to_int (sub64 (n + m) m) ≡ pos n
  to_int_small n m h = ground arith

  stop :
      (count : ℕ) (w : W) (s : Receiving W) {w1 : W}
      → count < 2 ^ 31
      → Inv count w s
      → incoming s.world ≡ incoming w1
      → IsRead count w (to_int (sub64 count s.nleft), s.buf, w1)
  stop count w s small h e = record {
    result = inr (
        ap (λ c. to_int (sub64 c s.nleft)) (sym h.filled)
        ∙ to_int_small (length s.buf) s.nleft (omega arith));
    fits = omega arith;
    front = h.so_far ∙ ap (λ xs. s.buf ++ xs) e;
  }

  module _ (stream : IsStream sys fd incoming) (count : ℕ) (small : count < 2 ^ 31) (w : W) where
    Good : Receiving W → Round (ℤ × Bytes × W) (Receiving W) → Type 0
    Good s = Keeps (Inv count w) (IsRead count w) (λ t. t.nleft) s.nleft

    hard :
        (t : Receiving W) {w1 : W}
        → Inv count w t
        → incoming t.world ≡ incoming w1
        → IsRead count w (net_harderror, t.buf, w1)
    hard t h e = record {
      result = inl refl;
      fits = omega arith;
      front = h.so_far ∙ ap (λ xs. t.buf ++ xs) e;
    }

    stop-Good :
        (s t : Receiving W) {w1 : W}
        → Inv count w t
        → incoming t.world ≡ incoming w1
        → Good s (return (to_int (sub64 count t.nleft), t.buf, w1))
    unfolding Good
    stop-Good s t h e = stop count w t small h e

    hard-Good :
        (s t : Receiving W) {w1 : W}
        → Inv count w t
        → incoming t.world ≡ incoming w1
        → Good s (return (net_harderror, t.buf, w1))
    unfolding Good
    hard-Good s t h e = hard t h e

    continue-Good : (s t : Receiving W) → t.nleft < s.nleft → Inv count w t → Good s (continue t)
    unfolding Good
    continue-Good s t less h = (less, h)

    selected-Good :
        (s t : Receiving W) (limit : IperfTime) (a : Selected × W)
        → t.nleft < s.nleft
        → Inv count w t
        → incoming t.world ≡ incoming a.1
        → Good s (selected sys count t limit a)
    unfolding selected Good
    selected-Good s t limit (broken, w1) less h e = hard t h e
    selected-Good s t limit (expired, w1) less h e = stop count w t small h e
    selected-Good s t limit (ready, w1) less h e =
        (less, record { filled = h.filled; so_far = h.so_far ∙ ap (λ xs. t.buf ++ xs) e })

    await-Good :
        (s t : Receiving W) → t.nleft < s.nleft → Inv count w t → Good s (await sys fd count t)
    unfolding await
    await-Good s t less h =
        let e = stream.now_law t.world in
        branches (Good s) _ (stop-Good s t h e)
          (selected-Good s t _ _ less h (e ∙ stream.select_law _ _))

    took :
        (s : Receiving W) (r : ℕ) (bytes : Bytes) (w1 : W)
        → Inv count w s
        → length bytes ≡ suc r
        → suc r ≤ s.nleft
        → incoming s.world ≡ bytes ++ incoming w1
        → let nleft = sub64 s.nleft (advance sys.msg_trunc 0 s.nleft (suc r)) in
          (nleft < s.nleft)
          × Inv count w (record s { nleft = nleft; buf = s.buf ++ bytes; world = w1 })
    took s r bytes w1 h len le e = (
      rw advance-zero (omega arith),
      record {
        filled = rw advance-zero (omega (arith, length-append s.buf bytes));
        so_far = h.so_far ∙ ap (λ xs. s.buf ++ xs) e ∙ sym (append_assoc s.buf bytes (incoming w1));
      },
    )

    absorb-Good :
        (s : Receiving W) (a : Answer × W)
        → Inv count w s
        → Delivers incoming s.nleft (incoming s.world) a
        → Good s (absorb sys fd count 0 s a)
    unfolding absorb
    absorb-Good s (failed e, w1) h d = branches (Good s) _ (stop-Good s s h d) (hard-Good s s h d)
    absorb-Good s (got zero [], w1) h (len, le, e) = stop-Good s s h e
    absorb-Good s (got zero (b ∷ bytes), w1) h (len, le, e) = absurd (omega arith)
    absorb-Good s (got (suc r) bytes, w1) h (len, le, e) =
        let (less, inv) = took s r bytes w1 h len le e in
        branches (Good s) _ (await-Good s _ less inv) (continue-Good s _ less inv)

    recv_body-Good : (s : Receiving W) → Inv count w s → Good s (recv_body sys fd count 0 s)
    unfolding recv_body receive
    recv_body-Good s h =
        branches (Good s) _ (absorb-Good s _ h (stream.read_law s.nleft s.world))
          (stop-Good s s h refl)

    begin : {w1 : W} → incoming w ≡ incoming w1 → Inv count w (start sys count w1)
    unfolding start
    begin e = record { filled = omega arith; so_far = e }

    entered :
        (a : Selected × W)
        → incoming w ≡ incoming a.1
        → (r : ℤ × Bytes × W) × (enter sys fd count 0 a ≡ some r) × IsRead count w r
    unfolding enter
    entered (broken, w1) e = (_, refl, record { result = inl refl; fits = omega arith; front = e })
    entered (expired, w1) e = (_, refl, record { result = inr refl; fits = omega arith; front = e })
    entered (ready, w1) e =
        loop_inv (Inv count w) (IsRead count w) (λ t. t.nleft) (recv_body sys fd count 0)
          (λ s h. unfold Good in recv_body-Good s h) (suc count) (start sys count w1)
          (unfold start in omega arith) (begin e)

    -- `Nread` on a byte stream always returns, with a hard error or the number of bytes that it put
    -- into the buffer; they are at most `count`, and they are the front of the stream, of which
    -- nothing else is taken.
    pub nread_front : (r : ℤ × Bytes × W) × (nread sys fd count w ≡ some r) × IsRead count w r
    unfolding nread nrecv
    nread_front = entered _ (stream.select_law nread_read_timeout w)

    absorb_no_select-Good :
        (s : Receiving W) (a : Answer × W)
        → Inv count w s
        → Delivers incoming s.nleft (incoming s.world) a
        → Good s (absorb_no_select sys count 0 s a)
    unfolding absorb_no_select
    absorb_no_select-Good s (failed e, w1) h d =
        branches (Good s) _ (stop-Good s s h d) (hard-Good s s h d)
    absorb_no_select-Good s (got zero [], w1) h (len, le, e) = stop-Good s s h e
    absorb_no_select-Good s (got zero (b ∷ bytes), w1) h (len, le, e) = absurd (omega arith)
    absorb_no_select-Good s (got (suc r) bytes, w1) h (len, le, e) =
        let (less, inv) = took s r bytes w1 h len le e in continue-Good s _ less inv

    recv_no_select_body-Good :
        (s : Receiving W) → Inv count w s → Good s (recv_no_select_body sys fd count 0 s)
    unfolding recv_no_select_body receive
    recv_no_select_body-Good s h =
        branches (Good s) _ (absorb_no_select-Good s _ h (stream.read_law s.nleft s.world))
          (stop-Good s s h refl)

    -- The same of `Nread_no_select`, which makes no `select` and no clock call.
    pub nread_no_select_front :
        (r : ℤ × Bytes × W) × (nread_no_select sys fd count w ≡ some r) × IsRead count w r
    unfolding nread_no_select nrecv_no_select
    nread_no_select_front =
        loop_inv (Inv count w) (IsRead count w) (λ t. t.nleft) (recv_no_select_body sys fd count 0)
          (λ s h. unfold Good in recv_no_select_body-Good s h) (suc count) (start sys count w)
          (unfold start in omega arith) (begin refl)
