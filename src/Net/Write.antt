-- ===== src/Net/Write.antt =====
-- src/net.c: what `Nwrite` returns, and what it hands to the kernel.
use iperf3_windows_msvc.Prelude.{
  ℕ, zero, suc, ◌+◌, ◌-◌, ◌^◌, ◌≤◌, ◌<◌, ◌≡◌, refl, sym, ◌∙◌, ap, ◌⊎◌, inl, inr, some, [], ◌∷◌,
  ◌++◌, append_assoc, append-nil, arith, length, take, drop, length-take, ltb, ◌==◌, if◌then◌else◌,
  branches, Bool-cases, ltb→lt,
}
use iperf3_windows_msvc.Prelude.Int.{ℤ, pos}
use iperf3_windows_msvc.Net.Loop.{Keeps, loop_inv}
use iperf3_windows_msvc.Net.{
  Bytes, eintr, eagain, ewouldblock, enobufs, other, Answer, got, failed, Sys, Writing, Round,
  return, continue, sub64, to_int, net_softerror, net_harderror, emit, write_body, nwrite,
}

-- An answer of write(2) on a stream into which `before` has gone: it takes a front of the `xs` that
-- it is given; an error takes nothing.
abbrev pub Accepts : {W : Type 0} → (W → Bytes) → Bytes → Bytes → Answer × W → Type 0
Accepts sent xs before (got r bytes, w) = (r ≤ length xs) × (sent w ≡ before ++ take r xs)
Accepts sent xs before (failed e, w) = sent w ≡ before

take-take : (m n : ℕ) (xs : Bytes) → m ≤ n → take m (take n xs) ≡ take m xs
take-take zero n xs h = refl
take-take (suc m) zero xs h = absurd (omega arith)
take-take (suc m) (suc n) [] h = refl
take-take (suc m) (suc n) (x ∷ xs) h = ap (λ ys. x ∷ ys) (take-take m n xs (omega arith))

take-nil : (n : ℕ) → take {A = ℕ} n [] ≡ []
take-nil zero = refl
take-nil (suc n) = refl

drop-nil : (n : ℕ) → drop {A = ℕ} n [] ≡ []
drop-nil zero = refl
drop-nil (suc n) = refl

take-add : (m n : ℕ) (xs : Bytes) → take m xs ++ take n (drop m xs) ≡ take (m + n) xs
take-add zero n xs = ap (λ k. take k xs) (omega arith)
take-add (suc m) n [] = take-nil n ∙ sym (take-nil (suc m + n))
take-add (suc m) n (x ∷ xs) =
    let e : suc m + n ≡ suc (m + n) = omega arith in rw e (ap (λ ys. x ∷ ys) (take-add m n xs))

drop-add : (m n : ℕ) (xs : Bytes) → drop n (drop m xs) ≡ drop (m + n) xs
drop-add zero n xs = ap (λ k. drop k xs) (omega arith)
drop-add (suc m) n [] = drop-nil n ∙ sym (drop-nil (suc m + n))
drop-add (suc m) n (x ∷ xs) =
    let e : suc m + n ≡ suc (m + n) = omega arith in rw e (drop-add m n xs)

module _ {W : Type 0} (sys : Sys W) (fd : ℕ) (sent : W → Bytes) (buf : Bytes) (count : ℕ)
    (w : W) where
  -- What a caller of `Nwrite` gets: the number of bytes that the kernel took, or an error after
  -- which it had taken fewer than `count`; they are the front of `buf`.
  pub record IsWrite (r : ℤ × W) : Type 0 where
    pub taken : ℕ
    pub result :
        (r.0 ≡ pos taken) ⊎ (((r.0 ≡ net_softerror) ⊎ (r.0 ≡ net_harderror)) × (taken < count))
    pub fits : taken ≤ count
    pub front : sent r.1 ≡ sent w ++ take taken buf

  record Inv (s : Writing W) : Type 0 where
    left : s.nleft ≤ count
    rest : s.rest ≡ drop (count - s.nleft) buf
    so_far : sent s.world ≡ sent w ++ take (count - s.nleft) buf

  Good : Writing W → Round (ℤ × W) (Writing W) → Type 0
  Good s = Keeps Inv IsWrite (λ t. t.nleft) s.nleft

  module _ (small : count < 2 ^ 31) (whole : count ≤ length buf) where
    stop-Good :
        (s : Writing W) {w1 : W} (r : ℤ)
        → Inv s
        → sent w1 ≡ sent s.world
        → (r ≡ pos (count - s.nleft))
          ⊎ (((r ≡ net_softerror) ⊎ (r ≡ net_harderror)) × (0 < s.nleft))
        → Good s (return (r, w1))
    unfolding Good
    stop-Good s r h e how = record {
      taken = count - s.nleft;
      result = elim how [ inl e ↦ inl e | inr (e, p) ↦ inr (e, omega arith) ];
      fits = omega arith;
      front = e ∙ h.so_far;
    }

    partial :
        (s : Writing W) {w1 : W}
        → 0 < s.nleft
        → Inv s
        → sent w1 ≡ sent s.world
        → Good s (
            if count == s.nleft
            then return (net_softerror, w1)
            else return (to_int (sub64 count s.nleft), w1))
    partial s p h d =
        branches (Good s) _ (stop-Good s net_softerror h d (inr (inl refl, p)))
          (stop-Good s _ h d (inl (ground (arith, h.left))))

    -- The kernel has taken `r` more bytes.
    advanced :
        (s : Writing W) {w1 : W} (r : ℕ)
        → 0 < r
        → Inv s
        → r ≤ s.nleft
        → sent w1 ≡ sent s.world ++ take r (take s.nleft s.rest)
        → Good s (continue (record { nleft = sub64 s.nleft r; rest = drop r s.rest; world = w1 }))
    unfolding Good
    advanced s {w1} r p h le e =
        let k : count - sub64 s.nleft r ≡ count - s.nleft + r = omega (arith, h.left) in
        (
          omega (arith, h.left),
          record {
            left = omega (arith, h.left);
            rest =
                ap (drop r) h.rest
                ∙ drop-add (count - s.nleft) r buf
                ∙ ap (λ n. drop n buf) (sym k);
            so_far =
                e
                ∙ ap (λ xs. sent s.world ++ xs) (take-take r s.nleft s.rest le ∙ ap (take r) h.rest)
                ∙ ap (λ xs. xs ++ take r (drop (count - s.nleft) buf)) h.so_far
                ∙ append_assoc (sent w) _ _
                ∙ ap (λ xs. sent w ++ xs) (take-add (count - s.nleft) r buf)
                ∙ ap (λ n. sent w ++ take n buf) (sym k);
          },
        )

    emit-Good :
        (s : Writing W) (a : Answer × W)
        → 0 < s.nleft
        → Inv s
        → Accepts sent (take s.nleft s.rest) (sent s.world) a
        → Good s (emit sys count s a)
    unfolding emit
    emit-Good s (failed enobufs, w1) p h d = stop-Good s net_softerror h d (inr (inl refl, p))
    emit-Good s (failed (other n), w1) p h d = stop-Good s net_harderror h d (inr (inr refl, p))
    emit-Good s (failed eintr, w1) p h d = partial s p h d
    emit-Good s (failed eagain, w1) p h d = partial s p h d
    emit-Good s (failed ewouldblock, w1) p h d = partial s p h d
    emit-Good s (got zero bytes, w1) p h (le, e) =
        stop-Good s net_softerror h (e ∙ append-nil (sent s.world)) (inr (inl refl, p))
    emit-Good s (got (suc r) bytes, w1) p h (le, e) =
        advanced s (suc r) (omega arith) h (omega (arith, length-take s.nleft s.rest)) e

    write_body-Good :
        ((xs : Bytes) (w : W) → Accepts sent xs (sent w) (sys.write fd xs w))
        → (s : Writing W) → Inv s
        → Good s (write_body sys fd count s)
    unfolding write_body
    write_body-Good kernel s h = elim (Bool-cases (ltb 0 s.nleft)) [
      | inl more ↦ rw more (emit-Good s _ (ltb→lt _ _ more) h (kernel _ s.world))
      | inr done ↦ rw done (stop-Good s _ h refl (inl (ground (arith, h.left))))
    ]

    -- `Nwrite` always returns: the number of bytes that the kernel has taken, which are the front of
    -- `buf`, or a soft or hard error, after which the kernel has taken the front of `buf` that is
    -- shorter than `count`. The buffer holds `count` bytes at least, and `count` fits an int.
    pub nwrite_front :
        ((xs : Bytes) (w : W) → Accepts sent xs (sent w) (sys.write fd xs w))
        → (r : ℤ × W) × (nwrite sys fd buf count w ≡ some r) × IsWrite r
    unfolding nwrite
    nwrite_front kernel =
        let e : 0 ≡ count - count = omega arith in
        loop_inv Inv IsWrite (λ t. t.nleft) (write_body sys fd count)
          (λ s h. unfold Good in write_body-Good kernel s h) (suc count)
          (record { nleft = count; rest = buf; world = w }) (omega arith)
          (record {
            left = omega arith;
            rest = ap (λ n. drop n buf) e;
            so_far = sym (append-nil (sent w)) ∙ ap (λ n. sent w ++ take n buf) e;
          })
