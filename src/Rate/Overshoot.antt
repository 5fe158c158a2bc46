-- ===== src/Rate/Overshoot.antt =====
-- src/iperf_api.c: how far a round of sending goes above the limit on the bytes of a test.
use iperf3_windows_msvc.Prelude.{
  ℕ, zero, suc, ◌+◌, ◌^◌, ◌≤◌, ◌<◌, ◌≡◌, refl, max, not, Bool, true, false, ◌||◌, ◌&&◌, Option,
  none, some, ltb, leb, ◌==◌, arith, Bool-cases, inl, inr, branches,
}
use iperf3_windows_msvc.Prelude.Double.{Double}
use iperf3_windows_msvc.Prelude.Int.{ℤ, pos, pos_part, ltb_ℤ}
use iperf3_windows_msvc.Time.{IperfTime}
use iperf3_windows_msvc.Rate.Send.{
  SendSettings, Sender, SendCalls, check_throttle, throttle_message, throttle_check_per_message,
  limit_reached, count_message, multisend_of, send_loop, end_round, send_mt,
}

-- A message has at most `most` bytes, and `sp->snd` leaves the counter of the test alone.
abbrev pub SendsAtMost : {W : Type 0} → ℕ → SendCalls W → Type 0
SendsAtMost {W} most calls =
    (s : Sender W) → (pos_part (calls.snd s).0 ≤ most) × ((calls.snd s).1.bytes_sent ≡ s.bytes_sent)

or-false : (a b : Bool) → (a || b) ≡ false → (a ≡ false) × (b ≡ false)
or-false a b h = ground arith

module _ {W : Type 0} (D : Double) (calls : SendCalls W) (c : SendSettings) (most : ℕ) where
  check_throttle-bytes_sent :
      (now : IperfTime) (s : Sender W) → (check_throttle D calls c now s).bytes_sent ≡ s.bytes_sent
  unfolding check_throttle
  check_throttle-bytes_sent now s = elim (Bool-cases (s.done || (c.rate == 0))) [
    | inl e ↦ rw e refl
    | inr e ↦ rw e refl
  ]

  throttle_message-bytes_sent :
      (message_sent : Bool) (now : IperfTime) (s : Sender W)
      → (throttle_message D calls c message_sent now s).1.bytes_sent ≡ s.bytes_sent
  unfolding throttle_message
  throttle_message-bytes_sent true now s =
      elim (Bool-cases (throttle_check_per_message D calls c)) [
        | inl e ↦ rw e (check_throttle-bytes_sent now s)
        | inr e ↦ rw e refl
      ]
  throttle_message-bytes_sent false now s =
      elim (Bool-cases (throttle_check_per_message D calls c)) [
        | inl e ↦ rw e (
            check_throttle-bytes_sent (calls.now s.world).0
              (record s { world = (calls.now s.world).1 }))
        | inr e ↦ rw e refl
      ]

  -- What is known of the counter after a message.
  sent_lem :
      (message_sent : Bool) (now : IperfTime) (s : Sender W)
      → SendsAtMost most calls
      → s.bytes_sent + most < 2 ^ 64
      → (throttle_message D calls c message_sent now
          (count_message (pos_part (calls.snd s).0) (calls.snd s).1)).1.bytes_sent
        ≤ s.bytes_sent + most
  sent_lem message_sent now s sends fits =
      let t = count_message (pos_part (calls.snd s).0) (calls.snd s).1 in
      omega (arith, throttle_message-bytes_sent message_sent now t, (sends s).0, (sends s).1)

  abbrev Within : Sender W → (Option ℤ × Bool) × Sender W → Type 0
  Within s (answer, t) = t.bytes_sent ≤ max s.bytes_sent (c.bytes + most) + most

  below_limit :
      (s : Sender W) (k : ℕ)
      → (not s.green_light || limit_reached D calls c (suc (suc k)) s) ≡ false
      → 0 < c.bytes
      → s.bytes_sent < c.bytes
  below_limit s k h limited =
      let bytes_reached = ltb 1 (suc (suc k)) && not (c.bytes == 0) && leb c.bytes s.bytes_sent in
      let blocks_reached =
        ltb 1 (suc (suc k)) && not (c.blocks == 0) && leb c.blocks s.blocks_sent in
      let either = (or-false (not s.green_light) (bytes_reached || blocks_reached) h).1 in
      let reached = (or-false bytes_reached blocks_reached either).0 in ground (arith, reached)

  send_loop-Within :
      (k : ℕ) (message_sent : Bool) (now : IperfTime) (s : Sender W)
      → SendsAtMost most calls
      → 0 < c.bytes
      → s.bytes_sent + most < 2 ^ 64
      → c.bytes + most + most < 2 ^ 64
      → Within s (send_loop D calls c k message_sent now s)
  unfolding send_loop
  send_loop-Within zero message_sent now s sends limited fits fits' = omega arith
  send_loop-Within (suc zero) message_sent now s sends limited fits fits' =
      let kept = (sends s).1 in
      branches (Within s) (not s.green_light || limit_reached D calls c 1 s) (omega arith) (
        branches (Within s) (ltb_ℤ (calls.snd s).0 (pos 0)) (omega (arith, kept))
          (omega (arith, sent_lem message_sent now s sends fits)))
  send_loop-Within (suc (suc k)) message_sent now s sends limited fits fits' =
      let stop = not s.green_light || limit_reached D calls c (suc (suc k)) s in
      let kept = (sends s).1 in
      elim (Bool-cases stop) [
        | inl e ↦ rw e (omega arith)
        | inr e ↦
            let below : s.bytes_sent < c.bytes = below_limit s k e limited in
            let sent = sent_lem message_sent now s sends fits in
            let (now', u) =
              throttle_message D calls c message_sent now
                (count_message (pos_part (calls.snd s).0) (calls.snd s).1) in
            let rest =
              send_loop-Within (suc k) true now' u sends limited (omega (arith, sent)) fits' in
            rw e (
              branches (Within s) (ltb_ℤ (calls.snd s).0 (pos 0)) (omega (arith, kept))
                (omega (arith, rest, sent)))
      ]

  end_round_lem :
      (s : Sender W) (x : (Option ℤ × Bool) × Sender W)
      → Within s x
      → (end_round D calls c x).1.bytes_sent ≤ max s.bytes_sent (c.bytes + most) + most
  unfolding end_round
  end_round_lem s ((some r, message_sent), t) h = h
  end_round_lem s ((none, message_sent), t) h =
      let checked = record t { world = (calls.now t.world).1 } in
      elim (Bool-cases (not (throttle_check_per_message D calls c) || not message_sent)) [
        | inl e ↦ rw e (omega (arith, h, check_throttle-bytes_sent (calls.now t.world).0 checked))
        | inr e ↦ rw e h
      ]

  -- One call of iperf_send_mt leaves the bytes of the test at most two messages above the limit, or at
  -- most one message above what they were. A message has `most` bytes at most, and the counters fit 64
  -- bits.
  pub send_mt_overshoot :
      (unset : IperfTime) (s : Sender W)
      → SendsAtMost most calls
      → 0 < c.bytes
      → s.bytes_sent + most < 2 ^ 64
      → c.bytes + most + most < 2 ^ 64
      → (send_mt D calls c unset s).1.bytes_sent ≤ max s.bytes_sent (c.bytes + most) + most
  unfolding send_mt
  send_mt_overshoot unset s sends limited fits fits' =
      end_round_lem s (send_loop D calls c (multisend_of D calls c) false unset s)
        (send_loop-Within (multisend_of D calls c) false unset s sends limited fits fits')
