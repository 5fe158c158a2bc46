-- ===== src/Rate/Send.antt =====
-- src/iperf_api.c: the limit on the rate of a stream, and the round of a stream's worker that sends,
-- in a build without nanosleep, as on Windows.
use iperf3_windows_msvc.Prelude.{
  ℕ, zero, suc, ◌+◌, ◌-◌, ◌*◌, ◌%◌, ◌^◌, not, Bool, true, false, ◌||◌, ◌&&◌, Option, none, some,
  ltb, leb, ◌==◌, if◌then◌else◌,
}
use iperf3_windows_msvc.Prelude.Double.{Double}
use iperf3_windows_msvc.Prelude.Int.{ℤ, pos, pos_part, ltb_ℤ, ◌==ℤ◌}
use iperf3_windows_msvc.Time.{IperfTime, time_diff}
use iperf3_windows_msvc.Net.{net_softerror}

-- `test->settings`, and `test->multisend`. All but the last are a uint64_t or positive.
pub record SendSettings : Type 0 where
  pub rate : ℕ
  pub burst : ℕ
  pub bytes : ℕ
  pub blocks : ℕ
  pub multisend : ℕ

-- The counters of the test, and the fields of the stream, that a round of sending is about.
pub record Sender (W : Type 0) : Type 0 where
  pub done : Bool
  pub bytes_sent : ℕ  -- uint64_t, of all streams
  pub blocks_sent : ℕ  -- uint64_t, of all streams
  pub green_light : Bool
  pub pending_size : ℕ
  pub stream_bytes_sent : ℕ  -- sp->result->bytes_sent
  pub start_time_fixed : IperfTime
  pub world : W

-- `sp->snd`, and the clock.
pub record SendCalls (W : Type 0) : Type 0 where
  pub snd : Sender W → ℤ × Sender W
  pub now : W → IperfTime × W

-- What a message of `r` bytes adds to the counters.
abbrev pub count_message : {W : Type 0} → ℕ → Sender W → Sender W
count_message r s = record s {
  bytes_sent = (s.bytes_sent + r) % 2 ^ 64;
  blocks_sent = if s.pending_size == 0 then (s.blocks_sent + 1) % 2 ^ 64 else s.blocks_sent;
}

module _ {W : Type 0} (D : Double) (calls : SendCalls W) (c : SendSettings) where
  abbrev pub seconds : IperfTime → D.F
  seconds t = D.add (D.of_nat t.secs) (D.div (D.of_nat t.usecs) (D.of_nat 1000000))

  -- The difference of the rates is an int64_t.
  unfoldable pub check_throttle : IperfTime → Sender W → Sender W
  check_throttle now s =
      if s.done || (c.rate == 0)
      then s
      else let elapsed = seconds (time_diff s.start_time_fixed now).1 in
        let bits_sent = s.stream_bytes_sent * 8 % 2 ^ 64 in
        let bits_per_second = D.to_uint64 (D.div (D.of_nat bits_sent) elapsed) in
        let missing_rate = (c.rate + 2 ^ 64 - bits_per_second) % 2 ^ 64 in
        record s { green_light = ltb 0 missing_rate && ltb missing_rate (2 ^ 63) }

  abbrev pub multisend_of : ℕ
  multisend_of = if not (c.burst == 0) then c.burst else if c.rate == 0 then c.multisend else 1

  abbrev pub throttle_check_per_message : Bool
  throttle_check_per_message = not (c.rate == 0) && (c.burst == 0)

  -- The conditions that end the loop before a message.
  abbrev pub limit_reached : ℕ → Sender W → Bool
  limit_reached multisend s =
      (ltb 1 multisend && not (c.bytes == 0) && leb c.bytes s.bytes_sent)
      || (ltb 1 multisend && not (c.blocks == 0) && leb c.blocks s.blocks_sent)

  -- The check after a message; the time is read once.
  unfoldable pub throttle_message : Bool → IperfTime → Sender W → IperfTime × Sender W
  unfolding check_throttle
  throttle_message message_sent now s =
      if throttle_check_per_message
      then if message_sent then (now, check_throttle now s) else (
        (calls.now s.world).0,
        check_throttle (calls.now s.world).0 (record s { world = (calls.now s.world).1 }),
      )
      else (now, s)

  -- The loop: a hard error, whether a message was sent, and the counters.
  unfoldable pub send_loop : ℕ → Bool → IperfTime → Sender W → (Option ℤ × Bool) × Sender W
  unfolding throttle_message
  send_loop zero message_sent now s = ((none, message_sent), s)
  send_loop (suc rest) message_sent now s =
      let (r, t) = calls.snd s in
      let (now', u) = throttle_message message_sent now (count_message (pos_part r) t) in
      let go_on = send_loop rest true now' u in
      if not s.green_light || limit_reached (suc rest) s
      then ((none, message_sent), s)
      else if ltb_ℤ r (pos 0)
      then ((if r ==ℤ net_softerror then none else some r, message_sent), t)
      else go_on

  -- After the loop: the check, if there was none after a message.
  unfoldable pub end_round : (Option ℤ × Bool) × Sender W → ℤ × Sender W
  unfolding check_throttle
  end_round ((some r, message_sent), t) = (r, t)
  end_round ((none, message_sent), t) =
      if not throttle_check_per_message || not message_sent
      then (
        pos 0,
        check_throttle (calls.now t.world).0 (record t { world = (calls.now t.world).1 }),
      )
      else (pos 0, t)

  -- `unset` is the variable `now` before it is set.
  unfoldable pub send_mt : IperfTime → Sender W → ℤ × Sender W
  unfolding send_loop end_round
  send_mt unset s = end_round (send_loop multisend_of false unset s)

-- What iperf_recv_mt counts for the test.
pub record Receiver : Type 0 where
  pub bytes_received : ℕ  -- uint64_t
  pub blocks_received : ℕ  -- uint64_t

-- `rcv` is `sp->rcv`; a timeout is an answer of 0, and not counted.
unfoldable pub recv_mt : {W : Type 0} → (W → ℤ × W) → Receiver → W → ℤ × Receiver × W
recv_mt rcv test w =
    let (r, w1) = rcv w in
    if ltb_ℤ r (pos 0)
    then (r, test, w1)
    else if ltb_ℤ (pos 0) r
    then (
      pos 0,
      record {
        bytes_received = (test.bytes_received + pos_part r) % 2 ^ 64;
        blocks_received = (test.blocks_received + 1) % 2 ^ 64;
      },
      w1,
    )
    else (pos 0, test, w1)
