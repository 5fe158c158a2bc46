-- ===== src/Stats/Account.antt =====
-- src/iperf_api.c: the intervals of a stream over a whole test.
use iperf3_windows_msvc.Prelude.{
  Bool, ℕ, ◌+◌, ◌%◌, ◌^◌, ◌≡◌, refl, ap, ◌∙◌, arith, List, [], ◌∷◌, Option, none, some,
  if◌then◌else◌, branches, Bool-cases, inl, inr, sym, ◌++◌,
}
use iperf3_windows_msvc.Prelude.Int.{ℤ}
use iperf3_windows_msvc.Time.{IperfTime}
use iperf3_windows_msvc.Stats.{
  Interval, StatStream, TcpInfo, StatTest, last, drop_last, add_to_interval_list, note_tcp_info,
  note_packets, note_protocol, begin_interval, close_interval, measure,
}

-- What happens to a stream: bytes are moved, as iperf_tcp_send and its like count them; packets are
-- counted; an interval ends.
pub data Event (F : Type 0) : Type 0 where
  moved : ℕ → Event F
  counted : ℤ → ℤ → ℤ → Event F
  ended : IperfTime → TcpInfo → Interval F → Event F

abbrev pub total_bytes : {F : Type 0} → List (Event F) → ℕ
total_bytes [] = 0
total_bytes (moved n ∷ es) = n + total_bytes es
total_bytes (counted packets outoforder errors ∷ es) = total_bytes es
total_bytes (ended now info temp ∷ es) = total_bytes es

abbrev pub this_interval : {F : Type 0} → StatStream F → ℕ
this_interval sp =
    if sp.is_sender then sp.bytes_sent_this_interval else sp.bytes_received_this_interval

abbrev pub move_bytes : {F : Type 0} → ℕ → StatStream F → StatStream F
move_bytes n sp = record sp {
  bytes_sent_this_interval =
      if sp.is_sender
      then (sp.bytes_sent_this_interval + n) % 2 ^ 64
      else sp.bytes_sent_this_interval;
  bytes_received_this_interval =
      if sp.is_sender
      then sp.bytes_received_this_interval
      else (sp.bytes_received_this_interval + n) % 2 ^ 64;
}

-- The bytes that the intervals report.
abbrev pub reported : {F : Type 0} → List (Interval F) → ℕ
reported [] = 0
reported (i ∷ rest) = i.bytes_transferred + reported rest

-- The intervals, latest first, follow each other without a gap from `start` on.
abbrev pub Tile : {F : Type 0} → IperfTime → List (Interval F) → Type 0
Tile start [] = Unit
Tile start (i ∷ []) = i.interval_start_time ≡ start
Tile start (i ∷ (j ∷ rest)) = (i.interval_start_time ≡ j.interval_end_time) × Tile start (j ∷ rest)

abbrev pub latest : {F : Type 0} → List (Interval F) → List (Interval F)
latest [] = []
latest (i ∷ rest) = i ∷ []

-- When the last interval ended.
abbrev pub EndsAt : {F : Type 0} → IperfTime → List (Interval F) → Type 0
EndsAt time [] = Unit
EndsAt time (i ∷ rest) = i.interval_end_time ≡ time

module _ {F : Type 0} (in_secs : IperfTime → F) (test : StatTest) where
  -- The intervals reported so far, latest first, and the stream; events come latest first too.
  unfoldable pub run_events : List (Event F) → StatStream F → List (Interval F) × StatStream F
  unfolding measure
  run_events [] sp = ([], sp)
  run_events (moved n ∷ es) sp = let (seen, s) = run_events es sp in (seen, move_bytes n s)
  run_events (counted packets outoforder errors ∷ es) sp =
      let (seen, s) = run_events es sp in
      (
        seen,
        record s { packet_count = packets; outoforder_packets = outoforder; cnt_error = errors },
      )
  run_events (ended now info temp ∷ es) sp =
      let (seen, s) = run_events es sp in
      let (new, s') = measure in_secs test now info temp s in (new ∷ seen, s')

  pub record IsAccounted (first : StatStream F) (bytes : ℕ) (seen : List (Interval F))
      (sp : StatStream F) : Type 0 where
    pub part : sp.is_sender ≡ first.is_sender
    pub total : (reported seen + this_interval sp) % 2 ^ 64 ≡ bytes % 2 ^ 64
    pub tiled : Tile first.start_time seen
    pub start : sp.start_time ≡ first.start_time
    pub kept : sp.interval_results ≡ latest seen
    pub last_end : EndsAt sp.end_time seen

  no_bytes : (part : Bool) → if◌then◌else◌ {A = ℕ} part 0 0 ≡ 0
  no_bytes part = branches (λ n. n ≡ 0) part refl refl

  -- The protocol's figures leave the bytes and times of an interval, and the stream's part and times.
  abbrev Keeps : Interval F × StatStream F → Interval F × StatStream F → Type 0
  Keeps a b =
      (b.0.bytes_transferred ≡ a.0.bytes_transferred)
      × (b.0.interval_start_time ≡ a.0.interval_start_time)
      × (b.0.interval_end_time ≡ a.0.interval_end_time)
      × (b.1.is_sender ≡ a.1.is_sender)
      × (b.1.start_time ≡ a.1.start_time)
      × (b.1.end_time ≡ a.1.end_time)

  note_protocol-Keeps :
      (irp : Option (Interval F)) (info : TcpInfo) (a : Interval F × StatStream F)
      → Keeps a (note_protocol in_secs test irp info a)
  unfolding note_protocol note_tcp_info note_packets
  note_protocol-Keeps irp info (temp, sp) =
      branches (Keeps (temp, sp)) _
        (branches (Keeps (temp, sp)) _ (refl, refl, refl, refl, refl, refl)
          (refl, refl, refl, refl, refl, refl))
        (refl, refl, refl, refl, refl, refl)

  this_interval-move_bytes :
      (n : ℕ) (sp : StatStream F)
      → this_interval (move_bytes n sp) ≡ (this_interval sp + n) % 2 ^ 64
  this_interval-move_bytes n sp = elim (Bool-cases sp.is_sender) [
    | inl e ↦ rw e refl
    | inr e ↦ rw e refl
  ]

  move_bytes-IsAccounted :
      (first : StatStream F) (bytes n : ℕ) (seen : List (Interval F)) (sp : StatStream F)
      → IsAccounted first bytes seen sp
      → IsAccounted first (n + bytes) seen (move_bytes n sp)
  move_bytes-IsAccounted first bytes n seen sp h = record {
    part = h.part;
    total = omega (arith, this_interval-move_bytes n sp, h.total);
    tiled = h.tiled;
    start = h.start;
    kept = h.kept;
    last_end = h.last_end;
  }

  close_interval-IsAccounted :
      (first : StatStream F) (bytes : ℕ) (now : IperfTime) (q : Interval F × StatStream F)
      → (seen : List (Interval F)) (sp : StatStream F) → IsAccounted first bytes seen sp
      → q.0.bytes_transferred ≡ this_interval sp
      → q.0.interval_start_time
        ≡ (elim (last sp.interval_results) [ none ↦ sp.start_time | some i ↦ sp.end_time ])
      → q.0.interval_end_time ≡ now
      → q.1.is_sender ≡ sp.is_sender
      → q.1.start_time ≡ sp.start_time
      → q.1.end_time ≡ now
      → IsAccounted first bytes (q.0 ∷ seen) (close_interval in_secs test sp.interval_results q)
  unfolding close_interval add_to_interval_list
  close_interval-IsAccounted first bytes now q seen sp h bytes_new from until part start stop =
      record {
        part = part ∙ h.part;
        total = omega (arith, no_bytes q.1.is_sender, bytes_new, h.total);
        tiled = tile seen h.tiled h.kept h.last_end;
        start = start ∙ h.start;
        kept = only seen h.kept;
        last_end = until ∙ sym stop;
      }
    where
      tile :
          (seen : List (Interval F))
          → Tile first.start_time seen
          → sp.interval_results ≡ latest seen
          → EndsAt sp.end_time seen
          → Tile first.start_time (q.0 ∷ seen)
      tile [] t kept e =
          from
          ∙ ap (λ is. elim (last is) [ none ↦ sp.start_time | some i ↦ sp.end_time ]) kept
          ∙ h.start
      tile (i ∷ rest) t kept e = (
        from
            ∙ ap (λ is. elim (last is) [ none ↦ sp.start_time | some i ↦ sp.end_time ]) kept
            ∙ sym e,
        t,
      )

      only :
          (seen : List (Interval F))
          → sp.interval_results ≡ latest seen
          → drop_last sp.interval_results ++ (q.0 ∷ []) ≡ q.0 ∷ []
      only [] kept = ap (λ is. drop_last is ++ (q.0 ∷ [])) kept
      only (i ∷ rest) kept = ap (λ is. drop_last is ++ (q.0 ∷ [])) kept

  measure-IsAccounted :
      (first : StatStream F) (bytes : ℕ) (now : IperfTime) (info : TcpInfo) (temp : Interval F)
      → (seen : List (Interval F)) (sp : StatStream F) → IsAccounted first bytes seen sp
      → IsAccounted first bytes
          ((measure in_secs test now info temp sp).0 ∷ seen)
          (measure in_secs test now info temp sp).1
  unfolding measure
  measure-IsAccounted first bytes now info temp seen sp h =
      let (same_bytes, same_from, same_until, same_part, same_start, same_stop) =
        note_protocol-Keeps (last sp.interval_results) info
          (begin_interval in_secs test now temp sp) in
      close_interval-IsAccounted first bytes now
        (note_protocol in_secs test (last sp.interval_results) info
          (begin_interval in_secs test now temp sp))
        seen sp h same_bytes same_from same_until same_part same_start same_stop

  -- However bytes and packets are counted and intervals end, and for as long as the test goes on: the
  -- intervals of a stream follow each other without a gap, the first from the start of the stream; the
  -- bytes that they report and those of the interval that runs sum up to the bytes that the stream
  -- has moved, modulo 2 ^ 64; and the stream keeps just its last interval. It starts with no
  -- interval and no bytes in one.
  pub run_events-IsAccounted :
      (es : List (Event F)) (first : StatStream F)
      → first.interval_results ≡ []
      → this_interval first ≡ 0
      → IsAccounted first (total_bytes es) (run_events es first).0 (run_events es first).1
  unfolding run_events
  run_events-IsAccounted [] first none_yet idle = record {
    part = refl;
    total = ap (λ n. (0 + n) % 2 ^ 64) idle;
    tiled = tt;
    start = refl;
    kept = none_yet;
    last_end = tt;
  }
  run_events-IsAccounted (moved n ∷ es) first none_yet idle =
      move_bytes-IsAccounted first (total_bytes es) n _ _
        (run_events-IsAccounted es first none_yet idle)
  run_events-IsAccounted (counted packets outoforder errors ∷ es) first none_yet idle =
      let h = run_events-IsAccounted es first none_yet idle in
      record {
        part = h.part;
        total = h.total;
        tiled = h.tiled;
        start = h.start;
        kept = h.kept;
        last_end = h.last_end;
      }
  run_events-IsAccounted (ended now info temp ∷ es) first none_yet idle =
      measure-IsAccounted first (total_bytes es) now info temp _ _
        (run_events-IsAccounted es first none_yet idle)
