-- ===== src/Results/Pairing.antt =====
-- src/iperf_api.c: what a stream takes over from the peer's stream with its number, and that
-- `get_results` does this for one entry.
use iperf3_windows_msvc.Prelude.{
  ◌≡◌, refl, sym, ap, ◌∙◌, arith, Bool, true, false, ◌||◌, some, List, [], ◌∷◌, map, inl, inr,
  if◌then◌else◌, Bool-cases,
}
use iperf3_windows_msvc.Prelude.Int.{ℤ, ◌==ℤ◌, eq_of_parts}
use iperf3_windows_msvc.Time.{time_diff}
use iperf3_windows_msvc.Json.{Json}
use iperf3_windows_msvc.Results.Send.{bytes_transferred}
use iperf3_windows_msvc.Results.Take.{merge, with_omitted, duration_of, merge_into}
use iperf3_windows_msvc.Results.Merge.{retransmits_of, report_of}
use iperf3_windows_msvc.Results.{Stream, ResultsTest, Seconds}

abbrev pub has_id : {F : Type 0} → ℤ → List (Stream F) → Bool
has_id i [] = false
has_id i (sp ∷ rest) = (sp.id ==ℤ i) || has_id i rest

-- No two streams have the same number.
abbrev pub AreDistinct : {F : Type 0} → List (Stream F) → Type 0
AreDistinct [] = Unit
AreDistinct (sp ∷ rest) = (has_id sp.id rest ≡ false) × AreDistinct rest

pub ==ℤ-eq : (a b : ℤ) → (a ==ℤ b) ≡ true → a ≡ b
==ℤ-eq a b h = eq_of_parts a b (ground arith)

==ℤ-sym : (a b : ℤ) → (a ==ℤ b) ≡ (b ==ℤ a)
==ℤ-sym a b = ground arith

left_false : (a b : Bool) → (a || b) ≡ false → a ≡ false
left_false false b h = refl
left_false true b h = h

right_false : (a b : Bool) → (a || b) ≡ false → b ≡ false
right_false false b h = h
right_false true false h = refl
right_false true true h = h

pub map_pointwise :
    {A : Type 0} (f g : A → A) (xs : List A) → ((x : A) → f x ≡ g x) → map f xs ≡ map g xs
map_pointwise f g [] h = refl
map_pointwise f g (x ∷ xs) h = λ i. h x i ∷ map_pointwise f g xs h i

pub map-map : {A : Type 0} (f g : A → A) (xs : List A) → map f (map g xs) ≡ map (λ x. f (g x)) xs
map-map f g [] = refl
map-map f g (x ∷ xs) = ap (λ ys. f (g x) ∷ ys) (map-map f g xs)

pub map_same : {A : Type 0} (xs : List A) → map (λ x. x) xs ≡ xs
map_same [] = refl
map_same (x ∷ xs) = ap (λ ys. x ∷ ys) (map_same xs)

module _ (lib : Json) (secs : Seconds lib.F) where
  -- What a stream takes over from the peer's stream `p` of the test `peer`: who sends learns what came
  -- and what got lost, who receives learns what was sent.
  abbrev pub exchanged : ResultsTest lib → Stream lib.F → Stream lib.F → Stream lib.F
  exchanged peer p sp =
      let time =
        secs.minus (secs.in_secs (time_diff p.start_time p.end_time).1)
          (secs.in_secs (time_diff p.start_time p.start_time).1) in
      if sp.is_sender
      then record sp {
        jitter = p.jitter;
        cnt_error = p.cnt_error;
        omitted_cnt_error = p.omitted_cnt_error;
        peer_packet_count = p.packet_count;
        peer_omitted_packet_count = p.omitted_packet_count;
        bytes_received = bytes_transferred p;
        receiver_time = time;
      }
      else record sp {
        peer_packet_count = p.packet_count;
        peer_omitted_packet_count = p.omitted_packet_count;
        bytes_sent = bytes_transferred p;
        stream_retrans = retransmits_of peer p;
        sender_time = time;
      }

  -- The peer's stream with the same number, if there is one.
  abbrev pub exchanged_all : ResultsTest lib → List (Stream lib.F) → Stream lib.F → Stream lib.F
  exchanged_all peer [] sp = sp
  exchanged_all peer (p ∷ ps) sp =
      if sp.id ==ℤ p.id then exchanged peer p sp else exchanged_all peer ps sp

  -- The update of the stream with that number.
  abbrev pub step : ResultsTest lib → Stream lib.F → Stream lib.F → Stream lib.F
  step peer p sp = if sp.id ==ℤ p.id then exchanged peer p sp else sp

  pub exchanged_id :
      (peer : ResultsTest lib) (p sp : Stream lib.F) → (exchanged peer p sp).id ≡ sp.id
  exchanged_id peer p sp = elim (Bool-cases sp.is_sender) [ inl e ↦ rw e refl | inr e ↦ rw e refl ]

  step_id : (peer : ResultsTest lib) (p sp : Stream lib.F) → (step peer p sp).id ≡ sp.id
  step_id peer p sp = elim (Bool-cases (sp.id ==ℤ p.id)) [
    | inl e ↦ rw e (exchanged_id peer p sp)
    | inr e ↦ rw e refl
  ]

  merge-report_of :
      (peer : ResultsTest lib) (p sp : Stream lib.F)
      → merge lib secs (report_of lib secs peer p) sp ≡ exchanged peer p sp
  unfolding merge with_omitted duration_of
  merge-report_of peer p sp = elim (Bool-cases sp.is_sender) [
    | inl e ↦ rw (e, merge) refl
    | inr e ↦ rw (e, merge) refl
  ]

  pub has_id-map :
      (peer : ResultsTest lib) (p : Stream lib.F) (i : ℤ) (ss : List (Stream lib.F))
      → has_id i (map (step peer p) ss) ≡ has_id i ss
  has_id-map peer p i [] = refl
  has_id-map peer p i (sp ∷ ss) = λ k. (step_id peer p sp k ==ℤ i) || has_id-map peer p i ss k

  pub map-AreDistinct :
      (peer : ResultsTest lib) (p : Stream lib.F) (ss : List (Stream lib.F))
      → AreDistinct ss
      → AreDistinct (map (step peer p) ss)
  map-AreDistinct peer p [] h = h
  map-AreDistinct peer p (sp ∷ ss) (h, hs) = (
    ap (λ i. has_id i (map (step peer p) ss)) (step_id peer p sp) ∙ has_id-map peer p sp.id ss ∙ h,
    map-AreDistinct peer p ss hs,
  )

  map-no_id :
      (peer : ResultsTest lib) (p : Stream lib.F) (ss : List (Stream lib.F))
      → has_id p.id ss ≡ false
      → map (step peer p) ss ≡ ss
  map-no_id peer p [] h = refl
  map-no_id peer p (sp ∷ ss) h =
      rw (left_false (sp.id ==ℤ p.id) (has_id p.id ss) h)
        (ap (λ xs. sp ∷ xs) (map-no_id peer p ss (right_false (sp.id ==ℤ p.id) (has_id p.id ss) h)))

  pub exchanged_all-no_id :
      (peer : ResultsTest lib) (ps : List (Stream lib.F)) (sp : Stream lib.F)
      → has_id sp.id ps ≡ false
      → exchanged_all peer ps sp ≡ sp
  exchanged_all-no_id peer [] sp h = refl
  exchanged_all-no_id peer (p ∷ ps) sp h =
      rw (==ℤ-sym sp.id p.id, left_false (p.id ==ℤ sp.id) (has_id sp.id ps) h)
        (exchanged_all-no_id peer ps sp (right_false (p.id ==ℤ sp.id) (has_id sp.id ps) h))

  pub merge_into-map :
      (peer : ResultsTest lib) (p : Stream lib.F) (ss : List (Stream lib.F))
      → AreDistinct ss
      → has_id p.id ss ≡ true
      → merge_into lib secs (report_of lib secs peer p) ss ≡ some (map (step peer p) ss)
  unfolding merge_into
  merge_into-map peer p [] hs h = absurd (ground (arith, h))
  merge_into-map peer p (sp ∷ ss) (h1, hs) h = elim (Bool-cases (sp.id ==ℤ p.id)) [
    | inl e ↦
        rw (e, merge_into, merge-report_of)
          (ap (λ xs. some (exchanged peer p sp ∷ xs))
            (sym (map-no_id peer p ss (ap (λ i. has_id i ss) (sym (==ℤ-eq sp.id p.id e)) ∙ h1))))
    | inr e ↦ rw (e, merge_into-map peer p ss hs (rw e at h), merge_into) refl
  ]
