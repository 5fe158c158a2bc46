-- ===== src/Results/Exchange.antt =====
-- src/iperf_api.c: after `get_results`, each stream has what the peer knows of the stream with its
-- number.
use iperf3_windows_msvc.Prelude.{
  ℕ, ◌≡◌, refl, sym, ap, ◌∙◌, true, false, some, List, [], ◌∷◌, map, inl, inr, All, Bool-cases,
}
use iperf3_windows_msvc.Prelude.Int.{ℤ, ◌==ℤ◌}
use iperf3_windows_msvc.Json.{Json, IsLibrary}
use iperf3_windows_msvc.Json.Members.{add_all, get-add_all}
use iperf3_windows_msvc.Results.Send.{stream_entries, stream_objects}
use iperf3_windows_msvc.Results.Take.{take_stream, take_streams}
use iperf3_windows_msvc.Results.Merge.{IsReported, read_report-stream_entries}
use iperf3_windows_msvc.Results.Pairing.{
  has_id, AreDistinct, ==ℤ-eq, map_pointwise, map-map, map_same, exchanged, exchanged_all, step,
  exchanged_id, has_id-map, map-AreDistinct, exchanged_all-no_id, merge_into-map,
}
use iperf3_windows_msvc.Results.{Stream, ResultsTest, Seconds}

module _ (lib : Json) (law : IsLibrary lib) (secs : Seconds lib.F) (peer : ResultsTest lib)
    (j : lib.Obj) (created : lib.create ≡ some j) where
  abbrev entry : Stream lib.F → lib.Obj
  entry p = add_all lib j (stream_entries lib secs peer p)

  stream_objects-map :
      (ps : List (Stream lib.F)) → stream_objects lib secs peer ps ≡ (true, map entry ps)
  unfolding stream_objects
  stream_objects-map [] = refl
  stream_objects-map (p ∷ ps) = rw (stream_objects, created, stream_objects-map ps) refl

  take_stream-entry :
      (p : Stream lib.F) (r : ℤ) (e : ℕ) (ss : List (Stream lib.F))
      → IsReported peer p
      → AreDistinct ss
      → has_id p.id ss ≡ true
      → take_stream lib secs (entry p) (r, e, ss) ≡ (r, e, map (step lib secs peer p) ss)
  unfolding take_stream
  take_stream-entry p r e ss good distinct known =
      rw
        (
          take_stream,
          read_report-stream_entries lib secs law (entry p) peer p
              (λ k.
                get-add_all lib law j (stream_entries lib secs peer p) k
                  (law.get_create j created k))
              good,
          merge_into-map lib secs peer p ss distinct known,
        )
        refl

  -- The stream that has just changed is not changed again.
  exchanged_all-step :
      (p : Stream lib.F) (ps : List (Stream lib.F))
      → has_id p.id ps ≡ false
      → (sp : Stream lib.F)
      → exchanged_all lib secs peer ps (step lib secs peer p sp)
        ≡ exchanged_all lib secs peer (p ∷ ps) sp
  exchanged_all-step p ps distinct sp = elim (Bool-cases (sp.id ==ℤ p.id)) [
    | inl e ↦ rw e (
        exchanged_all-no_id lib secs peer ps (exchanged lib secs peer p sp) (
          ap (λ i. has_id i ps) (exchanged_id lib secs peer p sp ∙ ==ℤ-eq sp.id p.id e) ∙ distinct))
    | inr e ↦ rw e refl
  ]

  take_streams-entries :
      (ps : List (Stream lib.F)) (r : ℤ) (e : ℕ) (ss : List (Stream lib.F))
      → All (IsReported peer) ps
      → AreDistinct ps
      → AreDistinct ss
      → All (λ p. has_id p.id ss ≡ true) ps
      → take_streams lib secs (map entry ps) (r, e, ss)
        ≡ (r, e, map (exchanged_all lib secs peer ps) ss)
  unfolding take_streams
  take_streams-entries [] r e ss good dp ds known = ap (λ xs. (r, e, xs)) (sym (map_same ss))
  take_streams-entries (p ∷ ps) r e ss (good, goods) (dp, dps) ds (known, knowns) =
      ap (take_streams lib secs (map entry ps)) (take_stream-entry p r e ss good ds known)
      ∙ take_streams-entries ps r e (map (step lib secs peer p) ss) goods dps
          (map-AreDistinct lib secs peer p ss ds) (still ps knowns)
      ∙ ap (λ xs. (r, e, xs))
          (map-map (exchanged_all lib secs peer ps) (step lib secs peer p) ss
            ∙ map_pointwise _ _ ss (exchanged_all-step p ps dp))
    where
      still :
          (qs : List (Stream lib.F))
          → All (λ q. has_id q.id ss ≡ true) qs
          → All (λ q. has_id q.id (map (step lib secs peer p) ss) ≡ true) qs
      still [] h = h
      still (q ∷ qs) (h, hs) = (has_id-map lib secs peer p q.id ss ∙ h, still qs hs)

  -- `send_results` makes an object for each stream of the peer, and `get_results` on these objects
  -- fails for none: in the end each stream has taken over what the peer's stream with its number
  -- counted, whatever the order of the streams on the two sides, and a stream that the peer does not
  -- have is as before. The numbers of the streams differ on each side, those of the peer are known
  -- here, and the counts fit their types and a double.
  pub take_streams-stream_objects :
      (ps : List (Stream lib.F)) (r : ℤ) (e : ℕ) (ss : List (Stream lib.F))
      → All (IsReported peer) ps
      → AreDistinct ps
      → AreDistinct ss
      → All (λ p. has_id p.id ss ≡ true) ps
      → take_streams lib secs (stream_objects lib secs peer ps).1 (r, e, ss)
        ≡ (r, e, map (exchanged_all lib secs peer ps) ss)
  take_streams-stream_objects ps r e ss good dp ds known =
      ap (λ a. take_streams lib secs a.1 (r, e, ss)) (stream_objects-map ps)
      ∙ take_streams-entries ps r e ss good dp ds known
