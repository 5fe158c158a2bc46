-- ===== src/Json/Trip.antt =====
-- src/iperf_api.c: `JSON_read` gives what `JSON_write` was called with.
use iperf3_windows_msvc.Prelude.{
  ℕ, ◌+◌, ◌^◌, ◌<◌, ◌≡◌, refl, ◌∙◌, ap, true, ◌||◌, ◌%◌, some, [], ◌++◌, append_assoc, arith,
  length, leb, ◌==◌, lt→ltb,
}
use iperf3_windows_msvc.Prelude.Int.{pos}
use iperf3_windows_msvc.Time.{IperfTime}
use iperf3_windows_msvc.Net.{Bytes, got, Sys, nread}
use iperf3_windows_msvc.Net.Whole.{IsLocal, nread_whole, nwrite_whole}
use iperf3_windows_msvc.Udp.Packet.{be32, of_be32-be32}
use iperf3_windows_msvc.Json.{Json, IsLibrary, Key}
use iperf3_windows_msvc.Json.Frame.{json_write, json_read, write_text, read_text, parse_text}
use iperf3_windows_msvc.Json.Channel.{frame, not_negative, length_test}

-- A text that both sides can send: not empty, within the limit of the reader, and memory for it.
pub record IsSendable (lib : Json) (max_size : ℕ) (str : Bytes) : Type 0 where
  pub not_empty : 0 < length str
  pub small : length str + 1 < 2 ^ 31
  pub within : ((max_size == 0) || leb (length str) max_size) ≡ true
  pub space : lib.alloc (length str + 1) ≡ true

-- A descriptor of which a write takes all that it is given.
abbrev pub Takes : {W : Type 0} → Sys W → ℕ → (W → Bytes) → Type 0
Takes {W} sys fd sent =
    (xs : Bytes) (w : W)
    → (v : W) × (bytes : Bytes) × (sys.write fd xs w ≡ (got (length xs) bytes, v))
      × (sent v ≡ sent w ++ xs)

-- `select` takes nothing off the stream.
abbrev pub Quiet : {W : Type 0} → Sys W → ℕ → (W → Bytes) → Type 0
Quiet {W} sys fd incoming = (t : IperfTime) (w : W) → incoming (sys.select fd t w).1 ≡ incoming w

module _ {W : Type 0} (lib : Json) (sys : Sys W) (fd : ℕ) where
  -- The four bytes and the text.
  pub json_write-frame :
      (sent : W → Bytes)
      → Takes sys fd sent
      → (o : lib.Obj) (str : Bytes) → lib.print o ≡ some str
      → 0 < length str
      → length str < 2 ^ 31
      → (w : W)
      → (v : W) × (json_write lib sys fd o w ≡ some (pos 0, v)) × (sent v ≡ sent w ++ frame str)
  unfolding json_write write_text
  json_write-frame sent takes o str printed some_bytes small w =
      let (w1, wrote1, sent1) =
        nwrite_whole sys fd sent takes (be32 (length str)) w (omega arith) (omega arith) in
      let (w2, wrote2, sent2) = nwrite_whole sys fd sent takes str w1 some_bytes small in
      (
        w2,
        rw (printed, wrote1, wrote2, not_negative (length str), json_write) refl,
        sent2 ∙ ap (λ xs. xs ++ str) sent1 ∙ append_assoc (sent w) (be32 (length str)) str,
      )

  text_comes :
      (max_size : ℕ) (str : Bytes) (w v : W)
      → IsSendable lib max_size str
      → nread sys fd (length str) w ≡ some (pos (length str), str, v)
      → read_text lib sys fd max_size (length str) w ≡ some (lib.parse str, v)
  unfolding read_text parse_text
  text_comes max_size str w v good reads =
      let size : (length str + 1) % 2 ^ 32 ≡ length str + 1 = omega (arith, good.small) in
      let same : (length str == length str) ≡ true = ground arith in
      rw
        (
          lt→ltb 0 (length str) good.not_empty,
          good.within,
          size,
          lt→ltb 0 (length str + 1) (omega arith),
          good.space,
          reads,
          not_negative (length str),
          length_test,
          same,
          read_text,
        )
        refl

  pub json_read-frame :
      (incoming : W → Bytes)
      → Quiet sys fd incoming
      → IsLocal sys fd incoming
      → (max_size : ℕ) (str rest : Bytes) (w : W) → IsSendable lib max_size str
      → incoming w ≡ frame str ++ rest
      → (v : W) × (json_read lib sys fd max_size w ≡ some (lib.parse str, v)) × (incoming v ≡ rest)
  unfolding json_read
  json_read-frame incoming quiet near max_size str rest w good e =
      let (w1, read1, left1) =
        nread_whole sys fd incoming quiet near (be32 (length str)) (str ++ rest) w (omega arith)
          (omega arith) (e ∙ append_assoc (be32 (length str)) str rest) in
      let (w2, read2, left2) =
        nread_whole sys fd incoming quiet near str rest w1 good.not_empty
          (omega (arith, good.small)) left1 in
      (
        w2,
        rw (read1, json_read)
            (ap (λ n. read_text lib sys fd max_size n w1)
                (of_be32-be32 (length str) [] (omega (arith, good.small)))
              ∙ text_comes max_size str w1 w2 good read2),
        left2,
      )

  -- `JSON_write` sends one frame, the length and the text, and returns 0; `JSON_read` on a stream with
  -- this frame in front gives an object with the same members, and takes nothing after the frame. The
  -- kernel takes and has all bytes at once; the text is not empty, shorter than 2 ^ 31 and within the
  -- limit of the reader, and there is memory for it.
  pub json_read-json_write :
      IsLibrary lib
      → (sent incoming : W → Bytes) → Takes sys fd sent
      → Quiet sys fd incoming
      → IsLocal sys fd incoming
      → (o : lib.Obj) (str : Bytes) → lib.print o ≡ some str
      → (max_size : ℕ) → IsSendable lib max_size str
      → (w u : W) (rest : Bytes) → incoming u ≡ frame str ++ rest
      → ((v : W) × (json_write lib sys fd o w ≡ some (pos 0, v)) × (sent v ≡ sent w ++ frame str))
        × ((p : lib.Obj) × (x : W) × (json_read lib sys fd max_size u ≡ some (some p, x))
            × (incoming x ≡ rest)
            × ((k : Key) → lib.get p k ≡ lib.get o k))
  json_read-json_write law sent incoming takes quiet near o str printed max_size good w u rest e =
      let (p, parsed, members) = law.parse_print o str printed in
      let (x, read, left) = json_read-frame incoming quiet near max_size str rest u good e in
      (
        json_write-frame sent takes o str printed good.not_empty (omega (arith, good.small)) w,
        (p, x, read ∙ ap (λ q. some (q, x)) parsed, left, members),
      )
