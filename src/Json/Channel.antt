-- ===== src/Json/Channel.antt =====
-- src/iperf_api.c: what `JSON_read` accepts, and that it reads back what `JSON_write` wrote.
use iperf3_windows_msvc.Prelude.{
  ℕ, ◌+◌, ◌^◌, ◌≤◌, ◌<◌, ◌≡◌, refl, sym, ◌∙◌, ap, inl, inr, true, false, ◌&&◌, ◌||◌, ◌%◌, Option,
  none, some, ◌++◌, append_assoc, arith, length, length-append, ltb, leb, ◌==◌, Bool-cases,
}
use iperf3_windows_msvc.Prelude.Int.{ℤ, pos, ltb_ℤ, ◌==ℤ◌}
use iperf3_windows_msvc.Net.{Bytes, Sys}
use iperf3_windows_msvc.Net.Recv.{IsStream, IsRead, nread_front}
use iperf3_windows_msvc.Udp.Packet.{be32, of_be32}
use iperf3_windows_msvc.Json.{Json}
use iperf3_windows_msvc.Json.Frame.{json_read, read_text, parse_text}

-- A length and a text.
abbrev pub frame : Bytes → Bytes
frame str = be32 (length str) ++ str

pub not_negative : (n : ℕ) → ltb_ℤ (pos n) (pos 0) ≡ false
not_negative n = ground arith

pub length_test : (m n : ℕ) → (pos m ==ℤ pos n) ≡ (m == n)
length_test m n = ground arith

admitted_bounds :
    (n max_size : ℕ)
    → 0 < max_size
    → (ltb 0 n && ((max_size == 0) || leb n max_size)) ≡ true
    → (0 < n) × (n ≤ max_size)
admitted_bounds n max_size limited h = ground arith

module _ {W : Type 0} (lib : Json) (sys : Sys W) (fd : ℕ) (incoming : W → Bytes) where
  -- The message stands at the front of the stream: four bytes that give the length of the text,
  -- which is within the limit, and the text.
  pub record IsMessage (max_size : ℕ) (w v : W) (o : lib.Obj) : Type 0 where
    pub head : Bytes
    pub str : Bytes
    pub head_size : length head ≡ 4
    pub announced : of_be32 head ≡ length str
    pub not_empty : 0 < length str
    pub within : length str ≤ max_size
    pub parsed : lib.parse str ≡ some o
    pub front : incoming w ≡ head ++ (str ++ incoming v)

  -- What was taken off the stream without a message.
  pub record IsRefusal (max_size : ℕ) (w v : W) : Type 0 where
    pub taken : Bytes
    pub size : length taken ≤ 4 + max_size
    pub front : incoming w ≡ taken ++ incoming v

  abbrev pub Outcome : ℕ → W → Option lib.Obj × W → Type 0
  Outcome max_size w (none, v) = IsRefusal max_size w v
  Outcome max_size w (some o, v) = IsMessage max_size w v o

  module _ (stream : IsStream sys fd incoming) (max_size : ℕ) (small : max_size < 2 ^ 31) where
    module _ (w u : W) (head : Bytes) (e : incoming w ≡ head ++ incoming u)
        (four : length head ≡ 4) where
      refuse :
          (n : ℕ) (r : ℤ × Bytes × W)
          → n ≤ max_size
          → IsRead sys fd incoming n u r
          → IsRefusal max_size w r.2
      refuse n r le read = record {
        taken = head ++ r.1;
        size = omega (arith, length-append head r.1, read.fits);
        front = e ∙ ap (λ xs. head ++ xs) read.front ∙ sym (append_assoc head r.1 (incoming r.2));
      }

      accept :
          (n : ℕ) (r : ℤ × Bytes × W) (o : Option lib.Obj)
          → of_be32 head ≡ n
          → 0 < n
          → n ≤ max_size
          → IsRead sys fd incoming n u r
          → n ≡ length r.1
          → lib.parse r.1 ≡ o
          → Outcome max_size w (o, r.2)
      accept n r none announced positive le read whole parsed = refuse n r le read
      accept n r (some o) announced positive le read whole parsed = record {
        head = head;
        str = r.1;
        head_size = four;
        announced = announced ∙ whole;
        not_empty = omega arith;
        within = omega arith;
        parsed = parsed;
        front = e ∙ ap (λ xs. head ++ xs) read.front;
      }

      text-Outcome :
          (n : ℕ) (r : ℤ × Bytes × W)
          → of_be32 head ≡ n
          → 0 < n
          → n ≤ max_size
          → IsRead sys fd incoming n u r
          → Outcome max_size w (parse_text lib sys fd n r)
      unfolding parse_text
      text-Outcome n r announced positive le read = elim read.result [
        | inl hard ↦ rw hard (refuse n r le read)
        | inr good ↦
            rw (good, not_negative)
              (elim (Bool-cases (length r.1 == n)) [
                | inl same ↦
                    rw (length_test, same)
                      (accept n r _ announced positive le read (ground arith) refl)
                | inr short ↦ rw (length_test, short) (refuse n r le read)
              ])
      ]

      hsize-Outcome :
          (n : ℕ)
          → 0 < max_size
          → of_be32 head ≡ n
          → (a : Option lib.Obj × W) × (read_text lib sys fd max_size n u ≡ some a)
            × Outcome max_size w a
      unfolding read_text
      hsize-Outcome n limited announced =
          elim (Bool-cases (ltb 0 n && ((max_size == 0) || leb n max_size))) [
            | inl admitted ↦
                let (positive, le) = admitted_bounds n max_size limited admitted in
                let (r, reads, is_read) = nread_front sys fd incoming stream n (omega arith) u in
                elim (Bool-cases (ltb 0 ((n + 1) % 2 ^ 32) && lib.alloc ((n + 1) % 2 ^ 32))) [
                  | inl space ↦ (
                    parse_text lib sys fd n r,
                    rw (admitted, space, reads, read_text) refl,
                    text-Outcome n r announced positive le is_read,
                  )
                  | inr no_space ↦ ((none, u), rw (admitted, no_space, read_text) refl, untouched)
                ]
            | inr refused ↦ ((none, u), rw (refused, read_text) refl, untouched)
          ]
        where
          untouched : IsRefusal max_size w u
          untouched = record { taken = head; size = omega arith; front = e }

    -- `JSON_read` with a limit always returns. It gives a JSON value only if that many bytes as the
    -- four bytes in front announce have come, within the limit; then it has taken just these, and
    -- the value is what the text parses to. Else it has taken at most four bytes and the limit.
    pub json_read_lem :
        (w : W)
        → 0 < max_size
        → (a : Option lib.Obj × W) × (json_read lib sys fd max_size w ≡ some a)
          × Outcome max_size w a
    unfolding json_read
    json_read_lem w limited =
        let (r, reads, is_read) = nread_front sys fd incoming stream 4 (omega arith) w in
        elim (Bool-cases (r.0 ==ℤ pos 4)) [
          | inl four ↦
              let (a, gives, good) =
                hsize-Outcome w r.2 r.1 is_read.front (four_bytes r is_read four) (of_be32 r.1)
                  limited refl in
              (a, rw (reads, four, json_read) gives, good)
          | inr other ↦ (
            (none, r.2),
            rw (reads, other, json_read) refl,
            record { taken = r.1; size = omega (arith, is_read.fits); front = is_read.front },
          )
        ]
      where
        four_bytes :
            (r : ℤ × Bytes × W)
            → IsRead sys fd incoming 4 w r
            → (r.0 ==ℤ pos 4) ≡ true
            → length r.1 ≡ 4
        four_bytes r is_read four = elim is_read.result [
          | inl hard ↦ absurd (ground arith)
          | inr good ↦ ground arith
        ]
