-- ===== src/Udp/Packet.antt =====
-- src/iperf_udp.c: the header of a datagram, seconds, microseconds and packet counter, in network
-- byte order at the offsets 0, 4 and 8.
use iperf3_windows_msvc.Prelude.{
  ℕ, ◌+◌, ◌*◌, ◌/◌, ◌%◌, ◌^◌, ◌<◌, ◌≡◌, ◌∙◌, Bool, true, false, [], ◌∷◌, ◌++◌, arith, get_or, drop,
}
use iperf3_windows_msvc.Time.{IperfTime, u32}
use iperf3_windows_msvc.Net.{Bytes}

-- `htonl` or `htobe64`, and `memcpy`.
abbrev pub be32 : ℕ → Bytes
be32 n = (n / 2 ^ 24 % 256) ∷ (n / 2 ^ 16 % 256) ∷ (n / 2 ^ 8 % 256) ∷ (n % 256) ∷ []

abbrev pub be64 : ℕ → Bytes
be64 n = (n / 2 ^ 56 % 256) ∷ (n / 2 ^ 48 % 256) ∷ (n / 2 ^ 40 % 256) ∷ (n / 2 ^ 32 % 256) ∷ be32 n

-- `memcpy`, and `ntohl` or `be64toh`; `buf` is the buffer from the field on. The buffer is as long
-- as a header by the tests that stand before the reads; past its end the model reads 0.
abbrev pub of_be32 : Bytes → ℕ
of_be32 buf =
    get_or buf 0 0 * 2 ^ 24 + get_or buf 1 0 * 2 ^ 16 + get_or buf 2 0 * 2 ^ 8 + get_or buf 3 0

abbrev pub of_be64 : Bytes → ℕ
of_be64 buf = of_be32 buf * 2 ^ 32 + of_be32 (drop 4 buf)

-- What `iperf_udp_send` puts at the front of a datagram.
unfoldable pub header : Bool → IperfTime → ℕ → Bytes
header true before packet_count = be32 before.secs ++ be32 before.usecs ++ be64 packet_count
header false before packet_count = be32 before.secs ++ be32 before.usecs ++ be32 (u32 packet_count)

-- What `iperf_udp_recv` reads there: `sent_time` and `pcount`.
unfoldable pub read_header : Bool → Bytes → IperfTime × ℕ
read_header true buf =
    (record { secs = of_be32 buf; usecs = of_be32 (drop 4 buf) }, of_be64 (drop 8 buf))
read_header false buf =
    (record { secs = of_be32 buf; usecs = of_be32 (drop 4 buf) }, of_be32 (drop 8 buf))

-- How many values the counter of the header has.
abbrev pub counter_range : Bool → ℕ
counter_range true = 2 ^ 64
counter_range false = 2 ^ 32

be32_bytes :
    (n : ℕ)
    → n < 2 ^ 32
    → n / 2 ^ 24 % 256 * 2 ^ 24 + n / 2 ^ 16 % 256 * 2 ^ 16 + n / 2 ^ 8 % 256 * 2 ^ 8 + n % 256 ≡ n
be32_bytes n h = omega arith

-- What was written is read back, whatever follows.
pub of_be32-be32 : (n : ℕ) (rest : Bytes) → n < 2 ^ 32 → of_be32 (be32 n ++ rest) ≡ n
of_be32-be32 n rest h = be32_bytes n h

be64_bytes :
    (n : ℕ)
    → n < 2 ^ 64
    → (n / 2 ^ 56 % 256 * 2 ^ 24
            + n / 2 ^ 48 % 256 * 2 ^ 16
            + n / 2 ^ 40 % 256 * 2 ^ 8
            + n / 2 ^ 32 % 256)
          * 2 ^ 32
        + (n / 2 ^ 24 % 256 * 2 ^ 24
            + n / 2 ^ 16 % 256 * 2 ^ 16
            + n / 2 ^ 8 % 256 * 2 ^ 8
            + n % 256)
      ≡ n
be64_bytes n h = omega arith

-- The receiver reads back what the sender wrote, whatever follows in the buffer: the time, and the
-- counter if it fits the width that the test uses.
pub read_header-header :
    (wide : Bool) (t : IperfTime) (pcount : ℕ) (rest : Bytes)
    → t.secs < 2 ^ 32
    → t.usecs < 2 ^ 32
    → pcount < counter_range wide
    → read_header wide (header wide t pcount ++ rest) ≡ (t, pcount)
unfolding read_header header
read_header-header true t pcount rest hs hu hp = λ i. (
  record { secs = be32_bytes t.secs hs i; usecs = be32_bytes t.usecs hu i },
  be64_bytes pcount hp i,
)
read_header-header false t pcount rest hs hu hp = λ i. (
  record { secs = be32_bytes t.secs hs i; usecs = be32_bytes t.usecs hu i },
  (be32_bytes (u32 pcount) (omega arith) ∙ fits) i,
)
  where
    fits : u32 pcount ≡ pcount
    fits = omega arith
