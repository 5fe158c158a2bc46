-- ===== src/Time.antt =====
-- src/iperf_time.c: timestamps of two uint32_t, seconds and microseconds.
pub mod Laws
mod Examples
use iperf3_windows_msvc.Prelude.{
  ℕ, zero, suc, ◌+◌, ◌-◌, ◌*◌, ◌/◌, ◌%◌, ◌^◌, ◌<◌, ltb, if◌then◌else◌,
}
use iperf3_windows_msvc.Prelude.Int.{ℤ, pos, negsuc, ltb_ℤ}

-- struct iperf_time
pub record IperfTime : Type 0 where
  pub secs : ℕ  -- uint32_t
  pub usecs : ℕ  -- uint32_t

abbrev pub u32 : ℕ → ℕ
u32 n = n % 2 ^ 32

abbrev pub u64 : ℕ → ℕ
u64 n = n % 2 ^ 64

-- uint32_t a - b
abbrev pub sub32 : ℕ → ℕ → ℕ
sub32 a b = (a + 2 ^ 32 - b) % 2 ^ 32

-- The sum of the microseconds is a uint64_t; the seconds wrap as a uint32_t.
unfoldable pub time_add_usecs : IperfTime → ℕ → IperfTime
time_add_usecs time1 usecs =
    let total_usecs = u64 (time1.usecs + usecs) in
    record { secs = u32 (time1.secs + total_usecs / 1000000); usecs = u32 (total_usecs % 1000000) }

unfoldable pub time_in_usecs : IperfTime → ℕ
time_in_usecs time = u64 (time.secs * 1000000 + time.usecs)

-- -1, 1 or 0, as `time1` is earlier, later or equal.
unfoldable pub time_compare : IperfTime → IperfTime → ℤ
time_compare time1 time2 =
    if ltb time1.secs time2.secs
    then negsuc 0
    else if ltb time2.secs time1.secs
    then pos 1
    else if ltb time1.usecs time2.usecs
    then negsuc 0
    else if ltb time2.usecs time1.usecs
    then pos 1
    else pos 0

-- The branch of `iperf_time_diff` that subtracts `early` from `late`, with a borrow.
time_sub : IperfTime → IperfTime → IperfTime
time_sub late early =
    let secs = sub32 late.secs early.secs in
    if ltb late.usecs early.usecs
    then record { secs = sub32 secs 1; usecs = sub32 (u32 (late.usecs + 1000000)) early.usecs }
    else record { secs = secs; usecs = sub32 late.usecs early.usecs }

-- The returned `past`, and the difference.
unfoldable pub time_diff : IperfTime → IperfTime → ℕ × IperfTime
unfolding time_sub time_compare
time_diff time1 time2 = elim (time_compare time1 time2) [
  | pos zero ↦ (1, record { secs = 0; usecs = 0 })
  | pos (suc zero) ↦ (0, time_sub time1 time2)
  | _ ↦ (1, time_sub time2 time1)
]

-- Both fields are in range: what every function above returns when it is given such times.
pub record IsNormal (t : IperfTime) : Type 0 where
  pub secs_fit : t.secs < 2 ^ 32
  pub usecs_fit : t.usecs < 1000000
