-- ===== src/Params/Words.antt =====
-- The C conversions between the integer types of the parameters and `valueint`, which is an int64_t.
use iperf3_windows_msvc.Prelude.{
  ℕ, ◌+◌, ◌-◌, ◌/◌, ◌%◌, ◌^◌, ◌≤◌, ◌<◌, ◌≡◌, arith, ltb, if◌then◌else◌,
}
use iperf3_windows_msvc.Prelude.Int.{ℤ, pos, negsuc, pos_part, neg_part}
use iperf3_windows_msvc.Json.{IsExact}
use iperf3_windows_msvc.Net.{to_int}

-- To uint64_t, and to int and unsigned int.
unfoldable pub to_u64 : ℤ → ℕ
to_u64 (pos n) = n % 2 ^ 64
to_u64 (negsuc n) = 2 ^ 64 - 1 - n % 2 ^ 64

unfoldable pub to_i32 : ℤ → ℤ
unfolding to_u64
to_i32 n = to_int (to_u64 n)

unfoldable pub to_u32 : ℤ → ℕ
unfolding to_u64
to_u32 n = to_u64 n % 2 ^ 32

-- The values of an int.
abbrev pub IsInt : ℤ → Type 0
IsInt n = (pos_part n < 2 ^ 31) × (neg_part n ≤ 2 ^ 31)

pub to_i32_id : (n : ℤ) → IsInt n → to_i32 n ≡ n
unfolding to_i32 to_u64
to_i32_id (pos n) h = ground arith
to_i32_id (negsuc n) h = ground arith

pub to_u64_id : (n : ℕ) → n < 2 ^ 64 → to_u64 (pos n) ≡ n
unfolding to_u64
to_u64_id n h = omega arith

pub to_u32_id : (n : ℕ) → n < 2 ^ 32 → to_u32 (pos n) ≡ n
unfolding to_u32 to_u64
to_u32_id n h = omega arith

pub int_IsExact : (n : ℤ) → IsInt n → IsExact n
int_IsExact n h = omega (arith, h.0, h.1)

-- Division of an int by a positive int, which rounds towards 0.
unfoldable pub quot : ℤ → ℕ → ℤ
quot (pos n) d = pos (n / d)
quot (negsuc n) d = let q = (n + 1) / d in if ltb 0 q then negsuc (q - 1) else pos 0
