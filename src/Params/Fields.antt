-- ===== src/Params/Fields.antt =====
-- src/iperf_api.c: what `get_parameters` reads, member by member, out of what `send_parameters` added.
use iperf3_windows_msvc.Prelude.{
  ℕ, ◌≤◌, ◌<◌, ◌^◌, ◌≡◌, refl, ap, ◌∙◌, arith, Bool, true, false, Option, none, some, if◌then◌else◌,
}
use iperf3_windows_msvc.Prelude.Int.{ℤ, pos}
use iperf3_windows_msvc.Json.{
  Bytes, Key, boolean, Json, IsLibrary, get_boolean, get_number, get_text,
}
use iperf3_windows_msvc.Json.Members.{or_else}
use iperf3_windows_msvc.Params.Words.{
  IsInt, to_i32, to_u32, to_u64, to_i32_id, to_u32_id, to_u64_id, int_IsExact,
}
use iperf3_windows_msvc.Params.Entries.{given_if, text_item, int_item}
use iperf3_windows_msvc.Params.Get.{
  get_int, get_u32, get_u64, get_switch, get_string, get_valueint, get_flag,
}

module _ (lib : Json) (law : IsLibrary lib) (o : lib.Obj) (k : Key) where
  pub int_sent :
      (test : Bool) (n old : ℤ)
      → IsInt n
      → lib.get o k ≡ or_else (given_if test (int_item lib n)) none
      → get_int lib o k old ≡ (if test then n else old)
  unfolding get_int get_number
  int_sent false n old small e = rw (e, get_int) refl
  int_sent true n old small e =
      rw (e, get_int) (ap to_i32 (law.exact n (int_IsExact n small)) ∙ to_i32_id n small)

  pub valueint_sent :
      (test : Bool) (n old : ℤ)
      → IsInt n
      → lib.get o k ≡ or_else (given_if test (int_item lib n)) none
      → get_valueint lib o k old ≡ (if test then n else old)
  unfolding get_valueint
  valueint_sent false n old small e = rw (e, get_valueint) refl
  valueint_sent true n old small e =
      rw (e, get_valueint) (ap to_i32 (law.exact n (int_IsExact n small)) ∙ to_i32_id n small)

  pub u64_sent :
      (test : Bool) (n old : ℕ)
      → n ≤ 2 ^ 53
      → lib.get o k ≡ or_else (given_if test (int_item lib (pos n))) none
      → get_u64 lib o k old ≡ (if test then n else old)
  unfolding get_u64 get_number
  u64_sent false n old small e = rw (e, get_u64) refl
  u64_sent true n old small e =
      rw (e, get_u64) (ap to_u64 (law.exact (pos n) (omega arith)) ∙ to_u64_id n (omega arith))

  pub u32_sent :
      (test : Bool) (n old : ℕ)
      → n < 2 ^ 32
      → lib.get o k ≡ or_else (given_if test (int_item lib (pos n))) none
      → get_u32 lib o k old ≡ (if test then n else old)
  unfolding get_u32 get_number
  u32_sent false n old small e = rw (e, get_u32) refl
  u32_sent true n old small e =
      rw (e, get_u32) (ap to_u32 (law.exact (pos n) (omega arith)) ∙ to_u32_id n (omega arith))

  pub switch_sent :
      (test : Bool) (n old : ℤ)
      → lib.get o k ≡ or_else (given_if test (int_item lib n)) none
      → get_switch lib o k old ≡ (if test then pos 1 else old)
  unfolding get_switch get_number
  switch_sent false n old e = rw (e, get_switch) refl
  switch_sent true n old e = rw (e, get_switch) refl

  pub string_sent :
      (s old : Option Bytes)
      → lib.get o k ≡ or_else (text_item s) none
      → get_string lib o k old ≡ or_else s old
  unfolding get_string get_text
  string_sent none old e = rw (e, get_string) refl
  string_sent (some s) old e = rw (e, get_string) refl

  pub flag_sent :
      (test : Bool)
      → lib.get o k ≡ or_else (given_if test (boolean true)) none
      → get_flag lib o k ≡ test
  unfolding get_flag get_boolean
  flag_sent false e = rw (e, get_flag) refl
  flag_sent true e = rw (e, get_flag) refl
