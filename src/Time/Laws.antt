-- ===== src/Time/Laws.antt =====
-- src/iperf_time.c: the functions on timestamps against the number of microseconds.
use iperf3_windows_msvc.Prelude.{
  ℕ, ◌+◌, ◌-◌, ◌*◌, ◌%◌, ◌^◌, ◌≤◌, ◌<◌, ◌≡◌, ◌↔◌, arith, ltb, if◌then◌else◌,
}
use iperf3_windows_msvc.Prelude.Int.{pos, negsuc, ltb_ℤ}
use iperf3_windows_msvc.Time.{
  IperfTime, IsNormal, time_add_usecs, time_in_usecs, time_compare, time_diff,
}

-- The microseconds of a timestamp, with no bound.
abbrev pub instant : IperfTime → ℕ
instant t = t.secs * 1000000 + t.usecs

pub in_usecs_instant : (t : IperfTime) → IsNormal t → time_in_usecs t ≡ instant t
unfolding time_in_usecs
in_usecs_instant t h = ground arith

pub time_add_usecs-IsNormal : (t : IperfTime) (usecs : ℕ) → IsNormal (time_add_usecs t usecs)
unfolding time_add_usecs
time_add_usecs-IsNormal t usecs = omega arith

-- Adding microseconds to a timestamp in range gives a timestamp in range, which lies that many
-- microseconds later, counted modulo the 2 ^ 32 seconds of a timestamp. The sum of the microseconds
-- fits 64 bits.
pub time_add_usecs_exact :
    (t : IperfTime) (usecs : ℕ)
    → IsNormal t
    → t.usecs + usecs < 2 ^ 64
    → IsNormal (time_add_usecs t usecs)
      × (time_in_usecs (time_add_usecs t usecs) ≡ (time_in_usecs t + usecs) % (2 ^ 32 * 1000000))
unfolding time_add_usecs time_in_usecs
time_add_usecs_exact t usecs h fits = (time_add_usecs-IsNormal t usecs, omega arith)

pub instant-add_usecs :
    (t : IperfTime) (usecs : ℕ)
    → IsNormal t
    → instant t + usecs < 2 ^ 32 * 1000000
    → instant (time_add_usecs t usecs) ≡ instant t + usecs
unfolding time_add_usecs
instant-add_usecs t usecs h fits = omega arith

-- The comparison of two timestamps in range is the sign of their distance in microseconds.
pub time_compare_sign :
    (a b : IperfTime)
    → IsNormal a
    → IsNormal b
    → ((time_compare a b ≡ negsuc 0) ↔ (time_in_usecs a < time_in_usecs b))
      × ((time_compare a b ≡ pos 0) ↔ (a ≡ b))
      × ((time_compare a b ≡ pos 1) ↔ (time_in_usecs b < time_in_usecs a))
unfolding time_compare time_in_usecs
time_compare_sign a b ha hb = (
  (λ e. ground arith, λ e. ground arith),
  (λ e. ground arith, λ e. ground arith),
  (λ e. ground arith, λ e. ground arith),
)

-- The difference of two timestamps in range is their distance in microseconds, in whichever order
-- they come, and is in range itself; `past` is 1 exactly when the first is not later.
pub time_diff_distance :
    (a b : IperfTime)
    → IsNormal a
    → IsNormal b
    → (time_in_usecs (time_diff a b).1
        ≡ (time_in_usecs a - time_in_usecs b) + (time_in_usecs b - time_in_usecs a))
      × IsNormal (time_diff a b).1
      × (((time_diff a b).0 ≡ 1) ↔ (time_in_usecs a ≤ time_in_usecs b))
unfolding time_diff time_in_usecs
time_diff_distance a b ha hb = (ground arith, ground arith, (λ e. ground arith, λ e. ground arith))

pub before_lem :
    (a b : IperfTime)
    → IsNormal a
    → IsNormal b
    → ltb_ℤ (time_compare a b) (pos 0) ≡ ltb (instant a) (instant b)
unfolding time_compare
before_lem a b ha hb = ground arith

pub after_lem :
    (a b : IperfTime)
    → IsNormal a
    → IsNormal b
    → ltb_ℤ (pos 0) (time_compare a b) ≡ ltb (instant b) (instant a)
unfolding time_compare
after_lem a b ha hb = ground arith

-- The difference without the wrap of `time_in_usecs`.
pub instant-diff :
    (a b : IperfTime)
    → IsNormal a
    → IsNormal b
    → (instant (time_diff a b).1 ≡ (instant a - instant b) + (instant b - instant a))
      × ((time_diff a b).0 ≡ (if ltb (instant b) (instant a) then 0 else 1))
unfolding time_diff
instant-diff a b ha hb = (ground arith, ground arith)
