-- ===== src/Time/Examples.antt =====
-- src/iperf_time.c: the theorems on timestamps at concrete times.
use iperf3_windows_msvc.Prelude.{◌%◌, ◌^◌, ◌*◌, ◌+◌, ◌-◌, ◌≤◌, ◌<◌, ◌≡◌, refl, ◌↔◌, arith}
use iperf3_windows_msvc.Prelude.Int.{pos, negsuc}
use iperf3_windows_msvc.Time.{
  IperfTime, IsNormal, time_add_usecs, time_in_usecs, time_compare, time_diff,
}
use iperf3_windows_msvc.Time.Laws.{time_add_usecs_exact, time_compare_sign, time_diff_distance}

abbrev early : IperfTime
early = record { secs = 7; usecs = 900000 }

abbrev late : IperfTime
late = record { secs = 9; usecs = 100000 }

-- A borrow.
borrow : time_diff late early ≡ (0, record { secs = 1; usecs = 200000 })
unfolding time_diff
borrow = refl

time_add_usecs_exact_example :
    IsNormal (time_add_usecs early 250000)
    × (time_in_usecs (time_add_usecs early 250000)
        ≡ (time_in_usecs early + 250000) % (2 ^ 32 * 1000000))
time_add_usecs_exact_example = time_add_usecs_exact early 250000 (omega arith) (omega arith)

time_compare_sign_example :
    ((time_compare early late ≡ negsuc 0) ↔ (time_in_usecs early < time_in_usecs late))
    × ((time_compare early late ≡ pos 0) ↔ (early ≡ late))
    × ((time_compare early late ≡ pos 1) ↔ (time_in_usecs late < time_in_usecs early))
time_compare_sign_example = time_compare_sign early late (omega arith) (omega arith)

time_diff_distance_example :
    (time_in_usecs (time_diff early late).1
      ≡ (time_in_usecs early - time_in_usecs late) + (time_in_usecs late - time_in_usecs early))
    × IsNormal (time_diff early late).1
    × (((time_diff early late).0 ≡ 1) ↔ (time_in_usecs early ≤ time_in_usecs late))
time_diff_distance_example = time_diff_distance early late (omega arith) (omega arith)
