-- ===== src/Time/Tests.antt =====
-- Timestamps of iperf_time.c at concrete values.
use iperf_swift.Prelude.{◌+◌, ◌-◌, ◌≤◌, ◌≡◌, ◌↔◌, true, arith}
use iperf_swift.Time.{Time, time_diff}
use iperf_swift.Time.Laws.{IsNormal, total, time_diff_exact}

abbrev early : Time
early = record { secs = 3; usecs = 999999 }

abbrev late : Time
late = record { secs = 5; usecs = 1 }

early-IsNormal : IsNormal early
early-IsNormal = record { secs_in = omega arith; usecs_in = omega arith }

late-IsNormal : IsNormal late
late-IsNormal = record { secs_in = omega arith; usecs_in = omega arith }

time_diff_exact_example :
    (total (time_diff early late).0 ≡ (total early - total late) + (total late - total early))
    × IsNormal (time_diff early late).0
    × (((time_diff early late).1 ≡ true) ↔ (total early ≤ total late))
time_diff_exact_example = time_diff_exact early late early-IsNormal late-IsNormal
