-- ===== src/Time/Laws.antt =====
-- Time arithmetic of iperf_time.c against plain numbers of microseconds.
use iperf_swift.Prelude.{ℕ, ◌+◌, ◌-◌, ◌*◌, ◌≤◌, ◌<◌, ◌≡◌, ◌↔◌, true, arith}
use iperf_swift.Prelude.Words.{u32_mod}
use iperf_swift.Prelude.Int.{pos, negsuc}
use iperf_swift.Time.{Time, usecs_per_sec, time_add_usecs, time_in_usecs, time_compare, time_diff}

-- A timestamp as the clock gives it: 32-bit seconds, less than a second of microseconds.
pub record IsNormal (t : Time) : Type 0 where
  pub secs_in : t.secs < u32_mod
  pub usecs_in : t.usecs < usecs_per_sec

-- the number of microseconds that a timestamp stands for
abbrev pub total : Time → ℕ
total t = t.secs * 1000000 + t.usecs

pub time_in_usecs_exact : {t : Time} → IsNormal t → time_in_usecs t ≡ total t
unfolding time_in_usecs
time_in_usecs_exact n = omega arith

-- Adding microseconds to a normal time, when the sum stays below 2^32 seconds, adds exactly them
-- and gives a normal time.
pub time_add_usecs_exact :
    (t : Time) (usecs : ℕ)
    → IsNormal t
    → total t + usecs < 4294967296 * 1000000
    → (total (time_add_usecs t usecs) ≡ total t + usecs) × IsNormal (time_add_usecs t usecs)
unfolding time_add_usecs
time_add_usecs_exact t usecs n h = omega arith

-- On normal times the comparison is -1, 1 or 0 exactly as the first is earlier, later or equal.
pub time_compare_exact :
    (a b : Time)
    → IsNormal a
    → IsNormal b
    → ((time_compare a b ≡ negsuc 0) ↔ (total a < total b))
      × ((time_compare a b ≡ pos 1) ↔ (total b < total a))
      × ((time_compare a b ≡ pos 0) ↔ (a ≡ b))
unfolding time_compare
time_compare_exact a b na nb = (ground arith, ground arith, ground arith)

-- The difference of normal times is normal, stands for the distance of the two in microseconds, and
-- the flag tells exactly that the first is not later.
pub time_diff_exact :
    (a b : Time)
    → IsNormal a
    → IsNormal b
    → (total (time_diff a b).0 ≡ (total a - total b) + (total b - total a))
      × IsNormal (time_diff a b).0
      × (((time_diff a b).1 ≡ true) ↔ (total a ≤ total b))
unfolding time_diff
time_diff_exact a b na nb = (ground arith, ground arith, ground arith)
