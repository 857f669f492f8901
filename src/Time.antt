-- ===== src/Time.antt =====
-- Sources/IperfCLib/iperf_time.c: timestamps in seconds and microseconds.
pub mod Laws
mod Tests
use iperf_swift.Prelude.{
  ℕ, zero, suc, ◌+◌, ◌*◌, ◌/◌, ◌%◌, ◌<◌, Bool, true, false, ltb, if◌then◌else◌,
}
use iperf_swift.Prelude.Words.{u32, u64, u32_mod, sub_u32}
use iperf_swift.Prelude.Int.{ℤ, pos, negsuc}

-- `struct iperf_time`, both fields `uint32_t`
pub record Time : Type 0 where
  pub secs : ℕ
  pub usecs : ℕ

abbrev pub usecs_per_sec : ℕ
usecs_per_sec = 1000000

-- The new fields of `*time1`: the microseconds are added on 64 bits, the seconds on 32.
unfoldable pub time_add_usecs : Time → ℕ → Time
time_add_usecs time1 usecs =
    let total_usecs = u64 (time1.usecs + usecs) in
    record {
      secs = u32 (time1.secs + total_usecs / usecs_per_sec);
      usecs = total_usecs % usecs_per_sec;
    }

-- `secs * 1000000LL + usecs` has a signed 64-bit type, which holds it for all 32-bit fields.
unfoldable pub time_in_usecs : Time → ℕ
time_in_usecs time = u64 (time.secs * usecs_per_sec + time.usecs)

-- -1, 1 or 0.
unfoldable pub time_compare : Time → Time → ℤ
time_compare time1 time2 =
    if ltb time1.secs time2.secs
    then negsuc 0
    else if ltb time2.secs time1.secs
    then pos 1
    else if ltb time1.usecs time2.usecs
    then negsuc 0
    else if ltb time2.usecs time1.usecs
    then pos 1
    else pos 0

-- The body that two branches of `iperf_time_diff` share: `later - earlier`, with a borrow.
time_borrow : Time → Time → Time
time_borrow later earlier =
    let secs = sub_u32 later.secs earlier.secs in
    if ltb later.usecs earlier.usecs
    then record {
      secs = sub_u32 secs 1;
      usecs = sub_u32 (u32 (later.usecs + usecs_per_sec)) earlier.usecs;
    }
    else record { secs = secs; usecs = sub_u32 later.usecs earlier.usecs }

-- `*diff` and the returned `past`.
unfoldable pub time_diff : Time → Time → Time × Bool
unfolding time_borrow time_compare
time_diff time1 time2 = elim (time_compare time1 time2) [
  | pos zero ↦ (record { secs = 0; usecs = 0 }, true)
  | pos (suc _) ↦ (time_borrow time1 time2, false)
  | negsuc _ ↦ (time_borrow time2 time1, true)
]
