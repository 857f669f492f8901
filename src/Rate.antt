-- ===== src/Rate.antt =====
-- iperf_check_total_rate of iperf_api.c: the server's limit on the total rate, averaged over the last
-- intervals, whose bytes stand in a cyclic array.
pub mod Window
pub mod Average
mod Tests
use iperf_swift.Prelude.{
  ℕ, zero, suc, ◌+◌, ◌*◌, Bool, true, false, not, ◌&&◌, ◌||◌, Option, none, some, List, [], ◌∷◌,
  if◌then◌else◌, ltb, leb, ◌==◌, take,
}
use iperf_swift.Prelude.Words.{u64}

-- The fields of `struct iperf_test` that it uses. `intervals` is the array, of 60 entries.
pub record RateWindow : Type 0 where
  pub intervals : List ℕ
  pub last_index : ℕ
  pub stats_count : ℕ
  pub exceeded : Bool

-- `bitrate_limit`, `bitrate_limit_stats_per_interval`, and the rate that the code computes with
-- `double` from the bytes of all these intervals.
pub record RateLimit : Type 0 where
  pub bitrate_limit : ℕ
  pub stats_per_interval : ℕ
  pub bits_per_second : ℕ → ℕ

-- an assignment to an entry: none where the array has none there
abbrev pub write_at : ℕ → ℕ → List ℕ → Option (List ℕ)
write_at i v [] = none
write_at zero v (x ∷ xs) = some (v ∷ xs)
write_at (suc i) v (x ∷ xs) = elim (write_at i v xs) [ none ↦ none | some ys ↦ some (x ∷ ys) ]

abbrev pub sum : List ℕ → ℕ
sum [] = 0
sum (x ∷ xs) = x + sum xs

abbrev pub next_index : RateLimit → ℕ → ℕ
next_index limit i = if leb limit.stats_per_interval (i + 1) then 0 else i + 1

-- the check behind the bookkeeping
abbrev pub judge : RateLimit → RateWindow → RateWindow
judge limit w =
    if leb limit.stats_per_interval w.stats_count
      && ltb limit.bitrate_limit
          (limit.bits_per_second (u64 (sum (take limit.stats_per_interval w.intervals))))
    then record w { exceeded = true }
    else w

abbrev pub note_interval : RateLimit → RateWindow → List ℕ → RateWindow
note_interval limit w intervals = judge limit (record w {
  intervals = intervals;
  last_index = next_index limit w.last_index;
  stats_count = w.stats_count + 1;
})

-- none where the code writes outside the array
unfoldable pub check_total_rate : RateLimit → Bool → ℕ → RateWindow → Option RateWindow
check_total_rate limit done bytes w =
    if done || limit.bitrate_limit == 0
    then some w
    else elim (write_at (next_index limit w.last_index) bytes w.intervals) [
      | none ↦ none
      | some intervals ↦ some (note_interval limit w intervals)
    ]

-- the calls of a test, one for each interval
unfoldable pub check_intervals : RateLimit → List ℕ → RateWindow → Option RateWindow
unfolding check_total_rate
check_intervals limit [] w = some w
check_intervals limit (bytes ∷ rest) w = elim (check_total_rate limit false bytes w) [
  | none ↦ none
  | some after ↦ check_intervals limit rest after
]

abbrev pub zeros : ℕ → List ℕ
zeros zero = []
zeros (suc n) = 0 ∷ zeros n

-- as `iperf_new_test` and `iperf_reset_test` leave it
abbrev pub fresh_window : RateWindow
fresh_window = record { intervals = zeros 60; last_index = 0; stats_count = 0; exceeded = false }
