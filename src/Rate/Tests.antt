-- ===== src/Rate/Tests.antt =====
-- The average over intervals, on small windows.
use iperf_swift.Prelude.{
  ℕ, ◌+◌, ◌*◌, ◌≡◌, refl, false, ◌&&◌, ◌||◌, none, some, List, [], ◌∷◌, ◌++◌, ltb, leb, length,
  arith,
}
use iperf_swift.Prelude.Words.{u64}
use iperf_swift.Rate.{
  RateWindow, RateLimit, sum, check_total_rate, check_intervals, fresh_window, zeros,
}
use iperf_swift.Rate.Average.{last_of, check_intervals-last, check_intervals_leaves}

-- 100 bits per second over three intervals of one second
abbrev three : RateLimit
three = record { bitrate_limit = 100; stats_per_interval = 3; bits_per_second = λ bytes. bytes * 8 }

-- the bytes of two intervals
abbrev two : List ℕ
two = 5 ∷ 5 ∷ []

check_intervals-last_example :
    (before : RateWindow) × (after : RateWindow) × (check_intervals three two fresh_window
      ≡ some before)
    × (check_total_rate three false 5 before ≡ some after)
    × (after.exceeded ≡ (
        before.exceeded
        || (leb 3 (length two + 1)
            && ltb 100 (three.bits_per_second (u64 (sum (last_of 3 (two ++ 5 ∷ []))))))))
check_intervals-last_example =
    check_intervals-last three two 5 (λ e. absurd (omega arith)) (omega arith) (omega arith)

-- 120 intervals of half a second
abbrev minute : RateLimit
minute = record {
  bitrate_limit = 100;
  stats_per_interval = 120;
  bits_per_second = λ bytes. bytes * 8;
}

check_intervals_leaves_example : check_intervals minute (zeros 60) fresh_window ≡ none
check_intervals_leaves_example =
    check_intervals_leaves minute (zeros 60) (λ e. absurd (omega arith)) (omega arith) refl
