-- ===== src/Timer/Tests.antt =====
-- Timers of timer.c at concrete values: the omit timer and the statistics timer of a test.
use iperf_swift.Prelude.{
  ℕ, ◌+◌, ◌<◌, Bool, true, false, ◌≡◌, refl, Option, some, [], ◌∷◌, if◌then◌else◌, ◌==◌, arith,
}
use iperf_swift.Time.{Time, time_compare, time_add_usecs}
use iperf_swift.Time.Laws.{IsNormal}
use iperf_swift.Timer.{
  Timer, Timers, TimerProc, find, next_of, list_add, list_remove, tmr_create, tmr_timeout,
  tmr_reset, tmr_cancel, tmr_expire, tmr_run, run_from, run_timer, reset_all, reschedule,
}
use iperf_swift.Timer.Order.{IsOrdered, timers-IsOrdered}
use iperf_swift.Timer.Timeout.{least_wait, timeval, tmr_timeout-least}
use iperf_swift.Timer.Runs.{IsRunnable, Ends, tmr_run-Ends}

abbrev at_secs : ℕ → Time
at_secs n = record { secs = n; usecs = 0 }

abbrev omit_timer : Timer
omit_timer = record {
  address = 1;
  client_data = 10;
  usecs = 3000000;
  periodic = false;
  time = at_secs 3;
}

abbrev stats_timer : Timer
stats_timer = record {
  address = 2;
  client_data = 20;
  usecs = 1000000;
  periodic = true;
  time = at_secs 4;
}

abbrev both : Timers
both = record { active = omit_timer ∷ stats_timer ∷ []; free = [] }

-- the state of the test counts the calls; the omit timer resets the other
abbrev proc : TimerProc ℕ
proc client_data now calls = (calls + 1, if client_data == 10 then 2 ∷ [] else [])

secs-IsNormal : (n : ℕ) → n < 100 → IsNormal (at_secs n)
secs-IsNormal n h = record { secs_in = omega arith; usecs_in = omega arith }

both-IsOrdered : IsOrdered both.active
both-IsOrdered =
    (secs-IsNormal 3 (omega arith), (omega arith, tt), (secs-IsNormal 4 (omega arith), tt, tt))

both-IsRunnable : IsRunnable proc (at_secs 5) both.active
both-IsRunnable = (
  (
    (secs-IsNormal 3 (omega arith), omega arith, omega arith, λ s. (refl, tt)),
    ((secs-IsNormal 4 (omega arith), omega arith, omega arith, λ s. tt), tt),
  ),
  ((refl, tt), (tt, tt)),
)

timers-IsOrdered_example :
    ((malloc : Option ℕ) (now : Time) (client_data usecs : ℕ) (periodic : Bool)
      → IsOrdered (tmr_create malloc now client_data usecs periodic both).0.active)
    × ((now : Time) (address : ℕ) → IsOrdered (tmr_reset now address both).active)
    × ((address : ℕ) → IsOrdered (tmr_cancel address both).active)
    × ((t : Timer) → IsOrdered (tmr_expire t both).active)
timers-IsOrdered_example = timers-IsOrdered both both-IsOrdered

tmr_timeout-least_example :
    tmr_timeout (at_secs 1) both ≡ timeval (least_wait (at_secs 1) both.active)
tmr_timeout-least_example =
    tmr_timeout-least (at_secs 1) both (secs-IsNormal 1 (omega arith)) both-IsOrdered

tmr_run-Ends_example : Ends proc (at_secs 5) (tmr_run proc (at_secs 5) 4000000 (both, 0))
tmr_run-Ends_example =
    tmr_run-Ends proc (at_secs 5) 4000000 (both, 0) (secs-IsNormal 5 (omega arith)) both-IsRunnable
      both-IsOrdered (omega arith)

-- At 5 s both are due, but the omit timer's proc resets the other, which then is not.
run_test :
    tmr_run proc (at_secs 5) 9 (both, 0)
    ≡ some (
      record { active = record stats_timer { time = at_secs 6 } ∷ []; free = omit_timer ∷ [] },
      1,
    )
unfolding tmr_run run_from find next_of run_timer reset_all tmr_reset reschedule list_add
    list_remove tmr_expire tmr_cancel time_compare time_add_usecs
run_test = refl
