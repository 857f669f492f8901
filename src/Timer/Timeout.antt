-- ===== src/Timer/Timeout.antt =====
-- `tmr_timeout` of timer.c against all the active timers.
use iperf_swift.Prelude.{
  ℕ, ◌-◌, ◌/◌, ◌%◌, ◌≤◌, ◌<◌, min, Bool, true, false, ◌≡◌, refl, sym, ap, ◌∙◌, ◌↔◌, inl, inr,
  Bool-cases, Option, none, some, List, [], ◌∷◌, if◌then◌else◌, arith,
}
use iperf_swift.Time.{Time, time_diff, time_in_usecs}
use iperf_swift.Time.Laws.{IsNormal, total, time_diff_exact, time_in_usecs_exact}
use iperf_swift.Timer.{Timer, Timers, tmr_timeout}
use iperf_swift.Timer.Order.{IsOrdered}

-- the microseconds that a timer has still to wait
abbrev wait : Time → Timer → ℕ
wait now t = total t.time - total now

-- the least that any of the timers has to wait, whatever their order
abbrev pub least_wait : Time → List Timer → Option ℕ
least_wait now [] = none
least_wait now (t ∷ rest) = elim (least_wait now rest) [
  | none ↦ some (wait now t)
  | some n ↦ some (min (wait now t) n)
]

-- a number of microseconds as seconds and microseconds
abbrev pub timeval : Option ℕ → Option (ℕ × ℕ)
timeval none = none
timeval (some n) = some (n / 1000000, n % 1000000)

least_wait-first :
    (now : Time) (t : Timer) (rest : List Timer)
    → IsOrdered (t ∷ rest)
    → least_wait now (t ∷ rest) ≡ some (wait now t)
least_wait-first now t [] ordered = refl
least_wait-first now t (t2 ∷ rest) (n, (first, follow), ordered) =
    ap (λ (o : Option ℕ). elim o [ none ↦ some (wait now t) | some n ↦ some (min (wait now t) n) ])
      (least_wait-first now t2 rest ordered)
    ∙ ap some (omega arith)

is_later : {time now : ℕ} {past : Bool} → ((past ≡ true) ↔ (time ≤ now)) → past ≡ false → now < time
is_later h ahead = ground arith

usecs-wait :
    (now time : Time)
    → IsNormal time
    → IsNormal now
    → (if (time_diff time now).1 then 0 else time_in_usecs (time_diff time now).0)
      ≡ total time - total now
usecs-wait now time n m =
    let (distance, n', past) = time_diff_exact time now n m in
    elim (Bool-cases (time_diff time now).1) [
      | inl is_past ↦ rw is_past (omega (arith, past.0 is_past))
      | inr ahead ↦ rw ahead (time_in_usecs_exact n' ∙ omega (arith, distance, is_later past ahead))
    ]

timeout-least :
    (now : Time) (active free : List Timer)
    → IsNormal now
    → IsOrdered active
    → tmr_timeout now (record { active = active; free = free }) ≡ timeval (least_wait now active)
unfolding tmr_timeout
timeout-least now [] free n ordered = refl
timeout-least now (t ∷ rest) free n ordered =
    ap (λ u. timeval (some u)) (usecs-wait now t.time ordered.0 n)
    ∙ ap timeval (sym (least_wait-first now t rest ordered))

-- The timeout is the time until the earliest of all active timers, of which there is none where it is
-- none: 0 when one is due, in seconds and less than a million microseconds. The timers are in order,
-- as all operations keep them, and the clock gives normal times.
pub tmr_timeout-least :
    (now : Time) (timers : Timers)
    → IsNormal now
    → IsOrdered timers.active
    → tmr_timeout now timers ≡ timeval (least_wait now timers.active)
tmr_timeout-least now timers = timeout-least now timers.active timers.free
