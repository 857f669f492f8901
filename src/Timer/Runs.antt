-- ===== src/Timer/Runs.antt =====
-- The loop of `tmr_run` of timer.c ends.
use iperf_swift.Prelude.{
  ℕ, zero, suc, ◌+◌, ◌-◌, ◌*◌, ◌≤◌, ◌<◌, true, false, ◌≡◌, refl, sym, ap, subst, ◌∙◌, inl, inr,
  Bool-cases, Option, none, some, List, [], ◌∷◌, ◌==◌, arith, if_both,
}
use iperf_swift.Time.{Time, time_add_usecs, time_compare}
use iperf_swift.Time.Laws.{IsNormal, total, time_add_usecs_exact}
use iperf_swift.Timer.{
  Timer, Timers, TimerProc, is_before, is_after, list_add, list_remove, find, first_address,
  next_of, reschedule_found, reschedule, cancel_found, tmr_reset, tmr_cancel, tmr_expire, reset_all,
  run_timer, run_from, tmr_run,
}
use iperf_swift.Timer.Lists.{
  All, All-list_add, All-list_remove, All-find, IsOther, IsDistinct, find-address,
  list_add-IsDistinct, list_remove-IsDistinct, list_remove-others, has, has-found, has-list_add,
  has-list_remove, find-list_add, find-list_remove, next_of-active,
}
use iperf_swift.Timer.Order.{IsOrdered, sum-IsNormal, timers-IsOrdered}

-- the microseconds for which a timer is due, and one, or nothing where it is not due
abbrev left : Time → Timer → ℕ
left now t = suc (total now) - total t.time

abbrev pub left_all : Time → List Timer → ℕ
left_all now [] = 0
left_all now (t ∷ rest) = left now t + left_all now rest

left_all-list_add :
    (now : Time) (x : Timer) (l : List Timer)
    → left_all now (list_add x l) ≡ left now x + left_all now l
unfolding list_add
left_all-list_add now x [] = refl
left_all-list_add now x (t ∷ rest) =
    if_both (λ l. left_all now l ≡ left now x + left_all now (t ∷ rest)) (is_before x t)
      (x ∷ t ∷ rest) _ (λ before. refl) (λ after. omega (arith, left_all-list_add now x rest))

left_all-list_remove :
    (now : Time) (address : ℕ) (l : List Timer) (t : Timer)
    → find address l ≡ some t
    → left_all now (list_remove address l) + left now t ≡ left_all now l
unfolding find list_remove
left_all-list_remove now address [] t found = absurd (ground arith)
left_all-list_remove now address (x ∷ rest) t found = elim (Bool-cases (x.address == address)) [
  | inl here ↦ let is_it : x ≡ t = ground arith in rw here (omega (arith, ap (left now) is_it))
  | inr far ↦ rw far (omega (arith, left_all-list_remove now address rest t (ground arith)))
]

-- none of the addresses
abbrev pub Avoids : ℕ → List ℕ → Type 0
Avoids address [] = Unit {0}
Avoids address (k ∷ ks) = ((k == address) ≡ false) × Avoids address ks

module _ {S : Type 0} (proc : TimerProc S) (now : Time) where
  -- The timer's time is normal, its interval at least a microsecond and small enough for the clock, and
  -- its `timer_proc` does not reset the timer itself.
  abbrev pub Fits : Timer → Type 0
  Fits t =
      IsNormal t.time
      × (1 ≤ t.usecs)
      × (total now + t.usecs < 4294967296 * 1000000)
      × ((s : S) → Avoids t.address (proc t.client_data now s).1)

  abbrev pub IsRunnable : List Timer → Type 0
  IsRunnable l = All Fits l × IsDistinct l

  -- What one timer's new time leaves.
  moved-IsRunnable :
      (time : Timer → Time) (k : ℕ) (l : List Timer) (t : Timer)
      → find k l ≡ some t
      → IsNormal (time t)
      → IsRunnable l
      → IsRunnable (list_add (record t { time = time t }) (list_remove k l))
  moved-IsRunnable time k l t found n (fit, distinct) =
      let fits = All-find Fits k l t found fit in
      (
        All-list_add Fits (record t { time = time t }) (list_remove k l) (n, fits.1, fits.2, fits.3)
            (All-list_remove Fits k l fit),
        list_add-IsDistinct (record t { time = time t }) (list_remove k l)
            (subst (λ a. All (IsOther a) (list_remove k l)) (sym (find-address k l t found))
              (list_remove-others k l distinct))
            (list_remove-IsDistinct k l distinct),
      )

  moved-has :
      (time : Timer → Time) (k n : ℕ) (l : List Timer) (t : Timer)
      → find k l ≡ some t
      → has n l ≡ true
      → has n (list_add (record t { time = time t }) (list_remove k l)) ≡ true
  moved-has time k n l t found h =
      has-list_add n (record t { time = time t }) (list_remove k l)
        (elim (Bool-cases (k == n)) [
          | inl same ↦ ground (arith, find-address k l t found)
          | inr other ↦ ground (arith, has-list_remove n k l other h)
        ])

  -- Timers were reset, not the one at the address.
  abbrev Kept : ℕ → List Timer → List Timer → Type 0
  Kept address l l' =
      IsRunnable l'
      × (left_all now l' ≤ left_all now l)
      × (find address l' ≡ find address l)
      × ((n : ℕ) → has n l ≡ true → has n l' ≡ true)

  reset_left :
      (t : Timer)
      → IsNormal now
      → Fits t
      → left now (record t { time = time_add_usecs now t.usecs }) ≡ 0
  reset_left t m (n, long, small, avoids) =
      omega (arith, (time_add_usecs_exact now t.usecs m small).0)

  reset_found-Kept :
      (address k : ℕ) (timers : Timers) (found : Option Timer)
      → IsNormal now
      → find k timers.active ≡ found
      → (k == address) ≡ false
      → IsRunnable timers.active
      → Kept address timers.active
          (reschedule_found (λ t. time_add_usecs now t.usecs) k timers found).active
  reset_found-Kept address k timers none m e other ok = (ok, omega arith, refl, λ n h. h)
  reset_found-Kept address k timers (some t) m e other ok =
      let l = timers.active in
      let moved : Timer = record t { time = time_add_usecs now t.usecs } in
      (
        moved-IsRunnable (λ t. time_add_usecs now t.usecs) k l t e (sum-IsNormal now t.usecs) ok,
        omega (
          arith,
          left_all-list_add now moved (list_remove k l),
          left_all-list_remove now k l t e,
          reset_left t m (All-find Fits k l t e ok.0),
        ),
        find-list_add address moved (list_remove k l)
              (ap (λ a. a == address) (find-address k l t e) ∙ other)
            ∙ find-list_remove address k l other,
        λ n h. moved-has (λ t. time_add_usecs now t.usecs) k n l t e h,
      )

  reset_all-Kept :
      (address : ℕ) (ks : List ℕ) (timers : Timers)
      → IsNormal now
      → Avoids address ks
      → IsRunnable timers.active
      → Kept address timers.active (reset_all now ks timers).active
  unfolding reset_all tmr_reset reschedule
  reset_all-Kept address [] timers m avoids ok = (ok, omega arith, refl, λ n h. h)
  reset_all-Kept address (k ∷ ks) timers m (other, avoids) ok =
      let (ok1, less1, same1, has1) =
        reset_found-Kept address k timers (find k timers.active) m refl other ok in
      let (ok2, less2, same2, has2) =
        reset_all-Kept address ks (tmr_reset now k timers) m avoids ok1 in
      (ok2, omega arith, same2 ∙ same1, λ n h. has2 n (has1 n h))

  -- What is left when a timer that is due has run.
  abbrev Ran : Timer → List Timer → List Timer → Type 0
  Ran t l l' =
      IsRunnable l'
      × (left_all now l' < left_all now l)
      × ((n : ℕ) → (t.address == n) ≡ false → has n l ≡ true → has n l' ≡ true)

  due_is :
      (t : Timer) → IsNormal now → Fits t → is_after t.time now ≡ false → total t.time ≤ total now
  unfolding time_compare
  due_is t m (n, long, small, avoids) h = ground arith

  repeat-Ran :
      (t : Timer) (timers : Timers)
      → IsNormal now
      → find t.address timers.active ≡ some t
      → total t.time ≤ total now
      → IsRunnable timers.active
      → Ran t timers.active
          (reschedule_found (λ t. time_add_usecs t.time t.usecs) t.address timers (some t)).active
  repeat-Ran t timers m e due ok =
      let l = timers.active in
      let time : Timer → Time = λ t. time_add_usecs t.time t.usecs in
      let moved : Timer = record t { time = time t } in
      let (n, long, small, avoids) = All-find Fits t.address l t e ok.0 in
      let later = (time_add_usecs_exact t.time t.usecs n (omega arith)).0 in
      (
        moved-IsRunnable time t.address l t e (sum-IsNormal t.time t.usecs) ok,
        omega (
          arith,
          left_all-list_add now moved (list_remove t.address l),
          left_all-list_remove now t.address l t e,
          later,
        ),
        λ k other h. moved-has time t.address k l t e h,
      )

  cancel-Ran :
      (t : Timer) (timers : Timers)
      → find t.address timers.active ≡ some t
      → total t.time ≤ total now
      → IsRunnable timers.active
      → Ran t timers.active (cancel_found t.address timers (some t)).active
  cancel-Ran t timers e due ok =
      let l = timers.active in
      (
        (All-list_remove Fits t.address l ok.0, list_remove-IsDistinct t.address l ok.1),
        omega (arith, left_all-list_remove now t.address l t e),
        λ k other h. has-list_remove k t.address l other h,
      )

  expire-Ran :
      (t : Timer) (timers : Timers)
      → IsNormal now
      → find t.address timers.active ≡ some t
      → total t.time ≤ total now
      → IsRunnable timers.active
      → Ran t timers.active (tmr_expire t timers).active
  unfolding tmr_expire reschedule tmr_cancel
  expire-Ran t timers m e due ok = elim (Bool-cases t.periodic) [
    | inl periodic ↦ rw (periodic, e) (repeat-Ran t timers m e due ok)
    | inr once ↦ rw (once, e) (cancel-Ran t timers e due ok)
  ]

  run_timer-Ran :
      (t : Timer) (state : Timers × S)
      → IsNormal now
      → find t.address state.0.active ≡ some t
      → is_after t.time now ≡ false
      → IsRunnable state.0.active
      → Ran t state.0.active (run_timer proc now t state).0.active
  unfolding run_timer
  run_timer-Ran t (timers, s) m e h ok =
      let fits = All-find Fits t.address timers.active t e ok.0 in
      let resets = (proc t.client_data now s).1 in
      let (ok1, less1, same1, has1) = reset_all-Kept t.address resets timers m (fits.3 s) ok in
      let (ok2, less2, has2) =
        expire-Ran t (reset_all now resets timers) m (same1 ∙ e) (due_is t m fits h) ok1 in
      (ok2, omega arith, λ n other active. has2 n other (has1 n active))

  reset_all-IsOrdered :
      (ks : List ℕ) (timers : Timers)
      → IsOrdered timers.active
      → IsOrdered (reset_all now ks timers).active
  unfolding reset_all
  reset_all-IsOrdered [] timers ordered = ordered
  reset_all-IsOrdered (k ∷ ks) timers ordered =
      reset_all-IsOrdered ks (tmr_reset now k timers) ((timers-IsOrdered timers ordered).1 now k)

  run_timer-IsOrdered :
      (t : Timer) (state : Timers × S)
      → IsOrdered state.0.active
      → IsOrdered (run_timer proc now t state).0.active
  unfolding run_timer
  run_timer-IsOrdered t (timers, s) ordered =
      let resets = (proc t.client_data now s).1 in
      (timers-IsOrdered (reset_all now resets timers) (reset_all-IsOrdered resets timers ordered)).3
        t

  -- The loop ends in timers that it can be run on again.
  abbrev pub Ends : Option (Timers × S) → Type 0
  Ends result =
      (final : Timers × S) × (result ≡ some final)
      × IsRunnable final.0.active
      × IsOrdered final.0.active

  run_from-Ends :
      (fuel : ℕ) (next : Option ℕ) (state : Timers × S)
      → IsNormal now
      → IsRunnable state.0.active
      → IsOrdered state.0.active
      → left_all now state.0.active < fuel
      → ((n : ℕ) → next ≡ some n → has n state.0.active ≡ true)
      → Ends (run_from proc now fuel next state)
  unfolding run_from
  run_from-Ends zero next state m ok ordered enough active = absurd (omega arith)
  run_from-Ends (suc fuel) none state m ok ordered enough active = (state, refl, ok, ordered)
  run_from-Ends (suc fuel) (some address) state m ok ordered enough active =
      let l = state.0.active in
      let (t, found) = has-found address l (active address refl) in
      let is_address = find-address address l t found in
      elim (Bool-cases (is_after t.time now)) [
        | inl later ↦ rw (run_from, found, later) (state, refl, ok, ordered)
        | inr due ↦
            let (ok1, less, has1) =
              run_timer-Ran t state m (ap (λ a. find a l) is_address ∙ found) due ok in
            rw (run_from, found, due)
              (run_from-Ends fuel (next_of address l) (run_timer proc now t state) m ok1
                (run_timer-IsOrdered t state ordered) (omega arith)
                (λ n e.
                  let (other, is_active) = next_of-active address n l ok.1 e in
                  has1 n (ap (λ a. a == n) is_address ∙ other) is_active))
      ]

  first-active : (l : List Timer) (n : ℕ) → first_address l ≡ some n → has n l ≡ true
  first-active [] n e = absurd (ground arith)
  first-active (t ∷ rest) n e = ground arith

  -- `tmr_run` returns, whatever the procs do to the state of the test and which other timers they
  -- reset, when its loop may take as many turns as all timers together are due for in microseconds,
  -- each with one more. The clock and the timers have normal times, the intervals are positive and do
  -- not take the clock over its end, no two timers have the same address, the list is sorted, and no
  -- proc resets its own timer. All this holds again after it.
  pub tmr_run-Ends :
      (fuel : ℕ) (state : Timers × S)
      → IsNormal now
      → IsRunnable state.0.active
      → IsOrdered state.0.active
      → left_all now state.0.active < fuel
      → Ends (tmr_run proc now fuel state)
  unfolding tmr_run
  tmr_run-Ends fuel state m ok ordered enough =
      run_from-Ends fuel (first_address state.0.active) state m ok ordered enough
        (first-active state.0.active)
