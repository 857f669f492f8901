-- ===== src/Timer.antt =====
-- Sources/IperfCLib/timer.c: the list of the active timers, sorted by their times, and the free list.
-- A timer is named by its address; the links `prev` and `next` are the places in the two lists.
pub mod Order
pub mod Timeout
pub mod Lists
pub mod Runs
mod Tests
use iperf_swift.Prelude.{
  ℕ, zero, suc, ◌/◌, ◌%◌, Bool, true, false, Option, none, some, List, [], ◌∷◌, if◌then◌else◌, ◌==◌,
}
use iperf_swift.Prelude.Int.{ℤ, pos, negsuc, is_negative}
use iperf_swift.Time.{Time, time_add_usecs, time_compare, time_diff, time_in_usecs}

-- `usecs` is not negative where iperf creates a timer.
pub record Timer : Type 0 where
  pub address : ℕ
  pub client_data : ℕ
  pub usecs : ℕ
  pub periodic : Bool
  pub time : Time

-- `timers` and `free_timers`
pub record Timers : Type 0 where
  pub active : List Timer
  pub free : List Timer

abbrev pub is_after : Time → Time → Bool
is_after time now = elim (time_compare time now) [ pos (suc n) ↦ true | _ ↦ false ]

abbrev pub is_before : Timer → Timer → Bool
is_before t t2 = is_negative (time_compare t.time t2.time)

-- the insertion before the first timer that is later
unfoldable pub list_add : Timer → List Timer → List Timer
list_add t [] = t ∷ []
list_add t (t2 ∷ rest) =
    let later = list_add t rest in if is_before t t2 then t ∷ t2 ∷ rest else t2 ∷ later

unfoldable pub list_remove : ℕ → List Timer → List Timer
list_remove address [] = []
list_remove address (t ∷ rest) =
    let later = list_remove address rest in if t.address == address then rest else t ∷ later

-- the active timer at an address
unfoldable pub find : ℕ → List Timer → Option Timer
find address [] = none
find address (t ∷ rest) =
    let later = find address rest in if t.address == address then some t else later

-- a new time for the timer that was found, and `list_resort`
abbrev pub reschedule_found : (Timer → Time) → ℕ → Timers → Option Timer → Timers
reschedule_found time address timers none = timers
reschedule_found time address timers (some t) = record timers {
  active = list_add (record t { time = time t }) (list_remove address timers.active);
}

unfoldable pub reschedule : (Timer → Time) → ℕ → Timers → Timers
reschedule time address timers = reschedule_found time address timers (find address timers.active)

-- `malloc` enters as the address that it gives, none where there is no memory.
unfoldable pub take_free : Option ℕ → Timers → Option (ℕ × List Timer)
take_free malloc timers = elim timers.free [
  | t ∷ rest ↦ some (t.address, rest)
  | [] ↦ elim malloc [ some address ↦ some (address, []) | none ↦ none ]
]

abbrev pub new_timer : Time → ℕ → ℕ → Bool → ℕ → Timer
new_timer now client_data usecs periodic address = record {
  address = address;
  client_data = client_data;
  usecs = usecs;
  periodic = periodic;
  time = time_add_usecs now usecs;
}

-- the new timer in the list
abbrev pub create_at : Time → ℕ → ℕ → Bool → Timers → Option (ℕ × List Timer) → Timers × Option ℕ
create_at now client_data usecs periodic timers none = (timers, none)
create_at now client_data usecs periodic timers (some (address, free)) = (
  record {
    active = list_add (new_timer now client_data usecs periodic address) timers.active;
    free = free;
  },
  some address,
)

-- The timers and the address of the new one, none where `tmr_create` returns NULL.
unfoldable pub tmr_create : Option ℕ → Time → ℕ → ℕ → Bool → Timers → Timers × Option ℕ
unfolding take_free
tmr_create malloc now client_data usecs periodic timers =
    create_at now client_data usecs periodic timers (take_free malloc timers)

-- The microseconds to the first timer, as `tv_sec` and `tv_usec`.
unfoldable pub tmr_timeout : Time → Timers → Option (ℕ × ℕ)
unfolding time_diff time_in_usecs
tmr_timeout now timers = elim timers.active [
  | [] ↦ none
  | t ∷ rest ↦
      let (diff, past) = time_diff t.time now in
      let usecs = if past then 0 else time_in_usecs diff in some (usecs / 1000000, usecs % 1000000)
]

unfoldable pub tmr_reset : Time → ℕ → Timers → Timers
unfolding reschedule
tmr_reset now = reschedule (λ t. time_add_usecs now t.usecs)

abbrev pub cancel_found : ℕ → Timers → Option Timer → Timers
cancel_found address timers none = timers
cancel_found address timers (some t) = record {
  active = list_remove address timers.active;
  free = t ∷ timers.free;
}

unfoldable pub tmr_cancel : ℕ → Timers → Timers
tmr_cancel address timers = cancel_found address timers (find address timers.active)

-- What an iteration of `tmr_run` does with a timer that is due, behind the call of its `timer_proc`.
unfoldable pub tmr_expire : Timer → Timers → Timers
unfolding reschedule tmr_cancel
tmr_expire t =
    if t.periodic
    then reschedule (λ t. time_add_usecs t.time t.usecs) t.address
    else tmr_cancel t.address

unfoldable pub tmr_cleanup : Timers → Timers
tmr_cleanup timers = record timers { free = [] }

-- the cancelling of the first timer, while there is one
unfoldable pub cancel_all : List Timer → List Timer → Timers
cancel_all [] free = record { active = []; free = free }
cancel_all (t ∷ rest) free = cancel_all rest (t ∷ free)

unfoldable pub tmr_destroy : Timers → Timers
unfolding cancel_all tmr_cleanup
tmr_destroy timers = tmr_cleanup (cancel_all timers.active timers.free)

abbrev pub first_address : List Timer → Option ℕ
first_address [] = none
first_address (t ∷ rest) = some t.address

-- `next = t->next` for the active timer at an address
unfoldable pub next_of : ℕ → List Timer → Option ℕ
next_of address [] = none
next_of address (t ∷ rest) =
    let later = next_of address rest in if t.address == address then first_address rest else later

-- What `timer_proc` does: to the state of the test, and with `tmr_reset` on active timers.
abbrev pub TimerProc : Type 0 → Type 0
TimerProc S = ℕ → Time → S → S × List ℕ

unfoldable pub reset_all : Time → List ℕ → Timers → Timers
unfolding tmr_reset
reset_all now [] timers = timers
reset_all now (address ∷ addresses) timers = reset_all now addresses (tmr_reset now address timers)

module _ {S : Type 0} (proc : TimerProc S) (now : Time) where
  -- the call of `timer_proc` and what follows it
  unfoldable pub run_timer : Timer → Timers × S → Timers × S
  unfolding tmr_expire reset_all
  run_timer t (timers, s) =
      let (s', resets) = proc t.client_data now s in
      (tmr_expire t (reset_all now resets timers), s')

  -- The loop of `tmr_run` from the timer at an address. It is none where the fuel ends, or where the
  -- address is that of no active timer, which the code would follow.
  unfoldable pub run_from : ℕ → Option ℕ → Timers × S → Option (Timers × S)
  unfolding find next_of run_timer
  run_from fuel none state = some state
  run_from zero (some address) state = none
  run_from (suc fuel) (some address) state = elim (find address state.0.active) [
    | none ↦ none
    | some t ↦ elim (is_after t.time now) [
      | true ↦ some state
      | false ↦ run_from fuel (next_of address state.0.active) (run_timer t state)
    ]
  ]

  unfoldable pub tmr_run : ℕ → Timers × S → Option (Timers × S)
  unfolding run_from
  tmr_run fuel state = run_from fuel (first_address state.0.active) state
