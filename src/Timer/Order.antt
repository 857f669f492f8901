-- ===== src/Timer/Order.antt =====
-- The active timers of timer.c stay sorted by their times.
use iperf_swift.Prelude.{
  ℕ, ◌≤◌, Bool, true, false, ◌≡◌, inl, inr, Bool-cases, Option, none, some, List, [], ◌∷◌, ◌==◌,
  arith, if_both,
}
use iperf_swift.Time.{Time, time_add_usecs, time_compare}
use iperf_swift.Time.Laws.{IsNormal, total}
use iperf_swift.Timer.{
  Timer, Timers, is_before, list_add, list_remove, find, reschedule_found, reschedule, take_free,
  new_timer, create_at, cancel_found, tmr_create, tmr_reset, tmr_cancel, tmr_expire,
}

-- No timer of the list is earlier than this time.
abbrev pub Follow : Time → List Timer → Type 0
Follow time [] = Unit {0}
Follow time (t ∷ rest) = (total time ≤ total t.time) × Follow time rest

-- normal times, in order
abbrev pub IsOrdered : List Timer → Type 0
IsOrdered [] = Unit {0}
IsOrdered (t ∷ rest) = IsNormal t.time × Follow t.time rest × IsOrdered rest

Follow-earlier :
    (time early : Time) (l : List Timer) → total early ≤ total time → Follow time l → Follow early l
Follow-earlier time early [] h follow = tt
Follow-earlier time early (t ∷ rest) h (first, follow) =
    (omega arith, Follow-earlier time early rest h follow)

list_add-Follow :
    (time : Time) (t : Timer) (l : List Timer)
    → total time ≤ total t.time
    → Follow time l
    → Follow time (list_add t l)
unfolding list_add
list_add-Follow time t [] h follow = (h, tt)
list_add-Follow time t (t2 ∷ rest) h (first, follow) =
    if_both (Follow time) (is_before t t2) (t ∷ t2 ∷ rest) _ (λ before. (h, (first, follow)))
      (λ after. (first, list_add-Follow time t rest h follow))

is_before-le :
    (t t2 : Timer)
    → IsNormal t.time
    → IsNormal t2.time
    → is_before t t2 ≡ true
    → total t.time ≤ total t2.time
unfolding time_compare
is_before-le t t2 n n2 h = ground arith

is_after-le :
    (t t2 : Timer)
    → IsNormal t.time
    → IsNormal t2.time
    → is_before t t2 ≡ false
    → total t2.time ≤ total t.time
unfolding time_compare
is_after-le t t2 n n2 h = ground arith

pub list_add-IsOrdered :
    (t : Timer) (l : List Timer) → IsNormal t.time → IsOrdered l → IsOrdered (list_add t l)
unfolding list_add
list_add-IsOrdered t [] n ordered = (n, tt, tt)
list_add-IsOrdered t (t2 ∷ rest) n (n2, follow, ordered) =
    if_both IsOrdered (is_before t t2) (t ∷ t2 ∷ rest) _
      (λ before.
        let first = is_before-le t t2 n n2 before in
        (n, (first, Follow-earlier t2.time t.time rest first follow), (n2, follow, ordered)))
      (λ after. (
        n2,
        list_add-Follow t2.time t rest (is_after-le t t2 n n2 after) follow,
        list_add-IsOrdered t rest n ordered,
      ))

list_remove-Follow :
    (time : Time) (address : ℕ) (l : List Timer)
    → Follow time l
    → Follow time (list_remove address l)
unfolding list_remove
list_remove-Follow time address [] follow = tt
list_remove-Follow time address (t ∷ rest) (first, follow) =
    if_both (Follow time) (t.address == address) rest _ (λ here. follow)
      (λ later. (first, list_remove-Follow time address rest follow))

list_remove-IsOrdered :
    (address : ℕ) (l : List Timer) → IsOrdered l → IsOrdered (list_remove address l)
unfolding list_remove
list_remove-IsOrdered address [] ordered = tt
list_remove-IsOrdered address (t ∷ rest) (n, follow, ordered) =
    if_both IsOrdered (t.address == address) rest _ (λ here. ordered)
      (λ later. (
        n,
        list_remove-Follow t.time address rest follow,
        list_remove-IsOrdered address rest ordered,
      ))

pub sum-IsNormal : (time : Time) (usecs : ℕ) → IsNormal (time_add_usecs time usecs)
unfolding time_add_usecs
sum-IsNormal time usecs = record { secs_in = omega arith; usecs_in = omega arith }

reschedule_found-IsOrdered :
    (time : Timer → Time) (address : ℕ) (timers : Timers) (found : Option Timer)
    → ((t : Timer) → IsNormal (time t))
    → IsOrdered timers.active
    → IsOrdered (reschedule_found time address timers found).active
reschedule_found-IsOrdered time address timers none n ordered = ordered
reschedule_found-IsOrdered time address timers (some t) n ordered =
    list_add-IsOrdered (record t { time = time t }) (list_remove address timers.active) (n t)
      (list_remove-IsOrdered address timers.active ordered)

reschedule-IsOrdered :
    (time : Timer → Time) (address : ℕ) (timers : Timers)
    → ((t : Timer) → IsNormal (time t))
    → IsOrdered timers.active
    → IsOrdered (reschedule time address timers).active
unfolding reschedule
reschedule-IsOrdered time address timers =
    reschedule_found-IsOrdered time address timers (find address timers.active)

create_at-IsOrdered :
    (now : Time) (client_data usecs : ℕ) (periodic : Bool) (timers : Timers)
    (taken : Option (ℕ × List Timer))
    → IsOrdered timers.active
    → IsOrdered (create_at now client_data usecs periodic timers taken).0.active
create_at-IsOrdered now client_data usecs periodic timers none ordered = ordered
create_at-IsOrdered now client_data usecs periodic timers (some (address, free)) ordered =
    list_add-IsOrdered (new_timer now client_data usecs periodic address) timers.active
      (sum-IsNormal now usecs) ordered

cancel_found-IsOrdered :
    (address : ℕ) (timers : Timers) (found : Option Timer)
    → IsOrdered timers.active
    → IsOrdered (cancel_found address timers found).active
cancel_found-IsOrdered address timers none ordered = ordered
cancel_found-IsOrdered address timers (some t) ordered =
    list_remove-IsOrdered address timers.active ordered

cancel-IsOrdered :
    (address : ℕ) (timers : Timers)
    → IsOrdered timers.active
    → IsOrdered (tmr_cancel address timers).active
unfolding tmr_cancel
cancel-IsOrdered address timers = cancel_found-IsOrdered address timers (find address timers.active)

expire-IsOrdered :
    (t : Timer) (timers : Timers) → IsOrdered timers.active → IsOrdered (tmr_expire t timers).active
unfolding tmr_expire
expire-IsOrdered t timers ordered = elim (Bool-cases t.periodic) [
  | inl periodic ↦ rw periodic (
      reschedule-IsOrdered (λ t. time_add_usecs t.time t.usecs) t.address timers
        (λ t. sum-IsNormal t.time t.usecs) ordered)
  | inr once ↦ rw once (cancel-IsOrdered t.address timers ordered)
]

-- Every operation keeps the active timers sorted by their times: the creation of a timer, with or
-- without memory, a reset, a cancelling, and what `tmr_run` does with a timer that is due. So
-- whatever the order of the calls, the first timer is the earliest.
pub timers-IsOrdered :
    (timers : Timers)
    → IsOrdered timers.active
    → ((malloc : Option ℕ) (now : Time) (client_data usecs : ℕ) (periodic : Bool)
        → IsOrdered (tmr_create malloc now client_data usecs periodic timers).0.active)
      × ((now : Time) (address : ℕ) → IsOrdered (tmr_reset now address timers).active)
      × ((address : ℕ) → IsOrdered (tmr_cancel address timers).active)
      × ((t : Timer) → IsOrdered (tmr_expire t timers).active)
unfolding tmr_reset tmr_create
timers-IsOrdered timers ordered = (
  λ malloc now client_data usecs periodic.
      create_at-IsOrdered now client_data usecs periodic timers (take_free malloc timers) ordered,
  λ now address.
      reschedule-IsOrdered (λ t. time_add_usecs now t.usecs) address timers
        (λ t. sum-IsNormal now t.usecs) ordered,
  λ address. cancel-IsOrdered address timers ordered,
  λ t. expire-IsOrdered t timers ordered,
)
