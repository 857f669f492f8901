-- ===== src/Params/Takes.antt =====
-- The steps of `get_parameters` on a number, a flag or a text that is known to be given or not.
use iperf_swift.Prelude.{
  ℕ, Bool, true, false, ◌≡◌, ◌∙◌, refl, sym, ap, Option, none, some, List, [], ◌∷◌, if◌then◌else◌,
}
use iperf_swift.Prelude.Int.{ℤ}
use iperf_swift.Errors.{Error}
use iperf_swift.Params.{IperfTest}
use iperf_swift.Params.Receive.{
  Lookup, Run, Step, reset, number, number_flag, flag, text, on_test, guard, take_step, take_steps,
  get_number, has_flag, get_string,
}
use iperf_swift.Params.Send.{is_given, or_empty}

-- the step is an update of the test, whatever the run
abbrev pub Takes : Lookup → Step → (IperfTest → IperfTest) → Type 0
Takes j step f = (run : Run) → take_step j step run ≡ on_test f run

-- a list of steps with the update of each
abbrev pub TakesAll : Lookup → List (Step × (IperfTest → IperfTest)) → Type 0
TakesAll j [] = Unit {0}
TakesAll j ((step, f) ∷ rest) = Takes j step f × TakesAll j rest

abbrev pub steps_of : List (Step × (IperfTest → IperfTest)) → List Step
steps_of [] = []
steps_of ((step, f) ∷ rest) = step ∷ steps_of rest

abbrev pub update_all : List (Step × (IperfTest → IperfTest)) → IperfTest → IperfTest
update_all [] t = t
update_all ((step, f) ∷ rest) t = update_all rest (f t)

pub TakesAll-run :
    (j : Lookup) (all : List (Step × (IperfTest → IperfTest))) (run : Run)
    → TakesAll j all
    → take_steps j (steps_of all) run ≡ on_test (update_all all) run
unfolding take_steps
TakesAll-run j [] run takes = refl
TakesAll-run j ((step, f) ∷ rest) run takes =
    ap (take_steps j (steps_of rest)) (takes.0 run) ∙ TakesAll-run j rest (on_test f run) takes.1

pub reset-Takes : (j : Lookup) (f : IperfTest → IperfTest) → Takes j (reset f) f
unfolding take_step
reset-Takes j f run = refl

-- A number that is given if `b`, and in range then.
pub number-Takes :
    (j : Lookup) (name : List ℕ) (accept : ℤ → Option ℕ) (e : Error)
    (set : ℕ → IperfTest → IperfTest) (f : IperfTest → IperfTest) (b : Bool) (v : ℤ) (n : ℕ)
    → get_number j name ≡ (if b then some v else none)
    → (b ≡ true → accept v ≡ some n)
    → ((t : IperfTest) → f t ≡ (if b then set n t else t))
    → Takes j (number name accept e set) f
unfolding take_step
number-Takes j name accept e set f true v n found good is_set run =
    rw (take_step, found)
      (rw (guard, good refl) (ap (λ t. record run { test = t }) (sym (is_set run.test))))
number-Takes j name accept e set f false v n found good is_set run =
    rw (take_step, found) (ap (λ t. record run { test = t }) (sym (is_set run.test)))

pub number_flag-Takes :
    (j : Lookup) (name : List ℕ) (set : ℤ → IperfTest → IperfTest) (f : IperfTest → IperfTest)
    (b : Bool) (v : ℤ)
    → get_number j name ≡ (if b then some v else none)
    → ((t : IperfTest) → f t ≡ (if b then set v t else t))
    → Takes j (number_flag name set) f
unfolding take_step
number_flag-Takes j name set f true v found is_set run =
    rw (take_step, found) (ap (λ t. record run { test = t }) (sym (is_set run.test)))
number_flag-Takes j name set f false v found is_set run =
    rw (take_step, found) (ap (λ t. record run { test = t }) (sym (is_set run.test)))

pub flag-Takes :
    (j : Lookup) (name : List ℕ) (set : IperfTest → IperfTest) (f : IperfTest → IperfTest)
    (b : Bool)
    → has_flag j name ≡ b
    → ((t : IperfTest) → f t ≡ (if b then set t else t))
    → Takes j (flag name set) f
unfolding take_step
flag-Takes j name set f true found is_set run =
    rw (take_step, found) (ap (λ t. record run { test = t }) (sym (is_set run.test)))
flag-Takes j name set f false found is_set run =
    rw (take_step, found) (ap (λ t. record run { test = t }) (sym (is_set run.test)))

pub text-Takes :
    (j : Lookup) (name : List ℕ) (set : List ℕ → IperfTest → IperfTest) (f : IperfTest → IperfTest)
    (w : Option (List ℕ))
    → get_string j name ≡ w
    → ((t : IperfTest) → f t ≡ (if is_given w then set (or_empty w) t else t))
    → Takes j (text name set) f
unfolding take_step
text-Takes j name set f (some w) found is_set run =
    rw (take_step, found) (ap (λ t. record run { test = t }) (sym (is_set run.test)))
text-Takes j name set f none found is_set run =
    rw (take_step, found) (ap (λ t. record run { test = t }) (sym (is_set run.test)))
