-- ===== src/Control/Phases.antt =====
-- Schedules of the turns of a network in which one actor at a time is ready: whoever else is given a
-- turn does nothing, so that every schedule that is long and fair enough has the same outcome.
use iperf_swift.Prelude.{
  ◌≤◌, Bool, true, false, ◌≡◌, refl, sym, ap, ◌∙◌, inl, inr, Bool-cases, List, [], ◌∷◌, ◌++◌,
  if◌then◌else◌, length, arith,
}
use iperf_swift.Control.Network.{Network, Actor, turn, run}
use iperf_swift.Control.Ready.{same_actor, turn-idle, IsOnly, IsOnly-idle, IsOver}

-- At each point of the script only the actor that it names is ready.
abbrev pub IsForced : List Actor → Network → Type 0
IsForced [] net = Unit {0}
IsForced (a ∷ script) net = IsOnly a net × IsForced script (turn a net)

pub IsForced-append :
    (xs ys : List Actor) (net : Network)
    → IsForced xs net
    → IsForced ys (run xs net)
    → IsForced (xs ++ ys) net
unfolding run
IsForced-append [] ys net first later = later
IsForced-append (a ∷ xs) ys net first later =
    (first.0, IsForced-append xs ys (turn a net) first.1 later)

pub run-append : (xs ys : List Actor) (net : Network) → run (xs ++ ys) net ≡ run ys (run xs net)
unfolding run
run-append [] ys net = refl
run-append (a ∷ xs) ys net = run-append xs ys (turn a net)

-- What is left of a script when the actors of a schedule have had their turns.
unfoldable pub rest_of : List Actor → List Actor → List Actor
rest_of [] script = script
rest_of (b ∷ schedule) [] = []
rest_of (b ∷ schedule) (a ∷ script) =
    let on = rest_of schedule script in
    let off = rest_of schedule (a ∷ script) in if same_actor a b then on else off

same_actor-eq : (a b : Actor) → same_actor a b ≡ true → b ≡ a
same_actor-eq a b h = ground arith

rest_of-nil : (schedule : List Actor) → rest_of schedule [] ≡ []
unfolding rest_of
rest_of-nil [] = refl
rest_of-nil (b ∷ schedule) = refl

-- Whatever the schedule, what is left of the script leads to the end of the script.
pub run-rest :
    (schedule script : List Actor) (net : Network)
    → IsForced script net
    → IsOver (run script net)
    → run (rest_of schedule script) (run schedule net) ≡ run script net
unfolding run rest_of
run-rest [] script net forced over = refl
run-rest (b ∷ schedule) [] net forced over =
    ap (λ s. run s (run schedule (turn b net))) (sym (rest_of-nil schedule))
    ∙ (ap (λ m. run (rest_of schedule []) (run schedule m)) (turn-idle b net (over b))
        ∙ run-rest schedule [] net tt over)
run-rest (b ∷ schedule) (a ∷ script) net forced over = elim (Bool-cases (same_actor a b)) [
  | inl same ↦ rw same (
      ap (λ c. run (rest_of schedule script) (run schedule (turn c net))) (same_actor-eq a b same)
      ∙ run-rest schedule script (turn a net) forced.1 over)
  | inr other ↦ rw other (
      ap (λ m. run (rest_of schedule (a ∷ script)) (run schedule m))
        (turn-idle b net (IsOnly-idle a net b forced.0 other))
      ∙ run-rest schedule (a ∷ script) net forced over)
]

-- A round gives every actor at least one turn.
abbrev has : Actor → List Actor → Bool
has a [] = false
has a (b ∷ round) = let later = has a round in if same_actor a b then true else later

abbrev pub IsRound : List Actor → Type 0
IsRound round = (a : Actor) → has a round ≡ true

abbrev pub AllRounds : List (List Actor) → Type 0
AllRounds [] = Unit {0}
AllRounds (round ∷ rounds) = IsRound round × AllRounds rounds

-- the rounds, one after the other
unfoldable pub concat : List (List Actor) → List Actor
concat [] = []
concat (round ∷ rounds) = round ++ concat rounds

rest_of-append :
    (xs ys script : List Actor) → rest_of (xs ++ ys) script ≡ rest_of ys (rest_of xs script)
unfolding rest_of
rest_of-append [] ys script = refl
rest_of-append (b ∷ xs) ys [] = sym (rest_of-nil ys)
rest_of-append (b ∷ xs) ys (a ∷ script) = elim (Bool-cases (same_actor a b)) [
  | inl same ↦ rw same (rest_of-append xs ys script)
  | inr other ↦ rw other (rest_of-append xs ys (a ∷ script))
]

rest_of-length : (xs script : List Actor) → length (rest_of xs script) ≤ length script
unfolding rest_of
rest_of-length [] script = omega arith
rest_of-length (b ∷ xs) [] = omega arith
rest_of-length (b ∷ xs) (a ∷ script) = elim (Bool-cases (same_actor a b)) [
  | inl same ↦ rw same (omega (arith, rest_of-length xs script))
  | inr other ↦ rw other (rest_of-length xs (a ∷ script))
]

-- a round takes at least one step of the script
rest_of-round :
    (round : List Actor) (a : Actor) (script : List Actor)
    → has a round ≡ true
    → length (rest_of round (a ∷ script)) ≤ length script
unfolding rest_of
rest_of-round [] a script h = absurd (ground arith)
rest_of-round (b ∷ round) a script h = elim (Bool-cases (same_actor a b)) [
  | inl same ↦ rw same (rest_of-length round script)
  | inr other ↦ rw other (rest_of-round round a script (ground arith))
]

-- As many rounds as the script is long leave nothing of it.
pub rest_of-rounds :
    (rounds : List (List Actor)) (script : List Actor)
    → AllRounds rounds
    → length script ≤ length rounds
    → rest_of (concat rounds) script ≡ []
unfolding concat
rest_of-rounds rounds [] all enough = rest_of-nil (concat rounds)
rest_of-rounds [] (a ∷ script) all enough = absurd (omega arith)
rest_of-rounds (round ∷ rounds) (a ∷ script) all enough =
    rest_of-append round (concat rounds) (a ∷ script)
    ∙ rest_of-rounds rounds (rest_of round (a ∷ script)) all.1
        (omega (arith, rest_of-round round a script (all.0 a)))
