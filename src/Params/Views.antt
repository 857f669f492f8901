-- ===== src/Params/Views.antt =====
-- What `get_parameters` reads of an object: which keys hold a Boolean, a number and a text.
use iperf_swift.Prelude.{
  codes, ℕ, true, false, ◌≡◌, refl, ap, ◌∙◌, Option, none, some, List, [], ◌∷◌,
}
use iperf_swift.Params.{IperfTest, Features}
use iperf_swift.Params.Receive.{
  Item, bool_item, number_item, string_item, array_item, other_item, Lookup, Run, Step, reset,
  number, number_flag, flag, text, take_step, take_steps, get_number, has_flag, get_string,
  read_protocol, test_steps, gso_steps, rate_steps, text_steps, on_test, derive_gso, note_sender,
  check_test, read_test, get_parameters,
}

-- Both objects have the same Booleans, of whatever value, the same numbers and the same texts.
abbrev pub SameViews : Lookup → Lookup → Type 0
SameViews j k =
    (name : List ℕ)
    → (has_flag j name ≡ has_flag k name)
      × (get_number j name ≡ get_number k name)
      × (get_string j name ≡ get_string k name)

take_step-same :
    (j k : Lookup) (step : Step) (run : Run)
    → SameViews j k
    → take_step j step run ≡ take_step k step run
unfolding take_step
take_step-same j k (reset f) run same = refl
take_step-same j k (number name accept e set) run same = rw (take_step, (same name).1)
take_step-same j k (number_flag name set) run same = rw (take_step, (same name).1)
take_step-same j k (flag name set) run same = rw (take_step, (same name).0)
take_step-same j k (text name set) run same = rw (take_step, (same name).2)

take_steps-same :
    (j k : Lookup) (steps : List Step) (run after : Run)
    → SameViews j k
    → run ≡ after
    → take_steps j steps run ≡ take_steps k steps after
unfolding take_steps
take_steps-same j k [] run after same e = e
take_steps-same j k (step ∷ steps) run after same e =
    take_steps-same j k steps (take_step j step run) (take_step k step after) same
      (take_step-same j k step run same ∙ ap (take_step k step) e)

read_protocol-same :
    (sys : Features) (j k : Lookup) (run : Run)
    → SameViews j k
    → read_protocol sys j run ≡ read_protocol sys k run
unfolding read_protocol
read_protocol-same sys j k run same =
    rw ((same (codes "tcp")).0, (same (codes "udp")).0, (same (codes "sctp")).0)

read_test-same :
    (sys : Features) (j k : Lookup) (run : Run)
    → SameViews j k
    → read_test sys j run ≡ read_test sys k run
unfolding read_test
read_test-same sys j k run same = ap (on_test (note_sender sys)) (
    take_steps-same j k text_steps _ _ same (
      take_steps-same j k rate_steps _ _ same (
        ap (on_test derive_gso) (
          take_steps-same j k gso_steps _ _ same (
            take_steps-same j k (test_steps sys) _ _ same (read_protocol-same sys j k run same))))))

get_parameters-SameViews :
    (sys : Features) (j k : Lookup) (t : IperfTest)
    → SameViews j k
    → get_parameters sys (some j) t ≡ get_parameters sys (some k) t
unfolding get_parameters
get_parameters-SameViews sys j k t same =
    ap (check_test sys)
      (read_test-same sys j k (record { test = t; i_errno = none; failed = false }) same)

-- every Boolean turned on
abbrev pub turn_on : Option Item → Option Item
turn_on none = none
turn_on (some (bool_item b)) = some (bool_item true)
turn_on (some (number_item v)) = some (number_item v)
turn_on (some (string_item s)) = some (string_item s)
turn_on (some array_item) = some array_item
turn_on (some other_item) = some other_item

-- The value of a Boolean of the object does not matter: "reverse": false asks for a reverse test as
-- "reverse": true does, and so does every other flag.
pub get_parameters-turn_on :
    (sys : Features) (j : Lookup) (t : IperfTest)
    → get_parameters sys (some (λ name. turn_on (j name))) t ≡ get_parameters sys (some j) t
unfolding has_flag get_number get_string
get_parameters-turn_on sys j t =
    get_parameters-SameViews sys (λ name. turn_on (j name)) j t (λ name. views (j name))
  where
    views :
        (r : Option Item)
        → (has_flag (λ n. turn_on r) [] ≡ has_flag (λ n. r) [])
          × (get_number (λ n. turn_on r) [] ≡ get_number (λ n. r) [])
          × (get_string (λ n. turn_on r) [] ≡ get_string (λ n. r) [])
    views none = (refl, refl, refl)
    views (some (bool_item b)) = (refl, refl, refl)
    views (some (number_item v)) = (refl, refl, refl)
    views (some (string_item s)) = (refl, refl, refl)
    views (some array_item) = (refl, refl, refl)
    views (some other_item) = (refl, refl, refl)
