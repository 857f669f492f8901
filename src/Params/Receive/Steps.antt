-- ===== src/Params/Receive/Steps.antt =====
-- `iperf_cJSON_GetObjectItemType` of iperf_util.c, and the steps that `get_parameters` of
-- iperf_api.c is made of. The parsed object enters as its lookup, `cJSON_GetObjectItem`; the numbers
-- in it as their `valueint`.
use iperf_swift.Prelude.{
  ℕ, Bool, true, false, ◌||◌, Option, none, some, List, [], ◌∷◌, if◌then◌else◌, ltb,
}
use iperf_swift.Prelude.Int.{ℤ, pos, negsuc}
use iperf_swift.Errors.{Error}
use iperf_swift.Params.{Settings, IperfTest}

-- the kinds of value of a JSON object
pub data Item : Type 0 where
  bool_item : Bool → Item
  number_item : ℤ → Item
  string_item : List ℕ → Item
  array_item : Item
  other_item : Item

abbrev pub Lookup : Type 0
Lookup = List ℕ → Option Item

-- `iperf_cJSON_GetObjectItemType` for each expected type. `cJSON_True` is answered by
-- `cJSON_IsBool`, so that false is found too.
unfoldable pub has_flag : Lookup → List ℕ → Bool
has_flag j name = elim (j name) [ some (bool_item b) ↦ true | _ ↦ false ]

unfoldable pub get_number : Lookup → List ℕ → Option ℤ
get_number j name = elim (j name) [ some (number_item v) ↦ some v | _ ↦ none ]

unfoldable pub get_string : Lookup → List ℕ → Option (List ℕ)
get_string j name = elim (j name) [ some (string_item s) ↦ some s | _ ↦ none ]

-- The test with the last error set and whether `r` is -1.
pub record Run : Type 0 where
  pub test : IperfTest
  pub i_errno : Option Error
  pub failed : Bool

-- `iperf_set_error(e); r = -1;`
abbrev pub fail : Error → Run → Run
fail e run = record run { i_errno = some e; failed = true }

abbrev pub on_test : (IperfTest → IperfTest) → Run → Run
on_test f run = record run { test = f run.test }

abbrev pub on_settings : (Settings → Settings) → IperfTest → IperfTest
on_settings f t = record t { settings = f t.settings }

-- The guards on a `valueint`: the number, where they let it through.
abbrev pub between : ℕ → ℕ → ℤ → Option ℕ
between low high (negsuc n) = none
between low high (pos n) = if ltb n low || ltb high n then none else some n

abbrev pub not_negative : ℤ → Option ℕ
not_negative (negsuc n) = none
not_negative (pos n) = some n

-- One `if` of the function: a reset before it, a guarded number, a number that stands as a flag, a
-- flag or a text.
pub data Step : Type 0 where
  reset : (IperfTest → IperfTest) → Step
  number : List ℕ → (ℤ → Option ℕ) → Error → (ℕ → IperfTest → IperfTest) → Step
  number_flag : List ℕ → (ℤ → IperfTest → IperfTest) → Step
  flag : List ℕ → (IperfTest → IperfTest) → Step
  text : List ℕ → (List ℕ → IperfTest → IperfTest) → Step

-- a number that was found
abbrev pub guard : (ℤ → Option ℕ) → Error → (ℕ → IperfTest → IperfTest) → ℤ → Run → Run
guard accept e set v run = elim (accept v) [ none ↦ fail e run | some n ↦ on_test (set n) run ]

unfoldable pub take_step : Lookup → Step → Run → Run
unfolding has_flag get_number get_string
take_step j (reset f) run = on_test f run
take_step j (number name accept e set) run = elim (get_number j name) [
  | none ↦ run
  | some v ↦ guard accept e set v run
]
take_step j (number_flag name set) run = elim (get_number j name) [
  | none ↦ run
  | some v ↦ on_test (set v) run
]
take_step j (flag name set) run = if has_flag j name then on_test set run else run
take_step j (text name set) run = elim (get_string j name) [
  | none ↦ run
  | some s ↦ on_test (set s) run
]

unfoldable pub take_steps : Lookup → List Step → Run → Run
unfolding take_step
take_steps j [] run = run
take_steps j (step ∷ steps) run = take_steps j steps (take_step j step run)
