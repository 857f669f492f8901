-- ===== src/Budget/Peer.antt =====
-- `iperf_output_apply_peer_status` (iperf_output_budget.c): what a client makes of the status that the
-- server sends with its output.
use iperf_swift.Prelude.{
  ℕ, ◌+◌, Bool, true, false, not, ◌&&◌, ◌||◌, Option, none, some, List, [], ◌∷◌, if◌then◌else◌, ltb,
  leb, ◌==◌,
}
use iperf_swift.Prelude.Int.{ℤ, pos}
use iperf_swift.Output.{
  OutputState, missing, complete, truncated, discarded, invalid, OutputFormat, no_format, text,
  json, OutputReason, no_reason, byte_limit, node_limit, depth_limit, invalid_data,
  allocation_failure, read_failure, ServerOutput,
}
use iperf_swift.Output.Stream.{is_complete}
use iperf_swift.Budget.{discard_for, is_missing, is_text}

-- A field of the status: absent or no number, a number that is no `int`, or an `int`.
pub data Field : Type 0 where
  no_number : Field
  no_int : Field
  int : ℤ → Field

-- `iperf_swift_server_output` of the results. `names` are the names of its children, by their index
-- in `keys` where they are there. `bytes` is none unless `observed_bytes` is a finite whole number
-- of at most 2^53 - 1.
pub record PeerStatus : Type 0 where
  pub is_object : Bool
  pub version : Field
  pub state : Field
  pub format : Field
  pub reason : Field
  pub bytes : Option ℕ
  pub names : List (Option ℕ)

-- the number of an `int` field that is not negative
abbrev number_of : Field → Option ℕ
number_of (int (pos n)) = some n
number_of _ = none

-- the value that a number stands for in a list, counted from `first`
unfoldable pub nth_from : {A : Type 0} → ℕ → List A → Option ℕ → Option A
nth_from first xs none = none
nth_from first [] (some n) = none
nth_from first (x ∷ xs) (some n) =
    let rest = nth_from (first + 1) xs (some n) in if n == first then some x else rest

unfoldable pub state_of : Field → Option OutputState
unfolding nth_from
state_of f = nth_from 1 (complete ∷ truncated ∷ discarded ∷ invalid ∷ []) (number_of f)

unfoldable pub format_of : Field → Option OutputFormat
unfolding nth_from
format_of f = nth_from 1 (text ∷ json ∷ []) (number_of f)

unfoldable pub reason_at : Field → Option OutputReason
unfolding nth_from
reason_at f =
    nth_from 0
      (no_reason ∷ byte_limit ∷ node_limit ∷ depth_limit ∷ invalid_data ∷ allocation_failure
        ∷ read_failure ∷ [])
      (number_of f)

abbrev is_version_1 : Field → Bool
is_version_1 f = elim (number_of f) [ none ↦ false | some n ↦ n == 1 ]

-- the state, format and reason of a status of a known form
unfoldable pub decode_status : PeerStatus → Option (OutputState × OutputFormat × OutputReason)
unfolding state_of format_of reason_at
decode_status s =
    if s.is_object && is_version_1 s.version
    then elim (state_of s.state) [
      | none ↦ none
      | some state ↦ elim (format_of s.format) [
        | none ↦ none
        | some kind ↦ elim (reason_at s.reason) [ none ↦ none | some why ↦ some (state, kind, why) ]
      ]
    ]
    else none

abbrev is_in : ℕ → List ℕ → Bool
is_in i [] = false
is_in i (j ∷ js) = i == j || is_in i js

-- the loop that looks for a name that stands twice, with the names before in `seen`
unfoldable pub repeats : List ℕ → List (Option ℕ) → Bool
repeats seen [] = false
repeats seen (none ∷ names) = repeats seen names
repeats seen (some i ∷ names) = is_in i seen || repeats (i ∷ seen) names

-- how bad a state is: its number in `enum iperf_output_state`
abbrev pub rank : OutputState → ℕ
rank missing = 0
rank complete = 1
rank truncated = 2
rank discarded = 3
rank invalid = 4

abbrev pub is_no_reason : OutputReason → Bool
is_no_reason no_reason = true
is_no_reason _ = false

abbrev is_byte_limit : OutputReason → Bool
is_byte_limit byte_limit = true
is_byte_limit _ = false

-- a local format that is not the peer's
abbrev differs : OutputFormat → OutputFormat → Bool
differs no_format kind = false
differs text kind = not (is_text kind)
differs json kind = is_text kind

-- the tests of what the peer says against the local output and against itself
unfoldable pub contradicts : ServerOutput → OutputState → OutputFormat → OutputReason → Bool
contradicts o state format reason =
    differs o.format format
    || (is_missing o.state && ltb (rank state) 3)
    || (rank state == 1 && not (is_no_reason reason))
    || (rank state == 2 && (not (is_text format) || not (is_byte_limit reason)))
    || (leb 3 (rank state) && is_no_reason reason)

-- the worse state of the two
unfoldable pub merge_state : OutputState → OutputReason → ServerOutput → ServerOutput
unfolding discard_for
merge_state state reason o =
    if not (rank o.state == 4) && leb 3 (rank state)
    then record (discard_for reason o) { state = state }
    else if is_complete o.state && rank state == 2
    then record o { state = truncated; reason = reason }
    else o

unfoldable pub merge_bytes : Option ℕ → ServerOutput → ServerOutput
merge_bytes none o = record o { observed_bytes_complete = false }
merge_bytes (some bytes) o =
    if leb o.observed_bytes bytes
    then record o { observed_bytes = bytes; observed_bytes_complete = true }
    else record o { observed_bytes_complete = false }

unfoldable pub apply_status : PeerStatus → ServerOutput → ServerOutput
unfolding decode_status contradicts repeats merge_state merge_bytes discard_for
apply_status s o = elim (decode_status s) [
  | none ↦ discard_for invalid_data o
  | some (state, kind, why) ↦
      if contradicts o state kind why || repeats [] s.names
      then discard_for invalid_data o
      else merge_bytes s.bytes (record (merge_state state why o) { format = kind })
]

-- none for results without a status
unfoldable pub apply_peer_status : Option PeerStatus → ServerOutput → ServerOutput
unfolding apply_status
apply_peer_status none o = o
apply_peer_status (some s) o = apply_status s o
