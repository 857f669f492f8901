-- ===== src/Budget/Text.antt =====
-- Collecting printed text (iperf_output_budget.c): `utf8_prefix`, `append_format` and
-- `iperf_output_collect_printf`.
use iperf_swift.Prelude.{
  ℕ, zero, suc, ◌+◌, ◌-◌, ◌*◌, ◌%◌, min, Bool, false, not, ◌&&◌, Option, none, some, List, [], ◌∷◌,
  ◌++◌, if◌then◌else◌, ltb, ◌==◌, length, take, drop,
}
use iperf_swift.Prelude.Words.{sub_u64}
use iperf_swift.Output.{truncated, byte_limit, invalid_data, ServerOutput, text}
use iperf_swift.Output.Stream.{is_complete, output_bytes}
use iperf_swift.Output.Text.{in_range, lead_byte, not_scalar}
use iperf_swift.Budget.{Budget, discard_for, begin_collect, count_bytes}

-- The length of the sequence that a byte begins, the bits of the byte and the least scalar of that
-- length; none where no sequence begins so.
unfoldable pub sequence : ℕ → Option (ℕ × ℕ × ℕ)
unfolding lead_byte
sequence c = if not (c == 0) && ltb c 0x80 then some (1, c, 0) else elim (lead_byte c) [
  | none ↦ none
  | some (following, bits, minimum) ↦ some (following + 1, bits, minimum)
]

-- the loop over the bytes that continue a sequence; none where one does not
unfoldable pub join_bytes : ℕ → List ℕ → Option ℕ
join_bytes scalar [] = some scalar
join_bytes scalar (next ∷ rest) =
    if in_range 0x80 0xbf next then join_bytes (scalar * 64 + next % 64) rest else none

-- the test of one whole sequence of `n` bytes
unfoldable pub is_sequence : ℕ → ℕ → ℕ → List ℕ → Bool
unfolding join_bytes
is_sequence n bits minimum bytes = elim (join_bytes bits (take (n - 1) (drop 1 bytes))) [
  | none ↦ false
  | some scalar ↦ not (not_scalar minimum scalar)
]

-- The loop of `utf8_prefix` over the bytes that are left, `valid` of them before: the new `*valid`,
-- or none where it returns 0. A turn takes at least a byte, so fuel for each byte is enough.
unfoldable pub utf8_loop : ℕ → Bool → ℕ → List ℕ → Option ℕ
unfolding sequence is_sequence
utf8_loop fuel cut valid [] = some valid
utf8_loop zero cut valid (c ∷ cs) = none
utf8_loop (suc fuel) cut valid (c ∷ cs) = elim (sequence c) [
  | none ↦ none
  | some (n, bits, minimum) ↦
      let rest = utf8_loop fuel cut (valid + n) (drop n (c ∷ cs)) in
      if ltb (length (c ∷ cs)) n
      then (if cut then some valid else none)
      else if is_sequence n bits minimum (c ∷ cs)
      then rest
      else none
]

unfoldable pub utf8_valid : Bool → List ℕ → Option ℕ
unfolding utf8_loop
utf8_valid cut bytes = utf8_loop (length bytes) cut 0 bytes

-- the text that is kept, of which `valid` bytes are whole
unfoldable pub keep_text : Bool → List ℕ → ServerOutput → Option ℕ → ServerOutput
unfolding discard_for
keep_text cut bytes o none = discard_for invalid_data o
keep_text cut bytes o (some valid) =
    let kept = record o { value = some (output_bytes o.value ++ take valid bytes) } in
    if cut then record kept { state = truncated; reason = byte_limit } else kept

-- What the two calls of `vsnprintf` give: the whole text, or none for a negative number, and whether
-- the second call returns the same number as the first.
pub record Formatted : Type 0 where
  pub whole : Option (List ℕ)
  pub agrees : Bool

unfoldable pub append_text : ℕ → Bool → List ℕ → ServerOutput → ServerOutput
unfolding utf8_valid discard_for count_bytes keep_text
append_text limit agrees bytes o =
    let counted = count_bytes (length bytes) o in
    let available = sub_u64 limit (length (output_bytes o.value)) in
    let cut = ltb available (length bytes) in
    let room = take (min available (length bytes)) bytes in
    if not (is_complete o.state)
    then counted
    else if not agrees
    then discard_for invalid_data counted
    else keep_text cut room counted (utf8_valid cut room)

unfoldable pub append_format : Formatted → Budget → Budget
unfolding append_text discard_for
append_format formatted b = elim (formatted.whole) [
  | none ↦ record b {
    output = record (discard_for invalid_data b.output) { observed_bytes_complete = false };
  }
  | some bytes ↦ record b { output = append_text b.limit formatted.agrees bytes b.output }
]

-- `iperf_output_collect_printf`, with what the formatting of the prefix gives, if there is one
unfoldable pub collect_printf : Bool → Option Formatted → Formatted → Budget → Budget
unfolding append_format begin_collect
collect_printf allocates prefix formatted b =
    if b.finalized
    then b
    else let started = (begin_collect allocates text b).0 in
      append_format formatted (elim prefix [ none ↦ started | some p ↦ append_format p started ])
