-- ===== src/Output/Root.antt =====
-- The results object (iperf_bounded_output.c): which of its fields are core, output or rejected, and
-- `iperf_read_bounded_results`.
use iperf_swift.Prelude.{
  codes, ℕ, zero, suc, ◌+◌, ◌-◌, ◌/◌, ◌%◌, Bool, true, false, not, ◌&&◌, ◌||◌, Option, none, some,
  List, [], ◌∷◌, ◌++◌, if◌then◌else◌, ltb, ◌==◌,
}
use iperf_swift.Output.{
  complete, invalid, OutputFormat, text, json, no_reason, invalid_data, ServerOutput, Capture,
  discard, core, output_json, P, ◌>>=◌, ◌>>◌, pure, modify, gets, fail, when, fail_if, match_option,
  branch, core_max_bytes, eproto, enomem,
}
use iperf_swift.Output.Stream.{peek, expect, emit, whitespace, discard_output}
use iperf_swift.Output.Text.{nowhere, root_key, output_text, string, in_range}
use iperf_swift.Output.Value.{value, is_byte}

abbrev to_lower : ℕ → ℕ
to_lower c = if in_range b'A' b'Z' c then c + 32 else c

-- `strcasecmp(a, b) == 0`
unfoldable pub same_key : List ℕ → List ℕ → Bool
same_key [] [] = true
same_key (a ∷ as_) (b ∷ bs) = to_lower a == to_lower b && same_key as_ bs
same_key _ _ = false

-- the names that may stand once
abbrev pub unique : List (List ℕ)
unique =
    codes "cpu_util_total"
    ∷ codes "cpu_util_user"
    ∷ codes "cpu_util_system"
    ∷ codes "sender_has_retransmits"
    ∷ codes "streams"
    ∷ codes "congestion_used"
    ∷ codes "server_output_text"
    ∷ codes "server_output_json"
    ∷ codes "iperf_swift_server_output"
    ∷ []

-- The loop over `unique` with the bits of `seen`, the bit for each name beside it: none where the key
-- was seen before.
unfoldable pub mark_seen : List ℕ → List (List ℕ × Bool) → Option (List (List ℕ × Bool))
unfolding same_key
mark_seen key [] = some []
mark_seen key ((name, bit) ∷ rest) = elim (mark_seen key rest) [
  | none ↦ none
  | some marked ↦
      if same_key key name
      then (if bit then none else some ((name, true) ∷ marked))
      else some ((name, bit) ∷ marked)
]

abbrev pub unseen : List (List ℕ) → List (List ℕ × Bool)
unseen [] = []
unseen (name ∷ names) = (name, false) ∷ unseen names

-- `hex[n]`
abbrev pub hex_char : ℕ → ℕ
hex_char n = if ltb n 10 then b'0' + n else b'a' + n - 10

unfoldable pub emit_all : List ℕ → P (Unit {0})
emit_all [] = pure tt
emit_all (c ∷ cs) = emit c >> emit_all cs

-- the bytes that `core_key` emits for one byte of a key
unfoldable pub escaped : ℕ → List ℕ
escaped c =
    if c == b'"' || c == b'\\'
    then b'\\' ∷ c ∷ []
    else if ltb c 0x20
    then b'\\' ∷ b'u' ∷ b'0' ∷ b'0' ∷ hex_char (c / 16) ∷ hex_char (c % 16) ∷ []
    else c ∷ []

unfoldable pub escaped_key : List ℕ → List ℕ
escaped_key [] = []
escaped_key (c ∷ cs) = escaped c ++ escaped_key cs

unfoldable pub core_key : List ℕ → P (Unit {0})
core_key key = emit b'"' >> emit_all (escaped_key key) >> emit b'"' >> emit b':'

-- `begin_output`; `allocates` says whether the `malloc` succeeds
unfoldable pub begin_output : Bool → OutputFormat → P (Unit {0})
begin_output allocates format p =
    let m = p.metrics in
    let output : ServerOutput = record {
      value = none;
      observed_bytes = 0;
      state = complete;
      format = format;
      reason = no_reason;
      observed_bytes_complete = true;
    } in
    if allocates
    then (
      record p {
        output = record output { value = some [] };
        metrics = record m { peak_buffer_capacity = core_max_bytes + p.limit + 2 };
        output_values = 0;
      },
      some tt,
    )
    else fail enomem (record p { output = output })

abbrev pub set_capture : Capture → P (Unit {0})
set_capture capture = modify (λ p. record p { capture = capture })

-- an output field of the wrong type
unfoldable pub reject_output : P (Unit {0})
reject_output = modify λ p.
    let output = discard_output invalid p.output in
    record p { output = record output { reason = invalid_data; observed_bytes_complete = false } }

-- the value of an output field, which is read now
unfoldable pub read_output : Bool → ℕ → Bool → P (Unit {0})
read_output allocates size is_json = do
  begin_output allocates (if is_json then json else text)
  c ← peek
  let valid_type = is_byte (if is_json then b'{' else b'"') c
  when (not valid_type) reject_output
  set_capture (if is_json && valid_type then output_json else discard)
  value (size + size) size 1 (if not is_json && valid_type then output_text else nowhere)

-- a field of the core, `core_fields` of them before
unfoldable pub read_core : ℕ → ℕ → List ℕ → P (Unit {0})
read_core size core_fields key = do
  set_capture core
  when (not (core_fields == 0)) (emit b',')
  core_key key
  value (size + size) size 1 nowhere

-- the local variables of `root`
pub record RootState : Type 0 where
  pub seen : List (List ℕ × Bool)
  pub core_fields : ℕ
  pub seen_json : Bool

-- the value behind a key, by the kind of the key
unfoldable pub read_field : Bool → ℕ → List ℕ → RootState → P RootState
read_field allocates size key s =
    branch (same_key key (codes "server_output_json"))
      (do read_output allocates size true; pure (record s { seen_json = true }))
      (branch (same_key key (codes "server_output_text"))
        (do
          branch s.seen_json (value (size + size) size 1 nowhere) (read_output allocates size false)
          pure s)
        (do read_core size s.core_fields key; pure (record s { core_fields = s.core_fields + 1 })))

-- a key that is allowed here, with its colon
unfoldable pub read_key : ℕ → RootState → P (List ℕ × RootState)
read_key size s = do
  modify (λ p. record p { key = [] })
  string size root_key
  key ← gets (λ p. p.key)
  match_option (mark_seen key s.seen) (fail eproto)
      λ seen. do whitespace size; expect b':'; whitespace size; pure (key, record s { seen = seen })

-- The loop over the fields. A field takes a byte, so fuel for all bytes that are left is enough.
unfoldable pub fields : ℕ → Bool → ℕ → RootState → P (Unit {0})
fields zero allocates size s = fail eproto
fields (suc fuel) allocates size s = do
  (key, marked) ← read_key size s
  s' ← read_field allocates size key marked
  set_capture discard
  whitespace size
  c ← peek
  let rest = fields fuel allocates size s'
  branch (is_byte b'}' c) (pure tt) (expect b',' >> whitespace size >> rest)

-- what must stand behind the last field
unfoldable pub finish_root : ℕ → P (Unit {0})
finish_root size = do
  expect b'}'
  set_capture core
  emit b'}'
  set_capture discard
  whitespace size
  c ← peek
  error ← gets (λ p. p.error)
  match_option c (fail_if (not (error == 0)) eproto) λ _. fail eproto

unfoldable pub root : Bool → ℕ → P (Unit {0})
root allocates size = do
  set_capture discard
  whitespace size
  expect b'{'
  set_capture core
  emit b'{'
  set_capture discard
  whitespace size
  c ← peek
  when (not (is_byte b'}' c)) (
      fields size allocates size
        (record { seen = unseen unique; core_fields = 0; seen_json = false }))
  finish_root size
