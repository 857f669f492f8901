-- ===== src/Budget/Bounds.antt =====
-- The limit of the collected output (iperf_output_budget.c), over any calls of a test.
use iperf_swift.Prelude.{
  if_both, ℕ, ◌+◌, ◌-◌, ◌≤◌, ◌≡◌, ap, ◌∙◌, min, Bool, true, false, not, Option, none, some, List,
  [], ◌∷◌, ◌++◌, if◌then◌else◌, ltb, length, take, length-take, length-append, arith,
}
use iperf_swift.Prelude.Words.{sub_u64}
use iperf_swift.Output.{
  complete, OutputFormat, json, OutputReason, byte_limit, allocation_failure, ServerOutput,
  output_max_bytes,
}
use iperf_swift.Output.Stream.{output_bytes}
use iperf_swift.Output.Safe.{has_value, promises}
use iperf_swift.Budget.{Budget, discard_for, begin_collect, count_bytes, take_scratch}
use iperf_swift.Budget.Text.{
  Formatted, append_text, append_format, collect_printf, utf8_valid, keep_text,
}
use iperf_swift.Budget.Json.{
  Json, add_interval, print_interval, check_interval, collect_interval, Document, accept_document,
  print_document, add_server_results, shape_of, shape,
}

-- The bytes fit, are there in exactly the states that promise some, and while JSON intervals are
-- collected two bytes are left for the brackets.
pub record IsBudgeted (b : Budget) : Type 0 where
  pub limit_in : b.limit ≤ output_max_bytes
  pub output_in : length (output_bytes b.output.value) ≤ b.limit
  pub described : has_value b.output.value ≡ promises b.output.state
  pub brackets_fit :
      b.json_output ≡ true
      → b.finalized ≡ false
      → length (output_bytes b.output.value) ≤ b.limit - 2

-- the calls of one test
pub data Call : Type 0 where
  prints : Bool → Option Formatted → Formatted → Call
  interval : Bool → Option Json → Option (List ℕ) → Call
  results : Bool → Option Document → Bool → Call

-- A call. `iperf_printf` collects only without `json_output`, and there are JSON intervals only
-- with it.
unfoldable pub collect : Call → Budget → Budget
unfolding collect_printf collect_interval add_server_results
collect (prints allocates prefix formatted) b =
    if b.json_output then b else collect_printf allocates prefix formatted b
collect (interval allocates tree printed) b =
    if b.json_output then collect_interval allocates tree printed b else b
collect (results allocates document adds) b = (add_server_results allocates document adds b).0

unfoldable pub collect_all : List Call → Budget → Budget
unfolding collect
collect_all [] b = b
collect_all (call ∷ calls) b = collect_all calls (collect call b)

pub begin-IsBudgeted :
    (allocates : Bool) (kind : OutputFormat) (b : Budget)
    → IsBudgeted b
    → IsBudgeted (begin_collect allocates kind b).0
unfolding begin_collect discard_for
begin-IsBudgeted allocates kind b v = ground arith

pub scratch-IsBudgeted :
    (allocates : Bool) (b : Budget) → IsBudgeted b → IsBudgeted (take_scratch allocates b).0
unfolding take_scratch discard_for
scratch-IsBudgeted allocates b v = ground arith

discard-IsBudgeted :
    (why : OutputReason) (b : Budget)
    → IsBudgeted b
    → IsBudgeted (record b { output = discard_for why b.output })
unfolding discard_for
discard-IsBudgeted why b v = ground arith

keep_text_lem :
    (limit : ℕ) (cut : Bool) (bytes : List ℕ) (o : ServerOutput) (valid : Option ℕ)
    → length (output_bytes o.value) + length bytes ≤ limit
    → o.state ≡ complete
    → let o' = keep_text cut bytes o valid in
      (length (output_bytes o'.value) ≤ limit) × (has_value o'.value ≡ promises o'.state)
unfolding keep_text discard_for
keep_text_lem limit cut bytes o none fits going = ground arith
keep_text_lem limit cut bytes o (some valid) fits going =
    ground (arith, length-append (output_bytes o.value) (take valid bytes), length-take valid bytes)

append_text_lem :
    (limit : ℕ) (agrees : Bool) (bytes : List ℕ) (o : ServerOutput)
    → limit ≤ output_max_bytes
    → length (output_bytes o.value) ≤ limit
    → has_value o.value ≡ promises o.state
    → let o' = append_text limit agrees bytes o in
      (length (output_bytes o'.value) ≤ limit) × (has_value o'.value ≡ promises o'.state)
unfolding append_text count_bytes discard_for
append_text_lem limit agrees bytes o small fits has =
    let available = sub_u64 limit (length (output_bytes o.value)) in
    let room = take (min available (length bytes)) bytes in
    let cut = ltb available (length bytes) in
    let counted = count_bytes (length bytes) o in
    ground (
      arith,
      length-take (min available (length bytes)) bytes,
      keep_text_lem limit cut room counted (utf8_valid cut room),
    )

pub append_format-IsBudgeted :
    (formatted : Formatted) (b : Budget)
    → b.json_output ≡ false
    → IsBudgeted b
    → IsBudgeted (append_format formatted b)
unfolding append_format append_text count_bytes discard_for
append_format-IsBudgeted formatted b plain v =
    elim (formatted.whole) as (λ w. IsBudgeted (append_format (record formatted { whole = w }) b)) [
      | none ↦ ground arith
      | some bytes ↦
          let (fits, has) =
            append_text_lem b.limit formatted.agrees bytes b.output v.limit_in v.output_in
              v.described in
          record {
            limit_in = v.limit_in;
            output_in = fits;
            described = has;
            brackets_fit = λ on going. ground arith;
          }
    ]

add_interval-IsBudgeted :
    (bytes : List ℕ) (nodes : ℕ) (b : Budget)
    → b.output.state ≡ complete
    → IsBudgeted b
    → IsBudgeted (add_interval bytes nodes b)
unfolding add_interval discard_for
add_interval-IsBudgeted bytes nodes b going v = ground (
  arith,
  length-append (output_bytes b.output.value) (b',' ∷ []),
  length-append (output_bytes b.output.value ++ b',' ∷ []) bytes,
  length-append (output_bytes b.output.value ++ []) bytes,
  length-append (output_bytes b.output.value) [],
)

pub begin_ready :
    (allocates : Bool) (kind : OutputFormat) (b : Budget)
    → (begin_collect allocates kind b).1 ≡ true
    → (begin_collect allocates kind b).0.output.state ≡ complete
unfolding begin_collect
begin_ready allocates kind b ready = ground arith

pub scratch_ready :
    (allocates : Bool) (b : Budget)
    → (take_scratch allocates b).1 ≡ true
    → (take_scratch allocates b).0.output ≡ b.output
unfolding take_scratch
scratch_ready allocates b ready = ground arith

print_interval-IsBudgeted :
    (allocates : Bool) (printed : Option (List ℕ)) (nodes : ℕ) (b : Budget)
    → b.output.state ≡ complete
    → IsBudgeted b
    → IsBudgeted (print_interval allocates printed nodes b)
unfolding print_interval
print_interval-IsBudgeted allocates none nodes b going v =
    let b' = (take_scratch allocates b).0 in
    let v' = scratch-IsBudgeted allocates b v in
    if_both IsBudgeted (take_scratch allocates b).1 _ b' (λ on. discard-IsBudgeted byte_limit b' v')
      (λ off. v')
print_interval-IsBudgeted allocates (some bytes) nodes b going v =
    let b' = (take_scratch allocates b).0 in
    let v' = scratch-IsBudgeted allocates b v in
    if_both IsBudgeted (take_scratch allocates b).1 (add_interval bytes nodes b') b'
      (λ on.
        add_interval-IsBudgeted bytes nodes b'
          (ap (λ (o : ServerOutput). o.state) (scratch_ready allocates b on) ∙ going) v')
      (λ off. v')

check_interval-IsBudgeted :
    (allocates : Bool) (tree : Option Json) (printed : Option (List ℕ)) (b : Budget)
    → b.output.state ≡ complete
    → IsBudgeted b
    → IsBudgeted (check_interval allocates tree printed b)
unfolding check_interval
check_interval-IsBudgeted allocates tree printed b going v = checked (shape_of 3 tree b.json_values)
  where
    checked :
        (r : ℕ × Option OutputReason)
        → IsBudgeted (elim (r.1) [
          | some why ↦ record b { output = discard_for why b.output }
          | none ↦ print_interval allocates printed r.0 b
        ])
    checked (nodes, some why) = discard-IsBudgeted why b v
    checked (nodes, none) = print_interval-IsBudgeted allocates printed nodes b going v

pub collect_interval-IsBudgeted :
    (allocates : Bool) (tree : Option Json) (printed : Option (List ℕ)) (b : Budget)
    → IsBudgeted b
    → IsBudgeted (collect_interval allocates tree printed b)
unfolding collect_interval
collect_interval-IsBudgeted allocates tree printed b v =
    let b' = (begin_collect allocates json b).0 in
    let v' = begin-IsBudgeted allocates json b v in
    let checked = check_interval allocates tree printed b' in
    let ready = (begin_collect allocates json b).1 in
    if_both IsBudgeted b.finalized b (if ready then checked else b') (λ done. v)
      (λ open_.
        if_both IsBudgeted ready checked b'
          (λ on.
            check_interval-IsBudgeted allocates tree printed b' (begin_ready allocates json b on)
              v')
          (λ off. v'))

-- What holds when nothing more is collected.
pub record IsFinal (b : Budget) : Type 0 where
  pub limit_in : b.limit ≤ output_max_bytes
  pub output_in : length (output_bytes b.output.value) ≤ b.limit
  pub described : has_value b.output.value ≡ promises b.output.state

pub IsFinal-of_IsBudgeted : (b : Budget) → IsBudgeted b → IsFinal b
IsFinal-of_IsBudgeted b v = record {
  limit_in = v.limit_in;
  output_in = v.output_in;
  described = v.described;
}

pub discard-IsFinal :
    (why : OutputReason) (b : Budget)
    → b.limit ≤ output_max_bytes
    → IsFinal (record b { output = discard_for why b.output })
unfolding discard_for
discard-IsFinal why b v = ground arith

accept_document-IsFinal :
    (bytes : List ℕ) (b : Budget)
    → b.limit ≤ output_max_bytes
    → b.output.state ≡ complete
    → IsFinal (accept_document bytes b)
unfolding accept_document discard_for
accept_document-IsFinal bytes b small going = ground arith

pub print_document-IsFinal :
    (document : Document) (b : Budget)
    → b.output.state ≡ complete
    → IsBudgeted b
    → IsFinal (print_document document b)
unfolding print_document
print_document-IsFinal document b going v =
    let o = b.output in
    let intervals = b'[' ∷ (output_bytes o.value ++ b']' ∷ []) in
    let bracketed = record b { output = record o { value = some intervals } } in
    if_both IsFinal (not document.reference) _ _
      (λ failed. discard-IsFinal allocation_failure b v.limit_in)
      (λ made. checked (shape 1 document.tree b.json_values) (document.printed intervals))
  where
    checked :
        (r : ℕ × Option OutputReason) (printed : Option (List ℕ))
        → IsFinal (elim (r.1) [
          | some why ↦ record b { output = discard_for why b.output }
          | none ↦ elim printed [
            | none ↦ record b { output = discard_for byte_limit b.output }
            | some bytes ↦ accept_document bytes (record b {
              output = record b.output {
                value = some (b'[' ∷ (output_bytes b.output.value ++ b']' ∷ []));
              };
            })
          ]
        ])
    checked (nodes, some why) printed = discard-IsFinal why b v.limit_in
    checked (nodes, none) none = discard-IsFinal byte_limit b v.limit_in
    checked (nodes, none) (some bytes) =
        accept_document-IsFinal bytes
          (record b {
            output = record b.output {
              value = some (b'[' ∷ (output_bytes b.output.value ++ b']' ∷ []));
            };
          })
          v.limit_in going
