-- ===== src/Budget/Limits.antt =====
-- The limit of the collected output (iperf_output_budget.c) over all calls of a test, the results
-- included.
use iperf_swift.Prelude.{
  if_both, ℕ, ◌≤◌, ◌≡◌, refl, ap, ◌∙◌, Bool, true, false, not, Option, none, some, List, [], ◌∷◌,
  if◌then◌else◌, ltb, arith,
}
use iperf_swift.Output.{
  complete, json, text, byte_limit, invalid_data, ServerOutput, output_max_bytes,
}
use iperf_swift.Budget.{Budget, begin_collect, take_scratch, reset, discard_for}
use iperf_swift.Budget.Text.{Formatted, collect_printf, append_format}
use iperf_swift.Budget.Json.{
  Json, Document, print_document, accept_document, add_interval, print_interval, check_interval,
  collect_interval, finalize_json, finalize_output, add_server_results,
}
use iperf_swift.Budget.Bounds.{
  IsBudgeted, IsFinal, Call, prints, interval, results, collect, collect_all, begin-IsBudgeted,
  scratch-IsBudgeted, begin_ready, scratch_ready, collect_interval-IsBudgeted,
  append_format-IsBudgeted, IsFinal-of_IsBudgeted, discard-IsFinal, print_document-IsFinal,
}

document-IsFinal :
    (document : Option Document) (b : Budget)
    → b.output.state ≡ complete
    → IsBudgeted b
    → IsFinal (elim document [
      | none ↦ record b { output = discard_for invalid_data b.output }
      | some d ↦
          if ltb b.limit 2
          then record b { output = discard_for byte_limit b.output }
          else print_document d b
    ])
document-IsFinal none b going v = discard-IsFinal invalid_data b v.limit_in
document-IsFinal (some d) b going v =
    if_both IsFinal (ltb b.limit 2) _ (print_document d b)
      (λ small. discard-IsFinal byte_limit b v.limit_in)
      (λ large. print_document-IsFinal d b going v)

finalize_json-IsFinal :
    (allocates : Bool) (document : Option Document) (b : Budget)
    → IsBudgeted b
    → IsFinal (finalize_json allocates document b)
unfolding finalize_json
finalize_json-IsFinal allocates document b v =
    let started = (begin_collect allocates json b).0 in
    let vs = begin-IsBudgeted allocates json b v in
    let b' = (take_scratch allocates started).0 in
    let v' = scratch-IsBudgeted allocates started vs in
    if_both IsFinal (not (begin_collect allocates json b).1) started _
      (λ stopped. IsFinal-of_IsBudgeted started vs)
      (λ ready.
        if_both IsFinal (not (take_scratch allocates started).1) b' _
          (λ full. IsFinal-of_IsBudgeted b' v')
          (λ room.
            document-IsFinal document b'
              (ap (λ (o : ServerOutput). o.state) (scratch_ready allocates started (ground arith))
                ∙ begin_ready allocates json b (ground arith))
              v'))

finish-IsBudgeted : (b : Budget) → IsFinal b → IsBudgeted (record b { finalized = true })
finish-IsBudgeted b v = ground arith

finalize_output-IsBudgeted :
    (allocates : Bool) (document : Option Document) (b : Budget)
    → IsBudgeted b
    → IsBudgeted (finalize_output allocates document b)
unfolding finalize_output
finalize_output-IsBudgeted allocates document b v =
    if_both IsBudgeted b.finalized b _ (λ done. v)
      (λ open_. finish-IsBudgeted _ (
        if_both IsFinal b.json_output _ _ (λ on. finalize_json-IsFinal allocates document b v)
          (λ off. IsFinal-of_IsBudgeted _ (begin-IsBudgeted allocates text b v))))

same_mode :
    (allocates : Bool) (formatted : Formatted) (b : Budget)
    → ((begin_collect allocates text b).0.json_output ≡ b.json_output)
      × ((append_format formatted b).json_output ≡ b.json_output)
unfolding begin_collect append_format
same_mode allocates formatted b = ground arith

collect_printf-IsBudgeted :
    (allocates : Bool) (prefix : Option Formatted) (formatted : Formatted) (b : Budget)
    → b.json_output ≡ false
    → IsBudgeted b
    → IsBudgeted (collect_printf allocates prefix formatted b)
unfolding collect_printf
collect_printf-IsBudgeted allocates none formatted b plain v =
    let started = (begin_collect allocates text b).0 in
    let m = (same_mode allocates formatted b).0 in
    if_both IsBudgeted b.finalized b _ (λ done. v)
      (λ open_.
        append_format-IsBudgeted formatted started (m ∙ plain)
          (begin-IsBudgeted allocates text b v))
collect_printf-IsBudgeted allocates (some p) formatted b plain v =
    let started = (begin_collect allocates text b).0 in
    let m = (same_mode allocates formatted b).0 ∙ plain in
    let vs = append_format-IsBudgeted p started m (begin-IsBudgeted allocates text b v) in
    if_both IsBudgeted b.finalized b _ (λ done. v)
      (λ open_.
        append_format-IsBudgeted formatted (append_format p started)
          ((same_mode allocates p started).1 ∙ m) vs)

collect-IsBudgeted : (call : Call) (b : Budget) → IsBudgeted b → IsBudgeted (collect call b)
unfolding collect add_server_results
collect-IsBudgeted (prints allocates prefix formatted) b v =
    if_both IsBudgeted b.json_output b _ (λ on. v)
      (λ off. collect_printf-IsBudgeted allocates prefix formatted b off v)
collect-IsBudgeted (interval allocates tree printed) b v =
    if_both IsBudgeted b.json_output _ b
      (λ on. collect_interval-IsBudgeted allocates tree printed b v) (λ off. v)
collect-IsBudgeted (results allocates document adds) b v =
    finalize_output-IsBudgeted allocates document b v

printf_limit :
    (allocates : Bool) (prefix : Option Formatted) (formatted : Formatted) (b : Budget)
    → (collect_printf allocates prefix formatted b).limit ≡ b.limit
unfolding collect_printf append_format begin_collect
printf_limit allocates none formatted b = ground arith
printf_limit allocates (some p) formatted b = ground arith

interval_limit :
    (allocates : Bool) (tree : Option Json) (printed : Option (List ℕ)) (b : Budget)
    → (collect_interval allocates tree printed b).limit ≡ b.limit
unfolding collect_interval check_interval print_interval add_interval begin_collect take_scratch
interval_limit allocates tree none b = ground arith
interval_limit allocates tree (some bytes) b = ground arith

document_limit : (d : Document) (b : Budget) → (print_document d b).limit ≡ b.limit
unfolding print_document accept_document
document_limit d b = ground arith

results_limit :
    (allocates : Bool) (document : Option Document) (b : Budget)
    → (finalize_output allocates document b).limit ≡ b.limit
unfolding finalize_output finalize_json begin_collect take_scratch
results_limit allocates none b = ground arith
results_limit allocates (some d) b =
    ground (arith, document_limit d (take_scratch allocates (begin_collect allocates json b).0).0)

collect_limit : (call : Call) (b : Budget) → (collect call b).limit ≡ b.limit
unfolding collect add_server_results
collect_limit (prints allocates prefix formatted) b =
    ground (arith, printf_limit allocates prefix formatted b)
collect_limit (interval allocates tree printed) b =
    ground (arith, interval_limit allocates tree printed b)
collect_limit (results allocates document adds) b = results_limit allocates document b

reset-IsBudgeted : (b : Budget) → b.limit ≤ output_max_bytes → IsBudgeted (reset b)
unfolding reset
reset-IsBudgeted b small = ground arith

all-IsBudgeted :
    (calls : List Call) (b : Budget)
    → IsBudgeted b
    → IsBudgeted (collect_all calls b) × ((collect_all calls b).limit ≡ b.limit)
unfolding collect_all
all-IsBudgeted [] b v = (v, refl)
all-IsBudgeted (call ∷ calls) b v =
    let rest = all-IsBudgeted calls (collect call b) (collect-IsBudgeted call b v) in
    (rest.0, rest.1 ∙ collect_limit call b)

-- From a reset test with a limit of at most 1 MiB, after any calls in any order, with any outcome of
-- the allocations, of the formatting and of cJSON, the collected output fits in the same limit,
-- there are bytes exactly if the state is complete or truncated, and the intervals of an unfinished
-- JSON output leave room for their two brackets.
pub collect_all-IsBudgeted :
    (calls : List Call) (b : Budget)
    → b.limit ≤ output_max_bytes
    → let b' = collect_all calls (reset b) in IsBudgeted b' × (b'.limit ≡ b.limit)
unfolding reset
collect_all-IsBudgeted calls b small = all-IsBudgeted calls (reset b) (reset-IsBudgeted b small)
