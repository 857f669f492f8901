-- ===== src/Budget/Json.antt =====
-- Collecting JSON output (iperf_output_budget.c): `shape`, `iperf_output_collect_interval`,
-- `finalize_json` and `iperf_output_add_server_results`. The nodes of cJSON are a tree of which only
-- the shape matters here; what cJSON prints is an argument.
use iperf_swift.Prelude.{
  ℕ, ◌+◌, ◌-◌, Bool, true, false, not, ◌&&◌, ◌||◌, Option, none, some, List, [], ◌∷◌, ◌++◌,
  if◌then◌else◌, ltb, leb, ◌==◌, length,
}
use iperf_swift.Prelude.Words.{u64}
use iperf_swift.Output.{
  OutputState, OutputFormat, json, text, OutputReason, byte_limit, node_limit, depth_limit,
  invalid_data, allocation_failure, max_depth, core_max_values,
}
use iperf_swift.Output.Stream.{output_bytes}
use iperf_swift.Budget.{Budget, discard_for, begin_collect, take_scratch}
use iperf_swift.Budget.Text.{utf8_valid}

-- `cJSON`: a node and its children
mutual
  pub data Json : Type 0 where
    node : Children → Json

  pub data Children : Type 0 where
    no_child : Children
    child : Json → Children → Children

-- `shape`: the new `*nodes`, and the reason of a failure.
unfoldable mutual
  pub shape : ℕ → Json → ℕ → ℕ × Option OutputReason
  shape depth (node children) nodes =
      let more = u64 (nodes + 1) in
      let rest = shape_children depth children more in
      if ltb max_depth depth
      then (nodes, some depth_limit)
      else if ltb core_max_values more
      then (more, some node_limit)
      else rest

  pub shape_children : ℕ → Children → ℕ → ℕ × Option OutputReason
  shape_children depth no_child nodes = (nodes, none)
  shape_children depth (child first others) nodes =
      let r = shape (depth + 1) first nodes in
      let rest = shape_children depth others r.0 in elim (r.1) [ some why ↦ r | none ↦ rest ]

-- `shape` of a pointer, which may be NULL
unfoldable pub shape_of : ℕ → Option Json → ℕ → ℕ × Option OutputReason
unfolding shape
shape_of depth none nodes = (nodes, some invalid_data)
shape_of depth (some tree) nodes = shape depth tree nodes

-- the printed interval is added behind those before, if there is room
unfoldable pub add_interval : List ℕ → ℕ → Budget → Budget
unfolding discard_for
add_interval bytes nodes b =
    let o = b.output in
    let before = output_bytes o.value in
    let extra = if b.json_intervals == 0 then 0 else 1 in
    let comma = if b.json_intervals == 0 then [] else b',' ∷ [] in
    if ltb b.limit 2
      || ltb (b.limit - 2) (length before)
      || ltb (b.limit - 2 - length before) (length bytes + extra)
    then record b { output = discard_for byte_limit o }
    else record b {
      output = record o { value = some ((before ++ comma) ++ bytes) };
      json_values = nodes;
      json_intervals = u64 (b.json_intervals + 1);
    }

-- an interval of a good shape is printed
unfoldable pub print_interval : Bool → Option (List ℕ) → ℕ → Budget → Budget
unfolding take_scratch add_interval discard_for
print_interval allocates printed nodes b =
    let (b', ready) = take_scratch allocates b in
    let added : Budget = elim printed [
      | none ↦ record b' { output = discard_for byte_limit b'.output }
      | some bytes ↦ add_interval bytes nodes b'
    ] in
    if ready then added else b'

-- the interval's shape is checked
unfoldable pub check_interval : Bool → Option Json → Option (List ℕ) → Budget → Budget
unfolding shape_of print_interval discard_for
check_interval allocates interval printed b =
    let (nodes, failed) = shape_of 3 interval b.json_values in
    elim failed [
      | some why ↦ record b { output = discard_for why b.output }
      | none ↦ print_interval allocates printed nodes b
    ]

-- `iperf_output_collect_interval`; `printed` is what `cJSON_PrintPreallocated` writes, or none
unfoldable pub collect_interval : Bool → Option Json → Option (List ℕ) → Budget → Budget
unfolding begin_collect check_interval
collect_interval allocates interval printed b =
    let (b', ready) = begin_collect allocates json b in
    if b.finalized then b else if ready then check_interval allocates interval printed b' else b'

-- What cJSON does for `finalize_json`: whether it can make the reference, the tree of the document
-- with the reference in it, and what it prints of that for the intervals that it stands for.
pub record Document : Type 0 where
  pub reference : Bool
  pub tree : Json
  pub printed : List ℕ → Option (List ℕ)

-- the printed document becomes the output
unfoldable pub accept_document : List ℕ → Budget → Budget
unfolding utf8_valid discard_for
accept_document bytes b =
    let o = b.output in
    if ltb b.limit (length bytes)
    then record b { output = discard_for byte_limit o }
    else elim (utf8_valid false bytes) [
      | none ↦ record b { output = discard_for invalid_data o }
      | some checked ↦ record b {
        output = record o {
          value = some bytes;
          observed_bytes = length bytes;
          observed_bytes_complete = true;
        };
      }
    ]

unfoldable pub print_document : Document → Budget → Budget
unfolding shape accept_document discard_for
print_document document b =
    let o = b.output in
    let intervals = b'[' ∷ (output_bytes o.value ++ b']' ∷ []) in
    let bracketed = record b { output = record o { value = some intervals } } in
    let (nodes, failed) = shape 1 document.tree b.json_values in
    if not document.reference
    then record b { output = discard_for allocation_failure o }
    else elim failed [
      | some why ↦ record b { output = discard_for why o }
      | none ↦ elim (document.printed intervals) [
        | none ↦ record b { output = discard_for byte_limit o }
        | some bytes ↦ accept_document bytes bracketed
      ]
    ]

-- `finalize_json`; `document` is none where there is no `json_top` or no `json_intervals`
unfoldable pub finalize_json : Bool → Option Document → Budget → Budget
unfolding begin_collect take_scratch print_document discard_for
finalize_json allocates document b =
    let (started, ready) = begin_collect allocates json b in
    let (b', has_room) = take_scratch allocates started in
    if not ready then started else if not has_room then b' else elim document [
      | none ↦ record b' { output = discard_for invalid_data b'.output }
      | some d ↦
          if ltb b'.limit 2
          then record b' { output = discard_for byte_limit b'.output }
          else print_document d b'
    ]

-- the first part of `iperf_output_add_server_results`
unfoldable pub finalize_output : Bool → Option Document → Budget → Budget
unfolding finalize_json begin_collect
finalize_output allocates document b =
    if b.finalized
    then b
    else record (if b.json_output
        then finalize_json allocates document b
        else (begin_collect allocates text b).0) { finalized = true }

-- The fields that are added to the results: the output, if there is one, and the status.
pub record ServerFields : Type 0 where
  pub payload : Option (OutputFormat × List ℕ)
  pub state : OutputState
  pub format : OutputFormat
  pub reason : OutputReason
  pub observed_bytes : Option ℕ

-- `iperf_output_add_server_results`: the fields, where cJSON can allocate them (else -1).
unfoldable pub add_server_results :
    Bool → Option Document → Bool → Budget → Budget × Option ServerFields
unfolding finalize_output
add_server_results allocates document adds b =
    let b' = finalize_output allocates document b in
    let o = b'.output in
    let fields : ServerFields = record {
      payload = elim (o.value) [ none ↦ none | some bytes ↦ some (o.format, bytes) ];
      state = o.state;
      format = o.format;
      reason = o.reason;
      observed_bytes =
          if o.observed_bytes_complete && leb o.observed_bytes 9007199254740991
          then some o.observed_bytes
          else none;
    } in
    (b', if adds then some fields else none)
