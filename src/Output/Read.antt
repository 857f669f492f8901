-- ===== src/Output/Read.antt =====
-- `iperf_read_bounded_results` (iperf_bounded_output.c).
use iperf_swift.Prelude.{
  ℕ, ◌+◌, Bool, false, not, ◌||◌, Option, none, some, List, [], if◌then◌else◌, ltb, ◌==◌, length,
}
use iperf_swift.Output.{
  missing, invalid, no_format, no_reason, byte_limit, invalid_data, allocation_failure,
  read_failure, OutputReason, ServerOutput, ReadMetrics, discard, ReadCall, Parser, set_error,
  output_max_bytes, core_max_bytes, frame_max_bytes, einval, efbig, eproto, enomem,
}
use iperf_swift.Output.Root.{root}

-- `iperf_clear_server_output`: all fields are 0.
abbrev pub cleared : ServerOutput
cleared = record {
  value = none;
  observed_bytes = 0;
  state = missing;
  format = no_format;
  reason = no_reason;
  observed_bytes_complete = false;
}

-- `struct iperf_result_read_metrics` as its callers set it up, all fields 0
abbrev pub zeroed : ReadMetrics
zeroed = record {
  bytes_read = 0;
  core_json_bytes = 0;
  core_values = 0;
  maximum_depth = 0;
  peak_buffer_capacity = 0;
}

-- What `cJSON_ParseWithLengthOpts` gives for the core: a tree, or NULL with an errno.
pub data Parsed (J : Type 0) : Type 0 where
  tree : J → Parsed J
  no_tree : ℕ → Parsed J

-- What the caller gets: the tree or NULL with `errno`, and what is behind its two pointers.
pub record ReadResult (J : Type 0) : Type 0 where
  pub result : Option J
  pub errno : ℕ
  pub output : ServerOutput
  pub metrics : ReadMetrics

-- the parser before `root`
abbrev pub start_parser : ℕ → ℕ → List ReadCall → ServerOutput → ReadMetrics → Parser
start_parser frame_length output_limit calls output metrics = record {
  calls = calls;
  remaining = frame_length;
  pending = [];
  core_json = [];
  key = [];
  limit = output_limit;
  capture = discard;
  output = output;
  metrics = record metrics { peak_buffer_capacity = core_max_bytes + 1 };
  values = 0;
  output_values = 0;
  error = 0;
}

abbrev pub reason_of : ℕ → OutputReason
reason_of error =
    if error == enomem
    then allocation_failure
    else if error == eproto
    then invalid_data
    else read_failure

-- the end of the function without a tree
unfoldable pub give_up : {J : Type 0} → Parser → ReadResult J
give_up p = record {
  result = none;
  errno = if p.error == 0 then eproto else p.error;
  output = record cleared { state = invalid; reason = reason_of p.error };
  metrics = p.metrics;
}

-- the parse of the core behind a successful scan
unfoldable pub parse_core : {J : Type 0} → (List ℕ → Parsed J) → Parser → ReadResult J
unfolding give_up
parse_core parse p =
    let m = p.metrics in
    let q = record p { metrics = record m { core_json_bytes = length p.core_json } } in
    elim (parse p.core_json) [
      | tree j ↦ record { result = some j; errno = 0; output = q.output; metrics = q.metrics }
      | no_tree e ↦ give_up (set_error (if e == enomem then enomem else eproto) q)
    ]

unfoldable pub scan : {J : Type 0} → (List ℕ → Parsed J) → Bool → Parser → ReadResult J
unfolding root parse_core give_up
scan parse allocates p =
    let (p', scanned) = root allocates p.remaining p in
    elim scanned [ none ↦ give_up p' | some _ ↦ parse_core parse p' ]

-- `pointers` says that no pointer is NULL, the two other tests what the two `malloc` calls do. Where
-- `output` is NULL the result's `output` has no meaning.
unfoldable pub read_bounded_results :
    {J : Type 0}
    → (List ℕ → Parsed J)
    → Bool
    → Bool
    → Bool
    → ℕ
    → ℕ
    → List ReadCall
    → ServerOutput
    → ReadMetrics
    → ReadResult J
unfolding scan
read_bounded_results parse pointers core_allocates allocates frame_length output_limit calls output
      metrics =
    if not pointers || output_limit == 0 || ltb output_max_bytes output_limit
    then record {
      result = none;
      errno = einval;
      output = record output { state = invalid };
      metrics = metrics;
    }
    else if frame_length == 0 || ltb frame_max_bytes frame_length
    then record {
      result = none;
      errno = efbig;
      output = record output { state = invalid; reason = byte_limit };
      metrics = metrics;
    }
    else if not core_allocates
    then record {
      result = none;
      errno = enomem;
      output = record output { state = invalid; reason = allocation_failure };
      metrics = metrics;
    }
    else scan parse allocates (start_parser frame_length output_limit calls output metrics)
