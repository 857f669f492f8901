-- ===== src/Budget.antt =====
-- Sources/IperfCLib/iperf_output_budget.c: the output of a server that is collected for its client,
-- within a limit of bytes.
pub mod Text
pub mod Json
pub mod Peer
pub mod Bounds
pub mod Limits
pub mod Final
pub mod Utf8
pub mod Collected
pub mod Printed
pub mod Worse
mod Tests
use iperf_swift.Prelude.{
  ℕ, ◌+◌, ◌-◌, Bool, true, false, Option, none, some, List, [], if◌then◌else◌, ltb, ◌==◌,
}
use iperf_swift.Prelude.Words.{u64_mod, sub_u64}
use iperf_swift.Output.{
  OutputState, missing, complete, discarded, invalid, OutputFormat, text, OutputReason, no_reason,
  invalid_data, allocation_failure, ServerOutput, output_max_bytes, einval,
}
use iperf_swift.Output.Stream.{is_complete}
use iperf_swift.Output.Read.{cleared}

-- The fields of `struct iperf_test` that collecting uses: `server_output_byte_limit`, `json_output`,
-- `collected_server_output`, whether there is an `output_scratch`, and the three `output_` counters.
pub record Budget : Type 0 where
  pub limit : ℕ
  pub json_output : Bool
  pub output : ServerOutput
  pub has_scratch : Bool
  pub json_values : ℕ
  pub json_intervals : ℕ
  pub finalized : Bool

abbrev pub is_missing : OutputState → Bool
is_missing missing = true
is_missing _ = false

-- whether two reasons are `IPERF_OUTPUT_INVALID_DATA`
abbrev pub is_invalid_data : OutputReason → Bool
is_invalid_data invalid_data = true
is_invalid_data _ = false

-- `discard`
unfoldable pub discard_for : OutputReason → ServerOutput → ServerOutput
discard_for reason output = record output {
  value = none;
  state = if is_invalid_data reason then invalid else discarded;
  reason = reason;
}

-- The new limit, or none for -1 with `EINVAL`.
unfoldable pub set_limit : ℕ → Budget → Option Budget
set_limit limit b = if ltb output_max_bytes limit then none else some (record b { limit = limit })

-- `iperf_output_budget_reset`, without the trees of cJSON that it frees
unfoldable pub reset : Budget → Budget
reset b = record b {
  output = cleared;
  has_scratch = false;
  json_values = 0;
  json_intervals = 0;
  finalized = false;
}

abbrev pub is_text : OutputFormat → Bool
is_text text = true
is_text _ = false

-- `begin`: the state, and whether output can be added. `allocates` says whether `malloc` succeeds.
unfoldable pub begin_collect : Bool → OutputFormat → Budget → Budget × Bool
unfolding discard_for
begin_collect allocates format b =
    let o = b.output in
    let started = record o { format = format; observed_bytes_complete = is_text format } in
    if is_missing o.state
    then if allocates
      then (record b { output = record started { value = some []; state = complete } }, true)
      else (record b { output = discard_for allocation_failure started }, false)
    else (b, is_complete o.state)

-- `count_bytes`, which stops at the largest number of 64 bits
unfoldable pub count_bytes : ℕ → ServerOutput → ServerOutput
count_bytes count o =
    if ltb (sub_u64 (u64_mod - 1) o.observed_bytes) count
    then record o { observed_bytes = u64_mod - 1; observed_bytes_complete = false }
    else record o { observed_bytes = o.observed_bytes + count }

-- `scratch`
unfoldable pub take_scratch : Bool → Budget → Budget × Bool
unfolding discard_for
take_scratch allocates b =
    if b.has_scratch
    then (b, true)
    else if allocates
    then (record b { has_scratch = true }, true)
    else (record b { output = discard_for allocation_failure b.output }, false)
