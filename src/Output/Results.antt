-- ===== src/Output/Results.antt =====
-- What `iperf_read_bounded_results` (iperf_bounded_output.c) hands to its caller, for any frame.
use iperf_swift.Prelude.{
  ℕ, ◌≤◌, ◌<◌, ◌≡◌, ◌≢◌, ◌↔◌, refl, Bool, not, Option, none, some, List, ◌==◌, arith, length,
}
use iperf_swift.Prelude.Words.{u64_mod}
use iperf_swift.Output.{
  invalid, ReadCall, Parser, P, ◌>>=◌, gets, match_option, branch, fail, pure, enomem, eproto,
  fail_if, set_error, core_max_bytes, max_depth, core_max_values,
}
use iperf_swift.Output.Stream.{output_bytes}
use iperf_swift.Output.Root.{root, finish_root}
use iperf_swift.Output.Read.{
  Parsed, ReadResult, read_bounded_results, cleared, zeroed, scan, give_up, parse_core,
  start_parser,
}
use iperf_swift.Output.Safe.{IsSafe, root-IsSafe, has_value, promises}

-- Where `m` succeeds, `Q` holds of the parser then.
record Ensures (Q : Parser → Type 0) {A : Type 0} (m : P A) : Type 0 where
  pub ensured : (p : Parser) → (m p).1 ≢ none → Q (m p).0

bind_ensured :
    {Q : Parser → Type 0} {A B : Type 0} (f : A → P B)
    → ((a : A) → Ensures Q (f a))
    → (r : Parser × Option A)
    → (let out : Parser × Option B = elim (r.1) [ none ↦ (r.0, none) | some a ↦ f a (r.0) ] in
        out.1 ≢ none)
    → Q (
        let out : Parser × Option B = elim (r.1) [ none ↦ (r.0, none) | some a ↦ f a (r.0) ] in
        out.0)
bind_ensured f h (p, none) ne = absurd (ne refl)
bind_ensured f h (p, some a) ne = (h a).ensured p ne

bind_e :
    {Q : Parser → Type 0} {A B : Type 0} (m : P A) (f : A → P B)
    → ((a : A) → Ensures Q (f a))
    → Ensures Q (m >>= f)
unfolding ◌>>=◌
bind_e m f h = record { ensured = λ p ne. bind_ensured f h (m p) ne }

NoError : Parser → Type 0
NoError p = p.error ≡ 0

finish_end :
    (c : Option ℕ)
    → Ensures NoError (
        gets (λ p. p.error) >>= λ error.
        match_option c (fail_if (not (error == 0)) eproto) λ _. fail eproto)
unfolding ◌>>=◌ gets match_option branch fail pure NoError
finish_end none = record { ensured = λ p ne. ground arith }
finish_end (some c) = record { ensured = λ p ne. ground arith }

root-Ensures : (allocates : Bool) (size : ℕ) → Ensures NoError (root allocates size)
unfolding root finish_root
root-Ensures allocates size = search (bind_e, finish_end) depth 40 fits 4000

-- what the caller may rely on, with a tree and without
pub record Promise (J : Type 0) (frame_length output_limit : ℕ) (r : ReadResult J) : Type 0 where
  pub read_in : r.metrics.bytes_read ≤ frame_length
  pub core_in : r.metrics.core_json_bytes ≤ core_max_bytes
  pub depth_in : r.metrics.maximum_depth ≤ max_depth
  pub output_in : length (output_bytes r.output.value) ≤ output_limit
  pub errors_agree : r.errno ≡ 0 ↔ r.result ≢ none
  pub on_success :
      r.result ≢ none
      → (r.metrics.core_values ≤ core_max_values)
        × (has_value r.output.value ≡ promises r.output.state)
  pub on_failure : r.result ≡ none → (r.output.value ≡ none) × (r.output.state ≡ invalid)

give_up_promises :
    {J : Type 0} (frame_length output_limit : ℕ) (p : Parser)
    → p.metrics.bytes_read ≤ frame_length
    → p.metrics.core_json_bytes ≤ core_max_bytes
    → p.metrics.maximum_depth ≤ max_depth
    → Promise J frame_length output_limit (give_up p)
unfolding give_up
give_up_promises frame_length output_limit p read_in core_in depth_in = ground arith

parse_promises :
    {J : Type 0} (frame_length output_limit : ℕ) (parse : List ℕ → Parsed J) (p : Parser)
    → IsSafe frame_length output_limit p
    → p.error ≡ 0
    → Promise J frame_length output_limit (parse_core parse p)
unfolding parse_core
parse_promises {J} frame_length output_limit parse p safe fine =
    let m = p.metrics in
    let q = record p { metrics = record m { core_json_bytes = length p.core_json } } in
    let gives_up : (e : ℕ) → Promise J frame_length output_limit (give_up (set_error e q)) = λ e.
      give_up_promises frame_length output_limit (set_error e q) (ground arith) (ground arith)
        (ground arith) in
    ground (arith, gives_up enomem, gives_up eproto)

scan_promises :
    {J : Type 0} (frame_length output_limit : ℕ) (parse : List ℕ → Parsed J)
    (r : Parser × Option (Unit {0}))
    → IsSafe frame_length output_limit r.0
    → (r.1 ≢ none → r.0.error ≡ 0)
    → Promise J frame_length output_limit
        (elim (r.1) [ none ↦ give_up r.0 | some _ ↦ parse_core parse r.0 ])
scan_promises frame_length output_limit parse (p, none) safe fine =
    give_up_promises frame_length output_limit p (ground arith) safe.core_bytes_in safe.depth_in
scan_promises frame_length output_limit parse (p, some _) safe fine =
    parse_promises frame_length output_limit parse p safe (fine (ground arith))

-- For every frame, however the reader delivers it and whatever the allocations and cJSON do, a call
-- with a cleared output and zeroed metrics reads at most the declared frame length, keeps at most
-- 1 MiB of core JSON, a nesting depth of at most 64 and at most `output_limit` bytes of output;
-- errno is 0 exactly if there is a tree; with a tree there were at most 16384 core values and the
-- output has bytes exactly if its state is complete or truncated; without one it has none and its
-- state is invalid.
pub read_bounded_results-Promise :
    {J : Type 0} (parse : List ℕ → Parsed J) (pointers core_allocates allocates : Bool)
    (frame_length output_limit : ℕ) (calls : List ReadCall)
    → Promise J frame_length output_limit (
        read_bounded_results parse pointers core_allocates allocates frame_length output_limit calls
          cleared zeroed)
unfolding read_bounded_results scan NoError
read_bounded_results-Promise {J} parse pointers core_allocates allocates frame_length output_limit
      calls =
    let p = start_parser frame_length output_limit calls cleared zeroed in
    let scanned : frame_length < u64_mod
        → Promise J frame_length output_limit (scan parse allocates p) =
      λ small.
        scan_promises frame_length output_limit parse (root allocates p.remaining p)
          (root-IsSafe frame_length output_limit small allocates p.remaining p (ground arith))
          ((root-Ensures allocates p.remaining).ensured p) in
    ground (arith, scanned)
