-- ===== src/Output/Safe.antt =====
-- The limits of the bounded reader (iperf_bounded_output.c), as an invariant of its parser.
use iperf_swift.Prelude.{
  ℕ, ◌+◌, ◌≤◌, ◌<◌, ◌≡◌, ◌≢◌, Bool, true, false, Option, none, some, List, [], ◌∷◌, arith, length,
  length-append,
}
use iperf_swift.Prelude.Words.{u64_mod}
use iperf_swift.Output.{
  OutputState, complete, truncated, OutputFormat, ServerOutput, Parser, modify, fail, set_error,
  core_max_bytes, max_depth, core_max_values, max_values,
}
use iperf_swift.Output.Stream.{
  peek, refill, emit, emit_at, emit_output, discard_output, output_bytes,
}
use iperf_swift.Output.Text.{
  Destination, nowhere, nested_key, root_key, output_text, decoded_scalar, text_scalar, utf8_bytes,
}
use iperf_swift.Output.Value.{enter_value, count_captured, count_output_value}
use iperf_swift.Output.Root.{begin_output, reject_output, root}
use iperf_swift.Output.Keeps.{Primitives, root_k}

abbrev pub has_value : Option (List ℕ) → Bool
has_value none = false
has_value (some bytes) = true

-- the states that come with bytes
abbrev pub promises : OutputState → Bool
promises complete = true
promises truncated = true
promises _ = false

-- The limits hold, the bytes of the frame are accounted for, and without an error the output's bytes
-- are there in exactly the states that promise them.
pub record IsSafe (frame limit : ℕ) (p : Parser) : Type 0 where
  pub limit_is : p.limit ≡ limit
  pub bytes_are : p.metrics.bytes_read + p.remaining ≡ frame
  pub core_in : length p.core_json ≤ core_max_bytes
  pub core_bytes_in : p.metrics.core_json_bytes ≤ core_max_bytes
  pub key_in : length p.key ≤ 127
  pub output_in : length (output_bytes p.output.value) ≤ limit
  pub depth_in : p.metrics.maximum_depth ≤ max_depth
  pub core_values_in : p.error ≡ 0 → p.metrics.core_values ≤ core_max_values
  pub values_in : p.error ≡ 0 → p.values ≤ max_values
  pub described : p.error ≡ 0 → has_value p.output.value ≡ promises p.output.state

module _ (frame limit : ℕ) (frame_in : frame < u64_mod) where
  error-IsSafe :
      (e : ℕ) → e ≢ 0 → (p : Parser) → IsSafe frame limit p → IsSafe frame limit (set_error e p)
  error-IsSafe e ne p safe = ground arith

  refill-IsSafe : (p : Parser) → IsSafe frame limit p → IsSafe frame limit (refill p)
  unfolding refill
  refill-IsSafe p safe = ground arith

  peek-IsSafe : (p : Parser) → IsSafe frame limit p → IsSafe frame limit (peek p).0
  unfolding peek
  peek-IsSafe p safe = ground (arith, refill-IsSafe p safe)

  emit_output_safe :
      (c : ℕ) (output : ServerOutput)
      → length (output_bytes output.value) ≤ limit
      → length (output_bytes (emit_output limit c output).value) ≤ limit
  unfolding emit_output discard_output
  emit_output_safe c output fits =
      ground (arith, length-append (output_bytes output.value) (c ∷ []))

  emit_output_described :
      (c : ℕ) (output : ServerOutput)
      → has_value output.value ≡ promises output.state
      → has_value (emit_output limit c output).value ≡ promises (emit_output limit c output).state
  unfolding emit_output discard_output
  emit_output_described c output agrees = ground arith

  emit-IsSafe : (c : ℕ) (p : Parser) → IsSafe frame limit p → IsSafe frame limit (emit c p).0
  unfolding emit emit_at fail
  emit-IsSafe c p safe = ground (
    arith,
    length-append p.core_json (c ∷ []),
    emit_output_safe c p.output safe.output_in,
    emit_output_described c p.output,
  )

  text_safe :
      (c : ℕ) (output : ServerOutput)
      → length (output_bytes output.value) ≤ limit
      → length (output_bytes (text_scalar limit c output).value) ≤ limit
  unfolding text_scalar discard_output
  text_safe c output fits = ground (arith, length-append (output_bytes output.value) (utf8_bytes c))

  text_described :
      (c : ℕ) (output : ServerOutput)
      → has_value output.value ≡ promises output.state
      → has_value (text_scalar limit c output).value ≡ promises (text_scalar limit c output).state
  unfolding text_scalar discard_output
  text_described c output agrees = ground arith

  scalar-IsSafe :
      (d : Destination) (c : ℕ) (p : Parser)
      → IsSafe frame limit p
      → IsSafe frame limit (decoded_scalar d c p).0
  unfolding decoded_scalar fail
  scalar-IsSafe nowhere c p safe = safe
  scalar-IsSafe nested_key c p safe = ground arith
  scalar-IsSafe root_key c p safe = ground (arith, length-append p.key (utf8_bytes c))
  scalar-IsSafe output_text c p safe =
      ground (arith, text_safe c p.output safe.output_in, text_described c p.output)

  enter-IsSafe :
      (depth : ℕ) (p : Parser) → IsSafe frame limit p → IsSafe frame limit (enter_value depth p).0
  unfolding enter_value count_captured count_output_value fail discard_output
  enter-IsSafe depth p safe = ground arith

  begin-IsSafe :
      (allocates : Bool) (kind : OutputFormat) (p : Parser)
      → IsSafe frame limit p
      → IsSafe frame limit (begin_output allocates kind p).0
  unfolding begin_output fail
  begin-IsSafe allocates kind p safe = ground arith

  reject-IsSafe : (p : Parser) → IsSafe frame limit p → IsSafe frame limit (reject_output p).0
  unfolding reject_output modify discard_output
  reject-IsSafe p safe = ground arith

  prims : Primitives (IsSafe frame limit)
  unfolding modify
  prims = record {
    peek_k = record { kept = peek-IsSafe };
    advance_k = record { kept = λ p safe. ground arith };
    emit_k = λ c. record { kept = emit-IsSafe c };
    error_k = error-IsSafe;
    scalar_k = λ d c. record { kept = scalar-IsSafe d c };
    enter_k = λ depth. record { kept = enter-IsSafe depth };
    begin_k = λ allocates kind. record { kept = begin-IsSafe allocates kind };
    reject_k = record { kept = reject-IsSafe };
    capture_k = λ c. record { kept = λ p safe. ground arith };
    key_k = record { kept = λ p safe. ground arith };
  }

  -- The whole scan keeps the limits, whatever the frame's bytes are and however they come.
  pub root-IsSafe :
      (allocates : Bool) (size : ℕ) (p : Parser)
      → IsSafe frame limit p
      → IsSafe frame limit (root allocates size p).0
  root-IsSafe allocates size = (root_k prims allocates size).kept
