-- ===== src/Output/Stream.antt =====
-- Reading and capturing bytes (iperf_bounded_output.c): `peek`, `emit`, `take`, `expect`.
use iperf_swift.Prelude.{
  ℕ, zero, suc, ◌+◌, ◌-◌, min, Bool, true, false, not, ◌||◌, Option, none, some, List, [], ◌∷◌,
  ◌++◌, if◌then◌else◌, ltb, ◌==◌, length, drop,
}
use iperf_swift.Prelude.Words.{u64}
use iperf_swift.Output.{
  OutputState, complete, discarded, byte_limit, ServerOutput, Capture, discard, core, output_json,
  chunk, read_fails, Parser, P, ◌>>=◌, ◌>>◌, pure, modify, fail, set_error, fail_if, match_option,
  branch, core_max_bytes, eproto, efbig,
}

-- the part of `peek` that calls the reader, at an empty buffer with bytes of the frame left
unfoldable pub refill : Parser → Parser
refill p = elim (p.calls) [
  | [] ↦ set_error eproto p
  | call ∷ calls ↦ elim call [
    | read_fails e ↦ set_error (if e == 0 then eproto else e) (record p { calls = calls })
    | chunk bytes ↦
        let n = length bytes in
        let m = p.metrics in
        if n == 0 || ltb (min p.remaining 4096) n
        then set_error eproto (record p { calls = calls })
        else record p {
          calls = calls;
          remaining = p.remaining - n;
          pending = bytes;
          metrics = record m { bytes_read = u64 (m.bytes_read + n) };
        }
  ]
]

abbrev pub first_of_list : List ℕ → Option ℕ
first_of_list [] = none
first_of_list (c ∷ cs) = some c

-- The next byte, or none for -1. It never fails by itself.
unfoldable pub peek : P (Option ℕ)
unfolding refill
peek p = if not (p.error == 0) then (p, some none) else elim (p.pending) [
  | c ∷ cs ↦ (p, some (some c))
  | [] ↦
      if p.remaining == 0
      then (p, some none)
      else let p' = refill p in (p', some (first_of_list p'.pending))
]

-- `++p->cursor`
abbrev pub advance : Parser → Parser
advance p = record p { pending = drop 1 p.pending }

unfoldable pub discard_output : OutputState → ServerOutput → ServerOutput
discard_output state output = record output { value = none; state = state }

abbrev pub is_complete : OutputState → Bool
is_complete complete = true
is_complete _ = false

-- the bytes of an output; `length` is 0 where there is no value
abbrev pub output_bytes : Option (List ℕ) → List ℕ
output_bytes none = []
output_bytes (some bytes) = bytes

-- one byte of the captured JSON output
unfoldable pub emit_output : ℕ → ℕ → ServerOutput → ServerOutput
unfolding discard_output
emit_output limit byte output =
    let seen = record output { observed_bytes = u64 (output.observed_bytes + 1) } in
    if not (is_complete output.state)
    then seen
    else if length (output_bytes output.value) == limit
    then record (discard_output discarded seen) { reason = byte_limit }
    else record seen { value = some (output_bytes output.value ++ byte ∷ []) }

unfoldable pub emit_at : Capture → ℕ → P (Unit {0})
unfolding emit_output fail
emit_at discard byte p = (p, some tt)
emit_at core byte p =
    if length p.core_json == core_max_bytes
    then fail efbig p
    else (record p { core_json = p.core_json ++ byte ∷ [] }, some tt)
emit_at output_json byte p = (record p { output = emit_output p.limit byte p.output }, some tt)

unfoldable pub emit : ℕ → P (Unit {0})
unfolding emit_at
emit byte p = emit_at p.capture byte p

-- `take` on a byte that is there
unfoldable pub take_byte : ℕ → P ℕ
take_byte c = do modify advance; emit c; pure c

unfoldable pub take : P ℕ
take = do c ← peek; match_option c (fail eproto) take_byte

unfoldable pub expect : ℕ → P (Unit {0})
expect expected = do c ← take; fail_if (not (c == expected)) eproto

abbrev pub is_space : ℕ → Bool
is_space c = c == b' ' || c == 9 || c == 13 || c == 10

-- Each turn moves past a byte; fuel for all bytes that are left is enough.
unfoldable pub whitespace : ℕ → P (Unit {0})
whitespace zero = pure tt
whitespace (suc fuel) = do
  c ← peek
  let rest = whitespace fuel
  match_option c (pure tt) λ c. branch (is_space c) (modify advance >> rest) (pure tt)
