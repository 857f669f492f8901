-- ===== src/Output/Value.antt =====
-- JSON numbers and values (iperf_bounded_output.c), with the limits on what is read.
use iperf_swift.Prelude.{
  ℕ, zero, suc, ◌+◌, max, Bool, true, false, not, ◌&&◌, ◌||◌, Option, none, some, List, [], ◌∷◌,
  if◌then◌else◌, ltb, ◌==◌,
}
use iperf_swift.Prelude.Words.{u64}
use iperf_swift.Output.{
  discarded, node_limit, Capture, discard, core, output_json, Parser, P, ◌>>=◌, ◌>>◌, pure, gets,
  fail, when, fail_if, match_option, branch, stop, eproto, efbig, max_depth, core_max_values,
  max_values, max_number_length,
}
use iperf_swift.Output.Stream.{peek, take, expect, whitespace, discard_output, is_complete}
use iperf_swift.Output.Text.{Destination, nowhere, nested_key, string, in_range}

-- a `take` whose result is not looked at
unfoldable pub skip : P (Unit {0})
skip p = ((take p).0, some tt)

abbrev pub is_byte : ℕ → Option ℕ → Bool
is_byte b none = false
is_byte b (some c) = c == b

abbrev pub is_between : ℕ → ℕ → Option ℕ → Bool
is_between lo hi none = false
is_between lo hi (some c) = in_range lo hi c

-- `do { take(p); if (++count > maximum) return fail(p, EPROTO); } while (digit(peek(p)));`
-- The count stops it after `max_number_length + 1` turns, which is the fuel given.
unfoldable pub digits : ℕ → ℕ → P ℕ
digits zero count = fail eproto
digits (suc fuel) count = do
  skip
  fail_if (ltb max_number_length (count + 1)) eproto
  c ← peek
  let rest = digits fuel (count + 1)
  branch (is_between b'0' b'9' c) rest (pure (count + 1))

-- the digits that must follow here
unfoldable pub some_digits : ℕ → ℕ → P ℕ
some_digits lowest count = do
  c ← peek
  fail_if (not (is_between lowest b'9' c)) eproto
  digits (max_number_length + 1) count

-- the optional byte in front of a part of the number
unfoldable pub optional_sign : Bool → ℕ → P ℕ
optional_sign with_plus count = do
  c ← peek
  branch (is_byte b'-' c || with_plus && is_byte b'+' c) (skip >> pure (count + 1)) (pure count)

unfoldable pub fraction : ℕ → P ℕ
fraction count = do
  c ← peek
  branch (is_byte b'.' c) (skip >> some_digits b'0' (count + 1)) (pure count)

unfoldable pub exponent : ℕ → P ℕ
exponent count = do
  c ← peek
  branch (is_byte b'e' c || is_byte b'E' c)
      (skip >> optional_sign true (count + 1) >>= some_digits b'0') (pure count)

unfoldable pub number : P (Unit {0})
number = do
  signed ← optional_sign false 0
  c ← peek
  whole ← branch (is_byte b'0' c) (skip >> pure (signed + 1)) (some_digits b'1' signed)
  part ← fraction whole
  exponent part
  error ← gets (λ p. p.error)
  branch (error == 0) (pure tt) stop

-- a value of the output body is counted
unfoldable pub count_output_value : Parser → Parser
unfolding discard_output
count_output_value p =
    let q = record p { output_values = u64 (p.output_values + 1) } in
    if ltb core_max_values q.output_values && is_complete p.output.state
    then record q { output = record (discard_output discarded p.output) { reason = node_limit } }
    else q

-- a value counted by what is being captured
unfoldable pub count_captured : Capture → P (Unit {0})
unfolding count_output_value fail
count_captured discard p = (p, some tt)
count_captured core p =
    let m = p.metrics in
    let q = record p { metrics = record m { core_values = u64 (m.core_values + 1) } } in
    if ltb core_max_values q.metrics.core_values then fail efbig q else (q, some tt)
count_captured output_json p = (count_output_value p, some tt)

-- the counters at the start of `value`
unfoldable pub enter_value : ℕ → P (Unit {0})
unfolding count_captured fail
enter_value depth p =
    if ltb max_depth depth
    then fail efbig p
    else let q = record p { values = u64 (p.values + 1) } in
      if ltb max_values q.values
      then fail efbig q
      else let m = q.metrics in
        count_captured q.capture
          (record q { metrics = record m { maximum_depth = max m.maximum_depth depth } })

-- `while (*literal) if (!expect(p, *literal++)) return 0;`
unfoldable pub literal : List ℕ → P (Unit {0})
literal [] = pure tt
literal (c ∷ cs) = expect c >> literal cs

abbrev pub true_bytes : List ℕ
true_bytes = b't' ∷ b'r' ∷ b'u' ∷ b'e' ∷ []

abbrev pub false_bytes : List ℕ
false_bytes = b'f' ∷ b'a' ∷ b'l' ∷ b's' ∷ b'e' ∷ []

abbrev pub null_bytes : List ℕ
null_bytes = b'n' ∷ b'u' ∷ b'l' ∷ b'l' ∷ []

-- a value that is no array and no object; `none` says that it is one
unfoldable pub scalar_value : ℕ → Destination → Option ℕ → Option (P (Unit {0}))
scalar_value size destination c =
    if is_byte b'"' c
    then some (string size destination)
    else if is_byte b'-' c || is_between b'0' b'9' c
    then some number
    else if is_byte b't' c
    then some (literal true_bytes)
    else if is_byte b'f' c
    then some (literal false_bytes)
    else if is_byte b'n' c
    then some (literal null_bytes)
    else if is_byte b'[' c || is_byte b'{' c
    then none
    else some (fail eproto)

-- the key and the colon of a member of an object
unfoldable pub member_key : ℕ → P (Unit {0})
member_key size = string size nested_key >> whitespace size >> expect b':'

-- `value` and its loop over the members of an array or an object. `size` is the number of bytes
-- that are left at most, the fuel of the loops over bytes. The other fuel bounds the calls: a member
-- takes a byte and a call is made at most twice for a byte.
unfoldable mutual
  pub value : ℕ → ℕ → ℕ → Destination → P (Unit {0})
  value zero size depth destination = fail eproto
  value (suc fuel) size depth destination = do
    enter_value depth
    whitespace size
    c ← peek
    let contents = members fuel size depth (is_byte b'{' c)
    match_option (scalar_value size destination c)
        (do
          skip
          whitespace size
          first ← peek
          let close = if is_byte b'{' c then b'}' else b']'
          branch (is_byte close first) (expect close) contents)
        (λ scalar. scalar)

  pub members : ℕ → ℕ → ℕ → Bool → P (Unit {0})
  members zero size depth object = fail eproto
  members (suc fuel) size depth object = do
    when object (member_key size)
    value fuel size (depth + 1) nowhere
    whitespace size
    c ← peek
    let close = if object then b'}' else b']'
    let rest = members fuel size depth object
    branch (is_byte close c) (expect close) (expect b',' >> whitespace size >> rest)
