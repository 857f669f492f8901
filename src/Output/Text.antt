-- ===== src/Output/Text.antt =====
-- JSON strings (iperf_bounded_output.c): escapes, UTF-8 and where the decoded text goes.
use iperf_swift.Prelude.{
  ℕ, zero, suc, ◌+◌, ◌-◌, ◌*◌, ◌/◌, ◌%◌, Bool, not, ◌&&◌, ◌||◌, Option, none, some, List, [], ◌∷◌,
  ◌++◌, if◌then◌else◌, ltb, leb, ◌==◌, length,
}
use iperf_swift.Prelude.Words.{u64}
use iperf_swift.Output.{
  truncated, invalid, byte_limit, invalid_data, ServerOutput, P, ◌>>=◌, ◌>>◌, pure, gets, fail,
  fail_if, match_option, branch, stop, eproto, efbig,
}
use iperf_swift.Output.Stream.{take, expect, discard_output, is_complete, output_bytes}

-- What a `struct decoded *` stands for: NULL, a key with no buffer, the key buffer of `root`, the
-- textual output.
pub data Destination : Type 0 where
  nowhere nested_key root_key output_text : Destination

-- The UTF-8 bytes of a scalar. The bits that `|` joins are disjoint, so it is `+`.
unfoldable pub utf8_bytes : ℕ → List ℕ
utf8_bytes scalar =
    if leb scalar 0x7f
    then scalar ∷ []
    else if leb scalar 0x7ff
    then (0xc0 + scalar / 64) ∷ (0x80 + scalar % 64) ∷ []
    else if leb scalar 0xffff
    then (0xe0 + scalar / 4096) ∷ (0x80 + scalar / 64 % 64) ∷ (0x80 + scalar % 64) ∷ []
    else ((0xf0 + scalar / 262144)
        ∷ (0x80 + scalar / 4096 % 64)
        ∷ (0x80 + scalar / 64 % 64)
        ∷ (0x80 + scalar % 64)
        ∷ [])

-- a scalar of the textual output
unfoldable pub text_scalar : ℕ → ℕ → ServerOutput → ServerOutput
unfolding utf8_bytes discard_output
text_scalar limit scalar output =
    let bytes = utf8_bytes scalar in
    let seen = record output { observed_bytes = u64 (output.observed_bytes + length bytes) } in
    if scalar == 0
    then record (discard_output invalid seen) { reason = invalid_data }
    else if not (is_complete output.state)
    then seen
    else if ltb limit (length (output_bytes output.value) + length bytes)
    then record seen { state = truncated; reason = byte_limit }
    else record seen { value = some (output_bytes output.value ++ bytes) }

unfoldable pub decoded_scalar : Destination → ℕ → P (Unit {0})
unfolding text_scalar fail utf8_bytes
decoded_scalar nowhere scalar p = (p, some tt)
decoded_scalar nested_key scalar p = if scalar == 0 then fail eproto p else (p, some tt)
decoded_scalar root_key scalar p =
    if scalar == 0
    then fail eproto p
    else if ltb 127 (length p.key + length (utf8_bytes scalar))
    then fail efbig p
    else (record p { key = p.key ++ utf8_bytes scalar }, some tt)
decoded_scalar output_text scalar p =
    (record p { output = text_scalar p.limit scalar p.output }, some tt)

abbrev pub in_range : ℕ → ℕ → ℕ → Bool
in_range lo hi c = leb lo c && leb c hi

-- the value of a hexadecimal digit
unfoldable pub hex_digit : ℕ → Option ℕ
hex_digit c =
    if in_range b'0' b'9' c
    then some (c - b'0')
    else if in_range b'a' b'f' c
    then some (c - b'a' + 10)
    else if in_range b'A' b'F' c
    then some (c - b'A' + 10)
    else none

-- the loop of `hex4`, `count` digits to go
unfoldable pub hex_digits : ℕ → ℕ → P ℕ
hex_digits zero result = pure result
hex_digits (suc count) result = do
  c ← take
  match_option (hex_digit c) (fail eproto) λ d. hex_digits count (result * 16 + d)

unfoldable pub hex4 : P ℕ
hex4 = hex_digits 4 0

-- behind `\u`: one unit, or a surrogate pair
unfoldable pub unicode_escape : P ℕ
unicode_escape = do
  scalar ← hex4
  branch (in_range 0xd800 0xdbff scalar)
      (do
        expect b'\\'
        expect b'u'
        low ← hex4
        fail_if (not (in_range 0xdc00 0xdfff low)) eproto
        pure (0x10000 + (scalar - 0xd800) * 1024 + (low - 0xdc00)))
      (fail_if (in_range 0xdc00 0xdfff scalar) eproto >> pure scalar)

-- the character behind a backslash, if it is one of the short escapes
unfoldable pub short_escape : ℕ → Option ℕ
short_escape c =
    if c == b'"' || c == b'\\' || c == b'/'
    then some c
    else if c == b'b'
    then some 8
    else if c == b'f'
    then some 12
    else if c == b'n'
    then some 10
    else if c == b'r'
    then some 13
    else if c == b't'
    then some 9
    else none

unfoldable pub escape : P ℕ
escape = do
  c ← take
  branch (c == b'u') unicode_escape (match_option (short_escape c) (fail eproto) pure)

-- the continuation bytes of a UTF-8 sequence
unfoldable pub continuation : ℕ → ℕ → P ℕ
continuation zero scalar = pure scalar
continuation (suc following) scalar = do
  c ← take
  fail_if (ltb c 0x80 || ltb 0xbf c) eproto
  continuation following (scalar * 64 + c % 64)

-- the first byte of a longer sequence: how many follow, its bits, the least scalar of that length
unfoldable pub lead_byte : ℕ → Option (ℕ × ℕ × ℕ)
lead_byte c =
    if in_range 0xc2 0xdf c
    then some (1, c % 32, 0x80)
    else if in_range 0xe0 0xef c
    then some (2, c % 16, 0x800)
    else if in_range 0xf0 0xf4 c
    then some (3, c % 8, 0x10000)
    else none

abbrev pub not_scalar : ℕ → ℕ → Bool
not_scalar minimum scalar =
    ltb scalar minimum || ltb 0x10ffff scalar || in_range 0xd800 0xdfff scalar

unfoldable pub multibyte : ℕ × ℕ × ℕ → P ℕ
multibyte (following, bits, minimum) = do
  scalar ← continuation following bits
  fail_if (not_scalar minimum scalar) eproto
  pure scalar

-- the scalar that begins with the byte `c`, which is no quote and no control character
unfoldable pub scalar_of : ℕ → P ℕ
scalar_of c =
    branch (c == b'\\') escape
      (branch (ltb c 0x80) (pure c) (match_option (lead_byte c) (fail eproto) multibyte))

-- The loop of `string`; a turn takes at least a byte, so fuel for all bytes that are left is enough.
-- With no fuel it is as at the end of the input.
unfoldable pub string_loop : ℕ → Destination → P (Unit {0})
string_loop zero destination = fail eproto
string_loop (suc fuel) destination = do
  error ← gets (λ p. p.error)
  let rest = string_loop fuel destination
  branch (not (error == 0)) stop (do
    c ← take
    branch (c == b'"') (pure tt) (do
      fail_if (ltb c 0x20) eproto
      scalar ← scalar_of c
      decoded_scalar destination scalar
      rest))

unfoldable pub string : ℕ → Destination → P (Unit {0})
string fuel destination = expect b'"' >> string_loop fuel destination
