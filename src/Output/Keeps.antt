-- ===== src/Output/Keeps.antt =====
-- What the whole reader keeps once its primitive steps keep it (iperf_bounded_output.c): one rule for
-- each way in which the functions are put together.
use iperf_swift.Prelude.{
  ℕ, zero, suc, ◌≢◌, Bool, true, false, Option, none, some, List, [], ◌∷◌, if◌then◌else◌, arith,
}
use iperf_swift.Output.{
  Parser, P, ◌>>=◌, pure, modify, gets, fail, set_error, stop, match_option, branch, eproto,
  OutputFormat, Capture,
}
use iperf_swift.Output.Stream.{peek, take, take_byte, expect, whitespace, emit, advance, is_space}
use iperf_swift.Output.Text.{
  Destination, decoded_scalar, hex_digits, hex4, unicode_escape, escape, continuation, multibyte,
  scalar_of, string_loop, string,
}
use iperf_swift.Output.Value.{
  skip, digits, some_digits, optional_sign, fraction, exponent, number, enter_value, literal,
  scalar_value, member_key, value, members, is_byte,
}
use iperf_swift.Output.Root.{
  emit_all, core_key, begin_output, set_capture, reject_output, read_output, read_core, RootState,
  read_field, read_key, fields, finish_root, root,
}

-- `m` keeps `I`, whether it fails or not.
pub record Keeps (I : Parser → Type 0) {A : Type 0} (m : P A) : Type 0 where
  pub kept : (p : Parser) → I p → I (m p).0

-- The primitive steps.
pub record Primitives (I : Parser → Type 0) : Type 0 where
  pub peek_k : Keeps I peek
  pub advance_k : Keeps I (modify advance)
  pub emit_k : (c : ℕ) → Keeps I (emit c)
  pub error_k : (e : ℕ) → e ≢ 0 → (p : Parser) → I p → I (set_error e p)
  pub scalar_k : (d : Destination) (c : ℕ) → Keeps I (decoded_scalar d c)
  pub enter_k : (depth : ℕ) → Keeps I (enter_value depth)
  pub begin_k : (allocates : Bool) (format : OutputFormat) → Keeps I (begin_output allocates format)
  pub reject_k : Keeps I reject_output
  pub capture_k : (c : Capture) → Keeps I (set_capture c)
  pub key_k : Keeps I (modify (λ p. record p { key = [] }))

-- where it is a scalar value
data ScalarKept (I : Parser → Type 0) : Option (P (Unit {0})) → Type 0 where
  no_scalar : ScalarKept I none
  is_scalar : {m : P (Unit {0})} → Keeps I m → ScalarKept I (some m)

-- the second half of a bind
bind_kept :
    {I : Parser → Type 0} {A B : Type 0} (f : A → P B)
    → ((a : A) → Keeps I (f a))
    → (r : Parser × Option A) → I r.0
    → I (
        let out : Parser × Option B = elim (r.1) [ none ↦ (r.0, none) | some a ↦ f a (r.0) ] in
        out.0)
bind_kept f h (p, none) i = i
bind_kept f h (p, some a) i = (h a).kept p i

module _ {I : Parser → Type 0} where
  pub bind_k :
      {A B : Type 0} (m : P A) (f : A → P B)
      → Keeps I m
      → ((a : A) → Keeps I (f a))
      → Keeps I (m >>= f)
  unfolding ◌>>=◌
  bind_k m f k h = record { kept = λ p i. bind_kept f h (m p) (k.kept p i) }

  pub pure_k : {A : Type 0} (a : A) → Keeps I (pure a)
  unfolding pure
  pure_k a = record { kept = λ p i. i }

  pub gets_k : {A : Type 0} (f : Parser → A) → Keeps I (gets f)
  unfolding gets
  gets_k f = record { kept = λ p i. i }

  -- a function that returns 0 and changes nothing
  pub stop_k : (A : Type 0) → Keeps I (stop {A = A})
  unfolding stop
  stop_k A = record { kept = λ p i. i }

  pub if_k : {A : Type 0} (b : Bool) (m n : P A) → Keeps I m → Keeps I n → Keeps I (branch b m n)
  unfolding branch
  if_k true m n k h = k
  if_k false m n k h = h

  pub option_k :
      {A B : Type 0} (o : Option A) (m : P B) (f : A → P B)
      → Keeps I m
      → ((a : A) → Keeps I (f a))
      → Keeps I (match_option o m f)
  unfolding match_option
  option_k none m f k h = k
  option_k (some a) m f k h = h a

ruleset rules = (bind_k, pure_k, gets_k, stop_k, if_k, option_k)

module _ {I : Parser → Type 0} (prims : Primitives I) where
  peek_l : Keeps I peek
  peek_l = prims.peek_k

  advance_l : Keeps I (modify advance)
  advance_l = prims.advance_k

  emit_l : (c : ℕ) → Keeps I (emit c)
  emit_l = prims.emit_k

  pub fail_k : (A : Type 0) (e : ℕ) → e ≢ 0 → Keeps I (fail {A = A} e)
  unfolding fail
  fail_k A e ne = record { kept = prims.error_k e ne }

  eproto_k : (A : Type 0) → Keeps I (fail {A = A} eproto)
  eproto_k A = fail_k A eproto (omega arith)

  take_byte_k : (c : ℕ) → Keeps I (take_byte c)
  unfolding take_byte
  take_byte_k c = search (rules, advance_l, emit_l)

  take_k : Keeps I take
  unfolding take
  take_k = search (rules, peek_l, eproto_k, take_byte_k)

  expect_k : (c : ℕ) → Keeps I (expect c)
  unfolding expect
  expect_k c = search (rules, take_k, eproto_k)

  whitespace_k : (fuel : ℕ) → Keeps I (whitespace fuel)
  unfolding whitespace
  whitespace_k zero = search rules
  whitespace_k (suc fuel) = bind_k _ _ peek_l λ c.
      option_k c _ _ (pure_k _)
        λ b. if_k (is_space b) _ _ (bind_k _ _ advance_l λ _. whitespace_k fuel) (pure_k _)

  hex_digits_k : (count result : ℕ) → Keeps I (hex_digits count result)
  unfolding hex_digits
  hex_digits_k zero result = search rules
  hex_digits_k (suc count) result = search (rules, take_k, eproto_k, hex_digits_k count)

  hex4_k : Keeps I hex4
  unfolding hex4
  hex4_k = hex_digits_k 4 0

  unicode_escape_k : Keeps I unicode_escape
  unfolding unicode_escape
  unicode_escape_k = search (rules, expect_k, eproto_k, hex4_k) depth 30

  escape_k : Keeps I escape
  unfolding escape
  escape_k = search (rules, take_k, eproto_k, unicode_escape_k)

  continuation_k : (following scalar : ℕ) → Keeps I (continuation following scalar)
  unfolding continuation
  continuation_k zero scalar = search rules
  continuation_k (suc following) scalar = search (rules, take_k, eproto_k, continuation_k following)

  multibyte_k : (lead : ℕ × ℕ × ℕ) → Keeps I (multibyte lead)
  unfolding multibyte
  multibyte_k (following, bits, minimum) = search (rules, eproto_k, continuation_k)

  scalar_of_k : (c : ℕ) → Keeps I (scalar_of c)
  unfolding scalar_of
  scalar_of_k c = search (rules, escape_k, eproto_k, multibyte_k)

  decoded_l : (d : Destination) (c : ℕ) → Keeps I (decoded_scalar d c)
  decoded_l = prims.scalar_k

  string_loop_k : (fuel : ℕ) (d : Destination) → Keeps I (string_loop fuel d)
  unfolding string_loop
  string_loop_k zero d = search (eproto_k)
  string_loop_k (suc fuel) d =
      search (rules, take_k, eproto_k, scalar_of_k, decoded_l, string_loop_k fuel) depth 30

  pub string_k : (fuel : ℕ) (d : Destination) → Keeps I (string fuel d)
  unfolding string
  string_k fuel d = search (rules, expect_k, string_loop_k)

  skip_k : Keeps I skip
  unfolding skip
  skip_k = record { kept = take_k.kept }

  digits_k : (fuel count : ℕ) → Keeps I (digits fuel count)
  unfolding digits
  digits_k zero count = search eproto_k
  digits_k (suc fuel) count =
      search (rules, skip_k, eproto_k, peek_l, digits_k fuel) depth 30 fits 2000

  some_digits_k : (lowest count : ℕ) → Keeps I (some_digits lowest count)
  unfolding some_digits
  some_digits_k lowest count = search (rules, eproto_k, peek_l, digits_k) depth 20

  sign_k : (with_plus : Bool) (count : ℕ) → Keeps I (optional_sign with_plus count)
  unfolding optional_sign
  sign_k with_plus count = search (rules, skip_k, peek_l) depth 20

  fraction_k : (count : ℕ) → Keeps I (fraction count)
  unfolding fraction
  fraction_k count = search (rules, skip_k, peek_l, some_digits_k) depth 20

  exponent_k : (count : ℕ) → Keeps I (exponent count)
  unfolding exponent
  exponent_k count = search (rules, skip_k, peek_l, sign_k, some_digits_k) depth 20

  number_k : Keeps I number
  unfolding number
  number_k =
      search (rules, skip_k, peek_l, sign_k, some_digits_k, fraction_k, exponent_k) depth 40 fits
        2000

  literal_k : (cs : List ℕ) → Keeps I (literal cs)
  unfolding literal
  literal_k [] = search rules
  literal_k (c ∷ cs) = bind_k _ _ (expect_k c) λ _. literal_k cs

  scalar_if :
      (b : Bool) (m : P (Unit {0})) (o : Option (P (Unit {0})))
      → Keeps I m
      → ScalarKept I o
      → ScalarKept I (if b then some m else o)
  scalar_if true m o k h = is_scalar k
  scalar_if false m o k h = h

  scalar_else : (b : Bool) → ScalarKept I (if b then none else some (fail eproto))
  scalar_else true = no_scalar
  scalar_else false = is_scalar (eproto_k Unit)

  scalar_value_k :
      (size : ℕ) (d : Destination) (c : Option ℕ) → ScalarKept I (scalar_value size d c)
  unfolding scalar_value
  scalar_value_k size d c = search (scalar_if, scalar_else, string_k, number_k, literal_k) depth 30

  match_scalar_k :
      (o : Option (P (Unit {0}))) (m : P (Unit {0}))
      → ScalarKept I o
      → Keeps I m
      → Keeps I (match_option o m λ scalar. scalar)
  unfolding match_option
  match_scalar_k none m no_scalar h = h
  match_scalar_k (some s) m (is_scalar k) h = k

  member_key_k : (size : ℕ) → Keeps I (member_key size)
  unfolding member_key
  member_key_k size = search (rules, string_k, whitespace_k, expect_k) depth 20

  enter_l : (depth : ℕ) → Keeps I (enter_value depth)
  enter_l = prims.enter_k

  mutual
    unfolding value members

    pub value_k : (fuel size depth : ℕ) (d : Destination) → Keeps I (value fuel size depth d)
    value_k zero size depth d = search eproto_k
    value_k (suc fuel) size depth d = bind_k _ _ (enter_l depth) λ _.
        bind_k _ _ (whitespace_k size) λ _. bind_k _ _ peek_l λ c.
          match_scalar_k _ _ (scalar_value_k size d c) (
            bind_k _ _ skip_k λ _. bind_k _ _ (whitespace_k size) λ _.
              bind_k _ _ peek_l
                λ first. if_k _ _ _ (expect_k _) (members_k fuel size depth (is_byte b'{' c)))

    members_k : (fuel size depth : ℕ) (object : Bool) → Keeps I (members fuel size depth object)
    members_k zero size depth object = search eproto_k
    members_k (suc fuel) size depth object =
        search (rules, member_key_k, value_k fuel, whitespace_k, peek_l, expect_k, members_k fuel)
          depth 40 fits 4000

  emit_all_k : (cs : List ℕ) → Keeps I (emit_all cs)
  unfolding emit_all
  emit_all_k [] = search rules
  emit_all_k (c ∷ cs) = bind_k _ _ (emit_l c) λ _. emit_all_k cs

  core_key_k : (key : List ℕ) → Keeps I (core_key key)
  unfolding core_key
  core_key_k key = search (rules, emit_l, emit_all_k) depth 20

  begin_l : (allocates : Bool) (format : OutputFormat) → Keeps I (begin_output allocates format)
  begin_l = prims.begin_k

  reject_l : Keeps I reject_output
  reject_l = prims.reject_k

  capture_l : (c : Capture) → Keeps I (set_capture c)
  capture_l = prims.capture_k

  read_output_k :
      (allocates : Bool) (size : ℕ) (is_json : Bool) → Keeps I (read_output allocates size is_json)
  unfolding read_output
  read_output_k allocates size is_json =
      search (rules, begin_l, reject_l, capture_l, peek_l, value_k) depth 40 fits 2000

  read_core_k : (size core_fields : ℕ) (key : List ℕ) → Keeps I (read_core size core_fields key)
  unfolding read_core
  read_core_k size core_fields key =
      search (rules, capture_l, emit_l, core_key_k, value_k) depth 40 fits 2000

  read_field_k :
      (allocates : Bool) (size : ℕ) (key : List ℕ) (s : RootState)
      → Keeps I (read_field allocates size key s)
  unfolding read_field
  read_field_k allocates size key s =
      search (rules, read_output_k, read_core_k, value_k) depth 40 fits 2000

  new_key_l : Keeps I (modify (λ p. record p { key = [] }))
  new_key_l = prims.key_k

  read_key_k : (size : ℕ) (s : RootState) → Keeps I (read_key size s)
  unfolding read_key
  read_key_k size s =
      search (rules, new_key_l, string_k, eproto_k, whitespace_k, expect_k) depth 40 fits 2000

  fields_k :
      (fuel : ℕ) (allocates : Bool) (size : ℕ) (s : RootState)
      → Keeps I (fields fuel allocates size s)
  unfolding fields
  fields_k zero allocates size s = search eproto_k
  fields_k (suc fuel) allocates size s =
      search
        (rules, read_key_k, read_field_k, capture_l, peek_l, whitespace_k, expect_k, fields_k fuel)
        depth 40 fits 4000

  finish_root_k : (size : ℕ) → Keeps I (finish_root size)
  unfolding finish_root
  finish_root_k size =
      search (rules, eproto_k, emit_l, capture_l, peek_l, whitespace_k, expect_k) depth 40 fits 4000

  -- Whatever the primitive steps keep, the whole scan keeps.
  pub root_k : (allocates : Bool) (size : ℕ) → Keeps I (root allocates size)
  unfolding root
  root_k allocates size =
      search (rules, emit_l, capture_l, peek_l, whitespace_k, expect_k, fields_k, finish_root_k)
        depth 40 fits 4000
