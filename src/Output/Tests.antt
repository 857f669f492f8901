-- ===== src/Output/Tests.antt =====
-- Runs of the bounded reader (iperf_bounded_output.c) on small frames.
use iperf_swift.Prelude.{codes, ℕ, ◌≡◌, refl, some, true, List, [], ◌∷◌, length}
use iperf_swift.Output.{◌>>=◌, pure, modify, gets, stop, match_option, branch, chunk}
use iperf_swift.Output.Stream.{peek, emit, take_byte, take, expect, whitespace}
use iperf_swift.Output.Text.{
  decoded_scalar, hex_digit, hex_digits, hex4, unicode_escape, short_escape, escape, continuation,
  lead_byte, multibyte, scalar_of, string_loop, string,
}
use iperf_swift.Output.Value.{
  enter_value, skip, digits, some_digits, optional_sign, fraction, exponent, number, literal,
  scalar_value, member_key, value, members,
}
use iperf_swift.Output.Root.{
  mark_seen, begin_output, emit_all, escaped, escaped_key, core_key, read_output, read_core,
  read_field, read_key, fields, finish_root,
}
use iperf_swift.Output.Results.{Promise, read_bounded_results-Promise}
use iperf_swift.Output.Read.{tree, ReadResult, read_bounded_results, cleared, zeroed}

abbrev frame : List ℕ
frame = codes "{ \"streams\" : [1, -2.5e+3,{}], \"server_output_text\":\"hi\\n\" , \"ok\":true}"

abbrev run : List ℕ → ReadResult (List ℕ)
run bytes =
    read_bounded_results tree true true true (length bytes) 8 (chunk bytes ∷ []) cleared zeroed

-- The core keeps the fields that are no output, without their white space.
core_run : (run frame).result ≡ some (codes "{\"streams\":[1,-2.5e+3,{}],\"ok\":true}")
unfolding read_bounded_results ◌>>=◌ pure modify gets stop match_option branch take_byte take expect
    whitespace hex_digit hex_digits hex4 unicode_escape short_escape escape continuation lead_byte
    multibyte scalar_of string_loop string skip digits some_digits optional_sign fraction exponent
    number literal scalar_value member_key value members emit_all escaped escaped_key core_key
    read_output read_core read_field read_key fields finish_root peek emit decoded_scalar mark_seen
    enter_value begin_output
core_run = refl

output_run : (run frame).output.value ≡ some (codes "hi\n")
unfolding read_bounded_results ◌>>=◌ pure modify gets stop match_option branch take_byte take expect
    whitespace hex_digit hex_digits hex4 unicode_escape short_escape escape continuation lead_byte
    multibyte scalar_of string_loop string skip digits some_digits optional_sign fraction exponent
    number literal scalar_value member_key value members emit_all escaped escaped_key core_key
    read_output read_core read_field read_key fields finish_root peek emit decoded_scalar mark_seen
    enter_value begin_output
output_run = refl

read_bounded_results-Promise_example : Promise (List ℕ) (length frame) 8 (run frame)
read_bounded_results-Promise_example =
    read_bounded_results-Promise tree true true true (length frame) 8 (chunk frame ∷ [])
