-- ===== src/Qos/Tests.antt =====
-- Names of dscp.c.
use iperf_swift.Prelude.{codes, ℕ, ◌≡◌, refl, Option, some, List}
use iperf_swift.Prelude.Int.{ℤ, pos}
use iperf_swift.Output.Root.{same_key}
use iperf_swift.Qos.{ipqos, parse_qos, find_name, iptos2str}
use iperf_swift.Qos.Laws.{IsTos, parse_qos-IsTos, parse_qos-iptos2str}

-- a `strtol` that reads everything as 46
abbrev strtol : List ℕ → Option ℤ
strtol cp = some (pos 46)

ef_run : parse_qos strtol (some (codes "EF")) ≡ pos 0xb8
unfolding parse_qos find_name same_key
ef_run = refl

number_run : parse_qos strtol (some (codes "46")) ≡ pos 0xb8
unfolding parse_qos find_name same_key
number_run = refl

parse_qos-IsTos_example : IsTos (parse_qos strtol (some (codes "46")))
parse_qos-IsTos_example = parse_qos-IsTos strtol (some (codes "46"))

is_ef : find_name (codes "EF") ipqos ≡ some 0xb8
unfolding find_name same_key
is_ef = refl

parse_qos-iptos2str_example : parse_qos strtol (some (iptos2str (pos 0xb8))) ≡ pos 0
parse_qos-iptos2str_example = parse_qos-iptos2str strtol (codes "EF") 0xb8 is_ef
