-- ===== src/Params/Tests.antt =====
-- Runs of the exchange of parameters.
use iperf_swift.Prelude.{
  codes, ℕ, ◌*◌, ◌^◌, inr, true, false, ◌≡◌, refl, Option, none, some, List, [], ◌∷◌, ◌++◌,
  if◌then◌else◌, arith,
}
use iperf_swift.Prelude.Int.{pos}
use iperf_swift.Output.Root.{same_key}
use iperf_swift.Udp.Header.{be32_bytes}
use iperf_swift.Params.{
  IperfTest, Features, client, receiver, set_protocol, finds_protocol, iperf_set_test_reverse,
}
use iperf_swift.Params.Receive.{
  bool_item, number_item, Lookup, get_parameters, requested_rate, check_test, read_test, has_flag,
  get_number, get_string, take_steps, read_protocol, derive_gso, note_sender, check_limits,
  read_udp,
}
use iperf_swift.Params.Accepted.{
  AllBetween, AllUnsigned, bounds, unsigned_keys, get_parameters-AllBetween,
}
use iperf_swift.Params.Views.{get_parameters-turn_on, turn_on}
use iperf_swift.Params.Safe.{IsSane, get_parameters-IsSane}
use iperf_swift.Params.Limits.{
  BlockFits, IsWithinLimits, get_parameters-IsWithinLimits, requested_rate_wraps,
}
use iperf_swift.Params.Send.{
  as_valueint, round_from, Cjson, CjsonLaws, first, all_entries, add_entries,
}
use iperf_swift.Params.Sendable.{IsSendable}
use iperf_swift.Params.Fresh.{fresh_server}
use iperf_swift.Params.Meet.{Agrees, get_parameters-Agrees}
use iperf_swift.Params.Frame.{json_write, json_read, json_read-json_write, json_read_truncated}

abbrev sys : Features
sys = record { tcpinfo_retransmits = false; sendfile = true }

-- an object with a few keys
abbrev asked : Lookup
asked key =
    if same_key key (codes "udp")
    then some (bool_item true)
    else if same_key key (codes "time")
    then some (number_item (pos 10))
    else if same_key key (codes "len")
    then some (number_item (pos 1460))
    else if same_key key (codes "bandwidth")
    then some (number_item (pos 1000000))
    else if same_key key (codes "reverse")
    then some (bool_item false)
    else none

accepted_run : (get_parameters sys (some asked) fresh_server).failed ≡ false
unfolding get_parameters check_test read_test has_flag get_number get_string take_steps
    read_protocol set_protocol finds_protocol same_key derive_gso note_sender check_limits read_udp
    iperf_set_test_reverse
accepted_run = refl

-- a "time" above the bound
abbrev too_long : Lookup
too_long key = if same_key key (codes "time") then some (number_item (pos 86401)) else none

refused_run : (get_parameters sys (some too_long) fresh_server).failed ≡ true
unfolding get_parameters check_test read_test has_flag get_number get_string take_steps
    read_protocol same_key derive_gso note_sender check_limits
refused_run = refl

get_parameters-AllBetween_example : AllBetween asked bounds × AllUnsigned asked unsigned_keys
get_parameters-AllBetween_example = get_parameters-AllBetween sys asked fresh_server accepted_run

get_parameters-turn_on_example :
    get_parameters sys (some (λ name. turn_on (asked name))) fresh_server
    ≡ get_parameters sys (some asked) fresh_server
get_parameters-turn_on_example = get_parameters-turn_on sys asked fresh_server

fresh-IsSane : IsSane fresh_server
fresh-IsSane = ground arith

get_parameters-IsSane_example :
    let run = get_parameters sys (some asked) fresh_server in
    IsSane run.test × (run.failed ≡ false → BlockFits run.test.protocol run.test.settings.blksize)
get_parameters-IsSane_example = get_parameters-IsSane sys (some asked) fresh_server fresh-IsSane

get_parameters-IsWithinLimits_example :
    IsWithinLimits (get_parameters sys (some asked) fresh_server).test
get_parameters-IsWithinLimits_example =
    get_parameters-IsWithinLimits sys (some asked) fresh_server accepted_run

-- 128 streams
abbrev many : IperfTest
many = record fresh_server { num_streams = 128 }

requested_rate_wraps_example : requested_rate many (1 * 2 ^ 57) ≡ 0
requested_rate_wraps_example = requested_rate_wraps many 1 refl

-- an object as its search
abbrev lookups : Cjson
lookups = record {
  Object = Lookup;
  create = λ key. none;
  add = λ name item o key. first (o key) (if same_key key name then some item else none);
  get_object_item = λ o. o;
}

lookups-CjsonLaws : CjsonLaws lookups
lookups-CjsonLaws = record { get-create = λ key. refl; get-add = λ o name item key. refl }

-- a client that asks for a reverse test over TCP
abbrev ready_client : IperfTest
ready_client = record fresh_server {
  role = client;
  mode = receiver;
  reverse = true;
  duration = 10;
  num_streams = 4;
  title = some (codes "t");
  settings = record fresh_server.settings { mss = 1400; tos = 8; rate = 1000000 };
}

abbrev sendable : IsSendable ready_client
sendable = record {
  block = 131072;
  is_block = refl;
  dg_size = 0;
  bf_size = 65507;
  gro_size = 65507;
  pacing = 1000;
  gso_off = refl;
  is_dg = refl;
  is_bf = refl;
  is_gro = refl;
  is_pacing = refl;
  small_dg = omega arith;
  small_bf = omega arith;
  small_gro = omega arith;
  small_pacing = omega arith;
  receives = omega arith;
  no_affinity = refl;
  omits = omega arith;
  lasts = omega arith;
  one_stream = omega arith;
  streams = omega arith;
  segments = omega arith;
  buffers = omega arith;
  bursts = omega arith;
  service = omega arith;
  bytes_fit = omega arith;
  blocks_fit = omega arith;
  rate_fits = omega arith;
  fqrate_fits = omega arith;
  small_block = omega arith;
  no_sctp = λ same. ground arith;
}

abbrev sent_object : Lookup
sent_object = add_entries lookups (all_entries (codes "3.19") none ready_client) lookups.create

get_parameters-Agrees_example :
    ((get_parameters sys (some sent_object) fresh_server).failed ≡ false)
    × Agrees none ready_client (get_parameters sys (some sent_object) fresh_server).test
get_parameters-Agrees_example =
    get_parameters-Agrees lookups lookups-CjsonLaws (codes "3.19") none ready_client sys sendable
      refl refl refl

-- a parser that gives the text
abbrev parse : List ℕ → Option (List ℕ)
parse str = some str

json_read-json_write_example :
    (frame : List ℕ) × (json_write (some (codes "{}")) ≡ some (frame, true))
    × (json_read parse 8192 (record { bytes = frame ++ 10 ∷ []; breaks = true })
        ≡ (parse (codes "{}"), record { bytes = 10 ∷ []; breaks = true }))
json_read-json_write_example =
    json_read-json_write parse 8192 (codes "{}") (10 ∷ []) true (omega arith) (omega arith)
      (inr (omega arith))

json_read_truncated_example :
    (json_read parse 0 (record { bytes = be32_bytes 3 ++ codes "{}"; breaks = false })).0 ≡ none
json_read_truncated_example =
    json_read_truncated parse 0 3 (codes "{}") false (omega arith) (omega arith)

-- 2^53 + 1 is no double, and 2^64 - 1 saturates.
rounding_test :
    (as_valueint 9007199254740993 ≡ 9007199254740992)
    × (as_valueint 18446744073709551615 ≡ 9223372036854775807)
unfolding as_valueint round_from
rounding_test = (refl, refl)
