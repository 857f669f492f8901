-- ===== src/Params/Fresh.antt =====
-- A server before its first test: what `get_parameters` does on it with a protocol, and with a test
-- that no check refuses.
use iperf_swift.Prelude.{
  codes, ℕ, ◌<◌, ◌^◌, not, Bool, true, false, ◌≡◌, ◌≢◌, ◌∙◌, refl, ap, none, [], ◌∷◌, if◌then◌else◌,
  ◌==◌, arith,
}
use iperf_swift.Prelude.Int.{pos, negsuc}
use iperf_swift.Errors.{ie_no_sendfile, ie_total_rate, ie_max_server_test_duration_exceeded}
use iperf_swift.Params.{
  Protocol, tcp, udp, sctp, is_udp, is_tcp, server, receiver, IperfTest, Features, set_protocol,
  finds_protocol, check_sender_has_retransmits, i32,
}
use iperf_swift.Params.Receive.{
  Lookup, Run, has_flag, read_udp, read_protocol, derive_gso, adjust_gso, check_limits, check_test,
  is_bad_block, is_bad_udp_block, fail_if, is_too_long, is_over_limit, lacks_sendfile,
}

-- A server without limits before its first test, as `iperf_defaults` and `iperf_set_test_role` leave it
-- in the build of the repository, which has no SCTP.
abbrev pub fresh_server : IperfTest
fresh_server = record {
  role = server;
  mode = receiver;
  protocol = tcp;
  protocols = tcp ∷ udp ∷ [];
  sender_has_retransmits = false;
  omit = 0;
  server_affinity = negsuc 0;
  duration = 10;
  max_server_duration = 0;
  no_delay = false;
  num_streams = 1;
  reverse = false;
  bidirectional = false;
  zerocopy = false;
  get_server_output = false;
  udp_counters_64bit = false;
  repeating_payload = false;
  diskfile_name = none;
  title = none;
  extra_data = none;
  congestion = none;
  congestion_used = none;
  target_bitrate = none;
  settings = record {
    bytes = 0;
    blocks = 0;
    mss = 0;
    socket_bufsize = 0;
    blksize = pos 131072;
    gso = pos 0;
    gso_dg_size = pos 0;
    gso_bf_size = pos 65507;
    gro = 0;
    gro_bf_size = pos 65507;
    rate = 0;
    bitrate_limit = 0;
    fqrate = 0;
    pacing_timer = pos 1000;
    burst = 0;
    tos = 0;
    flowlabel = 0;
    dont_fragment = false;
    skip_rx_copy = false;
    authtoken = none;
  };
}

abbrev pub begun : Run
begun = record { test = fresh_server; i_errno = none; failed = false }

abbrev pub with_protocol : Protocol → IperfTest
with_protocol p = record fresh_server { protocol = p }

abbrev pub is_sctp : Protocol → Bool
is_sctp sctp = true
is_sctp _ = false

pub protocol-is :
    (sys : Features) (l : Lookup) (p : Protocol)
    → has_flag l (codes "tcp") ≡ is_tcp p
    → has_flag l (codes "udp") ≡ is_udp p
    → has_flag l (codes "sctp") ≡ is_sctp p
    → p ≢ sctp
    → read_protocol sys l begun ≡ record begun { test = with_protocol p }
unfolding read_protocol read_udp set_protocol finds_protocol check_sender_has_retransmits
protocol-is sys l tcp t u s has = rw (t, u, s)
protocol-is sys l udp t u s has = rw (t, u, s)
protocol-is sys l sctp t u s has = absurd (has refl)

-- where the segmentation of datagrams is off
pub derive_gso-off : (t : IperfTest) → t.settings.gso ≡ pos 0 → derive_gso t ≡ t
unfolding derive_gso
derive_gso-off t off = ground arith

adjust_gso-off : (t : IperfTest) → t.settings.gso ≡ pos 0 → adjust_gso t ≡ t
adjust_gso-off t off = ground arith

pub gso-is_off : (b : Bool) → (if b then i32 0 else pos 0) ≡ pos 0
gso-is_off true = refl
gso-is_off false = refl

pub sent-block :
    (p : Protocol) (b : ℕ)
    → is_bad_block p (pos b) ≡ false
    → is_bad_udp_block p (pos b) ≡ false
    → b < 2 ^ 31
    → (if not (b == 0) then i32 b else pos 131072) ≡ pos b
sent-block tcp b block udp_block small = ground arith
sent-block udp b block udp_block small = ground arith
sent-block sctp b block udp_block small = ground arith

-- `check_limits` behind the sizes of datagrams
abbrev four_checks : Features → IperfTest → Run
four_checks sys t = fail_if (lacks_sendfile sys t) ie_no_sendfile (
    fail_if (is_over_limit t t.settings.fqrate) ie_total_rate (
      fail_if (is_over_limit t t.settings.rate) ie_total_rate
        (fail_if (is_too_long t) ie_max_server_test_duration_exceeded (record begun { test = t }))))

four_checks-pass :
    (sys : Features) (t : IperfTest)
    → is_too_long t ≡ false
    → is_over_limit t t.settings.rate ≡ false
    → is_over_limit t t.settings.fqrate ≡ false
    → lacks_sendfile sys t ≡ false
    → four_checks sys t ≡ record begun { test = t }
four_checks-pass sys t short rate fqrate has_file = rw (short, rate, fqrate, has_file)

pub limits-pass :
    (sys : Features) (t : IperfTest)
    → t.max_server_duration ≡ 0
    → t.settings.bitrate_limit ≡ 0
    → t.settings.gso ≡ pos 0
    → sys.sendfile ≡ true
    → check_limits sys (record begun { test = t }) ≡ record begun { test = t }
unfolding check_limits
limits-pass sys t endless unlimited off sendfile =
    ap (λ u. four_checks sys u) (adjust_gso-off t off)
    ∙ four_checks-pass sys t (ground arith) (ground arith) (ground arith) (ground arith)

pub test-passes :
    (sys : Features) (t : IperfTest)
    → is_bad_block t.protocol t.settings.blksize ≡ false
    → is_bad_udp_block t.protocol t.settings.blksize ≡ false
    → check_limits sys (record begun { test = t }) ≡ record begun { test = t }
    → check_test sys (record begun { test = t }) ≡ record begun { test = t }
unfolding check_test
test-passes sys t block udp_block limits = rw (block, udp_block) limits
