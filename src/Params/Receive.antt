-- ===== src/Params/Receive.antt =====
-- `get_parameters` of iperf_api.c: the steps it takes, one for each key, and the checks behind them.
mod Steps
unfoldable pub use Steps.*
use iperf_swift.Prelude.{
  codes, ℕ, ◌+◌, ◌*◌, Bool, true, false, not, ◌&&◌, ◌||◌, Option, none, some, List, [], ◌∷◌,
  if◌then◌else◌, ltb, ◌==◌,
}
use iperf_swift.Prelude.Words.{u64}
use iperf_swift.Prelude.Int.{ℤ, pos, negsuc}
use iperf_swift.Errors.{
  Error, ie_omit, ie_affinity, ie_duration, ie_num_streams, ie_block_size, ie_udp_block_size,
  ie_buf_size, ie_mss, ie_burst, ie_bad_tos, ie_no_sendfile, ie_udp_file_transfer,
  ie_max_server_test_duration_exceeded, ie_total_rate, ie_recv_params,
}
use iperf_swift.Params.{
  Protocol, tcp, udp, sctp, is_udp, is_tcp, is_receiver, is_bidirectional, Settings, IperfTest,
  Features, i32, multiple, iperf_set_test_reverse, iperf_set_test_bidirectional, set_protocol,
}

-- `set_protocol`, whose result the function does not look at
abbrev pub chosen : IperfTest → Option Error → Run → Run
chosen t none run = record run { test = t }
chosen t (some e) run = record run { test = t; i_errno = some e }

abbrev pub choose : Features → Protocol → Run → Run
choose sys prot_id run = let (t, e) = set_protocol sys prot_id run.test in chosen t e run

unfoldable pub read_udp : Features → Run → Run
read_udp sys run = elim run.test.diskfile_name [
  | some name ↦ fail ie_udp_file_transfer run
  | none ↦ choose sys udp run
]

unfoldable pub read_protocol : Features → Lookup → Run → Run
unfolding has_flag read_udp
read_protocol sys j run =
    let run = if has_flag j (codes "tcp") then choose sys tcp run else run in
    let run = if has_flag j (codes "udp") then read_udp sys run else run in
    if has_flag j (codes "sctp") then choose sys sctp run else run

abbrev pub max_tcp_buffer : ℕ
max_tcp_buffer = 512 * (1024 * 1024)

abbrev pub max_blocksize : ℕ
max_blocksize = 1024 * 1024

abbrev pub max_udp_blocksize : ℕ
max_udp_blocksize = 65507

-- the steps from "omit" to "len"
abbrev pub test_steps : Features → List Step
test_steps sys =
    number (codes "omit") (between 0 600) ie_omit (λ n t. record t { omit = n })
    ∷ number (codes "server_affinity") (between 0 1024) ie_affinity
        (λ n t. record t { server_affinity = pos n })
    ∷ number (codes "time") (between 0 86400) ie_duration (λ n t. record t { duration = n })
    ∷ reset (on_settings (λ s. record s { bytes = 0 }))
    ∷ number (codes "num") not_negative ie_recv_params
        (λ n. on_settings (λ s. record s { bytes = u64 n }))
    ∷ reset (on_settings (λ s. record s { blocks = 0 }))
    ∷ number (codes "blockcount") not_negative ie_recv_params
        (λ n. on_settings (λ s. record s { blocks = u64 n }))
    ∷ number (codes "MSS") (between 0 32767) ie_mss (λ n. on_settings (λ s. record s { mss = n }))
    ∷ flag (codes "nodelay") (λ t. record t { no_delay = true })
    ∷ number (codes "parallel") (between 1 128) ie_num_streams (λ n t. record t { num_streams = n })
    ∷ flag (codes "reverse") (iperf_set_test_reverse sys true)
    ∷ flag (codes "bidirectional") (iperf_set_test_bidirectional sys true)
    ∷ number (codes "window") (between 0 max_tcp_buffer) ie_buf_size
        (λ n. on_settings (λ s. record s { socket_bufsize = n }))
    ∷ number (codes "len") not_negative ie_block_size
        (λ n. on_settings (λ s. record s { blksize = i32 n }))
    ∷ []

abbrev pub gso_steps : List Step
gso_steps =
    number (codes "gso") not_negative ie_recv_params
      (λ n. on_settings (λ s. record s { gso = i32 n }))
    ∷ number (codes "gso_dg_size") not_negative ie_recv_params
        (λ n. on_settings (λ s. record s { gso_dg_size = i32 n }))
    ∷ number (codes "gso_bf_size") not_negative ie_recv_params
        (λ n. on_settings (λ s. record s { gso_bf_size = i32 n }))
    ∷ []

abbrev pub is_zero : ℤ → Bool
is_zero (pos n) = n == 0
is_zero (negsuc n) = false

abbrev is_one : ℤ → Bool
is_one (pos n) = n == 1
is_one (negsuc n) = false

abbrev pub is_positive : ℤ → Bool
is_positive (pos n) = ltb 0 n
is_positive (negsuc n) = false

-- `gso_dg_size = blksize`, and a multiple of it where it is positive
abbrev pub set_dg_size : Settings → Settings
set_dg_size s = record s {
  gso_dg_size = s.blksize;
  gso_bf_size = elim s.blksize [
    | pos n ↦ if ltb 0 n then multiple s.gso_bf_size n else s.gso_bf_size
    | negsuc n ↦ s.gso_bf_size
  ];
}

-- for a client that sends no sizes
unfoldable pub derive_gso : IperfTest → IperfTest
derive_gso t =
    let sized = set_dg_size t.settings in
    if is_udp t.protocol && is_one t.settings.gso && is_zero t.settings.gso_dg_size
    then record t {
      settings =
          if is_positive t.settings.blksize then sized else record sized { gso_dg_size = pos 1460 };
    }
    else t

-- the steps from "gro" to "TOS"
abbrev pub rate_steps : List Step
rate_steps =
    number (codes "gro") (between 0 1) ie_recv_params (λ n. on_settings (λ s. record s { gro = n }))
    ∷ number (codes "gro_bf_size") not_negative ie_recv_params
        (λ n. on_settings (λ s. record s { gro_bf_size = i32 n }))
    ∷ number (codes "bandwidth") not_negative ie_recv_params
        (λ n. on_settings (λ s. record s { rate = u64 n }))
    ∷ number (codes "fqrate") not_negative ie_recv_params
        (λ n. on_settings (λ s. record s { fqrate = u64 n }))
    ∷ number (codes "pacing_timer") not_negative ie_recv_params
        (λ n. on_settings (λ s. record s { pacing_timer = i32 n }))
    ∷ number (codes "burst") (between 1 1000) ie_burst
        (λ n. on_settings (λ s. record s { burst = n }))
    ∷ number (codes "TOS") (between 0 255) ie_bad_tos (λ n. on_settings (λ s. record s { tos = n }))
    ∷ []

-- the steps from "title" to "skip_rx_copy"
abbrev pub text_steps : List Step
text_steps =
    text (codes "title") (λ w t. record t { title = some w })
    ∷ text (codes "extra_data") (λ w t. record t { extra_data = some w })
    ∷ text (codes "congestion") (λ w t. record t { congestion = some w })
    ∷ text (codes "congestion_used") (λ w t. record t { congestion_used = some w })
    ∷ number_flag (codes "get_server_output") (λ v t. record t { get_server_output = true })
    ∷ number_flag (codes "udp_counters_64bit") (λ v t. record t { udp_counters_64bit = true })
    ∷ number_flag (codes "repeating_payload") (λ v t. record t { repeating_payload = true })
    ∷ number_flag (codes "zerocopy") (λ v t. record t { zerocopy = not (is_zero v) })
    ∷ number_flag (codes "dont_fragment")
        (λ v. on_settings (λ s. record s { dont_fragment = not (is_zero v) }))
    ∷ text (codes "authtoken") (λ w. on_settings (λ s. record s { authtoken = some w }))
    ∷ number_flag (codes "skip_rx_copy")
        (λ v. on_settings (λ s. record s { skip_rx_copy = not (is_zero v) }))
    ∷ []

-- what follows from the values that were read
unfoldable pub note_sender : Features → IperfTest → IperfTest
note_sender sys t = record t {
  sender_has_retransmits =
      (if is_receiver t.mode then false else is_tcp t.protocol) && sys.tcpinfo_retransmits
      || t.sender_has_retransmits;
  target_bitrate = if t.settings.rate == 0 then t.target_bitrate else some t.settings.rate;
}

abbrev pub exceeds : ℕ → ℤ → Bool
exceeds high (pos n) = ltb high n
exceeds high (negsuc n) = false

-- the product of a rate with the number of streams and directions, on 64 bits
unfoldable pub requested_rate : IperfTest → ℕ → ℕ
requested_rate t rate = u64 (t.num_streams * rate * (if is_bidirectional t.mode then 2 else 1))

abbrev pub is_over_limit : IperfTest → ℕ → Bool
is_over_limit t rate =
    not (t.settings.bitrate_limit == 0) && ltb t.settings.bitrate_limit (requested_rate t rate)

-- `if (b) { iperf_set_error(e); r = -1; }`
abbrev pub fail_if : Bool → Error → Run → Run
fail_if b e run = record run {
  i_errno = if b then some e else run.i_errno;
  failed = b || run.failed;
}

abbrev pub is_too_long : IperfTest → Bool
is_too_long t =
    ltb 0 t.max_server_duration
    && (ltb t.max_server_duration (t.duration + t.omit) || t.duration == 0)

abbrev pub adjust_gso : IperfTest → IperfTest
adjust_gso t = record t {
  settings =
      if is_udp t.protocol && not (is_zero t.settings.gso)
      then set_dg_size t.settings
      else t.settings;
}

abbrev pub lacks_sendfile : Features → IperfTest → Bool
lacks_sendfile sys t = t.zerocopy && not (is_receiver t.mode) && not sys.sendfile

-- the checks behind those of the block size
unfoldable pub check_limits : Features → Run → Run
unfolding requested_rate
check_limits sys run =
    let run = on_test adjust_gso run in
    let run = fail_if (is_too_long run.test) ie_max_server_test_duration_exceeded run in
    let run = fail_if (is_over_limit run.test run.test.settings.rate) ie_total_rate run in
    let run = fail_if (is_over_limit run.test run.test.settings.fqrate) ie_total_rate run in
    fail_if (lacks_sendfile sys run.test) ie_no_sendfile run

abbrev pub is_bad_block : Protocol → ℤ → Bool
is_bad_block protocol blksize =
    not (is_udp protocol) && not (is_positive blksize) || exceeds max_blocksize blksize

abbrev pub is_bad_udp_block : Protocol → ℤ → Bool
is_bad_udp_block protocol blksize =
    is_udp protocol && (not (exceeds 15 blksize) || exceeds max_udp_blocksize blksize)

unfoldable pub check_test : Features → Run → Run
unfolding check_limits
check_test sys run =
    if is_bad_block run.test.protocol run.test.settings.blksize
    then fail ie_block_size run
    else if is_bad_udp_block run.test.protocol run.test.settings.blksize
    then fail ie_udp_block_size run
    else check_limits sys run

unfoldable pub read_test : Features → Lookup → Run → Run
unfolding read_protocol take_steps derive_gso note_sender
read_test sys j run =
    let run = take_steps j (test_steps sys) (read_protocol sys j run) in
    let run = on_test derive_gso (take_steps j gso_steps run) in
    let run = take_steps j text_steps (take_steps j rate_steps run) in on_test (note_sender sys) run

-- `j` is none where `JSON_read` gives none. The debugging output is left out.
unfoldable pub get_parameters : Features → Option Lookup → IperfTest → Run
unfolding check_test read_test
get_parameters sys none t = record { test = t; i_errno = some ie_recv_params; failed = true }
get_parameters sys (some j) t =
    check_test sys (read_test sys j (record { test = t; i_errno = none; failed = false }))
