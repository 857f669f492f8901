-- ===== src/Params.antt =====
-- Sources/IperfCLib/include/iperf.h: the parts of `struct iperf_test` and `struct iperf_settings`
-- that the parameters of a test stand in, and (iperf_api.c, iperf_util.c) the functions that the
-- exchange of parameters calls on them. The setting of a field by a C assignment to `int` wraps.
pub mod Receive
pub mod Accepted
pub mod Views
pub mod Safe
pub mod Limits
pub mod Send
pub mod Round
pub mod Takes
pub mod Sendable
pub mod Agree
pub mod Fresh
pub mod Meet
pub mod Frame
mod Tests
use iperf_swift.Prelude.{
  ℕ, ◌+◌, ◌-◌, ◌*◌, ◌/◌, ◌%◌, ◌^◌, Bool, true, false, ◌&&◌, Option, none, some, List, [], ◌∷◌,
  if◌then◌else◌, ltb,
}
use iperf_swift.Prelude.Int.{ℤ, pos, negsuc}
pub use iperf_swift.Prelude.Int.{i32}
use iperf_swift.Errors.{Error, ie_protocol}

pub data Protocol : Type 0 where
  tcp : Protocol
  udp : Protocol
  sctp : Protocol

abbrev pub is_udp : Protocol → Bool
is_udp udp = true
is_udp _ = false

abbrev pub is_tcp : Protocol → Bool
is_tcp tcp = true
is_tcp _ = false

abbrev same_protocol : Protocol → Protocol → Bool
same_protocol tcp tcp = true
same_protocol udp udp = true
same_protocol sctp sctp = true
same_protocol _ _ = false

-- `enum iperf_mode`
pub data Mode : Type 0 where
  sender : Mode
  receiver : Mode
  bidirectional_mode : Mode

abbrev pub is_receiver : Mode → Bool
is_receiver receiver = true
is_receiver _ = false

abbrev pub is_bidirectional : Mode → Bool
is_bidirectional bidirectional_mode = true
is_bidirectional _ = false

-- the characters 'c' and 's'
pub data Role : Type 0 where
  client : Role
  server : Role

-- The fields of type `int` that any number is assigned to are integers, those that only numbers from
-- zero up are assigned to are natural, as the `uint64_t` are.
pub record Settings : Type 0 where
  pub bytes : ℕ
  pub blocks : ℕ
  pub mss : ℕ
  pub socket_bufsize : ℕ
  pub blksize : ℤ
  pub gso : ℤ
  pub gso_dg_size : ℤ
  pub gso_bf_size : ℤ
  pub gro : ℕ
  pub gro_bf_size : ℤ
  pub rate : ℕ
  pub bitrate_limit : ℕ
  pub fqrate : ℕ
  pub pacing_timer : ℤ
  pub burst : ℕ
  pub tos : ℕ
  pub flowlabel : ℕ
  pub dont_fragment : Bool
  pub skip_rx_copy : Bool
  pub authtoken : Option (List ℕ)

pub record IperfTest : Type 0 where
  pub role : Role
  pub mode : Mode
  pub protocol : Protocol
  pub protocols : List Protocol
  pub sender_has_retransmits : Bool
  pub omit : ℕ
  pub server_affinity : ℤ
  pub duration : ℕ
  pub max_server_duration : ℕ
  pub no_delay : Bool
  pub num_streams : ℕ
  pub reverse : Bool
  pub bidirectional : Bool
  pub zerocopy : Bool
  pub get_server_output : Bool
  pub udp_counters_64bit : Bool
  pub repeating_payload : Bool
  pub diskfile_name : Option (List ℕ)
  pub title : Option (List ℕ)
  pub extra_data : Option (List ℕ)
  pub congestion : Option (List ℕ)
  pub congestion_used : Option (List ℕ)
  pub target_bitrate : Option ℕ
  pub settings : Settings

-- What the system offers: `has_tcpinfo_retransmits` and `has_sendfile`.
pub record Features : Type 0 where
  pub tcpinfo_retransmits : Bool
  pub sendfile : Bool

-- `a / b * b`, towards zero, for a positive `b`
abbrev pub multiple : ℤ → ℕ → ℤ
multiple (pos a) b = pos (a / b * b)
multiple (negsuc a) b = if ltb ((a + 1) / b * b) 1 then pos 0 else negsuc ((a + 1) / b * b - 1)

unfoldable pub check_sender_has_retransmits : Features → IperfTest → IperfTest
check_sender_has_retransmits sys t = record t {
  sender_has_retransmits =
      (if is_receiver t.mode then false else is_tcp t.protocol) && sys.tcpinfo_retransmits;
}

abbrev pub reverse_mode : Bool → Role → Mode
reverse_mode false client = sender
reverse_mode false server = receiver
reverse_mode true client = receiver
reverse_mode true server = sender

unfoldable pub iperf_set_test_reverse : Features → Bool → IperfTest → IperfTest
unfolding check_sender_has_retransmits
iperf_set_test_reverse sys reverse t =
    check_sender_has_retransmits sys
      (record t { reverse = reverse; mode = reverse_mode reverse t.role })

unfoldable pub iperf_set_test_bidirectional : Features → Bool → IperfTest → IperfTest
unfolding iperf_set_test_reverse
iperf_set_test_bidirectional sys bidirectional t =
    let marked = record t { bidirectional = bidirectional } in
    if bidirectional
    then record marked { mode = bidirectional_mode }
    else iperf_set_test_reverse sys t.reverse marked

-- whether the loop over `test->protocols` finds one with this id
unfoldable pub finds_protocol : Protocol → List Protocol → Bool
finds_protocol prot_id [] = false
finds_protocol prot_id (prot ∷ rest) =
    let later = finds_protocol prot_id rest in if same_protocol prot prot_id then true else later

-- The new test, and the error where the protocol is not known.
unfoldable pub set_protocol : Features → Protocol → IperfTest → IperfTest × Option Error
unfolding finds_protocol check_sender_has_retransmits
set_protocol sys prot_id t =
    if finds_protocol prot_id t.protocols
    then (check_sender_has_retransmits sys (record t { protocol = prot_id }), none)
    else (t, some ie_protocol)
