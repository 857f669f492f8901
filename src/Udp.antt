-- ===== src/Udp.antt =====
-- Sources/IperfCLib/iperf_udp.c: the state of a UDP stream that its sender and receiver work on.
pub mod Header
pub mod Receive
pub mod Accounts
pub mod Loss
pub mod Send
pub mod Numbering
pub mod Calls
mod Tests
use iperf_swift.Prelude.{ℕ, ◌-◌, ◌<◌, ◌^◌, Bool, ◌&&◌, List, ltb}
use iperf_swift.Time.{Time}

-- The `double` of the jitter computation, which this language has not: a type with the operations
-- that the code uses.
pub record Floats : Type 1 where
  pub F : Type 0
  pub zero_f : F
  pub in_secs : Time → F
  pub add_f : F → F → F
  pub sub_f : F → F → F
  pub neg_f : F → F
  pub div_16 : F → F
  pub is_neg : F → Bool

-- The fields of `struct iperf_stream` and of its result that the UDP functions use. The counters of
-- type `int64_t` are the bit patterns below 2^64.
pub record UdpStream (F : Type 0) : Type 0 where
  pub packet_count : ℕ
  pub cnt_error : ℕ
  pub outoforder_packets : ℕ
  pub prev_transit : F
  pub jitter : F
  pub bytes_received : ℕ
  pub bytes_received_this_interval : ℕ
  pub bytes_sent : ℕ
  pub bytes_sent_this_interval : ℕ
  pub send_buffer : List ℕ

-- The settings that they use.
pub record UdpSettings : Type 0 where
  pub blksize : ℕ
  pub skip_rx_copy : Bool
  pub gro : Bool
  pub gro_bf_size : ℕ
  pub gso : Bool
  pub gso_dg_size : ℕ
  pub gso_bf_size : ℕ
  pub udp_counters_64bit : Bool

-- an `int64_t` pattern read as a signed number is positive
abbrev pub is_positive_i64 : ℕ → Bool
is_positive_i64 n = ltb 0 n && ltb n (2 ^ 63)

abbrev pub min_pkt_size : ℕ
min_pkt_size = 12
