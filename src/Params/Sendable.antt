-- ===== src/Params/Sendable.antt =====
-- The test of a client whose parameters arrive, and what the steps of `get_parameters` make of the
-- object of `send_parameters`, field by field.
use iperf_swift.Prelude.{
  ℕ, ◌≤◌, ◌<◌, ◌^◌, ◌&&◌, Bool, true, false, ◌≡◌, ◌≢◌, refl, ltb, lt→ltb, arith, Option, none, some,
  List, [], ◌∷◌, if◌then◌else◌,
}
use iperf_swift.Prelude.Int.{pos, negsuc}
use iperf_swift.Params.{
  sctp, is_tcp, is_receiver, reverse_mode, bidirectional_mode, IperfTest, Features,
  iperf_set_test_reverse, iperf_set_test_bidirectional,
}
use iperf_swift.Params.Receive.{string_item, Step, max_tcp_buffer}
use iperf_swift.Params.Send.{is_given, or_empty, as_valueint, as_doubles}

-- The client's test is one that its command line accepts: every number within the bounds that the
-- server has, `int`s that are not negative, 64-bit numbers that a `double` holds, and a protocol that
-- the build has.
pub record IsSendable (c : IperfTest) : Type 0 where
  pub block : ℕ
  pub is_block : c.settings.blksize ≡ pos block
  pub dg_size : ℕ
  pub bf_size : ℕ
  pub gro_size : ℕ
  pub pacing : ℕ
  pub gso_off : c.settings.gso ≡ pos 0
  pub is_dg : c.settings.gso_dg_size ≡ pos dg_size
  pub is_bf : c.settings.gso_bf_size ≡ pos bf_size
  pub is_gro : c.settings.gro_bf_size ≡ pos gro_size
  pub is_pacing : c.settings.pacing_timer ≡ pos pacing
  pub small_dg : dg_size < 2 ^ 31
  pub small_bf : bf_size < 2 ^ 31
  pub small_gro : gro_size < 2 ^ 31
  pub small_pacing : pacing < 2 ^ 31
  pub receives : c.settings.gro ≤ 1
  pub no_affinity : c.server_affinity ≡ negsuc 0
  pub omits : c.omit ≤ 600
  pub lasts : c.duration ≤ 86400
  pub one_stream : 1 ≤ c.num_streams
  pub streams : c.num_streams ≤ 128
  pub segments : c.settings.mss ≤ 32767
  pub buffers : c.settings.socket_bufsize ≤ max_tcp_buffer
  pub bursts : c.settings.burst ≤ 1000
  pub service : c.settings.tos ≤ 255
  pub bytes_fit : c.settings.bytes < 2 ^ 53
  pub blocks_fit : c.settings.blocks < 2 ^ 53
  pub rate_fits : c.settings.rate < 2 ^ 53
  pub fqrate_fits : c.settings.fqrate < 2 ^ 53
  pub small_block : block < 2 ^ 31
  pub no_sctp : c.protocol ≢ sctp

as_valueint-exact : (n : ℕ) → n < 2 ^ 53 → as_valueint n ≡ n
unfolding as_valueint
as_valueint-exact n fits =
    let small : ltb n (2 ^ 53) ≡ true = lt→ltb n (2 ^ 53) fits in rw small (omega arith)

-- Such a test is sent as it is.
pub as_doubles-exact : (c : IperfTest) → IsSendable c → as_doubles c ≡ c
unfolding as_doubles
as_doubles-exact c fits =
    rw
      (
        as_valueint-exact c.settings.bytes fits.bytes_fit,
        as_valueint-exact c.settings.blocks fits.blocks_fit,
        as_valueint-exact c.settings.rate fits.rate_fits,
        as_valueint-exact c.settings.fqrate fits.fqrate_fits,
      )
      refl

-- what "reverse" and "bidirectional" set, field by field
abbrev pub reverse_update : Features → Bool → IperfTest → IperfTest
reverse_update sys b t = record t {
  reverse = if b then true else t.reverse;
  mode = if b then (reverse_mode true t.role) else t.mode;
  sender_has_retransmits =
      if b
      then (if is_receiver (reverse_mode true t.role) then false else is_tcp t.protocol)
        && sys.tcpinfo_retransmits
      else t.sender_has_retransmits;
}

pub reverse_update-is :
    (sys : Features) (b : Bool) (t : IperfTest)
    → reverse_update sys b t ≡ (if b then iperf_set_test_reverse sys true t else t)
unfolding iperf_set_test_reverse
reverse_update-is sys true t = refl
reverse_update-is sys false t = refl

abbrev pub bidirectional_update : Bool → IperfTest → IperfTest
bidirectional_update b t = record t {
  bidirectional = if b then true else t.bidirectional;
  mode = if b then bidirectional_mode else t.mode;
}

pub bidirectional_update-is :
    (sys : Features) (b : Bool) (t : IperfTest)
    → bidirectional_update b t ≡ (if b then iperf_set_test_bidirectional sys true t else t)
unfolding iperf_set_test_bidirectional
bidirectional_update-is sys true t = refl
bidirectional_update-is sys false t = refl

-- the steps, each with its update
abbrev pub pair_with :
    List Step → List (IperfTest → IperfTest) → List (Step × (IperfTest → IperfTest))
pair_with (step ∷ steps) (f ∷ fs) = (step, f) ∷ pair_with steps fs
pair_with _ _ = []

pub text_found :
    (w : Option (List ℕ))
    → (let item = if is_given w then some (string_item (or_empty w)) else none in
        elim item [ some (string_item s) ↦ some s | _ ↦ none ])
      ≡ w
text_found none = refl
text_found (some w) = refl
