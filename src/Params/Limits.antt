-- ===== src/Params/Limits.antt =====
-- What a server has promised when `get_parameters` accepts a test: its block size, its duration and its rate.
use iperf_swift.Prelude.{
  if_both, ℕ, ◌+◌, ◌*◌, ◌^◌, ◌≤◌, ◌<◌, false, ◌≡◌, refl, sym, subst, ◌&&◌, not, Option, none, some,
  if◌then◌else◌, arith,
}
use iperf_swift.Prelude.Int.{ℤ, pos, negsuc}
use iperf_swift.Params.{IperfTest, Features, Protocol, tcp, udp, sctp, is_udp, is_bidirectional}
use iperf_swift.Params.Receive.{
  Lookup, Run, check_limits, check_test, read_test, requested_rate, get_parameters, is_bad_block,
  is_bad_udp_block, is_too_long, is_over_limit, adjust_gso, set_dg_size, is_zero, max_blocksize,
  max_udp_blocksize,
}

-- the block sizes of a protocol
abbrev pub BlockFits : Protocol → ℤ → Type 0
BlockFits protocol (negsuc n) = 1 ≤ 0
BlockFits udp (pos n) = (16 ≤ n) × (n ≤ max_udp_blocksize)
BlockFits protocol (pos n) = (1 ≤ n) × (n ≤ max_blocksize)

-- not longer than the server allows, if it has a limit, and not without end
abbrev DurationFits : IperfTest → Type 0
DurationFits t =
    0 < t.max_server_duration → (t.duration + t.omit ≤ t.max_server_duration) × (0 < t.duration)

-- the rate that the server computes is within its limit, if it has one
abbrev RateFits : IperfTest → ℕ → Type 0
RateFits t rate = 0 < t.settings.bitrate_limit → requested_rate t rate ≤ t.settings.bitrate_limit

-- What a test that runs satisfies.
abbrev pub IsWithinLimits : IperfTest → Type 0
IsWithinLimits t =
    BlockFits t.protocol t.settings.blksize
    × DurationFits t
    × RateFits t t.settings.rate
    × RateFits t t.settings.fqrate

size-BlockFits :
    (protocol : Protocol) (blksize : ℤ)
    → is_bad_block protocol blksize ≡ false
    → is_bad_udp_block protocol blksize ≡ false
    → BlockFits protocol blksize
size-BlockFits tcp (pos n) block udp_block = ground arith
size-BlockFits udp (pos n) block udp_block = ground arith
size-BlockFits sctp (pos n) block udp_block = ground arith
size-BlockFits tcp (negsuc n) block udp_block = ground arith
size-BlockFits udp (negsuc n) block udp_block = ground arith
size-BlockFits sctp (negsuc n) block udp_block = ground arith

long-DurationFits : (t : IperfTest) → is_too_long t ≡ false → DurationFits t
long-DurationFits t h some_limit = ground arith

over-RateFits : (t : IperfTest) (rate : ℕ) → is_over_limit t rate ≡ false → RateFits t rate
over-RateFits t rate h some_limit = ground arith

limits_hold :
    (sys : Features) (run : Run)
    → (check_limits sys run).failed ≡ false
    → let t = (check_limits sys run).test in
      DurationFits t × RateFits t t.settings.rate × RateFits t t.settings.fqrate
unfolding check_limits
limits_hold sys run h =
    let t = adjust_gso run.test in
    (
      long-DurationFits t (ground arith),
      over-RateFits t t.settings.rate (ground arith),
      over-RateFits t t.settings.fqrate (ground arith),
    )

adjust_gso-blksize : (t : IperfTest) → (adjust_gso t).settings.blksize ≡ t.settings.blksize
adjust_gso-blksize t =
    if_both (λ s. s.blksize ≡ t.settings.blksize)
      (is_udp t.protocol && not (is_zero t.settings.gso)) (set_dg_size t.settings) t.settings
      (λ on. refl) (λ off. refl)

-- what a run that is not refused promises
abbrev Promises : Run → Type 0
Promises run = run.failed ≡ false → IsWithinLimits run.test

check_test-IsWithinLimits : (sys : Features) (run : Run) → Promises (check_test sys run)
unfolding check_test
check_test-IsWithinLimits sys run =
    let protocol = run.test.protocol in
    let blksize = run.test.settings.blksize in
    if_both Promises (is_bad_block protocol blksize) _ _ (λ bad h. absurd (ground arith))
      (λ block.
        if_both Promises (is_bad_udp_block protocol blksize) _ _ (λ bad h. absurd (ground arith))
          (λ udp_block h.
            let limits = limits_hold sys run h in
            (
              subst (BlockFits protocol) (sym (adjust_gso-blksize run.test))
                  (size-BlockFits protocol blksize block udp_block),
              limits.0,
              limits.1,
              limits.2,
            )))

-- A test that `get_parameters` does not refuse has a block size that its protocol can carry, ends
-- within the longest duration of the server, if it has one, and does not exceed the server's limit
-- by the rates that the server computes on 64 bits, if it has one.
pub get_parameters-IsWithinLimits :
    (sys : Features) (j : Option Lookup) (t : IperfTest)
    → (get_parameters sys j t).failed ≡ false
    → IsWithinLimits (get_parameters sys j t).test
unfolding get_parameters
get_parameters-IsWithinLimits sys none t h = absurd (ground arith)
get_parameters-IsWithinLimits sys (some j) t h =
    check_test-IsWithinLimits sys
      (read_test sys j (record { test = t; i_errno = none; failed = false })) h

-- Below 2^56 bits per second and for at most 128 streams the total rate is computed exactly.
pub requested_rate_exact :
    (t : IperfTest) (rate : ℕ)
    → t.num_streams ≤ 128
    → rate < 2 ^ 56
    → requested_rate t rate ≡ t.num_streams * rate * (if is_bidirectional t.mode then 2 else 1)
unfolding requested_rate
requested_rate_exact t rate streams small = grind arith

-- For 128 streams the total of any rate that is a multiple of 2^57 is 0 on 64 bits, whatever the
-- mode, and so under every limit.
pub requested_rate_wraps :
    (t : IperfTest) (k : ℕ) → t.num_streams ≡ 128 → requested_rate t (k * 2 ^ 57) ≡ 0
unfolding requested_rate
requested_rate_wraps t k streams = ground arith
