-- ===== src/Udp/Header.antt =====
-- The header of a UDP test packet (iperf_udp.c): seconds, microseconds and sequence number in
-- network byte order, the number on 64 or on 32 bits.
use iperf_swift.Prelude.{
  ℕ, ◌+◌, ◌*◌, ◌/◌, ◌%◌, ◌≡◌, ◌<◌, Bool, true, false, List, [], ◌∷◌, ◌++◌, arith, get_or,
  if◌then◌else◌,
}
use iperf_swift.Prelude.Words.{u32_mod, u64_mod}
use iperf_swift.Time.{Time}

-- the bytes of `htonl(n)`
abbrev pub be32_bytes : ℕ → List ℕ
be32_bytes n = n / 16777216 % 256 ∷ n / 65536 % 256 ∷ n / 256 % 256 ∷ n % 256 ∷ []

-- the bytes of `htobe64(n)`
abbrev pub be64_bytes : ℕ → List ℕ
be64_bytes n = be32_bytes (n / u32_mod) ++ be32_bytes n

-- `ntohl` of the four bytes at an offset
abbrev pub be32_at : List ℕ → ℕ → ℕ
be32_at bytes i =
    get_or bytes i 0 * 16777216
    + get_or bytes (i + 1) 0 * 65536
    + get_or bytes (i + 2) 0 * 256
    + get_or bytes (i + 3) 0

-- `be64toh` of the eight bytes at an offset
abbrev pub be64_at : List ℕ → ℕ → ℕ
be64_at bytes i = be32_at bytes i * u32_mod + be32_at bytes (i + 4)

-- `sent_time` and `pcount`
unfoldable pub read_header : Bool → List ℕ → Time × ℕ
read_header counters_64bit bytes = (
  record { secs = be32_at bytes 0; usecs = be32_at bytes 4 },
  if counters_64bit then be64_at bytes 8 else be32_at bytes 8,
)

-- the bytes that `memcpy` puts at the front of a datagram
unfoldable pub write_header : Bool → Time → ℕ → List ℕ
write_header counters_64bit before packet_count =
    be32_bytes before.secs
    ++ be32_bytes before.usecs
    ++ (if counters_64bit then be64_bytes packet_count else be32_bytes packet_count)

-- What the receiver reads from a header is what the sender put there, whatever bytes follow: the
-- time as it was, and the number modulo 2^64, or modulo 2^32 with the short counter.
pub read_header-write_header :
    (counters_64bit : Bool) (t : Time) (n : ℕ) (rest : List ℕ)
    → t.secs < u32_mod
    → t.usecs < u32_mod
    → read_header counters_64bit (write_header counters_64bit t n ++ rest)
      ≡ (t, n % (if counters_64bit then u64_mod else u32_mod))
unfolding read_header write_header
read_header-write_header true t n rest s u = ground arith
read_header-write_header false t n rest s u = ground arith
