-- ===== src/Prelude/Words.antt =====
-- C's unsigned integers as native numbers: every operation that can wrap does so by `%`.
use Prim.Native.Nat.{ℕ, ◌+◌, ◌-◌, ◌%◌, ◌^◌}

abbrev pub u32_mod : ℕ
u32_mod = 2 ^ 32

abbrev pub u64_mod : ℕ
u64_mod = 2 ^ 64

-- a conversion to `uint32_t`
abbrev pub u32 : ℕ → ℕ
u32 n = n % u32_mod

-- a conversion to `uint64_t` or `size_t`
abbrev pub u64 : ℕ → ℕ
u64 n = n % u64_mod

-- `a - b` on `uint32_t`, for `b` below the modulus
abbrev pub sub_u32 : ℕ → ℕ → ℕ
sub_u32 a b = (a + u32_mod - b) % u32_mod

-- `a - b` on `uint64_t`, for `b` below the modulus
abbrev pub sub_u64 : ℕ → ℕ → ℕ
sub_u64 a b = (a + u64_mod - b) % u64_mod
