-- ===== src/Prelude/Words.antt =====
-- Unsigned machine words: the arithmetic of `quint32`, `std::uint64_t` and the casts between them.
use Prim.Native.Nat.{ℕ, ◌+◌, ◌-◌, ◌*◌, ◌%◌, ◌<◌}

abbrev pub u8_mod : ℕ
u8_mod = 256

abbrev pub u16_mod : ℕ
u16_mod = 65536

abbrev pub u32_mod : ℕ
u32_mod = 4294967296

abbrev pub u64_mod : ℕ
u64_mod = 18446744073709551616

abbrev pub add64 : ℕ → ℕ → ℕ
add64 a b = (a + b) % u64_mod

-- Natural subtraction stops at 0, so the modulus is added first.
abbrev pub sub64 : ℕ → ℕ → ℕ
sub64 a b = (a + u64_mod - b) % u64_mod

abbrev pub mul64 : ℕ → ℕ → ℕ
mul64 a b = (a * b) % u64_mod

abbrev pub IsU16 : ℕ → Type 0
IsU16 n = n < u16_mod

abbrev pub IsU32 : ℕ → Type 0
IsU32 n = n < u32_mod

abbrev pub IsU64 : ℕ → Type 0
IsU64 n = n < u64_mod
