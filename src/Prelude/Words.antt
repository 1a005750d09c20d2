-- ===== src/Prelude/Words.antt =====
-- Unsigned machine words: a value is a number below the modulus, and arithmetic wraps.
use Prim.Native.Nat.{ℕ, ◌%◌}

abbrev pub u32_mod : ℕ
u32_mod = 4294967296

abbrev pub u64_mod : ℕ
u64_mod = 18446744073709551616

abbrev pub wrap32 : ℕ → ℕ
wrap32 n = n % u32_mod

abbrev pub wrap64 : ℕ → ℕ
wrap64 n = n % u64_mod
