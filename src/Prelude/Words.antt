-- ===== src/Prelude/Words.antt =====
-- Machine words: a value is a plain number, and a store of width w keeps it modulo 2 ^ w.
use Prim.Native.Nat.{ℕ, ◌%◌, ◌<◌}

abbrev pub u8 : ℕ → ℕ
u8 n = n % 256

abbrev pub u16 : ℕ → ℕ
u16 n = n % 65536

abbrev pub u32 : ℕ → ℕ
u32 n = n % 4294967296

-- The range of a `uint8_t`, a `uint16_t` and a `uint32_t`.
abbrev pub IsU8 : ℕ → Type 0
IsU8 n = n < 256

abbrev pub IsU16 : ℕ → Type 0
IsU16 n = n < 65536

abbrev pub IsU32 : ℕ → Type 0
IsU32 n = n < 4294967296
