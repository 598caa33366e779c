-- ===== src/Words.antt =====
-- Fixed-width unsigned integers of C as native numbers: a cast is a remainder, a shift to the left
-- a product with a power of two (its wrap is the cast that the source writes round it, or none where
-- the value fits `unsigned`), a shift to the right a quotient.
pub mod Bits
pub mod Fields
pub mod Octets
pub mod Xor
use Prim.Native.Nat.{ℕ, ◌*◌, ◌/◌, ◌%◌, ◌^◌}

-- `(uint32_t)value`, `(uint16_t)value` and `(uint8_t)value`
abbrev pub u32 : ℕ → ℕ
u32 value = value % 2 ^ 32

abbrev pub u16 : ℕ → ℕ
u16 value = value % 65536

abbrev pub u8 : ℕ → ℕ
u8 value = value % 256

infixl 75 ◌<<<◌ ◌>>>◌
abbrev pub ◌<<<◌ : ℕ → ℕ → ℕ
x <<< k = x * 2 ^ k

abbrev pub ◌>>>◌ : ℕ → ℕ → ℕ
x >>> k = x / 2 ^ k
