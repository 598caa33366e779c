-- ===== src/IsoChecksum.antt =====
-- src/Packetizer/IsoChecksum.c: the checksum of ISO 8473 in 32-bit arithmetic, reduced chunk by chunk.
pub mod Fletcher
pub mod Checksum
mod Tests
use Prim.Native.Nat.{bit_and, bit_or}
use taste_runtime_common.Common.{ℕ, zero, suc, ◌+◌, ◌-◌, ◌%◌}
use taste_runtime_common.Common.{ltb, if◌then◌else◌}
use taste_runtime_common.Words.{u16, u32, ◌<<<◌, ◌>>>◌}
use taste_runtime_common.Memory.{Result, ok, out_of_fuel, ◌>>=◌, Buffer, load}

-- MAKE_UINT16
abbrev pub make_uint16 : ℕ → ℕ → ℕ
make_uint16 hi lo = u16 (bit_or (u32 (hi <<< 8)) lo)

-- REDUCE
abbrev pub reduce : ℕ → ℕ
reduce x = u32 (bit_and x 0xff + (x >>> 8))

abbrev pub chunk_size : ℕ
chunk_size = 20

-- `it`, counted from `data` on, `sum1` and `sum2`
pub record Sums : Type 0 where
  pub it : ℕ
  pub sum1 : ℕ
  pub sum2 : ℕ

-- The `do` loop, for `left` bytes.
unfoldable pub chunk_loop : Buffer → ℕ → Sums → Result Sums
chunk_loop b zero s = ok s
chunk_loop b (suc left) s = do
  x ← load b s.it
  let sum1 = u32 (s.sum1 + x)
  chunk_loop b left (record { it = s.it + 1; sum1 = sum1; sum2 = u32 (s.sum2 + sum1) })

-- The `while` loop
unfoldable pub fletcher_loop : ℕ → Buffer → ℕ → Sums → Result Sums
fletcher_loop fuel b zero s = ok s
fletcher_loop zero b (suc n) s = out_of_fuel
fletcher_loop (suc fuel) b (suc n) s = do
  let chunk = if ltb chunk_size (suc n) then chunk_size else suc n
  r ← chunk_loop b chunk s
  fletcher_loop fuel b (suc n - chunk) (record r { sum1 = reduce r.sum1; sum2 = reduce r.sum2 })

unfoldable pub fletcher16 : Buffer → ℕ → Result ℕ
fletcher16 b length = do
  s ← fletcher_loop length b length (record { it = 0; sum1 = 0xff; sum2 = 0xff })
  ok (make_uint16 (reduce s.sum2) (reduce s.sum1))

unfoldable pub calculate : Buffer → ℕ → Result ℕ
calculate b length = do
  sum ← fletcher16 b length
  let f₀ = bit_and sum 0xff
  let f₁ = bit_and (sum >>> 8) 0xff
  let c₀ = 0xff - (f₀ + f₁) % 0xff
  let c₁ = 0xff - (f₀ + c₀) % 0xff
  ok (make_uint16 c₀ c₁)
