-- ===== src/Words/Fields.antt =====
-- Masks, and the union of bit fields that do not overlap, as arithmetic.
use Prim.Native.Nat.{bit_and, bit_or, bit_or-bitwise}
use native.Mathlib.Nat.{pow-suc, mul_comm, one-le-pow, mul-div_cancel, mul-mod_left, div-eq_of_lt}
use taste_runtime_common.Common.{ℕ, zero, suc, ◌+◌, ◌-◌, ◌*◌, ◌/◌, ◌%◌, ◌^◌, ◌≤◌, ◌<◌}
use taste_runtime_common.Common.{◌≡◌, refl, arith, mod-eq_of_lt, le_refl}
use taste_runtime_common.Words.Bits.{or_cut, and_cut, and_step, or_step}

or-zero_below : (n q : ℕ) → q ≤ n → bit_or q 0 ≡ q
or-zero_below n zero h = refl
or-zero_below zero (suc q) h = absurd (omega arith)
or-zero_below (suc n) (suc q) h =
    omega (arith, or_step (suc q) 0, or-zero_below n (suc q / 2) (omega arith))

and-zero_below : (n q : ℕ) → q ≤ n → bit_and q 0 ≡ 0
and-zero_below n zero h = refl
and-zero_below zero (suc q) h = absurd (omega arith)
and-zero_below (suc n) (suc q) h =
    omega (arith, and_step (suc q) 0, and-zero_below n (suc q / 2) (omega arith))

pub or-zero : (q : ℕ) → bit_or q 0 ≡ q
or-zero q = or-zero_below q q (le_refl _)

pub zero-or : (q : ℕ) → bit_or 0 q ≡ q
zero-or q = bit_or-bitwise 0 q

pub and-zero : (q : ℕ) → bit_and q 0 ≡ 0
and-zero q = and-zero_below q q (le_refl _)

-- `(q << k) | r` is a sum where `r` has at most `k` bits.
pub or_fields : (k q r : ℕ) → r < 2 ^ k → bit_or (q * 2 ^ k) r ≡ q * 2 ^ k + r
or_fields k q r h = rw (
  or_cut k (q * 2 ^ k) r,
  mul-div_cancel q (one-le-pow k 2 (omega arith)),
  div-eq_of_lt h,
  mul-mod_left q (2 ^ k),
  mod-eq_of_lt h,
  or-zero q,
  zero-or r,
)

split_mod : (x p : ℕ) → 0 < p → x % (2 * p) ≡ x / 2 % p * 2 + x % 2
split_mod x p h = grind arith

-- A mask of the `k` lowest bits is the remainder by `2 ^ k`.
pub and_mask : (k x : ℕ) → bit_and x (2 ^ k - 1) ≡ x % 2 ^ k
and_mask zero x = omega (arith, and-zero x)
and_mask (suc k) x =
    rw
      (pow-suc 2 k, mul_comm (2 ^ k) 2, and_step x (2 * 2 ^ k - 1), halved, odd, and_mask k (x / 2))
      (omega (arith, split_mod x (2 ^ k) (one-le-pow k 2 (omega arith))))
  where
    halved : (2 * 2 ^ k - 1) / 2 ≡ 2 ^ k - 1
    halved = omega (arith, one-le-pow k 2 (omega arith))

    odd : (2 * 2 ^ k - 1) % 2 ≡ 1
    odd = omega (arith, one-le-pow k 2 (omega arith))

-- A mask whose `k` lowest bits are clear looks at the bits above them only.
pub and_high : (k x m : ℕ) → bit_and x (m * 2 ^ k) ≡ bit_and (x / 2 ^ k) m * 2 ^ k
and_high k x m =
    rw
      (
        and_cut k x (m * 2 ^ k),
        mul-div_cancel m (one-le-pow k 2 (omega arith)),
        mul-mod_left m (2 ^ k),
        and-zero (x % 2 ^ k),
      )
      (omega arith)

-- The mask of the `n` bits from bit `k` on.
pub and_field : (k n x : ℕ) → bit_and x ((2 ^ n - 1) * 2 ^ k) ≡ x / 2 ^ k % 2 ^ n * 2 ^ k
and_field k n x = rw (and_high k x (2 ^ n - 1), and_mask n (x / 2 ^ k))
