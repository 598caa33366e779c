-- ===== src/Words/Bits.antt =====
-- The bitwise operations at variables. Each acts on the high and on the low digits by themselves,
-- at every place of the cut; what the program does with masks and shifts follows.
use Prim.Native.Nat.{bitwise, digits, differ, max, bit_and, bit_or, bit_xor}
use Prim.Native.Nat.{bit_and-bitwise, bit_or-bitwise, bit_xor-bitwise}
use native.Mathlib.Nat.{
  le_refl, div-div-eq-div-mul, pow-suc, mul_comm, one-le-pow, div-one, mod-one,
}
use taste_runtime_common.Common.{ℕ, zero, suc, ◌+◌, ◌*◌, ◌/◌, ◌%◌, ◌^◌, ◌≤◌, ◌<◌, min}
use taste_runtime_common.Common.{◌≡◌, refl, ap, arith}

-- Fuel that covers the first operand suffices, whatever it is.
module _ (one_sided : ℕ → ℕ) (digit : ℕ → ℕ → ℕ) where
  abbrev by_digits : ℕ → ℕ → ℕ → ℕ
  by_digits = digits one_sided digit

  fuel_irrelevant : (a b k l : ℕ) → a ≤ k → a ≤ l → by_digits k a b ≡ by_digits l a b
  fuel_irrelevant a b zero zero hk hl = refl
  fuel_irrelevant zero b zero (suc l) hk hl = refl
  fuel_irrelevant zero b (suc k) zero hk hl = refl
  fuel_irrelevant zero b (suc k) (suc l) hk hl = refl
  fuel_irrelevant (suc a) b zero (suc l) hk hl = absurd (omega arith)
  fuel_irrelevant (suc a) b (suc k) zero hk hl = absurd (omega arith)
  fuel_irrelevant (suc a) b (suc k) (suc l) hk hl =
      ap (λ t. t * 2 + digit (suc a % 2) (b % 2))
        (fuel_irrelevant (suc a / 2) (b / 2) k l (omega arith) (omega arith))

  bitwise_of_suc :
      (a b : ℕ)
      → bitwise one_sided digit (suc a) b
        ≡ bitwise one_sided digit (suc a / 2) (b / 2) * 2 + digit (suc a % 2) (b % 2)
  bitwise_of_suc a b =
      ap (λ t. t * 2 + digit (suc a % 2) (b % 2))
        (fuel_irrelevant (suc a / 2) (b / 2) a (suc a / 2) (omega arith) (le_refl _))

halve_mod : (a p : ℕ) → 0 < p → a % (2 * p) / 2 ≡ a / 2 % p
halve_mod a p h = grind arith

mod_two_of_mod : (a p : ℕ) → 0 < p → a % (2 * p) % 2 ≡ a % 2
mod_two_of_mod a p h = grind arith

-- An operation that works digit by digit.
record IsDigitwise (op digit : ℕ → ℕ → ℕ) : Type 0 where
  at_zero : op 0 0 ≡ 0
  step : (a b : ℕ) → op a b ≡ op (a / 2) (b / 2) * 2 + digit (a % 2) (b % 2)

-- The lowest digit of what lies below a cut, taken off.
step_below :
    {op digit : ℕ → ℕ → ℕ}
    → IsDigitwise op digit
    → (p a b : ℕ) → 0 < p
    → op (a % (2 * p)) (b % (2 * p)) ≡ op (a / 2 % p) (b / 2 % p) * 2 + digit (a % 2) (b % 2)
step_below d p a b h = rw (
  d.step (a % (2 * p)) (b % (2 * p)),
  halve_mod a p h,
  halve_mod b p h,
  mod_two_of_mod a p h,
  mod_two_of_mod b p h,
)

-- Such an operation acts on the digits above the cut `k` and on those below it by themselves.
cut_lem :
    {op digit : ℕ → ℕ → ℕ}
    → IsDigitwise op digit
    → (k a b : ℕ) → op a b ≡ op (a / 2 ^ k) (b / 2 ^ k) * 2 ^ k + op (a % 2 ^ k) (b % 2 ^ k)
cut_lem d zero a b = rw (div-one a, div-one b, mod-one a, mod-one b, d.at_zero) (omega arith)
cut_lem d (suc k) a b =
    rw
      (
        pow-suc 2 k,
        mul_comm (2 ^ k) 2,
        ← div-div-eq-div-mul a 2 (2 ^ k),
        ← div-div-eq-div-mul b 2 (2 ^ k),
      )
      (omega (
        arith,
        d.step a b,
        cut_lem d k (a / 2) (b / 2),
        step_below d (2 ^ k) a b (one-le-pow k 2 (omega arith)),
      ))

and-IsDigitwise : IsDigitwise bit_and min
and-IsDigitwise = record { at_zero = refl; step = step }
  where
    step : (a b : ℕ) → bit_and a b ≡ bit_and (a / 2) (b / 2) * 2 + min (a % 2) (b % 2)
    step zero b = simp bit_and-bitwise (omega arith)
    step (suc a) b = simp bit_and-bitwise (bitwise_of_suc (λ y. 0) min a b)

or-IsDigitwise : IsDigitwise bit_or max
or-IsDigitwise = record { at_zero = refl; step = step }
  where
    step : (a b : ℕ) → bit_or a b ≡ bit_or (a / 2) (b / 2) * 2 + max (a % 2) (b % 2)
    step zero b = simp bit_or-bitwise (omega arith)
    step (suc a) b = simp bit_or-bitwise (bitwise_of_suc (λ y. y) max a b)

xor-IsDigitwise : IsDigitwise bit_xor differ
xor-IsDigitwise = record { at_zero = refl; step = step }
  where
    step : (a b : ℕ) → bit_xor a b ≡ bit_xor (a / 2) (b / 2) * 2 + differ (a % 2) (b % 2)
    step zero b = simp bit_xor-bitwise (omega arith)
    step (suc a) b = simp bit_xor-bitwise (bitwise_of_suc (λ y. y) differ a b)

pub and_step : (a b : ℕ) → bit_and a b ≡ bit_and (a / 2) (b / 2) * 2 + min (a % 2) (b % 2)
and_step = and-IsDigitwise.step

pub or_step : (a b : ℕ) → bit_or a b ≡ bit_or (a / 2) (b / 2) * 2 + max (a % 2) (b % 2)
or_step = or-IsDigitwise.step

pub and_cut :
    (k a b : ℕ)
    → bit_and a b ≡ bit_and (a / 2 ^ k) (b / 2 ^ k) * 2 ^ k + bit_and (a % 2 ^ k) (b % 2 ^ k)
and_cut k a b = cut_lem and-IsDigitwise k a b

pub or_cut :
    (k a b : ℕ)
    → bit_or a b ≡ bit_or (a / 2 ^ k) (b / 2 ^ k) * 2 ^ k + bit_or (a % 2 ^ k) (b % 2 ^ k)
or_cut k a b = cut_lem or-IsDigitwise k a b

pub xor_cut :
    (k a b : ℕ)
    → bit_xor a b ≡ bit_xor (a / 2 ^ k) (b / 2 ^ k) * 2 ^ k + bit_xor (a % 2 ^ k) (b % 2 ^ k)
xor_cut k a b = cut_lem xor-IsDigitwise k a b

pub xor_step : (a b : ℕ) → bit_xor a b ≡ bit_xor (a / 2) (b / 2) * 2 + differ (a % 2) (b % 2)
xor_step = xor-IsDigitwise.step
