-- ===== src/Words/Xor.antt =====
-- Exclusive or at variables, digit by digit: the laws that sums of bytes rest on.
use Prim.Native.Nat.{bit_xor, differ, bit_xor-bitwise}
use native.Mathlib.Nat.{pow-suc, mul-div_cancel, mul-mod_left, div-eq_of_lt, one-le-pow, mod-lt}
use taste_runtime_common.Common.{ℕ, zero, suc, ◌+◌, ◌*◌, ◌/◌, ◌%◌, ◌^◌, ◌≤◌, ◌<◌}
use taste_runtime_common.Common.{◌≡◌, refl, sym, ap, ◌∙◌, arith, mod-eq_of_lt, le_refl}
use taste_runtime_common.Words.Bits.{xor_cut, xor_step}

differ_of_digits : (x y : ℕ) → x < 2 → y < 2 → differ x y ≡ (x + y) % 2
differ_of_digits zero y p q = omega (arith, q)
differ_of_digits (suc zero) zero p q = refl
differ_of_digits (suc zero) (suc zero) p q = refl
differ_of_digits (suc zero) (suc (suc y)) p q = absurd (omega arith)
differ_of_digits (suc (suc x)) y p q = absurd (omega arith)

-- The lowest digit is the sum of the lowest digits, and the others are by themselves.
pub xor_digit : (a b : ℕ) → bit_xor a b ≡ bit_xor (a / 2) (b / 2) * 2 + (a + b) % 2
xor_digit a b = omega (arith, xor_step a b, differ_of_digits (a % 2) (b % 2))

xor-zero_below : (n a : ℕ) → a ≤ n → bit_xor a 0 ≡ a
xor-zero_below n zero h = refl
xor-zero_below zero (suc a) h = absurd (omega arith)
xor-zero_below (suc n) (suc a) h =
    omega (arith, xor_digit (suc a) 0, xor-zero_below n (suc a / 2) (omega arith))

pub xor-zero : (a : ℕ) → bit_xor a 0 ≡ a
xor-zero a = xor-zero_below a a (le_refl _)

pub zero-xor : (a : ℕ) → bit_xor 0 a ≡ a
zero-xor a = bit_xor-bitwise 0 a

xor_half : (a b : ℕ) → bit_xor a b / 2 ≡ bit_xor (a / 2) (b / 2)
xor_half a b = omega (arith, xor_digit a b)

pub xor_low : (a b : ℕ) → bit_xor a b % 2 ≡ (a + b) % 2
xor_low a b = omega (arith, xor_digit a b)

comm_below : (n a b : ℕ) → a ≤ n → b ≤ n → bit_xor a b ≡ bit_xor b a
comm_below n zero b h k = zero-xor b ∙ sym (xor-zero b)
comm_below zero (suc a) b h k = absurd (omega arith)
comm_below (suc n) (suc a) b h k = omega (
  arith,
  xor_digit (suc a) b,
  xor_digit b (suc a),
  comm_below n (suc a / 2) (b / 2) (omega arith) (omega arith),
)

pub xor_comm : (a b : ℕ) → bit_xor a b ≡ bit_xor b a
xor_comm a b = comm_below (a + b) a b (omega arith) (omega arith)

xor-xor_digit :
    (a b c : ℕ)
    → bit_xor (bit_xor a b) c ≡ bit_xor (bit_xor (a / 2) (b / 2)) (c / 2) * 2 + (a + b + c) % 2
xor-xor_digit a b c = rw (xor_digit (bit_xor a b) c, xor_half a b) (omega (arith, xor_low a b))

right_comm_below : (n a b c : ℕ) → a + b + c ≤ n → bit_xor (bit_xor a b) c ≡ bit_xor (bit_xor a c) b
right_comm_below n a b zero h = xor-zero _ ∙ ap (λ x. bit_xor x b) (sym (xor-zero a))
right_comm_below zero a b (suc c) h = absurd (omega arith)
right_comm_below (suc n) a b (suc c) h = omega (
  arith,
  xor-xor_digit a b (suc c),
  xor-xor_digit a (suc c) b,
  right_comm_below n (a / 2) (b / 2) (suc c / 2) (omega arith),
)

pub xor_right_comm : (a b c : ℕ) → bit_xor (bit_xor a b) c ≡ bit_xor (bit_xor a c) b
xor_right_comm a b c = right_comm_below (a + b + c) a b c (le_refl _)

cancel_below : (n a b : ℕ) → b ≤ n → bit_xor (bit_xor a b) b ≡ a
cancel_below n a zero h = xor-zero _ ∙ xor-zero a
cancel_below zero a (suc b) h = absurd (omega arith)
cancel_below (suc n) a (suc b) h =
    omega (arith, xor-xor_digit a (suc b) (suc b), cancel_below n (a / 2) (suc b / 2) (omega arith))

pub xor_cancel : (a b : ℕ) → bit_xor (bit_xor a b) b ≡ a
xor_cancel a b = cancel_below b a b (le_refl _)

pub xor_injective : (a b c : ℕ) → bit_xor a c ≡ bit_xor b c → a ≡ b
xor_injective a b c same = sym (xor_cancel a c) ∙ ap (λ x. bit_xor x c) same ∙ xor_cancel b c

pub xor-lt : (k a b : ℕ) → a < 2 ^ k → b < 2 ^ k → bit_xor a b < 2 ^ k
xor-lt zero zero b h j = omega (arith, zero-xor b)
xor-lt zero (suc a) b h j = absurd (omega arith)
xor-lt (suc k) a b h j = omega (
  arith,
  pow-suc 2 k,
  xor_digit a b,
  xor-lt k (a / 2) (b / 2) (omega (arith, pow-suc 2 k)) (omega (arith, pow-suc 2 k)),
)

-- The digits above a place and those below it, each by themselves.
xor_parts :
    (k a b : ℕ)
    → (bit_xor a b / 2 ^ k ≡ bit_xor (a / 2 ^ k) (b / 2 ^ k))
      × (bit_xor a b % 2 ^ k ≡ bit_xor (a % 2 ^ k) (b % 2 ^ k))
xor_parts k a b =
    let positive : 0 < 2 ^ k = one-le-pow k 2 (omega arith) in
    let low : bit_xor (a % 2 ^ k) (b % 2 ^ k) < 2 ^ k =
      xor-lt k (a % 2 ^ k) (b % 2 ^ k) (mod-lt a positive) (mod-lt b positive) in
    join (bit_xor a b) (bit_xor (a / 2 ^ k) (b / 2 ^ k)) (bit_xor (a % 2 ^ k) (b % 2 ^ k)) (2 ^ k)
      positive low (xor_cut k a b)
  where
    join : (x q r p : ℕ) → 0 < p → r < p → x ≡ q * p + r → (x / p ≡ q) × (x % p ≡ r)
    join x q r p positive low same = rw same (grind arith, grind arith)

pub xor_div : (k a b : ℕ) → bit_xor a b / 2 ^ k ≡ bit_xor (a / 2 ^ k) (b / 2 ^ k)
xor_div k a b = (xor_parts k a b).0

pub xor_mod : (k a b : ℕ) → bit_xor a b % 2 ^ k ≡ bit_xor (a % 2 ^ k) (b % 2 ^ k)
xor_mod k a b = (xor_parts k a b).1

-- Fields that do not overlap.
pub xor_fields : (k q r : ℕ) → r < 2 ^ k → bit_xor (q * 2 ^ k) r ≡ q * 2 ^ k + r
xor_fields k q r h = rw (
  xor_cut k (q * 2 ^ k) r,
  mul-div_cancel q (one-le-pow k 2 (omega arith)),
  div-eq_of_lt h,
  mul-mod_left q (2 ^ k),
  mod-eq_of_lt h,
  xor-zero q,
  zero-xor r,
)

pub xor_double : (a b : ℕ) → bit_xor (a * 2) (b * 2) ≡ bit_xor a b * 2
xor_double a b =
    let ha : a * 2 / 2 ≡ a = omega arith in
    let hb : b * 2 / 2 ≡ b = omega arith in rw (xor_digit (a * 2) (b * 2), ha, hb) (omega arith)
