-- ===== src/Words/Octets.antt =====
-- Words cut into bytes and put together again, in the forms that the source has.
use Prim.Native.Nat.{bit_and, bit_or}
use native.Mathlib.Nat.{pow-suc}
use taste_runtime_common.Common.{ℕ, zero, suc, ◌+◌, ◌*◌, ◌/◌, ◌%◌, ◌^◌, ◌≤◌, ◌<◌, ◌≡◌, sym, ◌∙◌}
use taste_runtime_common.Common.{arith, le_refl, Bool, true, ◌&&◌}
use taste_runtime_common.Words.{u8, u16, u32, ◌<<<◌, ◌>>>◌}
use taste_runtime_common.Words.Bits.{or_step}
use taste_runtime_common.Words.Fields.{or-zero, zero-or, or_fields, and_mask}

or_comm_below : (n a b : ℕ) → a ≤ n → bit_or a b ≡ bit_or b a
or_comm_below n zero b h = zero-or b ∙ sym (or-zero b)
or_comm_below zero (suc a) b h = absurd (omega arith)
or_comm_below (suc n) (suc a) b h =
    omega (
      arith,
      or_step (suc a) b,
      or_step b (suc a),
      or_comm_below n (suc a / 2) (b / 2) (omega arith),
    )

pub or_comm : (a b : ℕ) → bit_or a b ≡ bit_or b a
or_comm a b = or_comm_below a a b (le_refl _)

pub or-lt : (k a b : ℕ) → a < 2 ^ k → b < 2 ^ k → bit_or a b < 2 ^ k
or-lt zero zero b h j = omega (arith, zero-or b)
or-lt zero (suc a) b h j = absurd (omega arith)
or-lt (suc k) a b h j = omega (
  arith,
  pow-suc 2 k,
  or_step a b,
  or-lt k (a / 2) (b / 2) (omega (arith, pow-suc 2 k)) (omega (arith, pow-suc 2 k)),
)

-- A test that all of `0`, ..., `bound - 1` pass, by evaluation.
unfoldable pub passes_below : (ℕ → Bool) → ℕ → Bool
passes_below test zero = true
passes_below test (suc last) = passes_below test last && test last

pub passes_below_sound :
    (test : ℕ → Bool) (bound i : ℕ) → i < bound → passes_below test bound ≡ true → test i ≡ true
unfolding passes_below
passes_below_sound test zero i inside passed = absurd (omega arith)
passes_below_sound test (suc last) i inside passed = ground (arith, passes_below_sound test last i)

-- The lowest byte, and the one above it.
pub low_octet : (x : ℕ) → u8 (bit_and x 0xff) ≡ x % 256
low_octet x = rw (and_mask 8 x) (omega arith)

pub high_octet : (x : ℕ) → u8 (bit_and (u8 (x >>> 8)) 0xff) ≡ x / 256 % 256
high_octet x = rw (and_mask 8 (u8 (x >>> 8))) (omega arith)

-- `low | (high << 8)`
pub join_octets :
    (low high : ℕ)
    → low < 256
    → high < 256
    → bit_or (u16 low) (u16 (u16 high <<< 8)) ≡ high * 256 + low
join_octets low high l h =
    let e : u16 (u16 high <<< 8) ≡ high * 2 ^ 8 = omega arith in
    let d : u16 low ≡ low = omega arith in
    rw (e, d, or_comm low (high * 2 ^ 8)) (or_fields 8 high low l)

-- `(a << 24) | (b << 16) | (c << 8) | d`
pub join_four :
    (a b c d : ℕ)
    → a < 256
    → b < 256
    → c < 256
    → d < 256
    → bit_or (bit_or (bit_or (u32 (a <<< 24)) (u32 (b <<< 16))) (u32 (c <<< 8))) d
      ≡ a * 16777216 + b * 65536 + c * 256 + d
join_four a b c d ha hb hc hd =
    let ea : u32 (a <<< 24) ≡ a * 2 ^ 24 = omega arith in
    let eb : u32 (b <<< 16) ≡ b * 2 ^ 16 = omega arith in
    let ec : u32 (c <<< 8) ≡ c * 2 ^ 8 = omega arith in
    let e₂ : a * 2 ^ 24 + b * 2 ^ 16 ≡ (a * 256 + b) * 2 ^ 16 = omega arith in
    let e₃ : (a * 256 + b) * 2 ^ 16 + c * 2 ^ 8 ≡ (a * 65536 + b * 256 + c) * 2 ^ 8 = omega arith in
    rw
      (
        ea,
        eb,
        ec,
        or_fields 24 a (b * 2 ^ 16) (omega arith),
        e₂,
        or_fields 16 (a * 256 + b) (c * 2 ^ 8) (omega arith),
        e₃,
        or_fields 8 (a * 65536 + b * 256 + c) d hd,
      )
      (omega arith)
