-- ===== src/IsoChecksum/Checksum.antt =====
-- The checksum of `IsoChecksum_calculate` and the test that it is made for.
use Prim.Native.Nat.{bit_and}
use taste_runtime_common.Common.{
  ℕ, zero, suc, ◌+◌, ◌-◌, ◌*◌, ◌/◌, ◌%◌, ◌^◌, ◌≤◌, ◌<◌, ◌≡◌, refl, ap, ap₂, arith, le_refl,
}
use taste_runtime_common.Words.{◌>>>◌}
use taste_runtime_common.Words.Fields.{and_mask, or_fields}
use taste_runtime_common.Memory.{ok, ◌>>=◌, Returns, Buffer}
use taste_runtime_common.Memory.Laws.{eq_of_Returns, Returns-of_eq}
use taste_runtime_common.IsoChecksum.{Sums, reduce, make_uint16, fletcher16, calculate}
use taste_runtime_common.IsoChecksum.Fletcher.{
  first, second, growth, IsSums, reduce_lem, fletcher_loop-IsSums,
}

-- The two bytes of the checksum, from the plain sums: each from 1 to 255.
abbrev pub check_0 : (ℕ → ℕ) → ℕ → ℕ
check_0 f n = 255 - (first f n + second f n) % 255

abbrev pub check_1 : (ℕ → ℕ) → ℕ → ℕ
check_1 f n = 255 - (first f n + check_0 f n) % 255

make_uint16_lem : (hi lo : ℕ) → hi < 256 → lo < 256 → make_uint16 hi lo ≡ hi * 256 + lo
make_uint16_lem hi lo h l =
    let e : hi * 2 ^ 8 % 2 ^ 32 ≡ hi * 2 ^ 8 = omega arith in
    rw (e, or_fields 8 hi lo l) (omega arith)

start-IsSums : (b : Buffer) → IsSums b 0 0 (record { it = 0; sum1 = 0xff; sum2 = 0xff })
unfolding first second growth
start-IsSums b = record {
  it_is = refl;
  sum1_mod = refl;
  sum2_mod = refl;
  sum1_pos = omega arith;
  sum2_pos = omega arith;
  sum1-le = omega arith;
  sum2-le = omega arith;
}

-- What `fletcher16` returns: two bytes, not zero, that are the plain sums modulo 255.
record IsFletcher (b : Buffer) (n sum : ℕ) : Type 0 where
  high : ℕ
  low : ℕ
  sum_is : sum ≡ high * 256 + low
  high_pos : 1 ≤ high
  low_pos : 1 ≤ low
  high-lt : high < 256
  low-lt : low < 256
  high_mod : high % 255 ≡ second b.byte n % 255
  low_mod : low % 255 ≡ first b.byte n % 255

IsFletcher-of_sums :
    (b : Buffer) (n : ℕ) (s : Sums)
    → IsSums b 0 n s
    → IsFletcher b n (make_uint16 (reduce s.sum2) (reduce s.sum1))
unfolding growth
IsFletcher-of_sums b n s is =
    let r₁ : reduce s.sum1 ≡ s.sum1 % 256 + s.sum1 / 256 =
      reduce_lem s.sum1 (omega (arith, is.sum1-le)) in
    let r₂ : reduce s.sum2 ≡ s.sum2 % 256 + s.sum2 / 256 =
      reduce_lem s.sum2 (omega (arith, is.sum2-le)) in
    let lt₁ : s.sum1 % 256 + s.sum1 / 256 < 256 = omega (arith, is.sum1-le) in
    let lt₂ : s.sum2 % 256 + s.sum2 / 256 < 256 = omega (arith, is.sum2-le) in
    record {
      high = s.sum2 % 256 + s.sum2 / 256;
      low = s.sum1 % 256 + s.sum1 / 256;
      sum_is = rw (r₁, r₂) (make_uint16_lem _ _ lt₂ lt₁);
      high_pos = omega (arith, is.sum2_pos);
      low_pos = omega (arith, is.sum1_pos);
      high-lt = lt₂;
      low-lt = lt₁;
      high_mod = omega (arith, is.sum2_mod);
      low_mod = omega (arith, is.sum1_mod);
    }

fletcher16-IsFletcher :
    (b : Buffer) (n : ℕ)
    → ((j : ℕ) → b.byte j < 256)
    → n ≤ b.size
    → (sum : ℕ) × (fletcher16 b n ≡ ok sum) × IsFletcher b n sum
unfolding fletcher16
fletcher16-IsFletcher b n bytes room =
    let (s, found, is) = eq_of_Returns (IsSums b 0 n) _ (
      fletcher_loop-IsSums n b n 0 n (record { it = 0; sum1 = 0xff; sum2 = 0xff }) bytes (le_refl n)
        (omega arith) room (start-IsSums b)) in
    (
      _,
      ap (λ m. m >>= λ s. ok (make_uint16 (reduce s.sum2) (reduce s.sum1))) found,
      IsFletcher-of_sums b n s is,
    )

-- Bytes that lie in the buffer: the call returns, without an access out of bounds, and what it returns
-- are the two check bytes of the plain sums of the bytes, although it reduces its sums chunk by chunk
-- in 32 bits.
pub calculate-eq-check_bytes :
    (b : Buffer) (n : ℕ)
    → ((j : ℕ) → b.byte j < 256)
    → n ≤ b.size
    → calculate b n ≡ ok (check_0 b.byte n * 256 + check_1 b.byte n)
unfolding calculate
calculate-eq-check_bytes b n bytes room =
    let (sum, found, is) = fletcher16-IsFletcher b n bytes room in
    let f₀ : bit_and sum 0xff ≡ is.low =
      rw (and_mask 8 sum) (omega (arith, is.sum_is, is.low-lt)) in
    let f₁ : bit_and (sum >>> 8) 0xff ≡ is.high =
      rw (and_mask 8 (sum >>> 8)) (omega (arith, is.sum_is, is.low-lt, is.high-lt)) in
    let c₀ : 255 - (is.low + is.high) % 255 ≡ check_0 b.byte n =
      omega (arith, is.low_mod, is.high_mod) in
    let c₁ : 255 - (is.low + check_0 b.byte n) % 255 ≡ check_1 b.byte n =
      omega (arith, is.low_mod) in
    rw (found, f₀, f₁, c₀, c₁) (ap ok (make_uint16_lem _ _ (omega arith) (omega arith)))

pub first_ext : (f g : ℕ → ℕ) (n : ℕ) → ((j : ℕ) → j < n → f j ≡ g j) → first f n ≡ first g n
unfolding first
first_ext f g zero h = refl
first_ext f g (suc n) h =
    ap₂ (λ x y. x + y) (first_ext f g n λ j p. h j (omega arith)) (h n (omega arith))

pub second_ext : (f g : ℕ → ℕ) (n : ℕ) → ((j : ℕ) → j < n → f j ≡ g j) → second f n ≡ second g n
unfolding second
second_ext f g zero h = refl
second_ext f g (suc n) h =
    ap₂ (λ x y. x + y) (second_ext f g n λ j p. h j (omega arith)) (first_ext f g (suc n) h)

-- The checksum's two bytes are not zero, and behind the bytes they make both sums zero modulo 255.
pub record Completes (b : Buffer) (n checksum : ℕ) : Type 0 where
  pub high_pos : 1 ≤ checksum / 256
  pub low_pos : 1 ≤ checksum % 256
  pub checksum-lt : checksum < 65536
  pub sums_vanish :
      (g : ℕ → ℕ)
      → ((j : ℕ) → j < n → g j ≡ b.byte j)
      → g n ≡ checksum / 256
      → g (suc n) ≡ checksum % 256
      → (first g (suc (suc n)) % 255 ≡ 0) × (second g (suc (suc n)) % 255 ≡ 0)

check_bytes-Completes :
    (b : Buffer) (n : ℕ) → Completes b n (check_0 b.byte n * 256 + check_1 b.byte n)
unfolding second first
check_bytes-Completes b n = record {
  high_pos = omega arith;
  low_pos = omega arith;
  checksum-lt = omega arith;
  sums_vanish = λ g same high low.
      let e₁ : first g n ≡ first b.byte n = first_ext g b.byte n same in
      let e₂ : second g n ≡ second b.byte n = second_ext g b.byte n same in
      (omega arith, omega arith);
}

-- Bytes that lie in the buffer: the call returns a checksum of two bytes, neither of them zero, such
-- that any bytes that continue the summed ones with the high and the low byte of the checksum have
-- both sums zero modulo 255, which is the test of ISO 8473.
pub calculate-Completes :
    (b : Buffer) (n : ℕ)
    → ((j : ℕ) → b.byte j < 256)
    → n ≤ b.size
    → Returns (Completes b n) (calculate b n)
calculate-Completes b n bytes room =
    Returns-of_eq (Completes b n) (calculate-eq-check_bytes b n bytes room)
      (check_bytes-Completes b n)
