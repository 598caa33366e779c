-- ===== src/Crc16/Detection.antt =====
-- What the sum tells apart: the division of a byte is one to one in the register and in the byte.
use Prim.Native.Nat.{bit_xor}
use taste_runtime_common.Common.{ℕ, zero, suc, ◌+◌, ◌*◌, ◌/◌, ◌%◌, ◌≤◌, ◌<◌, ◌≡◌}
use taste_runtime_common.Common.{sym, ap, ◌∙◌, arith}
use taste_runtime_common.Words.Xor.{
  xor_comm, xor_right_comm, xor-lt, xor_low, xor_injective, xor_fields,
}
use taste_runtime_common.Memory.{window}
use taste_runtime_common.Memory.Window.{window_ext}
use taste_runtime_common.Crc16.Division.{
  generator, shift, shifts, shift-lt, shifts-lt, shifts_xor, divide_byte, divide_byte-lt, remainder,
}

-- The lowest bit says whether the generator was taken off.
shift-low : (r : ℕ) → r < 65536 → shift r % 2 ≡ r / 32768
shift-low r h = omega (arith, xor_low (r * 2 % 65536) (r / 32768 * generator))

shift_injective : (r s : ℕ) → r < 65536 → s < 65536 → shift r ≡ shift s → r ≡ s
shift_injective r s h k same =
    let top : s / 32768 ≡ r / 32768 =
      omega (arith, shift-low r h, shift-low s k, ap (λ x. x % 2) same) in
    let moved : r * 2 % 65536 ≡ s * 2 % 65536 =
      xor_injective (r * 2 % 65536) (s * 2 % 65536) (r / 32768 * generator)
        (same ∙ ap (λ t. bit_xor (s * 2 % 65536) (t * generator)) top) in
    omega arith

shifts_injective : (n r s : ℕ) → r < 65536 → s < 65536 → shifts n r ≡ shifts n s → r ≡ s
shifts_injective zero r s h k same = same
shifts_injective (suc n) r s h k same =
    shift_injective r s h k
      (shifts_injective n (shift r) (shift s) (shift-lt r h) (shift-lt s k) same)

divide_byte_injective :
    (r s x : ℕ) → r < 65536 → s < 65536 → x < 256 → divide_byte r x ≡ divide_byte s x → r ≡ s
divide_byte_injective r s x h k l same = xor_injective r s (x * 256) (
    shifts_injective 8 (bit_xor r (x * 256)) (bit_xor s (x * 256))
      (xor-lt 16 r (x * 256) h (omega arith)) (xor-lt 16 s (x * 256) k (omega arith)) same)

-- The same bytes behind two registers.
remainder_injective :
    (r s : ℕ) (f : ℕ → ℕ) (i n : ℕ)
    → ((j : ℕ) → f j < 256)
    → r < 65536
    → s < 65536
    → remainder r (window f i n) ≡ remainder s (window f i n)
    → r ≡ s
remainder_injective r s f i zero bytes h k same = same
remainder_injective r s f i (suc n) bytes h k same = divide_byte_injective r s (f i) h k (bytes i) (
    remainder_injective (divide_byte r (f i)) (divide_byte s (f i)) f (i + 1) n bytes
      (divide_byte-lt r (f i) h (bytes i)) (divide_byte-lt s (f i) k (bytes i)) same)

-- Two bytes enter as one number of 16 bits.
divide_two :
    (r x y : ℕ)
    → x < 256
    → y < 256
    → divide_byte (divide_byte r x) y ≡ shifts 8 (shifts 8 (bit_xor (bit_xor (x * 256) y) r))
divide_two r x y h k =
    ap (shifts 8) (sym (shifts_xor 8 (bit_xor r (x * 256)) y (omega arith)))
    ∙ ap (λ t. shifts 8 (shifts 8 (bit_xor t y))) (xor_comm r (x * 256))
    ∙ ap (λ t. shifts 8 (shifts 8 t)) (xor_right_comm (x * 256) r y)

divide_two_injective :
    (r x y x' y' : ℕ)
    → r < 65536
    → x < 256
    → y < 256
    → x' < 256
    → y' < 256
    → divide_byte (divide_byte r x) y ≡ divide_byte (divide_byte r x') y'
    → (x ≡ x') × (y ≡ y')
divide_two_injective r x y x' y' h hx hy hx' hy' same =
    let word : bit_xor (x * 256) y ≡ bit_xor (x' * 256) y' =
      xor_injective (bit_xor (x * 256) y) (bit_xor (x' * 256) y') r (
        shifts_injective 8 _ _ (xored-lt x y hx hy) (xored-lt x' y' hx' hy') (
          shifts_injective 8 _ _ (shifts-lt 8 _ (xored-lt x y hx hy))
            (shifts-lt 8 _ (xored-lt x' y' hx' hy'))
            (sym (divide_two r x y hx hy) ∙ same ∙ divide_two r x' y' hx' hy'))) in
    let number : x * 256 + y ≡ x' * 256 + y' =
      sym (xor_fields 8 x y hy) ∙ word ∙ xor_fields 8 x' y' hy' in
    (omega arith, omega arith)
  where
    xored-lt : (x y : ℕ) → x < 256 → y < 256 → bit_xor (bit_xor (x * 256) y) r < 65536
    xored-lt x y hx hy =
        xor-lt 16 (bit_xor (x * 256) y) r (xor-lt 16 (x * 256) y (omega arith) (omega arith)) h

-- Bytes that differ in two adjacent places at most.
pub record AgreeBut (j : ℕ) (f g : ℕ → ℕ) : Type 0 where
  pub before : (k : ℕ) → k < j → f k ≡ g k
  pub behind : (k : ℕ) → j + 2 ≤ k → f k ≡ g k

-- Where their remainders are the same, they do not differ there either.
pub same_of_remainder :
    (f g : ℕ → ℕ) (j d i n r : ℕ)
    → ((k : ℕ) → f k < 256)
    → ((k : ℕ) → g k < 256)
    → AgreeBut j f g
    → r < 65536
    → j ≡ i + d
    → d + 2 ≤ n
    → remainder r (window f i n) ≡ remainder r (window g i n)
    → (f j ≡ g j) × (f (j + 1) ≡ g (j + 1))
same_of_remainder f g j zero i (suc (suc n)) r bf bg agree h at room same =
    let rest : window f (i + 1 + 1) n ≡ window g (i + 1 + 1) n =
      window_ext f g (i + 1 + 1) n λ k lo hi. agree.behind k (omega arith) in
    let e : i ≡ j = omega arith in
    rw (← e) (
      divide_two_injective r (f i) (f (i + 1)) (g i) (g (i + 1)) h (bf i) (bf (i + 1)) (bg i)
        (bg (i + 1))
        (remainder_injective _ _ g (i + 1 + 1) n bg
          (divide_byte-lt _ (f (i + 1)) (divide_byte-lt r (f i) h (bf i)) (bf (i + 1)))
          (divide_byte-lt _ (g (i + 1)) (divide_byte-lt r (g i) h (bg i)) (bg (i + 1)))
          (ap (remainder (divide_byte (divide_byte r (f i)) (f (i + 1)))) (sym rest) ∙ same)))
same_of_remainder f g j (suc d) i (suc n) r bf bg agree h at room same =
    same_of_remainder f g j d (i + 1) n (divide_byte r (f i)) bf bg agree
      (divide_byte-lt r (f i) h (bf i)) (omega arith) (omega arith)
      (same
        ∙ ap (λ x. remainder (divide_byte r x) (window g (i + 1) n))
            (sym (agree.before i (omega arith))))
same_of_remainder f g j d i zero r bf bg agree h at room same = absurd (omega arith)
same_of_remainder f g j zero i (suc zero) r bf bg agree h at room same = absurd (omega arith)
