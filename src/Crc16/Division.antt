-- ===== src/Crc16/Division.antt =====
-- The sum of a packet is the remainder of a long division, bit by bit: the table of src/Packetizer/Crc16.c
-- is the one of the generator x^16 + x^12 + x^5 + 1.
use Prim.Native.Nat.{bit_and, bit_xor}
use native.Mathlib.Nat.{pow-suc, zero-add, one-le-pow}
use taste_runtime_common.Common.{ℕ, zero, suc, ◌+◌, ◌*◌, ◌/◌, ◌%◌, ◌^◌, ◌≤◌, ◌<◌, ◌≡◌}
use taste_runtime_common.Common.{refl, sym, ap, ◌∙◌, arith, List, [], ◌∷◌, mod-eq_of_lt}
use taste_runtime_common.Words.{u32, ◌<<<◌, ◌>>>◌}
use taste_runtime_common.Words.Fields.{and_mask, and_field}
use taste_runtime_common.Words.Bits.{xor_cut}
use taste_runtime_common.Words.Xor.{
  xor_comm, xor_right_comm, xor-zero, xor-lt, xor_div, xor_mod, xor_double, xor_fields,
}
use taste_runtime_common.Memory.{ok, Buffer, read, window}
use taste_runtime_common.Memory.Laws.{load_lem}
use taste_runtime_common.Packetizer.Verdict.{IsBytes}
use taste_runtime_common.Crc16.{table, crc16, crc_loop, calculate_crc16, initial_value}

-- The coefficients of the generator below the leading one.
abbrev pub generator : ℕ
generator = 2 ^ 12 + 2 ^ 5 + 1

-- The register moves up by a bit; where a bit leaves it, the generator is taken off.
abbrev pub shift : ℕ → ℕ
shift r = bit_xor (r * 2 % 65536) (r / 32768 * generator)

abbrev pub shifts : ℕ → ℕ → ℕ
shifts zero r = r
shifts (suc n) r = shifts n (shift r)

-- The next eight bits of the message enter at the top.
abbrev pub divide_byte : ℕ → ℕ → ℕ
divide_byte r x = shifts 8 (bit_xor r (x * 256))

-- The remainder of the message, from the register `r` on.
abbrev pub remainder : ℕ → List ℕ → ℕ
remainder r [] = r
remainder r (x ∷ xs) = remainder (divide_byte r x) xs

-- Bits that do not reach the top move up by themselves.
shift_xor : (a b : ℕ) → b < 32768 → shift (bit_xor a b) ≡ bit_xor (shift a) (b * 2)
shift_xor a b h =
    let top : bit_xor a b / 32768 ≡ a / 32768 =
      xor_div 15 a b ∙ ap (bit_xor (a / 32768)) (omega arith) ∙ xor-zero (a / 32768) in
    let small : b * 2 % 65536 ≡ b * 2 = omega arith in
    let moved : bit_xor a b * 2 % 65536 ≡ bit_xor (a * 2 % 65536) (b * 2) =
      rw (← xor_double a b, xor_mod 16 (a * 2) (b * 2)) (ap (bit_xor (a * 2 % 65536)) small) in
    rw (top, moved) (xor_right_comm (a * 2 % 65536) (b * 2) (a / 32768 * generator))

times_two_pow : (b n : ℕ) → b * 2 * 2 ^ n ≡ b * 2 ^ suc n
times_two_pow b n = rw (pow-suc 2 n) (grind arith)

below_doubled : (b p : ℕ) → 0 < p → b * 2 * p < 65536 → b < 32768
below_doubled b p h k = grind arith

pub shifts_xor :
    (n a b : ℕ) → b * 2 ^ n < 65536 → shifts n (bit_xor a b) ≡ bit_xor (shifts n a) (b * 2 ^ n)
shifts_xor zero a b h = ap (bit_xor a) (omega arith)
shifts_xor (suc n) a b h =
    let fits : b * 2 * 2 ^ n < 65536 = omega (arith, times_two_pow b n) in
    rw (shift_xor a b (below_doubled b (2 ^ n) (one-le-pow n 2 (omega arith)) fits))
      (shifts_xor n (shift a) (b * 2) fits ∙ ap (bit_xor (shifts n (shift a))) (times_two_pow b n))

-- A byte that enters: the part of the register that it meets is divided, the other moves up.
divide_byte_parts :
    (r x : ℕ) → divide_byte r x ≡ bit_xor (shifts 8 (bit_xor (r / 256) x * 256)) (r % 256 * 256)
divide_byte_parts r x =
    let parts : bit_xor r (x * 256) ≡ bit_xor (bit_xor (r / 256) x * 256) (r % 256) =
      xor_cut 8 r (x * 256)
      ∙ ap (λ q. bit_xor (r / 256) q * 256 + bit_xor (r % 256) (x * 256 % 256)) (omega arith)
      ∙ ap (λ q. bit_xor (r / 256) x * 256 + bit_xor (r % 256) q) (omega arith)
      ∙ ap (λ q. bit_xor (r / 256) x * 256 + q) (xor-zero (r % 256))
      ∙ sym (xor_fields 8 (bit_xor (r / 256) x) (r % 256) (omega arith)) in
    ap (shifts 8) parts ∙ shifts_xor 8 (bit_xor (r / 256) x * 256) (r % 256) (omega arith)

tabulated : table ≡ window (λ h. shifts 8 (h * 256)) 0 256
unfolding table
tabulated = refl

read-window : (f : ℕ → ℕ) (i n j : ℕ) → j < n → read (window f i n) j ≡ ok (f (i + j))
unfolding read
read-window f i zero j h = absurd (omega arith)
read-window f i (suc n) zero h = ap (λ k. ok (f k)) (omega arith)
read-window f i (suc n) (suc j) h =
    read-window f (i + 1) n j (omega arith) ∙ ap (λ k. ok (f k)) (omega arith)

read-table : (h : ℕ) → h < 256 → read table h ≡ ok (shifts 8 (h * 256))
read-table h below = rw tabulated (
    read-window (λ h. shifts 8 (h * 256)) 0 256 h below
    ∙ ap (λ k. ok (shifts 8 (k * 256))) (zero-add h))

pub shift-lt : (r : ℕ) → r < 65536 → shift r < 65536
shift-lt r h = xor-lt 16 (r * 2 % 65536) (r / 32768 * generator) (omega arith) (omega arith)

pub shifts-lt : (n r : ℕ) → r < 65536 → shifts n r < 65536
shifts-lt zero r h = h
shifts-lt (suc n) r h = shifts-lt n (shift r) (shift-lt r h)

pub divide_byte-lt : (r x : ℕ) → r < 65536 → x < 256 → divide_byte r x < 65536
divide_byte-lt r x h k = shifts-lt 8 (bit_xor r (x * 256)) (xor-lt 16 r (x * 256) h (omega arith))

pub remainder-lt :
    (r : ℕ) (f : ℕ → ℕ) (i n : ℕ)
    → ((j : ℕ) → f j < 256)
    → r < 65536
    → remainder r (window f i n) < 65536
remainder-lt r f i zero bytes h = h
remainder-lt r f i (suc n) bytes h =
    remainder-lt (divide_byte r (f i)) f (i + 1) n bytes (divide_byte-lt r (f i) h (bytes i))

-- A step of the sum divides the next byte.
crc16-eq-divide_byte : (x r : ℕ) → r < 65536 → x < 256 → crc16 x r ≡ ok (divide_byte r x)
unfolding crc16
crc16-eq-divide_byte x r h k =
    let at : bit_and (bit_xor (r >>> 8) x) 0x00ff ≡ bit_xor (r / 256) x =
      and_mask 8 (bit_xor (r / 256) x) ∙ mod-eq_of_lt (xor-lt 8 (r / 256) x (omega arith) k) in
    let low : bit_and (u32 (r <<< 8)) 0xff00 ≡ r % 256 * 256 =
      and_field 8 8 (u32 (r <<< 8)) ∙ omega arith in
    rw
      (
        at,
        read-table (bit_xor (r / 256) x) (xor-lt 8 (r / 256) x (omega arith) k),
        low,
        divide_byte_parts r x,
      )
      (ap ok (xor_comm _ _))

crc_loop-eq-remainder :
    (b : Buffer) (i left r : ℕ)
    → IsBytes b
    → i + left ≤ b.size
    → r < 65536
    → crc_loop b i left r ≡ ok (remainder r (window b.byte i left))
unfolding crc_loop
crc_loop-eq-remainder b i zero r bytes room h = refl
crc_loop-eq-remainder b i (suc left) r bytes room h =
    rw (load_lem b i (omega arith), crc16-eq-divide_byte (b.byte i) r h (bytes i))
      (crc_loop-eq-remainder b (i + 1) left (divide_byte r (b.byte i)) bytes (omega arith)
        (divide_byte-lt r (b.byte i) h (bytes i)))

-- Bytes that lie in the buffer: calculateCrc16 returns, without an access out of bounds, and what it
-- returns is the remainder of a long division of the bytes, bit by bit, by the generator
-- x^16 + x^12 + x^5 + 1, in a register that starts with all bits set.
pub calculate_crc16-eq-remainder :
    (b : Buffer) (length : ℕ)
    → IsBytes b
    → length ≤ b.size
    → calculate_crc16 b length ≡ ok (remainder 0xffff (window b.byte 0 length))
unfolding calculate_crc16
calculate_crc16-eq-remainder b length bytes room =
    rw (crc_loop-eq-remainder b 0 length initial_value bytes (omega arith) (omega arith))
      (ap ok (mod-eq_of_lt (remainder-lt initial_value b.byte 0 length bytes (omega arith))))
