-- ===== src/Crc16/Sum.antt =====
-- The sum of the bytes of a packet: it is there, has 16 bits, and depends on those bytes only.
use Prim.Native.Nat.{bit_and, bit_xor}
use taste_runtime_common.Common.{ℕ, zero, suc, ◌+◌, ◌≤◌, ◌<◌, ◌≡◌, refl, ap, fun_ext, arith}
use taste_runtime_common.Common.{length}
use taste_runtime_common.Words.{◌>>>◌}
use taste_runtime_common.Words.Fields.{and_mask}
use taste_runtime_common.Memory.{◌>>=◌, Returns, Buffer, load}
use taste_runtime_common.Memory.Laws.{load_lem, read_lem, Returns-bind}
use taste_runtime_common.Crc16.{table, crc16, crc_loop, calculate_crc16, initial_value}

abbrev index : ℕ → ℕ → ℕ
index octet crc = bit_and (bit_xor (crc >>> 8) octet) 0x00ff

length-table : length table ≡ 256
unfolding table
length-table = refl

index-lt : (octet crc : ℕ) → index octet crc < length table
index-lt octet crc = omega (arith, length-table, and_mask 8 (bit_xor (crc >>> 8) octet))

-- An entry is read inside the table.
crc16-Returns : (octet crc : ℕ) → Returns (λ _. Unit {0}) (crc16 octet crc)
unfolding crc16
crc16-Returns octet crc =
    let (entry, is_read, _) = read_lem table (index octet crc) (index-lt octet crc) in rw is_read tt

crc_loop-Returns :
    (b : Buffer) (i left crc : ℕ)
    → i + left ≤ b.size
    → Returns (λ _. Unit {0}) (crc_loop b i left crc)
unfolding crc_loop
crc_loop-Returns b i zero crc h = tt
crc_loop-Returns b i (suc left) crc h = rw (load_lem b i (omega arith)) (
    Returns-bind (λ _. Unit {0}) (λ _. Unit {0}) (crc16 (b.byte i) crc) _
      (crc16-Returns (b.byte i) crc) λ next _. crc_loop-Returns b (i + 1) left next (omega arith))

-- The sum of bytes that lie in the buffer is a 16 bit number.
pub calculate_crc16-Returns :
    (b : Buffer) (length : ℕ)
    → length ≤ b.size
    → Returns (λ c. c < 65536) (calculate_crc16 b length)
unfolding calculate_crc16
calculate_crc16-Returns b length h =
    Returns-bind (λ _. Unit {0}) (λ c. c < 65536) (crc_loop b 0 length initial_value) _
      (crc_loop-Returns b 0 length initial_value (omega arith)) λ crc _. omega arith

crc_loop_ext :
    (b c : Buffer) (i left crc : ℕ)
    → ((j : ℕ) → j < i + left → load b j ≡ load c j)
    → crc_loop b i left crc ≡ crc_loop c i left crc
unfolding crc_loop
crc_loop_ext b c i zero crc h = refl
crc_loop_ext b c i (suc left) crc h = rw (h i (omega arith)) (
    ap (λ k. load c i >>= λ x. crc16 x crc >>= k)
      (fun_ext λ next. crc_loop_ext b c (i + 1) left next (λ j p. h j (omega arith))))

-- Two buffers that agree on the bytes summed have the same sum.
pub calculate_crc16_ext :
    (b c : Buffer) (length : ℕ)
    → ((j : ℕ) → j < length → load b j ≡ load c j)
    → calculate_crc16 b length ≡ calculate_crc16 c length
unfolding calculate_crc16
calculate_crc16_ext b c length h =
    rw (crc_loop_ext b c 0 length initial_value (λ j p. h j (omega arith)))
