-- ===== src/Packetizer/Fields.antt =====
-- The header's bit fields as arithmetic: what the expressions of Packetizer.c compute.
use Prim.Native.Nat.{bit_and, bit_or}
use taste_runtime_common.Common.{ℕ, ◌+◌, ◌*◌, ◌/◌, ◌%◌, ◌^◌, ◌≤◌, ◌<◌, ◌≡◌, refl}
use taste_runtime_common.Common.{arith, true, ◌&&◌, ◌==◌, ==_iff}
use taste_runtime_common.Words.{u8, u16, ◌<<<◌, ◌>>>◌}
use taste_runtime_common.Words.Fields.{and_field}
use taste_runtime_common.Words.Octets.{passes_below, passes_below_sound}
use taste_runtime_common.SpacePacket.{PacketType, telemetry, telecommand, type_code}

-- The first byte from the packet type's number and the three high bits of the destination.
abbrev pub id_octet : ℕ → ℕ → ℕ
id_octet code high = code * 8 + 16 + high * 32

abbrev id_octet_of : ℕ → ℕ → ℕ
id_octet_of code masked =
    bit_or (bit_or (bit_or 0 (u8 (u8 code <<< 3))) (u8 (1 <<< 4))) (u8 (u16 masked >>> 3))

id_octet_table :
    passes_below
      (λ h. (id_octet_of 0 (h * 256) == id_octet 0 h) && (id_octet_of 1 (h * 256) == id_octet 1 h))
      8
    ≡ true
unfolding passes_below
id_octet_table = refl

id_octet_of_high :
    (t : PacketType) (high : ℕ)
    → high < 8
    → id_octet_of (type_code t) (high * 256) ≡ id_octet (type_code t) high
id_octet_of_high telemetry high h = ground (arith, passes_below_sound _ 8 high h id_octet_table)
id_octet_of_high telecommand high h = ground (arith, passes_below_sound _ 8 high h id_octet_table)

-- What `writePacketId` makes of a cleared first byte.
pub write_id_octet :
    (t : PacketType) (destination : ℕ)
    → destination ≤ 2047
    → id_octet_of (type_code t) (bit_and destination 0x0700)
      ≡ id_octet (type_code t) (destination / 256)
write_id_octet t destination h =
    let e : destination / 2 ^ 8 % 2 ^ 3 ≡ destination / 256 = omega arith in
    rw (and_field 8 3 destination, e) (id_octet_of_high t (destination / 256) (omega arith))

abbrev pub sequence_octet_of : ℕ → ℕ
sequence_octet_of count =
    bit_or (bit_or (bit_or 0 (u8 (1 <<< 0))) (u8 (1 <<< 1))) (u8 (u16 (bit_and count 0x3f00) >>> 6))

sequence_table :
    passes_below
      (λ h.
        bit_or (bit_or (bit_or 0 (u8 (1 <<< 0))) (u8 (1 <<< 1))) (u8 (u16 (h * 256) >>> 6))
        == h * 4 + 3)
      64
    ≡ true
unfolding passes_below
sequence_table = refl

-- What `writePacketSequenceControl` makes of a cleared third byte.
pub write_sequence_octet :
    (count : ℕ) → count ≤ 16383 → sequence_octet_of count ≡ count / 256 * 4 + 3
write_sequence_octet count h =
    let e : count / 2 ^ 8 % 2 ^ 6 ≡ count / 256 = omega arith in
    rw (and_field 8 6 count, e)
      ((==_iff _ _).0 (passes_below_sound _ 64 (count / 256) (omega arith) sequence_table))

-- The packet type's number and the destination, read back.
pub read_type : (x : ℕ) → bit_and x 0x08 >>> 3 ≡ x / 8 % 2
read_type x = rw (and_field 3 1 x) (omega arith)

pub read_apid_high : (x : ℕ) → x < 256 → u16 (bit_and x 0xe0) <<< 3 ≡ x / 32 * 256
read_apid_high x h = rw (and_field 5 3 x) (omega arith)
