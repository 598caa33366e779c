-- ===== src/CcsdsPacketizer/Header.antt =====
-- What each writer of the header leaves in the buffer.
use Prim.Native.Nat.{bit_and, bit_or}
use taste_runtime_common.Words.{u8}
use taste_runtime_common.Common.{ℕ, ◌+◌, ◌-◌, ◌*◌, ◌/◌, ◌%◌, ◌^◌, ◌≤◌, ◌≡◌, arith}
use taste_runtime_common.Words.Fields.{zero-or, and_field, or_fields}
use taste_runtime_common.Words.Octets.{low_octet}
use taste_runtime_common.Memory.{Returns, Buffer, load, store, or_store}
use taste_runtime_common.SpacePacket.{PacketType, type_code, telemetry, telecommand, Packetizer}
use taste_runtime_common.CcsdsPacketizer.{
  write_packet_id, write_packet_sequence_control, write_packet_data_length,
}
use taste_runtime_common.Packetizer.Writers.{ChangedIn}

id_octet :
    (t : PacketType) (destination : ℕ)
    → destination ≤ 2047
    → bit_or
        (bit_or (bit_or 0 (u8 (type_code t * 2 ^ 4))) (u8 8))
        (u8 (bit_and destination 0x0700 / 256))
      ≡ type_code t * 16 + 8 + destination / 256
id_octet telemetry destination small =
    let e : destination / 2 ^ 8 % 2 ^ 3 * 2 ^ 8 / 256 % 256 ≡ destination / 256 = omega arith in
    rw (and_field 8 3 destination, e) (or_fields 3 1 (destination / 256) (omega arith))
id_octet telecommand destination small =
    let e : destination / 2 ^ 8 % 2 ^ 3 * 2 ^ 8 / 256 % 256 ≡ destination / 256 = omega arith in
    rw (and_field 8 3 destination, e) (or_fields 3 3 (destination / 256) (omega arith))

sequence_octet :
    (count : ℕ) → count ≤ 16383 → bit_or 192 (u8 (bit_and count 0x3f00 / 256)) ≡ 192 + count / 256
sequence_octet count small =
    let e : count / 2 ^ 8 % 2 ^ 6 * 2 ^ 8 / 256 % 256 ≡ count / 256 = omega arith in
    rw (and_field 8 6 count, e) (or_fields 6 3 (count / 256) (omega arith))

pub record IdWritten (t : PacketType) (destination : ℕ) (b c : Buffer) : Type 0 where
  pub changed : ChangedIn 0 2 b c
  pub octet_0 : c.byte 0 ≡ type_code t * 16 + 8 + destination / 256
  pub octet_1 : c.byte 1 ≡ destination % 256

pub write_packet_id-Written :
    (b : Buffer) (t : PacketType) (destination : ℕ)
    → 2 ≤ b.size
    → b.byte 0 ≡ 0
    → b.byte 1 ≡ 0
    → destination ≤ 2047
    → Returns (IdWritten t destination b) (write_packet_id b t destination)
unfolding write_packet_id or_store load store
write_packet_id-Written b t destination room zero₀ zero₁ small =
    ground (arith, id_octet t destination small, low_octet destination, zero-or (destination % 256))

pub record SequenceWritten (count : ℕ) (b c : Buffer) : Type 0 where
  pub changed : ChangedIn 2 4 b c
  pub octet_2 : c.byte 2 ≡ 192 + count / 256
  pub octet_3 : c.byte 3 ≡ count % 256

pub write_packet_sequence_control-Written :
    (b : Buffer) (self : Packetizer)
    → 4 ≤ b.size
    → b.byte 2 ≡ 0
    → b.byte 3 ≡ 0
    → self.packet_sequence_count ≤ 16383
    → Returns (SequenceWritten self.packet_sequence_count b) (write_packet_sequence_control b self)
unfolding write_packet_sequence_control or_store load store
write_packet_sequence_control-Written b self room zero₂ zero₃ small = ground (
  arith,
  sequence_octet self.packet_sequence_count small,
  low_octet self.packet_sequence_count,
  zero-or (self.packet_sequence_count % 256),
)

pub record LengthWritten (size : ℕ) (b c : Buffer) : Type 0 where
  pub changed : ChangedIn 4 6 b c
  pub octet_4 : c.byte 4 ≡ (size - 1) / 256 % 256
  pub octet_5 : c.byte 5 ≡ (size - 1) % 256

pub write_packet_data_length-Written :
    (b : Buffer) (size : ℕ)
    → 6 ≤ b.size
    → Returns (LengthWritten size b) (write_packet_data_length b size)
unfolding write_packet_data_length store
write_packet_data_length-Written b size room =
    ground (arith, low_octet ((size - 1) / 256 % 65536), low_octet (size - 1))
