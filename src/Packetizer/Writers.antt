-- ===== src/Packetizer/Writers.antt =====
-- What each writer of the header and the trailer leaves in the buffer.
use taste_runtime_common.Common.{ℕ, ◌+◌, ◌-◌, ◌*◌, ◌/◌, ◌%◌, ◌≤◌, ◌<◌, ◌≡◌}
use taste_runtime_common.Common.{arith}
use taste_runtime_common.Words.Fields.{zero-or}
use taste_runtime_common.Words.Octets.{low_octet}
use taste_runtime_common.Memory.{Returns, Buffer, store, or_store}
use taste_runtime_common.SpacePacket.{PacketType, type_code, Packetizer}
use taste_runtime_common.Packetizer.{
  write_packet_id, write_packet_sequence_control, write_packet_data_length,
}
use taste_runtime_common.Packetizer.Fields.{id_octet, write_id_octet, write_sequence_octet}

-- From `b` to `c` only bytes from `low` up to `high` may have changed.
pub record ChangedIn (low high : ℕ) (b c : Buffer) : Type 0 where
  pub same_size : c.size ≡ b.size
  pub below : (j : ℕ) → j < low → c.byte j ≡ b.byte j
  pub above : (j : ℕ) → high ≤ j → c.byte j ≡ b.byte j

pub record IdWritten (t : PacketType) (destination : ℕ) (b c : Buffer) : Type 0 where
  pub changed : ChangedIn 0 2 b c
  pub octet_0 : c.byte 0 ≡ id_octet (type_code t) (destination / 256)
  pub octet_1 : c.byte 1 ≡ destination % 256

pub write_packet_id-Written :
    (b : Buffer) (t : PacketType) (destination : ℕ)
    → 2 ≤ b.size
    → b.byte 0 ≡ 0
    → b.byte 1 ≡ 0
    → destination ≤ 2047
    → Returns (IdWritten t destination b) (write_packet_id b t destination)
unfolding write_packet_id or_store
write_packet_id-Written b t destination room zero₀ zero₁ small =
    ground (
      arith,
      write_id_octet t destination small,
      low_octet destination,
      zero-or (destination % 256),
    )

pub record SequenceWritten (count : ℕ) (b c : Buffer) : Type 0 where
  pub changed : ChangedIn 2 4 b c
  pub octet_2 : c.byte 2 ≡ count / 256 * 4 + 3
  pub octet_3 : c.byte 3 ≡ count % 256

pub write_packet_sequence_control-Written :
    (b : Buffer) (self : Packetizer)
    → 4 ≤ b.size
    → b.byte 2 ≡ 0
    → b.byte 3 ≡ 0
    → self.packet_sequence_count ≤ 16383
    → Returns (SequenceWritten self.packet_sequence_count b) (write_packet_sequence_control b self)
unfolding write_packet_sequence_control or_store
write_packet_sequence_control-Written b self room zero₂ zero₃ small = ground (
  arith,
  write_sequence_octet self.packet_sequence_count small,
  low_octet self.packet_sequence_count,
  zero-or (self.packet_sequence_count % 256),
)

-- The length field holds one less than the size, in 32 bits: all ones stand for no data.
abbrev pub length_field : ℕ → ℕ
length_field data_size = (data_size + 4294967295) % 4294967296

pub record LengthWritten (data_size : ℕ) (b c : Buffer) : Type 0 where
  pub changed : ChangedIn 4 8 b c
  pub octet_4 : c.byte 4 ≡ length_field data_size / 16777216
  pub octet_5 : c.byte 5 ≡ length_field data_size / 65536 % 256
  pub octet_6 : c.byte 6 ≡ length_field data_size / 256 % 256
  pub octet_7 : c.byte 7 ≡ length_field data_size % 256

pub write_packet_data_length-Written :
    (b : Buffer) (data_size : ℕ)
    → 8 ≤ b.size
    → data_size < 4294967296
    → Returns (LengthWritten data_size b) (write_packet_data_length b data_size)
unfolding write_packet_data_length store
write_packet_data_length-Written b data_size room small = ground (
  arith,
  low_octet ((data_size - 1) / 16777216),
  low_octet ((data_size - 1) / 65536),
  low_octet ((data_size - 1) / 256),
  low_octet (data_size - 1),
)
