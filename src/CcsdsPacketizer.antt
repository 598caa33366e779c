-- ===== src/CcsdsPacketizer.antt =====
-- src/Packetizer/CCSDSPacketizer.c: the packetizer with the six byte header of CCSDS 133.0-B-2 and the
-- checksum of ISO 8473 at the end of the data.
-- `size_mod` is 2 to the width of `size_t`: sums and differences of sizes wrap there.
pub mod Header
pub mod Packet
pub mod Packetize
pub mod RoundTrip
pub mod Verdict
pub mod Detection
mod Tests
use Prim.Native.Nat.{bit_and, bit_or}
use taste_runtime_common.Common.{ℕ, ◌+◌, ◌-◌, ◌%◌, Bool, true, false, not, []}
use taste_runtime_common.Common.{ltb, leb, ◌==◌, if◌then◌else◌}
use taste_runtime_common.Words.{u8, u16, ◌<<<◌, ◌>>>◌}
use taste_runtime_common.Memory.{
  Result, ok, ◌>>=◌, ◌>>◌, check, Buffer, load, store, or_store, memset,
}
use taste_runtime_common.SpacePacket.{
  ccsds_header_size, error_control_size, ccsds_max_packet_data_size, max_apid,
  max_packet_sequence_count, ccsds_type_mask, ccsds_apid_high_bits_mask, ccsds_type_offset,
  ccsds_secondary_header_flag_offset, ccsds_sequence_flags_first_offset,
  ccsds_sequence_flags_second_offset, destination_high_bits_mask, sequence_control_high_bits_mask,
  PacketType, type_code, ccsds_incorrect_checksum, ccsds_incorrect_packet_type,
  ccsds_incorrect_packet_size, Packetizer, Outputs, set_error, InitFunction, PacketizeFunction,
  DepacketizeFunction,
}
use taste_runtime_common.IsoChecksum.{calculate}

unfoldable pub init : InitFunction
init self bus = ok (record {
  packetizer = record { packet_sequence_count = 0 };
  header_size_out = ccsds_header_size;
  device_calls = [];
})

unfoldable pub write_packet_id : Buffer → PacketType → ℕ → Result Buffer
write_packet_id b₀ packet_type destination = do
  b₁ ← or_store b₀ 0 (u8 (type_code packet_type <<< ccsds_type_offset))
  b₂ ← or_store b₁ 0 (u8 (1 <<< ccsds_secondary_header_flag_offset))
  b₃ ← or_store b₂ 0 (u8 (bit_and destination destination_high_bits_mask >>> 8))
  or_store b₃ 1 (u8 (bit_and destination 0xff))

unfoldable pub write_packet_sequence_control : Buffer → Packetizer → Result Buffer
write_packet_sequence_control b₀ packetizer = do
  b₁ ← or_store b₀ 2 (u8 (1 <<< ccsds_sequence_flags_first_offset))
  b₂ ← or_store b₁ 2 (u8 (1 <<< ccsds_sequence_flags_second_offset))
  b₃ ←
      or_store b₂ 2
        (u8 (bit_and packetizer.packet_sequence_count sequence_control_high_bits_mask >>> 8))
  or_store b₃ 3 (u8 (bit_and packetizer.packet_sequence_count 0xff))

unfoldable pub write_packet_data_length : Buffer → ℕ → Result Buffer
write_packet_data_length b₀ data_size = do
  b₁ ← store b₀ 4 (u8 (bit_and (u16 ((data_size - 1) >>> 8)) 0xff))
  store b₁ 5 (u8 (bit_and (data_size - 1) 0xff))

-- `++packetSequenceCount` in 16 bits, and its wrap after the largest count
unfoldable pub next_sequence_count : Packetizer → Packetizer
next_sequence_count self =
    let count = u16 (self.packet_sequence_count + 1) in
    record { packet_sequence_count = if ltb max_packet_sequence_count count then 0 else count }

module _ (size_mod : ℕ) where
  abbrev size_t : ℕ → ℕ
  size_t n = n % size_mod

  unfoldable pub write_checksum : Buffer → ℕ → Result Buffer
  write_checksum b₀ data_size = do
    let input_size = size_t (ccsds_header_size + data_size)
    checksum ← calculate b₀ input_size
    b₁ ← store b₀ input_size (u8 (bit_and (checksum >>> 8) 0xff))
    store b₁ (size_t (input_size + 1)) (u8 (bit_and checksum 0xff))

  pub read_packet_data_length : Buffer → Result ℕ
  read_packet_data_length b = do
    x₄ ← load b 4
    x₅ ← load b 5
    ok (size_t (bit_or (size_t (x₄ <<< 8)) x₅ + 1))

  unfoldable pub packetize : PacketizeFunction
  packetize self packet_type bus source destination b₀ data_offset data_size = do
    check (leb self.packet_sequence_count max_packet_sequence_count)
    check (leb destination max_apid)
    check (data_offset == ccsds_header_size)
    check (leb 1 data_size)
    check (ltb data_size ccsds_max_packet_data_size)
    let with_checksum = size_t (data_size + error_control_size)
    b₁ ← memset b₀ 0 ccsds_header_size
    b₂ ← write_packet_id b₁ packet_type destination
    b₃ ← write_packet_sequence_control b₂ self
    b₄ ← write_packet_data_length b₃ with_checksum
    b₅ ← write_checksum b₄ data_size
    ok (record {
      packetizer = next_sequence_count self;
      buffer = b₅;
      size = size_t (ccsds_header_size + with_checksum);
    })

  -- The checks after the size checks: the checksum, then the packet type.
  unfoldable pub depacketize_sized : PacketType → Buffer → ℕ → ℕ → Outputs → Result (Bool × Outputs)
  depacketize_sized packet_type b packet_size received_size o = do
    low ← load b (size_t (size_t (ccsds_header_size + received_size) + (size_mod - 1)))
    high ← load b (size_t (size_t (ccsds_header_size + received_size) + (size_mod - 2)))
    let received_checksum = bit_or (u16 low) (u16 (u16 high <<< 8))
    expected_checksum ← calculate b (packet_size - error_control_size)
    if not (received_checksum == expected_checksum)
        then ok (false, set_error o ccsds_incorrect_checksum)
        else do
          x₀ ← load b 0
          if not (bit_and x₀ ccsds_type_mask >>> ccsds_type_offset == type_code packet_type)
              then ok (false, set_error o ccsds_incorrect_packet_type)
              else do
                x₁ ← load b 1
                ok (
                  true,
                  record o {
                    destination =
                        u16 (bit_or x₁ (u16 (bit_and (u16 x₀) ccsds_apid_high_bits_mask) <<< 8));
                    data_offset = ccsds_header_size;
                    data_size = size_t (received_size + (size_mod - error_control_size));
                  },
                )

  unfoldable pub depacketize : DepacketizeFunction
  depacketize self packet_type b packet_size bus o =
      if leb packet_size (ccsds_header_size + error_control_size) then ok (false, o) else do
        received_size ← read_packet_data_length b
        if not (packet_size == size_t (ccsds_header_size + received_size))
            then ok (false, set_error o ccsds_incorrect_packet_size)
            else depacketize_sized packet_type b packet_size received_size o
