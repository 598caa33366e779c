-- ===== src/Packetizer.antt =====
-- src/Packetizer/Packetizer.c: the packetizer with an eight byte header, a sender PID and a CRC.
-- `size_mod` is 2 to the width of `size_t`: sums of sizes wrap there.
pub mod Fields
pub mod Writers
pub mod Trailer
pub mod Packet
pub mod Verdict
pub mod Depacketize
pub mod Outcome
pub mod Detection
pub mod Forgery
pub mod RoundTrip
pub mod Copy
mod Tests
use Prim.Native.Nat.{bit_and, bit_or}
use taste_runtime_common.Common.{ℕ, ◌+◌, ◌-◌, ◌%◌, Bool, true, false, not, []}
use taste_runtime_common.Common.{ltb, leb, ◌==◌, if◌then◌else◌}
use taste_runtime_common.Words.{u8, u16, u32, ◌<<<◌, ◌>>>◌}
use taste_runtime_common.Memory.{
  Result, ok, ◌>>=◌, ◌>>◌, check, Buffer, load, store, or_store, memset,
}
use taste_runtime_common.SpacePacket.{
  header_size, error_control_size, sender_pid_size, max_packet_data_size, max_apid,
  max_packet_sequence_count, type_mask, apid_high_bits_mask, type_offset, apid_high_bits_offset,
  secondary_header_flag_offset, sequence_flags_first_offset, sequence_flags_second_offset,
  sequence_control_high_bits_offset, destination_high_bits_mask, sequence_control_high_bits_mask,
  PacketType, type_code, incorrect_crc16, incorrect_packet_type, incorrect_packet_size,
  packet_too_small, Packetizer, Outputs, set_error, InitFunction, PacketizeFunction,
  DepacketizeFunction,
}
use taste_runtime_common.Crc16.{calculate_crc16}

-- The object of a bus and `*headerSize`
unfoldable pub init : InitFunction
init self bus = ok (record {
  packetizer = record { packet_sequence_count = 0 };
  header_size_out = header_size;
  device_calls = [];
})

unfoldable pub write_packet_id : Buffer → PacketType → ℕ → Result Buffer
write_packet_id b₀ packet_type destination = do
  b₁ ← or_store b₀ 0 (u8 (u8 (type_code packet_type) <<< type_offset))
  b₂ ← or_store b₁ 0 (u8 (1 <<< secondary_header_flag_offset))
  b₃ ←
      or_store b₂ 0
        (u8 (u16 (bit_and destination destination_high_bits_mask) >>> (8 - apid_high_bits_offset)))
  or_store b₃ 1 (u8 (bit_and destination 0xff))

unfoldable pub write_packet_sequence_control : Buffer → Packetizer → Result Buffer
write_packet_sequence_control b₀ packetizer = do
  b₁ ← or_store b₀ 2 (u8 (1 <<< sequence_flags_first_offset))
  b₂ ← or_store b₁ 2 (u8 (1 <<< sequence_flags_second_offset))
  b₃ ← or_store b₂ 2 (
      u8 (
        u16 (bit_and packetizer.packet_sequence_count sequence_control_high_bits_mask)
        >>> (8 - sequence_control_high_bits_offset)))
  or_store b₃ 3 (u8 (bit_and packetizer.packet_sequence_count 0xff))

unfoldable pub write_packet_data_length : Buffer → ℕ → Result Buffer
write_packet_data_length b₀ data_size =
    if data_size == 0
    then (do b₁ ← store b₀ 4 0xff; b₂ ← store b₁ 5 0xff; b₃ ← store b₂ 6 0xff; store b₃ 7 0xff)
    else do
      b₁ ← store b₀ 4 (u8 (bit_and ((data_size - 1) >>> 24) 0xff))
      b₂ ← store b₁ 5 (u8 (bit_and ((data_size - 1) >>> 16) 0xff))
      b₃ ← store b₂ 6 (u8 (bit_and ((data_size - 1) >>> 8) 0xff))
      store b₃ 7 (u8 (bit_and (data_size - 1) 0xff))

-- `(a <<< 8) | b` of two bytes
unfoldable pub read_u16 : Buffer → ℕ → ℕ → Result ℕ
read_u16 b high low = do x ← load b low; y ← load b high; ok (bit_or (u16 x) (u16 (u16 y <<< 8)))

-- `++packetSequenceCount` in 16 bits, and its wrap after the largest count
unfoldable pub next_sequence_count : Packetizer → Packetizer
next_sequence_count self =
    let count = u16 (self.packet_sequence_count + 1) in
    record { packet_sequence_count = if ltb max_packet_sequence_count count then 0 else count }

module _ (size_mod : ℕ) where
  abbrev pub size_t : ℕ → ℕ
  size_t n = n % size_mod

  unfoldable pub write_crc : Buffer → ℕ → Result Buffer
  write_crc b₀ data_size = do
    crc ← calculate_crc16 b₀ (size_t (header_size + data_size))
    b₁ ←
        store b₀ (size_t (header_size + data_size + sender_pid_size))
          (u8 (bit_and (u8 (crc >>> 8)) 0xff))
    store b₁ (size_t (header_size + data_size + sender_pid_size + 1)) (u8 (bit_and crc 0xff))

  unfoldable pub write_sender_pid : Buffer → ℕ → ℕ → Result Buffer
  write_sender_pid b₀ data_size sender_pid = do
    b₁ ← store b₀ (size_t (header_size + data_size)) (u8 (bit_and (u8 (sender_pid >>> 8)) 0xff))
    store b₁ (size_t (header_size + data_size + 1)) (u8 (bit_and sender_pid 0xff))

  pub read_packet_data_length : Buffer → Result ℕ
  read_packet_data_length b = do
    x₄ ← load b 4
    x₅ ← load b 5
    x₆ ← load b 6
    x₇ ← load b 7
    let packet_size =
        bit_or (bit_or (bit_or (u32 (x₄ <<< 24)) (u32 (x₅ <<< 16))) (u32 (x₆ <<< 8))) x₇
    ok (if packet_size == 0xffffffff then 0 else size_t (size_t packet_size + 1))

  unfoldable pub packetize : PacketizeFunction
  packetize self packet_type bus source destination b₀ data_offset data_size = do
    check (leb self.packet_sequence_count max_packet_sequence_count)
    check (leb destination max_apid)
    check (data_offset == header_size)
    check (ltb data_size max_packet_data_size)
    b₁ ← memset b₀ 0 header_size
    b₂ ← write_packet_id b₁ packet_type destination
    b₃ ← write_packet_sequence_control b₂ self
    b₄ ← write_packet_data_length b₃ data_size
    b₅ ← write_sender_pid b₄ data_size source
    b₆ ← write_crc b₅ data_size
    ok (record {
      packetizer = next_sequence_count self;
      buffer = b₆;
      size = size_t (header_size + data_size + sender_pid_size + error_control_size);
    })

  -- The checks after the size checks: the CRC, then the packet type.
  unfoldable pub depacketize_sized : PacketType → Buffer → ℕ → ℕ → Outputs → Result (Bool × Outputs)
  depacketize_sized packet_type b packet_size received_size o = do
    sender_pid ←
        read_u16 b (size_t (header_size + received_size)) (size_t (header_size + received_size + 1))
    received_crc ←
        read_u16 b (size_t (header_size + received_size + sender_pid_size))
          (size_t (header_size + received_size + sender_pid_size + 1))
    expected_crc ← calculate_crc16 b (packet_size - sender_pid_size - error_control_size)
    if not (received_crc == expected_crc) then ok (false, set_error o incorrect_crc16) else do
      x₀ ← load b 0
      if not (bit_and x₀ type_mask >>> type_offset == type_code packet_type)
          then ok (false, set_error o incorrect_packet_type)
          else do
            x₁ ← load b 1
            ok (
              true,
              record o {
                source = sender_pid;
                destination =
                    bit_or (u16 x₁)
                      (u16 (u16 (bit_and x₀ apid_high_bits_mask) <<< (8 - apid_high_bits_offset)));
                data_offset = header_size;
                data_size = received_size;
              },
            )

  unfoldable pub depacketize : DepacketizeFunction
  depacketize self packet_type b packet_size bus o =
      if ltb packet_size (header_size + sender_pid_size + error_control_size)
      then ok (false, set_error o packet_too_small)
      else do
        received_size ← read_packet_data_length b
        if not (
              packet_size
              == size_t (header_size + received_size + sender_pid_size + error_control_size))
            then ok (false, set_error o incorrect_packet_size)
            else depacketize_sized packet_type b packet_size received_size o
