-- ===== src/Packetizer/Verdict.antt =====
-- What `Packetizer_depacketize` decides and reads, without bit operations and without wrap.
use taste_runtime_common.Common.{ℕ, ◌+◌, ◌-◌, ◌*◌, ◌/◌, ◌%◌, ◌<◌, ltb, ◌==◌, if◌then◌else◌}
use taste_runtime_common.Common.{Bool, true, false, not}
use taste_runtime_common.Memory.{Buffer}
use taste_runtime_common.SpacePacket.{
  PacketType, type_code, Outputs, set_error, incorrect_crc16, incorrect_packet_type,
  incorrect_packet_size, packet_too_small,
}

abbrev pub IsBytes : Buffer → Type 0
IsBytes b = (j : ℕ) → b.byte j < 256

-- The number in two bytes, high byte first.
abbrev pub word_at : (ℕ → ℕ) → ℕ → ℕ
word_at f i = f i * 256 + f (i + 1)

-- The data size that the length field stands for.
abbrev pub received_size : (ℕ → ℕ) → ℕ
received_size f = (f 4 * 16777216 + f 5 * 65536 + f 6 * 256 + f 7 + 1) % 4294967296

-- The checks of a packet whose size is the received one: the CRC, then the packet type.
abbrev pub sized_by : ℕ → PacketType → (ℕ → ℕ) → ℕ → Outputs → Bool × Outputs
sized_by sum t f size o =
    if not (word_at f (size - 2) == sum)
    then (false, set_error o incorrect_crc16)
    else if not (f 0 / 8 % 2 == type_code t)
    then (false, set_error o incorrect_packet_type)
    else (
      true,
      record o {
        source = word_at f (size - 4);
        destination = f 0 / 32 * 256 + f 1;
        data_offset = 8;
        data_size = size - 12;
      },
    )

-- All checks in their order, and the results.
abbrev pub verdict : ℕ → PacketType → (ℕ → ℕ) → ℕ → Outputs → Bool × Outputs
verdict sum t f size o =
    if ltb size 12
    then (false, set_error o packet_too_small)
    else if not (size == 12 + received_size f)
    then (false, set_error o incorrect_packet_size)
    else sized_by sum t f size o
