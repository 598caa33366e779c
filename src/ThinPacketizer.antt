-- ===== src/ThinPacketizer.antt =====
-- src/Packetizer/ThinPacketizer.c: the packetizer with a four byte header and no checksum.
-- `size_mod` is 2 to the width of `size_t`: sums and shifts of sizes wrap there.
pub mod RoundTrip
pub mod Verdict
mod Tests
use Prim.Native.Nat.{bit_and, bit_or}
use taste_runtime_common.Common.{ℕ, ◌+◌, ◌-◌, ◌%◌, true, false, not, []}
use taste_runtime_common.Common.{ltb, leb, ◌==◌, if◌then◌else◌}
use taste_runtime_common.Words.{u8, u16, ◌<<<◌, ◌>>>◌}
use taste_runtime_common.Memory.{
  Result, ok, ◌>>=◌, ◌>>◌, check, Buffer, load, store, or_store, memset,
}
use taste_runtime_common.SpacePacket.{
  thin_header_size, max_packet_data_size, max_apid, incorrect_packet_size, set_error, InitFunction,
  PacketizeFunction, DepacketizeFunction,
}

unfoldable pub init : InitFunction
init self bus =
    ok (record { packetizer = self; header_size_out = thin_header_size; device_calls = [] })

unfoldable pub write_packet_id : Buffer → ℕ → Result Buffer
write_packet_id b₀ destination = do
  b₁ ← or_store b₀ 0 (u8 (bit_and (u8 (destination >>> 8)) 0xff))
  or_store b₁ 1 (u8 (bit_and destination 0xff))

unfoldable pub read_packet_id : Buffer → Result ℕ
read_packet_id b = do x₀ ← load b 0; x₁ ← load b 1; ok (bit_or (u16 (u16 x₀ <<< 8)) x₁)

unfoldable pub write_packet_data_length : Buffer → ℕ → Result Buffer
write_packet_data_length b₀ data_size = do
  b₁ ← store b₀ 2 (u8 (bit_and ((data_size - 1) >>> 8) 0xff))
  store b₁ 3 (u8 (bit_and (data_size - 1) 0xff))

module _ (size_mod : ℕ) where
  abbrev size_t : ℕ → ℕ
  size_t n = n % size_mod

  unfoldable pub read_packet_data_length : Buffer → Result ℕ
  read_packet_data_length b = do
    x₂ ← load b 2
    x₃ ← load b 3
    ok (bit_or (size_t (x₂ <<< 8)) (size_t (x₃ + 1)))

  unfoldable pub packetize : PacketizeFunction
  packetize self packet_type bus source destination b₀ data_offset data_size = do
    check (leb destination max_apid)
    check (data_offset == thin_header_size)
    check (leb 1 data_size)
    check (ltb data_size max_packet_data_size)
    b₁ ← memset b₀ 0 thin_header_size
    b₂ ← write_packet_id b₁ destination
    b₃ ← write_packet_data_length b₂ data_size
    ok (record { packetizer = self; buffer = b₃; size = size_t (thin_header_size + data_size) })

  unfoldable pub depacketize : DepacketizeFunction
  depacketize self packet_type b packet_size bus o =
      if ltb packet_size thin_header_size then ok (false, o) else do
        received_size ← read_packet_data_length b
        if not (packet_size == size_t (thin_header_size + received_size))
            then ok (false, set_error o incorrect_packet_size)
            else do
              destination ← read_packet_id b
              ok (
                true,
                record o {
                  destination = destination;
                  data_offset = thin_header_size;
                  data_size = received_size;
                },
              )
