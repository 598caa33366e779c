-- ===== src/CcsdsPacketizer/Packet.antt =====
-- The packet that `CCSDS_Packetizer_packetize` leaves in the buffer.
use Prim.Native.Nat.{bit_and}
use taste_runtime_common.Common.{
  ℕ, zero, suc, ◌+◌, ◌*◌, ◌/◌, ◌%◌, ◌≤◌, ◌<◌, ◌≡◌, refl, ◌∙◌, sym, arith,
}
use taste_runtime_common.Common.{mod-eq_of_lt}
use taste_runtime_common.Words.{u8, ◌>>>◌}
use taste_runtime_common.Words.Octets.{low_octet}
use taste_runtime_common.Memory.{Returns, Buffer, store}
use taste_runtime_common.SpacePacket.{
  PacketType, type_code, telemetry, telecommand, Packetizer, Packetized,
}
use taste_runtime_common.IsoChecksum.Fletcher.{first, second}
use taste_runtime_common.IsoChecksum.Checksum.{
  check_0, check_1, calculate-eq-check_bytes, first_ext, second_ext,
}
use taste_runtime_common.CcsdsPacketizer.{write_checksum, next_sequence_count}
use taste_runtime_common.CcsdsPacketizer.Header.{IdWritten, SequenceWritten, LengthWritten}
use taste_runtime_common.Packetizer.Writers.{ChangedIn}

-- The header of a packet, with the length field in 16 bits.
pub record HasHeader (t : PacketType) (destination count data_size : ℕ) (c : Buffer) : Type 0 where
  pub octet_0 : c.byte 0 ≡ type_code t * 16 + 8 + destination / 256
  pub octet_1 : c.byte 1 ≡ destination % 256
  pub octet_2 : c.byte 2 ≡ 192 + count / 256
  pub octet_3 : c.byte 3 ≡ count % 256
  pub octet_4 : c.byte 4 ≡ (data_size + 1) / 256 % 256
  pub octet_5 : c.byte 5 ≡ (data_size + 1) % 256

type_code-le : (t : PacketType) → type_code t ≤ 1
type_code-le telemetry = omega arith
type_code-le telecommand = omega arith

pub header-lt :
    {t : PacketType} {destination count data_size : ℕ} {c : Buffer}
    → HasHeader t destination count data_size c
    → destination ≤ 2047
    → count ≤ 16383
    → (j : ℕ) → j < 6
    → c.byte j < 256
header-lt {t = t} h small small' zero below = omega (arith, h.octet_0, type_code-le t)
header-lt h small small' (suc zero) below = omega (arith, h.octet_1)
header-lt h small small' (suc (suc zero)) below = omega (arith, h.octet_2)
header-lt h small small' (suc (suc (suc zero))) below = omega (arith, h.octet_3)
header-lt h small small' (suc (suc (suc (suc zero)))) below = omega (arith, h.octet_4)
header-lt h small small' (suc (suc (suc (suc (suc zero))))) below = omega (arith, h.octet_5)
header-lt h small small' (suc (suc (suc (suc (suc (suc j)))))) below = absurd (omega arith)

-- The two check bytes of what stands before them.
pub record Checked (data_size : ℕ) (b c : Buffer) : Type 0 where
  pub changed : ChangedIn (6 + data_size) (8 + data_size) b c
  pub high : c.byte (6 + data_size) ≡ check_0 b.byte (6 + data_size)
  pub low : c.byte (7 + data_size) ≡ check_1 b.byte (6 + data_size)

pub write_checksum-Checked :
    (size_mod : ℕ) (b : Buffer) (data_size : ℕ)
    → ((j : ℕ) → b.byte j < 256)
    → 8 + data_size ≤ b.size
    → b.size < size_mod
    → Returns (Checked data_size b) (write_checksum size_mod b data_size)
unfolding write_checksum store
write_checksum-Checked size_mod b data_size bytes room fits =
    let e₀ : (6 + data_size) % size_mod ≡ 6 + data_size = mod-eq_of_lt (omega arith) in
    let e₁ : (6 + data_size + 1) % size_mod ≡ 7 + data_size =
      mod-eq_of_lt (omega arith) ∙ omega arith in
    let hi : ℕ = check_0 b.byte (6 + data_size) in
    let lo : ℕ = check_1 b.byte (6 + data_size) in
    let m₀ : u8 (bit_and ((hi * 256 + lo) >>> 8) 0xff) ≡ hi =
      low_octet ((hi * 256 + lo) >>> 8) ∙ omega arith in
    let m₁ : u8 (bit_and (hi * 256 + lo) 0xff) ≡ lo = low_octet (hi * 256 + lo) ∙ omega arith in
    rw (e₀, calculate-eq-check_bytes b (6 + data_size) bytes (omega arith), e₁, m₀, m₁)
      (ground arith)

-- What the caller has to respect: the ranges that the source asserts, room, and bytes.
pub record CanPacketize (size_mod destination count data_size : ℕ) (b : Buffer) : Type 0 where
  pub wide : 4294967296 ≤ size_mod
  pub count_in_range : count ≤ 16383
  pub destination_in_range : destination ≤ 2047
  pub some_data : 1 ≤ data_size
  pub size_in_range : data_size < 65536
  pub room : 8 + data_size ≤ b.size
  pub size_fits : b.size < size_mod
  pub bytes : (j : ℕ) → b.byte j < 256

-- The packet: header, data and the two check bytes of header and data.
pub record PacketizedAs (t : PacketType) (destination count data_size : ℕ) (b : Buffer)
    (p : Packetized) : Type 0 where
  pub header : HasHeader t destination count data_size p.buffer
  pub check_high : p.buffer.byte (6 + data_size) ≡ check_0 p.buffer.byte (6 + data_size)
  pub check_low : p.buffer.byte (7 + data_size) ≡ check_1 p.buffer.byte (6 + data_size)
  pub data_kept : (j : ℕ) → 6 ≤ j → j < 6 + data_size → p.buffer.byte j ≡ b.byte j
  pub rest_kept : (j : ℕ) → 8 + data_size ≤ j → p.buffer.byte j ≡ b.byte j
  pub same_size : p.buffer.size ≡ b.size
  pub size_is : p.size ≡ 8 + data_size
  pub next_count : p.packetizer.packet_sequence_count ≡ (count + 1) % 16384

next_sequence_count_lem :
    (self : Packetizer)
    → self.packet_sequence_count ≤ 16383
    → (next_sequence_count self).packet_sequence_count ≡ (self.packet_sequence_count + 1) % 16384
unfolding next_sequence_count
next_sequence_count_lem self small = ground arith

-- The four writers one after the other.
pub PacketizedAs-of_parts :
    (t : PacketType) (destination data_size : ℕ) (self : Packetizer) (size_mod : ℕ)
    {b b₁ b₂ b₃ b₄ c : Buffer}
    → CanPacketize size_mod destination self.packet_sequence_count data_size b
    → ((j : ℕ) → 6 ≤ j → b₁.byte j ≡ b.byte j)
    → b₁.size ≡ b.size
    → IdWritten t destination b₁ b₂
    → SequenceWritten self.packet_sequence_count b₂ b₃
    → LengthWritten (data_size + 2) b₃ b₄
    → Checked data_size b₄ c
    → PacketizedAs t destination self.packet_sequence_count data_size b
        (record { packetizer = next_sequence_count self; buffer = c; size = 8 + data_size })
PacketizedAs-of_parts t destination data_size self size_mod {b} {b₁} {b₂} {b₃} {b₄} {c} can cleared
      size₁ id sequence length checked =
    let below : (j : ℕ) → j < 6 + data_size → c.byte j ≡ b₄.byte j = checked.changed.below in
    let f : first b₄.byte (6 + data_size) ≡ first c.byte (6 + data_size) =
      first_ext b₄.byte c.byte (6 + data_size) (λ j p. sym (below j p)) in
    let g : second b₄.byte (6 + data_size) ≡ second c.byte (6 + data_size) =
      second_ext b₄.byte c.byte (6 + data_size) (λ j p. sym (below j p)) in
    record {
      header = record {
        octet_0 =
            below 0 (omega arith)
            ∙ length.changed.below 0 (omega arith)
            ∙ sequence.changed.below 0 (omega arith)
            ∙ id.octet_0;
        octet_1 =
            below 1 (omega arith)
            ∙ length.changed.below 1 (omega arith)
            ∙ sequence.changed.below 1 (omega arith)
            ∙ id.octet_1;
        octet_2 = below 2 (omega arith) ∙ length.changed.below 2 (omega arith) ∙ sequence.octet_2;
        octet_3 = below 3 (omega arith) ∙ length.changed.below 3 (omega arith) ∙ sequence.octet_3;
        octet_4 = below 4 (omega arith) ∙ length.octet_4 ∙ omega arith;
        octet_5 = below 5 (omega arith) ∙ length.octet_5 ∙ omega arith;
      };
      check_high = omega (arith, checked.high, f, g);
      check_low = omega (arith, checked.low, f, g);
      data_kept = λ j lo hi.
          below j hi
          ∙ length.changed.above j lo
          ∙ sequence.changed.above j (omega arith)
          ∙ id.changed.above j (omega arith)
          ∙ cleared j lo;
      rest_kept = λ j lo.
          checked.changed.above j lo
          ∙ length.changed.above j (omega arith)
          ∙ sequence.changed.above j (omega arith)
          ∙ id.changed.above j (omega arith)
          ∙ cleared j (omega arith);
      same_size = omega (
        arith, checked.changed.same_size, length.changed.same_size, sequence.changed.same_size,
        id.changed.same_size,
      );
      size_is = refl;
      next_count = next_sequence_count_lem self can.count_in_range;
    }
