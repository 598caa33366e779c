-- ===== src/CcsdsPacketizer/Verdict.antt =====
-- What `CCSDS_Packetizer_depacketize` decides and reads of any bytes, without bit operations and wrap.
use Prim.Native.Nat.{bit_and, bit_or}
use taste_runtime_common.Common.{
  ℕ, ◌+◌, ◌-◌, ◌*◌, ◌/◌, ◌%◌, ◌^◌, ◌≤◌, ◌<◌, ◌≡◌, refl, ap, ◌∙◌, arith, mod-eq_of_lt,
}
use taste_runtime_common.Common.{
  Bool, true, false, not, Bool-cases, inl, inr, leb, ◌==◌, ==_iff, if◌then◌else◌,
}
use taste_runtime_common.Words.{u16, ◌<<<◌, ◌>>>◌}
use taste_runtime_common.Words.Fields.{and_mask, and_field, or_fields}
use taste_runtime_common.Words.Octets.{join_octets, or_comm}
use taste_runtime_common.Memory.{ok, Buffer}
use taste_runtime_common.Memory.Laws.{load_lem}
use taste_runtime_common.IsoChecksum.Checksum.{check_0, check_1, calculate-eq-check_bytes}
use taste_runtime_common.SpacePacket.{
  PacketType, type_code, Packetizer, Outputs, set_error, ccsds_incorrect_checksum,
  ccsds_incorrect_packet_type, ccsds_incorrect_packet_size,
}
use taste_runtime_common.CcsdsPacketizer.{read_packet_data_length, depacketize, depacketize_sized}
use taste_runtime_common.CcsdsPacketizer.RoundTrip.{wrapped}
use taste_runtime_common.Packetizer.Verdict.{IsBytes, word_at}

-- The size that the length field stands for, with the checksum.
abbrev pub received_size : (ℕ → ℕ) → ℕ
received_size f = word_at f 4 + 1

-- The checks of a packet whose size is the received one: the two check bytes, then the packet type.
abbrev pub sized_by : PacketType → (ℕ → ℕ) → ℕ → Outputs → Bool × Outputs
sized_by t f size o =
    if not (word_at f (size - 2) == check_0 f (size - 2) * 256 + check_1 f (size - 2))
    then (false, set_error o ccsds_incorrect_checksum)
    else if not (f 0 / 16 % 2 == type_code t)
    then (false, set_error o ccsds_incorrect_packet_type)
    else (
      true,
      record o { destination = f 0 % 8 * 256 + f 1; data_offset = 6; data_size = size - 8 },
    )

-- All checks in their order, and the results; a packet that is too small leaves no error code.
abbrev pub verdict : PacketType → (ℕ → ℕ) → ℕ → Outputs → Bool × Outputs
verdict t f size o =
    if leb size 8
    then (false, o)
    else if not (size == 6 + received_size f)
    then (false, set_error o ccsds_incorrect_packet_size)
    else sized_by t f size o

read_type : (x : ℕ) → bit_and x 0x10 >>> 4 ≡ x / 16 % 2
read_type x = rw (and_field 4 1 x) (omega arith)

read_destination :
    (x₀ x₁ : ℕ)
    → x₀ < 256
    → x₁ < 256
    → u16 (bit_or x₁ (u16 (bit_and (u16 x₀) 0x07) <<< 8)) ≡ x₀ % 8 * 256 + x₁
read_destination x₀ x₁ h₀ h₁ =
    let e : u16 (u16 x₀ % 2 ^ 3) * 2 ^ 8 ≡ x₀ % 8 * 2 ^ 8 = omega arith in
    rw (and_mask 3 (u16 x₀), e, or_comm x₁ (x₀ % 8 * 2 ^ 8), or_fields 8 (x₀ % 8) x₁ h₁)
      (omega arith)

module _ (size_mod : ℕ) (wide : 4294967296 ≤ size_mod) where
  read_length_lem :
      (b : Buffer)
      → IsBytes b
      → 6 ≤ b.size
      → read_packet_data_length size_mod b ≡ ok (received_size b.byte)
  unfolding read_packet_data_length
  read_length_lem b bytes room =
      let high : b.byte 4 * 2 ^ 8 % size_mod ≡ b.byte 4 * 2 ^ 8 =
        mod-eq_of_lt (omega (arith, bytes 4)) in
      let all : (b.byte 4 * 2 ^ 8 + b.byte 5 + 1) % size_mod ≡ b.byte 4 * 2 ^ 8 + b.byte 5 + 1 =
        mod-eq_of_lt (omega (arith, bytes 4, bytes 5)) in
      rw
        (
          load_lem b 4 (omega arith),
          load_lem b 5 (omega arith),
          high,
          or_fields 8 (b.byte 4) (b.byte 5) (bytes 5),
          all,
        )
        refl

  depacketize_sized_lem :
      (t : PacketType) (b : Buffer) (size : ℕ) (o : Outputs)
      → IsBytes b
      → 9 ≤ size
      → size ≤ b.size
      → b.size < size_mod
      → depacketize_sized size_mod t b size (size - 6) o ≡ ok (sized_by t b.byte size o)
  unfolding depacketize_sized
  depacketize_sized_lem t b size o bytes large room fits =
      let whole : (6 + (size - 6)) % size_mod ≡ size = mod-eq_of_lt (omega arith) ∙ omega arith in
      let e₁ : (size + (size_mod - 1)) % size_mod ≡ size - 1 =
        wrapped size_mod size 1 (omega arith) (omega arith) in
      let e₂ : (size + (size_mod - 2)) % size_mod ≡ size - 2 =
        wrapped size_mod size 2 (omega arith) (omega arith) in
      let e₃ : (size - 6 + (size_mod - 2)) % size_mod ≡ size - 8 =
        wrapped size_mod (size - 6) 2 (omega arith) (omega arith) ∙ omega arith in
      let last : size - 1 ≡ size - 2 + 1 = omega arith in
      rw
        (
          whole,
          e₁,
          e₂,
          last,
          load_lem b (size - 2 + 1) (omega arith),
          load_lem b (size - 2) (omega arith),
          join_octets (b.byte (size - 2 + 1)) (b.byte (size - 2)) (bytes _) (bytes _),
          calculate-eq-check_bytes b (size - 2) bytes (omega arith),
          load_lem b 0 (omega arith),
          load_lem b 1 (omega arith),
          read_type (b.byte 0),
          read_destination (b.byte 0) (b.byte 1) (bytes 0) (bytes 1),
          e₃,
        )
        (ground arith)

  -- A packet of any bytes that lies in a buffer is checked and read by CCSDS_Packetizer_depacketize as a
  -- description without bit operations and wrap says, with the check bytes of the plain sums of what
  -- stands before them: no access is out of bounds, whatever the bytes are, and at every width of
  -- `size_t` of 32 bits or more. A packet of at most 8 bytes is refused without an error code.
  pub ccsds_depacketize-eq-verdict :
      (self : Packetizer) (t : PacketType) (b : Buffer) (size bus : ℕ) (o : Outputs)
      → IsBytes b
      → size ≤ b.size
      → b.size < size_mod
      → depacketize size_mod self t b size bus o ≡ ok (verdict t b.byte size o)
  unfolding depacketize
  ccsds_depacketize-eq-verdict self t b size bus o bytes room fits =
      elim (Bool-cases (leb size 8)) [
        | inl short ↦ rw short refl
        | inr long ↦
            let large : 9 ≤ size = ground arith in
            let whole : (6 + received_size b.byte) % size_mod ≡ 6 + received_size b.byte =
              mod-eq_of_lt (omega (arith, bytes 4, bytes 5)) in
            rw (long, read_length_lem b bytes (omega arith), whole)
              (elim (Bool-cases (size == 6 + received_size b.byte)) [
                | inr other ↦ rw other refl
                | inl same ↦
                    let e : size ≡ 6 + received_size b.byte = (==_iff _ _).0 same in
                    let received : received_size b.byte ≡ size - 6 = omega arith in
                    rw same (
                      ap (λ n. depacketize_sized size_mod t b size n o) received
                      ∙ depacketize_sized_lem t b size o bytes large room fits)
              ])
      ]
