-- ===== src/ThinPacketizer/Verdict.antt =====
-- What `ThinPacketizer_depacketize` decides and reads of any bytes, without bit operations and wrap.
use taste_runtime_common.Common.{
  ℕ, ◌+◌, ◌*◌, ◌/◌, ◌%◌, ◌^◌, ◌≤◌, ◌<◌, ◌≡◌, refl, arith, mod-eq_of_lt,
}
use taste_runtime_common.Common.{
  Bool, true, false, not, Bool-cases, inl, inr, ltb, ◌==◌, not_ltb→le, if◌then◌else◌,
}
use taste_runtime_common.Words.Fields.{or_fields}
use taste_runtime_common.Memory.{ok, Buffer}
use taste_runtime_common.Memory.Laws.{load_lem}
use taste_runtime_common.SpacePacket.{
  PacketType, Packetizer, Outputs, set_error, incorrect_packet_size,
}
use taste_runtime_common.ThinPacketizer.{read_packet_data_length, read_packet_id, depacketize}
use taste_runtime_common.ThinPacketizer.RoundTrip.{join_length}
use taste_runtime_common.Packetizer.Verdict.{IsBytes, word_at}

-- The data size that is read: the carry out of the low byte is lost where the high byte is odd.
abbrev pub received_size : (ℕ → ℕ) → ℕ
received_size f = if f 3 == 255 then (f 2 / 2 * 2 + 1) * 256 else word_at f 2 + 1

-- All checks in their order, and the results; a packet that is too small leaves no error code.
abbrev pub verdict : (ℕ → ℕ) → ℕ → Outputs → Bool × Outputs
verdict f size o =
    if ltb size 4
    then (false, o)
    else if not (size == 4 + received_size f)
    then (false, set_error o incorrect_packet_size)
    else (
      true,
      record o { destination = word_at f 0; data_offset = 4; data_size = received_size f },
    )

module _ (size_mod : ℕ) (wide : 4294967296 ≤ size_mod) where
  read_length_lem :
      (b : Buffer)
      → IsBytes b
      → 4 ≤ b.size
      → read_packet_data_length size_mod b ≡ ok (received_size b.byte)
  unfolding read_packet_data_length
  read_length_lem b bytes room =
      let high : b.byte 2 * 2 ^ 8 % size_mod ≡ b.byte 2 * 2 ^ 8 =
        mod-eq_of_lt (omega (arith, bytes 2)) in
      let low : (b.byte 3 + 1) % size_mod ≡ b.byte 3 + 1 = mod-eq_of_lt (omega (arith, bytes 3)) in
      rw
        (
          load_lem b 2 (omega arith),
          load_lem b 3 (omega arith),
          high,
          low,
          join_length (b.byte 2) (b.byte 3) (bytes 3),
        )
        (ground arith)

  read_destination :
      (b : Buffer) → IsBytes b → 4 ≤ b.size → read_packet_id b ≡ ok (word_at b.byte 0)
  unfolding read_packet_id
  read_destination b bytes room =
      let e : b.byte 0 % 65536 * 2 ^ 8 % 65536 ≡ b.byte 0 * 2 ^ 8 = omega (arith, bytes 0) in
      rw
        (
          load_lem b 0 (omega arith),
          load_lem b 1 (omega arith),
          e,
          or_fields 8 (b.byte 0) (b.byte 1) (bytes 1),
        )
        refl

  -- A packet of any bytes that lies in a buffer is checked and read by ThinPacketizer_depacketize as a
  -- description without bit operations and wrap says: no access is out of bounds, whatever the bytes
  -- are, and at every width of `size_t` of 32 bits or more. A packet of less than 4 bytes is refused
  -- without an error code; the destination is a number of 16 bits.
  pub thin_depacketize-eq-verdict :
      (self : Packetizer) (t : PacketType) (b : Buffer) (size bus : ℕ) (o : Outputs)
      → IsBytes b
      → size ≤ b.size
      → b.size < size_mod
      → depacketize size_mod self t b size bus o ≡ ok (verdict b.byte size o)
  unfolding depacketize
  thin_depacketize-eq-verdict self t b size bus o bytes room fits = elim (Bool-cases (ltb size 4)) [
    | inl short ↦ rw short refl
    | inr long ↦
        let large : 4 ≤ size = not_ltb→le _ _ long in
        let whole : (4 + received_size b.byte) % size_mod ≡ 4 + received_size b.byte =
          mod-eq_of_lt (ground (arith, bytes 2, bytes 3)) in
        rw
          (
            long,
            read_length_lem b bytes (omega arith),
            whole,
            read_destination b bytes (omega arith),
          )
          (elim (Bool-cases (size == 4 + received_size b.byte)) [
            | inr other ↦ rw other refl
            | inl same ↦ rw same refl
          ])
  ]
