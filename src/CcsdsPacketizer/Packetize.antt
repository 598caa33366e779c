-- ===== src/CcsdsPacketizer/Packetize.antt =====
-- `CCSDS_Packetizer_packetize` makes the packet of CcsdsPacketizer/Packet.antt.
use native.Mathlib.Decide.{dec_lt}
use taste_runtime_common.Common.{ℕ, ◌+◌, ◌%◌, ◌<◌, ◌≡◌, refl, ◌∙◌, arith}
use taste_runtime_common.Common.{mod-eq_of_lt, le→leb, lt→ltb, ltb, if◌then◌else◌}
use taste_runtime_common.Memory.{ok, ◌>>=◌, Returns, Buffer}
use taste_runtime_common.Memory.Laws.{Returns-bind, memset_lem}
use taste_runtime_common.SpacePacket.{PacketType, Packetizer, Packetized}
use taste_runtime_common.CcsdsPacketizer.{
  write_packet_id, write_packet_sequence_control, write_packet_data_length, write_checksum,
  next_sequence_count, packetize,
}
use taste_runtime_common.CcsdsPacketizer.Header.{
  IdWritten, SequenceWritten, LengthWritten, write_packet_id-Written,
  write_packet_sequence_control-Written, write_packet_data_length-Written,
}
use taste_runtime_common.CcsdsPacketizer.Packet.{
  HasHeader, Checked, CanPacketize, PacketizedAs, PacketizedAs-of_parts, write_checksum-Checked,
  header-lt,
}

cleared : Buffer → Buffer
cleared b = record b { byte = λ j. if ltb j 6 then 0 else b.byte j }

bytes_of_parts :
    (t : PacketType) (destination count data_size size_mod : ℕ) {b b₂ b₃ b₄ : Buffer}
    → CanPacketize size_mod destination count data_size b
    → IdWritten t destination (cleared b) b₂
    → SequenceWritten count b₂ b₃
    → LengthWritten (data_size + 2) b₃ b₄
    → (j : ℕ) → b₄.byte j < 256
unfolding cleared
bytes_of_parts t destination count data_size size_mod {b} {b₂} {b₃} {b₄} can id sequence length j =
    elim (dec_lt j 6) [
      | yes header ↦
          (let h : HasHeader t destination count data_size b₄ = record {
            octet_0 =
                length.changed.below 0 (omega arith)
                ∙ sequence.changed.below 0 (omega arith)
                ∙ id.octet_0;
            octet_1 =
                length.changed.below 1 (omega arith)
                ∙ sequence.changed.below 1 (omega arith)
                ∙ id.octet_1;
            octet_2 = length.changed.below 2 (omega arith) ∙ sequence.octet_2;
            octet_3 = length.changed.below 3 (omega arith) ∙ sequence.octet_3;
            octet_4 = length.octet_4 ∙ omega arith;
            octet_5 = length.octet_5 ∙ omega arith;
          } in
            header-lt h can.destination_in_range can.count_in_range j header)
      | no behind ↦
          (let kept : b₄.byte j ≡ (cleared b).byte j =
              length.changed.above j (omega arith)
              ∙ sequence.changed.above j (omega arith)
              ∙ id.changed.above j (omega arith) in
            rw kept (ground (arith, can.bytes j)))
    ]

finish-PacketizedAs :
    (size_mod : ℕ) (t : PacketType) (destination data_size : ℕ) (self : Packetizer) (b : Buffer)
    → CanPacketize size_mod destination self.packet_sequence_count data_size b
    → Returns (PacketizedAs t destination self.packet_sequence_count data_size b) (do
      b₂ ← write_packet_id (cleared b) t destination
      b₃ ← write_packet_sequence_control b₂ self
      b₄ ← write_packet_data_length b₃ (data_size + 2)
      b₅ ← write_checksum size_mod b₄ data_size
      ok (record { packetizer = next_sequence_count self; buffer = b₅; size = 8 + data_size }))
unfolding cleared
finish-PacketizedAs size_mod t destination data_size self b can =
    let P : Packetized → Type 0 =
      PacketizedAs t destination self.packet_sequence_count data_size b in
    Returns-bind (IdWritten t destination (cleared b)) P _ _
      (write_packet_id-Written (cleared b) t destination (omega (arith, can.room)) refl refl
        can.destination_in_range)
      λ b₂ id.
        Returns-bind (SequenceWritten self.packet_sequence_count b₂) P _ _
          (write_packet_sequence_control-Written b₂ self
            (omega (arith, can.room, id.changed.same_size)) (id.changed.above 2 (omega arith))
            (id.changed.above 3 (omega arith)) can.count_in_range)
          λ b₃ sequence.
            Returns-bind (LengthWritten (data_size + 2) b₃) P _ _
              (write_packet_data_length-Written b₃ (data_size + 2)
                (omega (arith, can.room, id.changed.same_size, sequence.changed.same_size)))
              λ b₄ length.
                let size : b₄.size ≡ b.size =
                  length.changed.same_size ∙ sequence.changed.same_size ∙ id.changed.same_size in
                Returns-bind (Checked data_size b₄) P _ _
                  (write_checksum-Checked size_mod b₄ data_size
                    (bytes_of_parts t destination self.packet_sequence_count data_size size_mod can
                      id sequence length)
                    (omega (arith, can.room)) (omega (arith, can.size_fits)))
                  λ c checked.
                    PacketizedAs-of_parts t destination data_size self size_mod can
                      (λ j lo. ground arith) refl id sequence length checked

-- In the asserted ranges, with a buffer of bytes that holds the packet and whose size a `size_t` of 32
-- bits or more can say, CCSDS_Packetizer_packetize returns without an access out of bounds. The
-- buffer then starts with the header, which says in 16 bits the data size with the checksum, less one,
-- the data and the two check bytes of the plain sums of header and data; the data and all bytes
-- behind the packet are unchanged; the returned size is that of the packet; and the sequence count is
-- the next modulo 2 ^ 14.
pub ccsds_packetize-PacketizedAs :
    (size_mod : ℕ) (t : PacketType) (bus source destination data_size : ℕ) (self : Packetizer)
    (b : Buffer)
    → CanPacketize size_mod destination self.packet_sequence_count data_size b
    → Returns
        (PacketizedAs t destination self.packet_sequence_count data_size b)
        (packetize size_mod self t bus source destination b 6 data_size)
unfolding packetize cleared
ccsds_packetize-PacketizedAs size_mod t bus source destination data_size self b can =
    let e : (data_size + 2) % size_mod ≡ data_size + 2 =
      mod-eq_of_lt (omega (arith, can.room, can.size_fits)) in
    let e' : (6 + (data_size + 2)) % size_mod ≡ 8 + data_size =
      mod-eq_of_lt (omega (arith, can.room, can.size_fits)) ∙ omega arith in
    rw
      (
        le→leb _ _ can.count_in_range,
        le→leb _ _ can.destination_in_range,
        le→leb _ _ can.some_data,
        lt→ltb _ _ can.size_in_range,
        memset_lem b 0 6 (omega (arith, can.room)),
        e,
        e',
      )
      (finish-PacketizedAs size_mod t destination data_size self b can)
