-- ===== src/Packetizer/Packet.antt =====
-- The packet that `Packetizer_packetize` leaves in the buffer.
use taste_runtime_common.Common.{ℕ, ◌+◌, ◌*◌, ◌/◌, ◌%◌, ◌≤◌, ◌<◌, ◌≡◌, refl, ◌∙◌, arith}
use taste_runtime_common.Common.{mod-eq_of_lt, le→leb, lt→ltb, ltb, if◌then◌else◌}
use taste_runtime_common.Memory.{Result, ok, ◌>>=◌, Returns, Buffer, load}
use taste_runtime_common.Memory.Laws.{Returns-bind, memset_lem}
use taste_runtime_common.SpacePacket.{PacketType, type_code, Packetizer, Packetized}
use taste_runtime_common.Crc16.{calculate_crc16}
use taste_runtime_common.Crc16.Sum.{calculate_crc16_ext}
use taste_runtime_common.Packetizer.{
  size_t, write_packet_id, write_packet_sequence_control, write_packet_data_length,
  write_sender_pid, write_crc, next_sequence_count, packetize,
}
use taste_runtime_common.Packetizer.Fields.{id_octet}
use taste_runtime_common.Packetizer.Writers.{
  ChangedIn, IdWritten, SequenceWritten, LengthWritten, length_field, write_packet_id-Written,
  write_packet_sequence_control-Written, write_packet_data_length-Written,
}
use taste_runtime_common.Packetizer.Trailer.{PidWritten, CrcWritten, write_sender_pid-Written}
use taste_runtime_common.Packetizer.Trailer.{write_crc-Written}

-- What the packet says.
pub record Header : Type 0 where
  pub packet_type : PacketType
  pub destination : ℕ
  pub source : ℕ
  pub count : ℕ
  pub data_size : ℕ

-- The layout on the wire: header, data, sender PID, and the CRC of the header and the data.
pub record IsPacket (h : Header) (c : Buffer) : Type 0 where
  pub octet_0 : c.byte 0 ≡ id_octet (type_code h.packet_type) (h.destination / 256)
  pub octet_1 : c.byte 1 ≡ h.destination % 256
  pub octet_2 : c.byte 2 ≡ h.count / 256 * 4 + 3
  pub octet_3 : c.byte 3 ≡ h.count % 256
  pub octet_4 : c.byte 4 ≡ length_field h.data_size / 16777216
  pub octet_5 : c.byte 5 ≡ length_field h.data_size / 65536 % 256
  pub octet_6 : c.byte 6 ≡ length_field h.data_size / 256 % 256
  pub octet_7 : c.byte 7 ≡ length_field h.data_size % 256
  pub pid_high : c.byte (8 + h.data_size) ≡ h.source / 256 % 256
  pub pid_low : c.byte (9 + h.data_size) ≡ h.source % 256
  pub sum : ℕ
  pub sum_is : calculate_crc16 c (8 + h.data_size) ≡ ok sum
  pub sum-lt : sum < 65536
  pub crc_high : c.byte (10 + h.data_size) ≡ sum / 256
  pub crc_low : c.byte (11 + h.data_size) ≡ sum % 256

-- What the caller has to respect: the ranges that the source asserts, and room in the buffer.
pub record CanPacketize (size_mod : ℕ) (h : Header) (b : Buffer) : Type 0 where
  pub count_in_range : h.count ≤ 16383
  pub destination_in_range : h.destination ≤ 2047
  pub size_in_range : h.data_size < 4294967295
  pub room : 12 + h.data_size ≤ b.size
  pub size_fits : b.size < size_mod

-- The outcome: the packet, the data and what lies behind the packet unchanged, its size, and the
-- next sequence count, modulo 2 ^ 14.
pub record PacketizedAs (h : Header) (b : Buffer) (p : Packetized) : Type 0 where
  pub packet : IsPacket h p.buffer
  pub same_size : p.buffer.size ≡ b.size
  pub data_kept : (j : ℕ) → 8 ≤ j → j < 8 + h.data_size → p.buffer.byte j ≡ b.byte j
  pub rest_kept : (j : ℕ) → 12 + h.data_size ≤ j → p.buffer.byte j ≡ b.byte j
  pub size_is : p.size ≡ 12 + h.data_size
  pub next_count : p.packetizer.packet_sequence_count ≡ (h.count + 1) % 16384

kept :
    {low high : ℕ} {b c : Buffer} {j v : ℕ}
    → ChangedIn low high b c
    → j < low
    → b.byte j ≡ v
    → c.byte j ≡ v
kept {j = j} changed below e = changed.below j below ∙ e

load_ext : (b c : Buffer) (j : ℕ) → c.size ≡ b.size → c.byte j ≡ b.byte j → load c j ≡ load b j
unfolding load
load_ext b c j same_size same = rw (same_size, same)

-- The five writers one after the other.
IsPacket_of_parts :
    (h : Header) {b₁ b₂ b₃ b₄ b₅ c : Buffer}
    → IdWritten h.packet_type h.destination b₁ b₂
    → SequenceWritten h.count b₂ b₃
    → LengthWritten h.data_size b₃ b₄
    → PidWritten h.data_size h.source b₄ b₅
    → CrcWritten h.data_size b₅ c
    → IsPacket h c
IsPacket_of_parts h {b₄ = b₄} {b₅ = b₅} {c = c} id seq len pid crc = record {
  octet_0 =
      in_header (omega arith)
        (kept len.changed (omega arith) (kept seq.changed (omega arith) id.octet_0));
  octet_1 =
      in_header (omega arith)
        (kept len.changed (omega arith) (kept seq.changed (omega arith) id.octet_1));
  octet_2 = in_header (omega arith) (kept len.changed (omega arith) seq.octet_2);
  octet_3 = in_header (omega arith) (kept len.changed (omega arith) seq.octet_3);
  octet_4 = in_header (omega arith) len.octet_4;
  octet_5 = in_header (omega arith) len.octet_5;
  octet_6 = in_header (omega arith) len.octet_6;
  octet_7 = in_header (omega arith) len.octet_7;
  pid_high = kept crc.changed (omega arith) pid.high;
  pid_low = kept crc.changed (omega arith) pid.low;
  sum = crc.sum;
  sum_is =
      calculate_crc16_ext c b₅ (8 + h.data_size)
        (λ j below. load_ext b₅ c j crc.changed.same_size (crc.changed.below j (omega arith)))
      ∙ crc.sum_is;
  sum-lt = crc.sum-lt;
  crc_high = crc.high;
  crc_low = crc.low;
}
  where
    in_header : {j v : ℕ} → j < 8 → b₄.byte j ≡ v → c.byte j ≡ v
    in_header below e = kept crc.changed (omega arith) (kept pid.changed (omega arith) e)

cleared : Buffer → Buffer
cleared b = record b { byte = λ j. if ltb j 8 then 0 else b.byte j }

-- The sequence count goes up by one, and from 2 ^ 14 - 1 back to 0.
pub next_sequence_count_lem :
    (self : Packetizer)
    → self.packet_sequence_count ≤ 16383
    → (next_sequence_count self).packet_sequence_count ≡ (self.packet_sequence_count + 1) % 16384
unfolding next_sequence_count
next_sequence_count_lem self h = ground arith

PacketizedAs-of_parts :
    (size_mod : ℕ) (h : Header) (b : Buffer) {b₂ b₃ b₄ b₅ c : Buffer}
    → CanPacketize size_mod h b
    → IdWritten h.packet_type h.destination (cleared b) b₂
    → SequenceWritten h.count b₂ b₃
    → LengthWritten h.data_size b₃ b₄
    → PidWritten h.data_size h.source b₄ b₅
    → CrcWritten h.data_size b₅ c
    → PacketizedAs h b (record {
      packetizer = next_sequence_count (record { packet_sequence_count = h.count });
      buffer = c;
      size = size_t size_mod (8 + h.data_size + 2 + 2);
    })
unfolding cleared
PacketizedAs-of_parts size_mod h b can id seq len pid crc = record {
  packet = IsPacket_of_parts h id seq len pid crc;
  same_size =
      crc.changed.same_size ∙ pid.changed.same_size ∙ len.changed.same_size ∙ seq.changed.same_size
      ∙ id.changed.same_size;
  data_kept = λ j lo hi.
      crc.changed.below j (omega arith)
      ∙ pid.changed.below j (omega arith)
      ∙ len.changed.above j (omega arith)
      ∙ seq.changed.above j (omega arith)
      ∙ id.changed.above j (omega arith)
      ∙ ground arith;
  rest_kept = λ j lo.
      crc.changed.above j (omega arith)
      ∙ pid.changed.above j (omega arith)
      ∙ len.changed.above j (omega arith)
      ∙ seq.changed.above j (omega arith)
      ∙ id.changed.above j (omega arith)
      ∙ ground arith;
  size_is = mod-eq_of_lt (omega arith) ∙ omega arith;
  next_count = next_sequence_count_lem _ can.count_in_range;
}

-- The data length and the trailer, after the first four bytes.
finish : ℕ → Header → Buffer → Result Packetized
finish size_mod h b₃ = do
  b₄ ← write_packet_data_length b₃ h.data_size
  b₅ ← write_sender_pid size_mod b₄ h.data_size h.source
  b₆ ← write_crc size_mod b₅ h.data_size
  ok (record {
    packetizer = next_sequence_count (record { packet_sequence_count = h.count });
    buffer = b₆;
    size = size_t size_mod (8 + h.data_size + 2 + 2);
  })

finish-PacketizedAs :
    (size_mod : ℕ) (h : Header) (b : Buffer) {b₂ b₃ : Buffer}
    → CanPacketize size_mod h b
    → IdWritten h.packet_type h.destination (cleared b) b₂
    → SequenceWritten h.count b₂ b₃
    → b₃.size ≡ b.size
    → Returns (PacketizedAs h b) (finish size_mod h b₃)
unfolding finish
finish-PacketizedAs size_mod h b {b₃ = b₃} can id seq size₃ =
    let n = h.data_size in
    let Q = PacketizedAs h b in
    Returns-bind (LengthWritten n b₃) Q (write_packet_data_length b₃ n) _
      (write_packet_data_length-Written b₃ n (omega arith) (omega arith))
      λ b₄ len.
        Returns-bind (PidWritten n h.source b₄) Q (write_sender_pid size_mod b₄ n h.source) _
          (write_sender_pid-Written size_mod b₄ n h.source (omega (arith, len.changed.same_size))
            (omega (arith, len.changed.same_size)))
          λ b₅ pid.
            Returns-bind (CrcWritten n b₅) Q (write_crc size_mod b₅ n) _
              (write_crc-Written size_mod b₅ n
                (omega (arith, len.changed.same_size, pid.changed.same_size))
                (omega (arith, len.changed.same_size, pid.changed.same_size)))
              λ c crc. PacketizedAs-of_parts size_mod h b can id seq len pid crc

-- In the asserted ranges, with a buffer that holds the packet and whose size a `size_t` can say, the
-- call returns without an access out of bounds. The buffer then starts with the packet's layout:
-- header, data, sender PID, and the CRC of header and data, which is the sum of what stands there;
-- the data and all bytes behind the packet are unchanged; the returned size is that of the packet;
-- and the sequence count is the next modulo 2 ^ 14.
pub packetize-PacketizedAs :
    (size_mod : ℕ) (h : Header) (bus : ℕ) (b : Buffer)
    → CanPacketize size_mod h b
    → Returns (PacketizedAs h b) (
        packetize size_mod
          (record { packet_sequence_count = h.count })
          h.packet_type
          bus
          h.source
          h.destination
          b
          8
          h.data_size)
unfolding packetize finish cleared
packetize-PacketizedAs size_mod h bus b can =
    rw
      (
        le→leb _ _ can.count_in_range,
        le→leb _ _ can.destination_in_range,
        lt→ltb _ _ can.size_in_range,
        memset_lem b 0 8 (omega arith),
      )
      (Returns-bind (IdWritten h.packet_type h.destination (cleared b)) (PacketizedAs h b)
        (write_packet_id (cleared b) h.packet_type h.destination) _
        (write_packet_id-Written (cleared b) h.packet_type h.destination (omega arith) refl refl
          can.destination_in_range)
        λ b₂ id.
          Returns-bind (SequenceWritten h.count b₂) (PacketizedAs h b)
            (write_packet_sequence_control b₂ (record { packet_sequence_count = h.count })) _
            (write_packet_sequence_control-Written b₂ (record { packet_sequence_count = h.count })
              (omega (arith, id.changed.same_size)) (id.changed.above 2 (omega arith))
              (id.changed.above 3 (omega arith)) can.count_in_range)
            λ b₃ seq.
              finish-PacketizedAs size_mod h b can id seq
                (seq.changed.same_size ∙ id.changed.same_size))
