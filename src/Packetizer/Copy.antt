-- ===== src/Packetizer/Copy.antt =====
-- A packet that was copied byte by byte, as a driver does, is read as the one that was made.
use taste_runtime_common.Common.{ℕ, ◌+◌, ◌≤◌, ◌<◌, ◌≡◌, ap, ◌∙◌, arith}
use taste_runtime_common.Memory.{ok, Buffer}
use taste_runtime_common.Crc16.{calculate_crc16}
use taste_runtime_common.Crc16.Sum.{calculate_crc16_ext}
use taste_runtime_common.Memory.Laws.{load_lem}
use taste_runtime_common.SpacePacket.{PacketType, Packetizer, Outputs}
use taste_runtime_common.Packetizer.{depacketize}
use taste_runtime_common.Packetizer.Packet.{Header, IsPacket}
use taste_runtime_common.Packetizer.Verdict.{IsBytes}
use taste_runtime_common.Packetizer.Depacketize.{depacketize_of_sum}
use taste_runtime_common.Packetizer.RoundTrip.{HeaderInRange, answer, verdict_of_packet}

pub copy-IsPacket :
    (h : Header) (b c : Buffer)
    → 12 + h.data_size ≤ b.size
    → 12 + h.data_size ≤ c.size
    → ((j : ℕ) → j < 12 + h.data_size → c.byte j ≡ b.byte j)
    → IsPacket h b
    → IsPacket h c
copy-IsPacket h b c room room' same p = record {
  octet_0 = same 0 (omega arith) ∙ p.octet_0;
  octet_1 = same 1 (omega arith) ∙ p.octet_1;
  octet_2 = same 2 (omega arith) ∙ p.octet_2;
  octet_3 = same 3 (omega arith) ∙ p.octet_3;
  octet_4 = same 4 (omega arith) ∙ p.octet_4;
  octet_5 = same 5 (omega arith) ∙ p.octet_5;
  octet_6 = same 6 (omega arith) ∙ p.octet_6;
  octet_7 = same 7 (omega arith) ∙ p.octet_7;
  pid_high = same (8 + h.data_size) (omega arith) ∙ p.pid_high;
  pid_low = same (9 + h.data_size) (omega arith) ∙ p.pid_low;
  sum = p.sum;
  sum_is =
      calculate_crc16_ext c b (8 + h.data_size) (λ j below.
        rw (load_lem c j (omega arith), load_lem b j (omega arith), same j (omega arith)))
      ∙ p.sum_is;
  sum-lt = p.sum-lt;
  crc_high = same (10 + h.data_size) (omega arith) ∙ p.crc_high;
  crc_low = same (11 + h.data_size) (omega arith) ∙ p.crc_low;
}

-- What a receiver makes of a packet in any buffer.
pub depacketize_of_packet :
    (size_mod : ℕ) (self : Packetizer) (t : PacketType) (h : Header) (c : Buffer) (bus : ℕ)
    (o : Outputs)
    → 4294967296 ≤ size_mod
    → IsBytes c
    → 12 + h.data_size ≤ c.size
    → c.size < size_mod
    → HeaderInRange h
    → IsPacket h c
    → depacketize size_mod self t c (12 + h.data_size) bus o ≡ ok (answer t h o)
depacketize_of_packet size_mod self t h c bus o wide bytes room fits r p =
    depacketize_of_sum size_mod wide self t c (12 + h.data_size) bus o p.sum bytes room fits
      (ap (calculate_crc16 c) (omega arith) ∙ p.sum_is)
    ∙ ap ok (verdict_of_packet t o r p)
