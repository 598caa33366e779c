-- ===== src/Broker/Typed/Packetizers.antt =====
-- A packetizer makes bytes of bytes.
use taste_runtime_common.Common.{ℕ, ◌+◌, ◌%◌, ◌≡◌, arith, true, leb, ltb, ◌==◌}
use taste_runtime_common.Memory.{check, Buffer, memset}
use taste_runtime_common.Memory.Partial.{IfReturns, IfReturns-any, IfReturns-bind}
use taste_runtime_common.SpacePacket.{PacketType, Packetizer, Packetized}
use taste_runtime_common.SystemSpec.{
  System, PacketizerCfg, cfg_default, cfg_ccsds, cfg_strict_ccsds, cfg_thin, cfg_device_provided,
  cfg_passthrough,
}
use taste_runtime_common.PacketizerTable.{functions}
use taste_runtime_common.Packetizer as Default
use taste_runtime_common.CcsdsPacketizer
use taste_runtime_common.ThinPacketizer
use taste_runtime_common.PassthroughPacketizer
use taste_runtime_common.Packetizer.Verdict.{IsBytes}
use taste_runtime_common.Broker.Relay.{is_own, device-is_own}
use taste_runtime_common.Broker.Typed.Stores.{
  memset-Keeps, write_packet_id-Keeps, write_packet_sequence_control-Keeps,
  write_packet_data_length-Keeps, write_sender_pid-Keeps, write_crc-Keeps,
  ccsds_write_packet_id-Keeps, ccsds_write_packet_sequence_control-Keeps,
  ccsds_write_packet_data_length-Keeps, write_checksum-Keeps, thin_write_packet_id-Keeps,
  thin_write_packet_data_length-Keeps,
}

abbrev pub HasBytes : Packetized → Type 0
HasBytes q = IsBytes q.buffer

module _ (size_mod : ℕ) where
  default_packetize-HasBytes :
      (p : Packetizer) (t : PacketType) (bus source destination : ℕ) (b : Buffer)
      (offset length : ℕ)
      → IsBytes b
      → IfReturns HasBytes (Default.packetize size_mod p t bus source destination b offset length)
  unfolding Default.packetize
  default_packetize-HasBytes p t bus source destination b offset length bytes =
      IfReturns-any HasBytes (check (leb p.packet_sequence_count 16383)) _ λ _.
        IfReturns-any HasBytes (check (leb destination 2047)) _ λ _.
          IfReturns-any HasBytes (check (offset == 8)) _ λ _.
            IfReturns-any HasBytes (check (ltb length 4294967295)) _ λ _.
              IfReturns-bind IsBytes HasBytes (memset b 0 8) _
                (memset-Keeps 0 8 (omega arith) b bytes)
                λ b₁ k₁.
                  IfReturns-bind IsBytes HasBytes (Default.write_packet_id b₁ t destination) _
                    (write_packet_id-Keeps t destination b₁ k₁)
                    λ b₂ k₂.
                      IfReturns-bind IsBytes HasBytes (Default.write_packet_sequence_control b₂ p) _
                        (write_packet_sequence_control-Keeps p b₂ k₂)
                        λ b₃ k₃.
                          IfReturns-bind IsBytes HasBytes
                            (Default.write_packet_data_length b₃ length) _
                            (write_packet_data_length-Keeps length b₃ k₃)
                            λ b₄ k₄.
                              IfReturns-bind IsBytes HasBytes
                                (Default.write_sender_pid size_mod b₄ length source) _
                                (write_sender_pid-Keeps size_mod length source b₄ k₄)
                                λ b₅ k₅.
                                  IfReturns-bind IsBytes HasBytes
                                    (Default.write_crc size_mod b₅ length) _
                                    (write_crc-Keeps size_mod length b₅ k₅) λ b₆ k₆. k₆

  ccsds_packetize-HasBytes :
      (p : Packetizer) (t : PacketType) (bus source destination : ℕ) (b : Buffer)
      (offset length : ℕ)
      → IsBytes b
      → IfReturns HasBytes
          (CcsdsPacketizer.packetize size_mod p t bus source destination b offset length)
  unfolding CcsdsPacketizer.packetize
  ccsds_packetize-HasBytes p t bus source destination b offset length bytes =
      IfReturns-any HasBytes (check (leb p.packet_sequence_count 16383)) _ λ _.
        IfReturns-any HasBytes (check (leb destination 2047)) _ λ _.
          IfReturns-any HasBytes (check (offset == 6)) _ λ _.
            IfReturns-any HasBytes (check (leb 1 length)) _ λ _.
              IfReturns-any HasBytes (check (ltb length 65536)) _ λ _.
                IfReturns-bind IsBytes HasBytes (memset b 0 6) _
                  (memset-Keeps 0 6 (omega arith) b bytes)
                  λ b₁ k₁.
                    IfReturns-bind IsBytes HasBytes
                      (CcsdsPacketizer.write_packet_id b₁ t destination) _
                      (ccsds_write_packet_id-Keeps t destination b₁ k₁)
                      λ b₂ k₂.
                        IfReturns-bind IsBytes HasBytes
                          (CcsdsPacketizer.write_packet_sequence_control b₂ p) _
                          (ccsds_write_packet_sequence_control-Keeps p b₂ k₂)
                          λ b₃ k₃.
                            IfReturns-bind IsBytes HasBytes
                              (CcsdsPacketizer.write_packet_data_length b₃
                                ((length + 2) % size_mod))
                              _
                              (ccsds_write_packet_data_length-Keeps ((length + 2) % size_mod) b₃ k₃)
                              λ b₄ k₄.
                                IfReturns-bind IsBytes HasBytes
                                  (CcsdsPacketizer.write_checksum size_mod b₄ length) _
                                  (write_checksum-Keeps size_mod length b₄ k₄) λ b₅ k₅. k₅

  thin_packetize-HasBytes :
      (p : Packetizer) (t : PacketType) (bus source destination : ℕ) (b : Buffer)
      (offset length : ℕ)
      → IsBytes b
      → IfReturns HasBytes
          (ThinPacketizer.packetize size_mod p t bus source destination b offset length)
  unfolding ThinPacketizer.packetize
  thin_packetize-HasBytes p t bus source destination b offset length bytes =
      IfReturns-any HasBytes (check (leb destination 2047)) _ λ _.
        IfReturns-any HasBytes (check (offset == 4)) _ λ _.
          IfReturns-any HasBytes (check (leb 1 length)) _ λ _.
            IfReturns-any HasBytes (check (ltb length 4294967295)) _ λ _.
              IfReturns-bind IsBytes HasBytes (memset b 0 4) _
                (memset-Keeps 0 4 (omega arith) b bytes)
                λ b₁ k₁.
                  IfReturns-bind IsBytes HasBytes (ThinPacketizer.write_packet_id b₁ destination) _
                    (thin_write_packet_id-Keeps destination b₁ k₁)
                    λ b₂ k₂.
                      IfReturns-bind IsBytes HasBytes
                        (ThinPacketizer.write_packet_data_length b₂ length) _
                        (thin_write_packet_data_length-Keeps length b₂ k₂) λ b₃ k₃. k₃

pub packetize-HasBytes :
    (s : System) (cfg : PacketizerCfg) (p : Packetizer) (bus source destination : ℕ) (b : Buffer)
    (offset length : ℕ)
    → is_own cfg ≡ true
    → IsBytes b
    → IfReturns HasBytes
        ((functions s cfg).packetize p s.send_type bus source destination b offset length)
unfolding PassthroughPacketizer.packetize
packetize-HasBytes s cfg_default p bus source destination b offset length own bytes =
    default_packetize-HasBytes s.size_mod p s.send_type bus source destination b offset length bytes
packetize-HasBytes s cfg_ccsds p bus source destination b offset length own bytes =
    default_packetize-HasBytes s.size_mod p s.send_type bus source destination b offset length bytes
packetize-HasBytes s cfg_strict_ccsds p bus source destination b offset length own bytes =
    ccsds_packetize-HasBytes s.size_mod p s.send_type bus source destination b offset length bytes
packetize-HasBytes s cfg_thin p bus source destination b offset length own bytes =
    thin_packetize-HasBytes s.size_mod p s.send_type bus source destination b offset length bytes
packetize-HasBytes s cfg_passthrough p bus source destination b offset length own bytes =
    IfReturns-any HasBytes (check (leb 1 length)) _ λ _. bytes
packetize-HasBytes s cfg_device_provided p bus source destination b offset length own bytes =
    absurd (device-is_own own)
