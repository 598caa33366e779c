-- ===== src/CcsdsPacketizer/Tests.antt =====
-- The packetizer of src/Packetizer/CCSDSPacketizer.c on concrete inputs.
use taste_runtime_common.Common.{
  ◌%◌, ◌≡◌, refl, ◌∙◌, inl, arith, some, true, get_or, [], ◌∷◌, ◌==◌, if◌then◌else◌,
}
use taste_runtime_common.Memory.{ok, Returns, Buffer}
use taste_runtime_common.SpacePacket.{Packetizer, telemetry, telecommand, Outputs}
use taste_runtime_common.CcsdsPacketizer.{packetize, depacketize}
use taste_runtime_common.CcsdsPacketizer.Verdict.{verdict, ccsds_depacketize-eq-verdict}
use taste_runtime_common.IsoChecksum.Fletcher.{first, second}
use taste_runtime_common.CcsdsPacketizer.Detection.{
  IsCorrupted, IsRejected, ccsds_depacketize-IsRejected,
}
use taste_runtime_common.CcsdsPacketizer.Packet.{CanPacketize, PacketizedAs}
use taste_runtime_common.CcsdsPacketizer.Packetize.{ccsds_packetize-PacketizedAs}
use taste_runtime_common.CcsdsPacketizer.RoundTrip.{Received, ccsds_packetize-depacketize}

abbrev memory : Buffer
memory = record { size = 70000; byte = λ j. j % 256 }

abbrev counting : Packetizer
counting = record { packet_sequence_count = 792 }

abbrev outputs : Outputs
outputs = record {
  source = 0;
  destination = 0;
  data_offset = 0;
  data_size = 0;
  error_code = some 0;
}

memory-CanPacketize : CanPacketize 4294967296 682 792 65535 memory
memory-CanPacketize = record {
  wide = omega arith;
  count_in_range = omega arith;
  destination_in_range = omega arith;
  some_data = omega arith;
  size_in_range = omega arith;
  room = omega arith;
  size_fits = omega arith;
  bytes = λ j. omega arith;
}

ccsds_packetize-PacketizedAs_example :
    Returns
      (PacketizedAs telecommand 682 792 65535 memory)
      (packetize 4294967296 counting telecommand 1 7 682 memory 6 65535)
ccsds_packetize-PacketizedAs_example =
    ccsds_packetize-PacketizedAs 4294967296 telecommand 1 7 682 65535 counting memory
      memory-CanPacketize

ccsds_packetize-depacketize_example :
    Returns
      (Received 4294967296 counting telecommand telemetry 2 outputs 682 65535 memory)
      (packetize 4294967296 counting telecommand 1 7 682 memory 6 65535)
ccsds_packetize-depacketize_example =
    ccsds_packetize-depacketize 4294967296 telecommand telemetry 1 2 7 682 65535 counting counting
      memory outputs memory-CanPacketize

ccsds_depacketize-eq-verdict_example :
    depacketize 4294967296 counting telecommand memory 262 1 outputs
    ≡ ok (verdict telecommand memory.byte 262 outputs)
ccsds_depacketize-eq-verdict_example =
    ccsds_depacketize-eq-verdict 4294967296 (omega arith) counting telecommand memory 262 1 outputs
      (λ j. omega arith) (omega arith) (omega arith)

-- A packet with one byte of data, and as it arrives with the data and the high byte of the checksum
-- changed.
abbrev sent : Buffer
sent = record { size = 9; byte = λ j. get_or (0 ∷ 1 ∷ 0 ∷ 5 ∷ 0 ∷ 2 ∷ 7 ∷ 203 ∷ 37 ∷ []) j 0 % 256 }

abbrev arrived : Buffer
arrived = record { size = 9; byte = λ j. if j == 6 then 8 else if j == 7 then 202 else sent.byte j }

sent_is_accepted :
    depacketize 4294967296 counting telemetry sent 9 1 outputs
    ≡ ok (true, record outputs { destination = 1; data_offset = 6; data_size = 1 })
unfolding first second
sent_is_accepted =
    ccsds_depacketize-eq-verdict 4294967296 (omega arith) counting telemetry sent 9 1 outputs
      (λ j. omega arith) (omega arith) (omega arith)
    ∙ refl

arrived-IsCorrupted : IsCorrupted 9 6 sent arrived
arrived-IsCorrupted = record {
  bytes = λ j. ground arith;
  same_size = refl;
  elsewhere = record { before = λ k lt. ground arith; behind = λ k le. ground arith };
  changed = inl λ e. omega arith;
  place = omega arith;
}

ccsds_depacketize-IsRejected_example :
    Returns (IsRejected outputs) (depacketize 4294967296 counting telemetry arrived 9 1 outputs)
ccsds_depacketize-IsRejected_example =
    ccsds_depacketize-IsRejected 4294967296 counting telemetry sent arrived 9 1 6 outputs _
      (omega arith) (λ j. omega arith) (omega arith) (omega arith) sent_is_accepted
      arrived-IsCorrupted
