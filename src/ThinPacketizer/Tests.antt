-- ===== src/ThinPacketizer/Tests.antt =====
-- The thin packetizer of src/Packetizer/ThinPacketizer.c on concrete inputs.
use taste_runtime_common.Common.{ℕ, ◌%◌, ◌^◌, ◌≡◌, refl, Bool, true, false, some, arith}
use taste_runtime_common.Memory.{Result, ok, ◌>>=◌, Returns, Buffer, memset, or_store, store, load}
use taste_runtime_common.SpacePacket.{Packetizer, telemetry, telecommand, Outputs}
use taste_runtime_common.ThinPacketizer.{
  packetize, depacketize, write_packet_id, write_packet_data_length, read_packet_id,
  read_packet_data_length,
}
use taste_runtime_common.ThinPacketizer.Verdict.{verdict, thin_depacketize-eq-verdict}
use taste_runtime_common.ThinPacketizer.RoundTrip.{
  CanPacketize, Received, thin_packetize-depacketize,
}

abbrev memory : Buffer
memory = record { size = 1024; byte = λ j. j % 256 }

abbrev idle : Packetizer
idle = record { packet_sequence_count = 0 }

abbrev outputs : Outputs
outputs = record {
  source = 0;
  destination = 0;
  data_offset = 0;
  data_size = 0;
  error_code = some 0;
}

round_trip : ℕ → Result (Bool × Outputs)
round_trip data_size = do
  q ← packetize (2 ^ 32) idle telemetry 1 0 300 memory 4 data_size
  depacketize (2 ^ 32) idle telemetry q.buffer q.size 1 outputs

read_back :
    round_trip 511
    ≡ ok (
      true,
      record {
        source = 0;
        destination = 300;
        data_offset = 4;
        data_size = 511;
        error_code = some 0;
      },
    )
unfolding round_trip packetize depacketize write_packet_id write_packet_data_length read_packet_id
    read_packet_data_length memset or_store store load
read_back = refl

refused : round_trip 512 ≡ ok (false, record outputs { error_code = some 3 })
unfolding round_trip packetize depacketize write_packet_id write_packet_data_length read_packet_id
    read_packet_data_length memset or_store store load
refused = refl

memory-CanPacketize : CanPacketize (2 ^ 32) 300 512 memory
memory-CanPacketize = record {
  destination_in_range = omega arith;
  some_data = omega arith;
  size_in_range = omega arith;
  room = omega arith;
  size_fits = omega arith;
}

thin_packetize-depacketize_example :
    Returns
      (Received (2 ^ 32) idle telecommand 1 outputs 300 512 memory)
      (packetize (2 ^ 32) idle telemetry 1 7 300 memory 4 512)
thin_packetize-depacketize_example =
    thin_packetize-depacketize (2 ^ 32) 300 7 512 memory idle idle telemetry telecommand 1 1 outputs
      (omega arith) (omega arith) memory-CanPacketize

thin_depacketize-eq-verdict_example :
    depacketize 4294967296 idle telecommand memory 519 1 outputs
    ≡ ok (verdict memory.byte 519 outputs)
thin_depacketize-eq-verdict_example =
    thin_depacketize-eq-verdict 4294967296 (omega arith) idle telecommand memory 519 1 outputs
      (λ j. omega arith) (omega arith) (omega arith)
