-- ===== src/Packetizer/Tests.antt =====
-- The packetizer at concrete inputs.
use taste_runtime_common.Common.{
  ℕ, ◌+◌, ◌%◌, ◌==◌, ◌≡◌, Bool, get_or, true, inl, inr, if◌then◌else◌, refl, arith, List, [], ◌∷◌,
  some,
}
use taste_runtime_common.Memory.{
  Result, ok, ◌>>=◌, Returns, Buffer, window, load, store, or_store, memset, read,
}
use taste_runtime_common.SpacePacket.{telemetry, telecommand, Outputs}
use taste_runtime_common.Crc16.{calculate_crc16, crc_loop, crc16, table}
use taste_runtime_common.Packetizer.{
  packetize, depacketize, next_sequence_count, write_packet_id, write_packet_sequence_control,
  write_packet_data_length, write_sender_pid, write_crc,
}
use taste_runtime_common.Packetizer.Packet.{Header, PacketizedAs, packetize-PacketizedAs}
use taste_runtime_common.Packetizer.Packet.{next_sequence_count_lem}
use taste_runtime_common.Packetizer.Verdict.{verdict, word_at}
use taste_runtime_common.Packetizer.Forgery.{IsForged, with_source, depacketize-of_forged}
use taste_runtime_common.Packetizer.Depacketize.{depacketize-eq-verdict}
use taste_runtime_common.Packetizer.Outcome.{Outcome, depacketize-Outcome}
use taste_runtime_common.Packetizer.Detection.{IsCorrupted, IsRejected, depacketize-IsRejected}
use taste_runtime_common.Crc16.Division.{remainder, calculate_crc16-eq-remainder}
use taste_runtime_common.Packetizer.{depacketize_sized, read_packet_data_length, read_u16}
use taste_runtime_common.Packetizer.RoundTrip.{Received, packetize-depacketize}

abbrev sevens : Buffer
sevens = record { size = 20; byte = λ j. 7 }

-- The header of the telemetry test of tests/Packetizer/PacketizerTests.cc, with two bytes of data.
abbrev header : Header
header = record {
  packet_type = telemetry;
  destination = 682;
  source = 3;
  count = 792;
  data_size = 2;
}

abbrev bytes_of : Result Buffer → List ℕ
bytes_of (ok b) = window b.byte 0 12
bytes_of _ = []

abbrev nothing_read : Outputs
nothing_read = record {
  source = 0;
  destination = 0;
  data_offset = 0;
  data_size = 0;
  error_code = some 0;
}

check_123456789 : calculate_crc16 (record { size = 9; byte = λ j. 49 + j }) 9 ≡ ok 0x29b1
unfolding calculate_crc16 crc_loop crc16 table load read
check_123456789 = refl

header_bytes :
    bytes_of (
      packetize 0x1_0000_0000 (record { packet_sequence_count = 792 }) telemetry 1 3 682 sevens 8 2
      >>= λ q. ok q.buffer)
    ≡ 0x50 ∷ 0xaa ∷ 0x0f ∷ 0x18 ∷ 0 ∷ 0 ∷ 0 ∷ 1 ∷ 7 ∷ 7 ∷ 0 ∷ 3 ∷ []
unfolding packetize write_packet_id write_packet_sequence_control write_packet_data_length
    write_sender_pid write_crc calculate_crc16 crc_loop crc16 table load store or_store memset read
header_bytes = refl

packetize-PacketizedAs_example :
    Returns (PacketizedAs header sevens) (
      packetize 0x1_0000_0000 (record { packet_sequence_count = 792 }) telemetry 1 3 682 sevens 8 2)
packetize-PacketizedAs_example = packetize-PacketizedAs 0x1_0000_0000 header 1 sevens (omega arith)

next_sequence_count_lem_example :
    (next_sequence_count (record { packet_sequence_count = 16383 })).packet_sequence_count ≡ 0
next_sequence_count_lem_example =
    next_sequence_count_lem (record { packet_sequence_count = 16383 }) (omega arith)

depacketize-eq-verdict_example :
    (sum : ℕ) × (calculate_crc16 sevens 10 ≡ ok sum)
    × (depacketize 0x1_0000_0000
          (record { packet_sequence_count = 0 })
          telecommand
          sevens
          14
          1
          nothing_read
        ≡ ok (verdict sum telecommand (λ j. 7) 14 nothing_read))
depacketize-eq-verdict_example =
    depacketize-eq-verdict 0x1_0000_0000 (omega arith) (record { packet_sequence_count = 0 })
      telecommand sevens 14 1 nothing_read (λ j. omega arith) (omega arith) (omega arith)

depacketize-Outcome_example : Returns (Outcome telecommand sevens 14 nothing_read) (
    depacketize 0x1_0000_0000
      (record { packet_sequence_count = 0 })
      telecommand
      sevens
      14
      1
      nothing_read)
depacketize-Outcome_example =
    depacketize-Outcome 0x1_0000_0000 (record { packet_sequence_count = 0 }) telecommand sevens 14 1
      nothing_read (omega arith) (λ j. omega arith) (omega arith) (omega arith)

packetize-depacketize_example :
    Returns
      (Received 0x1_0000_0000
        (record { packet_sequence_count = 0 })
        telecommand
        2
        nothing_read
        header
        sevens)
      (packetize 0x1_0000_0000
        (record { packet_sequence_count = 792 })
        telemetry
        1
        3
        682
        sevens
        8
        2)
packetize-depacketize_example =
    packetize-depacketize 0x1_0000_0000 header sevens (record { packet_sequence_count = 0 })
      telecommand 1 2 nothing_read (omega arith) (λ j. omega arith) (omega arith) (omega arith)

-- The packet of `header_bytes` with its CRC.
abbrev sent : Buffer
sent = record {
  size = 14;
  byte = λ j.
      get_or (0x50 ∷ 0xaa ∷ 0x0f ∷ 0x18 ∷ 0 ∷ 0 ∷ 0 ∷ 1 ∷ 7 ∷ 7 ∷ 0 ∷ 3 ∷ 0x53 ∷ 0x37 ∷ []) j 0
      % 256;
}

-- The last byte of its data is changed on the way.
abbrev arrived : Buffer
arrived = record { size = 14; byte = λ j. if j == 9 then 6 else sent.byte j }

sent_is_accepted :
    depacketize 0x1_0000_0000
      (record { packet_sequence_count = 0 })
      telemetry
      sent
      14
      1
      nothing_read
    ≡ ok (
      true,
      record { source = 3; destination = 682; data_offset = 8; data_size = 2; error_code = some 0 },
    )
unfolding depacketize depacketize_sized read_packet_data_length read_u16 calculate_crc16 crc_loop
    crc16 table load read
sent_is_accepted = refl

arrived-IsCorrupted : IsCorrupted 14 8 sent arrived
arrived-IsCorrupted = record {
  bytes = λ j. ground arith;
  same_size = refl;
  elsewhere = record { before = λ k lt. ground arith; behind = λ k le. ground arith };
  changed = inr λ e. omega arith;
  place = inl (omega arith);
}

depacketize-IsRejected_example : Returns (IsRejected nothing_read) (
    depacketize 0x1_0000_0000
      (record { packet_sequence_count = 0 })
      telemetry
      arrived
      14
      1
      nothing_read)
depacketize-IsRejected_example =
    depacketize-IsRejected 0x1_0000_0000 (record { packet_sequence_count = 0 }) telemetry sent
      arrived 14 1 8 nothing_read _ (omega arith) (λ j. omega arith) (omega arith) (omega arith)
      sent_is_accepted arrived-IsCorrupted

-- The packet with another sender PID.
abbrev forged : Buffer
forged = record { size = 14; byte = λ j. if j == 11 then 9 else sent.byte j }

forged-IsForged : IsForged 14 sent forged
forged-IsForged = record {
  bytes = λ j. ground arith;
  same_size = refl;
  elsewhere = λ j high low. ground arith;
}

depacketize-of_forged_example :
    (r : Bool × Outputs) × (depacketize 0x1_0000_0000
        (record { packet_sequence_count = 0 })
        telemetry
        sent
        14
        1
        nothing_read
      ≡ ok r)
    × (depacketize 0x1_0000_0000
          (record { packet_sequence_count = 0 })
          telemetry
          forged
          14
          1
          nothing_read
        ≡ ok (with_source (word_at forged.byte 10) r))
depacketize-of_forged_example =
    depacketize-of_forged 0x1_0000_0000 (record { packet_sequence_count = 0 }) telemetry sent forged
      14 1 nothing_read (omega arith) (λ j. omega arith) (omega arith) (omega arith) forged-IsForged

calculate_crc16-eq-remainder_example :
    calculate_crc16 sent 10 ≡ ok (remainder 0xffff (window sent.byte 0 10))
calculate_crc16-eq-remainder_example =
    calculate_crc16-eq-remainder sent 10 (λ j. omega arith) (omega arith)
