-- ===== src/SpacePacket.antt =====
-- src/Packetizer/SpacePacket.h, SpacePacketInternal.h, PacketizerInternal.h and the types of Packetizer.h:
-- what the packetizers share. An `enum SystemBus` is its number.
use taste_runtime_common.Common.{ℕ, Bool, Option, none, some, List}
use taste_runtime_common.Memory.{Result, Buffer}

-- Sizes in bytes
abbrev pub thin_header_size : ℕ
thin_header_size = 4

abbrev pub ccsds_header_size : ℕ
ccsds_header_size = 6

abbrev pub header_size : ℕ
header_size = 8

abbrev pub error_control_size : ℕ
error_control_size = 2

abbrev pub sender_pid_size : ℕ
sender_pid_size = 2

abbrev pub ccsds_max_packet_data_size : ℕ
ccsds_max_packet_data_size = 65536

abbrev pub max_packet_data_size : ℕ
max_packet_data_size = 4294967295

abbrev pub max_apid : ℕ
max_apid = 2047

abbrev pub max_packet_sequence_count : ℕ
max_packet_sequence_count = 16383

-- SPACE_PACKET_*
abbrev pub type_mask : ℕ
type_mask = 0x08

abbrev pub apid_high_bits_mask : ℕ
apid_high_bits_mask = 0xe0

abbrev pub type_offset : ℕ
type_offset = 3

abbrev pub apid_high_bits_offset : ℕ
apid_high_bits_offset = 5

abbrev pub secondary_header_flag_offset : ℕ
secondary_header_flag_offset = 4

abbrev pub sequence_flags_first_offset : ℕ
sequence_flags_first_offset = 0

abbrev pub sequence_flags_second_offset : ℕ
sequence_flags_second_offset = 1

abbrev pub sequence_control_high_bits_offset : ℕ
sequence_control_high_bits_offset = 2

-- CCSDS_SPACE_PACKET_*
abbrev pub ccsds_type_mask : ℕ
ccsds_type_mask = 0x10

abbrev pub ccsds_apid_high_bits_mask : ℕ
ccsds_apid_high_bits_mask = 0x07

abbrev pub ccsds_type_offset : ℕ
ccsds_type_offset = 4

abbrev pub ccsds_secondary_header_flag_offset : ℕ
ccsds_secondary_header_flag_offset = 3

abbrev pub ccsds_sequence_flags_first_offset : ℕ
ccsds_sequence_flags_first_offset = 7

abbrev pub ccsds_sequence_flags_second_offset : ℕ
ccsds_sequence_flags_second_offset = 6

-- PACKETIZER_*
abbrev pub destination_high_bits_mask : ℕ
destination_high_bits_mask = 0x0700

abbrev pub sequence_control_high_bits_mask : ℕ
sequence_control_high_bits_mask = 0x3f00

-- Packetizer_PacketType and its numbers
pub data PacketType : Type 0 where
  telemetry telecommand : PacketType

abbrev pub type_code : PacketType → ℕ
type_code telemetry = 0
type_code telecommand = 1

-- Packetizer_ErrorCode
abbrev pub incorrect_crc16 : ℕ
incorrect_crc16 = 1

abbrev pub incorrect_packet_type : ℕ
incorrect_packet_type = 2

abbrev pub incorrect_packet_size : ℕ
incorrect_packet_size = 3

abbrev pub packet_too_small : ℕ
packet_too_small = 4

-- CCSDS_Packetizer_ErrorCode
abbrev pub ccsds_incorrect_checksum : ℕ
ccsds_incorrect_checksum = 1

abbrev pub ccsds_incorrect_packet_type : ℕ
ccsds_incorrect_packet_type = 2

abbrev pub ccsds_incorrect_packet_size : ℕ
ccsds_incorrect_packet_size = 3

pub record Packetizer : Type 0 where
  pub packet_sequence_count : ℕ

-- What the pointers passed to a depacketizer point to; `errorCode` may be NULL, the `none` here.
pub record Outputs : Type 0 where
  pub source : ℕ
  pub destination : ℕ
  pub data_offset : ℕ
  pub data_size : ℕ
  pub error_code : Option ℕ

-- `if(errorCode != NULL) { *errorCode = code; }`
abbrev write_error : Option ℕ → ℕ → Option ℕ
write_error none code = none
write_error (some old) code = some code

abbrev pub set_error : Outputs → ℕ → Outputs
set_error o code = record o { error_code = write_error o.error_code code }

-- What a packetizer leaves: the object, the buffer and the size of the packet.
pub record Packetized : Type 0 where
  pub packetizer : Packetizer
  pub buffer : Buffer
  pub size : ℕ

-- What an init function leaves: the object, `*headerSize`, and the calls it made of
-- `setDeviceProvidedPacketizerHeaderSize(busId, headerSize)`, in order.
pub record Initialized : Type 0 where
  pub packetizer : Packetizer
  pub header_size_out : ℕ
  pub device_calls : List (ℕ × ℕ)

-- packetizer_init_function
abbrev pub InitFunction : Type 0
InitFunction = Packetizer → ℕ → Result Initialized

-- packetizer_packetize_function
abbrev pub PacketizeFunction : Type 0
PacketizeFunction = Packetizer → PacketType → ℕ → ℕ → ℕ → Buffer → ℕ → ℕ → Result Packetized

-- packetizer_depacketize_function, with the returned `bool`
abbrev pub DepacketizeFunction : Type 0
DepacketizeFunction = Packetizer → PacketType → Buffer → ℕ → ℕ → Outputs → Result (Bool × Outputs)

pub record PacketizerFunctions : Type 0 where
  pub functions_header_size : ℕ
  pub init : InitFunction
  pub packetize : PacketizeFunction
  pub depacketize : DepacketizeFunction
