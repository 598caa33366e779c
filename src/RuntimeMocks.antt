-- ===== src/RuntimeMocks.antt =====
-- src/RuntimeMocks: the tables and functions that stand in for what the build generates for a system.
-- There are one interface, one device and two buses, each but BUS_1 the invalid one.
mod Tests
use taste_runtime_common.Common.{ℕ, Option, none, List, [], ◌∷◌}
use taste_runtime_common.SpacePacket.{InitFunction, PacketizeFunction, DepacketizeFunction}
use taste_runtime_common.RoutingHelper.{PartitionBusPair}

-- enum RemoteInterface
abbrev pub interface_invalid_id : ℕ
interface_invalid_id = 0

abbrev pub interface_max_id : ℕ
interface_max_id = 1

-- enum SystemPartition
abbrev pub partition_invalid_id : ℕ
partition_invalid_id = 0

abbrev pub x86_partition : ℕ
x86_partition = 1

-- PARTITION_NAME
abbrev pub partition_name : ℕ
partition_name = x86_partition

-- enum SystemBus
abbrev pub bus_invalid_id : ℕ
bus_invalid_id = 0

abbrev pub bus_1 : ℕ
bus_1 = 1

-- SYSTEM_BUSES_NUMBER
abbrev pub system_buses_number : ℕ
system_buses_number = 2

-- enum SystemDevice
abbrev pub device_invalid_id : ℕ
device_invalid_id = 0

-- SYSTEM_DEVICE_NUMBER
abbrev pub system_device_number : ℕ
system_device_number = 1

abbrev pub port_to_bus_map : List ℕ
port_to_bus_map = bus_invalid_id ∷ []

abbrev pub bus_to_port_map : List ℕ
bus_to_port_map = interface_invalid_id ∷ []

abbrev pub device_to_bus_map : List ℕ
device_to_bus_map = 0 ∷ []

abbrev pub device_configurations : List ℕ
device_configurations = 0 ∷ []

abbrev pub packetizer_configurations : List ℕ
packetizer_configurations = 0 ∷ []

abbrev pub port_to_partition_bus_map : List PartitionBusPair
port_to_partition_bus_map = record { partition = partition_invalid_id; bus = bus_invalid_id } ∷ []

abbrev pub bus_to_unique_port_map : List ℕ
bus_to_unique_port_map = interface_invalid_id ∷ []

abbrev pub bus_has_any_destination_port : List ℕ
bus_has_any_destination_port = 0 ∷ []

-- GENERIC_PARTITION_BUFFER_SIZE
abbrev pub generic_partition_buffer_size : ℕ
generic_partition_buffer_size = 20

-- asn1SccPID
abbrev pub pid_function_1 : ℕ
pid_function_1 = 0

abbrev pub pid_function_2 : ℕ
pid_function_2 = 1

abbrev pub pid_function_3 : ℕ
pid_function_3 = 2

abbrev pub pid_env : ℕ
pid_env = 3

-- getDeviceProvidedPacketizerHeaderSize
abbrev pub get_header_size : ℕ → ℕ
get_header_size bus = 0

-- getDeviceProvidedPacketizerInitFunction, which returns NULL
abbrev pub get_init_function : ℕ → Option InitFunction
get_init_function bus = none

-- getDeviceProvidedPacketizerPacketizeFunction
abbrev pub get_packetize_function : ℕ → Option PacketizeFunction
get_packetize_function bus = none

-- getDeviceProvidedPacketizerDepacketizeFunction
abbrev pub get_depacketize_function : ℕ → Option DepacketizeFunction
get_depacketize_function bus = none

-- setDeviceProvidedPacketizerHeaderSize, which does nothing
abbrev pub set_header_size : (bus size : ℕ) → Unit {0}
set_header_size bus size = tt
