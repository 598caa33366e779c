-- ===== src/RuntimeMocks/Tests.antt =====
-- The look-ups of src/RuntimeCommon and the device's packetizer over the mocks.
use taste_runtime_common.Common.{◌≡◌, refl, arith}
use taste_runtime_common.Memory.{ok, faulted, read}
use taste_runtime_common.RoutingHelper.{find_unique_destination, find_loop}
use taste_runtime_common.RoutingHelper.{check_bus_has_any_destination_port, check_loop}
use taste_runtime_common.DriverHelper.{get_device_packetizer_cfg}
use taste_runtime_common.PassthroughPacketizer
use taste_runtime_common.DeviceProvidedPacketizer
use taste_runtime_common.SystemSpec.{System}
use taste_runtime_common.Broker.{broker_buffer_size}
use taste_runtime_common.RuntimeMocks.{
  generic_partition_buffer_size, interface_invalid_id, interface_max_id, partition_name,
  bus_invalid_id, bus_1, system_device_number, device_invalid_id, packetizer_configurations,
  port_to_partition_bus_map, bus_to_unique_port_map, bus_has_any_destination_port,
  get_init_function, get_packetize_function, get_depacketize_function,
}

-- The only interface is one of another partition, that of the invalid bus.
unique_destination :
    find_unique_destination partition_name interface_invalid_id interface_max_id
      port_to_partition_bus_map bus_1
    ≡ ok interface_invalid_id
unfolding find_unique_destination find_loop read
unique_destination = refl

destination_port :
    check_bus_has_any_destination_port partition_name interface_max_id port_to_partition_bus_map
      bus_invalid_id
    ≡ ok 1
unfolding check_bus_has_any_destination_port check_loop read
destination_port = refl

packetizer_cfg :
    get_device_packetizer_cfg system_device_number packetizer_configurations device_invalid_id
    ≡ ok 0
unfolding get_device_packetizer_cfg read
packetizer_cfg = refl

-- A bus with a packetizer of the device cannot be initialized: the mock has no function for it.
device_init :
    DeviceProvidedPacketizer.init get_init_function get_packetize_function get_depacketize_function
      (record { packet_sequence_count = 0 })
      bus_1
    ≡ faulted
unfolding DeviceProvidedPacketizer.init DeviceProvidedPacketizer.call_init
device_init = refl

-- The tables of the pass-through packetizer have an entry for the invalid bus only.
passthrough_init :
    PassthroughPacketizer.init interface_invalid_id bus_to_unique_port_map
      bus_has_any_destination_port
      (record { packet_sequence_count = 0 })
      bus_1
    ≡ faulted
unfolding PassthroughPacketizer.init read
passthrough_init = refl

-- A broker's buffer over the mocks has 32 bytes: room for 20 bytes, a header, a sender PID and a CRC.
buffer_size :
    (s : System)
    → s.generic_partition_buffer_size ≡ generic_partition_buffer_size
    → broker_buffer_size s ≡ 32
buffer_size s is = omega (arith, is)
