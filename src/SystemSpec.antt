-- ===== src/SystemSpec.antt =====
-- What Broker.c takes from the files that the build generates for a system (system_spec.h, routing.h and
-- device_provided_packetizer.h, of which src/RuntimeMocks has stand-ins): parameters of the model.
use taste_runtime_common.Common.{ℕ, Bool, Option, List}
use taste_runtime_common.SpacePacket.{
  PacketType, InitFunction, PacketizeFunction, DepacketizeFunction,
}

-- enum PacketizerCfg
pub data PacketizerCfg : Type 0 where
  cfg_default cfg_ccsds cfg_strict_ccsds cfg_thin cfg_device_provided cfg_passthrough :
      PacketizerCfg

-- What the build generates, and its options: BROKER_SEND_TELECOMMAND and BROKER_EXPECT_TELECOMMAND
-- set the packet types, the target decides whether sender PIDs are passed.
pub record System : Type 1 where
  pub size_mod : ℕ
  pub send_type : PacketType
  pub expect_type : PacketType
  pub passes_sender_pid : Bool
  pub system_buses_number : ℕ
  pub bus_invalid_id : ℕ
  pub interface_invalid_id : ℕ
  pub generic_partition_buffer_size : ℕ
  pub port_to_bus_map : List ℕ
  pub bus_to_packetizer_cfg : List PacketizerCfg
  pub bus_to_driver_private_data : List ℕ
  pub bus_to_driver_send_function : List ℕ
  pub interface_to_deliver_function : List ℕ
  pub bus_to_unique_port_map : List ℕ
  pub bus_has_any_destination_port : List ℕ
  pub device_header_size : ℕ → ℕ
  pub device_init : ℕ → Option InitFunction
  pub device_packetize : ℕ → Option PacketizeFunction
  pub device_depacketize : ℕ → Option DepacketizeFunction
