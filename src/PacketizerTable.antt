-- ===== src/PacketizerTable.antt =====
-- src/Broker/Broker.c, `packetizers_functions`: the functions of each packetizer that a bus may have.
use taste_runtime_common.Common.{ℕ}
use taste_runtime_common.SpacePacket.{
  header_size, ccsds_header_size, thin_header_size, PacketizerFunctions,
}
use taste_runtime_common.SystemSpec.{
  System, PacketizerCfg, cfg_default, cfg_ccsds, cfg_strict_ccsds, cfg_thin, cfg_device_provided,
  cfg_passthrough,
}
use taste_runtime_common.Packetizer as Default
use taste_runtime_common.CcsdsPacketizer
use taste_runtime_common.ThinPacketizer
use taste_runtime_common.PassthroughPacketizer
use taste_runtime_common.DeviceProvidedPacketizer

-- Broker_initialize_packetizers_functions
abbrev pub functions : System → PacketizerCfg → PacketizerFunctions
functions s cfg_default = record {
  functions_header_size = header_size;
  init = Default.init;
  packetize = Default.packetize s.size_mod;
  depacketize = Default.depacketize s.size_mod;
}
functions s cfg_ccsds = record {
  functions_header_size = header_size;
  init = Default.init;
  packetize = Default.packetize s.size_mod;
  depacketize = Default.depacketize s.size_mod;
}
functions s cfg_strict_ccsds = record {
  functions_header_size = ccsds_header_size;
  init = CcsdsPacketizer.init;
  packetize = CcsdsPacketizer.packetize s.size_mod;
  depacketize = CcsdsPacketizer.depacketize s.size_mod;
}
functions s cfg_thin = record {
  functions_header_size = thin_header_size;
  init = ThinPacketizer.init;
  packetize = ThinPacketizer.packetize s.size_mod;
  depacketize = ThinPacketizer.depacketize s.size_mod;
}
functions s cfg_device_provided = record {
  functions_header_size = 0;
  init = DeviceProvidedPacketizer.init s.device_init s.device_packetize s.device_depacketize;
  packetize =
      DeviceProvidedPacketizer.packetize s.device_init s.device_packetize s.device_depacketize;
  depacketize =
      DeviceProvidedPacketizer.depacketize s.device_init s.device_packetize s.device_depacketize;
}
functions s cfg_passthrough = record {
  functions_header_size = 0;
  init =
      PassthroughPacketizer.init s.interface_invalid_id s.bus_to_unique_port_map
        s.bus_has_any_destination_port;
  packetize =
      PassthroughPacketizer.packetize s.interface_invalid_id s.bus_to_unique_port_map
        s.bus_has_any_destination_port;
  depacketize =
      PassthroughPacketizer.depacketize s.interface_invalid_id s.bus_to_unique_port_map
        s.bus_has_any_destination_port;
}

-- The header size of a bus when a request is delivered.
unfoldable pub header_size_of : System → PacketizerCfg → ℕ → PacketizerFunctions → ℕ
header_size_of s cfg_device_provided bus f = s.device_header_size bus
header_size_of s cfg_default bus f = f.functions_header_size
header_size_of s cfg_ccsds bus f = f.functions_header_size
header_size_of s cfg_strict_ccsds bus f = f.functions_header_size
header_size_of s cfg_thin bus f = f.functions_header_size
header_size_of s cfg_passthrough bus f = f.functions_header_size
