-- ===== src/PassthroughPacketizer.antt =====
-- src/Packetizer/PassthroughPacketizer.c: the data is the packet, without a header.
-- The two tables that the build generates for the buses are parameters, with `INTERFACE_INVALID_ID`.
use taste_runtime_common.Common.{ℕ, true, false, not, List, []}
use taste_runtime_common.Common.{leb, ◌==◌, if◌then◌else◌}
use taste_runtime_common.Words.{u16}
use taste_runtime_common.Memory.{ok, aborted, ◌>>=◌, ◌>>◌, check, read}
use taste_runtime_common.SpacePacket.{InitFunction, PacketizeFunction, DepacketizeFunction}

module _ (interface_invalid_id : ℕ)
    (bus_to_unique_port_map bus_has_any_destination_port : List ℕ) where
  unfoldable pub init : InitFunction
  init self bus = do
    port ← read bus_to_unique_port_map bus
    missing ←
        (if port == interface_invalid_id
          then (do used ← read bus_has_any_destination_port bus; ok (not (used == 0)))
          else ok false)
    if missing
        then aborted
        else ok (record { packetizer = self; header_size_out = 0; device_calls = [] })

  unfoldable pub packetize : PacketizeFunction
  packetize self packet_type bus source destination b data_offset data_size = do
    check (leb 1 data_size)
    ok (record { packetizer = self; buffer = b; size = data_size })

  unfoldable pub depacketize : DepacketizeFunction
  depacketize self packet_type b packet_size bus o = do
    port ← read bus_to_unique_port_map bus
    ok (true, record o { destination = u16 port; data_offset = 0; data_size = packet_size })
