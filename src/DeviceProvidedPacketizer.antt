-- ===== src/DeviceProvidedPacketizer.antt =====
-- src/Packetizer/DeviceProvidedPacketizer.c: the packetizer that a device brings along.
-- The functions by which the device's library gives its own for a bus are parameters; NULL is `none`.
use taste_runtime_common.Common.{ℕ, false, Option, none, some, [], ◌∷◌, ◌++◌}
use taste_runtime_common.Memory.{ok, faulted, ◌>>=◌}
use taste_runtime_common.SpacePacket.{InitFunction, PacketizeFunction, DepacketizeFunction}

-- The call of an init function through its pointer, which is not compared with NULL.
unfoldable pub call_init : Option InitFunction → InitFunction
call_init none self bus = faulted
call_init (some f) self bus = f self bus

unfoldable pub call_packetize : Option PacketizeFunction → PacketizeFunction
call_packetize none self packet_type bus source destination b data_offset data_size =
    ok (record { packetizer = self; buffer = b; size = 0 })
call_packetize (some f) self packet_type bus source destination b data_offset data_size =
    f self packet_type bus source destination b data_offset data_size

unfoldable pub call_depacketize : Option DepacketizeFunction → DepacketizeFunction
call_depacketize none self packet_type b packet_size bus o = ok (false, o)
call_depacketize (some f) self packet_type b packet_size bus o =
    f self packet_type b packet_size bus o

module _ (get_init_function : ℕ → Option InitFunction)
    (get_packetize_function : ℕ → Option PacketizeFunction)
    (get_depacketize_function : ℕ → Option DepacketizeFunction) where
  unfoldable pub init : InitFunction
  init self bus = do
    i ← call_init (get_init_function bus) self bus
    ok (record i { device_calls = i.device_calls ++ ((bus, i.header_size_out) ∷ []) })

  unfoldable pub packetize : PacketizeFunction
  packetize self packet_type bus = call_packetize (get_packetize_function bus) self packet_type bus

  unfoldable pub depacketize : DepacketizeFunction
  depacketize self packet_type b packet_size bus =
      call_depacketize (get_depacketize_function bus) self packet_type b packet_size bus
