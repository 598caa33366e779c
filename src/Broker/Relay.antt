-- ===== src/Broker/Relay.antt =====
-- The path of a message from an interface of one node to that of another, over a bus with any of the
-- library's own packetizers.
pub mod Tests
use taste_runtime_common.Common.{ℕ, ◌+◌, ◌≤◌, ◌<◌, ◌≡◌, refl, arith, length as count}
use taste_runtime_common.Common.{Bool, true, false}
use taste_runtime_common.Memory.{ok, Returns, Buffer, read, window}
use taste_runtime_common.SpacePacket.{type_code}
use taste_runtime_common.SystemSpec.{
  System, PacketizerCfg, cfg_default, cfg_ccsds, cfg_strict_ccsds, cfg_thin, cfg_device_provided,
  cfg_passthrough,
}
use taste_runtime_common.PacketizerTable.{functions, header_size_of}
use taste_runtime_common.Packetizer.Verdict.{IsBytes}
use taste_runtime_common.Broker.{Broker, receive_packet, deliver_request}
use taste_runtime_common.Broker.Delivery.{Leads}
use taste_runtime_common.Broker.Reception.{Listens}
use taste_runtime_common.Broker.Carrier.{Carrier, SentOnce, DeliveredOnce, sent_by}
use taste_runtime_common.Broker.Carrier.Path.{CanCarry, deliver_request-Reaches}
use taste_runtime_common.Broker.Carrier.Default.{default_carrier, ccsds_default_carrier}
use taste_runtime_common.Broker.Carrier.Ccsds.{ccsds_carrier}
use taste_runtime_common.Broker.Carrier.Thin.{thin_carrier}
use taste_runtime_common.Broker.Carrier.Passthrough.{passthrough_carrier}

-- Not the packetizer that a device brings along.
abbrev pub is_own : PacketizerCfg → Bool
is_own cfg_device_provided = false
is_own cfg_default = true
is_own cfg_ccsds = true
is_own cfg_strict_ccsds = true
is_own cfg_thin = true
is_own cfg_passthrough = true

-- How many bytes its header has.
abbrev pub header_bytes : PacketizerCfg → ℕ
header_bytes cfg_default = 8
header_bytes cfg_ccsds = 8
header_bytes cfg_strict_ccsds = 6
header_bytes cfg_thin = 4
header_bytes cfg_passthrough = 0
header_bytes cfg_device_provided = 0

header_size_of_own :
    (s : System) (cfg : PacketizerCfg) (bus : ℕ)
    → is_own cfg ≡ true
    → header_size_of s cfg bus (functions s cfg) ≡ header_bytes cfg
unfolding header_size_of
header_size_of_own s cfg_default bus own = refl
header_size_of_own s cfg_ccsds bus own = refl
header_size_of_own s cfg_strict_ccsds bus own = refl
header_size_of_own s cfg_thin bus own = refl
header_size_of_own s cfg_passthrough bus own = refl
header_size_of_own s cfg_device_provided bus own = absurd cc

pub device-is_own : is_own cfg_device_provided ≡ true → ⊥
device-is_own own = cc

module _ (s r : System) (bus : ℕ) (wide : 4294967296 ≤ r.size_mod)
    (type : type_code s.send_type ≡ type_code r.expect_type) where
  abbrev pub carrier_of :
      (cfg : PacketizerCfg)
      → is_own cfg ≡ true
      → Carrier s r (functions s cfg) (functions r cfg) (header_bytes cfg) bus
  carrier_of cfg_default own = default_carrier s r bus wide type
  carrier_of cfg_ccsds own = ccsds_default_carrier s r bus wide type
  carrier_of cfg_strict_ccsds own = ccsds_carrier s r bus wide type
  carrier_of cfg_thin own = thin_carrier s r bus wide
  carrier_of cfg_passthrough own = passthrough_carrier s r bus
  carrier_of cfg_device_provided own = absurd (device-is_own own)

  -- A request of an initialized broker to an interface that leads to a bus with a driver, and with a
  -- packetizer of the library's own, that of the bus in the receiving node as well; the message with
  -- its header fits the broker's buffer, and is such that the packetizer carries it. Then
  -- Broker_deliver_request returns, without an access out of bounds, and between the calls of the lock
  -- the driver's send function is called once. A buffer of bytes of another node that starts with the
  -- bytes that the driver was given, received by an initialized broker that expects packets of the
  -- sender's type and knows the interface: Broker_receive_packet returns, without an access out of
  -- bounds, has delivered to the interface, once and between the calls of the lock, the message, and
  -- leaves its broker as it was. The receiver's size_t has 32 bits or more.
  pub relay-Reaches :
      (cfg : PacketizerCfg) (own : is_own cfg ≡ true) (broker receiver : Broker)
      (interface sender_pid function : ℕ) (message packet : Buffer) (length : ℕ)
      (leads : Leads s broker cfg interface)
      → CanCarry s r cfg cfg
          (header_bytes cfg)
          bus
          (carrier_of cfg own)
          broker
          leads.bus
          interface
          sender_pid
          message
          length
      → Listens r receiver cfg bus
      → read r.interface_to_deliver_function interface ≡ ok function
      → 1 ≤ function
      → IsBytes packet
      → count (sent_by (deliver_request s broker interface sender_pid message length)) ≤ packet.size
      → packet.size < r.size_mod
      → window packet.byte 0
          (count (sent_by (deliver_request s broker interface sender_pid message length)))
        ≡ sent_by (deliver_request s broker interface sender_pid message length)
      → Returns
          (SentOnce leads.send_function leads.private_data)
          (deliver_request s broker interface sender_pid message length)
        × Returns (DeliveredOnce r receiver function (window message.byte 0 length)) (
            receive_packet r receiver bus packet
              (count (sent_by (deliver_request s broker interface sender_pid message length))))
  relay-Reaches cfg own broker receiver interface sender_pid function message packet length leads
        can listens found set bytes room fits copy =
      deliver_request-Reaches s r cfg cfg (header_bytes cfg) bus (carrier_of cfg own) broker
        receiver interface sender_pid function message packet length leads
        (header_size_of_own s cfg leads.bus own) can listens found set bytes room fits copy
