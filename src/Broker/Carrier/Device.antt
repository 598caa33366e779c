-- ===== src/Broker/Carrier/Device.antt =====
-- A packetizer that a device brings along, behind src/Packetizer/DeviceProvidedPacketizer.c, carries
-- messages if the device's own functions do.
mod Tests
use taste_runtime_common.Common.{ℕ, ◌≤◌, ◌<◌, ◌≡◌, ap, arith, some, length as count}
use taste_runtime_common.Memory.{ok, Returns, Buffer, read, window}
use taste_runtime_common.SpacePacket.{Packetizer, Packetized, Outputs, PacketizerFunctions}
use taste_runtime_common.SystemSpec.{System, cfg_device_provided}
use taste_runtime_common.PacketizerTable.{functions, header_size_of}
use taste_runtime_common.Packetizer.Verdict.{IsBytes}
use taste_runtime_common.DeviceProvidedPacketizer.{
  packetize, depacketize, call_packetize, call_depacketize,
}
use taste_runtime_common.Broker.{Broker, receive_packet, deliver_request}
use taste_runtime_common.Broker.Delivery.{Leads}
use taste_runtime_common.Broker.Reception.{Listens}
use taste_runtime_common.Broker.Carrier.{Arrived, Opened, Carrier, SentOnce, DeliveredOnce, sent_by}
use taste_runtime_common.Broker.Carrier.Path.{CanCarry, deliver_request-Reaches}

-- The device's library gives the sender the packetize function of `f` for the bus `from`, and the
-- receiver the depacketize function of `g` for `bus`. For other buses it may give other ones, or NULL.
pub record Provides (s r : System) (f g : PacketizerFunctions) (from bus : ℕ) : Type 0 where
  pub sender : s.device_packetize from ≡ some f.packetize
  pub receiver : r.device_depacketize bus ≡ some g.depacketize

-- What the sender has to respect: the bus is the one that the function is for, and the function carries
-- the message.
pub record Admits (s r : System) (f g : PacketizerFunctions) (header from bus : ℕ)
    (device : Carrier s r f g header bus) (p : Packetizer) (bus' source destination : ℕ)
    (b : Buffer) (length : ℕ) : Type 0 where
  pub on_bus : bus' ≡ from
  pub carried : device.Admits p bus' source destination b length

module _ (s r : System) (f g : PacketizerFunctions) (header from bus : ℕ)
    (given : Provides s r f g from bus) (device : Carrier s r f g header bus) where
  pub packetizes :
      (p : Packetizer) (bus' source destination : ℕ) (b : Buffer) (length : ℕ)
      → Admits s r f g header from bus device p bus' source destination b length
      → Returns (device.Made p source destination b length) (
          (functions s cfg_device_provided).packetize p s.send_type bus' source destination b header
            length)
  unfolding packetize call_packetize
  packetizes p bus' source destination b length admitted =
      rw (ap s.device_packetize admitted.on_bus, given.sender)
        (device.packetizes p bus' source destination b length admitted.carried)

  pub opens :
      (p p' : Packetizer) (source destination : ℕ) (b : Buffer) (length : ℕ) (q : Packetized)
      (c : Buffer) (o : Outputs)
      → device.Made p source destination b length q
      → Arrived r.size_mod q c
      → Returns
          (λ (accepted, o'). Opened destination b header length c accepted o')
          ((functions r cfg_device_provided).depacketize p' r.expect_type c q.size bus o)
  unfolding depacketize call_depacketize
  opens p p' source destination b length q c o made arrived =
      rw given.receiver (device.opens p p' source destination b length q c o made arrived)

  abbrev pub device_carrier :
      Carrier s r (functions s cfg_device_provided) (functions r cfg_device_provided) header bus
  device_carrier = record {
    Admits = Admits s r f g header from bus device;
    Made = device.Made;
    packetizes = packetizes;
    owned = device.owned;
    opens = opens;
  }

  -- A request of an initialized broker to an interface of 16 bits that leads to a bus with a driver
  -- and with PACKETIZER_DEVICE_PROVIDED, that of the bus in the receiving node as well. The device's
  -- library gives the sender a packetize function for its bus, and the receiver a depacketize function
  -- for its own. Of these two functions it is assumed that they carry messages behind a header of the
  -- size that getDeviceProvidedPacketizerHeaderSize says: packetize returns a packet inside the
  -- buffer, for each message that it admits, and depacketize accepts a buffer that starts with it,
  -- with the destination and the message. The message is one that the functions admit, and with its
  -- header it fits the broker's buffer. Then Broker_deliver_request returns, without an access out of
  -- bounds, and between the calls of the lock the driver's send function is called once. A buffer of
  -- bytes of another node that starts with the bytes that the driver was given, received by an
  -- initialized broker that knows the interface, with a size_t of 32 bits or more:
  -- Broker_receive_packet returns, without an access out of bounds, has delivered to the interface,
  -- once and between the calls of the lock, the message, and leaves its broker as it was.
  pub device_relay-Reaches :
      (broker receiver : Broker) (interface sender_pid function : ℕ) (message packet : Buffer)
      (length : ℕ) (leads : Leads s broker cfg_device_provided interface)
      → s.device_header_size leads.bus ≡ header
      → CanCarry s r cfg_device_provided cfg_device_provided header bus device_carrier broker
          leads.bus interface sender_pid message length
      → Listens r receiver cfg_device_provided bus
      → read r.interface_to_deliver_function interface ≡ ok function
      → 1 ≤ function
      → IsBytes packet
      → count (sent_by (deliver_request s broker interface sender_pid message length)) ≤ packet.size
      → packet.size < r.size_mod
      → window packet.byte 0
          (count (sent_by (deliver_request s broker interface sender_pid message length)))
        ≡ sent_by (deliver_request s broker interface sender_pid message length)
      → Returns
          (SentOnce leads.send_function leads.private_data)
          (deliver_request s broker interface sender_pid message length)
        × Returns (DeliveredOnce r receiver function (window message.byte 0 length)) (
            receive_packet r receiver bus packet
              (count (sent_by (deliver_request s broker interface sender_pid message length))))
  unfolding header_size_of
  device_relay-Reaches broker receiver interface sender_pid function message packet length leads
        header_is can listens found set bytes room fits copy =
      deliver_request-Reaches s r cfg_device_provided cfg_device_provided header bus device_carrier
        broker receiver interface sender_pid function message packet length leads header_is can
        listens found set bytes room fits copy
