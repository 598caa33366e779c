-- ===== src/Broker/Carrier/Device/Tests.antt =====
-- A device whose functions are those of the thin packetizer.
use taste_runtime_common.Common.{
  ◌%◌, ◌==◌, if◌then◌else◌, ◌≡◌, refl, arith, some, none, List, [], ◌∷◌, length as count,
}
use taste_runtime_common.Memory.{
  ok, Result, Returns, Buffer, read, window, memset, load, store, or_store,
}
use taste_runtime_common.SystemSpec.{System, cfg_thin, cfg_device_provided}
use taste_runtime_common.PacketizerTable.{functions, header_size_of}
use taste_runtime_common.ThinPacketizer.{packetize, write_packet_id, write_packet_data_length}
use taste_runtime_common.DeviceProvidedPacketizer as Device
use taste_runtime_common.Broker.{
  Broker, Effect, deliver_request, receive_packet, table_entry, packetizer_of, memcpy, slice, call,
}
use taste_runtime_common.Broker.Delivery.{Leads}
use taste_runtime_common.Broker.Reception.{Listens}
use taste_runtime_common.Broker.Carrier.{SentOnce, DeliveredOnce, sent_by}
use taste_runtime_common.Broker.Carrier.Path.{CanCarry}
use taste_runtime_common.Broker.Carrier.Thin.{thin_carrier}
use taste_runtime_common.Broker.Carrier.Device.{Provides, device_carrier, device_relay-Reaches}
use taste_runtime_common.Broker.Tests.{node, broker, message, broker_of}

abbrev device_node : System
device_node = record node {
  bus_to_packetizer_cfg = cfg_device_provided ∷ cfg_device_provided ∷ [];
  device_header_size = λ bus. 4;
  device_packetize = λ bus. if bus == 1 then some (functions node cfg_thin).packetize else none;
  device_depacketize = λ bus. if bus == 1 then some (functions node cfg_thin).depacketize else none;
}

device_node-Provides :
    Provides device_node device_node (functions node cfg_thin) (functions node cfg_thin) 1 1
device_node-Provides = record { sender = refl; receiver = refl }

device_node-Leads : Leads device_node broker cfg_device_provided 1
unfolding read
device_node-Leads = record {
  bus = 1;
  private_data = 77;
  send_function = 1000;
  bus_is = refl;
  bus-lt = omega arith;
  cfg_is = refl;
  private_data_is = refl;
  send_function_is = refl;
  send_function_set = omega arith;
  initialized = refl;
}

device_node-Listens : Listens device_node broker cfg_device_provided 1
unfolding read
device_node-Listens = record {
  wide = omega arith;
  initialized = refl;
  bus-lt = omega arith;
  cfg_is = refl;
}

message-CanCarry :
    CanCarry device_node device_node cfg_device_provided cfg_device_provided 4 1
      (device_carrier device_node device_node
        (functions node cfg_thin)
        (functions node cfg_thin)
        4
        1
        1
        device_node-Provides
        (thin_carrier device_node device_node 1 (omega arith)))
      broker
      1
      1
      9
      message
      4
message-CanCarry = record {
  interface-lt = omega arith;
  message_owned = omega arith;
  room = omega arith;
  admits = record {
    on_bus = refl;
    carried = record {
      can = record {
        destination_in_range = omega arith;
        some_data = omega arith;
        size_in_range = omega arith;
        room = omega arith;
        size_fits = omega arith;
      };
      short = omega arith;
      read_back = refl;
    };
  };
}

abbrev delivered : Result (Broker × List Effect)
delivered = deliver_request device_node broker 1 9 message 4

abbrev arrived : Buffer
arrived = record { size = 32; byte = λ j. (broker_of delivered).packetizer_buffer.byte j % 256 }

sent_is : sent_by delivered ≡ 0 ∷ 1 ∷ 0 ∷ 3 ∷ 65 ∷ 65 ∷ 65 ∷ 65 ∷ []
unfolding deliver_request table_entry packetizer_of memcpy slice call header_size_of read packetize
    write_packet_id write_packet_data_length memset load store or_store Device.packetize
    Device.call_packetize
sent_is = refl

deliver_function_is : read device_node.interface_to_deliver_function 1 ≡ ok 501
unfolding read
deliver_function_is = refl

arrived_is_sent : window arrived.byte 0 (count (sent_by delivered)) ≡ sent_by delivered
unfolding deliver_request table_entry packetizer_of memcpy slice call header_size_of read packetize
    write_packet_id write_packet_data_length memset load store or_store Device.packetize
    Device.call_packetize
arrived_is_sent = refl

device_relay-Reaches_example :
    Returns (SentOnce 1000 77) delivered
    × Returns
        (DeliveredOnce device_node broker 501 (window message.byte 0 4))
        (receive_packet device_node broker 1 arrived (count (sent_by delivered)))
unfolding device_node-Leads
device_relay-Reaches_example =
    device_relay-Reaches device_node device_node (functions node cfg_thin) (functions node cfg_thin)
      4 1 1 device_node-Provides (thin_carrier device_node device_node 1 (omega arith)) broker
      broker 1 9 501 message arrived 4 device_node-Leads refl message-CanCarry device_node-Listens
      deliver_function_is (omega arith) (λ j. omega arith) (rw sent_is (omega arith)) (omega arith)
      arrived_is_sent
