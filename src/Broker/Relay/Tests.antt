-- ===== src/Broker/Relay/Tests.antt =====
-- A message over a bus with the thin packetizer.
use taste_runtime_common.Common.{◌%◌, ◌≡◌, refl, arith, List, [], ◌∷◌, length as count}
use taste_runtime_common.Memory.{
  ok, Result, Returns, Buffer, read, window, memset, load, store, or_store,
}
use taste_runtime_common.SystemSpec.{System, cfg_thin}
use taste_runtime_common.PacketizerTable.{header_size_of}
use taste_runtime_common.ThinPacketizer.{packetize, write_packet_id, write_packet_data_length}
use taste_runtime_common.Broker.{
  Broker, Effect, deliver_request, receive_packet, table_entry, packetizer_of, memcpy, slice, call,
}
use taste_runtime_common.Broker.Delivery.{Leads}
use taste_runtime_common.Broker.Reception.{Listens}
use taste_runtime_common.Broker.Carrier.{SentOnce, DeliveredOnce, sent_by}
use taste_runtime_common.Broker.Carrier.Path.{CanCarry}
use taste_runtime_common.Broker.Relay.{carrier_of, relay-Reaches}
use taste_runtime_common.Broker.Tests.{node, broker, message, broker_of}

abbrev pub thin_node : System
thin_node = record node { bus_to_packetizer_cfg = cfg_thin ∷ cfg_thin ∷ [] }

thin_node-Leads : Leads thin_node broker cfg_thin 1
unfolding read
thin_node-Leads = record {
  bus = 1;
  private_data = 77;
  send_function = 1000;
  bus_is = refl;
  bus-lt = omega arith;
  cfg_is = refl;
  private_data_is = refl;
  send_function_is = refl;
  send_function_set = omega arith;
  initialized = refl;
}

pub thin_node-Listens : Listens thin_node broker cfg_thin 1
unfolding read
thin_node-Listens = record {
  wide = omega arith;
  initialized = refl;
  bus-lt = omega arith;
  cfg_is = refl;
}

message-CanCarry :
    CanCarry thin_node thin_node cfg_thin cfg_thin 4 1
      (carrier_of thin_node thin_node 1 (omega arith) refl cfg_thin refl)
      broker
      1
      1
      9
      message
      4
message-CanCarry = record {
  interface-lt = omega arith;
  message_owned = omega arith;
  room = omega arith;
  admits = record {
    can = record {
      destination_in_range = omega arith;
      some_data = omega arith;
      size_in_range = omega arith;
      room = omega arith;
      size_fits = omega arith;
    };
    short = omega arith;
    read_back = refl;
  };
}

abbrev pub delivered : Result (Broker × List Effect)
delivered = deliver_request thin_node broker 1 9 message 4

abbrev arrived : Buffer
arrived = record { size = 32; byte = λ j. (broker_of delivered).packetizer_buffer.byte j % 256 }

sent_is : sent_by delivered ≡ 0 ∷ 1 ∷ 0 ∷ 3 ∷ 65 ∷ 65 ∷ 65 ∷ 65 ∷ []
unfolding deliver_request table_entry packetizer_of memcpy slice call header_size_of read packetize
    write_packet_id write_packet_data_length memset load store or_store
sent_is = refl

pub deliver_function_is : read thin_node.interface_to_deliver_function 1 ≡ ok 501
unfolding read
deliver_function_is = refl

arrived_is_sent : window arrived.byte 0 (count (sent_by delivered)) ≡ sent_by delivered
unfolding deliver_request table_entry packetizer_of memcpy slice call header_size_of read packetize
    write_packet_id write_packet_data_length memset load store or_store
arrived_is_sent = refl

relay-Reaches_example :
    Returns (SentOnce 1000 77) delivered
    × Returns
        (DeliveredOnce thin_node broker 501 (window message.byte 0 4))
        (receive_packet thin_node broker 1 arrived (count (sent_by delivered)))
unfolding thin_node-Leads
relay-Reaches_example =
    relay-Reaches thin_node thin_node 1 (omega arith) refl cfg_thin refl broker broker 1 9 501
      message arrived 4 thin_node-Leads message-CanCarry thin_node-Listens deliver_function_is
      (omega arith) (λ j. omega arith) (rw sent_is (omega arith)) (omega arith) arrived_is_sent
