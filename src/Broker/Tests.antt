-- ===== src/Broker/Tests.antt =====
-- A system of two nodes, and a message from one to the other.
use taste_runtime_common.Common.{
  ℕ, zero, suc, ◌%◌, ◌<◌, ◌≡◌, refl, arith, true, none, List, [], ◌∷◌, ◌++◌,
}
use taste_runtime_common.Memory.{
  Result, ok, Returns, Buffer, read, window, memset, load, store, or_store,
}
use taste_runtime_common.Crc16.{calculate_crc16, crc_loop, crc16, table}
use taste_runtime_common.PacketizerTable.{header_size_of}
use taste_runtime_common.Packetizer.{
  packetize, write_packet_id, write_packet_sequence_control, write_packet_data_length, write_crc,
  write_sender_pid, next_sequence_count,
}
use taste_runtime_common.SpacePacket.{telemetry}
use taste_runtime_common.SystemSpec.{System, cfg_default}
use taste_runtime_common.Broker.{
  Broker, Effect, acquire_lock, release_lock, deliver_request, receive_packet, table_entry,
  packetizer_of, memcpy, slice, call,
}
use taste_runtime_common.Broker.Delivery.{Leads, CanSend, IsSent, header_of, deliver_request-IsSent}
use taste_runtime_common.Broker.Reception.{Listens, Arrives, deliver_request-receive_packet}
use taste_runtime_common.Broker.Outcome.{Knows, handled, receive_packet-eq-handled}

abbrev pub node : System
node = record {
  size_mod = 4294967296;
  send_type = telemetry;
  expect_type = telemetry;
  passes_sender_pid = true;
  system_buses_number = 2;
  bus_invalid_id = 0;
  interface_invalid_id = 0;
  generic_partition_buffer_size = 20;
  port_to_bus_map = 0 ∷ 1 ∷ [];
  bus_to_packetizer_cfg = cfg_default ∷ cfg_default ∷ [];
  bus_to_driver_private_data = 0 ∷ 77 ∷ [];
  bus_to_driver_send_function = 0 ∷ 1000 ∷ [];
  interface_to_deliver_function = 500 ∷ 501 ∷ [];
  bus_to_unique_port_map = 0 ∷ 0 ∷ [];
  bus_has_any_destination_port = 0 ∷ 0 ∷ [];
  device_header_size = λ bus. 0;
  device_init = λ bus. none;
  device_packetize = λ bus. none;
  device_depacketize = λ bus. none;
}

abbrev pub broker : Broker
broker = record {
  packetizers_data = λ bus. record { packet_sequence_count = 5 };
  functions_set = true;
  error_callback = 900;
  packetizer_buffer = record { size = 32; byte = λ j. 0 };
}

abbrev pub message : Buffer
message = record { size = 4; byte = λ j. 65 }

node-Leads : Leads node broker cfg_default 1
unfolding read
node-Leads = record {
  bus = 1;
  private_data = 77;
  send_function = 1000;
  bus_is = refl;
  bus-lt = omega arith;
  cfg_is = refl;
  private_data_is = refl;
  send_function_is = refl;
  send_function_set = omega arith;
  initialized = refl;
}

message-CanSend : CanSend node broker 1 1 message 4
message-CanSend = record {
  interface_in_range = omega arith;
  count_in_range = omega arith;
  message_owned = omega arith;
  room = omega arith;
  buffer_fits = omega arith;
  length-lt = omega arith;
}

node-Listens : Listens node broker cfg_default 1
unfolding read
node-Listens = record {
  wide = omega arith;
  initialized = refl;
  bus-lt = omega arith;
  cfg_is = refl;
}

deliver_request-IsSent_example :
    Returns
      (λ (broker', effects).
        IsSent (header_of node broker 1 1 9 4) 1000 77 1 broker message 4 broker' effects)
      (deliver_request node broker 1 9 message 4)
unfolding node-Leads
deliver_request-IsSent_example =
    deliver_request-IsSent node broker 1 9 message 4 node-Leads message-CanSend

-- What the first node does, and the packet as the other one receives it.
abbrev pub broker_of : Result (Broker × List Effect) → Broker
broker_of (ok (broker', effects)) = broker'
broker_of _ = broker

abbrev pub effects_of : Result (Broker × List Effect) → List Effect
effects_of (ok (broker', effects)) = effects
effects_of _ = []

abbrev delivered : Result (Broker × List Effect)
delivered = deliver_request node broker 1 9 message 4

abbrev received : Buffer
received = record { size = 32; byte = λ j. (broker_of delivered).packetizer_buffer.byte j % 256 }

delivered_is_ok : delivered ≡ ok (broker_of delivered, effects_of delivered)
unfolding deliver_request table_entry packetizer_of memcpy slice call header_size_of read packetize
    write_packet_id write_packet_sequence_control write_packet_data_length write_crc
    write_sender_pid next_sequence_count memset load store or_store calculate_crc16 crc_loop crc16
    table
delivered_is_ok = refl

received_is_sent :
    window received.byte 0 16 ≡ window (broker_of delivered).packetizer_buffer.byte 0 16
unfolding deliver_request table_entry packetizer_of memcpy slice call header_size_of read packetize
    write_packet_id write_packet_sequence_control write_packet_data_length write_crc
    write_sender_pid next_sequence_count memset load store or_store calculate_crc16 crc_loop crc16
    table
received_is_sent = refl

deliver_function_is : read node.interface_to_deliver_function 1 ≡ ok 501
unfolding read
deliver_function_is = refl

deliver_request-receive_packet_example :
    Arrives node node broker 501 1000 77 1 9 message received 4
      (effects_of delivered)
      (receive_packet node broker 1 received 16)
unfolding node-Leads
deliver_request-receive_packet_example =
    deliver_request-receive_packet node node broker (broker_of delivered) broker
      (effects_of delivered) 1 9 501 1 message received 4 node-Leads message-CanSend node-Listens
      refl deliver_function_is (omega arith) (λ j. omega arith) (omega arith) (omega arith)
      delivered_is_ok received_is_sent

-- A node that knows all interfaces.
pub repeated : ℕ → List ℕ
repeated zero = []
repeated (suc n) = 500 ∷ repeated n

pub read-repeated : (n i : ℕ) → i < n → read (repeated n) i ≡ ok 500
unfolding repeated read
read-repeated zero i below = absurd (omega arith)
read-repeated (suc n) zero below = refl
read-repeated (suc n) (suc i) below = read-repeated n i (omega arith)

abbrev full_node : System
full_node = record node { interface_to_deliver_function = repeated 2048 }

full_node-Knows : Knows full_node
full_node-Knows = record {
  function = λ destination. 500;
  is_read = λ destination small. read-repeated 2048 destination (omega arith);
  is_set = λ destination small. omega arith;
}

full_node-Listens : Listens full_node broker cfg_default 1
unfolding read
full_node-Listens = record {
  wide = omega arith;
  initialized = refl;
  bus-lt = omega arith;
  cfg_is = refl;
}

receive_packet-eq-handled_example :
    (sum : ℕ) × (calculate_crc16 received 12 ≡ ok sum)
    × (receive_packet full_node broker 1 received 16
        ≡ ok (
          broker,
          acquire_lock
              ∷ (handled full_node full_node-Knows 900 sum received 16 ++ (release_lock ∷ [])),
        ))
receive_packet-eq-handled_example =
    receive_packet-eq-handled full_node full_node-Knows broker 1 received 16 full_node-Listens
      (λ j. omega arith) (omega arith) (omega arith)
