-- ===== src/Broker/SerialLink/Tests.antt =====
-- Two messages over a byte stream, with the thin packetizer.
use taste_runtime_common.Common.{ℕ, zero, suc, ◌≡◌, refl, arith, true, false, List, [], ◌∷◌}
use taste_runtime_common.Memory.{ok, Result, Returns, read, memset, load, store, or_store}
use taste_runtime_common.SystemSpec.{cfg_thin}
use taste_runtime_common.PacketizerTable.{header_size_of}
use taste_runtime_common.ThinPacketizer.{packetize, write_packet_id, write_packet_data_length}
use taste_runtime_common.Escaper.{Escaper, wait}
use taste_runtime_common.Broker.{
  Broker, Effect, deliver_request, table_entry, packetizer_of, memcpy, slice, call,
}
use taste_runtime_common.Broker.Delivery.{Leads}
use taste_runtime_common.Broker.Carrier.{sent_bytes}
use taste_runtime_common.Broker.Carrier.Path.{CanCarry}
use taste_runtime_common.Broker.Relay.{carrier_of}
use taste_runtime_common.Broker.Steady.{AllOwn}
use taste_runtime_common.Broker.Callback.{Job}
use taste_runtime_common.Broker.SerialLink.{
  Sends, stop, sends, transfer, Transferred, transfer-Transferred,
}
use taste_runtime_common.Broker.Tests.{broker, message, broker_of, effects_of}
use taste_runtime_common.Broker.Relay.Tests.{
  thin_node, thin_node-Listens, deliver_function_is, delivered,
}

abbrev escaper : Escaper
escaper = record {
  parse_state = wait;
  encode_started = false;
  escape = false;
  encode_finished = false;
  encoded_buffer = record { size = 3; byte = λ j. 0 };
  encoded_max_size = 3;
  decoded_buffer = record { size = 32; byte = λ j. 0 };
  decoded_max_size = 32;
  decoded_index = 0;
}

abbrev job : Job
job = record { interface = 1; sender_pid = 9; function = 501; message = message; length = 4 }

thin_node-AllOwn : AllOwn thin_node
unfolding read
thin_node-AllOwn zero = refl
thin_node-AllOwn (suc zero) = refl
thin_node-AllOwn (suc (suc bus)) = tt

leads_from : (b : Broker) → b.functions_set ≡ true → Leads thin_node b cfg_thin 1
unfolding read
leads_from b set = record {
  bus = 1;
  private_data = 77;
  send_function = 1000;
  bus_is = refl;
  bus-lt = omega arith;
  cfg_is = refl;
  private_data_is = refl;
  send_function_is = refl;
  send_function_set = omega arith;
  initialized = set;
}

message-CanCarry :
    (b : Broker)
    → b.packetizer_buffer.size ≡ 32
    → CanCarry thin_node thin_node cfg_thin cfg_thin 4 1
        (carrier_of thin_node thin_node 1 (omega arith) refl cfg_thin refl)
        b
        1
        1
        9
        message
        4
message-CanCarry b size = record {
  interface-lt = omega arith;
  message_owned = omega arith;
  room = omega arith;
  admits = record {
    can = record {
      destination_in_range = omega arith;
      some_data = omega arith;
      size_in_range = omega arith;
      room = omega arith;
      size_fits = omega arith;
    };
    short = omega arith;
    read_back = refl;
  };
}

abbrev again : Result (Broker × List Effect)
again = deliver_request thin_node (broker_of delivered) 1 9 message 4

delivered_is : delivered ≡ ok (broker_of delivered, effects_of delivered)
unfolding deliver_request table_entry packetizer_of memcpy slice call header_size_of read packetize
    write_packet_id write_packet_data_length memset load store or_store
delivered_is = refl

again_is : again ≡ ok (broker_of again, effects_of again)
unfolding deliver_request table_entry packetizer_of memcpy slice call header_size_of read packetize
    write_packet_id write_packet_data_length memset load store or_store
again_is = refl

delivered_set : (broker_of delivered).functions_set ≡ true
unfolding deliver_request table_entry packetizer_of memcpy slice call header_size_of read packetize
    write_packet_id write_packet_data_length memset load store or_store
delivered_set = refl

delivered_size : (broker_of delivered).packetizer_buffer.size ≡ 32
unfolding deliver_request table_entry packetizer_of memcpy slice call header_size_of read packetize
    write_packet_id write_packet_data_length memset load store or_store
delivered_size = refl

delivered_bytes : sent_bytes (effects_of delivered) ≡ 0 ∷ 1 ∷ 0 ∷ 3 ∷ 65 ∷ 65 ∷ 65 ∷ 65 ∷ []
unfolding deliver_request table_entry packetizer_of memcpy slice call header_size_of read packetize
    write_packet_id write_packet_data_length memset load store or_store
delivered_bytes = refl

again_bytes : sent_bytes (effects_of again) ≡ 0 ∷ 1 ∷ 0 ∷ 3 ∷ 65 ∷ 65 ∷ 65 ∷ 65 ∷ []
unfolding deliver_request table_entry packetizer_of memcpy slice call header_size_of read packetize
    write_packet_id write_packet_data_length memset load store or_store
again_bytes = refl

abbrev packet : List ℕ
packet = 0 ∷ 1 ∷ 0 ∷ 3 ∷ 65 ∷ 65 ∷ 65 ∷ 65 ∷ []

two_jobs :
    Sends thin_node thin_node 1
      (omega arith)
      refl
      cfg_thin
      refl
      broker
      (job ∷ job ∷ [])
      (packet ∷ packet ∷ [])
unfolding leads_from
two_jobs =
    sends broker (broker_of delivered) job (job ∷ []) (effects_of delivered) packet (packet ∷ [])
      (leads_from broker refl) (message-CanCarry broker refl) (λ j. omega arith) delivered_is
      delivered_bytes
      (sends (broker_of delivered) (broker_of again) job [] (effects_of again) packet []
        (leads_from (broker_of delivered) delivered_set)
        (message-CanCarry (broker_of delivered) delivered_size) (λ j. omega arith) again_is
        again_bytes (stop (broker_of again)))

transfer-Transferred_example :
    Returns
      (Transferred thin_node 32 broker (job ∷ job ∷ []))
      (transfer thin_node 1 escaper escaper broker (packet ∷ packet ∷ []))
transfer-Transferred_example =
    transfer-Transferred thin_node thin_node 1 (omega arith) refl cfg_thin refl broker broker
      escaper escaper (job ∷ job ∷ []) (packet ∷ packet ∷ []) thin_node-AllOwn (λ j. omega arith)
      two_jobs (record { two_bytes = omega arith; max_in_buffer = omega arith })
      (record {
        idle = record { waits = refl; nothing_held = refl };
        max_is = refl;
        max_in_buffer = omega arith;
      })
      (omega arith, (omega arith, tt)) (omega arith) thin_node-Listens
      (deliver_function_is, omega arith, (deliver_function_is, omega arith, tt))
