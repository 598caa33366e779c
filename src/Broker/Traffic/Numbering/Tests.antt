-- ===== src/Broker/Traffic/Numbering/Tests.antt =====
-- Two requests of a broker that was started, with a callback registered between them.
use taste_runtime_common.Common.{◌≡◌, refl, arith, true, List, [], ◌∷◌}
use taste_runtime_common.Memory.{ok, Result, load, store, or_store, memset, read}
use taste_runtime_common.Crc16.{calculate_crc16, crc_loop, crc16, table}
use taste_runtime_common.PacketizerTable.{header_size_of}
use taste_runtime_common.Packetizer.{
  packetize, write_packet_id, write_packet_sequence_control, write_packet_data_length, write_crc,
  write_sender_pid, next_sequence_count, init,
}
use taste_runtime_common.SystemSpec.{cfg_default}
use taste_runtime_common.Broker.{
  Broker, Effect, initialize, initialize_loop, initialize_bus, deliver_request,
  register_error_callback, table_entry, packetizer_of, memcpy, slice, call,
}
use taste_runtime_common.Broker.Carrier.{sent_bytes}
use taste_runtime_common.Broker.Delivery.{Leads}
use taste_runtime_common.Broker.Traffic.{initialized, here, next, at_start}
use taste_runtime_common.Broker.Traffic.Numbering.{
  Run, stop, sends, registers, IsNumbered, IsSendable, IsSendable-of_partition, Run-IsNumbered,
}
use taste_runtime_common.Broker.Tests.{node, message, broker_of, effects_of}
use taste_runtime_common.Broker.Traffic.Tests.{node-AllOwn, starting, started, started_is}

pub leads_from : (broker : Broker) → broker.functions_set ≡ true → Leads node broker cfg_default 1
unfolding read
leads_from broker set = record {
  bus = 1;
  private_data = 77;
  send_function = 1000;
  bus_is = refl;
  bus-lt = omega arith;
  cfg_is = refl;
  private_data_is = refl;
  send_function_is = refl;
  send_function_set = omega arith;
  initialized = set;
}

pub leads_from_bus :
    (broker : Broker) (set : broker.functions_set ≡ true) → (leads_from broker set).bus ≡ 1
unfolding leads_from
leads_from_bus broker set = refl

pub message-IsSendable : IsSendable node 32 1 message 4
message-IsSendable =
    IsSendable-of_partition node 1 message 4 (omega arith) (omega arith) (omega arith) (omega arith)
      (omega arith)

abbrev pub first : Result (Broker × List Effect)
first = deliver_request node started 1 9 message 4

abbrev registered : Broker
registered = register_error_callback (broker_of first) 900

abbrev second : Result (Broker × List Effect)
second = deliver_request node registered 1 9 message 4

pub first_is : first ≡ ok (broker_of first, effects_of first)
unfolding initialize initialize_loop initialize_bus init deliver_request table_entry packetizer_of
    memcpy slice call header_size_of read packetize write_packet_id write_packet_sequence_control
    write_packet_data_length write_sender_pid write_crc next_sequence_count memset load store
    or_store calculate_crc16 crc_loop crc16 table
first_is = refl

second_is : second ≡ ok (broker_of second, effects_of second)
unfolding initialize initialize_loop initialize_bus init deliver_request table_entry packetizer_of
    memcpy slice call header_size_of read packetize write_packet_id write_packet_sequence_control
    write_packet_data_length write_sender_pid write_crc next_sequence_count memset load store
    or_store calculate_crc16 crc_loop crc16 table register_error_callback
second_is = refl

set_in_started : started.functions_set ≡ true
unfolding initialize initialize_loop initialize_bus table_entry packetizer_of read init
set_in_started = refl

set_in_registered : registered.functions_set ≡ true
unfolding initialize initialize_loop initialize_bus init deliver_request table_entry packetizer_of
    memcpy slice call header_size_of read packetize write_packet_id write_packet_sequence_control
    write_packet_data_length write_sender_pid write_crc next_sequence_count memset load store
    or_store calculate_crc16 crc_loop crc16 table register_error_callback
set_in_registered = refl

two_requests :
    Run node 32 1
      (broker_of second)
      started
      (sent_bytes (effects_of first) ∷ sent_bytes (effects_of second) ∷ [])
two_requests =
    sends started (broker_of first) 1 9 message 4 (effects_of first) (sent_bytes (effects_of first))
      (sent_bytes (effects_of second) ∷ []) (leads_from started set_in_started)
      (leads_from_bus started set_in_started) message-IsSendable first_is refl
      (registers (broker_of first) 900 (sent_bytes (effects_of second) ∷ []) (
        sends registered (broker_of second) 1 9 message 4 (effects_of second)
          (sent_bytes (effects_of second)) [] (leads_from registered set_in_registered)
          (leads_from_bus registered set_in_registered) message-IsSendable second_is refl stop))

Run-IsNumbered_example :
    IsNumbered node 32 1
      (started.packetizers_data 1).packet_sequence_count
      (broker_of second)
      (sent_bytes (effects_of first) ∷ sent_bytes (effects_of second) ∷ [])
Run-IsNumbered_example =
    Run-IsNumbered node 32 1 node-AllOwn
      (next here (initialized (at_start 32) started (1 ∷ 0 ∷ []) (effects_of starting) started_is))
      two_requests
