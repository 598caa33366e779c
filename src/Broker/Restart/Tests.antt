-- ===== src/Broker/Restart/Tests.antt =====
-- A node that has sent a packet is initialized again, and sends one more.
use taste_runtime_common.Common.{◌≡◌, refl, arith, true, List, [], ◌∷◌}
use taste_runtime_common.Memory.{ok, Result, Returns, load, store, or_store, memset, read}
use taste_runtime_common.Crc16.{calculate_crc16, crc_loop, crc16, table}
use taste_runtime_common.PacketizerTable.{header_size_of}
use taste_runtime_common.Packetizer.{
  packetize, write_packet_id, write_packet_sequence_control, write_packet_data_length, write_crc,
  write_sender_pid, next_sequence_count, init,
}
use taste_runtime_common.SystemSpec.{cfg_default}
use taste_runtime_common.Broker.{
  Broker, Effect, initialize, initialize_loop, initialize_bus, deliver_request, table_entry,
  packetizer_of, memcpy, slice, call,
}
use taste_runtime_common.Broker.Carrier.{sent_bytes}
use taste_runtime_common.Broker.Traffic.{Reach, initialized, requested, here, next, at_start}
use taste_runtime_common.Broker.Traffic.Unchanged.{count_of}
use taste_runtime_common.Broker.Traffic.Numbering.{Run, stop, sends, IsNumbered}
use taste_runtime_common.Broker.Traffic.Numbering.Tests.{
  leads_from, leads_from_bus, message-IsSendable, first, first_is,
}
use taste_runtime_common.Broker.Start.Tests.{node-IsConfigured}
use taste_runtime_common.Broker.Tests.{node, message, broker_of, effects_of}
use taste_runtime_common.Broker.Traffic.Tests.{node-AllOwn, starting, started, started_is}
use taste_runtime_common.Broker.Restart.{left_by, initialize-IsNumbered}

abbrev used : Broker
used = broker_of first

used-Reach : Reach node (at_start 32) used
used-Reach =
    next
      (next here (initialized (at_start 32) started (1 ∷ 0 ∷ []) (effects_of starting) started_is))
      (requested started used 1 9 message 4 (effects_of first) first_is)

abbrev restarted : Broker
restarted = left_by used (initialize node used (1 ∷ 0 ∷ []))

abbrev again : Result (Broker × List Effect)
again = deliver_request node restarted 1 9 message 4

-- The packet sent before the restart is counted.
used_count : count_of used 1 ≡ 1
unfolding initialize initialize_loop initialize_bus init deliver_request table_entry packetizer_of
    memcpy slice call header_size_of read packetize write_packet_id write_packet_sequence_control
    write_packet_data_length write_sender_pid write_crc next_sequence_count memset load store
    or_store calculate_crc16 crc_loop crc16 table
used_count = refl

again_is : again ≡ ok (broker_of again, effects_of again)
unfolding initialize initialize_loop initialize_bus init deliver_request table_entry packetizer_of
    memcpy slice call header_size_of read packetize write_packet_id write_packet_sequence_control
    write_packet_data_length write_sender_pid write_crc next_sequence_count memset load store
    or_store calculate_crc16 crc_loop crc16 table
again_is = refl

set_in_restarted : restarted.functions_set ≡ true
unfolding initialize initialize_loop initialize_bus init deliver_request table_entry packetizer_of
    memcpy slice call header_size_of read packetize write_packet_id write_packet_sequence_control
    write_packet_data_length write_sender_pid write_crc next_sequence_count memset load store
    or_store calculate_crc16 crc_loop crc16 table
set_in_restarted = refl

one_more : Run node 32 1 (broker_of again) restarted (sent_bytes (effects_of again) ∷ [])
one_more =
    sends restarted (broker_of again) 1 9 message 4 (effects_of again)
      (sent_bytes (effects_of again)) [] (leads_from restarted set_in_restarted)
      (leads_from_bus restarted set_in_restarted) message-IsSendable again_is refl stop

initialize-IsNumbered_example :
    Returns (λ (broker', effects). effects ≡ []) (initialize node used (1 ∷ 0 ∷ []))
    × IsNumbered node 32 1 0 (broker_of again) (sent_bytes (effects_of again) ∷ [])
initialize-IsNumbered_example =
    initialize-IsNumbered node (λ bus. cfg_default) node-IsConfigured node-AllOwn 32 1 used
      (broker_of again) (1 ∷ 0 ∷ []) (sent_bytes (effects_of again) ∷ []) used-Reach (omega arith)
      refl (omega arith) refl one_more
