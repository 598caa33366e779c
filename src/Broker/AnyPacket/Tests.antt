-- ===== src/Broker/AnyPacket/Tests.antt =====
-- Four bytes that arrive on a bus with the CCSDS packetizer.
use taste_runtime_common.Common.{refl, arith, [], ◌∷◌}
use taste_runtime_common.Memory.{Returns, read}
use taste_runtime_common.SystemSpec.{System, cfg_strict_ccsds}
use taste_runtime_common.Broker.{receive_packet}
use taste_runtime_common.Broker.Reception.{Listens}
use taste_runtime_common.Broker.AnyPacket.{KnowsAll, IsAnswered, receive_packet-IsAnswered}
use taste_runtime_common.Broker.Tests.{node, broker, message, repeated, read-repeated}

abbrev ccsds_node : System
ccsds_node = record node {
  bus_to_packetizer_cfg = cfg_strict_ccsds ∷ cfg_strict_ccsds ∷ [];
  interface_to_deliver_function = repeated 65536;
}

ccsds_node-KnowsAll : KnowsAll ccsds_node 1
unfolding read
ccsds_node-KnowsAll = record {
  function = λ destination. 500;
  is_read = λ destination small. read-repeated 65536 destination small;
  is_set = λ destination small. omega arith;
  port = 0;
  port_is = refl;
}

ccsds_node-Listens : Listens ccsds_node broker cfg_strict_ccsds 1
unfolding read
ccsds_node-Listens = record {
  wide = omega arith;
  initialized = refl;
  bus-lt = omega arith;
  cfg_is = refl;
}

receive_packet-IsAnswered_example :
    Returns
      (λ (broker', effects).
        IsAnswered ccsds_node 1 ccsds_node-KnowsAll broker message 4 broker' effects)
      (receive_packet ccsds_node broker 1 message 4)
receive_packet-IsAnswered_example =
    receive_packet-IsAnswered ccsds_node cfg_strict_ccsds broker 1 message 4 ccsds_node-KnowsAll
      refl ccsds_node-Listens (λ j. omega arith) (omega arith) (omega arith)
