-- ===== src/Broker/Traffic/Tests.antt =====
-- A broker that was started, and a request.
use taste_runtime_common.Common.{zero, suc, ◌≡◌, refl, arith, List, [], ◌∷◌}
use taste_runtime_common.Memory.{ok, Result, Returns, read}
use taste_runtime_common.SystemSpec.{cfg_default}
use taste_runtime_common.Packetizer.{init}
use taste_runtime_common.Broker.{
  Broker, Effect, initialize, initialize_loop, initialize_bus, table_entry, packetizer_of,
  deliver_request,
}
use taste_runtime_common.Broker.Delivery.{Leads, IsSent, header_of}
use taste_runtime_common.Broker.Steady.{AllOwn, InOrder}
use taste_runtime_common.Broker.Traffic.{initialized, here, next, at_start}
use taste_runtime_common.Broker.Traffic.Invariant.{Reach-IsSent}
use taste_runtime_common.Broker.Tests.{node, message, broker_of, effects_of}

pub node-AllOwn : AllOwn node
unfolding read
node-AllOwn zero = refl
node-AllOwn (suc zero) = refl
node-AllOwn (suc (suc bus)) = tt

abbrev pub starting : Result (Broker × List Effect)
starting = initialize node (at_start 32) (1 ∷ 0 ∷ [])

abbrev pub started : Broker
started = broker_of starting

pub started_is : starting ≡ ok (started, effects_of starting)
unfolding initialize initialize_loop initialize_bus table_entry packetizer_of read init
started_is = refl

started-Leads : Leads node started cfg_default 1
unfolding read initialize initialize_loop initialize_bus table_entry packetizer_of init
started-Leads = record {
  bus = 1;
  private_data = 77;
  send_function = 1000;
  bus_is = refl;
  bus-lt = omega arith;
  cfg_is = refl;
  private_data_is = refl;
  send_function_is = refl;
  send_function_set = omega arith;
  initialized = refl;
}

Reach-IsSent_example :
    InOrder 32 started
    × Returns
        (λ (broker', effects).
          IsSent (header_of node started 1 1 9 4) 1000 77 1 started message 4 broker' effects)
        (deliver_request node started 1 9 message 4)
unfolding started-Leads
Reach-IsSent_example =
    Reach-IsSent node node-AllOwn 32 1 9 message 4
      (next here (initialized (at_start 32) started (1 ∷ 0 ∷ []) (effects_of starting) started_is))
      started-Leads (omega arith) (omega arith) (omega arith) (omega arith) (omega arith)
