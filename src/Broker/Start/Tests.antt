-- ===== src/Broker/Start/Tests.antt =====
-- A node of two buses is initialized.
use taste_runtime_common.Common.{ℕ, zero, suc, ◌<◌, ◌≡◌, refl, arith, true, [], ◌∷◌}
use taste_runtime_common.Memory.{ok, Returns, read}
use taste_runtime_common.SystemSpec.{cfg_default}
use taste_runtime_common.Broker.{initialize}
use taste_runtime_common.Broker.Start.Bus.{IsConfigured, AreStarted}
use taste_runtime_common.Broker.Start.{initialize-AreStarted}
use taste_runtime_common.Broker.Tests.{node, broker}

pub node-IsConfigured : IsConfigured node (λ bus. cfg_default)
unfolding read
node-IsConfigured = record {
  cfg_is = all_default;
  own = λ bus below. refl;
  has_port = λ bus below. tt;
}
  where
    all_default : (bus : ℕ) → bus < 2 → read node.bus_to_packetizer_cfg bus ≡ ok cfg_default
    all_default zero below = refl
    all_default (suc zero) below = refl
    all_default (suc (suc bus)) below = absurd (omega arith)

initialize-AreStarted_example :
    Returns
      (AreStarted node (λ bus. cfg_default) (1 ∷ []) (record broker { functions_set = true }))
      (initialize node broker (1 ∷ 0 ∷ []))
initialize-AreStarted_example =
    initialize-AreStarted node (λ bus. cfg_default) node-IsConfigured broker (1 ∷ 0 ∷ [])
      (omega arith)
