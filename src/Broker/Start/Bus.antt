-- ===== src/Broker/Start/Bus.antt =====
-- What a round of the loop of `Broker_initialize` leaves: the object of one bus is started.
use taste_runtime_common.Common.{ℕ, ◌<◌, ◌≡◌, refl, arith}
use taste_runtime_common.Common.{Bool, true, false, ◌&&◌, ◌||◌, Bool-cases, inl, inr, ltb, ◌==◌}
use taste_runtime_common.Common.{==_iff, ltb→lt, if◌then◌else◌, List, [], ◌∷◌}
use taste_runtime_common.Memory.{Result, ok, Returns, read}
use taste_runtime_common.Memory.Laws.{Returns-bind}
use taste_runtime_common.SpacePacket.{Packetizer}
use taste_runtime_common.SystemSpec.{
  System, PacketizerCfg, cfg_default, cfg_ccsds, cfg_strict_ccsds, cfg_thin, cfg_device_provided,
  cfg_passthrough,
}
use taste_runtime_common.PacketizerTable.{functions}
use taste_runtime_common.Packetizer as Default
use taste_runtime_common.CcsdsPacketizer
use taste_runtime_common.ThinPacketizer
use taste_runtime_common.PassthroughPacketizer
use taste_runtime_common.Broker.{Broker, Effect, initialize_bus}
use taste_runtime_common.Broker.Delivery.{table_entry_lem, packetizer_of_lem}
use taste_runtime_common.Broker.Relay.{is_own, device-is_own}

-- A bus with a pass-through packetizer has a unique port; the others need nothing.
abbrev pub HasPort : System → PacketizerCfg → ℕ → Type 0
HasPort s cfg_passthrough bus =
    (port : ℕ) × (read s.bus_to_unique_port_map bus ≡ ok port)
    × ((port == s.interface_invalid_id) ≡ false)
HasPort s cfg_default bus = Unit
HasPort s cfg_ccsds bus = Unit
HasPort s cfg_strict_ccsds bus = Unit
HasPort s cfg_thin bus = Unit
HasPort s cfg_device_provided bus = Unit

-- The tables of a system whose buses have packetizers of the library's own.
pub record IsConfigured (s : System) (cfg : ℕ → PacketizerCfg) : Type 0 where
  pub cfg_is :
      (bus : ℕ) → bus < s.system_buses_number → read s.bus_to_packetizer_cfg bus ≡ ok (cfg bus)
  pub own : (bus : ℕ) → bus < s.system_buses_number → is_own (cfg bus) ≡ true
  pub has_port : (bus : ℕ) → bus < s.system_buses_number → HasPort s (cfg bus) bus

-- The object of a bus when it is initialized: it counts from 0, if its packetizer counts.
abbrev pub started : PacketizerCfg → Packetizer → Packetizer
started cfg_default p = record { packet_sequence_count = 0 }
started cfg_ccsds p = record { packet_sequence_count = 0 }
started cfg_strict_ccsds p = record { packet_sequence_count = 0 }
started cfg_thin p = p
started cfg_passthrough p = p
started cfg_device_provided p = p

abbrev pub contains : List ℕ → ℕ → Bool
contains [] i = false
contains (bus ∷ buses) i = (i == bus) || contains buses i

-- The objects of the buses that the list names are started, the others as before.
abbrev pub AreStarted :
    System → (ℕ → PacketizerCfg) → List ℕ → Broker → Broker × List Effect → Type 0
AreStarted s cfg buses broker (broker', effects) =
    (effects ≡ [])
    × (broker'.functions_set ≡ broker.functions_set)
    × (broker'.error_callback ≡ broker.error_callback)
    × ((i : ℕ)
        → broker'.packetizers_data i ≡ (
            if contains buses i && ltb i s.system_buses_number
            then started (cfg i) (broker.packetizers_data i)
            else broker.packetizers_data i))

init-started :
    (s : System) (cfg : PacketizerCfg) (p : Packetizer) (bus : ℕ)
    → is_own cfg ≡ true
    → HasPort s cfg bus
    → Returns
        (λ i. (i.packetizer ≡ started cfg p) × (i.device_calls ≡ []))
        ((functions s cfg).init p bus)
unfolding Default.init CcsdsPacketizer.init ThinPacketizer.init PassthroughPacketizer.init
init-started s cfg_default p bus own port = (refl, refl)
init-started s cfg_ccsds p bus own port = (refl, refl)
init-started s cfg_strict_ccsds p bus own port = (refl, refl)
init-started s cfg_thin p bus own port = (refl, refl)
init-started s cfg_passthrough p bus own (port, is_read, is_set) = rw (is_read, is_set) (refl, refl)
init-started s cfg_device_provided p bus own port = absurd (device-is_own own)

abbrev pub bounded_bus : System → Broker → ℕ → Result (Broker × List Effect)
bounded_bus s broker bus =
    if ltb bus s.system_buses_number then initialize_bus s broker bus else ok (broker, [])

module _ (s : System) (cfg : ℕ → PacketizerCfg) (configured : IsConfigured s cfg) where
  pub bounded_bus-AreStarted :
      (broker : Broker) (bus : ℕ)
      → broker.functions_set ≡ true
      → Returns (AreStarted s cfg (bus ∷ []) broker) (bounded_bus s broker bus)
  unfolding initialize_bus
  bounded_bus-AreStarted broker bus set = elim (Bool-cases (ltb bus s.system_buses_number)) [
    | inr outside ↦ rw outside (refl, refl, refl, λ i. ground arith)
    | inl inside ↦
        let below : bus < s.system_buses_number = ltb→lt _ _ inside in
        rw
          (
            inside,
            configured.cfg_is bus below,
            table_entry_lem s broker (cfg bus) set,
            packetizer_of_lem s broker bus below,
          )
          (Returns-bind
            (λ i.
              (i.packetizer ≡ started (cfg bus) (broker.packetizers_data bus))
              × (i.device_calls ≡ []))
            (AreStarted s cfg (bus ∷ []) broker) _ _
            (init-started s (cfg bus) (broker.packetizers_data bus) bus (configured.own bus below)
              (configured.has_port bus below))
            λ i is.
              rw (is.0, is.1)
                (
                  refl,
                  refl,
                  refl,
                  λ j. elim (Bool-cases (j == bus)) [
                    | inl same ↦
                        let itself : (bus == bus) ≡ true = (==_iff bus bus).1 refl in
                        rw ((==_iff j bus).0 same, itself, inside) refl
                    | inr other ↦ rw other refl
                  ],
                ))
  ]
