-- ===== src/Broker/Start.antt =====
-- What `Broker_initialize` leaves.
pub mod Bus
pub mod Tests
use taste_runtime_common.Common.{ℕ, zero, suc, ◌+◌, ◌≤◌, ◌<◌, ◌≡◌, refl, sym, ap, ◌∙◌, arith}
use taste_runtime_common.Common.{
  Bool, true, false, not, ◌&&◌, ◌||◌, Bool-cases, inl, inr, ltb, ◌==◌,
}
use taste_runtime_common.Common.{
  ==_iff, ltb→lt, if◌then◌else◌, List, [], ◌∷◌, ◌++◌, length, drop, take,
}
use native.Mathlib.Numerals.{add-one}
use taste_runtime_common.Memory.{Result, ok, ◌>>=◌, Returns, read}
use taste_runtime_common.Memory.Laws.{Returns-bind, read_lem}
use taste_runtime_common.SpacePacket.{Packetizer, Initialized}
use taste_runtime_common.SystemSpec.{
  System, PacketizerCfg, cfg_default, cfg_ccsds, cfg_strict_ccsds, cfg_thin, cfg_device_provided,
  cfg_passthrough,
}
use taste_runtime_common.PacketizerTable.{functions}
use taste_runtime_common.Packetizer as Default
use taste_runtime_common.CcsdsPacketizer
use taste_runtime_common.ThinPacketizer
use taste_runtime_common.PassthroughPacketizer
use taste_runtime_common.Broker.{
  Broker, Effect, initialize_bus, initialize_loop, initialize, table_entry, set_packetizer,
  packetizer_of,
}
use taste_runtime_common.Broker.Delivery.{table_entry_lem, packetizer_of_lem}
use taste_runtime_common.Broker.Relay.{is_own, device-is_own}
use taste_runtime_common.Broker.Start.Bus.{
  IsConfigured, started, contains, AreStarted, bounded_bus, bounded_bus-AreStarted,
}

-- The buses of the list before BUS_INVALID_ID.
abbrev pub valid_prefix : ℕ → List ℕ → List ℕ
valid_prefix invalid [] = []
valid_prefix invalid (bus ∷ buses) = if bus == invalid then [] else bus ∷ valid_prefix invalid buses

started_again : (cfg : PacketizerCfg) (p : Packetizer) → started cfg (started cfg p) ≡ started cfg p
started_again cfg_default p = refl
started_again cfg_ccsds p = refl
started_again cfg_strict_ccsds p = refl
started_again cfg_thin p = refl
started_again cfg_passthrough p = refl
started_again cfg_device_provided p = refl

-- To start an object twice is to start it.
merge :
    (now later inside : Bool) (start : Packetizer → Packetizer) (p : Packetizer)
    → start (start p) ≡ start p
    → (if later && inside
        then start (if (now || false) && inside then start p else p)
        else if (now || false) && inside
        then start p
        else p)
      ≡ (if (now || later) && inside then start p else p)
merge true true true start p twice = twice
merge true true false start p twice = refl
merge true false true start p twice = refl
merge true false false start p twice = refl
merge false true true start p twice = refl
merge false true false start p twice = refl
merge false false true start p twice = refl
merge false false false start p twice = refl

module _ (s : System) (cfg : ℕ → PacketizerCfg) (configured : IsConfigured s cfg) where
  -- A bus, and then the others.
  AreStarted-cons :
      (buses : List ℕ) (bus : ℕ) (b c d : Broker) (first rest : List Effect)
      → AreStarted s cfg (bus ∷ []) b (c, first)
      → AreStarted s cfg buses c (d, rest)
      → AreStarted s cfg (bus ∷ buses) b (d, first ++ rest)
  AreStarted-cons buses bus b c d first rest (none, set, callback, here)
        (none', set', callback', there) =
      (
        rw (none, none') refl,
        set' ∙ set,
        callback' ∙ callback,
        λ i.
            there i
            ∙ ap
                (λ p.
                  if contains buses i && ltb i s.system_buses_number then started (cfg i) p else p)
                (here i)
            ∙ merge (i == bus) (contains buses i) (ltb i s.system_buses_number) (started (cfg i))
                (b.packetizers_data i) (started_again (cfg i) (b.packetizers_data i)),
      )

  -- A round of the loop, before the others.
  round-AreStarted :
      (bus : ℕ) (buses : List ℕ) (broker : Broker) (rest : Broker → Result (Broker × List Effect))
      → broker.functions_set ≡ true
      → ((c : Broker)
          → c.functions_set ≡ true
          → Returns (AreStarted s cfg (valid_prefix s.bus_invalid_id buses) c) (rest c))
      → Returns
          (AreStarted s cfg (valid_prefix s.bus_invalid_id (bus ∷ buses)) broker)
          (elim (bus == s.bus_invalid_id) [
            | true ↦ ok (broker, [])
            | false ↦ do
              (broker', effects) ← bounded_bus s broker bus
              (broker'', more) ← rest broker'
              ok (broker'', effects ++ more)
          ])
  round-AreStarted bus buses broker rest set others =
      let listed : List ℕ = valid_prefix s.bus_invalid_id buses in
      elim (Bool-cases (bus == s.bus_invalid_id)) [
        | inl last ↦ rw last (refl, refl, refl, λ j. refl)
        | inr valid ↦ rw valid (
            Returns-bind (AreStarted s cfg (bus ∷ []) broker)
              (AreStarted s cfg (bus ∷ listed) broker) (bounded_bus s broker bus) _
              (bounded_bus-AreStarted s cfg configured broker bus set)
              λ a one.
                Returns-bind (AreStarted s cfg listed a.0) (AreStarted s cfg (bus ∷ listed) broker)
                  (rest a.0) _ (others a.0 (one.1 ∙ set))
                  λ c more. AreStarted-cons listed bus broker a.0 c.0 a.1 c.1 one more)
      ]

  initialize_loop-AreStarted :
      (valid_buses : List ℕ) (i left : ℕ) (broker : Broker)
      → i + left ≤ length valid_buses
      → broker.functions_set ≡ true
      → Returns
          (AreStarted s cfg (valid_prefix s.bus_invalid_id (take left (drop i valid_buses))) broker)
          (initialize_loop s valid_buses i left broker)
  unfolding initialize_loop
  initialize_loop-AreStarted valid_buses i zero broker room set = (refl, refl, refl, λ j. refl)
  initialize_loop-AreStarted valid_buses i (suc left) broker room set =
      let (bus, is_read, dropped) = read_lem valid_buses i (omega arith) in
      let same : drop (i + 1) valid_buses ≡ drop (suc i) valid_buses =
        ap (λ k. drop k valid_buses) (add-one i) in
      rw (is_read, dropped, ← same)
        (round-AreStarted bus (take left (drop (i + 1) valid_buses)) broker
          (initialize_loop s valid_buses (i + 1) left) set
          λ c set'. initialize_loop-AreStarted valid_buses (i + 1) left c (omega arith) set')

  -- The list has SYSTEM_BUSES_NUMBER entries or more, the tables of the system have one for each bus,
  -- each bus has a packetizer of the library's own, and a unique port where that is the pass-through
  -- one: Broker_initialize returns, without an access out of bounds and without a call of abort. The
  -- table of packetizers is set; the objects of the buses that stand in the list before BUS_INVALID_ID
  -- and are in range count from 0, where their packetizers count; all other objects and the error
  -- callback are as before; and no header size of a device is set.
  pub initialize-AreStarted :
      (broker : Broker) (valid_buses : List ℕ)
      → s.system_buses_number ≤ length valid_buses
      → Returns
          (AreStarted s cfg
            (valid_prefix s.bus_invalid_id (take s.system_buses_number valid_buses))
            (record broker { functions_set = true }))
          (initialize s broker valid_buses)
  unfolding initialize
  initialize-AreStarted broker valid_buses room =
      initialize_loop-AreStarted valid_buses 0 s.system_buses_number
        (record broker { functions_set = true }) (omega arith) refl
