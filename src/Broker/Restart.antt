-- ===== src/Broker/Restart.antt =====
-- `Broker_initialize` (src/Broker/Broker.c), and the packets that a node sends after it.
mod Tests
use mathlib.Core.Path.{subst}
use taste_runtime_common.Common.{
  ℕ, ◌+◌, ◌≤◌, ◌<◌, ◌≡◌, Bool, true, ◌&&◌, ltb, refl, sym, ap, ◌∙◌, arith, List, [],
  length as count, take, if◌then◌else◌,
}
use taste_runtime_common.Common.{lt→ltb}
use taste_runtime_common.Memory.{Result, ok, aborted, faulted, out_of_fuel, Returns}
use taste_runtime_common.Memory.Laws.{Returns-of_eq, eq_of_Returns}
use taste_runtime_common.SystemSpec.{System, PacketizerCfg, cfg_default}
use taste_runtime_common.Broker.{Broker, Effect, initialize}
use taste_runtime_common.Broker.Steady.{AllOwn}
use taste_runtime_common.Broker.Start.Bus.{IsConfigured, started, contains, AreStarted}
use taste_runtime_common.Broker.Start.{valid_prefix, initialize-AreStarted}
use taste_runtime_common.Broker.Traffic.{Reach, next, initialized, at_start}
use taste_runtime_common.Broker.Traffic.Unchanged.{count_of}
use taste_runtime_common.Broker.Traffic.Numbering.{Run, IsNumbered, Run-IsNumbered}

-- The broker that a call leaves.
abbrev pub left_by : Broker → Result (Broker × List Effect) → Broker
left_by broker (ok (broker', effects)) = broker'
left_by broker aborted = broker
left_by broker faulted = broker
left_by broker out_of_fuel = broker

module _ (s : System) (cfg : ℕ → PacketizerCfg) (configured : IsConfigured s cfg)
    (all_own : AllOwn s) where
  -- A started bus with the default packetizer counts from 0.
  count-AreStarted :
      (buses : List ℕ) (bus : ℕ) (broker broker' : Broker) (effects : List Effect)
      → contains buses bus ≡ true
      → bus < s.system_buses_number
      → cfg bus ≡ cfg_default
      → AreStarted s cfg buses broker (broker', effects)
      → count_of broker' bus ≡ 0
  count-AreStarted buses bus broker broker' effects listed below default (none, set, callback, is) =
      let inside : ltb bus s.system_buses_number ≡ true = lt→ltb _ _ below in
      ap (λ p. p.packet_sequence_count) (is bus) ∙ rw (listed, inside, default) refl

  -- A node whose tables have an entry for each bus, which gives it a packetizer of the library's own,
  -- and a unique port where that is the pass-through one; with a broker that calls have led to since
  -- its start. Broker_initialize is called, with a list of SYSTEM_BUSES_NUMBER entries or more that
  -- names a bus of the system with the default packetizer before BUS_INVALID_ID, and then any calls
  -- that return, but for Broker_initialize, with requests for the bus that can be sent.
  -- Broker_initialize returns, and does nothing to the drivers, the interfaces and the device's
  -- packetizers; the packets that the bus's driver is given after it are numbered from 0, one after
  -- the other modulo 2 ^ 14, however many the bus had sent before.
  pub initialize-IsNumbered :
      (size bus : ℕ) (broker last : Broker) (valid_buses : List ℕ) (packets : List (List ℕ))
      → Reach s (at_start size) broker
      → s.system_buses_number ≤ count valid_buses
      → contains (valid_prefix s.bus_invalid_id (take s.system_buses_number valid_buses)) bus ≡ true
      → bus < s.system_buses_number
      → cfg bus ≡ cfg_default
      → Run s size bus last (left_by broker (initialize s broker valid_buses)) packets
      → Returns (λ (broker', effects). effects ≡ []) (initialize s broker valid_buses)
        × IsNumbered s size bus 0 last packets
  initialize-IsNumbered size bus broker last valid_buses packets reached room listed below default
        run =
      let buses : List ℕ = valid_prefix s.bus_invalid_id (take s.system_buses_number valid_buses) in
      let before : Broker = record broker { functions_set = true } in
      let ((broker', effects), is, starts) =
        eq_of_Returns (AreStarted s cfg buses before) _
          (initialize-AreStarted s cfg configured broker valid_buses room) in
      let zero_count : count_of broker' bus ≡ 0 =
        count-AreStarted buses bus before broker' effects listed below default starts in
      let from : Run s size bus last broker' packets =
        subst (λ m. Run s size bus last (left_by broker m) packets) is run in
      (
        Returns-of_eq (λ (b, es). es ≡ []) is starts.0,
        subst (λ n. IsNumbered s size bus n last packets) zero_count
            (Run-IsNumbered s size bus all_own
              (next reached (initialized broker broker' valid_buses effects is)) from),
      )
