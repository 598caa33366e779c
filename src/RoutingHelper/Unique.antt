-- ===== src/RoutingHelper/Unique.antt =====
-- The tables of a bus, as src/RuntimeCommon/RoutingHelper.c computes them, and the pass-through
-- packetizer that is initialized over them.
use taste_runtime_common.Common.{
  ℕ, zero, suc, ◌+◌, ◌<◌, ◌≡◌, ◌≢◌, refl, ap, ◌∙◌, sym, arith, ◌⊎◌, inl, inr,
}
use taste_runtime_common.Common.{Bool, true, false, Bool-cases, ==_iff, ne→==, List, []}
use taste_runtime_common.Memory.{Result, ok, aborted, read, Returns}
use taste_runtime_common.Memory.Laws.{eq_of_Returns}
use taste_runtime_common.SpacePacket.{Packetizer, Initialized}
use taste_runtime_common.PassthroughPacketizer.{init}
use taste_runtime_common.RoutingHelper.{
  PartitionBusPair, leads_to, check_loop, check_bus_has_any_destination_port,
  find_unique_destination,
}
use taste_runtime_common.RoutingHelper.Search.{
  Entries, IsOnly, AreSeveral, AreNone, Answer, none_snoc, find_unique_destination-Answer,
}

-- Some interface below `n` leads out.
abbrev pub HasAny : (ℕ → Bool) → ℕ → Type 0
HasAny leads n = (i : ℕ) × (i < n) × (leads i ≡ true)

-- Whether one does.
abbrev pub Whether : (ℕ → Bool) → ℕ → ℕ → Type 0
Whether leads n r = ((r ≡ 1) × HasAny leads n) ⊎ ((r ≡ 0) × AreNone leads n)

-- The packetizer of the bus is initialized, with no header, if at most one interface is behind the bus,
-- and the program is aborted if there are several.
abbrev pub ByCount : (ℕ → Bool) → ℕ → Packetizer → Result Initialized → Type 0
ByCount leads n self r =
    ((r ≡ ok (record { packetizer = self; header_size_out = 0; device_calls = [] }))
      × (((i : ℕ) × IsOnly leads n i) ⊎ AreNone leads n))
    ⊎ ((r ≡ aborted) × AreSeveral leads n)

module _ (partition_name : ℕ) where
  check_loop-Whether :
      (map : List PartitionBusPair) (entry : ℕ → PartitionBusPair) (n bus result index left : ℕ)
      → Entries map n entry
      → index + left ≡ n
      → Whether (λ i. leads_to partition_name bus (entry i)) index result
      → Returns
          (Whether (λ i. leads_to partition_name bus (entry i)) n)
          (check_loop partition_name map bus result index left)
  unfolding check_loop
  check_loop-Whether map entry n bus result index zero entries to seen =
      let e : n ≡ index = omega arith in rw e seen
  check_loop-Whether map entry n bus result index (suc left) entries to seen =
      let leads : ℕ → Bool = λ i. leads_to partition_name bus (entry i) in
      rw (entries index (omega arith)) (elim (Bool-cases (leads index)) [
        | inl here ↦ rw here (
            check_loop-Whether map entry n bus 1 (index + 1) left entries (omega arith)
              (inl (refl, (index, omega arith, here))))
        | inr not_here ↦ rw not_here (
            check_loop-Whether map entry n bus result (index + 1) left entries (omega arith)
              (elim seen [
                | inl (one, any) ↦ inl (one, (any.0, omega (arith, any.1), any.2))
                | inr (none, no_one) ↦ inr (none, none_snoc leads index no_one not_here)
              ]))
      ])

  check_bus-Whether :
      (map : List PartitionBusPair) (entry : ℕ → PartitionBusPair) (n bus : ℕ)
      → Entries map n entry
      → Returns
          (Whether (λ i. leads_to partition_name bus (entry i)) n)
          (check_bus_has_any_destination_port partition_name n map bus)
  unfolding check_bus_has_any_destination_port
  check_bus-Whether map entry n bus entries =
      check_loop-Whether map entry n bus 0 0 n entries (omega arith)
        (inr (refl, λ i below. absurd (omega arith)))

  -- A port table with an entry for each interface, of which that of INTERFACE_INVALID_ID does not lead
  -- out, and the two tables of PassthroughPacketizer.c with entries for the bus that are what
  -- find_unique_destination and check_bus_has_any_destination_port return for it:
  -- PassthroughPacketizer_init returns, without an access out of bounds, if no interface or only one
  -- leads to another partition by the bus, and calls abort if several do.
  pub init-ByCount :
      (invalid : ℕ) (map : List PartitionBusPair) (entry : ℕ → PartitionBusPair) (n bus : ℕ)
      (bus_to_unique_port_map bus_has_any_destination_port : List ℕ) (self : Packetizer)
      → Entries map n entry
      → leads_to partition_name bus (entry invalid) ≡ false
      → read bus_to_unique_port_map bus ≡ find_unique_destination partition_name invalid n map bus
      → read bus_has_any_destination_port bus
        ≡ check_bus_has_any_destination_port partition_name n map bus
      → ByCount
          (λ i. leads_to partition_name bus (entry i))
          n
          self
          (init invalid bus_to_unique_port_map bus_has_any_destination_port self bus)
  unfolding init
  init-ByCount invalid map entry n bus bus_to_unique_port_map bus_has_any_destination_port self
        entries unused ports used =
      let leads : ℕ → Bool = λ i. leads_to partition_name bus (entry i) in
      let (port, port_is, answer) =
        eq_of_Returns (Answer invalid leads n) _
          (find_unique_destination-Answer partition_name invalid map entry n bus entries unused) in
      let (any, any_is, whether) =
        eq_of_Returns (Whether leads n) _ (check_bus-Whether map entry n bus entries) in
      rw (ports ∙ port_is, used ∙ any_is)
        (elim answer [
          | inl only ↦
              let valid : port ≢ invalid = λ e.
                let clash : true ≡ false = sym only.does ∙ ap leads e ∙ unused in ground arith in
              rw (ne→== port invalid valid) (inl (refl, inl (port, only)))
          | inr (same, rest) ↦ rw ((==_iff port invalid).1 same) (elim rest [
            | inl no_one ↦ elim whether [
              | inl (one, found) ↦
                  let clash : true ≡ false = sym found.2 ∙ no_one found.0 found.1 in
                  absurd (ground arith)
              | inr (none, _) ↦ rw none (inl (refl, inr no_one))
            ]
            | inr several ↦ elim whether [
              | inl (one, found) ↦ rw one (inr (refl, several))
              | inr (none, no_one) ↦
                  let clash : true ≡ false =
                    sym several.other_does ∙ no_one several.other several.inside in
                  absurd (ground arith)
            ]
          ])
        ])
