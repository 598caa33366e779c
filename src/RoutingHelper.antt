-- ===== src/RoutingHelper.antt =====
-- src/RuntimeCommon/RoutingHelper.c: which interfaces of other partitions a bus leads to.
-- `PARTITION_NAME`, the `enum` values and the table that the build generates are parameters.
pub mod Search
pub mod Unique
mod Tests
use taste_runtime_common.Common.{ℕ, zero, suc, ◌+◌, Bool, not, ◌&&◌, List}
use taste_runtime_common.Common.{◌==◌, if◌then◌else◌}
use taste_runtime_common.Memory.{Result, ok, ◌>>=◌, read}

pub record PartitionBusPair : Type 0 where
  pub partition : ℕ
  pub bus : ℕ

module _ (partition_name : ℕ) where
  -- `partition != PARTITION_NAME && bus == bus`
  abbrev pub leads_to : ℕ → PartitionBusPair → Bool
  leads_to bus pair = not (pair.partition == partition_name) && (pair.bus == bus)

  module _ (interface_invalid_id : ℕ) where
    -- The `for` loop, with `left` interfaces to go.
    unfoldable pub find_loop : List PartitionBusPair → ℕ → ℕ → ℕ → ℕ → Result ℕ
    find_loop port_to_partition_bus_map bus found index zero = ok found
    find_loop port_to_partition_bus_map bus found index (suc left) = do
      pair ← read port_to_partition_bus_map index
      let next = find_loop port_to_partition_bus_map bus index (index + 1) left
      let rest = find_loop port_to_partition_bus_map bus found (index + 1) left
      if leads_to bus pair
          then (if not (found == interface_invalid_id) then ok interface_invalid_id else next)
          else rest

    unfoldable pub find_unique_destination : ℕ → List PartitionBusPair → ℕ → Result ℕ
    find_unique_destination interface_max_id port_to_partition_bus_map bus =
        find_loop port_to_partition_bus_map bus interface_invalid_id 0 interface_max_id

  -- The `for` loop, with `left` interfaces to go.
  unfoldable pub check_loop : List PartitionBusPair → ℕ → ℕ → ℕ → ℕ → Result ℕ
  check_loop port_to_partition_bus_map bus result index zero = ok result
  check_loop port_to_partition_bus_map bus result index (suc left) = do
    pair ← read port_to_partition_bus_map index
    check_loop port_to_partition_bus_map bus (if leads_to bus pair then 1 else result) (index + 1)
        left

  unfoldable pub check_bus_has_any_destination_port : ℕ → List PartitionBusPair → ℕ → Result ℕ
  check_bus_has_any_destination_port interface_max_id port_to_partition_bus_map bus =
      check_loop port_to_partition_bus_map bus 0 0 interface_max_id
