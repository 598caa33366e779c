-- ===== src/RoutingHelper/Tests.antt =====
-- A port table with one interface of another partition.
use taste_runtime_common.Common.{ℕ, zero, suc, ◌≡◌, refl, arith, List, [], ◌∷◌}
use taste_runtime_common.Memory.{ok, read, Returns}
use taste_runtime_common.RoutingHelper.{
  PartitionBusPair, leads_to, find_unique_destination, find_loop,
}
use taste_runtime_common.RoutingHelper.{check_bus_has_any_destination_port, check_loop}
use taste_runtime_common.RoutingHelper.Unique.{ByCount, init-ByCount}
use taste_runtime_common.SpacePacket.{Packetizer}
use taste_runtime_common.PassthroughPacketizer.{init}
use taste_runtime_common.RoutingHelper.Search.{Entries, Answer, find_unique_destination-Answer}

abbrev entry : ℕ → PartitionBusPair
entry zero = record { partition = 0; bus = 0 }
entry (suc zero) = record { partition = 1; bus = 1 }
entry (suc (suc i)) = record { partition = 2; bus = 1 }

abbrev ports : List PartitionBusPair
ports = entry 0 ∷ entry 1 ∷ entry 2 ∷ []

ports-Entries : Entries ports 3 entry
unfolding read
ports-Entries zero below = refl
ports-Entries (suc zero) below = refl
ports-Entries (suc (suc zero)) below = refl
ports-Entries (suc (suc (suc i))) below = absurd (omega arith)

found : find_unique_destination 1 0 3 ports 1 ≡ ok 2
unfolding find_unique_destination find_loop read
found = refl

find_unique_destination-Answer_example :
    Returns (Answer 0 (λ i. leads_to 1 1 (entry i)) 3) (find_unique_destination 1 0 3 ports 1)
find_unique_destination-Answer_example =
    find_unique_destination-Answer 1 0 ports entry 3 1 ports-Entries refl

abbrev idle : Packetizer
idle = record { packet_sequence_count = 0 }

unique_port_is : read (0 ∷ 2 ∷ []) 1 ≡ find_unique_destination 1 0 3 ports 1
unfolding find_unique_destination find_loop read
unique_port_is = refl

has_any_is : read (0 ∷ 1 ∷ []) 1 ≡ check_bus_has_any_destination_port 1 3 ports 1
unfolding check_bus_has_any_destination_port check_loop read
has_any_is = refl

init-ByCount_example :
    ByCount (λ i. leads_to 1 1 (entry i)) 3 idle (init 0 (0 ∷ 2 ∷ []) (0 ∷ 1 ∷ []) idle 1)
init-ByCount_example =
    init-ByCount 1 0 ports entry 3 1 (0 ∷ 2 ∷ []) (0 ∷ 1 ∷ []) idle ports-Entries refl
      unique_port_is has_any_is
