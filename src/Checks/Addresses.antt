-- ===== src/Checks/Addresses.antt =====
-- The collector of a small management network (netopsbench/platform/topology/planning.py).
use net_ops_bench.Prelude.{
  ℕ, ◌+◌, ◌<◌, ◌≡◌, refl, true, false, List, [], ◌∷◌, All, any, ◌==◌, ltb, ◌&&◌, if◌then◌else◌,
  arith, returned,
}
use net_ops_bench.Topology.{
  Network, ManagementAddressing, broadcast_address, create_addressing, default_collector,
}
use net_ops_bench.Topology.Collector.{IsHostOffset, default_collector-free, default_collector-found}

-- 172.20.20.0/24
abbrev network : Network
network = record { network_address = 2887062528; size = 256 }

abbrev offsets : List ℕ
offsets = 11 ∷ 12 ∷ 21 ∷ []

abbrev addressing : ManagementAddressing
addressing = record { network = network; allocated_offsets = offsets }

made : create_addressing network offsets ≡ returned addressing
unfolding create_addressing
made = refl

collector : default_collector addressing 21 true ≡ returned 2887062728
unfolding default_collector
collector = refl

default_collector-free_example :
    All (IsHostOffset network) offsets
    × (2887062528 < 2887062728)
    × (2887062728 < broadcast_address network)
    × (any (λ offset. 2887062528 + offset == 2887062728) offsets ≡ false)
default_collector-free_example =
    default_collector-free network offsets addressing 21 true 2887062728 made collector

default_collector-found_example :
    default_collector addressing 21 true
    ≡ returned (2887062528 + (if true && ltb 21 200 then (if ltb 201 256 then 200 else 22) else 22))
default_collector-found_example =
    default_collector-found network offsets 21 true (omega arith, (omega arith, (omega arith, tt)))
      (omega arith) (omega arith)

-- 255.255.255.128/25: offset 200 is beyond the IPv4 addresses, so the address behind the last device is
-- taken.
last_network :
    default_collector
      (record {
        network = record { network_address = 4294967168; size = 128 };
        allocated_offsets = offsets;
      })
      21
      true
    ≡ returned 4294967190
unfolding default_collector
last_network = refl
