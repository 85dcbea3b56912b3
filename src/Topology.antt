-- ===== src/Topology.antt =====
-- Management addresses of a fabric: ManagementAddressing of netopsbench/platform/topology/planning.py.
-- An address is its number, as ipaddress.ip_address takes it: those below 2 ^ 32 are IPv4 addresses, those
-- from there on IPv6 addresses, which are in no IPv4 network. Text forms are left out.
pub mod Collector
pub mod Manifest
use net_ops_bench.Prelude.{
  ℕ, ◌+◌, ◌-◌, ◌≤◌, ◌<◌, Bool, true, false, not, ◌&&◌, ◌||◌, List, [], ◌∷◌, map, codes, any, ltb,
  leb, ◌==◌, if◌then◌else◌, Exn, Outcome, returned, raised,
}

-- ipaddress.IPv4Network: the first address, and the number of addresses, a power of two.
pub record Network : Type 0 where
  pub network_address : ℕ
  pub size : ℕ

pub record ManagementAddressing : Type 0 where
  pub network : Network
  pub allocated_offsets : List ℕ

abbrev pub value_error : Exn
value_error = record { error_type = codes "ValueError"; message = codes "management address" }

unfoldable pub broadcast_address : Network → ℕ
broadcast_address n = n.network_address + n.size - 1

abbrev pub ipv4_length : ℕ
ipv4_length = 4294967296

-- candidate in network: an address of the other version is not.
abbrev pub in_network : Network → ℕ → Bool
in_network n candidate =
    ltb candidate ipv4_length
    && (leb n.network_address candidate && ltb candidate (n.network_address + n.size))

-- candidate in {network.network_address, network.broadcast_address}
unfoldable pub is_reserved : Network → ℕ → Bool
unfolding broadcast_address
is_reserved n candidate = (candidate == n.network_address) || (candidate == broadcast_address n)

abbrev pub ipv6_length : ℕ
ipv6_length = 340282366920938463463374607431768211456

-- ip_address(n), which raises for a number that is no IPv6 address either
abbrev pub ip_address : ℕ → Outcome ℕ
ip_address n = if ltb n ipv6_length then returned n else raised value_error

abbrev pub and_then : {A B : Type 0} → Outcome A → (A → Outcome B) → Outcome B
and_then (returned a) k = k a
and_then (raised e) k = raised e

unfoldable pub checked_host : Network → ℕ → Outcome ℕ
unfolding is_reserved
checked_host n candidate =
    if not (in_network n candidate)
    then raised value_error
    else if is_reserved n candidate
    then raised value_error
    else returned candidate

unfoldable pub host_ip : Network → ℕ → Outcome ℕ
unfolding checked_host
host_ip n offset =
    if offset == 0
    then raised value_error
    else and_then (ip_address (n.network_address + offset)) (checked_host n)

-- for offset in allocated_offsets: addressing.host_ip(offset)
unfoldable pub check_offsets :
    Network → List ℕ → ManagementAddressing → Outcome ManagementAddressing
unfolding host_ip
check_offsets n [] addressing = returned addressing
check_offsets n (offset ∷ rest) addressing =
    and_then (host_ip n offset) (λ _. check_offsets n rest addressing)

unfoldable pub create_addressing : Network → List ℕ → Outcome ManagementAddressing
unfolding check_offsets
create_addressing n offsets =
    check_offsets n offsets (record { network = n; allocated_offsets = offsets })

abbrev pub allocated_ips : ManagementAddressing → List ℕ
allocated_ips a = map (λ offset. a.network.network_address + offset) a.allocated_offsets

abbrev pub is_allocated : ManagementAddressing → ℕ → Bool
is_allocated a candidate = any (λ ip. ip == candidate) (allocated_ips a)

unfoldable pub unallocated : ManagementAddressing → ℕ → Outcome ℕ
unallocated a candidate =
    if is_allocated a candidate then raised value_error else returned candidate

unfoldable pub validate_collector : ManagementAddressing → ℕ → Outcome ℕ
unfolding checked_host unallocated
validate_collector a candidate = and_then (checked_host a.network candidate) (unallocated a)

-- in the network and not reserved
unfoldable pub is_host : Network → ℕ → Bool
unfolding is_reserved
is_host n candidate = in_network n candidate && not (is_reserved n candidate)

unfoldable pub fallback_collector : ManagementAddressing → ℕ → Outcome ℕ
unfolding validate_collector is_host broadcast_address
fallback_collector a candidate =
    validate_collector a
      (if is_host a.network candidate then candidate else broadcast_address a.network - 1)

unfoldable pub after_last : ManagementAddressing → ℕ → Outcome ℕ
unfolding fallback_collector
after_last a last_device_offset =
    and_then (ip_address (a.network.network_address + last_device_offset + 1))
      (fallback_collector a)

-- The preferred address where it is a host, else the one behind the last device.
unfoldable pub preferred_or : ManagementAddressing → ℕ → ℕ → Outcome ℕ
unfolding validate_collector is_host after_last
preferred_or a last_device_offset preferred =
    if is_host a.network preferred
    then validate_collector a preferred
    else after_last a last_device_offset

unfoldable pub default_collector : ManagementAddressing → ℕ → Bool → Outcome ℕ
unfolding preferred_or after_last
default_collector a last_device_offset prefer_offset_200 =
    if prefer_offset_200 && ltb last_device_offset 200
    then and_then (ip_address (a.network.network_address + 200)) (preferred_or a last_device_offset)
    else after_last a last_device_offset
