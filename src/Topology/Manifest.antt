-- ===== src/Topology/Manifest.antt =====
-- The canonical topology (netopsbench/models/topology.py): devices, links, lookups, and the validator
-- _validate_topology_references.
pub mod Naming
pub mod Addresses
pub mod References
use net_ops_bench.Prelude.{
  ℕ, Bool, true, false, not, ◌&&◌, Option, none, some, List, [], ◌∷◌, map, Text, text_eq, is_empty,
  is_some, any, keep, length, ◌==◌, if◌then◌else◌, Outcome, returned, raised,
}
use net_ops_bench.Topology.{value_error, and_then}

pub data DeviceRole : Type 0 where
  spine leaf core agg edge client : DeviceRole

-- The address and routing fields that the validator reads, with the name, the role and the switch.
pub record Device : Type 0 where
  pub name : Text
  pub role : DeviceRole
  pub mgmt_ip : Option Text
  pub data_ip : Option Text
  pub attached_switch : Option Text
  pub router_id : Option Text

pub record LinkEndpoint : Type 0 where
  pub device : Text
  pub interface : Text

pub record Link : Type 0 where
  pub left : LinkEndpoint
  pub right : LinkEndpoint

-- The parts of a TopologyManifest that refer to one another.
pub record Manifest : Type 0 where
  pub devices : List Device
  pub links : List Link
  pub ecmp_hash_policy_by_role : List (DeviceRole × ℕ)

-- device: the first of the name
unfoldable pub find_device : Text → List Device → Option Device
find_device name [] = none
find_device name (d ∷ ds) = if text_eq d.name name then some d else find_device name ds

abbrev pub role_value : DeviceRole → ℕ
role_value spine = 0
role_value leaf = 1
role_value core = 2
role_value agg = 3
role_value edge = 4
role_value client = 5

unfoldable pub role_eq : DeviceRole → DeviceRole → Bool
role_eq r s = role_value r == role_value s

unfoldable pub is_client : DeviceRole → Bool
is_client client = true
is_client _ = false

unfoldable pub devices_by_role : DeviceRole → Manifest → List Device
unfolding role_eq
devices_by_role role m = keep (λ d. role_eq d.role role) m.devices

unfoldable pub switches : Manifest → List Device
unfolding is_client
switches m = keep (λ d. not (is_client d.role)) m.devices

unfoldable pub clients : Manifest → List Device
unfolding devices_by_role
clients m = devices_by_role client m

unfoldable pub edge_devices : Manifest → List Device
unfolding devices_by_role
edge_devices m = elim (devices_by_role edge m) [ [] ↦ devices_by_role leaf m | d ∷ ds ↦ d ∷ ds ]

-- {client.attached_switch for client in clients if client.attached_switch}
unfoldable pub attached_names : List Device → List Text
attached_names [] = []
attached_names (d ∷ ds) =
    let rest = attached_names ds in
    elim d.attached_switch [ none ↦ rest | some s ↦ if is_empty s then rest else s ∷ rest ]

unfoldable pub client_attached_devices : Manifest → List Device
unfolding attached_names clients switches
client_attached_devices m =
    keep (λ d. any (text_eq d.name) (attached_names (clients m))) (switches m)

-- set(xs)
unfoldable pub set_of : List Text → List Text
set_of [] = []
set_of (x ∷ xs) = let rest = set_of xs in if any (text_eq x) rest then rest else x ∷ rest

unfoldable pub names_of : List Device → List Text
names_of [] = []
names_of (d ∷ ds) = d.name ∷ names_of ds

-- One pass over an address field, with what it has seen: the duplicates.
unfoldable pub duplicates_of : (Device → Option Text) → List Text → List Device → List Text
duplicates_of field seen [] = []
duplicates_of field seen (d ∷ ds) = elim (field d) [
  | none ↦ duplicates_of field seen ds
  | some v ↦
      let rest = duplicates_of field (v ∷ seen) ds in
      if any (text_eq v) seen then v ∷ rest else rest
]

-- devices_by_name.get(name): of devices with one name, the dictionary holds the last.
unfoldable pub by_name : Text → List Device → Option Device
by_name name [] = none
by_name name (d ∷ ds) =
    let rest = by_name name ds in
    elim rest [ some e ↦ some e | none ↦ if text_eq d.name name then some d else none ]

abbrev pub require : Bool → Outcome (Unit {0})
require b = if b then returned tt else raised value_error

unfoldable pub for_each : {A : Type 0} → (A → Outcome (Unit {0})) → List A → Outcome (Unit {0})
for_each check [] = returned tt
for_each check (x ∷ xs) = and_then (check x) (λ _. for_each check xs)

abbrev pub have_no_duplicates : (Device → Option Text) → List Device → Outcome (Unit {0})
have_no_duplicates field ds = elim (duplicates_of field [] ds) [
  | [] ↦ returned tt
  | v ∷ vs ↦ raised value_error
]

abbrev pub is_within : List DeviceRole → List DeviceRole → Bool
is_within rs ss = not (any (λ r. not (any (role_eq r) ss)) rs)

-- policy_roles != switch_roles raises.
unfoldable pub check_policy : Manifest → Outcome (Unit {0})
unfolding switches role_eq
check_policy m =
    let switch_roles : List DeviceRole = map (λ d. d.role) (switches m) in
    let policy_roles : List DeviceRole = map (λ entry. entry.0) m.ecmp_hash_policy_by_role in
    require (is_within policy_roles switch_roles && is_within switch_roles policy_roles)

unfoldable pub check_endpoint : List Device → LinkEndpoint → Outcome (Unit {0})
unfolding by_name
check_endpoint ds e = require (is_some (by_name e.device ds))

unfoldable pub check_link : List Device → Link → Outcome (Unit {0})
unfolding check_endpoint
check_link ds link = and_then (check_endpoint ds link.left) (λ _. check_endpoint ds link.right)

unfoldable pub check_switch : Option Device → Outcome (Unit {0})
unfolding is_client
check_switch none = raised value_error
check_switch (some d) = require (not (is_client d.role))

unfoldable pub check_attached : List Device → Option Text → Outcome (Unit {0})
unfolding by_name check_switch
check_attached ds none = raised value_error
check_attached ds (some s) = if is_empty s then raised value_error else check_switch (by_name s ds)

unfoldable pub validate_topology_references : Manifest → Outcome Manifest
unfolding set_of names_of duplicates_of check_policy check_link check_attached clients for_each
validate_topology_references m =
    let ds : List Device = m.devices in
    and_then (require (length (names_of ds) == length (set_of (names_of ds)))) λ _.
      and_then (have_no_duplicates (λ d. d.mgmt_ip) ds) λ _.
        and_then (have_no_duplicates (λ d. d.data_ip) ds) λ _.
          and_then (have_no_duplicates (λ d. d.router_id) ds) λ _. and_then (check_policy m) λ _.
            and_then (for_each (check_link ds) m.links) λ _.
              and_then (for_each (λ c. check_attached ds c.attached_switch) (clients m))
                λ _. returned m
