-- ===== src/Checks/Manifests.antt =====
-- A manifest of two switches and a client (netopsbench/models/topology.py).
use net_ops_bench.Prelude.{◌≡◌, refl, Option, none, some, [], ◌∷◌, Text, codes, All, returned}
use net_ops_bench.Topology.Manifest.{
  DeviceRole, spine, leaf, client, Device, Link, Manifest, find_device, clients,
  validate_topology_references,
}
use net_ops_bench.Topology.Manifest.Naming.{IsUnique}
use net_ops_bench.Topology.Manifest.Addresses.{values_of}
use net_ops_bench.Topology.Manifest.References.{
  IsResolved, IsAttached, validate-IsClosed, validate-IsUnique,
}

abbrev device : Text → DeviceRole → Option Text → Text → Device
device name role attached_switch address = record {
  name = name;
  role = role;
  mgmt_ip = some address;
  data_ip = none;
  attached_switch = attached_switch;
  router_id = none;
}

abbrev link : Text → Text → Link
link one other = record {
  left = record { device = one; interface = codes "eth1" };
  right = record { device = other; interface = codes "eth1" };
}

abbrev manifest : Manifest
manifest = record {
  devices =
      device (codes "spine1") spine none (codes "10")
      ∷ device (codes "leaf1") leaf none (codes "11")
      ∷ device (codes "client1") client (some (codes "leaf1")) (codes "12")
      ∷ [];
  links = link (codes "spine1") (codes "leaf1") ∷ link (codes "leaf1") (codes "client1") ∷ [];
  ecmp_hash_policy_by_role = (leaf, 1) ∷ (spine, 0) ∷ [];
}

accepted : validate_topology_references manifest ≡ returned manifest
unfolding validate_topology_references net_ops_bench.Prelude.text_eq
accepted = refl

validate-IsClosed_example :
    All (λ d. find_device d.name manifest.devices ≡ some d) manifest.devices
    × All (λ l. IsResolved manifest l.left × IsResolved manifest l.right) manifest.links
    × All (IsAttached manifest) (clients manifest)
validate-IsClosed_example = validate-IsClosed manifest accepted

validate-IsUnique_example :
    IsUnique (values_of (λ d. d.mgmt_ip) manifest.devices)
    × IsUnique (values_of (λ d. d.data_ip) manifest.devices)
    × IsUnique (values_of (λ d. d.router_id) manifest.devices)
validate-IsUnique_example = validate-IsUnique manifest accepted
