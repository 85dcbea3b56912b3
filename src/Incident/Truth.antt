-- ===== src/Incident/Truth.antt =====
-- The ground truth of an episode (netopsbench/platform/incident/scoring.py), over the links of a
-- topology manifest.
use net_ops_bench.Prelude.{
  Bool, ◌&&◌, ◌||◌, Option, none, some, List, [], ◌∷◌, map, Text, codes, text_eq, is_empty, any,
  if◌then◌else◌, Outcome, returned, raised,
}
use net_ops_bench.Interface.{to_sonic_interface, are_interfaces_equivalent}
use net_ops_bench.FaultType.{or_empty}
use net_ops_bench.Scorer.{Location, dict, GroundTruth}
use net_ops_bench.Topology.Manifest.{LinkEndpoint, Link, Manifest, find_device, is_client}

-- The fields of an episode that are read here.
pub record Episode : Type 0 where
  pub fault_type : Text
  pub target_device : Option Text
  pub target_interface : Option Text

-- episode.is_healthy
unfoldable pub is_healthy : Episode → Bool
is_healthy episode = text_eq episode.fault_type (codes "none")

-- The inner function `location`: switches get the SONiC name of the interface.
unfoldable pub peer_location : Manifest → LinkEndpoint → Location
unfolding is_client
peer_location manifest e =
    let as_switch : Location = record {
      device = some e.device;
      interface = some (to_sonic_interface (some e.interface));
    } in
    let as_it_is : Location = record { device = some e.device; interface = some e.interface } in
    elim (find_device e.device manifest.devices) [
      | none ↦ as_it_is
      | some d ↦ if is_client d.role then as_it_is else as_switch
    ]

unfoldable pub is_target : Text → Text → LinkEndpoint → Bool
is_target device interface e =
    text_eq e.device device && are_interfaces_equivalent (some e.interface) (some interface)

-- The loop over the links: the first with an end at the target gives its other end.
unfoldable pub find_peer : Manifest → Text → Text → List Link → List Location
find_peer manifest device interface [] = []
find_peer manifest device interface (link ∷ links) =
    let rest = find_peer manifest device interface links in
    if is_target device interface link.left
    then peer_location manifest link.right ∷ []
    else if is_target device interface link.right
    then peer_location manifest link.left ∷ []
    else rest

-- _find_link_peer_locations; `none` is a backend without a topology directory.
unfoldable pub find_link_peer_locations :
    Option (Outcome Manifest) → Text → Text → Outcome (List Location)
find_link_peer_locations none device interface = returned []
find_link_peer_locations (some loaded) device interface =
    if is_empty device || is_empty interface then returned [] else elim loaded [
      | returned manifest ↦ returned (find_peer manifest device interface manifest.links)
      | raised e ↦ raised e
    ]

-- _INTERFACE_SYMMETRIC_FAULT_TYPES
unfoldable pub is_symmetric : Text → Bool
is_symmetric fault_type = any (text_eq fault_type) (codes "link_down" ∷ codes "link_flapping" ∷ [])

-- `if episode_info.get("target_interface")`
abbrev unless_empty : Option Text → Option Text
unless_empty none = none
unless_empty (some s) = if is_empty s then none else some s

truth_with : Episode → List Location → GroundTruth
truth_with episode equivalents = record {
  location = record {
    device = episode.target_device;
    interface = unless_empty episode.target_interface;
  };
  equivalent_locations = map dict equivalents;
  fault_type = episode.fault_type;
}

with_equivalents : Episode → Outcome (List Location) → Outcome GroundTruth
unfolding truth_with
with_equivalents episode (returned equivalents) = returned (truth_with episode equivalents)
with_equivalents episode (raised e) = raised e

unfoldable pub build_episode_ground_truth :
    Option (Outcome Manifest) → Episode → Outcome GroundTruth
unfolding with_equivalents truth_with
build_episode_ground_truth manifest episode =
    if is_symmetric episode.fault_type
    then with_equivalents episode (
        find_link_peer_locations manifest (or_empty episode.target_device)
          (or_empty episode.target_interface))
    else returned (truth_with episode [])
