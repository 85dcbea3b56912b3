-- ===== src/Traffic.antt =====
-- The standard background traffic of a topology: the data of netopsbench/platform/traffic, and the load
-- that a flow puts on the switches of its path (estimator.py).
pub mod Planner
pub mod Planning
pub mod Placing
pub mod Destinations
pub mod Ports
pub mod Paths
pub mod Loads
pub mod Estimates
pub mod Config
use net_ops_bench.Prelude.{
  ℕ, ◌+◌, Bool, true, false, not, ◌&&◌, ◌||◌, Option, none, some, List, [], ◌∷◌, ◌++◌, map, Text,
  text_eq, is_empty, length, any, keep, ◌==◌, if◌then◌else◌, Dict, lookup, lookup_or, put,
}

-- The float arithmetic that the planner uses on packet rates.
pub record Rates (R : Type 0) : Type 0 where
  pub nothing : R
  pub plus : R → R → R
  pub divided : R → ℕ → R
  pub exceeds : R → R → Bool
  pub is_positive : R → Bool

pub record Client : Type 0 where
  pub name : Text
  pub data_ip : Option Text
  pub ip : Option Text
  pub leaf : Option Text
  pub edge : Option Text
  pub attached_switch : Option Text

pub record Device : Type 0 where
  pub name : Text
  pub pod : Option ℕ

pub record Devices : Type 0 where
  pub clients : List Client
  pub spines : List Device
  pub leafs : List Device
  pub cores : List Device
  pub aggs : List Device
  pub edges : List Device

pub data Protocol : Type 0 where
  udp : Protocol
  tcp : Protocol

-- The payload length of a UDP flow is the segment size of a TCP flow.
pub record Flow : Type 0 where
  pub flow_id : ℕ
  pub src : Text
  pub src_ip : Text
  pub dst : Text
  pub dst_ip : Text
  pub dst_port : ℕ
  pub protocol : Protocol
  pub bandwidth : Text
  pub payload : ℕ

-- bool(x), for a text or None
abbrev pub is_set : Option Text → Bool
is_set none = false
is_set (some t) = not (is_empty t)

-- a or b
unfoldable pub or_else_text : Option Text → Option Text → Option Text
or_else_text a b = if is_set a then a else b

unfoldable pub switch_of_client : Client → Option Text
switch_of_client c = or_else_text c.leaf (or_else_text c.edge c.attached_switch)

abbrev pub is_in : Text → List Text → Bool
is_in t names = any (text_eq t) names

abbrev pub same_text : Option Text → Option Text → Bool
same_text none none = true
same_text (some s) (some t) = text_eq s t
same_text _ _ = false

unfoldable pub same_pod : Option ℕ → Option ℕ → Bool
same_pod none none = true
same_pod (some a) (some b) = a == b
same_pod _ _ = false

abbrev pub names : List Device → List Text
names ds = map (λ d. d.name) ds

-- device_pods, in the order of its keys.
unfoldable pub put_pods : List Device → Dict (Option ℕ) → Dict (Option ℕ)
put_pods [] d = d
put_pods (x ∷ xs) d = put_pods xs (put x.name x.pod d)

unfoldable pub device_pods : Devices → Dict (Option ℕ)
unfolding put_pods
device_pods devices = put_pods devices.edges (put_pods devices.aggs [])

-- device_pods.get(name)
unfoldable pub pod_of : Devices → Text → Option ℕ
unfolding device_pods
pod_of devices name = lookup_or none (lookup name (device_pods devices))

module _ {R : Type 0} (rates : Rates R) where
  -- additions[name] = additions.get(name, 0.0) + pps
  unfoldable pub add_rate : Text → R → Dict R → Dict R
  add_rate name pps d = put name (rates.plus (lookup_or rates.nothing (lookup name d)) pps) d

  unfoldable pub add_endpoint : Devices → R → Option Text → Dict R → Dict R
  unfolding add_rate
  add_endpoint devices pps none d = d
  add_endpoint devices pps (some endpoint) d =
      if is_in endpoint (names devices.leafs) || is_in endpoint (names devices.edges)
      then add_rate endpoint pps d
      else d

  -- The same part of a load on each of some switches.
  unfoldable pub add_each : R → List Text → Dict R → Dict R
  unfolding add_rate
  add_each part [] d = d
  add_each part (name ∷ rest) d = add_each part rest (add_rate name part d)

  unfoldable pub spread : R → List Text → Dict R → Dict R
  unfolding add_each
  spread pps switches d = add_each (rates.divided pps (length switches)) switches d

  unfoldable pub aggs_of_pod : Devices → Option ℕ → List Text
  unfolding pod_of same_pod
  aggs_of_pod devices pod = keep (λ name. same_pod (pod_of devices name) pod) (names devices.aggs)

  unfoldable pub spread_pod : Devices → R → Option ℕ → Dict R → Dict R
  unfolding spread aggs_of_pod
  spread_pod devices pps none d = d
  spread_pod devices pps (some pod) d = spread pps (aggs_of_pod devices (some pod)) d

  -- The path through the pods of a fat tree, the pod of the source first.
  unfoldable pub through_pods : Devices → R → Option ℕ → Option ℕ → Dict R → Dict R
  unfolding spread spread_pod same_pod
  through_pods devices pps src_pod dst_pod d =
      if same_pod src_pod dst_pod
      then spread_pod devices pps src_pod d
      else spread pps (names devices.cores)
          (spread_pod devices pps dst_pod (spread_pod devices pps src_pod d))

  -- The path between two different switches.
  unfoldable pub through_fabric : Devices → R → Text → Text → Dict R → Dict R
  unfolding spread through_pods pod_of
  through_fabric devices pps src_switch dst_switch d =
      if is_in src_switch (names devices.leafs) && is_in dst_switch (names devices.leafs)
      then spread pps (names devices.spines) d
      else through_pods devices pps (pod_of devices src_switch) (pod_of devices dst_switch) d

  unfoldable pub between : Devices → R → Option Text → Option Text → Dict R → Dict R
  unfolding through_fabric
  between devices pps (some src_switch) (some dst_switch) d =
      if is_empty src_switch || (is_empty dst_switch || text_eq src_switch dst_switch)
      then d
      else through_fabric devices pps src_switch dst_switch d
  between devices pps _ _ d = d

  unfoldable pub switch_path_pps : Devices → Option Text → Option Text → R → Dict R
  unfolding add_endpoint between
  switch_path_pps devices src_switch dst_switch pps =
      between devices pps src_switch dst_switch
        (add_endpoint devices pps dst_switch (add_endpoint devices pps src_switch []))
