-- ===== src/Traffic/Config.antt =====
-- The traffic configuration that netopsbench/platform/traffic/planner.py returns, and that it returns
-- one.
use Prim.Native.Nat.{min, max}
use net_ops_bench.Prelude.{
  ℕ, zero, suc, ◌+◌, ◌-◌, ◌%◌, ◌≡◌, refl, Bool, true, false, not, Option, none, some, List, [], ◌∷◌,
  All, All-imp, Text, Exn, length, count_if, leb, ltb, ◌==◌, arith, if◌then◌else◌, Outcome,
  returned, raised, Action, proceed, Dict, lookup, values,
}
use net_ops_bench.Traffic.{Rates, Client, Devices, Protocol, udp, tcp, Flow, is_set, or_else_text}
use net_ops_bench.Traffic.Planner.{
  client_at, destinations_from, candidate_destinations, Limits, Rejection, Plan, outgoing, incoming,
  built, build_candidate_flow, protocol_name, candidate_pool, cyclic_rank, settled, considered,
  estimate_error, estimated, bandwidth_error, next_protocol, try_candidate, try_candidates,
  ordered_candidates, try_add_from_pool, visit, visit_all, rounds, no_flows, plan_traffic,
}
use net_ops_bench.Traffic.Planning.{sort_candidates-All, keep-All}
use net_ops_bench.Traffic.Placing.{ArePlaced}
use net_ops_bench.Traffic.Destinations.{AreDistinct}
use net_ops_bench.Traffic.Ports.{plan_traffic-IsKept}

abbrev is_udp_protocol : Protocol → Bool
is_udp_protocol udp = true
is_udp_protocol tcp = false

abbrev is_tcp_protocol : Protocol → Bool
is_tcp_protocol udp = false
is_tcp_protocol tcp = true

abbrev pub is_udp : Flow → Bool
is_udp flow = is_udp_protocol flow.protocol

abbrev pub is_tcp : Flow → Bool
is_tcp flow = is_tcp_protocol flow.protocol

-- sorted({...}), one port at a time
unfoldable pub insert_port : ℕ → List ℕ → List ℕ
insert_port port [] = port ∷ []
insert_port port (p ∷ rest) =
    let after = insert_port port rest in
    if ltb port p then port ∷ p ∷ rest else (if port == p then p ∷ rest else p ∷ after)

unfoldable pub listener_ports : List Flow → List ℕ
unfolding insert_port
listener_ports [] = []
listener_ports (flow ∷ rest) = insert_port flow.dst_port (listener_ports rest)

-- min(values) and max(values), 0 if there are none
unfoldable pub min_value : List ℕ → ℕ
min_value [] = 0
min_value (n ∷ []) = n
min_value (n ∷ m ∷ rest) = min n (min_value (m ∷ rest))

unfoldable pub max_value : List ℕ → ℕ
max_value [] = 0
max_value (n ∷ rest) = max n (max_value rest)

-- The "stats" of a configuration that are no rates.
pub record Stats : Type 0 where
  pub total_flows : ℕ
  pub udp_flows : ℕ
  pub tcp_flows : ℕ
  pub rejected_candidates : ℕ
  pub rejected_by_source_budget : ℕ
  pub rejected_by_destination_budget : ℕ
  pub rejected_by_pps_budget : ℕ
  pub outgoing_flows_per_client : Dict ℕ
  pub incoming_flows_per_client : Dict ℕ
  pub min_incoming_flows : ℕ
  pub max_incoming_flows : ℕ
  pub required_listener_ports : List ℕ
  pub cross_switch_flows : ℕ
  pub same_switch_flows : ℕ

pub record TrafficConfig : Type 0 where
  pub flows : List Flow
  pub stats : Stats

unfoldable pub config_of : {R : Type 0} → Plan R → TrafficConfig
unfolding listener_ports min_value max_value
config_of plan = record {
  flows = plan.flows;
  stats = record {
    total_flows = length plan.flows;
    udp_flows = count_if is_udp plan.flows;
    tcp_flows = count_if is_tcp plan.flows;
    rejected_candidates = plan.rejected_source + plan.rejected_destination + plan.rejected_pps;
    rejected_by_source_budget = plan.rejected_source;
    rejected_by_destination_budget = plan.rejected_destination;
    rejected_by_pps_budget = plan.rejected_pps;
    outgoing_flows_per_client = plan.source_flow_count;
    incoming_flows_per_client = plan.incoming_flow_count;
    min_incoming_flows = min_value (values plan.incoming_flow_count);
    max_incoming_flows = max_value (values plan.incoming_flow_count);
    required_listener_ports = listener_ports plan.flows;
    cross_switch_flows = plan.cross_switch_flows;
    same_switch_flows = plan.same_switch_flows;
  };
}

finished : {R : Type 0} → Outcome Bool × Plan R → Outcome TrafficConfig
unfolding config_of
finished (returned _, plan) = returned (config_of plan)
finished (raised e, plan) = raised e

module _ {R : Type 0} (rates : Rates R) (limits : Limits R) (devices : Devices)
    (estimate_flow_pps : Flow → R) where
  unfoldable pub generate_traffic_config_from_topology : Outcome TrafficConfig
  unfolding finished
  generate_traffic_config_from_topology =
      finished (plan_traffic rates limits devices estimate_flow_pps)

-- The client has an address.
abbrev pub HasIp : Client → Type 0
HasIp c = is_set (or_else_text c.data_ip c.ip) ≡ true

abbrev Returns : {S : Type 0} → Outcome Bool × S → Type 0
Returns out = (b : Bool) × (out.0 ≡ returned b)

if_not-Returns :
    {S : Type 0} (k : Action S Bool) (out : Outcome Bool × S)
    → Returns out
    → ((t : S) → Returns (k t))
    → Returns (proceed (λ done t. if done then (returned true, t) else k t) out)
if_not-Returns k (returned true, s) h hk = (true, refl)
if_not-Returns k (returned false, s) h hk = hk s
if_not-Returns k (raised e, s) h hk = ground (arith, h.1)

and_then-Returns :
    {S : Type 0} (k : Action S Bool) (out : Outcome Bool × S)
    → Returns out
    → ((t : S) → Returns (k t))
    → Returns (proceed (λ _ t. k t) out)
and_then-Returns k (returned b, s) h hk = hk s
and_then-Returns k (raised e, s) h hk = ground (arith, h.1)

room_or_not :
    {S : Type 0} (b : Bool) (x y : Outcome Bool × S)
    → Returns x
    → Returns y
    → Returns (if b then x else y)
room_or_not true x y hx hy = hx
room_or_not false x y hx hy = hy

client_at-HasIp :
    (other : Client) (index : ℕ) (cs : List Client)
    → HasIp other
    → All HasIp cs
    → HasIp (client_at other index cs)
unfolding client_at
client_at-HasIp other index [] h hs = h
client_at-HasIp other zero (c ∷ rest) h hs = hs.0
client_at-HasIp other (suc index) (c ∷ rest) h hs = client_at-HasIp other index rest h hs.1

module _ {R : Type 0} (rates : Rates R) (limits : Limits R) (devices : Devices)
    (estimate_flow_pps : Flow → R)
    (priced : (protocol : Protocol)
      → (b : Text) × (lookup (protocol_name protocol) limits.bandwidth_by_protocol ≡ some b)
        × (bandwidth_error limits b ≡ none)) where
  settled-Returns :
      (flow : Flow) (plan : Plan R) (error : Option Rejection)
      → Returns (settled rates limits devices estimate_flow_pps flow plan error)
  unfolding settled
  settled-Returns flow plan none = (true, refl)
  settled-Returns flow plan (some e) = (false, refl)

  estimate_error-none :
      (plan : Plan R) (flow : Flow)
      → bandwidth_error limits flow.bandwidth ≡ none
      → estimate_error rates limits devices estimate_flow_pps plan flow ≡ none
  unfolding estimate_error
  estimate_error-none plan flow n = ground (arith, n)

  estimated-Returns :
      (plan : Plan R) (flow : Flow) (error : Option Exn)
      → error ≡ none
      → Returns (estimated rates limits devices estimate_flow_pps plan flow error)
  unfolding estimated
  estimated-Returns plan flow none h = settled-Returns flow plan _
  estimated-Returns plan flow (some e) h = ground (arith, h)

  considered-Returns :
      (plan : Plan R) (flow_id : ℕ) (src dst : Client) (protocol : Protocol) (port : ℕ)
      (src_ip dst_ip bandwidth : Option Text)
      → is_set src_ip ≡ true
      → is_set dst_ip ≡ true
      → (b : Text) → bandwidth ≡ some b
      → bandwidth_error limits b ≡ none
      → Returns (
          considered rates limits devices estimate_flow_pps plan
            (built limits flow_id src dst protocol port src_ip dst_ip bandwidth))
  unfolding considered built
  considered-Returns plan flow_id src dst protocol port none dst_ip bandwidth h k b e n =
      ground (arith, h)
  considered-Returns plan flow_id src dst protocol port (some s) none bandwidth h k b e n =
      ground (arith, k)
  considered-Returns plan flow_id src dst protocol port (some s) (some t) bandwidth h k b e n =
      let flow : Flow = record {
        flow_id = flow_id;
        src = src.name;
        src_ip = s;
        dst = dst.name;
        dst_ip = t;
        dst_port = port;
        protocol = protocol;
        bandwidth = b;
        payload = elim protocol [ udp ↦ limits.udp_payload_len_bytes | tcp ↦ limits.tcp_mss_bytes ];
      } in
      rw (h, k, e)
        (estimated-Returns plan flow
          (estimate_error rates limits devices estimate_flow_pps plan flow)
          (estimate_error-none plan flow n))

  try_candidate-Returns :
      (src dst : Client) (plan : Plan R)
      → HasIp src
      → HasIp dst
      → Returns (try_candidate rates limits devices estimate_flow_pps src dst plan)
  unfolding try_candidate build_candidate_flow
  try_candidate-Returns src dst plan hs hd =
      room_or_not (leb limits.listener_port_pool_size (incoming plan dst.name)) _ _ (false, refl)
        (considered-Returns plan plan.flow_id src dst
          (next_protocol rates limits devices estimate_flow_pps plan src)
          (limits.listener_port_base + incoming plan dst.name) (or_else_text src.data_ip src.ip)
          (or_else_text dst.data_ip dst.ip)
          (lookup (protocol_name (next_protocol rates limits devices estimate_flow_pps plan src))
            limits.bandwidth_by_protocol)
          hs hd (priced (next_protocol rates limits devices estimate_flow_pps plan src)).0
          (priced (next_protocol rates limits devices estimate_flow_pps plan src)).1
          (priced (next_protocol rates limits devices estimate_flow_pps plan src)).2)

  try_candidates-Returns :
      (src : Client) (candidates : List Client) (plan : Plan R)
      → HasIp src
      → All HasIp candidates
      → Returns (try_candidates rates limits devices estimate_flow_pps src candidates plan)
  unfolding try_candidates
  try_candidates-Returns src [] plan hs hd = (false, refl)
  try_candidates-Returns src (dst ∷ rest) plan hs hd =
      if_not-Returns (try_candidates rates limits devices estimate_flow_pps src rest)
        (try_candidate rates limits devices estimate_flow_pps src dst plan)
        (try_candidate-Returns src dst plan hs hd.0)
        (λ t. try_candidates-Returns src rest t hs hd.1)

  try_add_from_pool-Returns :
      (cross : Bool) (src_idx : ℕ) (src : Client) (plan : Plan R)
      → HasIp src
      → All HasIp (candidate_destinations devices.clients src_idx src)
      → Returns (try_add_from_pool rates limits devices estimate_flow_pps cross src_idx src plan)
  unfolding try_add_from_pool ordered_candidates candidate_pool
  try_add_from_pool-Returns cross src_idx src plan hs hd =
      try_candidates-Returns src
        (ordered_candidates rates limits devices estimate_flow_pps cross src_idx src plan) plan hs
        (sort_candidates-All HasIp
          (λ x. (
            incoming plan x.name,
            cyclic_rank
                (candidate_pool rates limits devices estimate_flow_pps cross src_idx src plan)
                x.name,
          ))
          (candidate_pool rates limits devices estimate_flow_pps cross src_idx src plan)
          (All-imp _ HasIp
            (candidate_pool rates limits devices estimate_flow_pps cross src_idx src plan)
            (λ c h. h.1)
            (keep-All HasIp _ (candidate_destinations devices.clients src_idx src) hd)))

  visit-Returns :
      (cross : Bool) (src_idx : ℕ) (src : Client) (plan : Plan R)
      → HasIp src
      → All HasIp (candidate_destinations devices.clients src_idx src)
      → Returns (visit rates limits devices estimate_flow_pps cross src_idx src plan)
  unfolding visit
  visit-Returns cross src_idx src plan hs hd =
      room_or_not (leb limits.flows_per_client (outgoing plan src.name)) _ _ (true, refl)
        (if_not-Returns
          (try_add_from_pool rates limits devices estimate_flow_pps (not cross) src_idx src)
          (try_add_from_pool rates limits devices estimate_flow_pps cross src_idx src plan)
          (try_add_from_pool-Returns cross src_idx src plan hs hd)
          (λ t. try_add_from_pool-Returns (not cross) src_idx src t hs hd))

  destinations-HasIp :
      (src_idx offset n : ℕ) (clients : List Client) (src : Client)
      → HasIp src
      → All HasIp clients
      → All HasIp (destinations_from clients src src_idx offset n)
  unfolding destinations_from
  destinations-HasIp src_idx offset zero clients src hs hc = tt
  destinations-HasIp src_idx offset (suc n) clients src hs hc = (
    client_at-HasIp src ((src_idx + offset) % length clients) clients hs hc,
    destinations-HasIp src_idx (offset + 1) n clients src hs hc,
  )

  visit_all-Returns :
      (cross : Bool) (src_idx : ℕ) (rest : List Client) (plan : Plan R)
      → All HasIp devices.clients
      → All HasIp rest
      → Returns (visit_all rates limits devices estimate_flow_pps cross src_idx rest plan)
  unfolding visit_all candidate_destinations
  visit_all-Returns cross src_idx [] plan hc hr = (true, refl)
  visit_all-Returns cross src_idx (src ∷ rest) plan hc hr =
      and_then-Returns (visit_all rates limits devices estimate_flow_pps cross (src_idx + 1) rest)
        (visit rates limits devices estimate_flow_pps cross src_idx src plan)
        (visit-Returns cross src_idx src plan hr.0
          (destinations-HasIp src_idx 1 (length devices.clients - 1) devices.clients src hr.0 hc))
        (λ t. visit_all-Returns cross (src_idx + 1) rest t hc hr.1)

  rounds-Returns :
      (round_index n : ℕ) (plan : Plan R)
      → All HasIp devices.clients
      → Returns (rounds rates limits devices estimate_flow_pps round_index n plan)
  unfolding rounds
  rounds-Returns round_index zero plan hc = (true, refl)
  rounds-Returns round_index (suc n) plan hc =
      and_then-Returns (rounds rates limits devices estimate_flow_pps (round_index + 1) n)
        (visit_all rates limits devices estimate_flow_pps (ltb round_index 3) 0 devices.clients
          plan)
        (visit_all-Returns (ltb round_index 3) 0 devices.clients plan hc hc)
        (λ t. rounds-Returns (round_index + 1) n t hc)

  plan_traffic-Returns :
      All HasIp devices.clients → Returns (plan_traffic rates limits devices estimate_flow_pps)
  unfolding plan_traffic
  plan_traffic-Returns hc =
      rounds-Returns 0 limits.flows_per_client (no_flows rates limits devices estimate_flow_pps) hc

udp_or_tcp : (p : Protocol) → is_tcp_protocol p ≡ not (is_udp_protocol p)
udp_or_tcp udp = refl
udp_or_tcp tcp = refl

count_if-protocols :
    (flows : List Flow) → count_if is_udp flows + count_if is_tcp flows ≡ length flows
count_if-protocols [] = refl
count_if-protocols (f ∷ rest) = ground (arith, count_if-protocols rest, udp_or_tcp f.protocol)

finished-Returns :
    {R : Type 0} (out : Outcome Bool × Plan R)
    → Returns out
    → finished out ≡ returned (config_of out.1)
unfolding finished
finished-Returns (returned b, plan) h = refl
finished-Returns (raised e, plan) h = ground (arith, h.1)

module _ {R : Type 0} (rates : Rates R) (limits : Limits R) (devices : Devices)
    (estimate_flow_pps : Flow → R) where
  -- If the clients have distinct names and an address each, and both protocols have a bandwidth that the
  -- estimator can read, a
  -- configuration is returned, whose flows have their places and are as many as those of the two
  -- protocols, and as those that cross switches and those that do not.
  pub generate_traffic_config-returns :
      ((protocol : Protocol)
        → (b : Text) × (lookup (protocol_name protocol) limits.bandwidth_by_protocol ≡ some b)
          × (bandwidth_error limits b ≡ none))
      → All HasIp devices.clients
      → AreDistinct devices.clients
      → (config : TrafficConfig) × (generate_traffic_config_from_topology rates limits devices
            estimate_flow_pps
          ≡ returned config)
        × ArePlaced limits [] config.flows
        × (config.stats.total_flows ≡ length config.flows)
        × (config.stats.udp_flows + config.stats.tcp_flows ≡ config.stats.total_flows)
        × (config.stats.cross_switch_flows + config.stats.same_switch_flows
            ≡ config.stats.total_flows)
  unfolding generate_traffic_config_from_topology config_of
  generate_traffic_config-returns priced hc distinct =
      let out : Outcome Bool × Plan R = plan_traffic rates limits devices estimate_flow_pps in
      let kept = plan_traffic-IsKept rates limits devices estimate_flow_pps distinct in
      (
        config_of out.1,
        finished-Returns out
            (plan_traffic-Returns rates limits devices estimate_flow_pps priced hc),
        kept.placed,
        refl,
        count_if-protocols out.1.flows,
        kept.paths,
      )
