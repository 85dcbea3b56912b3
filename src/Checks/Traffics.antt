-- ===== src/Checks/Traffics.antt =====
-- A plan for three clients (netopsbench/platform/traffic).
use net_ops_bench.Prelude.{
  ℕ, ◌+◌, ◌≤◌, count_if, ◌/◌, ◌<◌, ◌≡◌, refl, none, some, [], ◌∷◌, Text, codes, text_eq, String,
  All, length, ltb, returned, lookup, put, if◌then◌else◌, is_empty, any, not, ◌||◌, is_digit,
  is_space,
}
use net_ops_bench.Traffic.{
  Rates, Client, Devices, Protocol, udp, tcp, Flow, or_else_text, switch_path_pps,
}
use net_ops_bench.Traffic.Planner.{
  Limits, Plan, plan_traffic, outgoing, incoming, protocol_name, bandwidth_error, value_error,
}
use net_ops_bench.Traffic.Placing.{ArePlaced, is_from, is_to}
use net_ops_bench.Traffic.Destinations.{AreDistinct}
use net_ops_bench.Traffic.Ports.{plan_traffic-ArePlaced, plan_traffic-ports, plan_traffic-counts}
use net_ops_bench.Traffic.Paths.{rate_of}
use net_ops_bench.Traffic.Loads.{plan_traffic-IsLight, IsLight}
use net_ops_bench.Traffic.Config.{
  TrafficConfig, generate_traffic_config_from_topology, generate_traffic_config-returns, HasIp,
}

-- Whole packets per second.
abbrev rates : Rates ℕ
rates = record {
  nothing = 0;
  plus = λ a b. a + b;
  divided = λ a n. a / n;
  exceeds = λ a b. ltb b a;
  is_positive = λ a. ltb 0 a;
}

abbrev client : String → String → String → Client
client name ip leaf = record {
  name = codes name;
  data_ip = none;
  ip = some (codes ip);
  leaf = some (codes leaf);
  edge = none;
  attached_switch = none;
}

abbrev devices : Devices
devices = record {
  clients = client "a" "1" "x" ∷ client "b" "2" "x" ∷ client "c" "3" "y" ∷ [];
  spines = record { name = codes "s"; pod = none } ∷ [];
  leafs = record { name = codes "x"; pod = none } ∷ record { name = codes "y"; pod = none } ∷ [];
  cores = [];
  aggs = [];
  edges = [];
}

abbrev limits : Limits ℕ
limits = record {
  flows_per_client = 2;
  max_pps_per_client = 20;
  bandwidth_by_protocol = (codes "udp", codes "1M") ∷ (codes "tcp", codes "2M") ∷ [];
  switch_pps_limit = some 45;
  listener_port_base = 5201;
  listener_port_pool_size = 4;
  udp_payload_len_bytes = 1400;
  tcp_mss_bytes = 1360;
  float_error =
      λ text. if is_empty text || any (λ c. not (is_digit c)) text then some value_error else none;
}

abbrev estimate : Flow → ℕ
estimate flow = 10

abbrev plan : Plan ℕ
plan = (plan_traffic rates limits devices estimate).1

abbrev flow : ℕ → String → String → String → String → ℕ → Flow
flow id src src_ip dst dst_ip port = record {
  flow_id = id;
  src = codes src;
  src_ip = codes src_ip;
  dst = codes dst;
  dst_ip = codes dst_ip;
  dst_port = port;
  protocol = udp;
  bandwidth = codes "1M";
  payload = 1400;
}

abbrev last_flow : Flow
last_flow = record (flow 3 "c" "3" "b" "2" 5201) {
  protocol = tcp;
  bandwidth = codes "2M";
  payload = 1360;
}

planned_flows :
    plan.flows
    ≡ flow 0 "a" "1" "c" "3" 5201
      ∷ flow 1 "b" "2" "c" "3" 5202
      ∷ flow 2 "c" "3" "a" "1" 5201
      ∷ last_flow
      ∷ []
unfolding plan_traffic lookup put text_eq switch_path_pps is_space is_digit
planned_flows = refl

distinct : AreDistinct devices.clients
unfolding text_eq
distinct = ((refl, (refl, tt)), ((refl, tt), (tt, tt)))

plan_traffic-ArePlaced_example : ArePlaced limits [] plan.flows
plan_traffic-ArePlaced_example = plan_traffic-ArePlaced rates limits devices estimate distinct

plan_traffic-ports_example : 5201 < 5202
plan_traffic-ports_example =
    plan_traffic-ports rates limits devices estimate distinct [] []
      (flow 2 "c" "3" "a" "1" 5201 ∷ last_flow ∷ []) (flow 0 "a" "1" "c" "3" 5201)
      (flow 1 "b" "2" "c" "3" 5202) planned_flows refl

plan_traffic-IsLight_example :
    IsLight rates limits devices estimate 20 (rate_of rates plan.client_pps (codes "s"))
    × IsLight rates limits devices estimate 45 (rate_of rates plan.switch_pps (codes "s"))
plan_traffic-IsLight_example =
    plan_traffic-IsLight rates limits devices estimate 45 refl (codes "s")

priced :
    (protocol : Protocol)
    → (b : Text) × (lookup (protocol_name protocol) limits.bandwidth_by_protocol ≡ some b)
      × (bandwidth_error limits b ≡ none)
unfolding lookup text_eq bandwidth_error is_digit is_space
priced udp = (codes "1M", refl, refl)
priced tcp = (codes "2M", refl, refl)

-- A text that is no number.
unreadable : bandwidth_error limits (codes "fast") ≡ some value_error
unfolding bandwidth_error is_digit is_space
unreadable = refl

have_ips : All HasIp devices.clients
unfolding or_else_text
have_ips = (refl, (refl, (refl, tt)))

generate_traffic_config-returns_example :
    (config : TrafficConfig) × (generate_traffic_config_from_topology rates limits devices estimate
      ≡ returned config)
    × ArePlaced limits [] config.flows
    × (config.stats.total_flows ≡ length config.flows)
    × (config.stats.udp_flows + config.stats.tcp_flows ≡ config.stats.total_flows)
    × (config.stats.cross_switch_flows + config.stats.same_switch_flows ≡ config.stats.total_flows)
generate_traffic_config-returns_example =
    generate_traffic_config-returns rates limits devices estimate priced have_ips distinct

plan_traffic-counts_example :
    (outgoing plan (codes "c") ≡ count_if (is_from (codes "c")) plan.flows)
    × (incoming plan (codes "c") ≡ count_if (is_to (codes "c")) plan.flows)
    × (outgoing plan (codes "c") ≤ 2)
    × (incoming plan (codes "c") ≤ 2)
    × (plan.cross_switch_flows + plan.same_switch_flows ≡ length plan.flows)
plan_traffic-counts_example = plan_traffic-counts rates limits devices estimate distinct (codes "c")
