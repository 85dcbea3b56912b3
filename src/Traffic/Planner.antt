-- ===== src/Traffic/Planner.antt =====
-- The greedy planner of netopsbench/platform/traffic/planner.py. `estimate_flow_pps` is the rate of a flow
-- whose bandwidth the estimator can read; where it cannot, the planner raises what bandwidth_error says.
use net_ops_bench.Prelude.{
  ℕ, zero, suc, ◌+◌, ◌-◌, ◌%◌, Bool, true, false, not, ◌&&◌, ◌||◌, Option, none, some, List, [],
  ◌∷◌, ◌++◌, map, Text, codes, text_eq, is_empty, length, any, keep, leb, ltb, ◌==◌, if◌then◌else◌,
  strip, Dict, lookup, lookup_or, put, Exn, Outcome, returned, raised, Action, proceed,
}
use net_ops_bench.Traffic.{
  Rates, Client, Devices, Protocol, udp, tcp, Flow, is_set, or_else_text, switch_of_client,
  same_text, names, add_rate, switch_path_pps,
}

-- candidates[index]: an index in range
unfoldable pub client_at : Client → ℕ → List Client → Client
client_at other index [] = other
client_at other zero (c ∷ rest) = c
client_at other (suc index) (c ∷ rest) = client_at other index rest

-- The destinations at the offsets from `offset` on.
unfoldable pub destinations_from : List Client → Client → ℕ → ℕ → ℕ → List Client
unfolding client_at
destinations_from clients src src_idx offset zero = []
destinations_from clients src src_idx offset (suc n) =
    client_at src ((src_idx + offset) % length clients) clients
    ∷ destinations_from clients src src_idx (offset + 1) n

-- Each other client once, from the next one on, around the end of the list.
unfoldable pub candidate_destinations : List Client → ℕ → Client → List Client
unfolding destinations_from
candidate_destinations clients src_idx src =
    destinations_from clients src src_idx 1 (length clients - 1)

abbrev pub value_error : Exn
value_error = record { error_type = codes "ValueError"; message = codes "Missing client IP" }

abbrev pub key_error : Exn
key_error = record { error_type = codes "KeyError"; message = codes "protocol" }

abbrev pub protocol_name : Protocol → Text
protocol_name udp = codes "udp"
protocol_name tcp = codes "tcp"

-- The budgets of a plan, and the constants of its flows.
pub record Limits (R : Type 0) : Type 0 where
  pub flows_per_client : ℕ
  pub max_pps_per_client : R
  pub bandwidth_by_protocol : Dict Text
  pub switch_pps_limit : Option R
  pub listener_port_base : ℕ
  pub listener_port_pool_size : ℕ
  pub udp_payload_len_bytes : ℕ
  pub tcp_mss_bytes : ℕ
  -- What float(text) raises.
  pub float_error : Text → Option Exn

unfoldable pub upper_code : ℕ → ℕ
upper_code c = if leb 97 c && leb c 122 then c - 32 else c

-- The unit at the end of an upper-case text: K, M or G.
abbrev pub is_unit : ℕ → Bool
is_unit c = (c == 75) || ((c == 77) || (c == 71))

-- value[:-1] if the value ends with a unit
unfoldable pub without_unit : Text → Text
without_unit [] = []
without_unit (c ∷ []) = if is_unit c then [] else c ∷ []
without_unit (c ∷ d ∷ rest) = c ∷ without_unit (d ∷ rest)

-- What bandwidth_to_bps raises: what float raises on the text without its unit, and nothing on an empty
-- text.
unfoldable pub bandwidth_error : {R : Type 0} → Limits R → Text → Option Exn
unfolding strip upper_code without_unit
bandwidth_error limits bandwidth =
    if is_empty bandwidth
    then none
    else limits.float_error (without_unit (map upper_code (strip bandwidth)))

pub data Rejection : Type 0 where
  source_budget : Rejection
  destination_budget : Rejection
  pps_budget : Rejection

-- The variables of the planner. A set of names is the list of the names that were added.
pub record Plan (R : Type 0) : Type 0 where
  pub flows : List Flow
  pub flow_id : ℕ
  pub switch_pps : Dict R
  pub client_pps : Dict R
  pub source_flow_count : Dict ℕ
  pub source_used_dsts : Dict (List Text)
  pub incoming_flow_count : Dict ℕ
  pub cross_switch_flows : ℕ
  pub same_switch_flows : ℕ
  pub rejected_source : ℕ
  pub rejected_destination : ℕ
  pub rejected_pps : ℕ

-- {name: value for name in names}
unfoldable pub constant {ℓ} : {V : Type ℓ} → V → List Text → Dict V → Dict V
constant v [] d = d
constant v (name ∷ rest) d = constant v rest (put name v d)

-- The counters have an entry for each client from the start.
abbrev pub outgoing : {R : Type 0} → Plan R → Text → ℕ
outgoing plan name = lookup_or 0 (lookup name plan.source_flow_count)

abbrev pub incoming : {R : Type 0} → Plan R → Text → ℕ
incoming plan name = lookup_or 0 (lookup name plan.incoming_flow_count)

unfoldable pub is_used : {R : Type 0} → Plan R → Text → Text → Bool
is_used plan src dst = any (text_eq dst) (lookup_or [] (lookup src plan.source_used_dsts))

unfoldable pub reject : {R : Type 0} → Rejection → Plan R → Plan R
reject source_budget plan = record plan { rejected_source = plan.rejected_source + 1 }
reject destination_budget plan = record plan {
  rejected_destination = plan.rejected_destination + 1;
}
reject pps_budget plan = record plan { rejected_pps = plan.rejected_pps + 1 }

-- Both are set, and differ.
unfoldable pub is_cross : Option Text → Option Text → Bool
is_cross a b = is_set a && (is_set b && not (same_text a b))

-- {client["name"]: attached_switch for ... if isinstance(attached_switch, str)}
unfoldable pub put_switches : List Client → Dict Text → Dict Text
put_switches [] d = d
put_switches (c ∷ rest) d =
    put_switches rest (elim (switch_of_client c) [ none ↦ d | some switch ↦ put c.name switch d ])

-- Stable insertion by (count, rank).
unfoldable pub insert_candidate : (Client → ℕ × ℕ) → Client → List Client → List Client
insert_candidate key c [] = c ∷ []
insert_candidate key c (d ∷ rest) =
    let after = insert_candidate key c rest in
    if ltb (key d).0 (key c).0 || (((key d).0 == (key c).0) && ltb (key d).1 (key c).1)
    then d ∷ after
    else c ∷ d ∷ rest

unfoldable pub sort_candidates : (Client → ℕ × ℕ) → List Client → List Client
unfolding insert_candidate
sort_candidates key [] = []
sort_candidates key (c ∷ rest) = insert_candidate key c (sort_candidates key rest)

-- cyclic_rank
unfoldable pub ranks_from : ℕ → List Client → Dict ℕ → Dict ℕ
ranks_from rank [] d = d
ranks_from rank (c ∷ rest) d = ranks_from (rank + 1) rest (put c.name rank d)

abbrev pub cyclic_rank : List Client → Text → ℕ
cyclic_rank candidate_pool name = lookup_or 0 (lookup name (ranks_from 0 candidate_pool []))

-- The first attempt, and the second if the first had no success.
abbrev pub if_not : {S : Type 0} → Action S Bool → Action S Bool → Action S Bool
if_not first second s = proceed (λ done t. if done then (returned true, t) else second t) (first s)

-- One pass of a loop that ignores the answer, then the rest.
abbrev pub and_then : {S : Type 0} → Action S Bool → Action S Bool → Action S Bool
and_then first second s = proceed (λ _ t. second t) (first s)

module _ {R : Type 0} (limits : Limits R) where
  unfoldable pub built :
      ℕ → Client → Client → Protocol → ℕ → Option Text → Option Text → Option Text → Outcome Flow
  built flow_id src dst protocol port (some src_ip) (some dst_ip) bandwidth =
      if is_set (some src_ip) && is_set (some dst_ip)
      then elim bandwidth [
        | none ↦ raised key_error
        | some b ↦ returned (record {
          flow_id = flow_id;
          src = src.name;
          src_ip = src_ip;
          dst = dst.name;
          dst_ip = dst_ip;
          dst_port = port;
          protocol = protocol;
          bandwidth = b;
          payload = elim protocol [
            | udp ↦ limits.udp_payload_len_bytes
            | tcp ↦ limits.tcp_mss_bytes
          ];
        })
      ]
      else raised value_error
  built flow_id src dst protocol port none dst_ip bandwidth = raised value_error
  built flow_id src dst protocol port (some src_ip) none bandwidth = raised value_error

  unfoldable pub build_candidate_flow : ℕ → Client → Client → Protocol → ℕ → Outcome Flow
  unfolding built or_else_text
  build_candidate_flow flow_id src dst protocol port =
      built flow_id src dst protocol port (or_else_text src.data_ip src.ip)
        (or_else_text dst.data_ip dst.ip)
        (lookup (protocol_name protocol) limits.bandwidth_by_protocol)

module _ {R : Type 0} (rates : Rates R) (limits : Limits R) (devices : Devices)
    (estimate_flow_pps : Flow → R) where
  -- client_to_switch.get(name)
  unfoldable pub switch_of : Text → Option Text
  unfolding put_switches
  switch_of name = lookup name (put_switches devices.clients [])

  -- What the switches of the flow's path would get.
  unfoldable pub additions : Flow → Dict R
  unfolding switch_of
  additions flow =
      switch_path_pps rates devices (switch_of flow.src) (switch_of flow.dst)
        (estimate_flow_pps flow)

  -- What a counter of rates would hold after an addition.
  unfoldable pub raised_rate : Dict R → Text → R → R
  raised_rate counter name pps = rates.plus (lookup_or rates.nothing (lookup name counter)) pps

  unfoldable pub overloads : Plan R → R → Dict R → Bool
  unfolding raised_rate
  overloads plan limit added =
      any (λ e. rates.exceeds (raised_rate plan.switch_pps e.0 e.1) limit) added

  unfoldable pub switch_error : Plan R → Flow → Option R → Option Rejection
  unfolding overloads additions
  switch_error plan flow none = none
  switch_error plan flow (some limit) =
      if overloads plan limit (additions flow) then some pps_budget else none

  unfoldable pub admission_error : Plan R → Flow → Option Rejection
  unfolding switch_error raised_rate
  admission_error plan flow =
      if leb limits.flows_per_client (outgoing plan flow.src)
      then some source_budget
      else if leb limits.flows_per_client (incoming plan flow.dst)
      then some destination_budget
      else if rates.exceeds (raised_rate plan.client_pps flow.src (estimate_flow_pps flow))
          limits.max_pps_per_client
      then some pps_budget
      else switch_error plan flow limits.switch_pps_limit

  -- switch_pps[name] += addition, for each addition
  unfoldable pub add_all : Dict R → Dict R → Dict R
  unfolding add_rate
  add_all [] counter = counter
  add_all ((name, pps) ∷ rest) counter = add_all rest (add_rate rates name pps counter)

  unfoldable pub admit_flow : Flow → Plan R → Plan R
  unfolding add_all add_rate is_cross switch_of additions
  admit_flow flow plan =
      let crosses : Bool = is_cross (switch_of flow.src) (switch_of flow.dst) in
      record plan {
        flows = plan.flows ++ (flow ∷ []);
        flow_id = plan.flow_id + 1;
        client_pps = add_rate rates flow.src (estimate_flow_pps flow) plan.client_pps;
        source_flow_count = put flow.src (outgoing plan flow.src + 1) plan.source_flow_count;
        source_used_dsts =
            put flow.src (flow.dst ∷ lookup_or [] (lookup flow.src plan.source_used_dsts))
              plan.source_used_dsts;
        incoming_flow_count = put flow.dst (incoming plan flow.dst + 1) plan.incoming_flow_count;
        switch_pps = add_all (additions flow) plan.switch_pps;
        cross_switch_flows = plan.cross_switch_flows + (if crosses then 1 else 0);
        same_switch_flows = plan.same_switch_flows + (if crosses then 0 else 1);
      }

  -- candidate_pools(src_idx)[pool_type], where `cross` says which.
  unfoldable pub candidate_pool : Bool → ℕ → Client → Plan R → List Client
  unfolding is_used is_cross candidate_destinations switch_of_client
  candidate_pool cross src_idx src plan =
      keep
        (λ dst.
          not (is_used plan src.name dst.name)
          && (if is_cross (switch_of_client src) (switch_of_client dst) then cross else not cross))
        (candidate_destinations devices.clients src_idx src)

  unfoldable pub settled : Flow → Plan R → Option Rejection → Outcome Bool × Plan R
  unfolding admit_flow reject
  settled flow plan none = (returned true, admit_flow flow plan)
  settled flow plan (some error) = (returned false, reject error plan)

  -- What the estimate in admission_error raises, which is made when both budgets have room.
  unfoldable pub estimate_error : Plan R → Flow → Option Exn
  unfolding bandwidth_error
  estimate_error plan flow =
      if leb limits.flows_per_client (outgoing plan flow.src)
      then none
      else if leb limits.flows_per_client (incoming plan flow.dst)
      then none
      else bandwidth_error limits flow.bandwidth

  unfoldable pub estimated : Plan R → Flow → Option Exn → Outcome Bool × Plan R
  unfolding settled admission_error
  estimated plan flow (some e) = (raised e, plan)
  estimated plan flow none = settled flow plan (admission_error plan flow)

  unfoldable pub considered : Plan R → Outcome Flow → Outcome Bool × Plan R
  unfolding estimated estimate_error
  considered plan (raised e) = (raised e, plan)
  considered plan (returned flow) = estimated plan flow (estimate_error plan flow)

  unfoldable pub next_protocol : Plan R → Client → Protocol
  next_protocol plan src = if (outgoing plan src.name % 2) == 0 then udp else tcp

  -- One destination of the loop.
  unfoldable pub try_candidate : Client → Client → Action (Plan R) Bool
  unfolding considered build_candidate_flow next_protocol reject
  try_candidate src dst plan =
      if leb limits.listener_port_pool_size (incoming plan dst.name)
      then (returned false, reject destination_budget plan)
      else considered plan (
          build_candidate_flow limits plan.flow_id src dst (next_protocol plan src)
            (limits.listener_port_base + incoming plan dst.name))

  unfoldable pub try_candidates : Client → List Client → Action (Plan R) Bool
  unfolding try_candidate
  try_candidates src [] plan = (returned false, plan)
  try_candidates src (dst ∷ rest) plan =
      if_not (try_candidate src dst) (try_candidates src rest) plan

  unfoldable pub ordered_candidates : Bool → ℕ → Client → Plan R → List Client
  unfolding candidate_pool ranks_from sort_candidates
  ordered_candidates cross src_idx src plan =
      let candidates : List Client = candidate_pool cross src_idx src plan in
      sort_candidates
        (λ candidate. (incoming plan candidate.name, cyclic_rank candidates candidate.name))
        candidates

  unfoldable pub try_add_from_pool : Bool → ℕ → Client → Action (Plan R) Bool
  unfolding try_candidates ordered_candidates
  try_add_from_pool cross src_idx src plan =
      try_candidates src (ordered_candidates cross src_idx src plan) plan

  -- One client of a round.
  unfoldable pub visit : Bool → ℕ → Client → Action (Plan R) Bool
  unfolding try_add_from_pool reject
  visit cross src_idx src plan =
      if leb limits.flows_per_client (outgoing plan src.name)
      then (returned true, reject source_budget plan)
      else if_not (try_add_from_pool cross src_idx src) (try_add_from_pool (not cross) src_idx src)
          plan

  unfoldable pub visit_all : Bool → ℕ → List Client → Action (Plan R) Bool
  unfolding visit
  visit_all cross src_idx [] plan = (returned true, plan)
  visit_all cross src_idx (src ∷ rest) plan =
      and_then (visit cross src_idx src) (visit_all cross (src_idx + 1) rest) plan

  -- The rounds from `round_index` on: the first three prefer a destination behind another switch.
  unfoldable pub rounds : ℕ → ℕ → Action (Plan R) Bool
  unfolding visit_all
  rounds round_index zero plan = (returned true, plan)
  rounds round_index (suc n) plan =
      and_then (visit_all (ltb round_index 3) 0 devices.clients) (rounds (round_index + 1) n) plan

  abbrev pub client_names : List Client → List Text
  client_names clients = map (λ c. c.name) clients

  unfoldable pub switch_names : List Text
  switch_names =
      names devices.spines
      ++ (names devices.leafs
          ++ (names devices.cores ++ (names devices.aggs ++ names devices.edges)))

  unfoldable pub no_flows : Plan R
  unfolding constant switch_names
  no_flows = record {
    flows = [];
    flow_id = 0;
    switch_pps = constant rates.nothing switch_names [];
    client_pps = constant rates.nothing (client_names devices.clients) [];
    source_flow_count = constant 0 (client_names devices.clients) [];
    source_used_dsts = constant [] (client_names devices.clients) [];
    incoming_flow_count = constant 0 (client_names devices.clients) [];
    cross_switch_flows = 0;
    same_switch_flows = 0;
    rejected_source = 0;
    rejected_destination = 0;
    rejected_pps = 0;
  }

  -- The loop of generate_traffic_config_from_topology.
  unfoldable pub plan_traffic : Outcome Bool × Plan R
  unfolding rounds no_flows
  plan_traffic = rounds 0 limits.flows_per_client no_flows

  -- The estimator's own sums over a finished plan, before they are rounded: estimate_client_pps, which
  -- leaves out flows without a source, and the loop of estimate_switch_pps, which leaves out those
  -- without a positive rate.
  unfoldable pub estimate_client_from : Dict R → List Flow → Dict R
  unfolding add_rate
  estimate_client_from d [] = d
  estimate_client_from d (flow ∷ rest) =
      estimate_client_from
        (if is_empty flow.src then d else add_rate rates flow.src (estimate_flow_pps flow) d) rest

  unfoldable pub estimate_client_pps : List Flow → Dict R
  unfolding estimate_client_from
  estimate_client_pps flows = estimate_client_from [] flows

  unfoldable pub estimate_switch_from : Dict R → List Flow → Dict R
  unfolding add_all additions
  estimate_switch_from d [] = d
  estimate_switch_from d (flow ∷ rest) =
      estimate_switch_from
        (if rates.is_positive (estimate_flow_pps flow) then add_all (additions flow) d else d) rest

  unfoldable pub estimate_switch_pps : List Flow → Dict R
  unfolding estimate_switch_from constant switch_names
  estimate_switch_pps flows = estimate_switch_from (constant rates.nothing switch_names []) flows
