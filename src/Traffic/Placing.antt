-- ===== src/Traffic/Placing.antt =====
-- Where the planner of netopsbench/platform/traffic/planner.py places its flows: numbers, ports and
-- counts.
use net_ops_bench.Prelude.{
  ℕ, ◌+◌, ◌%◌, ◌<◌, ◌≡◌, refl, sym, ap, subst, ◌∙◌, Bool, true, false, ◌&&◌, ◌||◌, Option, none,
  some, List, [], ◌∷◌, ◌++◌, map, Text, text_eq, text_eq_comm, text_eq_iff, length, length-snoc,
  any, any-snoc, count_if, count_if-snoc, leb, ◌==◌, arith, if◌then◌else◌, returned, Dict, lookup,
  lookup_or, put, lookup-put,
}
use mathlib.Core.List.{append-nil, append_assoc}
use net_ops_bench.Traffic.{Rates, Client, Devices, Protocol, udp, tcp, Flow}
use net_ops_bench.Traffic.Planner.{
  Limits, Rejection, source_budget, destination_budget, pps_budget, Plan, outgoing, incoming,
  is_used, reject, built, build_candidate_flow, admission_error, admit_flow, next_protocol,
  constant, no_flows,
}
use net_ops_bench.Traffic.Planning.{IsAdmissible}

abbrev pub is_from : Text → Flow → Bool
is_from name flow = text_eq flow.src name

abbrev pub is_to : Text → Flow → Bool
is_to name flow = text_eq flow.dst name

abbrev pub joins : Text → Text → Flow → Bool
joins src dst flow = text_eq flow.src src && text_eq flow.dst dst

-- The place of a flow behind those that were admitted before it.
pub record IsPlaced {R : Type 0} (limits : Limits R) (before : List Flow) (flow : Flow)
    : Type 0 where
  pub numbered : flow.flow_id ≡ length before
  pub on_port : flow.dst_port ≡ limits.listener_port_base + count_if (is_to flow.dst) before
  pub in_pool : count_if (is_to flow.dst) before < limits.listener_port_pool_size
  pub few_incoming : count_if (is_to flow.dst) before < limits.flows_per_client
  pub few_outgoing : count_if (is_from flow.src) before < limits.flows_per_client
  pub in_turn : flow.protocol ≡ (if (count_if (is_from flow.src) before % 2) == 0 then udp else tcp)
  pub is_new : any (joins flow.src flow.dst) before ≡ false
  pub leaves : text_eq flow.src flow.dst ≡ false

module _ {R : Type 0} (limits : Limits R) where
  -- Each flow of a list has its place behind the earlier ones.
  abbrev pub ArePlaced : List Flow → List Flow → Type 0
  ArePlaced before [] = Unit
  ArePlaced before (flow ∷ rest) =
      IsPlaced limits before flow × ArePlaced (before ++ (flow ∷ [])) rest

  ArePlaced-snoc :
      (before flows : List Flow) (flow : Flow)
      → ArePlaced before flows
      → IsPlaced limits (before ++ flows) flow
      → ArePlaced before (flows ++ (flow ∷ []))
  ArePlaced-snoc before [] flow h p =
      (subst (λ xs. IsPlaced limits xs flow) (append-nil before) p, tt)
  ArePlaced-snoc before (f ∷ rest) flow h p = (
    h.0,
    ArePlaced-snoc (before ++ (f ∷ [])) rest flow h.1
        (subst (λ xs. IsPlaced limits xs flow) (sym (append_assoc before (f ∷ []) rest)) p),
  )

  -- What a built flow is made of.
  built_fields :
      (flow_id : ℕ) (src dst : Client) (protocol : Protocol) (port : ℕ)
      (src_ip dst_ip bandwidth : Option Text) (flow : Flow)
      → built limits flow_id src dst protocol port src_ip dst_ip bandwidth ≡ returned flow
      → (flow.flow_id ≡ flow_id)
        × (flow.src ≡ src.name)
        × (flow.dst ≡ dst.name)
        × (flow.dst_port ≡ port)
        × (flow.protocol ≡ protocol)
  unfolding built
  built_fields flow_id src dst protocol port (some a) (some b) (some w) flow h = ground (arith, h)
  built_fields flow_id src dst protocol port (some a) (some b) none flow h = ground (arith, h)
  built_fields flow_id src dst protocol port none dst_ip bandwidth flow h = ground (arith, h)
  built_fields flow_id src dst protocol port (some a) none bandwidth flow h = ground (arith, h)

-- The counters of a plan say what its flows are, and the flows have their places.
pub record IsKept {R : Type 0} (limits : Limits R) (plan : Plan R) : Type 0 where
  pub numbered : plan.flow_id ≡ length plan.flows
  pub counts_from : (name : Text) → outgoing plan name ≡ count_if (is_from name) plan.flows
  pub counts_to : (name : Text) → incoming plan name ≡ count_if (is_to name) plan.flows
  pub knows : (src dst : Text) → is_used plan src dst ≡ any (joins src dst) plan.flows
  pub placed : ArePlaced limits [] plan.flows
  pub paths : plan.cross_switch_flows + plan.same_switch_flows ≡ length plan.flows

pub lookup_or-put :
    {V : Type 0} (default v : V) (k j : Text) (d : Dict V)
    → lookup_or default (lookup j (put k v d))
      ≡ (if text_eq k j then v else lookup_or default (lookup j d))
lookup_or-put default v k j d =
    rw (lookup-put k j v d) (lookup_or-if default v (text_eq k j) (lookup j d))
  where
    lookup_or-if :
        {V : Type 0} (default v : V) (b : Bool) (o : Option V)
        → lookup_or default (if b then some v else o) ≡ (if b then v else lookup_or default o)
    lookup_or-if default v true o = refl
    lookup_or-if default v false o = refl

pub lookup_or-constant :
    {V : Type 0} (v : V) (names : List Text) (j : Text) (d : Dict V)
    → lookup_or v (lookup j d) ≡ v
    → lookup_or v (lookup j (constant v names d)) ≡ v
unfolding constant
lookup_or-constant v [] j d h = h
lookup_or-constant v (name ∷ names) j d h =
    lookup_or-constant v names j (put name v d)
      (lookup_or-put v v name j d ∙ if_same (text_eq name j) h)
  where
    if_same : {V : Type 0} {v w : V} (b : Bool) → w ≡ v → (if b then v else w) ≡ v
    if_same true h = refl
    if_same false h = h

module _ {R : Type 0} (rates : Rates R) (limits : Limits R) (devices : Devices)
    (estimate_flow_pps : Flow → R) where
  pub reject-IsKept :
      (e : Rejection) (plan : Plan R) → IsKept limits plan → IsKept limits (reject e plan)
  unfolding reject is_used
  reject-IsKept source_budget plan h = record {
    numbered = h.numbered;
    counts_from = h.counts_from;
    counts_to = h.counts_to;
    knows = h.knows;
    placed = h.placed;
    paths = h.paths;
  }
  reject-IsKept destination_budget plan h = record {
    numbered = h.numbered;
    counts_from = h.counts_from;
    counts_to = h.counts_to;
    knows = h.knows;
    placed = h.placed;
    paths = h.paths;
  }
  reject-IsKept pps_budget plan h = record {
    numbered = h.numbered;
    counts_from = h.counts_from;
    counts_to = h.counts_to;
    knows = h.knows;
    placed = h.placed;
    paths = h.paths;
  }

  -- What admission says of the counters.
  admission_guards :
      (plan : Plan R) (flow : Flow)
      → admission_error rates limits devices estimate_flow_pps plan flow ≡ none
      → (leb limits.flows_per_client (outgoing plan flow.src) ≡ false)
        × (leb limits.flows_per_client (incoming plan flow.dst) ≡ false)
  unfolding admission_error
  admission_guards plan flow h = ground (arith, h)

  outgoing-admit :
      (plan : Plan R) (flow : Flow) (name : Text)
      → outgoing plan flow.src ≡ count_if (is_from flow.src) plan.flows
      → outgoing plan name ≡ count_if (is_from name) plan.flows
      → outgoing (admit_flow rates limits devices estimate_flow_pps flow plan) name
        ≡ count_if (is_from name) (plan.flows ++ (flow ∷ []))
  unfolding admit_flow
  outgoing-admit plan flow name h hn =
      lookup_or-put 0 (outgoing plan flow.src + 1) flow.src name plan.source_flow_count
      ∙ ground
          (arith, count_if-snoc (is_from name) plan.flows flow, h, hn, text_eq_iff flow.src name)

  incoming-admit :
      (plan : Plan R) (flow : Flow) (name : Text)
      → incoming plan flow.dst ≡ count_if (is_to flow.dst) plan.flows
      → incoming plan name ≡ count_if (is_to name) plan.flows
      → incoming (admit_flow rates limits devices estimate_flow_pps flow plan) name
        ≡ count_if (is_to name) (plan.flows ++ (flow ∷ []))
  unfolding admit_flow
  incoming-admit plan flow name h hn =
      lookup_or-put 0 (incoming plan flow.dst + 1) flow.dst name plan.incoming_flow_count
      ∙ ground (arith, count_if-snoc (is_to name) plan.flows flow, h, hn, text_eq_iff flow.dst name)

  is_used-admit :
      (plan : Plan R) (flow : Flow) (src dst : Text)
      → is_used plan src dst ≡ any (joins src dst) plan.flows
      → is_used (admit_flow rates limits devices estimate_flow_pps flow plan) src dst
        ≡ any (joins src dst) (plan.flows ++ (flow ∷ []))
  unfolding admit_flow is_used
  is_used-admit plan flow src dst h =
      ap (any (text_eq dst)) (
        lookup_or-put [] (flow.dst ∷ lookup_or [] (lookup flow.src plan.source_used_dsts)) flow.src
          src plan.source_used_dsts)
      ∙ (added (text_eq flow.src src) refl ∙ sym (any-snoc (joins src dst) plan.flows flow))
    where
      added :
          (b : Bool)
          → text_eq flow.src src ≡ b
          → any (text_eq dst) (
              if b
              then flow.dst ∷ lookup_or [] (lookup flow.src plan.source_used_dsts)
              else lookup_or [] (lookup src plan.source_used_dsts))
            ≡ any (joins src dst) plan.flows || (b && text_eq flow.dst dst)
      added true e = ground (arith, h, text_eq_iff flow.src src, e, text_eq_comm dst flow.dst)
      added false e = ground (arith, h)

  admitted-IsPlaced :
      (plan : Plan R) (src dst : Client) (flow : Flow)
      → IsKept limits plan
      → text_eq src.name dst.name ≡ false
      → is_used plan src.name dst.name ≡ false
      → IsAdmissible rates limits devices estimate_flow_pps plan src dst flow
      → IsPlaced limits plan.flows flow
  unfolding next_protocol build_candidate_flow
  admitted-IsPlaced plan src dst flow h apart unused admissible =
      let made = built_fields limits plan.flow_id src dst _ _ _ _ _ flow admissible.1 in
      let guards = admission_guards plan flow admissible.2 in
      let to_dst : incoming plan dst.name ≡ count_if (is_to flow.dst) plan.flows =
        sym (ap (λ n. incoming plan n) made.2) ∙ h.counts_to flow.dst in
      record {
        numbered = made.0 ∙ h.numbered;
        on_port = made.3 ∙ ap (λ n. limits.listener_port_base + n) to_dst;
        in_pool = ground (arith, admissible.0, to_dst);
        few_incoming = ground (arith, guards.1, h.counts_to flow.dst);
        few_outgoing = ground (arith, guards.0, h.counts_from flow.src);
        in_turn =
            made.4
            ∙ ap (λ n. if (n % 2) == 0 then udp else tcp)
                (sym (ap (λ n. outgoing plan n) made.1) ∙ h.counts_from flow.src);
        is_new = rw (made.1, made.2) (sym (h.knows src.name dst.name) ∙ unused);
        leaves = rw (made.1, made.2) apart;
      }

  pub admit-IsKept :
      (plan : Plan R) (src dst : Client) (flow : Flow)
      → IsKept limits plan
      → text_eq src.name dst.name ≡ false
      → is_used plan src.name dst.name ≡ false
      → IsAdmissible rates limits devices estimate_flow_pps plan src dst flow
      → IsKept limits (admit_flow rates limits devices estimate_flow_pps flow plan)
  unfolding admit_flow
  admit-IsKept plan src dst flow h apart unused admissible = record {
    numbered = omega (arith, h.numbered, length-snoc plan.flows flow);
    counts_from =
        λ name. outgoing-admit plan flow name (h.counts_from flow.src) (h.counts_from name);
    counts_to = λ name. incoming-admit plan flow name (h.counts_to flow.dst) (h.counts_to name);
    knows = λ s d. is_used-admit plan flow s d (h.knows s d);
    placed =
        ArePlaced-snoc limits [] plan.flows flow h.placed
          (admitted-IsPlaced plan src dst flow h apart unused admissible);
    paths = ground (arith, h.paths, length-snoc plan.flows flow);
  }

  pub no_flows-IsKept : IsKept limits (no_flows rates limits devices estimate_flow_pps)
  unfolding no_flows is_used lookup
  no_flows-IsKept = record {
    numbered = refl;
    counts_from = λ name. lookup_or-constant 0 (map (λ c. c.name) devices.clients) name [] refl;
    counts_to = λ name. lookup_or-constant 0 (map (λ c. c.name) devices.clients) name [] refl;
    knows = λ src dst.
        ap (any (text_eq dst))
          (lookup_or-constant [] (map (λ c. c.name) devices.clients) src [] refl);
    placed = tt;
    paths = refl;
  }
