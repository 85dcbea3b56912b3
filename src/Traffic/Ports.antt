-- ===== src/Traffic/Ports.antt =====
-- The numbers, ports and counts of a finished plan (netopsbench/platform/traffic/planner.py).
use net_ops_bench.Prelude.{
  ◌+◌, ◌-◌, ◌≤◌, ◌<◌, ◌≡◌, sym, ap, subst, Bool, true, false, List, [], ◌∷◌, ◌++◌, Text, text_eq,
  text_eq_iff, length, length-append, count_if, count_if-snoc, arith,
}
use mathlib.Core.List.{append-nil, append_assoc}
use net_ops_bench.Traffic.{Rates, Devices, Flow}
use net_ops_bench.Traffic.Planner.{
  candidate_destinations, Limits, Plan, outgoing, incoming, plan_traffic,
}
use net_ops_bench.Traffic.Planning.{plan_traffic-Keeps}
use net_ops_bench.Traffic.Placing.{
  is_from, is_to, IsPlaced, ArePlaced, IsKept, reject-IsKept, admit-IsKept, no_flows-IsKept,
}
use net_ops_bench.Traffic.Destinations.{AreDistinct, destinations-apart}

module _ {R : Type 0} (rates : Rates R) (limits : Limits R) (devices : Devices)
    (estimate_flow_pps : Flow → R) where
  pub plan_traffic-IsKept :
      AreDistinct devices.clients
      → IsKept limits (plan_traffic rates limits devices estimate_flow_pps).1
  unfolding candidate_destinations
  plan_traffic-IsKept distinct =
      plan_traffic-Keeps rates limits devices estimate_flow_pps (IsKept limits)
        (λ src dst. text_eq src.name dst.name ≡ false)
        (reject-IsKept rates limits devices estimate_flow_pps)
        (λ plan src dst flow h apart unused admissible.
          admit-IsKept rates limits devices estimate_flow_pps plan src dst flow h apart unused
            admissible)
        (λ before rest src e.
          destinations-apart devices.clients before rest src 1 (length devices.clients - 1) e
            distinct (omega arith) (rw e (omega (arith, length-append before (src ∷ rest)))))
        (no_flows-IsKept rates limits devices estimate_flow_pps)

  -- With distinct client names, each flow of the plan, whether or not the planner finished, is numbered
  -- by its place, goes to another client than it comes from, and repeats no earlier pair; its port is
  -- the base plus the number of earlier flows to its destination and lies in the pool, its protocol
  -- alternates with the earlier flows of its source, and the earlier flows of its source and to its
  -- destination are fewer than the budget.
  pub plan_traffic-ArePlaced :
      AreDistinct devices.clients
      → ArePlaced limits [] (plan_traffic rates limits devices estimate_flow_pps).1.flows
  plan_traffic-ArePlaced distinct = (plan_traffic-IsKept distinct).placed

module _ {R : Type 0} (limits : Limits R) where
  ArePlaced-at :
      (before xs zs : List Flow) (flow : Flow)
      → ArePlaced limits before (xs ++ (flow ∷ zs))
      → IsPlaced limits (before ++ xs) flow
  ArePlaced-at before [] zs flow h =
      subst (λ b. IsPlaced limits b flow) (sym (append-nil before)) h.0
  ArePlaced-at before (x ∷ xs) zs flow h =
      subst (λ b. IsPlaced limits b flow) (append_assoc before (x ∷ []) xs)
        (ArePlaced-at (before ++ (x ∷ [])) xs zs flow h.1)

  -- How many flows of a placed list come from one client, and go to one.
  ArePlaced-few_from :
      (name : Text) (before flows : List Flow)
      → ArePlaced limits before flows
      → count_if (is_from name) before ≤ limits.flows_per_client
      → count_if (is_from name) (before ++ flows) ≤ limits.flows_per_client
  ArePlaced-few_from name before [] h few = rw (append-nil before) few
  ArePlaced-few_from name before (f ∷ rest) h few =
      subst (λ xs. count_if (is_from name) xs ≤ limits.flows_per_client)
        (append_assoc before (f ∷ []) rest)
        (ArePlaced-few_from name (before ++ (f ∷ [])) rest h.1 (
          ground (
            arith,
            few,
            count_if-snoc (is_from name) before f,
            h.0.few_outgoing,
            text_eq_iff f.src name,
          )))

  ArePlaced-few_to :
      (name : Text) (before flows : List Flow)
      → ArePlaced limits before flows
      → count_if (is_to name) before ≤ limits.flows_per_client
      → count_if (is_to name) (before ++ flows) ≤ limits.flows_per_client
  ArePlaced-few_to name before [] h few = rw (append-nil before) few
  ArePlaced-few_to name before (f ∷ rest) h few =
      subst (λ xs. count_if (is_to name) xs ≤ limits.flows_per_client)
        (append_assoc before (f ∷ []) rest)
        (ArePlaced-few_to name (before ++ (f ∷ [])) rest h.1 (
          ground (
            arith,
            few,
            count_if-snoc (is_to name) before f,
            h.0.few_incoming,
            text_eq_iff f.dst name,
          )))

  count_if-between :
      (p : Flow → Bool) (xs ys : List Flow) (f : Flow)
      → p f ≡ true
      → count_if p xs < count_if p (xs ++ (f ∷ ys))
  count_if-between p [] ys f h = ground (arith, h)
  count_if-between p (x ∷ xs) ys f h = ground (arith, count_if-between p xs ys f h)

  -- Ports grow along the flows to one destination.
  ArePlaced-ports :
      (xs ys zs : List Flow) (f g : Flow)
      → ArePlaced limits [] (xs ++ (f ∷ (ys ++ (g ∷ zs))))
      → f.dst ≡ g.dst
      → f.dst_port < g.dst_port
  ArePlaced-ports xs ys zs f g h same =
      let first = ArePlaced-at [] xs (ys ++ (g ∷ zs)) f h in
      let second =
        ArePlaced-at [] (xs ++ (f ∷ ys)) zs g
          (subst (λ l. ArePlaced limits [] l) (sym (append_assoc xs (f ∷ ys) (g ∷ zs))) h) in
      omega (
        arith,
        first.on_port,
        second.on_port,
        ap (λ d. count_if (is_to d) xs) same,
        count_if-between (is_to g.dst) xs ys f ((text_eq_iff f.dst g.dst).1 same),
      )

module _ {R : Type 0} (rates : Rates R) (limits : Limits R) (devices : Devices)
    (estimate_flow_pps : Flow → R) where
  -- With distinct client names, of two flows of the plan with the same destination the later one has
  -- the greater port, so no two share a destination and a port.
  pub plan_traffic-ports :
      AreDistinct devices.clients
      → (xs ys zs : List Flow) (f g : Flow)
      → (plan_traffic rates limits devices estimate_flow_pps).1.flows ≡ xs ++ (f ∷ (ys ++ (g ∷ zs)))
      → f.dst ≡ g.dst
      → f.dst_port < g.dst_port
  plan_traffic-ports distinct xs ys zs f g e same =
      ArePlaced-ports limits xs ys zs f g
        (subst (λ l. ArePlaced limits [] l) e
          (plan_traffic-ArePlaced rates limits devices estimate_flow_pps distinct))
        same

  -- With distinct client names, the counters of the plan are the numbers of its flows from and to each
  -- client, none above the budget, and each flow is counted as one that crosses switches or one that
  -- does not.
  pub plan_traffic-counts :
      AreDistinct devices.clients
      → (name : Text)
      → let plan : Plan R = (plan_traffic rates limits devices estimate_flow_pps).1 in
        (outgoing plan name ≡ count_if (is_from name) plan.flows)
        × (incoming plan name ≡ count_if (is_to name) plan.flows)
        × (outgoing plan name ≤ limits.flows_per_client)
        × (incoming plan name ≤ limits.flows_per_client)
        × (plan.cross_switch_flows + plan.same_switch_flows ≡ length plan.flows)
  plan_traffic-counts distinct name =
      let kept = plan_traffic-IsKept rates limits devices estimate_flow_pps distinct in
      let flows : List Flow = (plan_traffic rates limits devices estimate_flow_pps).1.flows in
      (
        kept.counts_from name,
        kept.counts_to name,
        omega (
          arith,
          kept.counts_from name,
          ArePlaced-few_from limits name [] flows kept.placed (omega arith),
        ),
        omega (
          arith,
          kept.counts_to name,
          ArePlaced-few_to limits name [] flows kept.placed (omega arith),
        ),
        kept.paths,
      )
