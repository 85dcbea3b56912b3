-- ===== src/Traffic/Loads.antt =====
-- The budgets of packet rates of netopsbench/platform/traffic/planner.py.
use net_ops_bench.Prelude.{
  IsFunctional, ◌≡◌, refl, ap, subst, ◌∙◌, Bool, true, false, ◌||◌, none, some, [], ◌∷◌, All,
  All-imp, All-both, All-of, Text, text_eq, length, arith, if◌then◌else◌, ◌⊎◌, inl, inr, Dict,
  lookup,
}
use net_ops_bench.Traffic.{Rates, Devices, Flow, add_rate}
use net_ops_bench.Traffic.Planner.{
  Limits, Rejection, source_budget, destination_budget, pps_budget, Plan, reject, switch_of,
  additions, raised_rate, overloads, switch_error, admission_error, add_all, admit_flow,
  candidate_destinations, no_flows, plan_traffic, switch_names, client_names,
}
use net_ops_bench.Traffic.Planning.{plan_traffic-Keeps}
use net_ops_bench.Traffic.Placing.{lookup_or-constant}
use net_ops_bench.Traffic.Paths.{switch_path_pps-IsFunctional, rate_of, rate_of-raised}

module _ {R : Type 0} (rates : Rates R) (limits : Limits R) (devices : Devices)
    (estimate_flow_pps : Flow → R) where
  -- A counter that was never raised, or is not above the limit.
  abbrev pub IsLight : R → R → Type 0
  IsLight limit r = (r ≡ rates.nothing) ⊎ (rates.exceeds r limit ≡ false)

  abbrev IsLightAfter : R → Dict R → Text × R → Type 0
  IsLightAfter limit counter e =
      rates.exceeds (raised_rate rates limits devices estimate_flow_pps counter e.0 e.1) limit
      ≡ false

  -- Raising one counter leaves what the others would become.
  IsLightAfter-raised :
      (limit : R) (counter : Dict R) (k : Text) (pps : R) (e : Text × R)
      → text_eq k e.0 ≡ false
      → IsLightAfter limit counter e
      → IsLightAfter limit (add_rate rates k pps counter) e
  unfolding raised_rate
  IsLightAfter-raised limit counter k pps e apart fits =
      ap (λ r. rates.exceeds (rates.plus r e.1) limit)
        (rate_of-raised rates counter k e.0 pps ∙ rw apart refl)
      ∙ fits

  rate_of-IsLight :
      (limit : R) (counter : Dict R) (k : Text) (pps : R)
      → IsLightAfter limit counter (k, pps)
      → (name : Text) → IsLight limit (rate_of rates counter name)
      → IsLight limit (rate_of rates (add_rate rates k pps counter) name)
  unfolding raised_rate
  rate_of-IsLight limit counter k pps fits name light =
      rw (rate_of-raised rates counter k name pps) (chosen (text_eq k name) fits light)
    where
      chosen :
          (b : Bool) {x y : R}
          → rates.exceeds x limit ≡ false
          → IsLight limit y
          → IsLight limit (if b then x else y)
      chosen true hx hy = inr hx
      chosen false hx hy = hy

  add_all-IsLight :
      (limit : R) (added counter : Dict R)
      → IsFunctional added
      → All (IsLightAfter limit counter) added
      → ((name : Text) → IsLight limit (rate_of rates counter name))
      → (name : Text)
      → IsLight limit
          (rate_of rates (add_all rates limits devices estimate_flow_pps added counter) name)
  unfolding add_all IsFunctional
  add_all-IsLight limit [] counter f fits light name = light name
  add_all-IsLight limit ((k, pps) ∷ rest) counter f fits light name =
      add_all-IsLight limit rest (add_rate rates k pps counter) f.1
        (All-imp (λ e. (text_eq k e.0 ≡ false) × IsLightAfter limit counter e)
          (IsLightAfter limit (add_rate rates k pps counter)) rest
          (λ e h. IsLightAfter-raised limit counter k pps e h.0 h.1) (All-both _ _ rest f.0 fits.1))
        (λ n. rate_of-IsLight limit counter k pps fits.0 n (light n)) name

  overloads-fits :
      (limit : R) (plan : Plan R) (added : Dict R)
      → overloads rates limits devices estimate_flow_pps plan limit added ≡ false
      → All (IsLightAfter limit plan.switch_pps) added
  unfolding overloads
  overloads-fits limit plan [] h = tt
  overloads-fits limit plan (e ∷ rest) h =
      let split = neither _ _ h in (split.0, overloads-fits limit plan rest split.1)
    where
      neither : (a b : Bool) → a || b ≡ false → (a ≡ false) × (b ≡ false)
      neither true b h = ground (arith, h)
      neither false b h = (refl, h)

  -- No counter of a plan is above its limit.
  record AreLight (plan : Plan R) : Type 0 where
    clients_light :
        (name : Text) → IsLight limits.max_pps_per_client (rate_of rates plan.client_pps name)
    switches_light :
        (limit : R)
        → limits.switch_pps_limit ≡ some limit
        → (name : Text) → IsLight limit (rate_of rates plan.switch_pps name)

  admission_fits :
      (plan : Plan R) (flow : Flow)
      → admission_error rates limits devices estimate_flow_pps plan flow ≡ none
      → IsLightAfter limits.max_pps_per_client plan.client_pps (flow.src, estimate_flow_pps flow)
        × (switch_error rates limits devices estimate_flow_pps plan flow limits.switch_pps_limit
            ≡ none)
  unfolding admission_error
  admission_fits plan flow h = ground (arith, h)

  switch_error_fits :
      (plan : Plan R) (flow : Flow) (limit : R)
      → switch_error rates limits devices estimate_flow_pps plan flow (some limit) ≡ none
      → overloads rates limits devices estimate_flow_pps plan limit
          (additions rates limits devices estimate_flow_pps flow)
        ≡ false
  unfolding switch_error
  switch_error_fits plan flow limit h = ground (arith, h)

  reject-AreLight : (e : Rejection) (plan : Plan R) → AreLight plan → AreLight (reject e plan)
  unfolding reject
  reject-AreLight source_budget plan h = record {
    clients_light = h.clients_light;
    switches_light = h.switches_light;
  }
  reject-AreLight destination_budget plan h = record {
    clients_light = h.clients_light;
    switches_light = h.switches_light;
  }
  reject-AreLight pps_budget plan h = record {
    clients_light = h.clients_light;
    switches_light = h.switches_light;
  }

  additions-IsFunctional :
      (flow : Flow) → IsFunctional (additions rates limits devices estimate_flow_pps flow)
  unfolding additions
  additions-IsFunctional flow =
      switch_path_pps-IsFunctional rates devices
        (switch_of rates limits devices estimate_flow_pps flow.src)
        (switch_of rates limits devices estimate_flow_pps flow.dst) (estimate_flow_pps flow)

  admit-AreLight :
      (plan : Plan R) (flow : Flow)
      → AreLight plan
      → admission_error rates limits devices estimate_flow_pps plan flow ≡ none
      → AreLight (admit_flow rates limits devices estimate_flow_pps flow plan)
  unfolding admit_flow
  admit-AreLight plan flow h ok = record {
    clients_light = λ name.
        rate_of-IsLight limits.max_pps_per_client plan.client_pps flow.src (estimate_flow_pps flow)
          (admission_fits plan flow ok).0 name (h.clients_light name);
    switches_light = λ limit e.
        add_all-IsLight limit (additions rates limits devices estimate_flow_pps flow)
          plan.switch_pps (additions-IsFunctional flow)
          (overloads-fits limit plan (additions rates limits devices estimate_flow_pps flow) (
            switch_error_fits plan flow limit (
              subst (λ o. switch_error rates limits devices estimate_flow_pps plan flow o ≡ none) e
                (admission_fits plan flow ok).1)))
          (h.switches_light limit e);
  }

  no_flows-AreLight : AreLight (no_flows rates limits devices estimate_flow_pps)
  unfolding no_flows lookup
  no_flows-AreLight = record {
    clients_light = λ name. inl (
        lookup_or-constant rates.nothing
          (client_names rates limits devices estimate_flow_pps devices.clients) name [] refl);
    switches_light = λ limit e name. inl (
        lookup_or-constant rates.nothing (switch_names rates limits devices estimate_flow_pps) name
          [] refl);
  }

  -- If there is a limit for switches, then no switch of the plan, whether or not the planner finished,
  -- has a rate above it, and no client one above the budget for clients: each rate that was raised at
  -- all has passed the comparison with its limit.
  pub plan_traffic-IsLight :
      (limit : R)
      → limits.switch_pps_limit ≡ some limit
      → (name : Text)
      → let plan : Plan R = (plan_traffic rates limits devices estimate_flow_pps).1 in
        IsLight limits.max_pps_per_client (rate_of rates plan.client_pps name)
        × IsLight limit (rate_of rates plan.switch_pps name)
  plan_traffic-IsLight limit e name =
      let light : AreLight (plan_traffic rates limits devices estimate_flow_pps).1 =
        plan_traffic-Keeps rates limits devices estimate_flow_pps AreLight (λ _ _. Unit {0})
          reject-AreLight
          (λ plan src dst flow h _ _ admissible. admit-AreLight plan flow h admissible.2)
          (λ before rest src e.
            All-of _ (candidate_destinations devices.clients (length before) src) (λ _. tt))
          no_flows-AreLight in
      (light.clients_light name, light.switches_light limit e name)
