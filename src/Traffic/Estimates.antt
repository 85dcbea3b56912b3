-- ===== src/Traffic/Estimates.antt =====
-- The sums of netopsbench/platform/traffic/estimator.py over a finished plan, before they are rounded,
-- are those that the planner has kept.
use net_ops_bench.Prelude.{◌≡◌, false, Text, is_empty}
use net_ops_bench.Traffic.{Rates, Devices, Flow}
use net_ops_bench.Traffic.Planner.{Limits, Plan, estimate_client_pps, estimate_switch_pps}
use net_ops_bench.Traffic.Paths.{rate_of}

module _ {R : Type 0} (rates : Rates R) (limits : Limits R) (devices : Devices)
    (estimate_flow_pps : Flow → R) where
  -- The planner's sums are those of the estimator.
  record AreSums (plan : Plan R) : Type 0 where
    client_sums :
        (name : Text)
        → is_empty name ≡ false
        → rate_of rates plan.client_pps name
          ≡ rate_of rates
              (estimate_client_pps rates limits devices estimate_flow_pps plan.flows)
              name
    switch_sums :
        plan.switch_pps ≡ estimate_switch_pps rates limits devices estimate_flow_pps plan.flows
