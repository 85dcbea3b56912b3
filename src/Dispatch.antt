-- ===== src/Dispatch.antt =====
-- The worker pool of a session (netopsbench/platform/session/dispatch.py). Workers run apart from each
-- other, each on its own list of scenarios.
pub mod Assigning
pub mod Working
pub mod Accounting
pub mod Pool
use net_ops_bench.Prelude.{
  ℕ, zero, suc, ◌+◌, ◌-◌, ◌%◌, Bool, true, false, not, ◌&&◌, Option, none, some, List, [], ◌∷◌,
  ◌++◌, map, Text, codes, text_eq, is_empty, length, any, ◌==◌, if◌then◌else◌, Dict, lookup,
  lookup_or, put, Exn, Outcome, returned, raised, Action, pure, throw, ◌>>=◌,
}

-- The fields of ScenarioSpec and RuntimeIdentity that are read here.
pub record Scenario : Type 0 where
  pub id : Text
  pub scale : Text

pub record Worker : Type 0 where
  pub worker_id : Text
  pub worker_index : ℕ

abbrev pub value_error : Exn
value_error = record { error_type = codes "ValueError"; message = codes "no worker" }

abbrev pub runtime_error : Exn
runtime_error = record { error_type = codes "RuntimeError"; message = codes "not eligible" }

-- {worker.worker_id: [] for worker in workers}
unfoldable pub no_assignments : List Worker → Dict (List Scenario) → Dict (List Scenario)
no_assignments [] d = d
no_assignments (w ∷ ws) d = no_assignments ws (put w.worker_id [] d)

-- workers[n], for an index in range
unfoldable pub worker_at : ℕ → Worker → List Worker → Worker
worker_at n first [] = first
worker_at zero first (w ∷ ws) = w
worker_at (suc n) first (w ∷ ws) = worker_at n first ws

-- assignments[key].append(scenario)
unfoldable pub append_to : Text → Scenario → Dict (List Scenario) → Dict (List Scenario)
append_to key scenario d = put key (lookup_or [] (lookup key d) ++ (scenario ∷ [])) d

-- The worker of scenario number `index`.
unfoldable pub worker_for : ℕ → Worker → List Worker → Worker
worker_for index first rest = worker_at (index % length (first ∷ rest)) first (first ∷ rest)

unfoldable pub assign_from :
    ℕ → List Scenario → Worker → List Worker → Dict (List Scenario) → Dict (List Scenario)
assign_from index [] first rest d = d
assign_from index (scenario ∷ scenarios) first rest d =
    assign_from (index + 1) scenarios first rest
      (append_to (worker_for index first rest).worker_id scenario d)

unfoldable pub assign_scenarios_to_workers :
    List Scenario → List Worker → Outcome (Dict (List Scenario))
unfolding assign_from no_assignments
assign_scenarios_to_workers scenarios [] = raised value_error
assign_scenarios_to_workers scenarios (first ∷ rest) =
    returned (assign_from 0 scenarios first rest (no_assignments (first ∷ rest) []))
