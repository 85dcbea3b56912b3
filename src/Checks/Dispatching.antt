-- ===== src/Checks/Dispatching.antt =====
-- Runs of a worker and of a pool (netopsbench/platform/session/dispatch.py).
use net_ops_bench.Prelude.{
  ℕ, ◌≡◌, refl, true, false, none, some, List, [], ◌∷◌, Text, codes, text_eq, String, any, Outcome,
  returned, Dict, lookup,
}
use net_ops_bench.Dispatch.{Scenario, Worker, assign_scenarios_to_workers, worker_for, worker_at}
use net_ops_bench.Dispatch.Assigning.{share, assign_scenarios_to_workers-share}
use net_ops_bench.Dispatch.Working.{
  ScenarioResult, Summary, Runner, Run, WorkerSummary, run_worker, summary_of, skipped,
}
use net_ops_bench.Dispatch.Accounting.{IsReport, run_worker-IsReport}
use net_ops_bench.Dispatch.Pool.{
  PoolDispatchResult, WorkerRunResult, RuntimePool, execute_on_runtime_pool,
  cleanup_failed_on_worker, execute_on_runtime_pool-quarantined, is_eligible, mismatched,
  dispatch_workers, sort_workers,
}

abbrev scenario : String → Scenario
scenario id = record { id = codes id; scale = codes "small" }

abbrev worker : String → ℕ → Worker
worker id index = record { worker_id = codes id; worker_index = index }

abbrev three : List Scenario
three = scenario "a" ∷ scenario "b" ∷ scenario "c" ∷ []

first_is_w0 :
    any (λ w. text_eq w.worker_id (codes "w0")) (worker "w0" 0 ∷ worker "w1" 1 ∷ []) ≡ true
unfolding text_eq
first_is_w0 = refl

assign_scenarios_to_workers-share_example :
    (d : Dict (List Scenario)) × (assign_scenarios_to_workers three
        (worker "w0" 0 ∷ worker "w1" 1 ∷ [])
      ≡ returned d)
    × (lookup (codes "w0") d
        ≡ some (share (codes "w0") 0 three (worker "w0" 0) (worker "w1" 1 ∷ [])))
assign_scenarios_to_workers-share_example =
    assign_scenarios_to_workers-share three (worker "w0" 0) (worker "w1" 1 ∷ []) (codes "w0")
      first_is_w0

-- The first worker of two gets the first and the third scenario.
share_of_w0 :
    share (codes "w0") 0 three (worker "w0" 0) (worker "w1" 1 ∷ [])
    ≡ scenario "a" ∷ scenario "c" ∷ []
unfolding share text_eq worker_for worker_at
share_of_w0 = refl

-- Every scenario is valid and succeeds, but none is cleaned up.
abbrev dirty : ScenarioResult
dirty = record { case_valid = some true; success = true; cleanup_success = some false }

abbrev runner : Runner ℕ Text
runner = record {
  require_topology = λ s w. (returned tt, w);
  start = λ w. (returned tt, w);
  run_scenario = λ s w. (returned dirty, w);
  persist = λ s r w. (returned s.id, w);
  score = λ s r w. (returned (s.id ∷ []), w);
  write_failure = none;
  write_evaluations = none;
  close = λ w. (returned tt, w);
}

abbrev dirty_summaries : List Summary
dirty_summaries =
    summary_of (codes "w0") (scenario "a") dirty (codes "a")
    ∷ skipped (codes "w0") (scenario "b")
    ∷ skipped (codes "w0") (scenario "c")
    ∷ []

abbrev dirty_report : List Text × List Summary × WorkerSummary
dirty_report = (
  codes "a" ∷ [],
  dirty_summaries,
  record {
    worker_id = codes "w0";
    scenario_count = 3;
    executed_count = 1;
    skipped_count = 2;
    success = false;
  },
)

abbrev dirty_end : Run ℕ Text
dirty_end = record {
  world = 0;
  evaluations = codes "a" ∷ [];
  summaries = dirty_summaries;
  worker_success = false;
  executed_count = 1;
}

dirty-run_worker : run_worker runner (codes "w0") three 0 ≡ (returned dirty_report, dirty_end)
unfolding run_worker
dirty-run_worker = refl

run_worker-IsReport_example : IsReport runner (codes "w0") three dirty_report
run_worker-IsReport_example =
    run_worker-IsReport runner (codes "w0") three 0 dirty_report dirty_end dirty-run_worker

abbrev dirty_worker : Worker → List Scenario → Outcome (WorkerRunResult Text)
dirty_worker w scenarios = returned dirty_report

abbrev pool : RuntimePool
pool = record {
  state = codes "warm";
  scale = codes "small";
  workers = worker "w0" 0 ∷ [];
  quarantined = false;
  quarantine_reason = none;
  quarantined_workers = [];
}

abbrev pooled : PoolDispatchResult Text
pooled = record {
  evaluations = codes "a" ∷ [];
  scenarios = dirty_summaries;
  workers = dirty_report.2 ∷ [];
}

pool-execute : (execute_on_runtime_pool dirty_worker three pool).0 ≡ returned pooled
unfolding execute_on_runtime_pool is_eligible text_eq mismatched dispatch_workers
    assign_scenarios_to_workers sort_workers
pool-execute = refl

pool-failed : any (cleanup_failed_on_worker dirty_worker) pooled.scenarios ≡ true
unfolding cleanup_failed_on_worker summary_of
pool-failed = refl

execute_on_runtime_pool-quarantined_example :
    (execute_on_runtime_pool dirty_worker three pool).1.quarantined
    ≡ any (cleanup_failed_on_worker dirty_worker) pooled.scenarios
execute_on_runtime_pool-quarantined_example =
    execute_on_runtime_pool-quarantined dirty_worker three pool pooled pool-execute
