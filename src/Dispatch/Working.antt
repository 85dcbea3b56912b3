-- ===== src/Dispatch/Working.antt =====
-- One worker's run over its scenarios: _run_worker of netopsbench/platform/session/dispatch.py.
use net_ops_bench.Prelude.{
  ℕ, ◌+◌, ◌-◌, Bool, true, false, not, ◌&&◌, Option, none, some, List, [], ◌∷◌, ◌++◌, Text, length,
  if◌then◌else◌, Exn, Outcome, returned, raised, Action, pure, modify, ◌>>=◌, ◌>>◌,
}
use net_ops_bench.Dispatch.{Scenario}

-- The entries of a scenario result that are read here; a missing entry is `none`.
pub record ScenarioResult : Type 0 where
  pub case_valid : Option Bool
  pub success : Bool
  pub cleanup_success : Option Bool

pub data Status : Type 0 where
  invalid completed failed skipped_infrastructure_failure : Status

pub data FailureStage : Type 0 where
  infrastructure cleanup execution prior_case_cleanup : FailureStage

-- An entry of scenario_summaries; a skipped scenario has no case_valid, path or cleanup_failed.
pub record Summary : Type 0 where
  pub scenario_id : Text
  pub status : Status
  pub case_valid : Option Bool
  pub scale : Text
  pub worker : Text
  pub raw_result_path : Option Text
  pub cleanup_failed : Option Bool
  pub failure_stage : Option FailureStage

-- What a worker works with: the executor, the files, the scorer and the trace writer. Their methods act
-- on a world of type `W`; `E` is the type of an evaluation.
pub record Runner (W E : Type 0) : Type 0 where
  pub require_topology : Scenario → W → Outcome (Unit {0}) × W
  pub start : W → Outcome (Unit {0}) × W
  pub run_scenario : Scenario → W → Outcome ScenarioResult × W
  pub persist : Scenario → ScenarioResult → W → Outcome Text × W
  pub score : Scenario → ScenarioResult → W → Outcome (List E) × W
  pub write_failure : Option (Scenario → ScenarioResult → Exn → W → Outcome (Unit {0}) × W)
  pub write_evaluations : Option (List E → ScenarioResult → W → Outcome (Unit {0}) × W)
  pub close : W → Outcome (Unit {0}) × W

-- The local variables of the run.
pub record Run (W E : Type 0) : Type 0 where
  pub world : W
  pub evaluations : List E
  pub summaries : List Summary
  pub worker_success : Bool
  pub executed_count : ℕ

-- worker_summary, less the names of the worker.
pub record WorkerSummary : Type 0 where
  pub worker_id : Text
  pub scenario_count : ℕ
  pub executed_count : ℕ
  pub skipped_count : ℕ
  pub success : Bool

-- bool(scenario_result.get("case_valid", scenario_result.get("success")))
abbrev pub is_valid : ScenarioResult → Bool
is_valid r = elim r.case_valid [ none ↦ r.success | some valid ↦ valid ]

-- (scenario_result.get("cleanup") or {}).get("success", True)
abbrev pub cleaned_up : ScenarioResult → Bool
cleaned_up r = elim r.cleanup_success [ none ↦ true | some success ↦ success ]

abbrev pub succeeded : ScenarioResult → Bool
succeeded r = is_valid r && r.success && cleaned_up r

unfoldable pub status_of : ScenarioResult → Status
status_of r = if not (is_valid r) then invalid else if succeeded r then completed else failed

unfoldable pub failure_stage_of : ScenarioResult → Option FailureStage
failure_stage_of r =
    if not (is_valid r)
    then some infrastructure
    else if succeeded r
    then none
    else some (if not (cleaned_up r) then cleanup else execution)

unfoldable pub summary_of : Text → Scenario → ScenarioResult → Text → Summary
summary_of worker scenario r path = record {
  scenario_id = scenario.id;
  status = status_of r;
  case_valid = some (is_valid r);
  scale = scenario.scale;
  worker = worker;
  raw_result_path = some path;
  cleanup_failed = some (not (cleaned_up r));
  failure_stage = failure_stage_of r;
}

unfoldable pub skipped : Text → Scenario → Summary
skipped worker scenario = record {
  scenario_id = scenario.id;
  status = skipped_infrastructure_failure;
  case_valid = none;
  scale = scenario.scale;
  worker = worker;
  raw_result_path = none;
  cleanup_failed = none;
  failure_stage = some prior_case_cleanup;
}

module _ {W E : Type 0} (runner : Runner W E) (worker : Text) where
  abbrev pub on_world : {A : Type 0} → (W → Outcome A × W) → Action (Run W E) A
  on_world call s = let (r, w) = call s.world in (r, record s { world = w })

  unfoldable pub count_run : Action (Run W E) (Unit {0})
  count_run = modify λ s. record s { executed_count = s.executed_count + 1 }

  -- Scoring raised: the failure is traced, and the exception goes on.
  unfoldable pub scoring_failed : Scenario → ScenarioResult → Exn → Action (Run W E) (List E)
  scoring_failed scenario r e s = elim runner.write_failure [
    | none ↦ (raised e, s)
    | some write ↦ (raised e, record s { world = (write scenario r e s.world).1 })
  ]

  unfoldable pub traced : ScenarioResult → List E → Action (Run W E) (List E)
  traced r evaluations s = elim runner.write_evaluations [
    | none ↦ (returned evaluations, s)
    | some write ↦ (returned evaluations, record s { world = (write evaluations r s.world).1 })
  ]

  unfoldable pub after_scoring :
      Scenario → ScenarioResult → Outcome (List E) × Run W E → Outcome (List E) × Run W E
  after_scoring scenario r (returned evaluations, s) = traced r evaluations s
  after_scoring scenario r (raised e, s) = scoring_failed scenario r e s

  unfoldable pub scored : Scenario → ScenarioResult → Action (Run W E) (List E)
  unfolding after_scoring traced scoring_failed
  scored scenario r s =
      if is_valid r
      then after_scoring scenario r (on_world (runner.score scenario r) s)
      else (returned [], s)

  -- The end of the body of the loop: whether the next scenario may run.
  unfoldable pub conclude : Scenario → ScenarioResult → Text → List E → Action (Run W E) Bool
  unfolding summary_of status_of failure_stage_of
  conclude scenario r path evaluations s = (
    returned (cleaned_up r),
    record s {
      evaluations = s.evaluations ++ evaluations;
      summaries = s.summaries ++ (summary_of worker scenario r path ∷ []);
      worker_success = s.worker_success && succeeded r;
    },
  )

  unfoldable pub run_case : Scenario → Action (Run W E) Bool
  unfolding count_run scored conclude
  run_case scenario = do
    result ← on_world (runner.run_scenario scenario)
    count_run
    path ← on_world (runner.persist scenario result)
    evaluations ← scored scenario result
    conclude scenario result path evaluations

  unfoldable pub skip_all : List Scenario → Run W E → Run W E
  skip_all [] s = s
  skip_all (scenario ∷ rest) s =
      skip_all rest (record s { summaries = s.summaries ++ (skipped worker scenario ∷ []) })

  unfoldable pub after_case :
      List Scenario
      → Action (Run W E) (Unit {0})
      → Outcome Bool × Run W E
      → Outcome (Unit {0}) × Run W E
  unfolding skip_all
  after_case rest next (returned true, s) = next s
  after_case rest next (returned false, s) = (returned tt, skip_all rest s)
  after_case rest next (raised e, s) = (raised e, s)

  unfoldable pub run_all : List Scenario → Action (Run W E) (Unit {0})
  unfolding run_case after_case
  run_all [] s = (returned tt, s)
  run_all (scenario ∷ rest) s = after_case rest (run_all rest) (run_case scenario s)

  unfoldable pub begin_run : W → Run W E
  begin_run w = record {
    world = w;
    evaluations = [];
    summaries = [];
    worker_success = true;
    executed_count = 0;
  }

  unfoldable pub summarize : ℕ → Run W E → WorkerSummary
  summarize scenario_count s = record {
    worker_id = worker;
    scenario_count = scenario_count;
    executed_count = s.executed_count;
    skipped_count = scenario_count - s.executed_count;
    success = s.worker_success;
  }

  -- An exception of `close` takes the place of what came before.
  unfoldable pub closing :
      Outcome (Unit {0}) → Outcome (Unit {0}) × Run W E → Outcome (Unit {0}) × Run W E
  closing r (returned _, s) = (r, s)
  closing r (raised e, s) = (raised e, s)

  -- finally: runner.close()
  unfoldable pub finally_close : Outcome (Unit {0}) × Run W E → Outcome (Unit {0}) × Run W E
  unfolding closing
  finally_close (r, s) = closing r (on_world runner.close s)

  unfoldable pub require_all : List Scenario → Action (Run W E) (Unit {0})
  require_all [] = pure tt
  require_all (scenario ∷ rest) = do on_world (runner.require_topology scenario); require_all rest

  unfoldable pub run_worker :
      List Scenario → W → Outcome (List E × List Summary × WorkerSummary) × Run W E
  unfolding require_all run_all finally_close summarize begin_run
  run_worker scenarios w =
      (do
        require_all scenarios
        on_world runner.start
        λ s. finally_close (run_all scenarios s)
        λ s. (returned (s.evaluations, s.summaries, summarize (length scenarios) s), s))
        (begin_run w)
