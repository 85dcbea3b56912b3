-- ===== src/Dispatch/Pool.antt =====
-- The run of a session on a pool: _dispatch_workers and execute_on_runtime_pool of
-- netopsbench/platform/session/dispatch.py.
use net_ops_bench.Prelude.{
  ◌≡◌, refl, ap, ◌∙◌, Bool, true, false, not, ◌&&◌, Option, none, some, List, [], ◌∷◌, ◌++◌, Text,
  codes, text_eq, text_leb, is_empty, any, leb, arith, if◌then◌else◌, Dict, lookup, lookup_or, Exn,
  Outcome, returned, raised, Bool-cases, inl, inr,
}
use net_ops_bench.Dispatch.{
  Scenario, Worker, value_error, runtime_error, assign_scenarios_to_workers,
}
use net_ops_bench.Dispatch.Working.{Summary, WorkerSummary}

pub record PoolDispatchResult (E : Type 0) : Type 0 where
  pub evaluations : List E
  pub scenarios : List Summary
  pub workers : List WorkerSummary

-- WorkerRunResult
abbrev pub WorkerRunResult : Type 0 → Type 0
WorkerRunResult E = List E × List Summary × WorkerSummary

-- The fields of RuntimePool that are read or written here.
pub record RuntimePool : Type 0 where
  pub state : Text
  pub scale : Text
  pub workers : List Worker
  pub quarantined : Bool
  pub quarantine_reason : Option Text
  pub quarantined_workers : List Text

insert_worker : Worker → List Worker → List Worker
insert_worker w [] = w ∷ []
insert_worker w (v ∷ vs) =
    let rest = insert_worker w vs in
    if leb w.worker_index v.worker_index then w ∷ v ∷ vs else v ∷ rest

-- sorted(workers, key=lambda item: item.worker_index), which keeps the order of equal keys.
unfoldable pub sort_workers : List Worker → List Worker
unfolding insert_worker
sort_workers [] = []
sort_workers (w ∷ ws) = insert_worker w (sort_workers ws)

abbrev pub nothing : {E : Type 0} → PoolDispatchResult E
nothing = record { evaluations = []; scenarios = []; workers = [] }

add_result : {E : Type 0} → WorkerRunResult E → PoolDispatchResult E → PoolDispatchResult E
add_result (evaluations, summaries, summary) later = record {
  evaluations = evaluations ++ later.evaluations;
  scenarios = summaries ++ later.scenarios;
  workers = summary ∷ later.workers;
}

-- A worker that raises stops the dispatch. Workers run apart, so that one after the other gives what the
-- thread pool gives, except that of two workers that raise the pool reports the one that ends first.
and_later :
    {E : Type 0}
    → Outcome (WorkerRunResult E)
    → Outcome (PoolDispatchResult E)
    → Outcome (PoolDispatchResult E)
unfolding add_result
and_later (raised e) later = raised e
and_later (returned r) (raised e) = raised e
and_later (returned r) (returned later) = returned (add_result r later)

module _ {E : Type 0} (run_worker : Worker → List Scenario → Outcome (WorkerRunResult E)) where
  unfoldable pub run_workers : Dict (List Scenario) → List Worker → Outcome (PoolDispatchResult E)
  unfolding and_later
  run_workers assignments [] = returned nothing
  run_workers assignments (w ∷ ws) =
      and_later (run_worker w (lookup_or [] (lookup w.worker_id assignments)))
        (run_workers assignments ws)

  dispatch_assigned : List Worker → Outcome (Dict (List Scenario)) → Outcome (PoolDispatchResult E)
  unfolding run_workers
  dispatch_assigned ordered (returned assignments) = run_workers assignments ordered
  dispatch_assigned ordered (raised e) = raised e

  -- _dispatch_workers
  unfoldable pub dispatch_workers : List Worker → List Scenario → Outcome (PoolDispatchResult E)
  unfolding dispatch_assigned
  dispatch_workers workers scenarios =
      dispatch_assigned (sort_workers workers)
        (assign_scenarios_to_workers scenarios (sort_workers workers))

  insert_new : Text → List Text → List Text
  insert_new x [] = x ∷ []
  insert_new x (y ∷ ys) =
      let rest = insert_new x ys in
      if text_eq x y then y ∷ ys else if text_leb x y then x ∷ y ∷ ys else y ∷ rest

  -- item.get("cleanup_failed") is True and item.get("worker")
  unfoldable pub cleanup_failed_on_worker : Summary → Bool
  cleanup_failed_on_worker s =
      (elim s.cleanup_failed [ none ↦ false | some b ↦ b ]) && not (is_empty s.worker)

  -- The sorted set of the workers with a failed cleanup.
  unfoldable pub cleanup_failures : List Summary → List Text
  unfolding insert_new
  cleanup_failures [] = []
  cleanup_failures (s ∷ rest) =
      let others = cleanup_failures rest in
      if cleanup_failed_on_worker s then insert_new s.worker others else others

  unfoldable pub quarantine : List Text → RuntimePool → RuntimePool
  quarantine [] pool = pool
  quarantine (w ∷ ws) pool = record pool {
    state = codes "quarantined";
    quarantined = true;
    quarantine_reason = some (codes "scenario_cleanup_failure");
    quarantined_workers = w ∷ ws;
  }

  finish_pool :
      RuntimePool → Outcome (PoolDispatchResult E) → Outcome (PoolDispatchResult E) × RuntimePool
  unfolding quarantine
  finish_pool pool (returned result) =
      (returned result, quarantine (cleanup_failures result.scenarios) pool)
  finish_pool pool (raised e) = (raised e, pool)

  -- The guards of execute_on_runtime_pool.
  unfoldable pub is_eligible : RuntimePool → Bool
  is_eligible pool = text_eq pool.state (codes "warm") && not pool.quarantined

  unfoldable pub mismatched : RuntimePool → List Scenario → Bool
  mismatched pool scenarios = any (λ s. not (text_eq s.scale pool.scale)) scenarios

  unfoldable pub execute_on_runtime_pool :
      List Scenario → RuntimePool → Outcome (PoolDispatchResult E) × RuntimePool
  unfolding finish_pool
  execute_on_runtime_pool scenarios pool =
      if not (is_eligible pool)
      then (raised runtime_error, pool)
      else if mismatched pool scenarios
      then (raised value_error, pool)
      else finish_pool pool (dispatch_workers pool.workers scenarios)

  insert_new-full :
      (x : Text) (ys : List Text) → (y : Text) × (zs : List Text) × (insert_new x ys ≡ y ∷ zs)
  unfolding insert_new
  insert_new-full x [] = (x, [], refl)
  insert_new-full x (y ∷ ys) = elim (Bool-cases (text_eq x y)) [
    | inl e ↦ (y, ys, rw e refl)
    | inr e ↦ elim (Bool-cases (text_leb x y)) [
      | inl f ↦ (x, y ∷ ys, rw (e, f) refl)
      | inr f ↦ (y, insert_new x ys, rw (e, f) refl)
    ]
  ]

  -- Whether a pool is taken out of service, from the summaries of its scenarios.
  quarantine-cleanup_failures :
      (summaries : List Summary) (pool : RuntimePool)
      → pool.quarantined ≡ false
      → (quarantine (cleanup_failures summaries) pool).quarantined
        ≡ any cleanup_failed_on_worker summaries
  unfolding quarantine cleanup_failures
  quarantine-cleanup_failures [] pool h = h
  quarantine-cleanup_failures (s ∷ rest) pool h = elim (Bool-cases (cleanup_failed_on_worker s)) [
    | inl e ↦
        let (y, zs, shape) = insert_new-full s.worker (cleanup_failures rest) in
        rw e (rw shape refl)
    | inr e ↦ rw e (quarantine-cleanup_failures rest pool h)
  ]

  eligible-not_quarantined :
      (pool : RuntimePool) → is_eligible pool ≡ true → pool.quarantined ≡ false
  unfolding is_eligible
  eligible-not_quarantined pool h = ground arith

  quarantined-not_eligible :
      (pool : RuntimePool) → pool.quarantined ≡ true → is_eligible pool ≡ false
  unfolding is_eligible
  quarantined-not_eligible pool h = ground arith

  refused :
      (scenarios : List Scenario) (pool : RuntimePool)
      → is_eligible pool ≡ false
      → execute_on_runtime_pool scenarios pool ≡ (raised runtime_error, pool)
  unfolding execute_on_runtime_pool
  refused scenarios pool h = rw h refl

  finish_pool-quarantined :
      (pool : RuntimePool) (o : Outcome (PoolDispatchResult E)) (result : PoolDispatchResult E)
      → pool.quarantined ≡ false
      → (finish_pool pool o).0 ≡ returned result
      → (finish_pool pool o).1.quarantined ≡ any cleanup_failed_on_worker result.scenarios
  unfolding finish_pool
  finish_pool-quarantined pool (returned r) result h e =
      quarantine-cleanup_failures r.scenarios pool h
      ∙ ap (λ o. any cleanup_failed_on_worker (summaries_of o)) e
    where
      summaries_of : Outcome (PoolDispatchResult E) → List Summary
      summaries_of (returned r) = r.scenarios
      summaries_of (raised x) = []
  finish_pool-quarantined pool (raised x) result h e = absurd (ground arith)

  -- When a run of the pool returns, the pool is quarantined afterwards exactly if some scenario of the
  -- result reports a failed cleanup under a worker's name.
  pub execute_on_runtime_pool-quarantined :
      (scenarios : List Scenario) (pool : RuntimePool) (result : PoolDispatchResult E)
      → (execute_on_runtime_pool scenarios pool).0 ≡ returned result
      → (execute_on_runtime_pool scenarios pool).1.quarantined
        ≡ any cleanup_failed_on_worker result.scenarios
  unfolding execute_on_runtime_pool
  execute_on_runtime_pool-quarantined scenarios pool result h =
      elim (Bool-cases (is_eligible pool)) [
        | inr out ↦ absurd (impossible (rw out at h))
        | inl fit ↦ elim (Bool-cases (mismatched pool scenarios)) [
          | inl wrong ↦ absurd (impossible (rw (fit, wrong) at h))
          | inr right ↦
              rw (fit, right)
                (finish_pool-quarantined pool (dispatch_workers pool.workers scenarios) result
                  (eligible-not_quarantined pool fit) (rw (fit, right) at h))
        ]
      ]
    where
      impossible : {A : Type 0} {x : Exn} {a : A} → raised x ≡ returned a → ⊥
      impossible h = ground arith

  -- Once a run of the pool has returned with a scenario that reports a failed cleanup under a worker's
  -- name, every later run on that pool raises and changes nothing.
  pub execute_on_runtime_pool-refused :
      (scenarios later : List Scenario) (pool : RuntimePool) (result : PoolDispatchResult E)
      → (execute_on_runtime_pool scenarios pool).0 ≡ returned result
      → any cleanup_failed_on_worker result.scenarios ≡ true
      → execute_on_runtime_pool later (execute_on_runtime_pool scenarios pool).1
        ≡ (raised runtime_error, (execute_on_runtime_pool scenarios pool).1)
  execute_on_runtime_pool-refused scenarios later pool result h failed_ = refused later _ (
      quarantined-not_eligible _
        (execute_on_runtime_pool-quarantined scenarios pool result h ∙ failed_))
