-- ===== src/Dispatch/Assigning.antt =====
-- The round-robin assignment of scenarios to workers (netopsbench/platform/session/dispatch.py).
use net_ops_bench.Prelude.{
  ℕ, ◌+◌, ◌≡◌, refl, ap, sym, ◌∙◌, true, some, List, [], ◌∷◌, ◌++◌, Text, text_eq, text_eq_iff, any,
  arith, if◌then◌else◌, Bool-cases, inl, inr, Dict, lookup, lookup_or, put, lookup-put, returned,
}
use mathlib.Core.List.{append-nil, append_assoc}
use net_ops_bench.Dispatch.{
  Scenario, Worker, no_assignments, append_to, worker_for, assign_from, assign_scenarios_to_workers,
}

-- The scenarios, in their order, whose turn falls on a worker with the given id.
unfoldable pub share : Text → ℕ → List Scenario → Worker → List Worker → List Scenario
share key index [] first rest = []
share key index (scenario ∷ scenarios) first rest =
    let others = share key (index + 1) scenarios first rest in
    if text_eq (worker_for index first rest).worker_id key then scenario ∷ others else others

lookup-append_to :
    (key other : Text) (scenario : Scenario) (d : Dict (List Scenario)) (before : List Scenario)
    → lookup key d ≡ some before
    → lookup key (append_to other scenario d)
      ≡ some (if text_eq other key then before ++ (scenario ∷ []) else before)
unfolding append_to
lookup-append_to key other scenario d before h = elim (Bool-cases (text_eq other key)) [
  | inr e ↦
      rw e (rw (lookup-put other key (lookup_or [] (lookup other d) ++ (scenario ∷ [])) d) (rw e h))
  | inl e ↦ rw e (
      rw (lookup-put other key (lookup_or [] (lookup other d) ++ (scenario ∷ [])) d) (
        rw e (
          ap (λ o. some (lookup_or [] o ++ (scenario ∷ [])))
            (ap (λ k. lookup k d) ((text_eq_iff other key).0 e) ∙ h))))
]

lookup-assign_from :
    (key : Text) (index : ℕ) (scenarios : List Scenario) (first : Worker) (rest : List Worker)
    (d : Dict (List Scenario)) (before : List Scenario)
    → lookup key d ≡ some before
    → lookup key (assign_from index scenarios first rest d)
      ≡ some (before ++ share key index scenarios first rest)
unfolding assign_from share
lookup-assign_from key index [] first rest d before h = h ∙ ap some (sym (append-nil before))
lookup-assign_from key index (scenario ∷ scenarios) first rest d before h =
    elim (Bool-cases (text_eq (worker_for index first rest).worker_id key)) [
      | inl e ↦ rw e (
          lookup-assign_from key (index + 1) scenarios first rest _ (before ++ (scenario ∷ [])) (
            lookup-append_to key (worker_for index first rest).worker_id scenario d before h
            ∙ rw e refl)
          ∙ ap some
              (append_assoc before (scenario ∷ []) (share key (index + 1) scenarios first rest)))
      | inr e ↦ rw e (
          lookup-assign_from key (index + 1) scenarios first rest _ before (
            lookup-append_to key (worker_for index first rest).worker_id scenario d before h
            ∙ rw e refl))
    ]

lookup-no_assignments :
    (key : Text) (ws : List Worker) (d : Dict (List Scenario))
    → lookup key (no_assignments ws d)
      ≡ (if any (λ w. text_eq w.worker_id key) ws then some [] else lookup key d)
unfolding no_assignments
lookup-no_assignments key [] d = refl
lookup-no_assignments key (w ∷ ws) d =
    ground
      (arith, lookup-no_assignments key ws (put w.worker_id [] d), lookup-put w.worker_id key [] d)

-- With at least one worker the assignment succeeds, and under the id of each worker it holds, in their
-- order, exactly the scenarios number i for which the worker number i modulo the number of workers has
-- that id.
pub assign_scenarios_to_workers-share :
    (scenarios : List Scenario) (first : Worker) (rest : List Worker) (key : Text)
    → any (λ w. text_eq w.worker_id key) (first ∷ rest) ≡ true
    → (d : Dict (List Scenario)) × (assign_scenarios_to_workers scenarios (first ∷ rest)
        ≡ returned d)
      × (lookup key d ≡ some (share key 0 scenarios first rest))
unfolding assign_scenarios_to_workers
assign_scenarios_to_workers-share scenarios first rest key h = (
  assign_from 0 scenarios first rest (no_assignments (first ∷ rest) []),
  refl,
  lookup-assign_from key 0 scenarios first rest (no_assignments (first ∷ rest) []) []
      (lookup-no_assignments key (first ∷ rest) [] ∙ rw h refl),
)
