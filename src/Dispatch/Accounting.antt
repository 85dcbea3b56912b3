-- ===== src/Dispatch/Accounting.antt =====
-- What a worker reports of its scenarios: _run_worker of netopsbench/platform/session/dispatch.py.
use mathlib.Core.List.{append-nil, append_assoc}
use net_ops_bench.Prelude.{
  ℕ, ◌+◌, ◌≡◌, refl, sym, ap, subst, ◌∙◌, Bool, true, false, ◌&&◌, List, [], ◌∷◌, ◌++◌, map, Text,
  length, length-map, count_if, count_if-snoc, count_if-le, arith, Exn, Outcome, returned, raised,
  Action, proceed, Bool-cases, Option-cases, inl, inr,
}
use net_ops_bench.Dispatch.{Scenario}
use net_ops_bench.Dispatch.Working.{
  ScenarioResult, invalid, completed, failed, skipped_infrastructure_failure, Summary, Runner, Run,
  WorkerSummary, is_valid, succeeded, status_of, summary_of, skipped, on_world, count_run, scored,
  conclude, run_case, skip_all, after_case, run_all, begin_run, summarize, finally_close,
  require_all, run_worker, closing, after_scoring, traced, scoring_failed,
}

abbrev pub is_completed : Summary → Bool
is_completed summary = elim summary.status [
  | completed ↦ true
  | invalid ↦ false
  | failed ↦ false
  | skipped_infrastructure_failure ↦ false
]

-- The scenario was run, whatever came of it.
abbrev pub was_run : Summary → Bool
was_run summary = elim summary.status [
  | completed ↦ true
  | invalid ↦ true
  | failed ↦ true
  | skipped_infrastructure_failure ↦ false
]

unfoldable pub all_completed : List Summary → Bool
all_completed [] = true
all_completed (s ∷ rest) = is_completed s && all_completed rest

all_completed-append :
    (xs : List Summary) (s : Summary)
    → all_completed (xs ++ (s ∷ [])) ≡ all_completed xs && is_completed s
unfolding all_completed
all_completed-append [] s = ground arith
all_completed-append (x ∷ xs) s = ground (arith, all_completed-append xs s)

map-append_one :
    {A B : Type 0} (f : A → B) (xs : List A) (x : A)
    → map f (xs ++ (x ∷ [])) ≡ map f xs ++ (f x ∷ [])
map-append_one f [] x = refl
map-append_one f (y ∷ ys) x = ap (λ zs. f y ∷ zs) (map-append_one f ys x)

abbrev pub names : List Summary → List Text
names summaries = map (λ s. s.scenario_id) summaries

abbrev pub ids : List Scenario → List Text
ids scenarios = map (λ s. s.id) scenarios

summary_of-was_run :
    (worker : Text) (scenario : Scenario) (r : ScenarioResult) (path : Text)
    → was_run (summary_of worker scenario r path) ≡ true
unfolding summary_of status_of
summary_of-was_run worker scenario r path = ground arith

summary_of-is_completed :
    (worker : Text) (scenario : Scenario) (r : ScenarioResult) (path : Text)
    → is_completed (summary_of worker scenario r path) ≡ succeeded r
unfolding summary_of status_of
summary_of-is_completed worker scenario r path = ground arith

names-summary_of :
    (worker : Text) (scenario : Scenario) (r : ScenarioResult) (path : Text)
    (summaries : List Summary)
    → names (summaries ++ (summary_of worker scenario r path ∷ []))
      ≡ names summaries ++ (scenario.id ∷ [])
unfolding summary_of
names-summary_of worker scenario r path summaries =
    map-append_one (λ e. e.scenario_id) summaries (summary_of worker scenario r path)

module _ {W E : Type 0} (runner : Runner W E) (worker : Text) where
  -- The books after the scenarios `done`, of which `pending` more are counted as run but not yet entered.
  abbrev Accounted : ℕ → List Text → Run W E → Type 0
  Accounted pending done s =
      (names s.summaries ≡ done)
      × (s.executed_count ≡ count_if was_run s.summaries + pending)
      × (s.worker_success ≡ all_completed s.summaries)

  -- What holds of the value and the state when an action returns.
  abbrev Ends : {A : Type 0} → (A → Run W E → Type 0) → Outcome A × Run W E → Type 0
  Ends P (returned a, s) = P a s
  Ends P (raised e, s) = Unit {0}

  proceed-Ends :
      {A B : Type 0} (P : A → Run W E → Type 0) (Q : B → Run W E → Type 0)
      (k : A → Action (Run W E) B)
      → (o : Outcome A × Run W E) → Ends P o
      → ((a : A) (t : Run W E) → P a t → Ends Q (k a t))
      → Ends Q (proceed k o)
  proceed-Ends P Q k (returned a, t) h next = next a t h
  proceed-Ends P Q k (raised e, t) h next = tt

  landed-Ends :
      {A : Type 0} (pending : ℕ) (done : List Text) (r : Outcome A) (w : W) (s : Run W E)
      → Accounted pending done s
      → Ends {A = A} (λ _. Accounted pending done) (r, record s { world = w })
  landed-Ends pending done (returned a) w s h = h
  landed-Ends pending done (raised e) w s h = tt

  on_world-Ends :
      {A : Type 0} (pending : ℕ) (done : List Text) (call : W → Outcome A × W) (s : Run W E)
      → Accounted pending done s
      → Ends {A = A} (λ _. Accounted pending done) (on_world runner worker call s)
  on_world-Ends pending done call s h =
      landed-Ends pending done (call s.world).0 (call s.world).1 s h

  conclude-Ends :
      (done : List Text) (scenario : Scenario) (r : ScenarioResult) (path : Text) (es : List E)
      (s : Run W E)
      → Accounted 1 done s
      → Ends
          (λ b t.
            Accounted 0 (done ++ (scenario.id ∷ [])) t × (b ≡ false → t.worker_success ≡ false))
          (conclude runner worker scenario r path es s)
  unfolding conclude
  conclude-Ends done scenario r path es s (named, ran, verdict) =
      let entry = summary_of worker scenario r path in
      (
        (
          names-summary_of worker scenario r path s.summaries
              ∙ ap (λ xs. xs ++ (scenario.id ∷ [])) named,
          ground (
            arith,
            ran,
            count_if-snoc was_run s.summaries entry,
            summary_of-was_run worker scenario r path,
          ),
          ground (
            arith,
            verdict,
            all_completed-append s.summaries entry,
            summary_of-is_completed worker scenario r path,
          ),
        ),
        λ unclean. ground (arith, unclean),
      )

  traced-Ends :
      (pending : ℕ) (done : List Text) (r : ScenarioResult) (es : List E) (s : Run W E)
      → Accounted pending done s
      → Ends (λ _. Accounted pending done) (traced runner worker r es s)
  unfolding traced
  traced-Ends pending done r es s h = elim (Option-cases runner.write_evaluations) [
    | inl e ↦ rw e h
    | inr (write, e) ↦ rw e h
  ]

  scoring_failed-Ends :
      (P : List E → Run W E → Type 0) (scenario : Scenario) (r : ScenarioResult) (e : Exn)
      (s : Run W E)
      → Ends P (scoring_failed runner worker scenario r e s)
  unfolding scoring_failed
  scoring_failed-Ends P scenario r e s = elim (Option-cases runner.write_failure) [
    | inl h ↦ rw h tt
    | inr (write, h) ↦ rw h tt
  ]

  after_scoring-Ends :
      (pending : ℕ) (done : List Text) (scenario : Scenario) (r : ScenarioResult)
      (o : Outcome (List E) × Run W E)
      → Ends (λ _. Accounted pending done) o
      → Ends (λ _. Accounted pending done) (after_scoring runner worker scenario r o)
  unfolding after_scoring
  after_scoring-Ends pending done scenario r (returned es, s) h = traced-Ends pending done r es s h
  after_scoring-Ends pending done scenario r (raised e, s) h =
      scoring_failed-Ends (λ _. Accounted pending done) scenario r e s

  scored-Ends :
      (pending : ℕ) (done : List Text) (scenario : Scenario) (r : ScenarioResult) (s : Run W E)
      → Accounted pending done s
      → Ends (λ _. Accounted pending done) (scored runner worker scenario r s)
  unfolding scored
  scored-Ends pending done scenario r s h = elim (Bool-cases (is_valid r)) [
    | inl e ↦ rw e (
        after_scoring-Ends pending done scenario r
          (on_world runner worker (runner.score scenario r) s)
          (on_world-Ends pending done (runner.score scenario r) s h))
    | inr e ↦ rw e h
  ]

  run_case-Ends :
      (done : List Text) (scenario : Scenario) (s : Run W E)
      → Accounted 0 done s
      → Ends
          (λ b t.
            Accounted 0 (done ++ (scenario.id ∷ [])) t × (b ≡ false → t.worker_success ≡ false))
          (run_case runner worker scenario s)
  unfolding run_case count_run
  run_case-Ends done scenario s h =
      let Concluded : Bool → Run W E → Type 0 = λ b t.
        Accounted 0 (done ++ (scenario.id ∷ [])) t × (b ≡ false → t.worker_success ≡ false) in
      proceed-Ends (λ _. Accounted 0 done) Concluded _
        (on_world runner worker (runner.run_scenario scenario) s)
        (on_world-Ends 0 done (runner.run_scenario scenario) s h)
        λ r t ht.
          let counted : Run W E = record t { executed_count = t.executed_count + 1 } in
          proceed-Ends (λ _. Accounted 1 done) Concluded _
            (on_world runner worker (runner.persist scenario r) counted)
            (on_world-Ends 1 done (runner.persist scenario r) counted
              (ht.0, omega (arith, ht.1), ht.2))
            λ path u hu.
              proceed-Ends (λ _. Accounted 1 done) Concluded _ (scored runner worker scenario r u)
                (scored-Ends 1 done scenario r u hu)
                λ es v hv. conclude-Ends done scenario r path es v hv

  skip_all-Accounted :
      (done : List Text) (rest : List Scenario) (s : Run W E)
      → s.worker_success ≡ false
      → Accounted 0 done s
      → Accounted 0 (done ++ ids rest) (skip_all runner worker rest s)
  unfolding skip_all skipped
  skip_all-Accounted done [] s bad h = subst (λ d. Accounted 0 d s) (sym (append-nil done)) h
  skip_all-Accounted done (scenario ∷ rest) s bad (named, ran, verdict) =
      let entry = skipped worker scenario in
      let t : Run W E = record s { summaries = s.summaries ++ (entry ∷ []) } in
      subst (λ d. Accounted 0 d (skip_all runner worker rest t))
        (append_assoc done (scenario.id ∷ []) (ids rest))
        (skip_all-Accounted (done ++ (scenario.id ∷ [])) rest t bad (
          map-append_one (λ e. e.scenario_id) s.summaries entry
              ∙ ap (λ xs. xs ++ (scenario.id ∷ [])) named,
          ground (arith, ran, count_if-snoc was_run s.summaries entry),
          ground (arith, verdict, bad, all_completed-append s.summaries entry),
        ))

  after_case-Ends :
      (done : List Text) (scenario : Scenario) (rest : List Scenario) (next : Action (Run W E) Unit)
      (o : Outcome Bool × Run W E)
      → Ends
          (λ b t.
            Accounted 0 (done ++ (scenario.id ∷ [])) t × (b ≡ false → t.worker_success ≡ false))
          o
      → ((t : Run W E)
          → Accounted 0 (done ++ (scenario.id ∷ [])) t
          → Ends (λ _. Accounted 0 ((done ++ (scenario.id ∷ [])) ++ ids rest)) (next t))
      → Ends
          (λ _. Accounted 0 ((done ++ (scenario.id ∷ [])) ++ ids rest))
          (after_case runner worker rest next o)
  unfolding after_case
  after_case-Ends done scenario rest next (returned true, s) (h, bad) ok = ok s h
  after_case-Ends done scenario rest next (returned false, s) (h, bad) ok =
      skip_all-Accounted (done ++ (scenario.id ∷ [])) rest s (bad refl) h
  after_case-Ends done scenario rest next (raised e, s) h ok = tt

  run_all-Ends :
      (done : List Text) (scenarios : List Scenario) (s : Run W E)
      → Accounted 0 done s
      → Ends (λ _. Accounted 0 (done ++ ids scenarios)) (run_all runner worker scenarios s)
  unfolding run_all
  run_all-Ends done [] s h = subst (λ d. Accounted 0 d s) (sym (append-nil done)) h
  run_all-Ends done (scenario ∷ rest) s h =
      subst (λ d. Ends (λ _. Accounted 0 d) (run_all runner worker (scenario ∷ rest) s))
        (append_assoc done (scenario.id ∷ []) (ids rest))
        (after_case-Ends done scenario rest (run_all runner worker rest)
          (run_case runner worker scenario s) (run_case-Ends done scenario s h)
          λ t ht. run_all-Ends (done ++ (scenario.id ∷ [])) rest t ht)

  require_all-Ends :
      (scenarios : List Scenario) (s : Run W E)
      → Accounted 0 [] s
      → Ends (λ _. Accounted 0 []) (require_all runner worker scenarios s)
  unfolding require_all
  require_all-Ends [] s h = h
  require_all-Ends (scenario ∷ rest) s h =
      proceed-Ends (λ _. Accounted 0 []) (λ _. Accounted 0 []) (λ _. require_all runner worker rest)
        (on_world runner worker (runner.require_topology scenario) s)
        (on_world-Ends 0 [] (runner.require_topology scenario) s h)
        λ _ t ht. require_all-Ends rest t ht

  closing-Ends :
      (done : List Text) (r : Outcome Unit) (s : Run W E) (o : Outcome Unit × Run W E)
      → Ends {A = Unit} (λ _. Accounted 0 done) (r, s)
      → Ends {A = Unit} (λ _. Accounted 0 done) (r, o.1)
      → Ends (λ _. Accounted 0 done) (closing runner worker r o)
  unfolding closing
  closing-Ends done r s (returned _, t) h h' = h'
  closing-Ends done r s (raised e, t) h h' = tt

  finally_close-Ends :
      (done : List Text) (o : Outcome Unit × Run W E)
      → Ends (λ _. Accounted 0 done) o
      → Ends (λ _. Accounted 0 done) (finally_close runner worker o)
  unfolding finally_close
  finally_close-Ends done (returned u, s) h =
      closing-Ends done (returned u) s (on_world runner worker runner.close s) h h
  finally_close-Ends done (raised e, s) h =
      closing-Ends done (raised e) s (on_world runner worker runner.close s) tt tt

  -- What a worker returns for its scenarios when it returns.
  abbrev pub IsReport : List Scenario → List E × List Summary × WorkerSummary → Type 0
  IsReport scenarios report =
      (names report.1 ≡ ids scenarios)
      × (report.2.executed_count ≡ count_if was_run report.1)
      × (report.2.executed_count + report.2.skipped_count ≡ length scenarios)
      × (report.2.success ≡ all_completed report.1)

  Accounted-IsReport :
      (scenarios : List Scenario) (u : Run W E)
      → Accounted 0 (ids scenarios) u
      → IsReport scenarios
          (u.evaluations, u.summaries, summarize runner worker (length scenarios) u)
  unfolding summarize
  Accounted-IsReport scenarios u (named, ran, verdict) =
      let as_many : length u.summaries ≡ length scenarios =
        sym (length-map (λ e. e.scenario_id) u.summaries)
        ∙ ap length named
        ∙ length-map (λ e. e.id) scenarios in
      (
        named,
        omega (arith, ran),
        omega (arith, ran, as_many, count_if-le was_run u.summaries),
        verdict,
      )

  run_worker-Ends :
      (scenarios : List Scenario) (w : W)
      → Ends (λ report _. IsReport scenarios report) (run_worker runner worker scenarios w)
  unfolding run_worker begin_run all_completed
  run_worker-Ends scenarios w =
      let Reported : List E × List Summary × WorkerSummary → Run W E → Type 0 =
        λ report _. IsReport scenarios report in
      proceed-Ends (λ _. Accounted 0 []) Reported _
        (require_all runner worker scenarios (begin_run runner worker w))
        (require_all-Ends scenarios (begin_run runner worker w) (refl, refl, refl))
        λ _ s hs.
          proceed-Ends (λ _. Accounted 0 []) Reported _ (on_world runner worker runner.start s)
            (on_world-Ends 0 [] runner.start s hs)
            λ _ t ht.
              proceed-Ends (λ _. Accounted 0 (ids scenarios)) Reported _
                (finally_close runner worker (run_all runner worker scenarios t))
                (finally_close-Ends (ids scenarios) (run_all runner worker scenarios t)
                  (run_all-Ends [] scenarios t ht))
                λ _ u hu. Accounted-IsReport scenarios u hu

  -- When a worker returns, it reports on each of its scenarios once and in order, under the scenario's
  -- id, also on those that it skipped after a failed cleanup; the executed count is the number of the
  -- scenarios reported as run, executed and skipped add up to all, and the worker is a success exactly
  -- if each scenario is reported as completed.
  pub run_worker-IsReport :
      (scenarios : List Scenario) (w : W) (report : List E × List Summary × WorkerSummary)
      (t : Run W E)
      → run_worker runner worker scenarios w ≡ (returned report, t)
      → IsReport scenarios report
  run_worker-IsReport scenarios w report t h =
      subst (Ends (λ r _. IsReport scenarios r)) h (run_worker-Ends scenarios w)
