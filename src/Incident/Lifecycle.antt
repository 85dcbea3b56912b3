-- ===== src/Incident/Lifecycle.antt =====
-- The states of an incident, over any sequence of method calls.
use net_ops_bench.Prelude.{
  ℕ, ◌≡◌, refl, Bool, true, false, Option, none, List, arith, Outcome, returned, raised, Action,
  gets, ◌>>=◌, ap, is_some, Bool-cases, inl, inr,
}
use net_ops_bench.Payload.{Json}
use net_ops_bench.Scorer.{ToolCall}
use net_ops_bench.Incident.{
  is_created, is_broken, is_closed, is_not_started, IncidentState, created, preparing, active,
  closing, closed, broken, CleanupStatus, not_started, succeeded, failed, SimulatorConfig,
  ToolAction, DiagnosisSubmission, Setting, Incident, prepare, open_session, call_tool, evaluate,
  close, finish_backend, finished, prepared,
}

-- Which cleanup status and which failures go with a state between two method calls. The states
-- `preparing` and `closing` occur inside a method only.
abbrev pub settled : IncidentState → CleanupStatus → (failure cleanup_failure : Bool) → Bool
settled created not_started false false = true
settled active not_started false false = true
settled closed succeeded false false = true
settled broken succeeded true false = true
settled broken failed _ true = true
settled _ _ _ _ = false

abbrev pub IsSettled : {W : Type 0} → Incident W → Type 0
IsSettled s =
    settled s.state s.cleanup_status (is_some s.failure) (is_some s.cleanup_failure) ≡ true

-- Before the cleanup has begun nothing has failed.
pub not_started-clean :
    {W : Type 0} (s : Incident W)
    → IsSettled s
    → is_not_started s.cleanup_status ≡ true
    → (s.failure ≡ none) × (s.cleanup_failure ≡ none) × (is_broken s.state ≡ false)
not_started-clean s h n = ground arith

pub created-not_started :
    {W : Type 0} (s : Incident W)
    → IsSettled s
    → is_created s.state ≡ true
    → s.cleanup_status ≡ not_started
created-not_started s h c = ground arith

module _ {W : Type 0} (setting : Setting W) where
  -- One method call, whatever it returns or raises.
  pub data Step (s : Incident W) : Incident W → Type 0 where
    prepares : Step s (prepare setting s).1
    opens : (config : Option SimulatorConfig) → Step s (open_session setting config s).1
    calls : (action : ToolAction) → Step s (call_tool setting action s).1
    evaluates :
        (diagnosis : DiagnosisSubmission) (made : List ToolCall) (time : ℕ)
        → Step s (evaluate setting diagnosis made time s).1
    closes : Step s (close setting s).1

  pub data Reach (s : Incident W) : Incident W → Type 0 where
    here : Reach s s
    next : {t u : Incident W} → Reach s t → Step t u → Reach s u

  finished-IsSettled :
      (r : Outcome Unit) (s : Incident W) (was_broken : Bool)
      → s.cleanup_failure ≡ none
      → is_some s.failure ≡ was_broken
      → IsSettled (finished setting was_broken r s).1
  unfolding finished
  finished-IsSettled (returned _) s true clean h = ground arith
  finished-IsSettled (returned _) s false clean h = ground arith
  finished-IsSettled (raised e) s was_broken clean h = ground arith

  finish_backend-IsSettled :
      (was_broken : Bool) (s : Incident W)
      → s.cleanup_failure ≡ none
      → is_some s.failure ≡ was_broken
      → IsSettled (finish_backend setting was_broken s).1
  unfolding finish_backend
  finish_backend-IsSettled was_broken s clean h = finished-IsSettled _ _ was_broken clean h

  prepared-IsSettled :
      (r : Outcome Json) (s : Incident W)
      → s.failure ≡ none
      → s.cleanup_failure ≡ none
      → s.cleanup_status ≡ not_started
      → IsSettled (prepared setting r s).1
  unfolding prepared
  prepared-IsSettled (returned o) s f c n = ground arith
  prepared-IsSettled (raised e) s f c n = finish_backend-IsSettled true _ c refl

  prepare-IsSettled : (s : Incident W) → IsSettled s → IsSettled (prepare setting s).1
  unfolding prepare
  prepare-IsSettled s h = elim (Bool-cases (is_created s.state)) [
    | inl new ↦
        let n = created-not_started s h new in
        let (f, c, _) = not_started-clean s h (ap is_not_started n) in
        rw new (
          prepared-IsSettled (setting.prepare s.episode s.world).0
            (record s { state = preparing; world = (setting.prepare s.episode s.world).1 }) f c n)
    | inr old ↦ rw old h
  ]

  open_session-IsSettled :
      (config : Option SimulatorConfig) (s : Incident W)
      → IsSettled s
      → IsSettled (open_session setting config s).1
  unfolding open_session
  open_session-IsSettled config s h = ground arith

  call_tool-IsSettled :
      (action : ToolAction) (s : Incident W)
      → IsSettled s
      → IsSettled (call_tool setting action s).1
  unfolding call_tool
  call_tool-IsSettled action s h = ground arith

  evaluate-IsSettled :
      (diagnosis : DiagnosisSubmission) (made : List ToolCall) (time : ℕ) (s : Incident W)
      → IsSettled s
      → IsSettled (evaluate setting diagnosis made time s).1
  unfolding evaluate
  evaluate-IsSettled diagnosis made time s h = ground arith

  after_gets :
      (m : Action (Incident W) Unit) (s : Incident W)
      → IsSettled (m s).1
      → IsSettled ((m >>= λ _. gets (λ t. t.cleanup_status)) s).1
  after_gets m s h = ground arith

  pub close-IsSettled : (s : Incident W) → IsSettled s → IsSettled (close setting s).1
  unfolding close
  close-IsSettled s h = elim (Bool-cases (is_closed s.state)) [
    | inl done ↦ rw done h
    | inr open_ ↦ elim (Bool-cases (is_not_started s.cleanup_status)) [
      | inr cleaned ↦ rw (open_, cleaned) h
      | inl n ↦
          let (f, c, b) = not_started-clean s h n in
          rw (open_, n)
            (rw b (
              after_gets (finish_backend setting false) (record s { state = closing })
                (finish_backend-IsSettled false (record s { state = closing }) c (ap is_some f))))
    ]
  ]

  pub Step-IsSettled : {s t : Incident W} → Step s t → IsSettled s → IsSettled t
  Step-IsSettled {s} prepares h = prepare-IsSettled s h
  Step-IsSettled {s} (opens config) h = open_session-IsSettled config s h
  Step-IsSettled {s} (calls action) h = call_tool-IsSettled action s h
  Step-IsSettled {s} (evaluates diagnosis made time) h = evaluate-IsSettled diagnosis made time s h
  Step-IsSettled {s} closes h = close-IsSettled s h

  -- From an incident that is settled, any sequence of method calls, whether they return or raise, leads
  -- to one that is settled: created or active with no cleanup begun and no failure recorded, closed with
  -- a cleanup that succeeded and no failure recorded, or broken with the failure of the preparation and
  -- a cleanup that succeeded, or with a cleanup that failed and its failure.
  pub Reach-IsSettled : (s t : Incident W) → IsSettled s → Reach s t → IsSettled t
  Reach-IsSettled s t h here = h
  Reach-IsSettled s t h (next r st) = Step-IsSettled st (Reach-IsSettled s _ h r)
