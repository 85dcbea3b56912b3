-- ===== src/Incident/Session/Settling.antt =====
-- What the methods of a session leave of the incident (DiagnosticSession of
-- netopsbench/platform/incident/engine.py).
use net_ops_bench.Prelude.{
  ℕ, Option, none, some, List, Text, Outcome, returned, raised, Action, Bool-cases, inl, inr,
}
use net_ops_bench.Scorer.{ToolCall, EvaluationResult}
use net_ops_bench.Incident.{
  FailureDomain, DiagnosisSubmission, Setting, Incident, is_active, evaluate,
}
use net_ops_bench.Incident.Lifecycle.{IsSettled, Step-IsSettled, evaluates}
use net_ops_bench.Incident.Session.{
  Session, SessionTransition, TerminationReason, Diagnosing, is_running, limit_message,
  within_limits, limited, end_session, scored, submit, terminate_failure, elapsed_at,
  require_active, accounted, time_or, started_submission, terminated,
}

module _ {W : Type 0} (setting : Setting W) where
  active-IsSettled :
      (rest : Action (Diagnosing W) SessionTransition) (d : Diagnosing W)
      → IsSettled d.incident
      → IsSettled (rest d).1.incident
      → IsSettled (require_active setting rest d).1.incident
  active-IsSettled rest d h ok = elim (Bool-cases (is_running d.session.state)) [
    | inr over ↦ rw over h
    | inl running ↦ elim (Bool-cases (is_active d.incident.state)) [
      | inl active_ ↦ rw (running, active_) ok
      | inr inactive ↦ rw (running, inactive) h
    ]
  ]

  limited-IsSettled :
      (elapsed : ℕ) (rest : Action (Diagnosing W) SessionTransition) (d : Diagnosing W)
      (m : Option Text)
      → IsSettled d.incident
      → IsSettled (rest d).1.incident
      → IsSettled (limited setting elapsed rest d m).1.incident
  unfolding limited end_session
  limited-IsSettled elapsed rest d (some message) h ok = h
  limited-IsSettled elapsed rest d none h ok = ok

  scored-IsSettled :
      (elapsed : ℕ) (made : List ToolCall) (session : Session)
      (o : Outcome EvaluationResult × Incident W)
      → IsSettled o.1
      → IsSettled (scored setting elapsed made session o).1.incident
  unfolding scored
  scored-IsSettled elapsed made session (returned evaluation, incident) h = h
  scored-IsSettled elapsed made session (raised e, incident) h = h

  pub submit-IsSettled :
      (now : ℕ) (diagnosis : DiagnosisSubmission) (made : Option (List ToolCall)) (time : Option ℕ)
      → (d : Diagnosing W) → IsSettled d.incident
      → IsSettled (submit setting now diagnosis made time d).1.incident
  unfolding submit started_submission within_limits
  submit-IsSettled now diagnosis made time d h =
      let elapsed = elapsed_at d.session now in
      let calls = accounted setting made d.session in
      active-IsSettled (started_submission setting now diagnosis made time) d h (
        limited-IsSettled elapsed
          (λ e.
            scored setting elapsed calls e.session
              (evaluate setting diagnosis calls (time_or setting time elapsed) e.incident))
          d (limit_message d.session elapsed) h
          (scored-IsSettled elapsed calls d.session
            (evaluate setting diagnosis calls (time_or setting time elapsed) d.incident)
            (Step-IsSettled setting (evaluates diagnosis calls (time_or setting time elapsed)) h)))

  pub terminate_failure-IsSettled :
      (now : ℕ) (domain : FailureDomain) (message : Text) (reason : TerminationReason)
      (d : Diagnosing W)
      → IsSettled d.incident
      → IsSettled (terminate_failure setting now domain message reason d).1.incident
  unfolding terminate_failure terminated end_session
  terminate_failure-IsSettled now domain message reason d h =
      active-IsSettled (terminated setting now domain message reason) d h h
