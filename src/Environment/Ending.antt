-- ===== src/Environment/Ending.antt =====
-- The end of an environment: netopsbench/platform/simulator/environment.py.
use net_ops_bench.Prelude.{
  ℕ, ◌≡◌, refl, sym, subst, ap, ◌∙◌, Bool, true, false, ◌||◌, Option, none, Text, Outcome, returned,
  raised, Action, gets, proceed, ◌>>=◌, if◌then◌else◌, Bool-cases, Option-cases, inl, inr,
}
use net_ops_bench.Incident.{
  CleanupStatus, protocol, DiagnosisSubmission, Setting, Incident, closing, is_closed, is_broken,
  is_not_started, close, finish_backend,
}
use net_ops_bench.Incident.Lifecycle.{IsSettled}
use net_ops_bench.Incident.Closing.{close-close}
use net_ops_bench.Incident.Session.{
  SessionTransition, Diagnosing, submit, terminate_failure, protocol_error,
}
use net_ops_bench.Incident.Session.Settling.{submit-IsSettled, terminate_failure-IsSettled}
use net_ops_bench.Environment.{
  Environment, StepResult, diagnose, notify_environment, with_result, put_incident, put_back,
  closed_step, last_step, step, step_with, terminate_protocol, terminate_with,
}

-- The status that close returns is that of the incident.
abbrev IsStatus : {W : Type 0} → Outcome CleanupStatus × Incident W → Type 0
IsStatus (returned status, s) = s.cleanup_status ≡ status
IsStatus (raised e, s) = Unit {0}

-- When a step has returned, the incident is closed or broken, and the result has its cleanup status,
-- which is no longer not_started.
abbrev IsEnding : {W : Type 0} → Outcome StepResult × Environment W → Type 0
IsEnding (returned r, env) =
    (is_closed env.incident.state || is_broken env.incident.state ≡ true)
    × (r.cleanup_status ≡ env.incident.cleanup_status)
    × (is_not_started r.cleanup_status ≡ false)
IsEnding (raised e, env) = Unit {0}

module _ {W : Type 0} (setting : Setting W) (create : W → Outcome (Unit {0}) × W)
    (on_close : Option (W → Outcome (Unit {0}) × W)) where
  proceed-IsStatus :
      (o : Outcome Unit × Incident W) → IsStatus (proceed (λ _. gets (λ t. t.cleanup_status)) o)
  proceed-IsStatus (returned _, s) = refl
  proceed-IsStatus (raised e, s) = tt

  gets-IsStatus :
      (m : Action (Incident W) Unit) (s : Incident W)
      → IsStatus ((m >>= λ _. gets (λ t. t.cleanup_status)) s)
  gets-IsStatus m s = proceed-IsStatus (m s)

  close-IsStatus : (s : Incident W) → IsStatus (close setting s)
  unfolding close
  close-IsStatus s = elim (Bool-cases (is_closed s.state)) [
    | inl done ↦ rw done refl
    | inr open_ ↦ elim (Bool-cases (is_not_started s.cleanup_status)) [
      | inr cleaned ↦ rw (open_, cleaned) refl
      | inl n ↦
          rw (open_, n)
            (gets-IsStatus (finish_backend setting (is_broken s.state))
              (if is_broken s.state then s else record s { state = closing }))
    ]
  ]

  landed-IsEnding :
      (r : StepResult) (env : Environment W) (o : Outcome Unit) (w : W)
      → IsEnding (returned r, env)
      → IsEnding (
          with_result setting create on_close r
            (o, record env { close_notified = true; incident = record env.incident { world = w } }))
  unfolding with_result
  landed-IsEnding r env (returned _) w h = h
  landed-IsEnding r env (raised e) w h = tt

  notify-IsEnding :
      (r : StepResult) (env : Environment W)
      → IsEnding (returned r, env)
      → IsEnding
          (with_result setting create on_close r (notify_environment setting create on_close env))
  unfolding with_result notify_environment
  notify-IsEnding r env h = elim (Bool-cases env.close_notified) [
    | inl told ↦ rw told h
    | inr untold ↦ elim (Option-cases on_close) [
      | inl e ↦ rw (untold, e) h
      | inr (callback, e) ↦
          rw (untold, e)
            (landed-IsEnding r env (callback env.incident.world).0 (callback env.incident.world).1
              h)
    ]
  ]

  closed_step-IsEnding :
      (b : Bool) (t : SessionTransition) (env : Environment W)
      (o : Outcome CleanupStatus × Incident W)
      → IsStatus o
      → is_closed o.1.state || is_broken o.1.state ≡ true
      → is_not_started o.1.cleanup_status ≡ false
      → IsEnding (closed_step setting create on_close b t env o)
  unfolding closed_step put_incident
  closed_step-IsEnding b t env (returned status, s) same over cleaned =
      notify-IsEnding _ (record env { incident = s })
        (over, sym same, ap is_not_started (sym same) ∙ cleaned)
  closed_step-IsEnding b t env (raised e, s) same over cleaned = tt

  last_step-IsEnding :
      (b : Bool) (env : Environment W) (o : Outcome SessionTransition × Diagnosing W)
      → IsSettled o.1.incident
      → IsEnding (last_step setting create on_close b env o)
  unfolding last_step
  last_step-IsEnding b env (returned t, d) settles =
      let (over, cleaned, _) = close-close setting d.incident settles in
      closed_step-IsEnding b t (put_back setting create on_close env d) (close setting d.incident)
        (close-IsStatus d.incident) over cleaned
  last_step-IsEnding b env (raised e, d) settles = tt

  step-IsEnding :
      (now : ℕ) (diagnosis : DiagnosisSubmission) (env : Environment W)
      → IsSettled env.incident
      → IsEnding (step setting create on_close now (diagnose diagnosis) env)
  unfolding step step_with
  step-IsEnding now diagnosis env settles = elim (Option-cases env.session) [
    | inl e ↦ rw e tt
    | inr (session, e) ↦
        let d : Diagnosing W = record { incident = env.incident; session = session } in
        rw e (
          last_step-IsEnding true env (submit setting now diagnosis none none d)
            (submit-IsSettled setting now diagnosis none none d settles))
  ]

  terminate_protocol-IsEnding :
      (now : ℕ) (message : Text) (env : Environment W)
      → IsSettled env.incident
      → IsEnding (terminate_protocol setting create on_close now message env)
  unfolding terminate_protocol terminate_with
  terminate_protocol-IsEnding now message env settles = elim (Option-cases env.session) [
    | inl e ↦ rw e tt
    | inr (session, e) ↦
        let d : Diagnosing W = record { incident = env.incident; session = session } in
        rw e (
          last_step-IsEnding false env
            (terminate_failure setting now protocol message protocol_error d)
            (terminate_failure-IsSettled setting now protocol message protocol_error d settles))
  ]

  -- When an environment's step with a diagnosis returns, over a settled incident, the incident is closed
  -- or broken, and the result carries the incident's cleanup status, which is no longer not_started.
  pub step-closes :
      (now : ℕ) (diagnosis : DiagnosisSubmission) (env after : Environment W) (r : StepResult)
      → IsSettled env.incident
      → step setting create on_close now (diagnose diagnosis) env ≡ (returned r, after)
      → (is_closed after.incident.state || is_broken after.incident.state ≡ true)
        × (r.cleanup_status ≡ after.incident.cleanup_status)
        × (is_not_started r.cleanup_status ≡ false)
  step-closes now diagnosis env after r settles h =
      subst IsEnding h (step-IsEnding now diagnosis env settles)

  -- When the termination of an environment after a protocol error returns, over a settled incident, the
  -- incident is closed or broken, and the result carries the incident's cleanup status, which is no
  -- longer not_started.
  pub terminate_protocol-closes :
      (now : ℕ) (message : Text) (env after : Environment W) (r : StepResult)
      → IsSettled env.incident
      → terminate_protocol setting create on_close now message env ≡ (returned r, after)
      → (is_closed after.incident.state || is_broken after.incident.state ≡ true)
        × (r.cleanup_status ≡ after.incident.cleanup_status)
        × (is_not_started r.cleanup_status ≡ false)
  terminate_protocol-closes now message env after r settles h =
      subst IsEnding h (terminate_protocol-IsEnding now message env settles)
