-- ===== src/Environment.antt =====
-- The reset/step facade over an incident: DiagnosticEnvironment of
-- netopsbench/platform/simulator/environment.py.
pub mod Ending
use net_ops_bench.Prelude.{
  ℕ, Bool, true, false, not, Option, none, some, List, [], Text, codes, Exn, Outcome, returned,
  raised, Action, if◌then◌else◌,
}
use net_ops_bench.Payload.{Json}
use net_ops_bench.Incident.{
  IncidentState, CleanupStatus, not_started, ExecutionFailure, protocol, SimulatorConfig,
  ToolAction, DiagnosisSubmission, Setting, Incident, runtime_error, is_broken, prepare,
  open_session, close,
}
use net_ops_bench.Incident.Session.{
  Session, SessionTransition, Diagnosing, protocol_error, new_session, session_call_tool, submit,
  terminate_failure,
}

-- ResetResult, less the tool schemas; `valid` and `case_valid` are equal.
pub record ResetResult : Type 0 where
  pub valid : Bool
  pub state : IncidentState
  pub observation : Option Json
  pub failure : Option ExecutionFailure
  pub cleanup_failure : Option ExecutionFailure
  pub cleanup_status : CleanupStatus
  pub error : Option Text

-- StepResult: the transition, with the outcome of the cleanup.
pub record StepResult : Type 0 where
  pub transition : SessionTransition
  pub cleanup_failure : Option ExecutionFailure
  pub cleanup_status : CleanupStatus

-- As long as `was_reset` is false the code's incident is None, and `incident` is the one that `reset`
-- will prepare.
pub record Environment (W : Type 0) : Type 0 where
  pub incident : Incident W
  pub was_reset : Bool
  pub session : Option Session
  pub config : SimulatorConfig
  pub close_notified : Bool

pub data EnvironmentAction : Type 0 where
  tool : ToolAction → EnvironmentAction
  diagnose : DiagnosisSubmission → EnvironmentAction

abbrev pub message_of : Option ExecutionFailure → Option Text
message_of none = none
message_of (some f) = some f.message

-- `create` is the factory of the backend, and `on_close` the environment's own callback.
module _ {W : Type 0} (setting : Setting W) (create : W → Outcome (Unit {0}) × W)
    (on_close : Option (W → Outcome (Unit {0}) × W)) where
  unfoldable pub put_incident : Environment W → Incident W → Environment W
  put_incident env incident = record env { incident = incident }

  -- _notify_close
  unfoldable pub notify_environment : Action (Environment W) (Unit {0})
  notify_environment env = if env.close_notified then (returned tt, env) else elim on_close [
    | none ↦ (returned tt, env)
    | some callback ↦
        let (r, w) = callback env.incident.world in
        (r, record env { close_notified = true; incident = record env.incident { world = w } })
  ]

  -- The result behind a callback that may raise.
  unfoldable pub with_result :
      {A : Type 0} → A → Outcome (Unit {0}) × Environment W → Outcome A × Environment W
  with_result a (returned _, env) = (returned a, env)
  with_result a (raised e, env) = (raised e, env)

  broken_result : Incident W → ResetResult
  broken_result incident = record {
    valid = false;
    state = incident.state;
    observation = none;
    failure = incident.failure;
    cleanup_failure = incident.cleanup_failure;
    cleanup_status = incident.cleanup_status;
    error = elim incident.failure [
      | none ↦ some (codes "incident preparation failed")
      | some f ↦ some f.message
    ];
  }

  opened :
      ℕ → Environment W → Outcome SimulatorConfig × Incident W → Outcome ResetResult × Environment W
  opened now env (raised e, incident) = (raised e, put_incident env incident)
  opened now env (returned config, incident) = (
    returned (record {
      valid = true;
      state = incident.state;
      observation = incident.observation;
      failure = none;
      cleanup_failure = none;
      cleanup_status = incident.cleanup_status;
      error = none;
    }),
    record env { incident = incident; session = some (new_session config now) },
  )

  -- What follows engine.prepare. If that raises, the environment keeps no incident.
  prepared :
      ℕ → Environment W → Outcome (Unit {0}) × Incident W → Outcome ResetResult × Environment W
  unfolding broken_result opened
  prepared now env (raised e, incident) =
      (raised e, record env { incident = record env.incident { world = incident.world } })
  prepared now env (returned _, incident) =
      let kept : Environment W = record env { incident = incident; was_reset = true } in
      if is_broken incident.state
      then with_result (broken_result incident) (notify_environment kept)
      else opened now kept (open_session setting (some env.config) incident)

  created : ℕ → Environment W → Outcome (Unit {0}) × W → Outcome ResetResult × Environment W
  unfolding prepared
  created now env (raised e, w) = (raised e, put_incident env (record env.incident { world = w }))
  created now env (returned _, w) =
      prepared now env (prepare setting (record env.incident { world = w }))

  unfoldable pub reset : ℕ → Action (Environment W) ResetResult
  unfolding created
  reset now env =
      if env.was_reset
      then (raised runtime_error, env)
      else created now env (create env.incident.world)

  -- The environment after a call of its session.
  unfoldable pub put_back : Environment W → Diagnosing W → Environment W
  put_back env d = record env { incident = d.incident; session = some d.session }

  unfoldable pub tool_step :
      Environment W → Outcome SessionTransition × Diagnosing W → Outcome StepResult × Environment W
  unfolding put_back
  tool_step env (raised e, d) = (raised e, put_back env d)
  tool_step env (returned t, d) = (
    returned (record { transition = t; cleanup_failure = none; cleanup_status = not_started }),
    put_back env d,
  )

  -- What follows incident.close(): the cleanup goes into the result, and for a submission its failure
  -- also takes the place of the transition's error.
  unfoldable pub closed_step :
      Bool
      → SessionTransition
      → Environment W
      → Outcome CleanupStatus × Incident W
      → Outcome StepResult × Environment W
  unfolding with_result notify_environment put_incident
  closed_step submitted_ t env (raised e, incident) = (raised e, put_incident env incident)
  closed_step submitted_ t env (returned status, incident) =
      with_result
        (record {
          transition =
              if submitted_ then record t { error = message_of incident.cleanup_failure } else t;
          cleanup_failure = incident.cleanup_failure;
          cleanup_status = status;
        })
        (notify_environment (put_incident env incident))

  unfoldable pub last_step :
      Bool
      → Environment W
      → Outcome SessionTransition × Diagnosing W
      → Outcome StepResult × Environment W
  unfolding closed_step put_back
  last_step submitted_ env (raised e, d) = (raised e, put_back env d)
  last_step submitted_ env (returned t, d) =
      closed_step submitted_ t (put_back env d) (close setting d.incident)

  unfoldable pub step_with :
      ℕ → EnvironmentAction → Environment W → Session → Outcome StepResult × Environment W
  unfolding tool_step last_step
  step_with now (tool action) env session =
      tool_step env (
        session_call_tool setting now action
          (record { incident = env.incident; session = session }))
  step_with now (diagnose diagnosis) env session = last_step true env (
      submit setting now diagnosis none none
        (record { incident = env.incident; session = session }))

  unfoldable pub step : ℕ → EnvironmentAction → Action (Environment W) StepResult
  unfolding step_with
  step now action env = elim env.session [
    | none ↦ (raised runtime_error, env)
    | some session ↦ step_with now action env session
  ]

  unfoldable pub terminate_with :
      ℕ → Text → Environment W → Session → Outcome StepResult × Environment W
  unfolding last_step
  terminate_with now message env session = last_step false env (
      terminate_failure setting now protocol message protocol_error
        (record { incident = env.incident; session = session }))

  unfoldable pub terminate_protocol : ℕ → Text → Action (Environment W) StepResult
  unfolding terminate_with
  terminate_protocol now message env = elim env.session [
    | none ↦ (raised runtime_error, env)
    | some session ↦ terminate_with now message env session
  ]

  incident_closed :
      Environment W → Outcome CleanupStatus × Incident W → Outcome (Unit {0}) × Environment W
  unfolding notify_environment put_incident
  incident_closed env (raised e, incident) = (raised e, put_incident env incident)
  incident_closed env (returned _, incident) = notify_environment (put_incident env incident)

  unfoldable pub close_environment : Action (Environment W) (Unit {0})
  unfolding incident_closed notify_environment
  close_environment env =
      if env.was_reset
      then incident_closed env (close setting env.incident)
      else notify_environment env
