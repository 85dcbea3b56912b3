-- ===== src/Incident/Session.antt =====
-- DiagnosticSession of netopsbench/platform/incident/engine.py: the budget of one agent over a prepared
-- incident. Times are clock readings in microseconds.
pub mod Runs
pub mod Budget
pub mod Exhausted
pub mod Submission
pub mod Settling
use net_ops_bench.Prelude.{
  ℕ, suc, ◌+◌, ◌-◌, ◌*◌, Bool, true, false, Option, none, some, List, [], ◌∷◌, ◌++◌, Text, codes,
  length, ltb, leb, Exn, Outcome, returned, raised, Action, if◌then◌else◌,
}
use net_ops_bench.Payload.{Json, string, bool, object, Fields, end, field, compact_json}
use net_ops_bench.Scorer.{ToolCall, EvaluationResult}
use net_ops_bench.Incident.{
  ExecutionFailure, FailureDomain, agent, protocol, tool_execution, SimulatorConfig, ToolAction,
  DiagnosisSubmission, Setting, Incident, is_active, runtime_error, call_tool, evaluate,
}

pub data SessionState : Type 0 where
  active terminal : SessionState

pub data TerminationReason : Type 0 where
  submitted agent_error protocol_error limit_exhausted : TerminationReason

pub record Session : Type 0 where
  pub config : SimulatorConfig
  pub state : SessionState
  pub started_at : ℕ
  pub tool_calls : ℕ
  pub tool_call_records : List ToolCall
  pub evaluation_result : Option EvaluationResult

-- SessionTransition; the reward is in thousandths, and `evaluated` stands for the metrics that a
-- submission takes over from its evaluation.
pub record SessionTransition : Type 0 where
  pub state : SessionState
  pub observation : Option Json
  pub reward : Option ℕ
  pub tool_calls : ℕ
  pub elapsed : ℕ
  pub evaluated : Option EvaluationResult
  pub termination_reason : Option TerminationReason
  pub failure : Option ExecutionFailure
  pub error : Option Text

-- The session and the incident that it works on.
pub record Diagnosing (W : Type 0) : Type 0 where
  pub incident : Incident W
  pub session : Session

abbrev pub is_running : SessionState → Bool
is_running active = true
is_running terminal = false

-- DiagnosticSession.__init__
unfoldable pub new_session : SimulatorConfig → ℕ → Session
new_session config now = record {
  config = config;
  state = active;
  started_at = now;
  tool_calls = 0;
  tool_call_records = [];
  evaluation_result = none;
}

-- _elapsed: max(0.0, now - started_at)
abbrev pub elapsed_at : Session → ℕ → ℕ
elapsed_at session now = now - session.started_at

failure_of : FailureDomain → Text → Text → Option Text → ExecutionFailure
failure_of domain phase message error_type = record {
  domain = domain;
  phase = phase;
  message = message;
  error_type = error_type;
}

-- The message of _limit_transition; a second is a million microseconds.
unfoldable pub limit_message : Session → ℕ → Option Text
limit_message session elapsed =
    if ltb (session.config.max_agent_seconds * 1000000) elapsed
    then some (codes "max_agent_seconds exceeded")
    else if leb session.config.max_tool_calls session.tool_calls
    then some (codes "max_tool_calls exceeded")
    else none

-- A transition that ends the session with reward 0.
failed_transition : Session → ℕ → TerminationReason → ExecutionFailure → SessionTransition
failed_transition session elapsed reason failure = record {
  state = terminal;
  observation = none;
  reward = some 0;
  tool_calls = session.tool_calls;
  elapsed = elapsed;
  evaluated = none;
  termination_reason = some reason;
  failure = some failure;
  error = some failure.message;
}

-- A transition after a tool call, which leaves the session as it is.
tool_transition : Session → ℕ → Json → Option ExecutionFailure → SessionTransition
tool_transition session elapsed observation failure = record {
  state = session.state;
  observation = some observation;
  reward = none;
  tool_calls = session.tool_calls;
  elapsed = elapsed;
  evaluated = none;
  termination_reason = none;
  failure = failure;
  error = elim failure [ none ↦ none | some f ↦ some f.message ];
}

-- The payload of _bounded_tool_observation, its fields in order.
failed_payload : Text → Text → Json
failed_payload tool error = object (
    field (codes "error") (string error)
      (field (codes "success") (bool false) (field (codes "tool") (string tool) end)))

result_payload : Text → Json → Json
result_payload tool result =
    object (field (codes "result") result (field (codes "tool") (string tool) end))

-- `bounded if isinstance(bounded, dict) else {"result": bounded}`
as_object : Json → Json
as_object (object fs) = object fs
as_object v = object (field (codes "result") v end)

bounded_tool_observation : Session → Json → Json
unfolding as_object
bounded_tool_observation session value =
    as_object (compact_json value session.config.max_tool_result_bytes)

module _ {W : Type 0} (setting : Setting W) where
  -- _require_active
  abbrev require_active : {A : Type 0} → Action (Diagnosing W) A → Action (Diagnosing W) A
  require_active rest d =
      if is_running d.session.state
      then (if is_active d.incident.state then rest d else (raised runtime_error, d))
      else (raised runtime_error, d)

  end_session : Diagnosing W → Diagnosing W
  end_session d = record d { session = record d.session { state = terminal } }

  -- What follows the limit check: the end of the session, or else what is left of the method.
  limited :
      ℕ
      → Action (Diagnosing W) SessionTransition
      → Diagnosing W
      → Option Text
      → Outcome SessionTransition × Diagnosing W
  unfolding end_session failed_transition failure_of
  limited elapsed rest d (some message) = (
    returned (
        failed_transition d.session elapsed limit_exhausted
          (failure_of agent (codes "limits") message none)),
    end_session d,
  )
  limited elapsed rest d none = rest d

  -- _limit_transition
  within_limits :
      ℕ → Action (Diagnosing W) SessionTransition → Action (Diagnosing W) SessionTransition
  unfolding limited
  within_limits elapsed rest d = limited elapsed rest d (limit_message d.session elapsed)

  -- The call is counted and recorded before it is checked.
  count_call : ToolAction → Diagnosing W → Diagnosing W
  count_call action d = record d {
    session = record d.session {
      tool_calls = d.session.tool_calls + 1;
      tool_call_records =
          d.session.tool_call_records
          ++ (record { tool = action.name; args = action.arguments } ∷ []);
    };
  }

  -- What the agent sees of the outcome of incident.call_tool.
  observed :
      ℕ
      → ToolAction
      → Session
      → Outcome Json × Incident W
      → Outcome SessionTransition × Diagnosing W
  unfolding tool_transition result_payload failed_payload bounded_tool_observation failure_of
  observed elapsed action session (returned result, incident) = (
    returned (
        tool_transition session elapsed
          (bounded_tool_observation session (result_payload action.name result)) none),
    record { incident = incident; session = session },
  )
  observed elapsed action session (raised e, incident) = (
    returned (
        tool_transition session elapsed
          (bounded_tool_observation session (failed_payload action.name e.message))
          (some
            (failure_of tool_execution (codes "tool_execution") e.message (some e.error_type)))),
    record { incident = incident; session = session },
  )

  refused : ℕ → ToolAction → Diagnosing W → Outcome SessionTransition × Diagnosing W
  unfolding tool_transition failed_payload bounded_tool_observation failure_of
  refused elapsed action d =
      let message = codes "Invalid tool action: " ++ action.name in
      (
        returned (
            tool_transition d.session elapsed
              (bounded_tool_observation d.session (failed_payload action.name message))
              (some (failure_of protocol (codes "tool_validation") message none))),
        d,
      )

  attempt_call : ℕ → ToolAction → Action (Diagnosing W) SessionTransition
  unfolding observed refused
  attempt_call elapsed action d =
      if setting.validate_tool_call action
      then observed elapsed action d.session (call_tool setting action d.incident)
      else refused elapsed action d

  -- call_tool after its first line.
  started_call : ℕ → ToolAction → Action (Diagnosing W) SessionTransition
  unfolding within_limits count_call attempt_call
  started_call now action d =
      let elapsed = elapsed_at d.session now in
      within_limits elapsed (λ e. attempt_call elapsed action (count_call action e)) d

  unfoldable pub session_call_tool : ℕ → ToolAction → Action (Diagnosing W) SessionTransition
  unfolding started_call
  session_call_tool now action = require_active (started_call now action)

  -- `tool_calls or self.tool_call_records`
  abbrev pub accounted : Option (List ToolCall) → Session → List ToolCall
  accounted none session = session.tool_call_records
  accounted (some []) session = session.tool_call_records
  accounted (some (c ∷ cs)) session = c ∷ cs

  scored :
      ℕ
      → List ToolCall
      → Session
      → Outcome EvaluationResult × Incident W
      → Outcome SessionTransition × Diagnosing W
  scored elapsed calls session (returned evaluation, incident) = (
    returned (record {
      state = terminal;
      observation = none;
      reward = some evaluation.score;
      tool_calls = length calls;
      elapsed = elapsed;
      evaluated = some evaluation;
      termination_reason = some submitted;
      failure = none;
      error = none;
    }),
    record {
      incident = incident;
      session = record session { state = terminal; evaluation_result = some evaluation };
    },
  )
  scored elapsed calls session (raised e, incident) =
      (raised e, record { incident = incident; session = session })

  -- `float(time_taken if time_taken is not None else elapsed)`
  abbrev pub time_or : Option ℕ → ℕ → ℕ
  time_or none elapsed = elapsed
  time_or (some time) elapsed = time

  -- submit after its first line.
  started_submission :
      ℕ
      → DiagnosisSubmission
      → Option (List ToolCall)
      → Option ℕ
      → Action (Diagnosing W) SessionTransition
  unfolding within_limits scored
  started_submission now diagnosis tool_calls time_taken d =
      let elapsed = elapsed_at d.session now in
      let calls = accounted tool_calls d.session in
      within_limits elapsed
        (λ e.
          scored elapsed calls e.session
            (evaluate setting diagnosis calls (time_or time_taken elapsed) e.incident))
        d

  unfoldable pub submit :
      ℕ
      → DiagnosisSubmission
      → (tool_calls : Option (List ToolCall)) (time_taken : Option ℕ)
      → Action (Diagnosing W) SessionTransition
  unfolding started_submission
  submit now diagnosis tool_calls time_taken =
      require_active (started_submission now diagnosis tool_calls time_taken)

  -- terminate_failure after its first line.
  terminated :
      ℕ → FailureDomain → Text → TerminationReason → Action (Diagnosing W) SessionTransition
  unfolding end_session failed_transition failure_of
  terminated now domain message reason d = (
    returned (
        failed_transition d.session (elapsed_at d.session now) reason
          (failure_of domain (codes "diagnosis") message none)),
    end_session d,
  )

  unfoldable pub terminate_failure :
      ℕ → FailureDomain → Text → TerminationReason → Action (Diagnosing W) SessionTransition
  unfolding terminated
  terminate_failure now domain message reason =
      require_active (terminated now domain message reason)
