-- ===== src/Incident.antt =====
-- The incident lifecycle (netopsbench/platform/incident/engine.py): PreparedIncident. Its locks only
-- make each method run alone, so a method is one step on the incident.
pub mod Truth
pub mod Session
pub mod Lifecycle
pub mod Cleanup
pub mod Closing
use net_ops_bench.Prelude.{
  ℕ, ◌+◌, Bool, true, false, Option, none, some, List, [], ◌∷◌, Text, codes, Exn, Outcome, returned,
  raised, Action, pure, throw, gets, ◌>>=◌, ◌>>◌, if◌then◌else◌, is_some,
}
use net_ops_bench.Payload.{Json}
use net_ops_bench.FaultType.{JudgeFn}
use net_ops_bench.Scorer
use net_ops_bench.Scorer.{Location, ToolCall, EvaluationResult}
use net_ops_bench.Topology.Manifest.{Manifest}
use Truth.{Episode, is_healthy, build_episode_ground_truth}

pub data IncidentState : Type 0 where
  created preparing active closing closed broken : IncidentState

pub data FailureDomain : Type 0 where
  infrastructure agent protocol tool_execution cleanup : FailureDomain

pub data CleanupStatus : Type 0 where
  not_started succeeded failed : CleanupStatus

pub record ExecutionFailure : Type 0 where
  pub domain : FailureDomain
  pub phase : Text
  pub message : Text
  pub error_type : Option Text

-- The fields of SimulatorConfig that a session uses.
pub record SimulatorConfig : Type 0 where
  pub max_tool_calls : ℕ
  pub max_agent_seconds : ℕ
  pub max_tool_result_bytes : ℕ

pub record ToolAction : Type 0 where
  pub name : Text
  pub arguments : List (Text × Text)

pub record DiagnosisSubmission : Type 0 where
  pub verdict : Text
  pub fault_type : Option Text
  pub location : Location
  pub evidence : List Text
  pub reasoning : Text

-- What an incident is built over: the backend, whose methods act on a world of type `W` and may raise,
-- the topology manifest that the backend's directory holds, the check of a tool call against the tool
-- registry, the evaluator's judge, and the callback that is called when the incident has closed.
pub record Setting (W : Type 0) : Type 0 where
  pub prepare : Episode → W → Outcome Json × W
  pub call_tool : ToolAction → W → Outcome Json × W
  pub refresh : ℕ → W → Outcome (Unit {0}) × W
  pub finish : Bool → W → Outcome (Unit {0}) × W
  pub manifest : Option (Outcome Manifest)
  pub validate_tool_call : ToolAction → Bool
  pub caught : Exn → Bool
  pub judge : Option JudgeFn
  pub on_close : Option (W → Outcome (Unit {0}) × W)
  pub default_session_config : Option SimulatorConfig

-- `case_id` is the property of that name: the text of the observation's case_id, or else one made of the
-- scenario's digest.
pub record Incident (W : Type 0) : Type 0 where
  pub world : W
  pub episode : Episode
  pub case_id : Option Json → Text
  pub state : IncidentState
  pub observation : Option Json
  pub failure : Option ExecutionFailure
  pub cleanup_failure : Option ExecutionFailure
  pub cleanup_status : CleanupStatus
  pub close_notified : Bool

abbrev pub runtime_error : Exn
runtime_error = record { error_type = codes "RuntimeError"; message = codes "not active" }

abbrev pub value_error : Exn
value_error = record { error_type = codes "ValueError"; message = codes "invalid" }

abbrev pub is_active : IncidentState → Bool
is_active active = true
is_active _ = false

abbrev pub is_created : IncidentState → Bool
is_created created = true
is_created _ = false

abbrev pub is_broken : IncidentState → Bool
is_broken broken = true
is_broken _ = false

abbrev pub is_not_started : CleanupStatus → Bool
is_not_started not_started = true
is_not_started _ = false

-- A new incident.
abbrev pub fresh : {W : Type 0} → W → Episode → (Option Json → Text) → Incident W
fresh world episode case_id = record {
  world = world;
  episode = episode;
  case_id = case_id;
  state = created;
  observation = none;
  failure = none;
  cleanup_failure = none;
  cleanup_status = not_started;
  close_notified = false;
}

-- `config or self._default_session_config`
resolve :
    {W : Type 0}
    → Option SimulatorConfig
    → Option SimulatorConfig
    → Action (Incident W) SimulatorConfig
resolve (some config) default = pure config
resolve none (some config) = pure config
resolve none none = throw value_error

abbrev pub is_closed : IncidentState → Bool
is_closed closed = true
is_closed _ = false

module _ {W : Type 0} (setting : Setting W) where
  -- A call of the backend.
  abbrev on_world : {A : Type 0} → (W → Outcome A × W) → Action (Incident W) A
  on_world call s = let (r, w) = call s.world in (r, record s { world = w })

  -- _notify_close: at most one call of the callback; the flag is set before it.
  notify_close : Action (Incident W) (Unit {0})
  notify_close s = if s.close_notified then (returned tt, s) else elim setting.on_close [
    | none ↦ (returned tt, s)
    | some callback ↦
        let (r, w) = callback s.world in (r, record s { close_notified = true; world = w })
  ]

  finished : Bool → Outcome (Unit {0}) → Action (Incident W) (Unit {0})
  unfolding notify_close
  finished was_broken (returned _) s =
      notify_close
        (record s { cleanup_status = succeeded; state = if was_broken then broken else closed })
  finished was_broken (raised e) s = notify_close (record s {
    cleanup_status = failed;
    cleanup_failure = some (record {
      domain = cleanup;
      phase = codes "cleanup";
      message = e.message;
      error_type = some e.error_type;
    });
    state = broken;
  })

  -- _finish_backend
  unfoldable pub finish_backend : Bool → Action (Incident W) (Unit {0})
  unfolding finished
  finish_backend was_broken s =
      let (r, w) = setting.finish was_broken s.world in
      finished was_broken r (record s { world = w })

  prepared : Outcome Json → Action (Incident W) (Unit {0})
  unfolding finish_backend
  prepared (returned observation) s =
      (returned tt, record s { observation = some observation; state = active })
  prepared (raised e) s = finish_backend true (record s {
    failure = some (record {
      domain = infrastructure;
      phase = codes "prepare";
      message = e.message;
      error_type = some e.error_type;
    });
    state = broken;
  })

  unfoldable pub prepare : Action (Incident W) (Unit {0})
  unfolding prepared
  prepare s =
      let (r, w) = setting.prepare s.episode s.world in
      if is_created s.state
      then prepared r (record s { state = preparing; world = w })
      else (raised runtime_error, s)

  -- The first line of open_session, call_tool and evaluate.
  abbrev require_active : Action (Incident W) (Unit {0})
  require_active s = if is_active s.state then (returned tt, s) else (raised runtime_error, s)

  refresh_lease : ℕ → Action (Incident W) (Unit {0})
  refresh_lease min_seconds = on_world (setting.refresh min_seconds)

  -- open_session up to the construction of the session: the configuration that it gets.
  unfoldable pub open_session : Option SimulatorConfig → Action (Incident W) SimulatorConfig
  unfolding refresh_lease resolve
  open_session config = do
    require_active
    resolved ← resolve config setting.default_session_config
    refresh_lease resolved.max_agent_seconds
    pure resolved

  unfoldable pub call_tool : ToolAction → Action (Incident W) Json
  unfolding refresh_lease
  call_tool action = do
    require_active
    if setting.validate_tool_call action then pure tt else throw value_error
    refresh_lease 0
    result ← on_world (setting.call_tool action)
    refresh_lease 0
    pure result

  -- The ground truth of the incident's episode; that of a healthy one is the empty dict.
  unfoldable pub ground_truth : Episode → Outcome (Option Scorer.GroundTruth)
  ground_truth episode =
      if is_healthy episode
      then returned none
      else elim (build_episode_ground_truth setting.manifest episode) [
        | returned truth ↦ returned (some truth)
        | raised e ↦ raised e
      ]

  -- The accounting that a diagnosis is evaluated with.
  unfoldable pub agent_output : DiagnosisSubmission → List ToolCall → ℕ → Scorer.AgentOutput
  agent_output diagnosis tool_calls time_taken = record {
    verdict = diagnosis.verdict;
    fault_type = diagnosis.fault_type;
    location = some diagnosis.location;
    evidence = diagnosis.evidence;
    reasoning = diagnosis.reasoning;
    tool_calls = tool_calls;
    time_taken = time_taken;
    input_tokens = 0;
    output_tokens = 0;
  }

  score_with :
      Scorer.AgentOutput → Text → Outcome (Option Scorer.GroundTruth) → Outcome EvaluationResult
  score_with output case_id (returned truth) =
      Scorer.evaluate setting.caught setting.judge output truth case_id
  score_with output case_id (raised e) = raised e

  -- The evaluation itself, which reads the incident and changes nothing.
  unfoldable pub score_incident :
      DiagnosisSubmission → List ToolCall → ℕ → Incident W → Outcome EvaluationResult
  unfolding score_with
  score_incident diagnosis tool_calls time_taken s =
      score_with (agent_output diagnosis tool_calls time_taken) (s.case_id s.observation)
        (ground_truth s.episode)

  unfoldable pub evaluate :
      DiagnosisSubmission → List ToolCall → ℕ → Action (Incident W) EvaluationResult
  unfolding refresh_lease
  evaluate diagnosis tool_calls time_taken = do
    require_active
    refresh_lease 0
    λ s. (score_incident diagnosis tool_calls time_taken s, s)

  unfoldable pub close : Action (Incident W) CleanupStatus
  unfolding finish_backend
  close s =
      let begun : Incident W = if is_broken s.state then s else record s { state = closing } in
      if is_closed s.state
      then (returned s.cleanup_status, s)
      else if is_not_started s.cleanup_status
      then (do finish_backend (is_broken s.state); gets (λ t. t.cleanup_status)) begun
      else (returned s.cleanup_status, s)
