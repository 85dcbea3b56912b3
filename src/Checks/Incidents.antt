-- ===== src/Checks/Incidents.antt =====
-- Runs of an incident and of a session over it (netopsbench/platform/incident/engine.py), over a backend
-- whose world is the number of the calls of its `finish`.
use net_ops_bench.Prelude.{
  ℕ, ◌+◌, ◌≤◌, count_if, ◌≡◌, ◌||◌, refl, sym, ap, true, false, Option, none, some, List, [], ◌∷◌,
  Text, codes, leb, Outcome, returned, if◌then◌else◌,
}
use net_ops_bench.Payload.{Json, bool, string}
use net_ops_bench.FaultType.{deterministic}
use net_ops_bench.Scorer.{ToolCall, EvaluationResult, GroundTruth, positive_result}
use net_ops_bench.Incident.{
  SimulatorConfig, ToolAction, DiagnosisSubmission, Setting, Incident, FailureDomain, fresh,
  prepare, close, is_closed, is_broken, is_not_started, agent_output, agent, call_tool,
}
use net_ops_bench.Incident.Truth.{Episode}
use net_ops_bench.Incident.Lifecycle.{
  IsSettled, Reach, prepares, closes, here, next, Reach-IsSettled,
}
use net_ops_bench.Incident.Cleanup.{CountsFinish, Reach-finishes_once}
use net_ops_bench.Incident.Closing.{close-close}
use net_ops_bench.Incident.Session.{
  Diagnosing, SessionTransition, TerminationReason, terminal, agent_error, new_session,
  session_call_tool, submit, terminate_failure, limit_message, is_running,
}
use net_ops_bench.Incident.Session.Runs.{
  observes, rewards, evaluates, starts, continues, tools, submits,
}
use net_ops_bench.Incident.Session.Budget.{IsBudgeted, new_session-IsBudgeted}
use net_ops_bench.Incident.Session.Submission.{
  Reported, transitions-Reported, new_session-rewarded_once,
}
use net_ops_bench.Incident.Session.Exhausted.{exhausted-evaluates_nothing}

abbrev pub small : SimulatorConfig
small = record { max_tool_calls = 1; max_agent_seconds = 60; max_tool_result_bytes = 1000 }

abbrev pub counting : Setting ℕ
counting = record {
  prepare = λ episode w. (returned (bool true), w);
  call_tool = λ action w. (returned (string action.name), w);
  refresh = λ seconds w. (returned tt, w);
  finish = λ broken w. (returned tt, w + 1);
  manifest = none;
  validate_tool_call = λ action. true;
  caught = λ e. true;
  judge = none;
  on_close = some (λ w. (returned tt, w));
  default_session_config = some small;
}

abbrev world_after : ℕ → Option {0} (ℕ → Outcome Unit × ℕ) → ℕ
world_after w none = w
world_after w (some callback) = (callback w).1

counting-CountsFinish : CountsFinish counting (λ w. w)
counting-CountsFinish = record {
  finish = λ b w. refl;
  prepare = λ e w. refl;
  call_tool = λ a w. refl;
  refresh = λ n w. refl;
  on_close = λ f w e. sym (ap (world_after w) e);
}

abbrev down : Episode
down = record {
  fault_type = codes "device_down";
  target_device = some (codes "leaf1");
  target_interface = none;
}

abbrev pub labelled : Option Json → Text
labelled observation = codes "case"

abbrev pub begun : Incident ℕ
begun = fresh 0 down labelled

abbrev pub prepared : Incident ℕ
prepared = (prepare counting begun).1

abbrev ended : Incident ℕ
ended = (close counting (close counting prepared).1).1

abbrev lifetime : Reach counting begun ended
lifetime = next (next (next here prepares) closes) closes

Reach-finishes_once_example :
    ended.world ≡ 0 + (if is_not_started ended.cleanup_status then 0 else 1)
Reach-finishes_once_example =
    Reach-finishes_once counting (λ w. w) counting-CountsFinish 0 down labelled ended lifetime

Reach-IsSettled_example : IsSettled ended
Reach-IsSettled_example = Reach-IsSettled counting begun ended refl lifetime

pub prepared-IsSettled : IsSettled prepared
prepared-IsSettled = Reach-IsSettled counting begun prepared refl (next here prepares)

close-close_example :
    (is_closed (close counting prepared).1.state || is_broken (close counting prepared).1.state
      ≡ true)
    × (is_not_started (close counting prepared).1.cleanup_status ≡ false)
    × (close counting (close counting prepared).1
        ≡ (returned (close counting prepared).1.cleanup_status, (close counting prepared).1))
close-close_example = close-close counting prepared prepared-IsSettled

-- The session over the incident, begun at 5 s.
abbrev opened : Diagnosing ℕ
opened = record { incident = prepared; session = new_session small 5000000 }

abbrev ping : ToolAction
ping = record { name = codes "ping"; arguments = (codes "host", codes "client2") ∷ [] }

abbrev pinged : Diagnosing ℕ
pinged = (session_call_tool counting 6000000 ping opened).1

new_session-IsBudgeted_example :
    (count_if observes ((session_call_tool counting 6000000 ping opened).0 ∷ []) ≤ 1)
    × (pinged.session.tool_calls
        ≡ count_if observes ((session_call_tool counting 6000000 ping opened).0 ∷ []))
    × IsBudgeted 1 pinged.session
new_session-IsBudgeted_example =
    new_session-IsBudgeted counting small 5000000 prepared
      ((session_call_tool counting 6000000 ping opened).0 ∷ []) pinged
      (continues starts (tools 6000000 ping))

transitions-Reported_example :
    ((action : ToolAction)
      → Reported opened.session (session_call_tool counting 6000000 action opened))
    × ((diagnosis : DiagnosisSubmission) (made : Option (List ToolCall)) (time : Option ℕ)
        → Reported opened.session (submit counting 6000000 diagnosis made time opened))
    × ((domain : FailureDomain) (message : Text) (reason : TerminationReason)
        → Reported opened.session (terminate_failure counting 6000000 domain message reason opened))
transitions-Reported_example = transitions-Reported counting 6000000 opened

pinged-spent : leb pinged.session.config.max_tool_calls pinged.session.tool_calls ≡ true
unfolding session_call_tool new_session prepare limit_message call_tool
pinged-spent = refl

abbrev pub answer : DiagnosisSubmission
answer = record {
  verdict = codes "fault_detected";
  fault_type = some (codes "device_down");
  location = record { device = some (codes "leaf1"); interface = none };
  evidence = [];
  reasoning = [];
}

abbrev truth : GroundTruth
truth = record {
  location = record { device = some (codes "leaf1"); interface = none };
  equivalent_locations = [];
  fault_type = codes "device_down";
}

abbrev pub evaluation : EvaluationResult
evaluation =
    positive_result (agent_output counting answer [] 1000000) truth (codes "case")
      (true, deterministic true)

abbrev submitted_end : Diagnosing ℕ
submitted_end = (submit counting 7000000 answer none none pinged).1

abbrev pinged_then_submitted : List (Outcome SessionTransition)
pinged_then_submitted = (submit counting 7000000 answer none none pinged).0 ∷ []

exhausted-evaluates_nothing_example :
    (count_if observes pinged_then_submitted ≡ 0)
    × (count_if evaluates pinged_then_submitted ≡ 0)
    × (submitted_end.incident ≡ pinged.incident)
    × (submitted_end.session.evaluation_result ≡ pinged.session.evaluation_result)
exhausted-evaluates_nothing_example =
    exhausted-evaluates_nothing counting pinged submitted_end pinged_then_submitted pinged-spent
      (continues starts (submits 7000000 answer none none))

new_session-rewarded_once_example :
    count_if rewards ((submit counting 6000000 answer none none opened).0 ∷ []) ≡ (
      if is_running (submit counting 6000000 answer none none opened).1.session.state then 0 else 1)
new_session-rewarded_once_example =
    new_session-rewarded_once counting small 5000000 prepared
      ((submit counting 6000000 answer none none opened).0 ∷ [])
      (submit counting 6000000 answer none none opened).1
      (continues starts (submits 6000000 answer none none))

abbrev over : Diagnosing ℕ
over = (terminate_failure counting 6000000 agent (codes "crashed") agent_error opened).1

over-terminal : over.session.state ≡ terminal
unfolding terminate_failure new_session prepare
over-terminal = refl
