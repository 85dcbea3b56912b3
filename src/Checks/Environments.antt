-- ===== src/Checks/Environments.antt =====
-- Runs of an environment to its end (netopsbench/platform/simulator/environment.py).
use net_ops_bench.Interface.{replace}
use net_ops_bench.FaultType.{
  judge_fault_type_match, judge_request, build_judge_request, canonicalize_fault_type,
  canonicalize_fault_name, builtin_alias_index, builtin_faults, canonical_fault_aliases,
  legacy_fault_type_aliases,
}
use net_ops_bench.Scorer.{evaluate as score_output}
use net_ops_bench.Incident.Truth.{is_healthy, build_episode_ground_truth, is_symmetric}
use net_ops_bench.Prelude.{
  ℕ, ◌≡◌, ◌||◌, refl, true, false, none, some, codes, Outcome, returned, strip, is_space, lookup,
  put, text_eq, lower_code,
}
use net_ops_bench.Incident.{
  is_closed, is_broken, is_not_started, succeeded, ExecutionFailure, protocol, score_incident,
  prepare, ground_truth, agent_output, evaluate, close,
}
use net_ops_bench.Incident.Session.{
  terminal, submitted, protocol_error, new_session, submit, limit_message, terminate_failure,
}
use net_ops_bench.Environment.{
  Environment, StepResult, diagnose, step, terminate_protocol, step_with, last_step, closed_step,
  with_result, notify_environment, put_back, put_incident,
}
use net_ops_bench.Environment.Ending.{step-closes}
use net_ops_bench.Checks.Incidents.{
  small, counting, prepared, answer, evaluation, prepared-IsSettled,
}

abbrev create : ℕ → Outcome (Unit {0}) × ℕ
create w = (returned tt, w)

abbrev started : Environment ℕ
started = record {
  incident = prepared;
  was_reset = true;
  session = some (new_session small 5000000);
  config = small;
  close_notified = false;
}

abbrev diagnosed_result : StepResult
diagnosed_result = record {
  transition = record {
    state = terminal;
    observation = none;
    reward = some evaluation.score;
    tool_calls = 0;
    elapsed = 1000000;
    evaluated = some evaluation;
    termination_reason = some submitted;
    failure = none;
    error = none;
  };
  cleanup_failure = none;
  cleanup_status = succeeded;
}

abbrev diagnosed_end : Environment ℕ
diagnosed_end = (step counting create none 6000000 (diagnose answer) started).1

started-diagnosed :
    step counting create none 6000000 (diagnose answer) started
    ≡ (returned diagnosed_result, diagnosed_end)
unfolding step score_incident prepare ground_truth agent_output new_session evaluate close submit
    limit_message step_with last_step closed_step with_result notify_environment put_back
    put_incident is_healthy build_episode_ground_truth is_symmetric score_output
    judge_fault_type_match judge_request build_judge_request canonicalize_fault_type
    canonicalize_fault_name builtin_alias_index builtin_faults canonical_fault_aliases
    legacy_fault_type_aliases strip is_space lookup put text_eq lower_code replace
started-diagnosed = refl

step-closes_example :
    (is_closed diagnosed_end.incident.state || is_broken diagnosed_end.incident.state ≡ true)
    × (diagnosed_result.cleanup_status ≡ diagnosed_end.incident.cleanup_status)
    × (is_not_started diagnosed_result.cleanup_status ≡ false)
step-closes_example =
    step-closes counting create none 6000000 answer started diagnosed_end diagnosed_result
      prepared-IsSettled started-diagnosed

abbrev protocol_failure : ExecutionFailure
protocol_failure = record {
  domain = protocol;
  phase = codes "diagnosis";
  message = codes "no JSON";
  error_type = none;
}

abbrev protocol_result : StepResult
protocol_result = record {
  transition = record {
    state = terminal;
    observation = none;
    reward = some 0;
    tool_calls = 0;
    elapsed = 1000000;
    evaluated = none;
    termination_reason = some protocol_error;
    failure = some protocol_failure;
    error = some (codes "no JSON");
  };
  cleanup_failure = none;
  cleanup_status = succeeded;
}

abbrev protocol_end : Environment ℕ
protocol_end = (terminate_protocol counting create none 6000000 (codes "no JSON") started).1

started-terminated :
    terminate_protocol counting create none 6000000 (codes "no JSON") started
    ≡ (returned protocol_result, protocol_end)
unfolding terminate_protocol terminate_failure new_session prepare close
started-terminated = refl
