-- ===== src/Incident/Session/Budget.antt =====
-- The budget of a diagnostic session: DiagnosticSession of netopsbench/platform/incident/engine.py.
use net_ops_bench.Prelude.{
  ℕ, suc, ◌+◌, if◌then◌else◌, count_if, ◌≡◌, ◌≤◌, refl, sym, subst, Option, none, some, List, [],
  ◌∷◌, Text, length, arith, Outcome, returned, raised, Action, Bool-cases, inl, inr, length-append,
}
use net_ops_bench.Payload.{Json}
use net_ops_bench.Scorer.{ToolCall, EvaluationResult}
use net_ops_bench.Incident.{
  FailureDomain, SimulatorConfig, ToolAction, DiagnosisSubmission, Setting, Incident, is_active,
  call_tool, evaluate,
}
use net_ops_bench.Incident.Session.{
  TerminationReason, Session, SessionTransition, Diagnosing, is_running, new_session, limit_message,
  within_limits, limited, count_call, attempt_call, observed, tool_transition, failed_transition,
  refused, scored, session_call_tool, submit, terminate_failure, elapsed_at, end_session,
  require_active, accounted, time_or, started_call, started_submission, terminated,
}
use net_ops_bench.Incident.Session.Runs.{
  observes, SessionStep, tools, submits, terminates, SessionReach, starts, continues,
}

-- The number of calls is that of the calls recorded, and within the budget that the session is
-- configured with.
abbrev pub IsBudgeted : ℕ → Session → Type 0
IsBudgeted budget session =
    (session.config.max_tool_calls ≡ budget)
    × (session.tool_calls ≡ length session.tool_call_records)
    × (session.tool_calls ≤ budget)

limit_message-room :
    (session : Session) (elapsed : ℕ)
    → limit_message session elapsed ≡ none
    → suc session.tool_calls ≤ session.config.max_tool_calls
unfolding limit_message
limit_message-room session elapsed h = ground arith

-- A method counts a tool call exactly when the agent gets an observation.
abbrev Counts : {W : Type 0} → Diagnosing W → Outcome SessionTransition × Diagnosing W → Type 0
Counts d (out, e) = e.session.tool_calls ≡ d.session.tool_calls + (if observes out then 1 else 0)

module _ {W : Type 0} (setting : Setting W) where
  active-Counts :
      (rest : Action (Diagnosing W) SessionTransition) (d : Diagnosing W)
      → Counts d (rest d)
      → Counts d (require_active setting rest d)
  active-Counts rest d ok = elim (Bool-cases (is_running d.session.state)) [
    | inr over ↦ rw over (omega arith)
    | inl running ↦ elim (Bool-cases (is_active d.incident.state)) [
      | inl active_ ↦ rw (running, active_) ok
      | inr inactive ↦ rw (running, inactive) (omega arith)
    ]
  ]

  limited-Counts :
      (elapsed : ℕ) (rest : Action (Diagnosing W) SessionTransition) (d : Diagnosing W)
      (m : Option Text)
      → Counts d (rest d)
      → Counts d (limited setting elapsed rest d m)
  unfolding limited end_session failed_transition
  limited-Counts elapsed rest d (some message) ok = omega arith
  limited-Counts elapsed rest d none ok = ok

  observed-Counts :
      (elapsed : ℕ) (action : ToolAction) (d : Diagnosing W) (session : Session)
      (o : Outcome Json × Incident W)
      → session.tool_calls ≡ d.session.tool_calls + 1
      → Counts d (observed setting elapsed action session o)
  unfolding observed tool_transition
  observed-Counts elapsed action d session (returned result, incident) h = h
  observed-Counts elapsed action d session (raised e, incident) h = h

  call-Counts :
      (elapsed : ℕ) (action : ToolAction) (d : Diagnosing W)
      → Counts d (attempt_call setting elapsed action (count_call setting action d))
  unfolding attempt_call refused tool_transition count_call
  call-Counts elapsed action d = elim (Bool-cases (setting.validate_tool_call action)) [
    | inl valid ↦ rw valid (
        observed-Counts elapsed action d (count_call setting action d).session
          (call_tool setting action d.incident) refl)
    | inr invalid ↦ rw invalid refl
  ]

  scored-Counts :
      (elapsed : ℕ) (made : List ToolCall) (d : Diagnosing W)
      (o : Outcome EvaluationResult × Incident W)
      → Counts d (scored setting elapsed made d.session o)
  unfolding scored
  scored-Counts elapsed made d (returned evaluation, incident) = omega arith
  scored-Counts elapsed made d (raised e, incident) = omega arith

  SessionStep-Counts :
      {d e : Diagnosing W} {out : Outcome SessionTransition}
      → SessionStep setting d out e
      → Counts d (out, e)
  unfolding session_call_tool submit terminate_failure started_call started_submission within_limits
      terminated end_session failed_transition
  SessionStep-Counts {d} (tools now action) = active-Counts (started_call setting now action) d (
      limited-Counts (elapsed_at d.session now)
        (λ e. attempt_call setting (elapsed_at d.session now) action (count_call setting action e))
        d (limit_message d.session (elapsed_at d.session now))
        (call-Counts (elapsed_at d.session now) action d))
  SessionStep-Counts {d} (submits now diagnosis made time) =
      let elapsed = elapsed_at d.session now in
      let calls = accounted setting made d.session in
      active-Counts (started_submission setting now diagnosis made time) d (
        limited-Counts elapsed
          (λ e.
            scored setting elapsed calls e.session
              (evaluate setting diagnosis calls (time_or setting time elapsed) e.incident))
          d (limit_message d.session elapsed)
          (scored-Counts elapsed calls d
            (evaluate setting diagnosis calls (time_or setting time elapsed) d.incident)))
  SessionStep-Counts {d} (terminates now domain message reason) =
      active-Counts (terminated setting now domain message reason) d (omega arith)

  SessionReach-Counts :
      {d e : Diagnosing W} {told : List (Outcome SessionTransition)}
      → SessionReach setting d told e
      → e.session.tool_calls ≡ d.session.tool_calls + count_if observes told
  SessionReach-Counts starts = omega arith
  SessionReach-Counts (continues r st) =
      ground (arith, SessionReach-Counts r, SessionStep-Counts st)

module _ {W : Type 0} (setting : Setting W) (budget : ℕ) where
  count_call-IsBudgeted :
      (action : ToolAction) (d : Diagnosing W)
      → suc d.session.tool_calls ≤ d.session.config.max_tool_calls
      → IsBudgeted budget d.session
      → IsBudgeted budget (count_call setting action d).session
  unfolding count_call
  count_call-IsBudgeted action d room (limit, same, within) = (
    limit,
    omega (
      arith,
      same,
      length-append d.session.tool_call_records
          (record { tool = action.name; args = action.arguments } ∷ []),
    ),
    omega (arith, room),
  )

  observed-session :
      (elapsed : ℕ) (action : ToolAction) (session : Session) (o : Outcome Json × Incident W)
      → (observed setting elapsed action session o).1.session ≡ session
  unfolding observed
  observed-session elapsed action session (returned result, incident) = refl
  observed-session elapsed action session (raised e, incident) = refl

  attempt_call-session :
      (elapsed : ℕ) (action : ToolAction) (d : Diagnosing W)
      → (attempt_call setting elapsed action d).1.session ≡ d.session
  unfolding attempt_call refused
  attempt_call-session elapsed action d = elim (Bool-cases (setting.validate_tool_call action)) [
    | inl valid ↦
        rw valid (observed-session elapsed action d.session (call_tool setting action d.incident))
    | inr invalid ↦ rw invalid refl
  ]

  scored-IsBudgeted :
      (elapsed : ℕ) (made : List ToolCall) (session : Session)
      (o : Outcome EvaluationResult × Incident W)
      → IsBudgeted budget session
      → IsBudgeted budget (scored setting elapsed made session o).1.session
  unfolding scored
  scored-IsBudgeted elapsed made session (returned evaluation, incident) h = h
  scored-IsBudgeted elapsed made session (raised e, incident) h = h

  limited-IsBudgeted :
      (elapsed : ℕ) (rest : Action (Diagnosing W) SessionTransition) (d : Diagnosing W)
      (m : Option Text)
      → IsBudgeted budget d.session
      → (m ≡ none → IsBudgeted budget (rest d).1.session)
      → IsBudgeted budget (limited setting elapsed rest d m).1.session
  unfolding limited end_session
  limited-IsBudgeted elapsed rest d (some message) h ok = h
  limited-IsBudgeted elapsed rest d none h ok = ok refl

  active-IsBudgeted :
      (rest : Action (Diagnosing W) SessionTransition) (d : Diagnosing W)
      → IsBudgeted budget d.session
      → IsBudgeted budget (rest d).1.session
      → IsBudgeted budget (require_active setting rest d).1.session
  active-IsBudgeted rest d h ok = elim (Bool-cases (is_running d.session.state)) [
    | inr over ↦ rw over h
    | inl running ↦ elim (Bool-cases (is_active d.incident.state)) [
      | inl active_ ↦ rw (running, active_) ok
      | inr inactive ↦ rw (running, inactive) h
    ]
  ]

  started_call-IsBudgeted :
      (now : ℕ) (action : ToolAction) (d : Diagnosing W)
      → IsBudgeted budget d.session
      → IsBudgeted budget (started_call setting now action d).1.session
  unfolding started_call within_limits
  started_call-IsBudgeted now action d h =
      let elapsed = elapsed_at d.session now in
      limited-IsBudgeted elapsed
        (λ e. attempt_call setting elapsed action (count_call setting action e)) d
        (limit_message d.session elapsed) h
        λ within.
          subst (IsBudgeted budget)
            (sym (attempt_call-session elapsed action (count_call setting action d)))
            (count_call-IsBudgeted action d (limit_message-room d.session elapsed within) h)

  session_call_tool-IsBudgeted :
      (now : ℕ) (action : ToolAction) (d : Diagnosing W)
      → IsBudgeted budget d.session
      → IsBudgeted budget (session_call_tool setting now action d).1.session
  unfolding session_call_tool
  session_call_tool-IsBudgeted now action d h =
      active-IsBudgeted (started_call setting now action) d h
        (started_call-IsBudgeted now action d h)

  submit-IsBudgeted :
      (now : ℕ) (diagnosis : DiagnosisSubmission) (made : Option (List ToolCall)) (time : Option ℕ)
      → (d : Diagnosing W) → IsBudgeted budget d.session
      → IsBudgeted budget (submit setting now diagnosis made time d).1.session
  unfolding submit started_submission within_limits
  submit-IsBudgeted now diagnosis made time d h =
      let elapsed = elapsed_at d.session now in
      let calls = accounted setting made d.session in
      let outcome = evaluate setting diagnosis calls (time_or setting time elapsed) d.incident in
      active-IsBudgeted (started_submission setting now diagnosis made time) d h (
        limited-IsBudgeted elapsed
          (λ e.
            scored setting elapsed calls e.session
              (evaluate setting diagnosis calls (time_or setting time elapsed) e.incident))
          d (limit_message d.session elapsed) h
          λ _. scored-IsBudgeted elapsed calls d.session outcome h)

  terminate_failure-IsBudgeted :
      (now : ℕ) (domain : FailureDomain) (message : Text) (reason : TerminationReason)
      (d : Diagnosing W)
      → IsBudgeted budget d.session
      → IsBudgeted budget (terminate_failure setting now domain message reason d).1.session
  unfolding terminate_failure terminated end_session
  terminate_failure-IsBudgeted now domain message reason d h =
      active-IsBudgeted (terminated setting now domain message reason) d h h

  SessionStep-IsBudgeted :
      {d e : Diagnosing W} {out : Outcome SessionTransition}
      → SessionStep setting d out e
      → IsBudgeted budget d.session
      → IsBudgeted budget e.session
  SessionStep-IsBudgeted {d} (tools now action) h = session_call_tool-IsBudgeted now action d h
  SessionStep-IsBudgeted {d} (submits now diagnosis made time) h =
      submit-IsBudgeted now diagnosis made time d h
  SessionStep-IsBudgeted {d} (terminates now domain message reason) h =
      terminate_failure-IsBudgeted now domain message reason d h

  SessionReach-IsBudgeted :
      {d e : Diagnosing W} {told : List (Outcome SessionTransition)}
      → SessionReach setting d told e
      → IsBudgeted budget d.session
      → IsBudgeted budget e.session
  SessionReach-IsBudgeted starts h = h
  SessionReach-IsBudgeted (continues r st) h =
      SessionStep-IsBudgeted st (SessionReach-IsBudgeted r h)

-- In any sequence of method calls at any clock readings on a session that begins new, the agent gets
-- observations of at most as many tool calls, valid or not, as the configured limit; their number is
-- what the session counts, which also records one call for each, and the session keeps its limit.
pub new_session-IsBudgeted :
    {W : Type 0} (setting : Setting W) (config : SimulatorConfig) (now : ℕ) (incident : Incident W)
    → (told : List (Outcome SessionTransition)) (e : Diagnosing W)
    → SessionReach setting (record { incident = incident; session = new_session config now }) told e
    → (count_if observes told ≤ config.max_tool_calls)
      × (e.session.tool_calls ≡ count_if observes told)
      × IsBudgeted config.max_tool_calls e.session
unfolding new_session
new_session-IsBudgeted setting config now incident told e r =
    let counted : e.session.tool_calls ≡ count_if observes told =
      omega (arith, SessionReach-Counts setting r) in
    let kept = SessionReach-IsBudgeted setting config.max_tool_calls r (refl, refl, ground arith) in
    (omega (arith, counted, kept.2), counted, kept)
