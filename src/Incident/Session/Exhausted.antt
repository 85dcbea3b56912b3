-- ===== src/Incident/Session/Exhausted.antt =====
-- A diagnostic session whose tool calls are used up: DiagnosticSession of
-- netopsbench/platform/incident/engine.py.
use net_ops_bench.Prelude.{
  ℕ, ◌*◌, ◌≡◌, refl, ◌∙◌, Bool, true, false, not, ◌||◌, List, leb, ltb, count_if, arith, Outcome,
  Action, Bool-cases, inl, inr,
}
use net_ops_bench.Incident.{Setting, is_active, evaluate}
use net_ops_bench.Incident.Session.{
  Session, SessionTransition, Diagnosing, is_running, limit_message, within_limits, limited,
  failed_transition, session_call_tool, submit, terminate_failure, elapsed_at, attempt_call,
  count_call, scored, accounted, time_or, end_session, require_active, started_call,
  started_submission, terminated,
}
use net_ops_bench.Incident.Session.Runs.{
  observes, evaluates, SessionStep, tools, submits, terminates, SessionReach, starts, continues,
}

-- No tool call is left, or the session is over.
abbrev pub is_exhausted : Session → Bool
is_exhausted session =
    not (is_running session.state) || leb session.config.max_tool_calls session.tool_calls

-- Nothing is observed or evaluated, the incident stays as it is, and no call is left.
Idle : {W : Type 0} → Diagnosing W → Outcome SessionTransition × Diagnosing W → Type 0
Idle d (out, e) =
    (observes out ≡ false)
    × (evaluates out ≡ false)
    × (e.incident ≡ d.incident)
    × (e.session.evaluation_result ≡ d.session.evaluation_result)
    × (is_exhausted e.session ≡ true)

module _ {W : Type 0} (setting : Setting W) where
  limited-Idle :
      (elapsed : ℕ) (rest : Action (Diagnosing W) SessionTransition) (d : Diagnosing W)
      → leb d.session.config.max_tool_calls d.session.tool_calls ≡ true
      → Idle d (within_limits setting elapsed rest d)
  unfolding within_limits limited end_session failed_transition limit_message Idle
  limited-Idle elapsed rest d spent =
      elim (Bool-cases (ltb (d.session.config.max_agent_seconds * 1000000) elapsed)) [
        | inl late ↦ rw late (refl, refl, refl, refl, refl)
        | inr in_time ↦ rw (in_time, spent) (refl, refl, refl, refl, refl)
      ]

  active-Idle :
      (rest : Action (Diagnosing W) SessionTransition) (d : Diagnosing W)
      → is_exhausted d.session ≡ true
      → (leb d.session.config.max_tool_calls d.session.tool_calls ≡ true → Idle d (rest d))
      → Idle d (require_active setting rest d)
  unfolding Idle
  active-Idle rest d h ok = elim (Bool-cases (is_running d.session.state)) [
    | inr over ↦ rw over (refl, refl, refl, refl, h)
    | inl running ↦
        let spent : leb d.session.config.max_tool_calls d.session.tool_calls ≡ true =
          ground (arith, h, running) in
        elim (Bool-cases (is_active d.incident.state)) [
          | inl active_ ↦ rw (running, active_) (ok spent)
          | inr inactive ↦ rw (running, inactive) (refl, refl, refl, refl, h)
        ]
  ]

  SessionStep-Idle :
      {d e : Diagnosing W} {out : Outcome SessionTransition}
      → SessionStep setting d out e
      → is_exhausted d.session ≡ true
      → Idle d (out, e)
  unfolding session_call_tool submit terminate_failure started_call started_submission terminated
      end_session failed_transition Idle
  SessionStep-Idle {d} (tools now action) h = active-Idle (started_call setting now action) d h (
      limited-Idle (elapsed_at d.session now)
        (λ e. attempt_call setting (elapsed_at d.session now) action (count_call setting action e))
        d)
  SessionStep-Idle {d} (submits now diagnosis made time) h =
      active-Idle (started_submission setting now diagnosis made time) d h (
        limited-Idle (elapsed_at d.session now)
          (λ e.
            scored setting (elapsed_at d.session now) (accounted setting made d.session) e.session (
              evaluate setting diagnosis (accounted setting made d.session)
                (time_or setting time (elapsed_at d.session now)) e.incident))
          d)
  SessionStep-Idle {d} (terminates now domain message reason) h =
      active-Idle (terminated setting now domain message reason) d h
        (λ _. (refl, refl, refl, refl, refl))

  SessionReach-Idle :
      {d e : Diagnosing W} {told : List (Outcome SessionTransition)}
      → is_exhausted d.session ≡ true
      → SessionReach setting d told e
      → (count_if observes told ≡ 0)
        × (count_if evaluates told ≡ 0)
        × (e.incident ≡ d.incident)
        × (e.session.evaluation_result ≡ d.session.evaluation_result)
        × (is_exhausted e.session ≡ true)
  unfolding Idle
  SessionReach-Idle h starts = (refl, refl, refl, refl, h)
  SessionReach-Idle h (continues r st) =
      let before = SessionReach-Idle h r in
      let now = SessionStep-Idle st before.4 in
      (
        ground (arith, before.0, now.0),
        ground (arith, before.1, now.1),
        now.2 ∙ before.2,
        now.3 ∙ before.3,
        now.4,
      )

  -- Once the tool calls of a session are used up, whatever methods are called in any order and at any
  -- clock readings, no tool call is made, no diagnosis is evaluated, one that follows the last allowed call
  -- included, and the incident, its backend and the session's evaluation stay as they are.
  pub exhausted-evaluates_nothing :
      (d e : Diagnosing W) (told : List (Outcome SessionTransition))
      → leb d.session.config.max_tool_calls d.session.tool_calls ≡ true
      → SessionReach setting d told e
      → (count_if observes told ≡ 0)
        × (count_if evaluates told ≡ 0)
        × (e.incident ≡ d.incident)
        × (e.session.evaluation_result ≡ d.session.evaluation_result)
  exhausted-evaluates_nothing d e told spent r =
      let idle = SessionReach-Idle (ground (arith, spent)) r in (idle.0, idle.1, idle.2, idle.3)
