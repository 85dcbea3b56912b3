-- ===== src/Incident/Session/Submission.antt =====
-- The ends and the reward of a diagnostic session: DiagnosticSession of netopsbench/platform/incident/engine.py.
use net_ops_bench.Prelude.{
  ℕ, ◌+◌, if◌then◌else◌, count_if, ◌≡◌, refl, sym, ap, subst, ◌∙◌, Bool, true, false, not, Option,
  none, some, List, Text, arith, Outcome, returned, raised, Action, is_some, Bool-cases, inl, inr,
}
use net_ops_bench.Payload.{Json}
use net_ops_bench.Scorer.{ToolCall, EvaluationResult}
use net_ops_bench.Incident.{
  SimulatorConfig, FailureDomain, ToolAction, DiagnosisSubmission, Setting, Incident, is_active,
  call_tool, evaluate, runtime_error,
}
use net_ops_bench.Incident.Session.{
  terminal, TerminationReason, Session, SessionTransition, Diagnosing, is_running, limit_message,
  within_limits, limited, count_call, attempt_call, observed, refused, tool_transition,
  failed_transition, scored, new_session, session_call_tool, submit, terminate_failure, elapsed_at,
  end_session, require_active, accounted, time_or, started_call, started_submission, terminated,
}
use net_ops_bench.Incident.Session.Runs.{
  rewards, SessionStep, tools, submits, terminates, SessionReach, starts, continues,
}

-- What a caller learns: the state of the transition is that of the session, and a reward and a reason of
-- termination are given exactly when the session is over. When a method raises, the session is as before.
abbrev pub Reported : {W : Type 0} → Session → Outcome SessionTransition × Diagnosing W → Type 0
Reported before (returned t, d) =
    (t.state ≡ d.session.state)
    × (is_some t.reward ≡ not (is_running t.state))
    × (is_some t.termination_reason ≡ not (is_running t.state))
Reported before (raised e, d) = d.session ≡ before

module _ {W : Type 0} (setting : Setting W) where
  active-Reported :
      (rest : Action (Diagnosing W) SessionTransition) (d : Diagnosing W)
      → (is_running d.session.state ≡ true → Reported d.session (rest d))
      → Reported d.session (require_active setting rest d)
  active-Reported rest d ok = elim (Bool-cases (is_running d.session.state)) [
    | inr over ↦ rw over refl
    | inl running ↦ elim (Bool-cases (is_active d.incident.state)) [
      | inl active_ ↦ rw (running, active_) (ok running)
      | inr inactive ↦ rw (running, inactive) refl
    ]
  ]

  limited-Reported :
      (elapsed : ℕ) (rest : Action (Diagnosing W) SessionTransition) (d : Diagnosing W)
      (m : Option Text)
      → Reported d.session (rest d)
      → Reported d.session (limited setting elapsed rest d m)
  unfolding limited end_session failed_transition
  limited-Reported elapsed rest d (some message) ok = (refl, refl, refl)
  limited-Reported elapsed rest d none ok = ok

  observed-Reported :
      (elapsed : ℕ) (action : ToolAction) (before session : Session) (o : Outcome Json × Incident W)
      → is_running session.state ≡ true
      → Reported before (observed setting elapsed action session o)
  unfolding observed tool_transition
  observed-Reported elapsed action before session (returned r, i) h =
      (refl, ap not (sym h), ap not (sym h))
  observed-Reported elapsed action before session (raised e, i) h =
      (refl, ap not (sym h), ap not (sym h))

  attempt_call-Reported :
      (elapsed : ℕ) (action : ToolAction) (before : Session) (d : Diagnosing W)
      → is_running d.session.state ≡ true
      → Reported before (attempt_call setting elapsed action d)
  unfolding attempt_call refused tool_transition
  attempt_call-Reported elapsed action before d h =
      elim (Bool-cases (setting.validate_tool_call action)) [
        | inl valid ↦ rw valid (
            observed-Reported elapsed action before d.session (call_tool setting action d.incident)
              h)
        | inr invalid ↦ rw invalid (refl, ap not (sym h), ap not (sym h))
      ]

  scored-Reported :
      (elapsed : ℕ) (made : List ToolCall) (session : Session)
      (o : Outcome EvaluationResult × Incident W)
      → Reported session (scored setting elapsed made session o)
  unfolding scored
  scored-Reported elapsed made session (returned evaluation, i) = (refl, refl, refl)
  scored-Reported elapsed made session (raised e, i) = refl

  started_call-Reported :
      (now : ℕ) (action : ToolAction) (d : Diagnosing W)
      → is_running d.session.state ≡ true
      → Reported d.session (started_call setting now action d)
  unfolding started_call within_limits count_call
  started_call-Reported now action d h =
      let elapsed = elapsed_at d.session now in
      limited-Reported elapsed
        (λ e. attempt_call setting elapsed action (count_call setting action e)) d
        (limit_message d.session elapsed)
        (attempt_call-Reported elapsed action d.session (count_call setting action d) h)

  started_submission-Reported :
      (now : ℕ) (diagnosis : DiagnosisSubmission) (made : Option (List ToolCall)) (time : Option ℕ)
      → (d : Diagnosing W)
      → Reported d.session (started_submission setting now diagnosis made time d)
  unfolding started_submission within_limits
  started_submission-Reported now diagnosis made time d =
      let elapsed = elapsed_at d.session now in
      let calls = accounted setting made d.session in
      limited-Reported elapsed
        (λ e.
          scored setting elapsed calls e.session
            (evaluate setting diagnosis calls (time_or setting time elapsed) e.incident))
        d (limit_message d.session elapsed)
        (scored-Reported elapsed calls d.session
          (evaluate setting diagnosis calls (time_or setting time elapsed) d.incident))

  -- Each method of a session, at any clock reading and in any state, reports the state that the session
  -- then has, with a reward and a reason of termination exactly when the session is over; when the
  -- method raises, the session is what it was.
  pub transitions-Reported :
      (now : ℕ) (d : Diagnosing W)
      → ((action : ToolAction) → Reported d.session (session_call_tool setting now action d))
        × ((diagnosis : DiagnosisSubmission) (made : Option (List ToolCall)) (time : Option ℕ)
            → Reported d.session (submit setting now diagnosis made time d))
        × ((domain : FailureDomain) (message : Text) (reason : TerminationReason)
            → Reported d.session (terminate_failure setting now domain message reason d))
  unfolding session_call_tool submit terminate_failure terminated end_session failed_transition
  transitions-Reported now d = (
    λ action.
        active-Reported (started_call setting now action) d (started_call-Reported now action d),
    λ diagnosis made time.
        active-Reported (started_submission setting now diagnosis made time) d
          (λ _. started_submission-Reported now diagnosis made time d),
    λ domain message reason.
        active-Reported (terminated setting now domain message reason) d (λ _. (refl, refl, refl)),
  )

  -- When a session is over, each of its methods raises and changes nothing.
  pub ended-refuses :
      (now : ℕ) (d : Diagnosing W)
      → d.session.state ≡ terminal
      → ((action : ToolAction) → session_call_tool setting now action d ≡ (raised runtime_error, d))
        × ((diagnosis : DiagnosisSubmission) (made : Option (List ToolCall)) (time : Option ℕ)
            → submit setting now diagnosis made time d ≡ (raised runtime_error, d))
        × ((domain : FailureDomain) (message : Text) (reason : TerminationReason)
            → terminate_failure setting now domain message reason d ≡ (raised runtime_error, d))
  unfolding session_call_tool submit terminate_failure
  ended-refuses now d over =
      let stopped = ap is_running over in
      (
        λ action. rw stopped refl,
        λ diagnosis made time. rw stopped refl,
        λ domain message reason. rw stopped refl,
      )

  -- What a method does to the reward of a session: a running one is rewarded when it ends, and one that is
  -- over is not rewarded again.
  Settles : Diagnosing W → Outcome SessionTransition × Diagnosing W → Type 0
  Settles d (out, e) =
      (if rewards out then 1 else 0) + (if is_running e.session.state then 1 else 0)
      ≡ (if is_running d.session.state then 1 else 0)

  Reported-Settles :
      (d : Diagnosing W) (o : Outcome SessionTransition × Diagnosing W)
      → is_running d.session.state ≡ true
      → Reported d.session o
      → Settles d o
  unfolding Settles
  Reported-Settles d (raised x, e) h same = rw same (rw h refl)
  Reported-Settles d (returned t, e) h (state, reward, reason) = rw h (
      balanced (is_some t.reward) (is_running e.session.state)
        (reward ∙ ap (λ s. not (is_running s)) state))
    where
      balanced : (a b : Bool) → a ≡ not b → (if a then 1 else 0) + (if b then 1 else 0) ≡ 1
      balanced a true h = rw h refl
      balanced a false h = rw h refl

  over-refuses :
      (rest : Action (Diagnosing W) SessionTransition) (d : Diagnosing W)
      → is_running d.session.state ≡ false
      → require_active setting rest d ≡ (raised runtime_error, d)
  over-refuses rest d over = rw over refl

  method-Settles :
      (d : Diagnosing W) (o : Outcome SessionTransition × Diagnosing W)
      → Reported d.session o
      → (is_running d.session.state ≡ false → o ≡ (raised runtime_error, d))
      → Settles d o
  method-Settles d o reported refuses = elim (Bool-cases (is_running d.session.state)) [
    | inl running ↦ Reported-Settles d o running reported
    | inr over ↦ subst (Settles d) (sym (refuses over)) (unfold Settles in omega arith)
  ]

  SessionStep-Settles :
      {d e : Diagnosing W} {out : Outcome SessionTransition}
      → SessionStep setting d out e
      → Settles d (out, e)
  unfolding session_call_tool submit terminate_failure
  SessionStep-Settles {d} (tools now action) =
      method-Settles d (session_call_tool setting now action d)
        ((transitions-Reported now d).0 action) (over-refuses (started_call setting now action) d)
  SessionStep-Settles {d} (submits now diagnosis made time) =
      method-Settles d (submit setting now diagnosis made time d)
        ((transitions-Reported now d).1 diagnosis made time)
        (over-refuses (started_submission setting now diagnosis made time) d)
  SessionStep-Settles {d} (terminates now domain message reason) =
      method-Settles d (terminate_failure setting now domain message reason d)
        ((transitions-Reported now d).2 domain message reason)
        (over-refuses (terminated setting now domain message reason) d)

  SessionReach-Settles :
      {d e : Diagnosing W} {told : List (Outcome SessionTransition)}
      → SessionReach setting d told e
      → count_if rewards told + (if is_running e.session.state then 1 else 0)
        ≡ (if is_running d.session.state then 1 else 0)
  unfolding Settles
  SessionReach-Settles starts = omega arith
  SessionReach-Settles (continues r st) =
      ground (arith, SessionReach-Settles r, SessionStep-Settles st)

  -- A session that begins new is rewarded exactly once: of the methods that are called on it, in any order
  -- and at any clock readings, none has given a reward while it runs, and exactly one when it is over.
  pub new_session-rewarded_once :
      (config : SimulatorConfig) (now : ℕ) (incident : Incident W)
      → (told : List (Outcome SessionTransition)) (e : Diagnosing W)
      → SessionReach setting
          (record { incident = incident; session = new_session config now })
          told
          e
      → count_if rewards told ≡ (if is_running e.session.state then 0 else 1)
  unfolding new_session
  new_session-rewarded_once config now incident told e r = ground (arith, SessionReach-Settles r)
