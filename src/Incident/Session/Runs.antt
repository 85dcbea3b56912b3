-- ===== src/Incident/Session/Runs.antt =====
-- Runs of a diagnostic session: DiagnosticSession of netopsbench/platform/incident/engine.py.
use net_ops_bench.Prelude.{
  ℕ, Bool, false, Option, List, [], ◌∷◌, Text, is_some, Outcome, returned, raised,
}
use net_ops_bench.Scorer.{ToolCall}
use net_ops_bench.Incident.{FailureDomain, ToolAction, DiagnosisSubmission, Setting}
use net_ops_bench.Incident.Session.{
  TerminationReason, SessionTransition, Diagnosing, session_call_tool, submit, terminate_failure,
}

-- A tool call was made: the agent gets an observation of it.
abbrev pub observes : Outcome SessionTransition → Bool
observes (returned t) = is_some t.observation
observes (raised e) = false

abbrev pub rewards : Outcome SessionTransition → Bool
rewards (returned t) = is_some t.reward
rewards (raised e) = false

abbrev pub evaluates : Outcome SessionTransition → Bool
evaluates (returned t) = is_some t.evaluated
evaluates (raised e) = false

module _ {W : Type 0} (setting : Setting W) where
  -- One call of a session's method at some reading of the clock, and what it returns or raises.
  pub data SessionStep (d : Diagnosing W) : Outcome SessionTransition → Diagnosing W → Type 0 where
    tools :
        (now : ℕ) (action : ToolAction)
        → SessionStep d
            (session_call_tool setting now action d).0
            (session_call_tool setting now action d).1
    submits :
        (now : ℕ) (diagnosis : DiagnosisSubmission) (made : Option (List ToolCall))
        (time : Option ℕ)
        → SessionStep d
            (submit setting now diagnosis made time d).0
            (submit setting now diagnosis made time d).1
    terminates :
        (now : ℕ) (domain : FailureDomain) (message : Text) (reason : TerminationReason)
        → SessionStep d
            (terminate_failure setting now domain message reason d).0
            (terminate_failure setting now domain message reason d).1

  -- Calls in any order, with the outcomes, the last one first.
  pub data SessionReach (d : Diagnosing W)
      : List (Outcome SessionTransition) → Diagnosing W → Type 0 where
    starts : SessionReach d [] d
    continues :
        {told : List (Outcome SessionTransition)} {out : Outcome SessionTransition}
        {e f : Diagnosing W}
        → SessionReach d told e
        → SessionStep e out f
        → SessionReach d (out ∷ told) f
