-- ===== src/Incident/Cleanup.antt =====
-- The cleanup of an incident: it happens once, and closing twice is closing once.
use net_ops_bench.Prelude.{
  ℕ, ◌+◌, ◌≡◌, refl, ap, ◌∙◌, Bool, true, false, Option, none, some, List, Text, arith, Outcome,
  returned, raised, Action, gets, ◌>>=◌, pure, throw, proceed, if◌then◌else◌, Bool-cases,
  Option-cases, inl, inr,
}
use net_ops_bench.Payload.{Json}
use net_ops_bench.Scorer.{ToolCall}
use net_ops_bench.Incident.{
  is_created, is_broken, is_closed, is_not_started, closing, SimulatorConfig, ToolAction,
  DiagnosisSubmission, Setting, Incident, prepare, open_session, call_tool, evaluate, close,
  finish_backend, finished, notify_close, prepared, require_active, refresh_lease, resolve,
  value_error, on_world, score_incident, is_active, fresh,
}
use net_ops_bench.Incident.Truth.{Episode}
use net_ops_bench.Incident.Lifecycle.{
  IsSettled, Step, Reach, prepares, opens, calls, evaluates, closes, here, next, Reach-IsSettled,
  created-not_started,
}

-- A reading of the world that counts the calls of the backend's `finish`.
pub record CountsFinish {W : Type 0} (setting : Setting W) (finishes : W → ℕ) : Type 0 where
  pub finish : (b : Bool) (w : W) → finishes (setting.finish b w).1 ≡ finishes w + 1
  pub prepare : (e : Episode) (w : W) → finishes (setting.prepare e w).1 ≡ finishes w
  pub call_tool : (a : ToolAction) (w : W) → finishes (setting.call_tool a w).1 ≡ finishes w
  pub refresh : (n : ℕ) (w : W) → finishes (setting.refresh n w).1 ≡ finishes w
  pub on_close :
      (f : W → Outcome Unit × W) (w : W) → setting.on_close ≡ some f → finishes (f w).1 ≡ finishes w

module _ {W : Type 0} (setting : Setting W) (finishes : W → ℕ)
    (law : CountsFinish setting finishes) where
  -- The number of calls is `base`, and one more once the cleanup has begun.
  abbrev Counted : ℕ → Incident W → Type 0
  Counted base s = finishes s.world ≡ base + (if is_not_started s.cleanup_status then 0 else 1)

  finishes-notify_close :
      (s : Incident W)
      → (finishes (notify_close setting s).1.world ≡ finishes s.world)
        × ((notify_close setting s).1.cleanup_status ≡ s.cleanup_status)
  unfolding notify_close
  finishes-notify_close s = elim (Bool-cases s.close_notified) [
    | inl told ↦ rw told (refl, refl)
    | inr untold ↦ elim (Option-cases setting.on_close) [
      | inl e ↦ rw (untold, e) (refl, refl)
      | inr (f, e) ↦ rw (untold, e) (law.on_close f s.world e, refl)
    ]
  ]

  notify_close-Counted :
      (base : ℕ) (s : Incident W)
      → is_not_started s.cleanup_status ≡ false
      → finishes s.world ≡ base + 1
      → Counted base (notify_close setting s).1
  notify_close-Counted base s n h =
      let (same, kept) = finishes-notify_close s in rw (kept, n, same) h

  finished-Counted :
      (base : ℕ) (b : Bool) (r : Outcome Unit) (s : Incident W)
      → finishes s.world ≡ base + 1
      → Counted base (finished setting b r s).1
  unfolding finished
  finished-Counted base b (returned _) s h = notify_close-Counted base _ refl h
  finished-Counted base b (raised e) s h = notify_close-Counted base _ refl h

  finish_backend-Counted :
      (base : ℕ) (b : Bool) (s : Incident W)
      → finishes s.world ≡ base
      → Counted base (finish_backend setting b s).1
  unfolding finish_backend
  finish_backend-Counted base b s h =
      finished-Counted base b _ _ (law.finish b s.world ∙ ap (λ n. n + 1) h)

  prepared-Counted :
      (base : ℕ) (r : Outcome Json) (s : Incident W)
      → is_not_started s.cleanup_status ≡ true
      → finishes s.world ≡ base
      → Counted base (prepared setting r s).1
  unfolding prepared
  prepared-Counted base (returned o) s n h = rw n (ground arith)
  prepared-Counted base (raised e) s n h = finish_backend-Counted base true _ h

  uncleaned :
      (base : ℕ) (s : Incident W)
      → is_not_started s.cleanup_status ≡ true
      → Counted base s
      → finishes s.world ≡ base
  uncleaned base s n h = ground arith

  prepare-Counted :
      (base : ℕ) (s : Incident W)
      → IsSettled s
      → Counted base s
      → Counted base (prepare setting s).1
  unfolding prepare
  prepare-Counted base s settles h = elim (Bool-cases (is_created s.state)) [
    | inl new ↦
        let n = ap is_not_started (created-not_started s settles new) in
        rw new (prepared-Counted base _ _ n (law.prepare s.episode s.world ∙ uncleaned base s n h))
    | inr old ↦ rw old h
  ]

  -- Two incidents with as many calls made and the same cleanup status.
  abbrev SameCleanup : Incident W → Incident W → Type 0
  SameCleanup s t = (finishes t.world ≡ finishes s.world) × (t.cleanup_status ≡ s.cleanup_status)

  abbrev Keeps : {A : Type 0} → Action (Incident W) A → Type 0
  Keeps m = (s : Incident W) → SameCleanup s (m s).1

  proceed-SameCleanup :
      {A B : Type 0} (k : A → Action (Incident W) B) (o : Outcome A × Incident W) (s : Incident W)
      → ((a : A) → Keeps (k a))
      → SameCleanup s o.1
      → SameCleanup s (proceed k o).1
  proceed-SameCleanup k (returned a, t) s keeps (same, kept) =
      ((keeps a t).0 ∙ same, (keeps a t).1 ∙ kept)
  proceed-SameCleanup k (raised e, t) s keeps h = h

  then-Keeps :
      {A B : Type 0} (m : Action (Incident W) A) (k : A → Action (Incident W) B)
      → Keeps m
      → ((a : A) → Keeps (k a))
      → Keeps (m >>= k)
  then-Keeps m k first second s = proceed-SameCleanup k (m s) s second (first s)

  require_active-Keeps : Keeps (require_active setting)
  require_active-Keeps s = elim (Bool-cases (is_active s.state)) [
    | inl h ↦ rw h (refl, refl)
    | inr h ↦ rw h (refl, refl)
  ]

  refresh_lease-Keeps : (seconds : ℕ) → Keeps (refresh_lease setting seconds)
  unfolding refresh_lease
  refresh_lease-Keeps seconds s = (law.refresh seconds s.world, refl)

  resolve-Keeps : (config default : Option SimulatorConfig) → Keeps (resolve {W = W} config default)
  unfolding resolve
  resolve-Keeps (some config) default s = (refl, refl)
  resolve-Keeps none (some config) s = (refl, refl)
  resolve-Keeps none none s = (refl, refl)

  open_session-Keeps : (config : Option SimulatorConfig) → Keeps (open_session setting config)
  unfolding open_session
  open_session-Keeps config = then-Keeps (require_active setting) _ require_active-Keeps λ _.
      then-Keeps (resolve config setting.default_session_config) _
        (resolve-Keeps config setting.default_session_config)
        λ resolved.
          then-Keeps (refresh_lease setting resolved.max_agent_seconds) _
            (refresh_lease-Keeps resolved.max_agent_seconds) λ _ s. (refl, refl)

  validated-Keeps : (b : Bool) → Keeps (if b then pure {S = Incident W} tt else throw value_error)
  validated-Keeps true s = (refl, refl)
  validated-Keeps false s = (refl, refl)

  backend_call-Keeps : (action : ToolAction) → Keeps (on_world setting (setting.call_tool action))
  backend_call-Keeps action s = (law.call_tool action s.world, refl)

  call_tool-Keeps : (action : ToolAction) → Keeps (call_tool setting action)
  unfolding call_tool
  call_tool-Keeps action = then-Keeps (require_active setting) _ require_active-Keeps λ _.
      then-Keeps (if setting.validate_tool_call action then pure tt else throw value_error) _
        (validated-Keeps (setting.validate_tool_call action))
        λ _. then-Keeps (refresh_lease setting 0) _ (refresh_lease-Keeps 0) λ _.
          then-Keeps (on_world setting (setting.call_tool action)) _ (backend_call-Keeps action)
            λ _. then-Keeps (refresh_lease setting 0) _ (refresh_lease-Keeps 0) λ _ s. (refl, refl)

  evaluate-Keeps :
      (diagnosis : DiagnosisSubmission) (made : List ToolCall) (time : ℕ)
      → Keeps (evaluate setting diagnosis made time)
  unfolding evaluate
  evaluate-Keeps diagnosis made time =
      then-Keeps (require_active setting) _ require_active-Keeps λ _.
        then-Keeps (refresh_lease setting 0)
          (λ _ s. (score_incident setting diagnosis made time s, s)) (refresh_lease-Keeps 0)
          λ _ s. (refl, refl)

  SameCleanup-Counted :
      (base : ℕ) (s t : Incident W) → SameCleanup s t → Counted base s → Counted base t
  SameCleanup-Counted base s t (same, kept) h = rw (kept, same) h

  close-Counted : (base : ℕ) (s : Incident W) → Counted base s → Counted base (close setting s).1
  unfolding close
  close-Counted base s h = elim (Bool-cases (is_closed s.state)) [
    | inl done ↦ rw done h
    | inr open_ ↦ elim (Bool-cases (is_not_started s.cleanup_status)) [
      | inr cleaned ↦ rw (open_, cleaned) h
      | inl n ↦
          rw (open_, n)
            (begun base s (is_broken s.state) (is_broken s.state) (uncleaned base s n h))
    ]
  ]
    where
      begun :
          (base : ℕ) (s : Incident W) (b c : Bool)
          → finishes s.world ≡ base
          → Counted base
              ((finish_backend setting c >>= λ _. gets (λ t. t.cleanup_status))
                (if b then s else record s { state = closing })).1
      begun base s true c h = (ground (arith, finish_backend-Counted base c s h))
      begun base s false c h =
          ground (arith, finish_backend-Counted base c (record s { state = closing }) h)

  Step-Counted :
      (base : ℕ) {s t : Incident W}
      → Step setting s t
      → IsSettled s
      → Counted base s
      → Counted base t
  Step-Counted base {s} prepares settles h = prepare-Counted base s settles h
  Step-Counted base {s} (opens config) settles h =
      SameCleanup-Counted base s (open_session setting config s).1 (open_session-Keeps config s) h
  Step-Counted base {s} (calls action) settles h =
      SameCleanup-Counted base s (call_tool setting action s).1 (call_tool-Keeps action s) h
  Step-Counted base {s} (evaluates diagnosis made time) settles h =
      SameCleanup-Counted base s (evaluate setting diagnosis made time s).1
        (evaluate-Keeps diagnosis made time s) h
  Step-Counted base {s} closes settles h = close-Counted base s h

  Reach-Counted :
      (base : ℕ) {s t : Incident W}
      → IsSettled s
      → Counted base s
      → Reach setting s t
      → Counted base t
  Reach-Counted base settles h here = h
  Reach-Counted base settles h (next r st) =
      Step-Counted base st (Reach-IsSettled setting _ _ settles r) (Reach-Counted base settles h r)

  -- When the world of a new incident counts the backend's `finish`, and the backend's other methods and
  -- the callback leave that count, then after any sequence of method calls the count has grown by nothing
  -- while no cleanup has begun, and by exactly 1 from then on: no sequence finishes the backend twice.
  pub Reach-finishes_once :
      (w : W) (episode : Episode) (case_id : Option Json → Text) (t : Incident W)
      → Reach setting (fresh w episode case_id) t
      → finishes t.world ≡ finishes w + (if is_not_started t.cleanup_status then 0 else 1)
  Reach-finishes_once w episode case_id t r = Reach-Counted (finishes w) refl (ground arith) r
