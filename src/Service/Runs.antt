-- ===== src/Service/Runs.antt =====
-- Runs of the service: calls in any order, whatever they raise (netopsbench/platform/simulator/service.py).
use net_ops_bench.Prelude.{
  ℕ, ◌≡◌, refl, Bool, true, false, Option, none, some, List, [], ◌∷◌, All, Text, if◌then◌else◌,
  Dict, lookup, put, remove, Outcome, returned, raised,
}
use net_ops_bench.Service.{
  EnvironmentSlot, Manager, SimulatorService, prune, terminal_environment_error, insert_slot,
  created_slot, registered, was_reset, was_created, create_with, create, ended_step, stepped,
  run_action, step_slot, step_found, step, delete_found, delete, close_service,
}

pub data Call : Type 0 where
  creates : ℕ → Text → Text → Call
  steps : ℕ → Text → Text → Call
  deletes : Text → Call
  closes : Call

module _ {S H A W : Type 0} (manager : Manager S H A W) where
  unfoldable pub perform : Call → SimulatorService S H W → SimulatorService S H W
  unfolding create step delete close_service
  perform (creates now id case_id) service = (create manager now id case_id service).1
  perform (steps now id action) service = (step manager now id action service).1
  perform (deletes id) service = (delete manager id service).1
  perform closes service = (close_service manager service).1

  unfoldable pub run : List Call → SimulatorService S H W → SimulatorService S H W
  unfolding perform
  run [] service = service
  run (call ∷ rest) service = run rest (perform call service)

-- What is known of the identifier that a call makes.
abbrev pub IsFreshCall : (Text → Type 0) → Call → Type 0
IsFreshCall Fresh (creates now id case_id) = Fresh id
IsFreshCall Fresh (steps now id action) = Unit
IsFreshCall Fresh (deletes id) = Unit
IsFreshCall Fresh closes = Unit

-- A property of the slots that every change by a call keeps holds after the call. `Fresh` is what is
-- known of the new identifiers.
module _ {S H A W : Type 0} (manager : Manager S H A W) (P : Dict (EnvironmentSlot H) → Type 0)
    (Fresh : Text → Type 0)
    (pruned : (now : ℕ) (d : Dict (EnvironmentSlot H)) → P d → P (prune now d))
    (inserted : (now : ℕ) (id : Text) (slot : EnvironmentSlot H) (d : Dict (EnvironmentSlot H))
      → Fresh id
      → P d
      → P (insert_slot manager now id slot d))
    (put_back : (id : Text) (slot : EnvironmentSlot H) (h : H) (terminal_ : Bool)
        (d : Dict (EnvironmentSlot H))
      → lookup id d ≡ some slot
      → slot.terminal ≡ false
      → slot.environment ≡ some h
      → P d
      → P (put id (record slot { terminal = terminal_ }) d))
    (ended : (now : ℕ) (id : Text) (slot : EnvironmentSlot H) (d : Dict (EnvironmentSlot H))
      → lookup id d ≡ some slot
      → slot.terminal ≡ false
      → P d
      → P (
          prune now (
            put id
              (record slot { environment = none; terminal = true; terminal_at = some now })
              d)))
    (removed : (id : Text) (d : Dict (EnvironmentSlot H)) → P d → P (remove id d))
    (emptied : P []) where
  registered-Keeps :
      (now : ℕ) (id case_id : Text) (h : H) (valid : Bool) (service : SimulatorService S H W)
      (out : Outcome (Unit {0}) × W)
      → Fresh id
      → P service.environments
      → P (registered manager now id case_id h valid service out).1.environments
  unfolding registered
  registered-Keeps now id case_id h valid service (raised e, w) fresh k = k
  registered-Keeps now id case_id h valid service (returned _, w) fresh k =
      inserted now id (created_slot manager now case_id h valid) service.environments fresh k

  was_reset-Keeps :
      (now : ℕ) (id case_id : Text) (h : H) (service : SimulatorService S H W)
      (out : Outcome Bool × W)
      → Fresh id
      → P service.environments
      → P (was_reset manager now id case_id h service out).1.environments
  unfolding was_reset
  was_reset-Keeps now id case_id h service (raised e, w) fresh k = k
  was_reset-Keeps now id case_id h service (returned true, w) fresh k =
      registered-Keeps now id case_id h true service (returned tt, w) fresh k
  was_reset-Keeps now id case_id h service (returned false, w) fresh k =
      registered-Keeps now id case_id h false service (manager.close_environment h w) fresh k

  was_created-Keeps :
      (now : ℕ) (id case_id : Text) (service : SimulatorService S H W) (out : Outcome H × W)
      → Fresh id
      → P service.environments
      → P (was_created manager now id case_id service out).1.environments
  unfolding was_created
  was_created-Keeps now id case_id service (raised e, w) fresh k = k
  was_created-Keeps now id case_id service (returned h, w) fresh k =
      was_reset-Keeps now id case_id h service (manager.reset h w) fresh k

  create_with-Keeps :
      (now : ℕ) (id case_id : Text) (service : SimulatorService S H W) (scenario : Option S)
      → Fresh id
      → P service.environments
      → P (create_with manager now id case_id service scenario).1.environments
  unfolding create_with
  create_with-Keeps now id case_id service none fresh k = k
  create_with-Keeps now id case_id service (some scenario) fresh k =
      was_created-Keeps now id case_id service (manager.create scenario service.world) fresh k

  ended_step-Keeps :
      (now : ℕ) (id : Text) (slot : EnvironmentSlot H) (h : H) (service : SimulatorService S H W)
      (out : Outcome (Unit {0}) × W)
      → lookup id service.environments ≡ some slot
      → slot.terminal ≡ false
      → slot.environment ≡ some h
      → P service.environments
      → P (ended_step manager now id slot service out).1.environments
  unfolding ended_step
  ended_step-Keeps now id slot h service (raised e, w) found running live k =
      put_back id slot h true service.environments found running live k
  ended_step-Keeps now id slot h service (returned _, w) found running live k =
      ended now id slot service.environments found running k

  stepped-Keeps :
      (now : ℕ) (id : Text) (h : H) (slot : EnvironmentSlot H) (service : SimulatorService S H W)
      (out : Outcome Bool × W)
      → lookup id service.environments ≡ some slot
      → slot.terminal ≡ false
      → slot.environment ≡ some h
      → P service.environments
      → P (stepped manager now id h slot service out).1.environments
  unfolding stepped
  stepped-Keeps now id h slot service (raised e, w) found running live k = k
  stepped-Keeps now id h slot service (returned false, w) found running live k =
      put_back id slot h false service.environments found running live k
  stepped-Keeps now id h slot service (returned true, w) found running live k =
      ended_step-Keeps now id slot h service (manager.close_environment h w) found running live k

  step_slot-Keeps :
      (now : ℕ) (id action : Text) (service : SimulatorService S H W) (slot : EnvironmentSlot H)
      (environment_ : Option H)
      → lookup id service.environments ≡ some slot
      → slot.environment ≡ environment_
      → P service.environments
      → P (step_slot manager now id action service slot environment_).1.environments
  unfolding step_slot
  step_slot-Keeps now id action service slot none found live k = k
  step_slot-Keeps now id action service slot (some h) found live k = unless_over slot.terminal refl
    where
      unless_over :
          (b : Bool)
          → slot.terminal ≡ b
          → let out : Outcome Bool × SimulatorService S H W =
              if b
              then (raised terminal_environment_error, service)
              else stepped manager now id h slot service
                  (run_action manager h (manager.validate action) service.world) in
            P out.1.environments
      unless_over true over = k
      unless_over false running =
          stepped-Keeps now id h slot service
            (run_action manager h (manager.validate action) service.world) found running live k

  step_found-Keeps :
      (now : ℕ) (id action : Text) (service : SimulatorService S H W)
      (slot : Option (EnvironmentSlot H))
      → lookup id service.environments ≡ slot
      → P service.environments
      → P (step_found manager now id action service slot).1.environments
  unfolding step_found
  step_found-Keeps now id action service none found k = k
  step_found-Keeps now id action service (some slot) found k =
      step_slot-Keeps now id action service slot slot.environment found refl k

  delete_found-Keeps :
      (id : Text) (service : SimulatorService S H W) (slot : Option (EnvironmentSlot H))
      → P service.environments
      → P (delete_found manager id service slot).1.environments
  unfolding delete_found
  delete_found-Keeps id service none k = k
  delete_found-Keeps id service (some slot) k = removed id service.environments k

  perform-Keeps :
      (call : Call) (service : SimulatorService S H W)
      → IsFreshCall Fresh call
      → P service.environments
      → P (perform manager call service).environments
  unfolding perform create step delete close_service
  perform-Keeps (creates now id case_id) service fresh k =
      create_with-Keeps now id case_id service (lookup case_id service.scenarios) fresh k
  perform-Keeps (steps now id action) service fresh k =
      step_found-Keeps now id action
        (record service { environments = prune now service.environments })
        (lookup id (prune now service.environments)) refl (pruned now service.environments k)
  perform-Keeps (deletes id) service fresh k =
      delete_found-Keeps id service (lookup id service.environments) k
  perform-Keeps closes service fresh k = emptied

  pub run-Keeps :
      (calls : List Call) (service : SimulatorService S H W)
      → All (IsFreshCall Fresh) calls
      → P service.environments
      → P (run manager calls service).environments
  unfolding run
  run-Keeps [] service fresh k = k
  run-Keeps (call ∷ rest) service fresh k =
      run-Keeps rest (perform manager call service) fresh.1 (perform-Keeps call service fresh.0 k)
