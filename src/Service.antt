-- ===== src/Service.antt =====
-- The environments behind the HTTP facade: SimulatorService of netopsbench/platform/simulator/service.py.
-- A call is one step: calls for different environments, which may overlap, are taken one after the
-- other. The event log is left out.
pub mod Pruning
pub mod Ordering
pub mod Popping
pub mod Runs
pub mod Endings
use net_ops_bench.Prelude.{
  ℕ, zero, suc, ◌+◌, ◌-◌, Bool, true, false, not, ◌&&◌, Option, none, some, List, [], ◌∷◌, map,
  Text, codes, length, take, keep, count_if, ltb, leb, is_some, if◌then◌else◌, Dict, lookup, put,
  remove, values, Exn, Outcome, returned, raised, Action,
}

-- The environment is a handle of type H: the object itself is in the world. Clock readings are numbers
-- of microseconds.
pub record EnvironmentSlot (H : Type 0) : Type 0 where
  pub environment : Option H
  pub case_id : Text
  pub terminal : Bool
  pub terminal_at : Option ℕ

-- The manager and its environments, which act on a world and may raise. `reset` returns the result's
-- "valid", and the two steps whether its "state" is "terminal"; `validate` is the action adapter.
pub record Manager (S H A W : Type 0) : Type 0 where
  pub create : S → W → Outcome H × W
  pub reset : H → W → Outcome Bool × W
  pub validate : Text → Option A
  pub step : H → A → W → Outcome Bool × W
  pub terminate_protocol : H → W → Outcome Bool × W
  pub close_environment : H → W → Outcome (Unit {0}) × W
  pub close : W → Outcome (Unit {0}) × W

pub record SimulatorService (S H W : Type 0) : Type 0 where
  pub scenarios : Dict S
  pub environments : Dict (EnvironmentSlot H)
  pub world : W

abbrev pub key_error : Exn
key_error = record { error_type = codes "KeyError"; message = codes "environment" }

abbrev pub terminal_environment_error : Exn
terminal_environment_error = record {
  error_type = codes "TerminalEnvironmentError";
  message = codes "environment";
}

abbrev pub terminal_tombstone_ttl : ℕ
terminal_tombstone_ttl = 3600000000

abbrev pub max_terminal_tombstones : ℕ
max_terminal_tombstones = 1024

abbrev pub is_old : ℕ → Option ℕ → Bool
is_old now none = false
is_old now (some t) = leb (t + terminal_tombstone_ttl) now

-- terminal_at or float("inf"), compared by <
abbrev pub is_earlier : Option ℕ → Option ℕ → Bool
is_earlier none b = false
is_earlier (some zero) b = false
is_earlier (some (suc a)) none = true
is_earlier (some (suc a)) (some zero) = true
is_earlier (some (suc a)) (some (suc b)) = ltb a b

module _ {H : Type 0} where
  -- slot.terminal and slot.environment is None
  abbrev pub is_tombstone : EnvironmentSlot H → Bool
  is_tombstone slot = slot.terminal && not (is_some slot.environment)

  abbrev pub is_expired : ℕ → EnvironmentSlot H → Bool
  is_expired now slot = is_tombstone slot && is_old now slot.terminal_at

  unfoldable pub insert_by_time :
      Text × EnvironmentSlot H → Dict (EnvironmentSlot H) → Dict (EnvironmentSlot H)
  insert_by_time e [] = e ∷ []
  insert_by_time e (f ∷ rest) =
      let after = insert_by_time e rest in
      if is_earlier f.1.terminal_at e.1.terminal_at then f ∷ after else e ∷ f ∷ rest

  unfoldable pub sort_by_time : Dict (EnvironmentSlot H) → Dict (EnvironmentSlot H)
  unfolding insert_by_time
  sort_by_time [] = []
  sort_by_time (e ∷ rest) = insert_by_time e (sort_by_time rest)

  -- for environment_id in ids: self.environments.pop(environment_id, None)
  unfoldable pub pop_all :
      List (Text × EnvironmentSlot H) → Dict (EnvironmentSlot H) → Dict (EnvironmentSlot H)
  pop_all [] d = d
  pop_all (e ∷ rest) d = pop_all rest (remove e.0 d)

  unfoldable pub drop_expired : ℕ → Dict (EnvironmentSlot H) → Dict (EnvironmentSlot H)
  unfolding pop_all
  drop_expired now d = pop_all (keep (λ e. is_expired now e.1) d) d

  -- terminal_ids[:-_MAX_TERMINAL_TOMBSTONES], with the slots
  unfoldable pub excess : Dict (EnvironmentSlot H) → List (Text × EnvironmentSlot H)
  unfolding sort_by_time
  excess d =
      let terminals : List (Text × EnvironmentSlot H) =
        keep (λ e. is_tombstone e.1) (sort_by_time d) in
      take (length terminals - max_terminal_tombstones) terminals

  unfoldable pub drop_excess : Dict (EnvironmentSlot H) → Dict (EnvironmentSlot H)
  unfolding pop_all excess
  drop_excess d = pop_all (excess d) d

  -- _prune_terminal_environments
  unfoldable pub prune : ℕ → Dict (EnvironmentSlot H) → Dict (EnvironmentSlot H)
  unfolding drop_expired drop_excess
  prune now d = drop_excess (drop_expired now d)

module _ {S H A W : Type 0} (manager : Manager S H A W) where
  abbrev pub put_slots :
      Dict (EnvironmentSlot H) → W → SimulatorService S H W → SimulatorService S H W
  put_slots d w service = record service { environments = d; world = w }

  -- The slot of a new environment, among the others.
  unfoldable pub insert_slot :
      ℕ → Text → EnvironmentSlot H → Dict (EnvironmentSlot H) → Dict (EnvironmentSlot H)
  unfolding prune
  insert_slot now id slot d = prune now (put id slot (prune now d))

  unfoldable pub created_slot : ℕ → Text → H → Bool → EnvironmentSlot H
  created_slot now case_id h true = record {
    environment = some h;
    case_id = case_id;
    terminal = false;
    terminal_at = none;
  }
  created_slot now case_id h false = record {
    environment = none;
    case_id = case_id;
    terminal = true;
    terminal_at = some now;
  }

  -- What follows the reset, and the close of an environment that is not valid.
  unfoldable pub registered :
      ℕ
      → Text
      → Text
      → H
      → Bool
      → SimulatorService S H W
      → Outcome (Unit {0}) × W
      → Outcome Bool × SimulatorService S H W
  unfolding insert_slot created_slot
  registered now id case_id h valid service (raised e, w) =
      (raised e, put_slots service.environments w service)
  registered now id case_id h valid service (returned _, w) = (
    returned valid,
    put_slots (insert_slot now id (created_slot now case_id h valid) service.environments) w
        service,
  )

  unfoldable pub was_reset :
      ℕ
      → Text
      → Text
      → H
      → SimulatorService S H W
      → Outcome Bool × W
      → Outcome Bool × SimulatorService S H W
  unfolding registered
  was_reset now id case_id h service (raised e, w) =
      (raised e, put_slots service.environments w service)
  was_reset now id case_id h service (returned true, w) =
      registered now id case_id h true service (returned tt, w)
  was_reset now id case_id h service (returned false, w) =
      registered now id case_id h false service (manager.close_environment h w)

  unfoldable pub was_created :
      ℕ
      → Text
      → Text
      → SimulatorService S H W
      → Outcome H × W
      → Outcome Bool × SimulatorService S H W
  unfolding was_reset
  was_created now id case_id service (raised e, w) =
      (raised e, put_slots service.environments w service)
  was_created now id case_id service (returned h, w) =
      was_reset now id case_id h service (manager.reset h w)

  unfoldable pub create_with :
      ℕ → Text → Text → SimulatorService S H W → Option S → Outcome Bool × SimulatorService S H W
  unfolding was_created
  create_with now id case_id service none = (raised key_error, service)
  create_with now id case_id service (some scenario) =
      was_created now id case_id service (manager.create scenario service.world)

  -- `id` is the new uuid.
  unfoldable pub create : ℕ → Text → Text → Action (SimulatorService S H W) Bool
  unfolding create_with
  create now id case_id service =
      create_with now id case_id service (lookup case_id service.scenarios)

  -- What follows the close of an environment whose step was terminal.
  unfoldable pub ended_step :
      ℕ
      → Text
      → EnvironmentSlot H
      → SimulatorService S H W
      → Outcome (Unit {0}) × W
      → Outcome Bool × SimulatorService S H W
  unfolding prune
  ended_step now id slot service (raised e, w) = (
    raised e,
    put_slots (put id (record slot { terminal = true }) service.environments) w service,
  )
  ended_step now id slot service (returned _, w) = (
    returned true,
    put_slots
        (prune now (
          put id (record slot { environment = none; terminal = true; terminal_at = some now })
            service.environments))
        w service,
  )

  unfoldable pub stepped :
      ℕ
      → Text
      → H
      → EnvironmentSlot H
      → SimulatorService S H W
      → Outcome Bool × W
      → Outcome Bool × SimulatorService S H W
  unfolding ended_step
  stepped now id h slot service (raised e, w) = (raised e, put_slots service.environments w service)
  stepped now id h slot service (returned false, w) = (
    returned false,
    put_slots (put id (record slot { terminal = false }) service.environments) w service,
  )
  stepped now id h slot service (returned true, w) =
      ended_step now id slot service (manager.close_environment h w)

  -- The step itself: an action that is not valid terminates the environment.
  unfoldable pub run_action : H → Option A → W → Outcome Bool × W
  run_action h none w = manager.terminate_protocol h w
  run_action h (some action) w = manager.step h action w

  unfoldable pub step_slot :
      ℕ
      → Text
      → Text
      → SimulatorService S H W
      → EnvironmentSlot H
      → Option H
      → Outcome Bool × SimulatorService S H W
  unfolding stepped run_action
  step_slot now id action service slot none = (raised terminal_environment_error, service)
  step_slot now id action service slot (some h) =
      if slot.terminal
      then (raised terminal_environment_error, service)
      else stepped now id h slot service (run_action h (manager.validate action) service.world)

  unfoldable pub step_found :
      ℕ
      → Text
      → Text
      → SimulatorService S H W
      → Option (EnvironmentSlot H)
      → Outcome Bool × SimulatorService S H W
  unfolding step_slot
  step_found now id action service none = (raised key_error, service)
  step_found now id action service (some slot) =
      step_slot now id action service slot slot.environment

  unfoldable pub step : ℕ → Text → Text → Action (SimulatorService S H W) Bool
  unfolding step_found prune
  step now id action service =
      let pruned : SimulatorService S H W = record service {
        environments = prune now service.environments;
      } in
      step_found now id action pruned (lookup id pruned.environments)

  close_slot : Option H → W → Outcome (Unit {0}) × W
  close_slot none w = (returned tt, w)
  close_slot (some h) w = manager.close_environment h w

  unfoldable pub delete_found :
      Text
      → SimulatorService S H W
      → Option (EnvironmentSlot H)
      → Outcome (Unit {0}) × SimulatorService S H W
  unfolding close_slot
  delete_found id service none = (raised key_error, service)
  delete_found id service (some slot) =
      let (out, w) = close_slot slot.environment service.world in
      (out, put_slots (remove id service.environments) w service)

  unfoldable pub delete : Text → Action (SimulatorService S H W) (Unit {0})
  unfolding delete_found
  delete id service = delete_found id service (lookup id service.environments)

  -- Close the environments one by one, whatever is raised.
  unfoldable pub close_each : List (EnvironmentSlot H) → W → W
  unfolding close_slot
  close_each [] w = w
  close_each (slot ∷ rest) w = close_each rest (close_slot slot.environment w).1

  unfoldable pub close_service : Action (SimulatorService S H W) (Unit {0})
  unfolding close_each
  close_service service =
      let (out, w) = manager.close (close_each (values service.environments) service.world) in
      (out, put_slots [] w service)
