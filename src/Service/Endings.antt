-- ===== src/Service/Endings.antt =====
-- The tombstones of the service stay few, and an environment that has ended is not driven again
-- (netopsbench/platform/simulator/service.py).
use net_ops_bench.Prelude.{
  ℕ, ◌≤◌, ◌≡◌, refl, sym, ap, subst, ◌∙◌, Bool, true, false, not, Option, none, some, List, [], ◌∷◌,
  All, All-of, is_some, keep, Text, text_eq, text_eq_iff, text_eq_refl, count_if, arith, Bool-cases,
  inl, inr, Exn, if◌then◌else◌, Dict, lookup, put, remove, lookup-put, lookup-remove, IsFunctional,
  put-IsFunctional, remove-IsFunctional, empty-IsFunctional, holds_at, Outcome, returned, raised,
}
use net_ops_bench.Service.{
  EnvironmentSlot, Manager, SimulatorService, max_terminal_tombstones, is_tombstone, is_expired,
  pop_all, drop_expired, excess, drop_excess, prune, key_error, terminal_environment_error,
  insert_slot, ended_step, stepped, run_action, step_slot, step_found, step,
}
use net_ops_bench.Service.Pruning.{prune-IsFunctional, drop_excess-few, drop_expired-IsFunctional}
use net_ops_bench.Service.Runs.{Call, creates, steps, deletes, closes, run, IsFreshCall, run-Keeps}

abbrev is_running : {H : Type 0} → EnvironmentSlot H → Bool
is_running slot = not slot.terminal

-- The environment's slot is terminal, or gone.
abbrev pub IsEnded : {H : Type 0} → Text → Dict (EnvironmentSlot H) → Type 0
IsEnded id d = holds_at is_running (lookup id d) ≡ false

module _ {H : Type 0} where
  remove-IsEnded :
      (id k : Text) (d : Dict (EnvironmentSlot H)) → IsEnded id d → IsEnded id (remove k d)
  remove-IsEnded id k d h = ap (holds_at is_running) (lookup-remove k id d) ∙ unless (text_eq k id)
    where
      unless : (b : Bool) → holds_at is_running (if b then none else lookup id d) ≡ false
      unless true = refl
      unless false = h

  pop_all-IsEnded :
      (id : Text) (es d : Dict (EnvironmentSlot H)) → IsEnded id d → IsEnded id (pop_all es d)
  unfolding pop_all
  pop_all-IsEnded id [] d h = h
  pop_all-IsEnded id (e ∷ rest) d h =
      pop_all-IsEnded id rest (remove e.0 d) (remove-IsEnded id e.0 d h)

  prune-IsEnded :
      (id : Text) (now : ℕ) (d : Dict (EnvironmentSlot H)) → IsEnded id d → IsEnded id (prune now d)
  unfolding prune drop_excess drop_expired
  prune-IsEnded id now d h =
      pop_all-IsEnded id (excess (drop_expired now d)) (drop_expired now d)
        (pop_all-IsEnded id (keep (λ e. is_expired now e.1) d) d h)

  put-IsEnded :
      (id k : Text) (slot : EnvironmentSlot H) (d : Dict (EnvironmentSlot H))
      → (text_eq k id ≡ true → slot.terminal ≡ true)
      → IsEnded id d
      → IsEnded id (put k slot d)
  put-IsEnded id k slot d same h =
      ap (holds_at is_running) (lookup-put k id slot d) ∙ unless (text_eq k id) same
    where
      unless :
          (b : Bool)
          → (b ≡ true → slot.terminal ≡ true)
          → holds_at is_running (if b then some slot else lookup id d) ≡ false
      unless true f = rw (f refl) refl
      unless false f = h

  -- The slot of another environment, if one has ended and the other has not.
  apart_of_running :
      (id k : Text) (slot : EnvironmentSlot H) (d : Dict (EnvironmentSlot H))
      → lookup k d ≡ some slot
      → slot.terminal ≡ false
      → IsEnded id d
      → text_eq k id ≡ false
  apart_of_running id k slot d found running h = elim (Bool-cases (text_eq k id)) [
    | inr apart ↦ apart
    | inl same ↦
        let there : lookup id d ≡ some slot =
          ap (λ i. lookup i d) (sym ((text_eq_iff k id).0 same)) ∙ found in
        ground (arith, running, sym (ap (holds_at is_running) there) ∙ h)
  ]

-- No identifier twice, and no more tombstones than the maximum.
abbrev pub IsTidy : {H : Type 0} → Dict (EnvironmentSlot H) → Type 0
IsTidy d = IsFunctional d × (count_if (λ e. is_tombstone e.1) d ≤ max_terminal_tombstones)

count-put_le :
    {V : Type 0} (p : V → Bool) (k : Text) (v : V) (d : Dict V)
    → p v ≡ false
    → count_if (λ e. p e.1) (put k v d) ≤ count_if (λ e. p e.1) d
unfolding put
count-put_le p k v [] h = ground (arith, h)
count-put_le p k v ((i, w) ∷ d) h = ground (arith, h, count-put_le p k v d h)

count-remove_le :
    {V : Type 0} (p : V → Bool) (k : Text) (d : Dict V)
    → count_if (λ e. p e.1) (remove k d) ≤ count_if (λ e. p e.1) d
unfolding remove
count-remove_le p k [] = omega arith
count-remove_le p k ((i, w) ∷ d) = ground (arith, count-remove_le p k d)

prune-IsTidy :
    {H : Type 0} (now : ℕ) (d : Dict (EnvironmentSlot H)) → IsFunctional d → IsTidy (prune now d)
unfolding prune
prune-IsTidy now d h = (
  prune-IsFunctional now d h,
  drop_excess-few (drop_expired now d) (drop_expired-IsFunctional now d h),
)

any_call : (call : Call) → IsFreshCall (λ _. Unit {0}) call
any_call (creates now id case_id) = tt
any_call (steps now id action) = tt
any_call (deletes id) = tt
any_call closes = tt

module _ {S H A W : Type 0} (manager : Manager S H A W) where
  -- Whatever calls are made, and whatever they raise, no two slots have one identifier, and there are
  -- at most 1024 tombstones of ended environments, if this is so at the start.
  pub run-IsTidy :
      (calls : List Call) (service : SimulatorService S H W)
      → IsTidy service.environments
      → IsTidy (run manager calls service).environments
  unfolding insert_slot
  run-IsTidy calls service h =
      run-Keeps manager IsTidy (λ _. Unit {0}) (λ now d k. prune-IsTidy now d k.0)
        (λ now id slot d _ k.
          prune-IsTidy now (put id slot (prune now d))
            (put-IsFunctional id slot (prune now d) (prune-IsFunctional now d k.0)))
        (λ id slot h terminal_ d found running live k. (
          put-IsFunctional id _ d k.0,
          omega (
            arith,
            k.1,
            count-put_le is_tombstone id (record slot { terminal = terminal_ }) d
                (ground (arith, ap is_some live)),
          ),
        ))
        (λ now id slot d found running k.
          prune-IsTidy now (put id _ d) (put-IsFunctional id _ d k.0))
        (λ id d k.
          (remove-IsFunctional id d k.0, omega (arith, k.1, count-remove_le is_tombstone id d)))
        (empty-IsFunctional (EnvironmentSlot H), omega arith) calls service
        (All-of (IsFreshCall (λ _. Unit {0})) calls any_call) h

  -- An identifier that is not the ended one.
  abbrev pub IsOtherThan : Text → Text → Type 0
  IsOtherThan id k = text_eq k id ≡ false

  run-IsEnded :
      (id : Text) (calls : List Call) (service : SimulatorService S H W)
      → All (IsFreshCall (IsOtherThan id)) calls
      → IsEnded id service.environments
      → IsEnded id (run manager calls service).environments
  unfolding insert_slot lookup
  run-IsEnded id calls service fresh h =
      run-Keeps manager (IsEnded id) (IsOtherThan id) (λ now d k. prune-IsEnded id now d k)
        (λ now k slot d other e. prune-IsEnded id now (put k slot (prune now d)) (
          put-IsEnded id k slot (prune now d) (λ same. ground (arith, same, other))
            (prune-IsEnded id now d e)))
        (λ k slot env terminal_ d found running live e.
          put-IsEnded id k (record slot { terminal = terminal_ }) d
            (λ same. ground (arith, same, apart_of_running id k slot d found running e)) e)
        (λ now k slot d found running e.
          prune-IsEnded id now (put k _ d) (put-IsEnded id k _ d (λ same. refl) e))
        (λ k d e. remove-IsEnded id k d e) refl calls service fresh h

  -- The call raises and nothing happens in the world.
  abbrev pub IsRefused : SimulatorService S H W → Outcome Bool × SimulatorService S H W → Type 0
  IsRefused service out = ((e : Exn) × (out.0 ≡ raised e)) × (out.1.world ≡ service.world)

  step_slot-IsRefused :
      (now : ℕ) (id action : Text) (service : SimulatorService S H W) (slot : EnvironmentSlot H)
      (environment_ : Option H)
      → slot.terminal ≡ true
      → IsRefused service (step_slot manager now id action service slot environment_)
  unfolding step_slot
  step_slot-IsRefused now id action service slot none over =
      ((terminal_environment_error, refl), refl)
  step_slot-IsRefused now id action service slot (some h) over =
      rw over ((terminal_environment_error, refl), refl)

  step_found-IsRefused :
      (now : ℕ) (id action : Text) (service : SimulatorService S H W)
      (slot : Option (EnvironmentSlot H))
      → holds_at is_running slot ≡ false
      → IsRefused service (step_found manager now id action service slot)
  unfolding step_found
  step_found-IsRefused now id action service none h = ((key_error, refl), refl)
  step_found-IsRefused now id action service (some slot) h =
      step_slot-IsRefused now id action service slot slot.environment (ground (arith, h))

  step-IsRefused :
      (now : ℕ) (id action : Text) (service : SimulatorService S H W)
      → IsEnded id service.environments
      → IsRefused service (step manager now id action service)
  unfolding step
  step-IsRefused now id action service h =
      step_found-IsRefused now id action
        (record service { environments = prune now service.environments })
        (lookup id (prune now service.environments)) (prune-IsEnded id now service.environments h)

  -- A call that returned that its environment is over leaves it ended.
  abbrev LeavesEnded : Text → Outcome Bool × SimulatorService S H W → Type 0
  LeavesEnded id (returned true, service) = IsEnded id service.environments
  LeavesEnded id _ = Unit

  put_over-IsEnded :
      (id : Text) (slot : EnvironmentSlot H) (d : Dict (EnvironmentSlot H))
      → slot.terminal ≡ true
      → IsEnded id (put id slot d)
  put_over-IsEnded id slot d over =
      ap (holds_at is_running) (lookup-put id id slot d) ∙ rw (text_eq_refl id, over) refl

  ended_step-LeavesEnded :
      (now : ℕ) (id : Text) (slot : EnvironmentSlot H) (service : SimulatorService S H W)
      (out : Outcome (Unit {0}) × W)
      → LeavesEnded id (ended_step manager now id slot service out)
  unfolding ended_step
  ended_step-LeavesEnded now id slot service (raised e, w) = tt
  ended_step-LeavesEnded now id slot service (returned _, w) =
      prune-IsEnded id now (put id _ service.environments)
        (put_over-IsEnded id _ service.environments refl)

  stepped-LeavesEnded :
      (now : ℕ) (id : Text) (h : H) (slot : EnvironmentSlot H) (service : SimulatorService S H W)
      (out : Outcome Bool × W)
      → LeavesEnded id (stepped manager now id h slot service out)
  unfolding stepped
  stepped-LeavesEnded now id h slot service (raised e, w) = tt
  stepped-LeavesEnded now id h slot service (returned false, w) = tt
  stepped-LeavesEnded now id h slot service (returned true, w) =
      ended_step-LeavesEnded now id slot service (manager.close_environment h w)

  step_found-LeavesEnded :
      (now : ℕ) (id action : Text) (service : SimulatorService S H W)
      (slot : Option (EnvironmentSlot H))
      → LeavesEnded id (step_found manager now id action service slot)
  unfolding step_found step_slot
  step_found-LeavesEnded now id action service none = tt
  step_found-LeavesEnded now id action service (some slot) = of_environment slot.environment
    where
      unless_over :
          (h : H) (b : Bool)
          → LeavesEnded id (
              if b
              then (raised terminal_environment_error, service)
              else stepped manager now id h slot service
                  (run_action manager h (manager.validate action) service.world))
      unless_over h true = tt
      unless_over h false =
          stepped-LeavesEnded now id h slot service
            (run_action manager h (manager.validate action) service.world)

      of_environment :
          (o : Option H) → LeavesEnded id (step_slot manager now id action service slot o)
      of_environment none = tt
      of_environment (some h) = unless_over h slot.terminal

  -- After a step that returned a terminal result, whatever calls follow, as long as none of them makes
  -- an environment of the same identifier, another step of this environment raises and does nothing to
  -- the world.
  pub step-ends :
      (now : ℕ) (id action : Text) (service after : SimulatorService S H W)
      → step manager now id action service ≡ (returned true, after)
      → (calls : List Call) → All (IsFreshCall (IsOtherThan id)) calls
      → (later : ℕ) (next : Text)
      → IsRefused (run manager calls after) (step manager later id next (run manager calls after))
  unfolding step
  step-ends now id action service after e calls fresh later next =
      step-IsRefused later id next (run manager calls after) (
        run-IsEnded id calls after fresh (
          subst (LeavesEnded id) e (
            step_found-LeavesEnded now id action
              (record service { environments = prune now service.environments })
              (lookup id (prune now service.environments)))))
