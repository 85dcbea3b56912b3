-- ===== src/Leases/Withdrawing.antt =====
-- Quarantining, reaping, making room and draining only quarantine and remove records of a lease pool
-- (netopsbench/platform/simulator/runtime.py).
use net_ops_bench.Prelude.{
  ℕ, ◌≤◌, ◌≡◌, refl, ◌∙◌, Bool, true, false, List, [], ◌∷◌, Text, ◌==◌, arith, if◌then◌else◌,
  Outcome, returned, raised,
}
use net_ops_bench.Leases.{
  WarmRuntime, Runtimes, LeasePool, runtime_error, count_where, selected, update, set_quarantined,
  on_runtimes, torn_down, quarantine, quarantine_each, has_capacity, freed, free_one, candidates,
  make_capacity_for, counted, drain_each, reported, drain,
}
use net_ops_bench.Leases.Counting.{count-update, count-remove}

-- A property that quarantining gives to no record.
abbrev pub IsWithdrawn : (WarmRuntime → Bool) → Type 0
IsWithdrawn p = (r : WarmRuntime) → p (set_quarantined r) ≡ true → p r ≡ true

module _ {W : Type 0} (setting : Runtimes W) where
  -- Records were only quarantined and removed.
  abbrev pub Withdraws : LeasePool W → LeasePool W → Type 0
  Withdraws before after =
      ((p : WarmRuntime → Bool)
        → IsWithdrawn p
        → count_where p after.runtimes ≤ count_where p before.runtimes)
      × (after.next_id ≡ before.next_id)

  pub Withdraws-trans : (a b c : LeasePool W) → Withdraws a b → Withdraws b c → Withdraws a c
  Withdraws-trans a b c h k = (λ p w. omega (arith, h.0 p w, k.0 p w), k.1 ∙ h.1)

  torn_down-Withdraws :
      (r : WarmRuntime) (pool : LeasePool W) (out : Outcome (Unit {0}) × W)
      → Withdraws pool (torn_down setting r pool out).1
  unfolding torn_down
  torn_down-Withdraws r pool (raised e, w) = (λ p _. omega arith, refl)
  torn_down-Withdraws r pool (returned _, w) =
      (λ p _. count-remove p r.scale r.id pool.runtimes, refl)

  pub quarantine-Withdraws :
      (r : WarmRuntime) (pool : LeasePool W) → Withdraws pool (quarantine setting r pool).1
  unfolding quarantine
  quarantine-Withdraws r pool =
      Withdraws-trans pool (on_runtimes setting (update r.id set_quarantined) pool)
        (quarantine setting r pool).1
        (λ p w. count-update p r.id set_quarantined pool.runtimes w, refl)
        (torn_down-Withdraws r (on_runtimes setting (update r.id set_quarantined) pool)
          (setting.teardown r.id (setting.stop_traffic r.id pool.world).1))

  pub quarantine_each-Withdraws :
      (rs : List WarmRuntime) (pool : LeasePool W)
      → Withdraws pool (quarantine_each setting rs pool)
  unfolding quarantine_each
  quarantine_each-Withdraws [] pool = (λ p _. omega arith, refl)
  quarantine_each-Withdraws (r ∷ rest) pool =
      Withdraws-trans pool (quarantine setting r pool).1
        (quarantine_each setting rest (quarantine setting r pool).1) (quarantine-Withdraws r pool)
        (quarantine_each-Withdraws rest (quarantine setting r pool).1)

  freed-Withdraws :
      (others : LeasePool W → LeasePool W) (out : Outcome (Unit {0}) × LeasePool W)
      → ((pool : LeasePool W) → Withdraws pool (others pool))
      → Withdraws out.1 (freed setting others out)
  unfolding freed
  freed-Withdraws others (raised e, pool) h = h pool
  freed-Withdraws others (returned _, pool) h = stopped (has_capacity setting pool)
    where
      stopped : (b : Bool) → Withdraws pool (if b then pool else others pool)
      stopped true = (λ p _. omega arith, refl)
      stopped false = h pool

  free_one-Withdraws :
      (rs : List WarmRuntime) (pool : LeasePool W) → Withdraws pool (free_one setting rs pool)
  unfolding free_one
  free_one-Withdraws [] pool = (λ p _. omega arith, refl)
  free_one-Withdraws (r ∷ rest) pool =
      Withdraws-trans pool (quarantine setting r pool).1 (free_one setting (r ∷ rest) pool)
        (quarantine-Withdraws r pool)
        (freed-Withdraws (free_one setting rest) (quarantine setting r pool)
          (λ t. free_one-Withdraws rest t))

  pub make_capacity_for-Withdraws :
      (scale : Text) (pool : LeasePool W) → Withdraws pool (make_capacity_for setting scale pool)
  unfolding make_capacity_for
  make_capacity_for-Withdraws scale pool = stopped (has_capacity setting pool)
    where
      stopped :
          (b : Bool)
          → Withdraws pool
              (if b then pool else free_one setting (candidates setting scale pool.runtimes) pool)
      stopped true = (λ p _. omega arith, refl)
      stopped false = free_one-Withdraws (candidates setting scale pool.runtimes) pool

  counted-Withdraws :
      (others : LeasePool W → ℕ × LeasePool W) (out : Outcome (Unit {0}) × LeasePool W)
      → ((pool : LeasePool W) → Withdraws pool (others pool).1)
      → Withdraws out.1 (counted setting others out).1
  unfolding counted
  counted-Withdraws others (raised e, pool) h = h pool
  counted-Withdraws others (returned _, pool) h = h pool

  pub drain_each-Withdraws :
      (rs : List WarmRuntime) (pool : LeasePool W) → Withdraws pool (drain_each setting rs pool).1
  unfolding drain_each
  drain_each-Withdraws [] pool = (λ p _. omega arith, refl)
  drain_each-Withdraws (r ∷ rest) pool =
      Withdraws-trans pool (quarantine setting r pool).1 (drain_each setting (r ∷ rest) pool).1
        (quarantine-Withdraws r pool)
        (counted-Withdraws (drain_each setting rest) (quarantine setting r pool)
          (λ t. drain_each-Withdraws rest t))

  reported-Withdraws :
      (before : LeasePool W) (out : ℕ × LeasePool W)
      → Withdraws before out.1
      → Withdraws before (reported setting out).1
  reported-Withdraws before (n, after) h = either (n == 0)
    where
      either :
          (b : Bool)
          → let out : Outcome (Unit {0}) × LeasePool W =
              if b then (returned tt, after) else (raised runtime_error, after) in
            Withdraws before out.1
      either true = h
      either false = h

  pub drain-Withdraws :
      (wanted : Text → Bool) (pool : LeasePool W) → Withdraws pool (drain setting wanted pool).1
  unfolding drain
  drain-Withdraws wanted pool =
      reported-Withdraws pool (drain_each setting (selected wanted pool.runtimes) pool)
        (drain_each-Withdraws (selected wanted pool.runtimes) pool)
