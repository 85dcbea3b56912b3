-- ===== src/Leases/Returning.antt =====
-- An episode gives its lease back (RuntimeEpisodeBackend of netopsbench/platform/simulator/runtime.py).
use net_ops_bench.Prelude.{
  ℕ, ◌+◌, ◌≤◌, ◌≡◌, refl, sym, subst, Bool, true, false, Option, none, some, [], Text, leb, ◌==◌,
  arith, if◌then◌else◌, Bool-cases, ◌⊎◌, inl, inr, Exn, Outcome, returned, raised,
}
use net_ops_bench.Leases.{
  WarmRuntime, new_record, Runtimes, LeasePool, runtime_error, count_in, count_where, update,
  set_released, set_leased, on_runtimes, quarantine, release, reap_orphans, has_capacity,
  make_capacity_for, setdefault, provisioned, find_available, granted, acquire,
}
use net_ops_bench.Leases.Counting.{
  count-add, count-update, count-update_at, count-setdefault_append,
}
use net_ops_bench.Leases.Withdrawing.{
  IsWithdrawn, quarantine-Withdraws, make_capacity_for-Withdraws,
}
use net_ops_bench.Leases.Soundness.{is_held, ready, found_in, reap_orphans-Withdraws}
use net_ops_bench.Leases.Reaping.{quarantine-none, count-update_none}
use net_ops_bench.Leases.Episode.{
  Runner, Backend, is_baseline_error, put_world, bring_up, quarantined_or_raise, give_back,
  finish_runner, finish_leased, finish, baseline_failed, failed, delegated, brought_up,
  topology_checked, leased_or_wait, prepare,
}

-- How many records of an identity have their lease out.
abbrev pub held : {W : Type 0} → ℕ → LeasePool W → ℕ
held id pool = count_where (is_held id) pool.runtimes

-- No lease is out that was not, except that of the given runtime.
abbrev pub IsHolding : {W : Type 0} → LeasePool W → Option WarmRuntime → LeasePool W → Type 0
IsHolding before none pool = (id : ℕ) → held id pool ≤ held id before
IsHolding before (some r) pool = (id : ℕ) → (r.id == id) ≡ false → held id pool ≤ held id before

held-IsWithdrawn : (id : ℕ) → IsWithdrawn (is_held id)
held-IsWithdrawn id r e = ground (arith, e)

module _ {W : Type 0} (setting : Runtimes W) where
  abbrev Found : LeasePool W → Outcome (Option WarmRuntime) × LeasePool W → Type 0
  Found before (returned found, pool) = IsHolding before found pool
  Found before (raised e, pool) = IsHolding before none pool

  setdefault-held :
      (id : ℕ) (scale : Text) (pool : LeasePool W)
      → held id (setdefault setting scale pool) ≡ held id pool
  unfolding setdefault count_in
  setdefault-held id scale pool =
      omega (arith, count-setdefault_append (is_held id) scale [] pool.runtimes)

  provisioned-held :
      (id : ℕ) (scale : Text) (pool : LeasePool W) (out : Outcome (Unit {0}) × W)
      → held id (provisioned setting scale pool out).1 ≤ held id pool
  unfolding provisioned
  provisioned-held id scale pool (raised e, w) = omega arith
  provisioned-held id scale pool (returned _, w) =
      ground (arith, count-add (is_held id) scale (new_record pool.next_id scale) pool.runtimes)

  find_available-held :
      (id : ℕ) (scale : Text) (found : Option WarmRuntime) (pool : LeasePool W)
      → held id (find_available setting scale found pool).1 ≤ held id pool
  unfolding find_available
  find_available-held id scale (some r) pool = omega arith
  find_available-held id scale none pool = with_room (has_capacity setting room)
    where
      room : LeasePool W
      room = setdefault setting scale (make_capacity_for setting scale pool)

      room-held : held id room ≤ held id pool
      room-held = omega (
        arith,
        setdefault-held id scale (make_capacity_for setting scale pool),
        (make_capacity_for-Withdraws setting scale pool).0 (is_held id) (held-IsWithdrawn id),
      )

      with_room :
          (b : Bool)
          → let out : Outcome (Option WarmRuntime) × LeasePool W =
              if b
              then provisioned setting scale room (setting.provision scale room.world)
              else (returned none, room) in
            held id out.1 ≤ held id pool
      with_room true =
          omega
            (arith, room-held, provisioned-held id scale room (setting.provision scale room.world))
      with_room false = room-held

  granted-Found :
      (now deadline : ℕ) (before : LeasePool W) (out : Outcome (Option WarmRuntime) × LeasePool W)
      → ((id : ℕ) → held id out.1 ≤ held id before)
      → Found before (granted setting now deadline out)
  unfolding granted
  granted-Found now deadline before (raised e, pool) h = h
  granted-Found now deadline before (returned none, pool) h = waited (leb deadline now)
    where
      waited :
          (b : Bool)
          → Found before (if b then (raised runtime_error, pool) else (returned none, pool))
      waited true = h
      waited false = h
  granted-Found now deadline before (returned (some r), pool) h = λ id other. omega (
    arith,
    h id,
    count-update_at (is_held id) r.id (set_leased (now + setting.orphan_lease_ttl)) pool.runtimes
        (λ x same e. ground (arith, same, e, other)),
  )

  acquire-Found :
      (reaped_at now deadline : ℕ) (scale : Text) (pool : LeasePool W)
      → Found pool (acquire setting reaped_at now deadline scale pool)
  unfolding acquire
  acquire-Found reaped_at now deadline scale pool =
      let start : LeasePool W = ready setting reaped_at scale pool in
      granted-Found now deadline pool
        (find_available setting scale (found_in setting scale start) start)
        (λ id. omega (
          arith,
          find_available-held id scale (found_in setting scale start) start,
          setdefault-held id scale (reap_orphans setting reaped_at pool),
          (reap_orphans-Withdraws setting reaped_at pool).0 (is_held id) (held-IsWithdrawn id),
        ))

module _ {S O W : Type 0} (setting : Runtimes W) (runner : Runner S O W) where
  quarantined-pool :
      (requested : Bool) (out : Outcome (Unit {0}) × LeasePool W)
      → (quarantined_or_raise setting runner requested out).1 ≡ out.1
  unfolding quarantined_or_raise
  quarantined-pool requested (raised e, pool) = refl
  quarantined-pool true (returned _, pool) = refl
  quarantined-pool false (returned _, pool) = refl

  -- Giving a lease back ends it, and leaves no other lease out that was not.
  give_back-held :
      (before : LeasePool W) (requested broken : Bool) (r : WarmRuntime) (pool : LeasePool W)
      → IsHolding before (some r) pool
      → IsHolding before none (give_back setting runner requested broken r pool).1
  unfolding give_back release
  give_back-held before requested true r pool h id =
      subst (λ t. held id t ≤ held id before)
        (sym (quarantined-pool requested (quarantine setting r pool)))
        (elim (Bool-cases (r.id == id)) [
          | inl same ↦ omega (
            arith,
            subst (λ n. held n (quarantine setting r pool).1 ≡ 0) (id_of same)
                (quarantine-none setting (λ x. x.in_use) (λ x. refl) r pool),
          )
          | inr other ↦ omega (
            arith,
            h id other,
            (quarantine-Withdraws setting r pool).0 (is_held id) (held-IsWithdrawn id),
          )
        ])
    where
      id_of : (r.id == id) ≡ true → r.id ≡ id
      id_of e = ground (arith, e)
  give_back-held before requested false r pool h id = released (Bool-cases (r.id == id))
    where
      id_of : (r.id == id) ≡ true → r.id ≡ id
      id_of e = ground (arith, e)

      released :
          ((r.id == id) ≡ true) ⊎ ((r.id == id) ≡ false)
          → held id (release setting r pool) ≤ held id before
      released (inl same) = omega (
        arith,
        subst (λ n. held n (on_runtimes setting (update r.id set_released) pool) ≡ 0) (id_of same)
            (count-update_none (λ x. x.in_use) r.id set_released pool.runtimes (λ x. refl)),
      )
      released (inr other) = omega (
        arith,
        h id other,
        count-update (is_held id) r.id set_released pool.runtimes (λ x e. ground (arith, e)),
      )

  finish_leased-held :
      (before : LeasePool W) (broken : Bool) (backend : Backend W) (leased_ : Option WarmRuntime)
      → backend.leased ≡ leased_
      → IsHolding before leased_ backend.leases
      → let after : Backend W = (finish_leased setting runner broken backend leased_).1 in
        IsHolding before none after.leases × (after.leased ≡ none)
  unfolding finish_leased
  finish_leased-held before broken backend none e h = (h, e)
  finish_leased-held before broken backend (some r) e h =
      let run : Bool × W =
        finish_runner setting runner broken backend.has_delegate r.id backend.leases.world in
      (give_back-held before broken run.0 r (record backend.leases { world = run.1 }) h, refl)

  finish-held :
      (before : LeasePool W) (broken : Bool) (backend : Backend W)
      → IsHolding before backend.leased backend.leases
      → let after : Backend W = (finish setting runner broken backend).1 in
        IsHolding before none after.leases × (after.leased ≡ none)
  unfolding finish
  finish-held before broken backend h =
      finish_leased-held before broken backend backend.leased refl h

  -- What a backend with nothing but its own lease looks like.
  abbrev Accounts : LeasePool W → Backend W → Type 0
  Accounts before backend = IsHolding before backend.leased backend.leases

  world-IsHolding :
      (before : LeasePool W) (l : Option WarmRuntime) (pool : LeasePool W) (w : W)
      → IsHolding before l pool
      → IsHolding before l (record pool { world = w })
  world-IsHolding before none pool w h = h
  world-IsHolding before (some r) pool w h = h

  world-Accounts :
      (before : LeasePool W) (backend : Backend W) (w : W)
      → Accounts before backend
      → Accounts before (put_world setting runner backend w)
  world-Accounts before backend w h = world-IsHolding before backend.leased backend.leases w h

  baseline_failed-Accounts :
      (before : LeasePool W) (e : Exn) (out : Outcome (Unit {0}) × Backend W)
      → Accounts before out.1
      → Accounts before (baseline_failed setting runner e out).1
  unfolding baseline_failed
  baseline_failed-Accounts before e (raised f, backend) h = h
  baseline_failed-Accounts before e (returned _, backend) h = h

  failed-Accounts :
      (before : LeasePool W) (e : Exn) (backend : Backend W)
      → Accounts before backend
      → Accounts before (failed setting runner e backend).1
  unfolding failed
  failed-Accounts before e backend h = either (is_baseline_error e)
    where
      either :
          (b : Bool)
          → let out : Outcome (Option O) × Backend W =
              if b
              then baseline_failed setting runner e (finish setting runner false backend)
              else (raised e, backend) in
            Accounts before out.1
      either true =
          let f = finish-held before false backend h in
          baseline_failed-Accounts before e (finish setting runner false backend) (
            subst (λ l. IsHolding before l (finish setting runner false backend).1.leases) (sym f.1)
              f.0)
      either false = h

  delegated-Accounts :
      (before : LeasePool W) (backend : Backend W) (out : Outcome O × W)
      → Accounts before backend
      → Accounts before (delegated setting runner backend out).1
  unfolding delegated
  delegated-Accounts before backend (raised e, w) h =
      failed-Accounts before e (put_world setting runner backend w)
        (world-Accounts before backend w h)
  delegated-Accounts before backend (returned o, w) h = world-Accounts before backend w h

  brought_up-Accounts :
      (before : LeasePool W) (scenario : S) (id : ℕ) (backend : Backend W)
      (out : Outcome (Unit {0}) × W)
      → Accounts before backend
      → Accounts before (brought_up setting runner scenario id backend out).1
  unfolding brought_up
  brought_up-Accounts before scenario id backend (raised e, w) h =
      failed-Accounts before e (put_world setting runner backend w)
        (world-Accounts before backend w h)
  brought_up-Accounts before scenario id backend (returned _, w) h =
      delegated-Accounts before
        (record (put_world setting runner backend w) { has_delegate = true })
        (runner.prepare_delegate scenario id w) (world-Accounts before backend w h)

  topology_checked-Accounts :
      (before : LeasePool W) (scenario : S) (r : WarmRuntime) (backend : Backend W)
      (out : Outcome (Unit {0}) × W)
      → backend.leased ≡ some r
      → IsHolding before (some r) backend.leases
      → Accounts before (topology_checked setting runner scenario r backend out).1
  unfolding topology_checked give_back
  topology_checked-Accounts before scenario r backend (raised e, w) l h =
      give_back-held before false false r (put_world setting runner backend w).leases h
  topology_checked-Accounts before scenario r backend (returned _, w) l h =
      brought_up-Accounts before scenario r.id (put_world setting runner backend w)
        (bring_up setting runner scenario r.id w)
        (world-Accounts before backend w (subst (λ x. IsHolding before x backend.leases) (sym l) h))

  leased_or_wait-Accounts :
      (before : LeasePool W) (scenario : S) (backend : Backend W)
      (out : Outcome (Option WarmRuntime) × LeasePool W)
      → backend.leased ≡ none
      → Found setting before out
      → Accounts before (leased_or_wait setting runner scenario backend out).1
  unfolding leased_or_wait
  leased_or_wait-Accounts before scenario backend (raised e, pool) l h =
      subst (λ x. IsHolding before x pool) (sym l) h
  leased_or_wait-Accounts before scenario backend (returned none, pool) l h =
      subst (λ x. IsHolding before x pool) (sym l) h
  leased_or_wait-Accounts before scenario backend (returned (some r), pool) l h =
      topology_checked-Accounts before scenario r
        (record backend { leases = pool; leased = some r })
        (runner.require_topology scenario r.id pool.world) refl h

  -- An episode leaks no lease: after prepare on a backend without a lease, whatever it returns or
  -- raises, and finish, broken or not, the backend has no lease, and of no runtime are more leases out
  -- than before.
  pub episode-returns :
      (reaped_at now deadline : ℕ) (scale : Text) (scenario : S) (broken : Bool)
      (backend : Backend W)
      → backend.leased ≡ none
      → let prepared : Backend W =
          (prepare setting runner reaped_at now deadline scale scenario backend).1 in
        let after : Backend W = (finish setting runner broken prepared).1 in
        ((id : ℕ) → held id after.leases ≤ held id backend.leases) × (after.leased ≡ none)
  unfolding prepare
  episode-returns reaped_at now deadline scale scenario broken backend l =
      finish-held backend.leases broken
        (prepare setting runner reaped_at now deadline scale scenario backend).1
        (leased_or_wait-Accounts backend.leases scenario backend
          (acquire setting reaped_at now deadline scale backend.leases) l
          (acquire-Found setting reaped_at now deadline scale backend.leases))
