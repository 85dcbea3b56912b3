-- ===== src/Leases/Runs.antt =====
-- Runs of a lease pool: the calls of its clients, in any order (RuntimeLeasePool of
-- netopsbench/platform/simulator/runtime.py).
use net_ops_bench.Prelude.{
  ℕ, ◌+◌, ◌≤◌, ◌<◌, ◌≡◌, refl, ap, subst, Bool, true, false, ◌&&◌, Option, none, some, [], Text,
  leb, ◌==◌, arith, if◌then◌else◌, Outcome, returned, raised,
}
use net_ops_bench.Leases.{
  WarmRuntime, new_record, Runtimes, LeasePool, runtime_error, count_in, count_where, update,
  set_released, set_leased, set_refreshed, is_idle, on_runtimes, quarantine, release, refresh,
  reap_orphans, has_capacity, make_capacity_for, setdefault, provisioned, find_available, granted,
  acquire, drain,
}
use net_ops_bench.Leases.Counting.{
  count-add, count-update, count-setdefault_append, count_where_mono,
}
use net_ops_bench.Leases.Withdrawing.{
  Withdraws, quarantine-Withdraws, make_capacity_for-Withdraws, drain-Withdraws,
}
use net_ops_bench.Leases.Soundness.{
  is_usable, IsSound, Withdraws-IsSound, release-IsSound, refresh-IsSound, drain-IsSound,
  acquire-IsSound, reap_orphans-Withdraws, IsAvailable, ready, found_in, found_in-IsAvailable,
}

module _ {W : Type 0} (setting : Runtimes W) where
  -- One call by any of the clients of the pool, or a pass of a waiting one.
  pub data Step (pool : LeasePool W) : LeasePool W → Type 0 where
    acquires :
        (reaped_at now deadline : ℕ) (scale : Text)
        → Step pool (acquire setting reaped_at now deadline scale pool).1
    releases : (r : WarmRuntime) → Step pool (release setting r pool)
    refreshes :
        (now min_time : ℕ) (r : WarmRuntime) → Step pool (refresh setting now min_time r pool)
    quarantines : (r : WarmRuntime) → Step pool (quarantine setting r pool).1
    reaps : (now : ℕ) → Step pool (reap_orphans setting now pool)
    drains : (wanted : Text → Bool) → Step pool (drain setting wanted pool).1

  pub data Reach (pool : LeasePool W) : LeasePool W → Type 0 where
    stay : Reach pool pool
    after_step :
        {middle after : LeasePool W} → Reach pool middle → Step middle after → Reach pool after

  Step-IsSound :
      {before after : LeasePool W}
      → Step before after
      → IsSound setting before
      → IsSound setting after
  Step-IsSound {before} (acquires reaped_at now deadline scale) h =
      acquire-IsSound setting reaped_at now deadline scale before h
  Step-IsSound {before} (releases r) h = release-IsSound setting r before h
  Step-IsSound {before} (refreshes now min_time r) h =
      refresh-IsSound setting now min_time r before h
  Step-IsSound {before} (quarantines r) h =
      Withdraws-IsSound setting before (quarantine setting r before).1
        (quarantine-Withdraws setting r before) h
  Step-IsSound {before} (reaps now) h =
      Withdraws-IsSound setting before (reap_orphans setting now before)
        (reap_orphans-Withdraws setting now before) h
  Step-IsSound {before} (drains wanted) h = drain-IsSound setting wanted before h

  -- From a sound pool, such as an empty one, every sequence of calls leads to a sound pool: never more
  -- runtimes than the capacity, no two records of one identity, all of them made from the counter, and
  -- no record both quarantined and in use.
  pub Reach-IsSound :
      {before after : LeasePool W}
      → IsSound setting before
      → Reach before after
      → IsSound setting after
  Reach-IsSound h stay = h
  Reach-IsSound h (after_step run step) = Step-IsSound step (Reach-IsSound h run)

  -- The record cannot be leased any more.
  abbrev pub IsRevoked : ℕ → LeasePool W → Type 0
  IsRevoked id pool = (id < pool.next_id) × (count_where (is_usable id) pool.runtimes ≤ 0)

  Withdraws-IsRevoked :
      (id : ℕ) (before after : LeasePool W)
      → Withdraws setting before after
      → IsRevoked id before
      → IsRevoked id after
  Withdraws-IsRevoked id before after w h =
      (omega (arith, w.1, h.0), omega (arith, w.0 (is_usable id) (λ r e. ground (arith, e)), h.1))

  update-IsRevoked :
      (id other : ℕ) (f : WarmRuntime → WarmRuntime) (pool : LeasePool W)
      → ((r : WarmRuntime) → is_usable id (f r) ≡ true → is_usable id r ≡ true)
      → IsRevoked id pool
      → IsRevoked id (on_runtimes setting (update other f) pool)
  update-IsRevoked id other f pool same h =
      (h.0, omega (arith, count-update (is_usable id) other f pool.runtimes same, h.1))

  -- The record is not the one that was found.
  abbrev pub IsOther : ℕ → Outcome (Option WarmRuntime) → Type 0
  IsOther id (returned (some r)) = (r.id == id) ≡ false
  IsOther id _ = Unit

  setdefault-IsRevoked :
      (id : ℕ) (scale : Text) (pool : LeasePool W)
      → IsRevoked id pool
      → IsRevoked id (setdefault setting scale pool)
  unfolding setdefault count_in
  setdefault-IsRevoked id scale pool h =
      (h.0, omega (arith, count-setdefault_append (is_usable id) scale [] pool.runtimes, h.1))

  provisioned-IsRevoked :
      (id : ℕ) (scale : Text) (pool : LeasePool W) (out : Outcome (Unit {0}) × W)
      → IsRevoked id pool
      → IsRevoked id (provisioned setting scale pool out).1
        × IsOther id (provisioned setting scale pool out).0
  unfolding provisioned
  provisioned-IsRevoked id scale pool (raised e, w) h = (h, tt)
  provisioned-IsRevoked id scale pool (returned _, w) h = (
    (
      omega (arith, h.0),
      ground (
        arith,
        h.0,
        h.1,
        count-add (is_usable id) scale (new_record pool.next_id scale) pool.runtimes,
      ),
    ),
    ground (arith, h.0),
  )

  found-IsOther :
      (id : ℕ) (pool : LeasePool W) (r : WarmRuntime)
      → 1 ≤ count_where (λ x. (x.id == r.id) && is_idle x) pool.runtimes
      → IsRevoked id pool
      → (r.id == id) ≡ false
  found-IsOther id pool r a h = ground (
    arith,
    a,
    h.1,
    count_where_mono (λ x. (x.id == r.id) && is_idle x) (is_usable r.id) pool.runtimes
        (λ x e. ground (arith, e)),
    ap (λ n. count_where (is_usable n) pool.runtimes),
  )

  find_available-IsRevoked :
      (id : ℕ) (scale : Text) (found : Option WarmRuntime) (pool : LeasePool W)
      → IsAvailable setting pool (returned found)
      → IsRevoked id pool
      → IsRevoked id (find_available setting scale found pool).1
        × IsOther id (find_available setting scale found pool).0
  unfolding find_available
  find_available-IsRevoked id scale (some r) pool a h = (h, found-IsOther id pool r a h)
  find_available-IsRevoked id scale none pool a h = with_room (has_capacity setting room)
    where
      room : LeasePool W
      room = setdefault setting scale (make_capacity_for setting scale pool)

      kept : IsRevoked id room
      kept = setdefault-IsRevoked id scale (make_capacity_for setting scale pool) (
          Withdraws-IsRevoked id pool (make_capacity_for setting scale pool)
            (make_capacity_for-Withdraws setting scale pool) h)

      with_room :
          (b : Bool)
          → let out : Outcome (Option WarmRuntime) × LeasePool W =
              if b
              then provisioned setting scale room (setting.provision scale room.world)
              else (returned none, room) in
            IsRevoked id out.1 × IsOther id out.0
      with_room true = provisioned-IsRevoked id scale room (setting.provision scale room.world) kept
      with_room false = (kept, tt)

  granted-IsRevoked :
      (id now deadline : ℕ) (out : Outcome (Option WarmRuntime) × LeasePool W)
      → IsRevoked id out.1
      → IsOther id out.0
      → IsRevoked id (granted setting now deadline out).1
        × IsOther id (granted setting now deadline out).0
  unfolding granted
  granted-IsRevoked id now deadline (raised e, pool) h o = (h, tt)
  granted-IsRevoked id now deadline (returned none, pool) h o = waited (leb deadline now)
    where
      waited :
          (b : Bool)
          → let out : Outcome (Option WarmRuntime) × LeasePool W =
              if b then (raised runtime_error, pool) else (returned none, pool) in
            IsRevoked id out.1 × IsOther id out.0
      waited true = (h, tt)
      waited false = (h, tt)
  granted-IsRevoked id now deadline (returned (some r), pool) h o =
      (update-IsRevoked id r.id (set_leased (now + setting.orphan_lease_ttl)) pool (λ x e. e) h, o)

  acquire-IsRevoked :
      (id reaped_at now deadline : ℕ) (scale : Text) (pool : LeasePool W)
      → IsRevoked id pool
      → IsRevoked id (acquire setting reaped_at now deadline scale pool).1
        × IsOther id (acquire setting reaped_at now deadline scale pool).0
  unfolding acquire
  acquire-IsRevoked id reaped_at now deadline scale pool h =
      let start : LeasePool W = ready setting reaped_at scale pool in
      let found =
        find_available-IsRevoked id scale (found_in setting scale start) start
          (found_in-IsAvailable setting scale start (found_in setting scale start) refl)
          (setdefault-IsRevoked id scale (reap_orphans setting reaped_at pool) (
            Withdraws-IsRevoked id pool (reap_orphans setting reaped_at pool)
              (reap_orphans-Withdraws setting reaped_at pool) h)) in
      granted-IsRevoked id now deadline
        (find_available setting scale (found_in setting scale start) start) found.0 found.1

  drain-IsRevoked :
      (id : ℕ) (wanted : Text → Bool) (pool : LeasePool W)
      → IsRevoked id pool
      → IsRevoked id (drain setting wanted pool).1
  drain-IsRevoked id wanted pool h =
      Withdraws-IsRevoked id pool (drain setting wanted pool).1
        (drain-Withdraws setting wanted pool) h

  Step-IsRevoked :
      (id : ℕ) {before after : LeasePool W}
      → Step before after
      → IsRevoked id before
      → IsRevoked id after
  unfolding release refresh set_refreshed
  Step-IsRevoked id {before} (acquires reaped_at now deadline scale) h =
      (acquire-IsRevoked id reaped_at now deadline scale before h).0
  Step-IsRevoked id {before} (releases r) h =
      update-IsRevoked id r.id set_released before (λ x e. e) h
  Step-IsRevoked id {before} (refreshes now min_time r) h =
      update-IsRevoked id r.id _ before (λ x e. ground (arith, e)) h
  Step-IsRevoked id {before} (quarantines r) h =
      Withdraws-IsRevoked id before (quarantine setting r before).1
        (quarantine-Withdraws setting r before) h
  Step-IsRevoked id {before} (reaps now) h =
      Withdraws-IsRevoked id before (reap_orphans setting now before)
        (reap_orphans-Withdraws setting now before) h
  Step-IsRevoked id {before} (drains wanted) h = drain-IsRevoked id wanted before h

  Reach-IsRevoked :
      (id : ℕ) {before after : LeasePool W}
      → IsRevoked id before
      → Reach before after
      → IsRevoked id after
  Reach-IsRevoked id h stay = h
  Reach-IsRevoked id h (after_step run step) = Step-IsRevoked id step (Reach-IsRevoked id h run)

  -- A runtime that has been made and is quarantined, or gone, is never leased again: whatever calls
  -- follow, a later acquire that returns a runtime returns another one.
  pub Reach-never_again :
      (id : ℕ) (before after : LeasePool W)
      → IsRevoked id before
      → Reach before after
      → (reaped_at now deadline : ℕ) (scale : Text) (r : WarmRuntime)
      → (acquire setting reaped_at now deadline scale after).0 ≡ returned (some r)
      → (r.id == id) ≡ false
  Reach-never_again id before after h run reaped_at now deadline scale r e =
      subst (IsOther id) e
        (acquire-IsRevoked id reaped_at now deadline scale after (Reach-IsRevoked id h run)).1
