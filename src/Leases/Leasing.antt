-- ===== src/Leases/Leasing.antt =====
-- What acquire grants and when it waits (RuntimeLeasePool.acquire of
-- netopsbench/platform/simulator/runtime.py).
use net_ops_bench.Prelude.{
  ℕ, ◌+◌, ◌≤◌, ◌≡◌, refl, subst, ◌∙◌, Bool, true, false, ◌&&◌, Option, none, some, [], Text, leb,
  ◌==◌, arith, if◌then◌else◌, ◌⊎◌, inl, inr, Outcome, returned, raised,
}
use net_ops_bench.Leases.{
  WarmRuntime, new_record, Runtimes, LeasePool, runtime_error, count_in, count_where, is_idle,
  reap_orphans, has_capacity, make_capacity_for, setdefault, provisioned, find_available, granted,
  acquire,
}
use net_ops_bench.Leases.Counting.{
  count-setdefault_append, count_where_mono, count_where_split, count-leased,
}
use net_ops_bench.Leases.Withdrawing.{make_capacity_for-Withdraws}
use net_ops_bench.Leases.Soundness.{
  has_id, is_held, is_usable, IsSound, acquire-IsSound, reap_orphans-Withdraws, IsAvailable, ready,
  ready-IsSound, find_available-IsSound, found_in, found_in-IsAvailable,
}

module _ {W : Type 0} (setting : Runtimes W) where
  -- What was found was not leased out, and is free to be so.
  abbrev IsFree : LeasePool W → Outcome (Option WarmRuntime) → Type 0
  IsFree pool (returned (some r)) =
      (count_where (is_held r.id) pool.runtimes ≤ 0)
      × ((1 ≤ count_where (is_usable r.id) pool.runtimes) ⊎ (r.id ≡ pool.next_id))
  IsFree pool _ = Unit

  idle-IsFree :
      (pool : LeasePool W) (r : WarmRuntime)
      → IsSound setting pool
      → 1 ≤ count_where (λ x. (x.id == r.id) && is_idle x) pool.runtimes
      → IsFree pool (returned (some r))
  idle-IsFree pool r h a = (
    omega (
      arith,
      a,
      h.distinct r.id,
      count_where_split (is_held r.id) (λ x. (x.id == r.id) && is_idle x) (has_id r.id)
          (λ x. ground arith) pool.runtimes,
    ),
    inl (
        omega (
          arith,
          a,
          count_where_mono (λ x. (x.id == r.id) && is_idle x) (is_usable r.id) pool.runtimes
              (λ x e. ground (arith, e)),
        )),
  )

  new-IsFree :
      (pool : LeasePool W) (id : ℕ) (scale : Text)
      → IsSound setting pool
      → id ≡ pool.next_id
      → IsFree pool (returned (some (new_record id scale)))
  new-IsFree pool id scale h e = (
    omega (
      arith,
      h.taken,
      count_where_mono (is_held id) (λ r. leb pool.next_id r.id) pool.runtimes
          (λ r k. ground (arith, k, e)),
    ),
    inr e,
  )

  provisioned-IsFree :
      (pool room : LeasePool W) (scale : Text) (out : Outcome (Unit {0}) × W)
      → IsSound setting pool
      → room.next_id ≡ pool.next_id
      → IsFree pool (provisioned setting scale room out).0
  unfolding provisioned
  provisioned-IsFree pool room scale (raised e, w) h same = tt
  provisioned-IsFree pool room scale (returned _, w) h same =
      new-IsFree pool room.next_id scale h same

  setdefault-idle :
      (id : ℕ) (scale : Text) (pool : LeasePool W)
      → count_where (λ x. (x.id == id) && is_idle x) (setdefault setting scale pool).runtimes
        ≡ count_where (λ x. (x.id == id) && is_idle x) pool.runtimes
  unfolding setdefault count_in
  setdefault-idle id scale pool =
      omega (arith, count-setdefault_append (λ x. (x.id == id) && is_idle x) scale [] pool.runtimes)

  ready-idle :
      (id reaped_at : ℕ) (scale : Text) (pool : LeasePool W)
      → count_where (λ x. (x.id == id) && is_idle x) (ready setting reaped_at scale pool).runtimes
        ≤ count_where (λ x. (x.id == id) && is_idle x) pool.runtimes
  ready-idle id reaped_at scale pool = omega (
    arith,
    setdefault-idle id scale (reap_orphans setting reaped_at pool),
    (reap_orphans-Withdraws setting reaped_at pool).0 (λ x. (x.id == id) && is_idle x)
        (λ r e. ground (arith, e)),
  )

  setdefault-next_id :
      (scale : Text) (pool : LeasePool W) → (setdefault setting scale pool).next_id ≡ pool.next_id
  unfolding setdefault
  setdefault-next_id scale pool = refl

  find_available-IsFree :
      (reaped_at : ℕ) (scale : Text) (pool : LeasePool W) (found : Option WarmRuntime)
      → IsSound setting pool
      → IsAvailable setting (ready setting reaped_at scale pool) (returned found)
      → IsFree pool (find_available setting scale found (ready setting reaped_at scale pool)).0
  unfolding find_available
  find_available-IsFree reaped_at scale pool (some r) h a =
      idle-IsFree pool r h (omega (arith, a, ready-idle r.id reaped_at scale pool))
  find_available-IsFree reaped_at scale pool none h a = with_room (has_capacity setting room)
    where
      start : LeasePool W
      start = ready setting reaped_at scale pool

      room : LeasePool W
      room = setdefault setting scale (make_capacity_for setting scale start)

      same : room.next_id ≡ pool.next_id
      same =
          setdefault-next_id scale (make_capacity_for setting scale start)
          ∙ ((make_capacity_for-Withdraws setting scale start).1
              ∙ (setdefault-next_id scale (reap_orphans setting reaped_at pool)
                  ∙ (reap_orphans-Withdraws setting reaped_at pool).1))

      with_room :
          (b : Bool)
          → let out : Outcome (Option WarmRuntime) × LeasePool W =
              if b
              then provisioned setting scale room (setting.provision scale room.world)
              else (returned none, room) in
            IsFree pool out.0
      with_room true =
          provisioned-IsFree pool room scale (setting.provision scale room.world) h same
      with_room false = tt

  -- A lease that was free, and is out after it.
  abbrev IsGranted : LeasePool W → Outcome (Option WarmRuntime) × LeasePool W → Type 0
  IsGranted pool (returned (some r), after) =
      IsFree pool (returned (some r)) × (1 ≤ count_where (is_held r.id) after.runtimes)
  IsGranted pool _ = Unit

  granted-IsGranted :
      (now deadline : ℕ) (pool : LeasePool W) (out : Outcome (Option WarmRuntime) × LeasePool W)
      → IsFree pool out.0
      → IsAvailable setting out.1 out.0
      → IsGranted pool (granted setting now deadline out)
  unfolding granted
  granted-IsGranted now deadline pool (raised e, after) h a = tt
  granted-IsGranted now deadline pool (returned none, after) h a = waited (leb deadline now)
    where
      waited :
          (b : Bool)
          → IsGranted pool (if b then (raised runtime_error, after) else (returned none, after))
      waited true = tt
      waited false = tt
  granted-IsGranted now deadline pool (returned (some r), after) h a = (
    h,
    omega (
      arith,
      a,
      count-leased r.id (now + setting.orphan_lease_ttl) after.runtimes,
      count_where_mono (λ x. (x.id == r.id) && is_idle x) (has_id r.id) after.runtimes
          (λ x e. ground (arith, e)),
    ),
  )

  -- In a sound pool, a pass of acquire that returns a runtime returns one whose lease was not out
  -- before the pass, and is out after it, once; it was made by the pass, or there is a record of it
  -- that was not quarantined.
  pub acquire-exclusive :
      (reaped_at now deadline : ℕ) (scale : Text) (pool after : LeasePool W) (r : WarmRuntime)
      → IsSound setting pool
      → acquire setting reaped_at now deadline scale pool ≡ (returned (some r), after)
      → (count_where (is_held r.id) pool.runtimes ≡ 0)
        × ((1 ≤ count_where (is_usable r.id) pool.runtimes) ⊎ (r.id ≡ pool.next_id))
        × (count_where (is_held r.id) after.runtimes ≡ 1)
  unfolding acquire
  acquire-exclusive reaped_at now deadline scale pool after r h e =
      let start : LeasePool W = ready setting reaped_at scale pool in
      let a = found_in-IsAvailable setting scale start (found_in setting scale start) refl in
      let g : IsGranted pool (returned (some r), after) = subst (IsGranted pool) e (
        granted-IsGranted now deadline pool
          (find_available setting scale (found_in setting scale start) start)
          (find_available-IsFree reaped_at scale pool (found_in setting scale start) h a)
          (find_available-IsSound setting scale (found_in setting scale start) start
            (ready-IsSound setting reaped_at scale pool h) a).1) in
      let sound : IsSound setting after =
        subst (λ out. IsSound setting out.1) e
          (acquire-IsSound setting reaped_at now deadline scale pool h) in
      (
        omega (arith, g.0.0),
        g.0.1,
        omega (
          arith,
          g.1,
          sound.distinct r.id,
          count_where_mono (is_held r.id) (has_id r.id) after.runtimes (λ x k. ground (arith, k)),
        ),
      )
