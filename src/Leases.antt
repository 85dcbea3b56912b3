-- ===== src/Leases.antt =====
-- Warm runtimes and their exclusive leases: RuntimeLeasePool of
-- netopsbench/platform/simulator/runtime.py. Its lock makes each method, and each pass of acquire up to
-- the wait, one step.
pub mod Counting
pub mod Withdrawing
pub mod Soundness
pub mod Runs
pub mod Leasing
pub mod Reaping
pub mod Episode
pub mod Returning
use Prim.Native.Nat.{min, max}
use net_ops_bench.Prelude.{
  ℕ, ◌+◌, ◌-◌, ◌*◌, Bool, true, false, not, ◌&&◌, Option, none, some, List, [], ◌∷◌, ◌++◌, Text,
  codes, text_eq, any, keep, length, ltb, leb, ◌==◌, if◌then◌else◌, Dict, lookup, lookup_or, Exn,
  Outcome, returned, raised, Action,
}

-- WarmRuntime; `id` is the object's identity, and a clock reading is a number of microseconds.
pub record WarmRuntime : Type 0 where
  pub id : ℕ
  pub scale : Text
  pub in_use : Bool
  pub lease_deadline : ℕ
  pub quarantined : Bool

-- The runtimes behind the records: provisioning, stopping the traffic and tearing down act on a world
-- and may raise.
pub record Runtimes (W : Type 0) : Type 0 where
  pub max_active_runtimes : ℕ
  pub orphan_lease_ttl : ℕ
  pub provision : Text → W → Outcome (Unit {0}) × W
  pub stop_traffic : ℕ → W → Outcome (Unit {0}) × W
  pub teardown : ℕ → W → Outcome (Unit {0}) × W

-- `next_id` is the identity of the record that is made next.
pub record LeasePool (W : Type 0) : Type 0 where
  pub runtimes : Dict (List WarmRuntime)
  pub next_id : ℕ
  pub world : W

abbrev pub runtime_error : Exn
runtime_error = record { error_type = codes "RuntimeError"; message = codes "runtime lease" }

-- sum(1 for records in d.values() for record in records if p(record))
unfoldable pub count_in : (WarmRuntime → Bool) → List WarmRuntime → ℕ
count_in p [] = 0
count_in p (r ∷ rest) = (if p r then 1 else 0) + count_in p rest

unfoldable pub count_where : (WarmRuntime → Bool) → Dict (List WarmRuntime) → ℕ
unfolding count_in
count_where p [] = 0
count_where p ((scale, records) ∷ rest) = count_in p records + count_where p rest

-- _runtime_count
unfoldable pub runtime_count : Dict (List WarmRuntime) → ℕ
unfolding count_where
runtime_count d = count_where (λ _. true) d

-- [record for records in d.values() for record in records if p(record)]
unfoldable pub select : (WarmRuntime → Bool) → Dict (List WarmRuntime) → List WarmRuntime
select p [] = []
select p ((scale, records) ∷ rest) = keep p records ++ select p rest

-- The records of the scales that are wanted.
unfoldable pub selected : (Text → Bool) → Dict (List WarmRuntime) → List WarmRuntime
selected wanted [] = []
selected wanted ((scale, records) ∷ rest) =
    (if wanted scale then records else []) ++ selected wanted rest

-- Assignments to the fields of one record.
unfoldable pub update_in : ℕ → (WarmRuntime → WarmRuntime) → List WarmRuntime → List WarmRuntime
update_in id f [] = []
update_in id f (r ∷ rest) = (if r.id == id then f r else r) ∷ update_in id f rest

unfoldable pub update :
    ℕ → (WarmRuntime → WarmRuntime) → Dict (List WarmRuntime) → Dict (List WarmRuntime)
unfolding update_in
update id f [] = []
update id f ((scale, records) ∷ rest) = (scale, update_in id f records) ∷ update id f rest

-- records.remove(record)
unfoldable pub remove_in : ℕ → List WarmRuntime → List WarmRuntime
remove_in id [] = []
remove_in id (r ∷ rest) = let others = remove_in id rest in if r.id == id then rest else r ∷ others

-- _remove
unfoldable pub remove_record : Text → ℕ → Dict (List WarmRuntime) → Dict (List WarmRuntime)
unfolding remove_in
remove_record scale id [] = []
remove_record scale id ((key, records) ∷ rest) =
    let others = remove_record scale id rest in
    if text_eq key scale then (key, remove_in id records) ∷ rest else (key, records) ∷ others

-- self._runtimes.setdefault(scale, []), followed by an append to it
unfoldable pub setdefault_append :
    Text → List WarmRuntime → Dict (List WarmRuntime) → Dict (List WarmRuntime)
setdefault_append scale added [] = (scale, added) ∷ []
setdefault_append scale added ((key, records) ∷ rest) =
    let others = setdefault_append scale added rest in
    if text_eq key scale then (key, records ++ added) ∷ rest else (key, records) ∷ others

abbrev pub new_record : ℕ → Text → WarmRuntime
new_record id scale = record {
  id = id;
  scale = scale;
  in_use = false;
  lease_deadline = 0;
  quarantined = false;
}

abbrev pub set_quarantined : WarmRuntime → WarmRuntime
set_quarantined r = record r { quarantined = true; in_use = false; lease_deadline = 0 }

abbrev pub set_released : WarmRuntime → WarmRuntime
set_released r = record r { in_use = false; lease_deadline = 0 }

abbrev pub set_leased : ℕ → WarmRuntime → WarmRuntime
set_leased deadline r = record r { in_use = true; lease_deadline = deadline }

-- refresh, on the record it is called for
unfoldable pub set_refreshed : ℕ → WarmRuntime → WarmRuntime
set_refreshed deadline r =
    if r.in_use && not r.quarantined then record r { lease_deadline = deadline } else r

abbrev pub is_idle : WarmRuntime → Bool
is_idle r = not r.in_use && not r.quarantined

-- record.in_use and record.lease_deadline and now > record.lease_deadline
unfoldable pub is_stale : ℕ → WarmRuntime → Bool
is_stale now r = r.in_use && (not (r.lease_deadline == 0) && ltb r.lease_deadline now)

unfoldable pub first_idle : List WarmRuntime → Option WarmRuntime
first_idle [] = none
first_idle (r ∷ rest) = if is_idle r then some r else first_idle rest

module _ {W : Type 0} (setting : Runtimes W) where
  abbrev pub on_runtimes :
      (Dict (List WarmRuntime) → Dict (List WarmRuntime)) → LeasePool W → LeasePool W
  on_runtimes f pool = record pool { runtimes = f pool.runtimes }

  unfoldable pub torn_down :
      WarmRuntime → LeasePool W → Outcome (Unit {0}) × W → Outcome (Unit {0}) × LeasePool W
  unfolding remove_record
  torn_down r pool (raised e, w) = (raised e, record pool { world = w })
  torn_down r pool (returned _, w) =
      (returned tt, record pool { runtimes = remove_record r.scale r.id pool.runtimes; world = w })

  -- quarantine: a failure to stop the traffic is only logged.
  unfoldable pub quarantine : WarmRuntime → Action (LeasePool W) (Unit {0})
  unfolding torn_down update
  quarantine r pool =
      torn_down r (on_runtimes (update r.id set_quarantined) pool)
        (setting.teardown r.id (setting.stop_traffic r.id pool.world).1)

  unfoldable pub release : WarmRuntime → LeasePool W → LeasePool W
  unfolding update
  release r pool = on_runtimes (update r.id set_released) pool

  -- ttl = max(orphan_lease_ttl_seconds, min_seconds + 300)
  unfoldable pub refresh : ℕ → ℕ → WarmRuntime → LeasePool W → LeasePool W
  unfolding update set_refreshed
  refresh now min_time r pool =
      on_runtimes
        (update r.id
          (set_refreshed (now + max setting.orphan_lease_ttl (min_time + 300 * 1000000))))
        pool

  -- Quarantine each, whatever is raised.
  unfoldable pub quarantine_each : List WarmRuntime → LeasePool W → LeasePool W
  unfolding quarantine
  quarantine_each [] pool = pool
  quarantine_each (r ∷ rest) pool = quarantine_each rest (quarantine r pool).1

  unfoldable pub reap_orphans : ℕ → LeasePool W → LeasePool W
  unfolding quarantine_each select is_stale
  reap_orphans now pool = quarantine_each (select (is_stale now) pool.runtimes) pool

  unfoldable pub has_capacity : LeasePool W → Bool
  unfolding runtime_count
  has_capacity pool = ltb (runtime_count pool.runtimes) setting.max_active_runtimes

  unfoldable pub freed :
      (LeasePool W → LeasePool W) → Outcome (Unit {0}) × LeasePool W → LeasePool W
  unfolding has_capacity
  freed others (raised e, after) = others after
  freed others (returned _, after) = if has_capacity after then after else others after

  -- The loop of _make_capacity_for.
  unfoldable pub free_one : List WarmRuntime → LeasePool W → LeasePool W
  unfolding quarantine freed
  free_one [] pool = pool
  free_one (r ∷ rest) pool = freed (free_one rest) (quarantine r pool)

  -- The idle records of the other scales.
  unfoldable pub candidates : Text → Dict (List WarmRuntime) → List WarmRuntime
  candidates scale [] = []
  candidates scale ((key, records) ∷ rest) =
      (if text_eq key scale then [] else keep is_idle records) ++ candidates scale rest

  unfoldable pub make_capacity_for : Text → LeasePool W → LeasePool W
  unfolding free_one candidates has_capacity
  make_capacity_for scale pool =
      if has_capacity pool then pool else free_one (candidates scale pool.runtimes) pool

  -- self._runtimes.setdefault(scale, [])
  unfoldable pub setdefault : Text → LeasePool W → LeasePool W
  unfolding setdefault_append
  setdefault scale pool = on_runtimes (setdefault_append scale []) pool

  unfoldable pub provisioned :
      Text → LeasePool W → Outcome (Unit {0}) × W → Outcome (Option WarmRuntime) × LeasePool W
  unfolding setdefault_append
  provisioned scale pool (raised e, w) = (raised e, record pool { world = w })
  provisioned scale pool (returned _, w) = (
    returned (some (new_record pool.next_id scale)),
    record pool {
      runtimes = setdefault_append scale (new_record pool.next_id scale ∷ []) pool.runtimes;
      next_id = pool.next_id + 1;
      world = w;
    },
  )

  -- The record that a pass of acquire finds or makes.
  unfoldable pub find_available :
      Text → Option WarmRuntime → Action (LeasePool W) (Option WarmRuntime)
  unfolding make_capacity_for setdefault provisioned has_capacity
  find_available scale (some r) pool = (returned (some r), pool)
  find_available scale none pool =
      let room : LeasePool W = setdefault scale (make_capacity_for scale pool) in
      if has_capacity room
      then provisioned scale room (setting.provision scale room.world)
      else (returned none, room)

  -- The end of a pass: the lease, the time-out, or `none` for the wait.
  unfoldable pub granted :
      ℕ
      → ℕ
      → Outcome (Option WarmRuntime) × LeasePool W
      → Outcome (Option WarmRuntime) × LeasePool W
  unfolding update
  granted now deadline (raised e, pool) = (raised e, pool)
  granted now deadline (returned (some r), pool) = (
    returned (some r),
    on_runtimes (update r.id (set_leased (now + setting.orphan_lease_ttl))) pool,
  )
  granted now deadline (returned none, pool) =
      if leb deadline now then (raised runtime_error, pool) else (returned none, pool)

  -- One pass of the loop of acquire.
  unfoldable pub acquire : ℕ → ℕ → ℕ → Text → Action (LeasePool W) (Option WarmRuntime)
  unfolding granted find_available reap_orphans setdefault first_idle
  acquire reaped_at now deadline scale pool =
      let ready : LeasePool W = setdefault scale (reap_orphans reaped_at pool) in
      granted now deadline
        (find_available scale (first_idle (lookup_or [] (lookup scale ready.runtimes))) ready)

  unfoldable pub counted :
      (LeasePool W → ℕ × LeasePool W) → Outcome (Unit {0}) × LeasePool W → ℕ × LeasePool W
  counted others (returned _, pool) = others pool
  counted others (raised e, pool) = let rest = others pool in (rest.0 + 1, rest.1)

  -- The number of records whose quarantine raised, and the pool after all of them.
  unfoldable pub drain_each : List WarmRuntime → LeasePool W → ℕ × LeasePool W
  unfolding counted quarantine
  drain_each [] pool = (0, pool)
  drain_each (r ∷ rest) pool = counted (drain_each rest) (quarantine r pool)

  abbrev pub reported : ℕ × LeasePool W → Outcome (Unit {0}) × LeasePool W
  reported (failures, pool) =
      if failures == 0 then (returned tt, pool) else (raised runtime_error, pool)

  -- drain, of the scales that are wanted: all of them where the code's argument is None
  unfoldable pub drain : (Text → Bool) → Action (LeasePool W) (Unit {0})
  unfolding drain_each selected
  drain wanted pool = reported (drain_each (selected wanted pool.runtimes) pool)

-- The deadlines of the leases that end after `now`.
unfoldable pub active_deadlines : ℕ → List WarmRuntime → List ℕ
active_deadlines now [] = []
active_deadlines now (r ∷ rest) =
    let others = active_deadlines now rest in
    if r.in_use && ltb now r.lease_deadline then r.lease_deadline ∷ others else others

unfoldable pub least : ℕ → List ℕ → ℕ
least n [] = n
least n (m ∷ rest) = least (min n m) rest

unfoldable pub wait_for : ℕ → ℕ → List ℕ → ℕ
unfolding least
wait_for remaining now [] = remaining
wait_for remaining now (d ∷ rest) = min remaining (max 10000 (least d rest - now))

unfoldable pub next_wait_timeout : ℕ → ℕ → Dict (List WarmRuntime) → ℕ
unfolding wait_for active_deadlines select
next_wait_timeout remaining now d =
    wait_for remaining now (active_deadlines now (select (λ _. true) d))
