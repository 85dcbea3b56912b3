-- ===== src/Leases/Soundness.antt =====
-- Every operation of a lease pool keeps it within its capacity, its records distinct and its
-- quarantined records unused (netopsbench/platform/simulator/runtime.py).
use net_ops_bench.Prelude.{
  ℕ, ◌+◌, ◌≤◌, ◌≡◌, refl, sym, ap, subst, ◌∙◌, Bool, true, false, not, ◌&&◌, Option, none, some, [],
  ◌∷◌, Text, leb, ◌==◌, arith, if◌then◌else◌, lookup, lookup_or, Outcome, returned, raised,
}
use net_ops_bench.Leases.{
  WarmRuntime, new_record, Runtimes, LeasePool, runtime_error, count_in, count_where, runtime_count,
  select, update, setdefault_append, set_released, set_leased, set_refreshed, is_idle, is_stale,
  first_idle, on_runtimes, release, refresh, reap_orphans, has_capacity, make_capacity_for,
  setdefault, provisioned, find_available, granted, acquire, drain,
}
use net_ops_bench.Leases.Counting.{
  count-add, count-update, count-setdefault_append, count_in-lookup, count_where_mono,
  count_where_split, first_idle-counts, count-update_one,
}
use net_ops_bench.Leases.Withdrawing.{
  Withdraws, quarantine_each-Withdraws, make_capacity_for-Withdraws, drain-Withdraws,
}

abbrev pub has_id : ℕ → WarmRuntime → Bool
has_id id r = r.id == id

-- The record's lease is out.
abbrev pub is_held : ℕ → WarmRuntime → Bool
is_held id r = (r.id == id) && r.in_use

-- The record may be leased now or later.
abbrev pub is_usable : ℕ → WarmRuntime → Bool
is_usable id r = (r.id == id) && not r.quarantined

abbrev pub is_misused : WarmRuntime → Bool
is_misused r = r.in_use && r.quarantined

-- Within the capacity, all identities taken from the counter, each once, and nothing both quarantined
-- and in use.
pub record IsSound {W : Type 0} (setting : Runtimes W) (pool : LeasePool W) : Type 0 where
  pub bounded : runtime_count pool.runtimes ≤ setting.max_active_runtimes
  pub taken : count_where (λ r. leb pool.next_id r.id) pool.runtimes ≤ 0
  pub distinct : (id : ℕ) → count_where (has_id id) pool.runtimes ≤ 1
  pub apart : count_where is_misused pool.runtimes ≤ 0

module _ {W : Type 0} (setting : Runtimes W) where
  pub Withdraws-IsSound :
      (before after : LeasePool W)
      → Withdraws setting before after
      → IsSound setting before
      → IsSound setting after
  unfolding runtime_count
  Withdraws-IsSound before after w h = record {
    bounded = omega (arith, w.0 (λ _. true) (λ r e. refl), h.bounded);
    taken =
        subst (λ n. count_where (λ r. leb n r.id) after.runtimes ≤ 0) (sym w.1)
          (omega (arith, w.0 (λ r. leb before.next_id r.id) (λ r e. e), h.taken));
    distinct = λ id. omega (arith, w.0 (has_id id) (λ r e. e), h.distinct id);
    apart = omega (arith, w.0 is_misused (λ r e. ground (arith, e)), h.apart);
  }

  -- An update that leaves the identity and puts nothing in use.
  update-IsSound :
      (id : ℕ) (f : WarmRuntime → WarmRuntime) (pool : LeasePool W)
      → ((r : WarmRuntime) → (f r).id ≡ r.id)
      → ((r : WarmRuntime) → is_misused (f r) ≡ true → is_misused r ≡ true)
      → IsSound setting pool
      → IsSound setting (on_runtimes setting (update id f) pool)
  unfolding runtime_count
  update-IsSound id f pool same unused h = record {
    bounded = omega (arith, count-update (λ _. true) id f pool.runtimes (λ r e. refl), h.bounded);
    taken = omega (
      arith,
      count-update (λ r. leb pool.next_id r.id) id f pool.runtimes
          (λ r e. sym (ap (leb pool.next_id) (same r)) ∙ e),
      h.taken,
    );
    distinct = λ other. omega (
      arith,
      count-update (has_id other) id f pool.runtimes
          (λ r e. sym (ap (λ n. n == other) (same r)) ∙ e),
      h.distinct other,
    );
    apart = omega (arith, count-update is_misused id f pool.runtimes unused, h.apart);
  }

  pub release-IsSound :
      (r : WarmRuntime) (pool : LeasePool W)
      → IsSound setting pool
      → IsSound setting (release setting r pool)
  unfolding release
  release-IsSound r pool h =
      update-IsSound r.id set_released pool (λ x. refl) (λ x e. ground (arith, e)) h

  pub refresh-IsSound :
      (now min_time : ℕ) (r : WarmRuntime) (pool : LeasePool W)
      → IsSound setting pool
      → IsSound setting (refresh setting now min_time r pool)
  unfolding refresh set_refreshed
  refresh-IsSound now min_time r pool h =
      update-IsSound r.id _ pool (λ x. ground arith) (λ x e. ground (arith, e)) h

  setdefault-IsSound :
      (scale : Text) (pool : LeasePool W)
      → IsSound setting pool
      → IsSound setting (setdefault setting scale pool)
  unfolding setdefault runtime_count count_in
  setdefault-IsSound scale pool h = record {
    bounded = omega (arith, count-setdefault_append (λ _. true) scale [] pool.runtimes, h.bounded);
    taken = omega (
      arith,
      count-setdefault_append (λ r. leb pool.next_id r.id) scale [] pool.runtimes,
      h.taken,
    );
    distinct = λ id.
        omega (arith, count-setdefault_append (has_id id) scale [] pool.runtimes, h.distinct id);
    apart = omega (arith, count-setdefault_append is_misused scale [] pool.runtimes, h.apart);
  }

  -- A record that is found is idle in the pool, and the only one of its identity.
  abbrev pub IsAvailable : LeasePool W → Outcome (Option WarmRuntime) → Type 0
  IsAvailable pool (returned (some r)) =
      1 ≤ count_where (λ x. (x.id == r.id) && is_idle x) pool.runtimes
  IsAvailable pool _ = Unit

  provisioned-IsSound :
      (scale : Text) (pool : LeasePool W) (out : Outcome (Unit {0}) × W)
      → IsSound setting pool
      → has_capacity setting pool ≡ true
      → let found : Outcome (Option WarmRuntime) × LeasePool W =
          provisioned setting scale pool out in
        IsSound setting found.1 × IsAvailable found.1 found.0
  unfolding provisioned runtime_count count_in has_capacity
  provisioned-IsSound scale pool (raised e, w) h room =
      (record { bounded = h.bounded; taken = h.taken; distinct = h.distinct; apart = h.apart }, tt)
  provisioned-IsSound scale pool (returned _, w) h room =
      let r : WarmRuntime = new_record pool.next_id scale in
      (
        record {
          bounded = ground (arith, room, count-add (λ _. true) scale r pool.runtimes);
          taken = ground (
            arith,
            h.taken,
            count-add (λ x. leb (pool.next_id + 1) x.id) scale r pool.runtimes,
            count_where_mono (λ x. leb (pool.next_id + 1) x.id) (λ x. leb pool.next_id x.id)
                pool.runtimes (λ x e. ground (arith, e)),
          );
          distinct = λ id. one_more id;
          apart = omega (arith, h.apart, count-add is_misused scale r pool.runtimes);
        },
        ground (arith, count-add (λ x. (x.id == pool.next_id) && is_idle x) scale r pool.runtimes),
      )
    where
      one_more :
          (id : ℕ)
          → count_where
              (has_id id)
              (setdefault_append scale (new_record pool.next_id scale ∷ []) pool.runtimes)
            ≤ 1
      one_more id = ground (
        arith,
        h.distinct id,
        h.taken,
        count-add (has_id id) scale (new_record pool.next_id scale) pool.runtimes,
        count_where_mono (has_id pool.next_id) (λ x. leb pool.next_id x.id) pool.runtimes
            (λ x e. ground (arith, e)),
      )

  pub find_available-IsSound :
      (scale : Text) (found : Option WarmRuntime) (pool : LeasePool W)
      → IsSound setting pool
      → IsAvailable pool (returned found)
      → let out : Outcome (Option WarmRuntime) × LeasePool W =
          find_available setting scale found pool in
        IsSound setting out.1 × IsAvailable out.1 out.0
  unfolding find_available
  find_available-IsSound scale (some r) pool h a = (h, a)
  find_available-IsSound scale none pool h a = with_room (has_capacity setting room) refl
    where
      room : LeasePool W
      room = setdefault setting scale (make_capacity_for setting scale pool)

      kept : IsSound setting room
      kept = setdefault-IsSound scale (make_capacity_for setting scale pool) (
          Withdraws-IsSound pool (make_capacity_for setting scale pool)
            (make_capacity_for-Withdraws setting scale pool) h)

      with_room :
          (b : Bool)
          → has_capacity setting room ≡ b
          → let out : Outcome (Option WarmRuntime) × LeasePool W =
              if b
              then provisioned setting scale room (setting.provision scale room.world)
              else (returned none, room) in
            IsSound setting out.1 × IsAvailable out.1 out.0
      with_room true e = provisioned-IsSound scale room (setting.provision scale room.world) kept e
      with_room false e = (kept, tt)

  -- Leasing the one idle record of an identity.
  granted-IsSound :
      (now deadline : ℕ) (out : Outcome (Option WarmRuntime) × LeasePool W)
      → IsSound setting out.1
      → IsAvailable out.1 out.0
      → IsSound setting (granted setting now deadline out).1
  unfolding granted runtime_count
  granted-IsSound now deadline (raised e, pool) h a = h
  granted-IsSound now deadline (returned none, pool) h a = waited (leb deadline now)
    where
      waited :
          (b : Bool)
          → let out : Outcome (Option WarmRuntime) × LeasePool W =
              if b then (raised runtime_error, pool) else (returned none, pool) in
            IsSound setting out.1
      waited true = h
      waited false = h
  granted-IsSound now deadline (returned (some r), pool) h a =
      let leased : WarmRuntime → WarmRuntime = set_leased (now + setting.orphan_lease_ttl) in
      record {
        bounded =
            omega
              (arith, count-update (λ _. true) r.id leased pool.runtimes (λ x e. refl), h.bounded);
        taken = omega (
          arith,
          h.taken,
          count-update (λ x. leb pool.next_id x.id) r.id leased pool.runtimes (λ x e. e),
        );
        distinct = λ id.
            omega
              (arith, h.distinct id, count-update (has_id id) r.id leased pool.runtimes (λ x e. e));
        apart = omega (
          arith,
          h.apart,
          a,
          h.distinct r.id,
          count-update_one is_misused (λ x. x.quarantined) r.id leased pool.runtimes
              (λ x e. ground (arith, e)),
          count_where_split (λ x. (x.id == r.id) && x.quarantined)
              (λ x. (x.id == r.id) && is_idle x) (has_id r.id) (λ x. ground arith) pool.runtimes,
        );
      }

  abbrev pub ready : ℕ → Text → LeasePool W → LeasePool W
  ready reaped_at scale pool = setdefault setting scale (reap_orphans setting reaped_at pool)

  abbrev pub found_in : Text → LeasePool W → Option WarmRuntime
  found_in scale pool = first_idle (lookup_or [] (lookup scale pool.runtimes))

  pub reap_orphans-Withdraws :
      (now : ℕ) (pool : LeasePool W) → Withdraws setting pool (reap_orphans setting now pool)
  unfolding reap_orphans
  reap_orphans-Withdraws now pool =
      quarantine_each-Withdraws setting (select (is_stale now) pool.runtimes) pool

  pub ready-IsSound :
      (reaped_at : ℕ) (scale : Text) (pool : LeasePool W)
      → IsSound setting pool
      → IsSound setting (ready reaped_at scale pool)
  ready-IsSound reaped_at scale pool h =
      setdefault-IsSound scale (reap_orphans setting reaped_at pool) (
        Withdraws-IsSound pool (reap_orphans setting reaped_at pool)
          (reap_orphans-Withdraws reaped_at pool) h)

  pub found_in-IsAvailable :
      (scale : Text) (pool : LeasePool W) (found : Option WarmRuntime)
      → found_in scale pool ≡ found
      → IsAvailable pool (returned found)
  found_in-IsAvailable scale pool none e = tt
  found_in-IsAvailable scale pool (some r) e = omega (
    arith,
    first_idle-counts (λ x. x.id == r.id) (lookup_or [] (lookup scale pool.runtimes)) r e
        (ground arith),
    count_in-lookup (λ x. (x.id == r.id) && is_idle x) scale pool.runtimes,
  )

  pub acquire-IsSound :
      (reaped_at now deadline : ℕ) (scale : Text) (pool : LeasePool W)
      → IsSound setting pool
      → IsSound setting (acquire setting reaped_at now deadline scale pool).1
  unfolding acquire
  acquire-IsSound reaped_at now deadline scale pool h =
      let start : LeasePool W = ready reaped_at scale pool in
      let found =
        find_available-IsSound scale (found_in scale start) start
          (ready-IsSound reaped_at scale pool h)
          (found_in-IsAvailable scale start (found_in scale start) refl) in
      granted-IsSound now deadline (find_available setting scale (found_in scale start) start)
        found.0 found.1

  pub drain-IsSound :
      (wanted : Text → Bool) (pool : LeasePool W)
      → IsSound setting pool
      → IsSound setting (drain setting wanted pool).1
  drain-IsSound wanted pool h =
      Withdraws-IsSound pool (drain setting wanted pool).1 (drain-Withdraws setting wanted pool) h

-- A pool at its start.
pub empty-IsSound :
    {W : Type 0} (setting : Runtimes W) (w : W)
    → IsSound setting (record { runtimes = []; next_id = 0; world = w })
unfolding runtime_count count_where
empty-IsSound setting w = record {
  bounded = omega arith;
  taken = omega arith;
  distinct = λ id. omega arith;
  apart = omega arith;
}
