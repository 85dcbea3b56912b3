-- ===== src/Leases/Reaping.antt =====
-- Reaping ends every lease that has run out, draining leaves nothing to lease, and a client that waits
-- is woken for the first lease that runs out (netopsbench/platform/simulator/runtime.py).
use Prim.Native.Nat.{min, max}
use net_ops_bench.Prelude.{
  ℕ, ◌+◌, ◌≤◌, ◌<◌, ◌≡◌, refl, ap, subst, ◌∙◌, Bool, true, false, not, ◌&&◌, List, [], ◌∷◌, ◌++◌,
  keep, All, All-imp, ◌-◌, Text, leb, ◌==◌, arith, if◌then◌else◌, Bool-cases, inl, inr, Dict,
  Outcome, returned, raised,
}
use net_ops_bench.Leases.{
  WarmRuntime, Runtimes, LeasePool, counted, active_deadlines, least, wait_for, next_wait_timeout,
  runtime_error, count_in, update_in, torn_down, count_where, select, selected, update,
  set_quarantined, is_stale, on_runtimes, quarantine, quarantine_each, reap_orphans, drain_each,
  reported, drain,
}
use net_ops_bench.Leases.Counting.{count-remove, count_where_mono}
use net_ops_bench.Leases.Withdrawing.{IsWithdrawn, quarantine_each-Withdraws}
use net_ops_bench.Leases.Soundness.{has_id, is_usable}

-- The records of an identity and a property, in what was selected by the property.
count_in-keep :
    (p : WarmRuntime → Bool) (id : ℕ) (xs : List WarmRuntime)
    → count_in (λ r. (r.id == id) && p r) xs ≡ count_in (has_id id) (keep p xs)
unfolding count_in
count_in-keep p id [] = refl
count_in-keep p id (x ∷ xs) = ground (arith, count_in-keep p id xs)

count_in-append :
    (p : WarmRuntime → Bool) (xs ys : List WarmRuntime)
    → count_in p (xs ++ ys) ≡ count_in p xs + count_in p ys
unfolding count_in
count_in-append p [] ys = omega arith
count_in-append p (x ∷ xs) ys = omega (arith, count_in-append p xs ys)

count-select :
    (p : WarmRuntime → Bool) (id : ℕ) (d : Dict (List WarmRuntime))
    → count_where (λ r. (r.id == id) && p r) d ≡ count_in (has_id id) (select p d)
unfolding count_where select count_in
count-select p id [] = refl
count-select p id ((k, xs) ∷ d) = omega (
  arith,
  count_in-keep p id xs,
  count-select p id d,
  count_in-append (has_id id) (keep p xs) (select p d),
)

-- A record with a property has an identity.
count_in-some :
    (p : WarmRuntime → Bool) (xs : List WarmRuntime)
    → 1 ≤ count_in p xs
    → (id : ℕ) × (1 ≤ count_in (λ r. (r.id == id) && p r) xs)
unfolding count_in
count_in-some p [] h = ground (arith, h)
count_in-some p (x ∷ xs) h = elim (Bool-cases (p x)) [
  | inl e ↦ (x.id, ground (arith, e))
  | inr e ↦ let rest = count_in-some p xs (ground (arith, h, e)) in (rest.0, ground (arith, rest.1))
]

count-some :
    (p : WarmRuntime → Bool) (d : Dict (List WarmRuntime))
    → 1 ≤ count_where p d
    → (id : ℕ) × (1 ≤ count_where (λ r. (r.id == id) && p r) d)
unfolding count_where
count-some p [] h = ground (arith, h)
count-some p ((k, xs) ∷ d) h = elim (Bool-cases (leb 1 (count_in p xs))) [
  | inl e ↦ let found = count_in-some p xs (ground (arith, e)) in (found.0, omega (arith, found.1))
  | inr e ↦ let found = count-some p d (ground (arith, h, e)) in (found.0, omega (arith, found.1))
]

-- An update after which the updated record has not the property leaves none of its identity with it.
count_in-update_none :
    (p : WarmRuntime → Bool) (id : ℕ) (f : WarmRuntime → WarmRuntime) (xs : List WarmRuntime)
    → ((r : WarmRuntime) → p (f r) ≡ false)
    → count_in (λ r. (r.id == id) && p r) (update_in id f xs) ≡ 0
unfolding count_in update_in
count_in-update_none p id f [] h = refl
count_in-update_none p id f (x ∷ xs) h = ground (arith, count_in-update_none p id f xs h, h x)

pub count-update_none :
    (p : WarmRuntime → Bool) (id : ℕ) (f : WarmRuntime → WarmRuntime) (d : Dict (List WarmRuntime))
    → ((r : WarmRuntime) → p (f r) ≡ false)
    → count_where (λ r. (r.id == id) && p r) (update id f d) ≡ 0
unfolding count_where update
count-update_none p id f [] h = refl
count-update_none p id f ((k, xs) ∷ d) h =
    omega (arith, count_in-update_none p id f xs h, count-update_none p id f d h)

module _ {W : Type 0} (setting : Runtimes W) (p : WarmRuntime → Bool)
    (lost : (r : WarmRuntime) → p (set_quarantined r) ≡ false) where
  of_id-IsWithdrawn : (id : ℕ) → IsWithdrawn (λ r. (r.id == id) && p r)
  of_id-IsWithdrawn id r e = ground (arith, lost r, e)

  torn_down-none :
      (id : ℕ) (r : WarmRuntime) (pool : LeasePool W) (out : Outcome (Unit {0}) × W)
      → count_where (λ x. (x.id == id) && p x) pool.runtimes ≡ 0
      → count_where (λ x. (x.id == id) && p x) (torn_down setting r pool out).1.runtimes ≡ 0
  unfolding torn_down
  torn_down-none id r pool (raised e, w) h = h
  torn_down-none id r pool (returned _, w) h =
      omega (arith, h, count-remove (λ x. (x.id == id) && p x) r.scale r.id pool.runtimes)

  pub quarantine-none :
      (r : WarmRuntime) (pool : LeasePool W)
      → count_where (λ x. (x.id == r.id) && p x) (quarantine setting r pool).1.runtimes ≡ 0
  unfolding quarantine
  quarantine-none r pool =
      torn_down-none r.id r (on_runtimes setting (update r.id set_quarantined) pool)
        (setting.teardown r.id (setting.stop_traffic r.id pool.world).1)
        (count-update_none p r.id set_quarantined pool.runtimes lost)

  quarantine_each-none :
      (id : ℕ) (rs : List WarmRuntime) (pool : LeasePool W)
      → 1 ≤ count_in (has_id id) rs
      → count_where (λ x. (x.id == id) && p x) (quarantine_each setting rs pool).runtimes ≡ 0
  unfolding quarantine_each count_in
  quarantine_each-none id [] pool h = ground (arith, h)
  quarantine_each-none id (r ∷ rest) pool h = elim (Bool-cases (r.id == id)) [
    | inl e ↦
        let same : r.id ≡ id = ground (arith, e) in
        omega (
          arith,
          (quarantine_each-Withdraws setting rest (quarantine setting r pool).1).0
              (λ x. (x.id == id) && p x) (of_id-IsWithdrawn id),
          subst
              (λ n.
                count_where (λ x. (x.id == n) && p x) (quarantine setting r pool).1.runtimes ≡ 0)
              same (quarantine-none r pool),
        )
    | inr e ↦ quarantine_each-none id rest (quarantine setting r pool).1 (ground (arith, h, e))
  ]

  -- Nothing with the property is left when every record with it is among those that are quarantined.
  quarantine_all-none :
      (rs : List WarmRuntime) (pool : LeasePool W)
      → ((id : ℕ) → count_where (λ r. (r.id == id) && p r) pool.runtimes ≤ count_in (has_id id) rs)
      → count_where p (quarantine_each setting rs pool).runtimes ≡ 0
  quarantine_all-none rs pool cover = elim (Bool-cases (leb 1 (count_where p after.runtimes))) [
    | inr e ↦ ground (arith, e)
    | inl e ↦
        let found = count-some p after.runtimes (ground (arith, e)) in
        let w =
          (quarantine_each-Withdraws setting rs pool).0 (λ x. (x.id == found.0) && p x)
            (of_id-IsWithdrawn found.0) in
        ground (
          arith,
          found.1,
          quarantine_each-none found.0 rs pool (omega (arith, found.1, w, cover found.0)),
        )
  ]
    where
      after : LeasePool W
      after = quarantine_each setting rs pool

count-selected :
    (p : WarmRuntime → Bool) (d : Dict (List WarmRuntime))
    → count_in p (selected (λ _. true) d) ≡ count_where p d
unfolding selected count_where count_in
count-selected p [] = refl
count-selected p ((k, xs) ∷ d) =
    omega (arith, count-selected p d, count_in-append p xs (selected (λ _. true) d))

module _ {W : Type 0} (setting : Runtimes W) where
  counted-others :
      (others : LeasePool W → ℕ × LeasePool W) (rest : LeasePool W → LeasePool W)
      (out : Outcome (Unit {0}) × LeasePool W)
      → ((pool : LeasePool W) → (others pool).1 ≡ rest pool)
      → (counted setting others out).1 ≡ rest out.1
  unfolding counted
  counted-others others rest (raised e, pool) h = h pool
  counted-others others rest (returned _, pool) h = h pool

  drain_each-quarantine_each :
      (rs : List WarmRuntime) (pool : LeasePool W)
      → (drain_each setting rs pool).1 ≡ quarantine_each setting rs pool
  unfolding drain_each quarantine_each
  drain_each-quarantine_each [] pool = refl
  drain_each-quarantine_each (r ∷ rest) pool =
      counted-others (drain_each setting rest) (quarantine_each setting rest)
        (quarantine setting r pool) (λ t. drain_each-quarantine_each rest t)

  reported-pool : (out : ℕ × LeasePool W) → (reported setting out).1 ≡ out.1
  reported-pool (n, pool) = either (n == 0)
    where
      either :
          (b : Bool)
          → let out : Outcome (Unit {0}) × LeasePool W =
              if b then (returned tt, pool) else (raised runtime_error, pool) in
            out.1 ≡ pool
      either true = refl
      either false = refl

  drain-pool :
      (wanted : Text → Bool) (pool : LeasePool W)
      → (drain setting wanted pool).1 ≡ quarantine_each setting (selected wanted pool.runtimes) pool
  unfolding drain
  drain-pool wanted pool =
      reported-pool (drain_each setting (selected wanted pool.runtimes) pool)
      ∙ drain_each-quarantine_each (selected wanted pool.runtimes) pool

  -- After the orphans have been reaped, no lease is out whose deadline has passed, and after all scales
  -- have been drained, every record that is left is quarantined, in both cases whether or not a
  -- teardown raised.
  pub reap_and_drain :
      (now : ℕ) (pool : LeasePool W)
      → (count_where (is_stale now) (reap_orphans setting now pool).runtimes ≡ 0)
        × (count_where (λ r. not r.quarantined) (drain setting (λ _. true) pool).1.runtimes ≡ 0)
  unfolding reap_orphans is_stale
  reap_and_drain now pool = (
    quarantine_all-none setting (is_stale now) (λ r. refl) (select (is_stale now) pool.runtimes)
        pool (λ id. omega (arith, count-select (is_stale now) id pool.runtimes)),
    ap (λ t. count_where (λ r. not r.quarantined) t.runtimes) (drain-pool (λ _. true) pool)
        ∙ quarantine_all-none setting (λ r. not r.quarantined) (λ r. refl)
            (selected (λ _. true) pool.runtimes) pool
            (λ id. omega (
              arith,
              count-selected (has_id id) pool.runtimes,
              count_where_mono (is_usable id) (has_id id) pool.runtimes (λ r e. ground (arith, e)),
            )),
  )

least-le_start : (n : ℕ) (ds : List ℕ) → least n ds ≤ n
unfolding least
least-le_start n [] = omega arith
least-le_start n (m ∷ rest) = omega (arith, least-le_start (min n m) rest)

least-le : (n : ℕ) (ds : List ℕ) → All (λ d. least n ds ≤ d) ds
unfolding least
least-le n [] = tt
least-le n (m ∷ rest) = (omega (arith, least-le_start (min n m) rest), least-le (min n m) rest)

-- A client that has time left waits for some time, at most for what it has left, and at most until
-- each lease that is out ends, or for a hundredth of a second if that is longer.
pub next_wait_timeout-bounds :
    (remaining now : ℕ) (d : Dict (List WarmRuntime))
    → 0 < remaining
    → (0 < next_wait_timeout remaining now d)
      × (next_wait_timeout remaining now d ≤ remaining)
      × All
          (λ deadline. next_wait_timeout remaining now d ≤ max 10000 (deadline - now))
          (active_deadlines now (select (λ _. true) d))
unfolding next_wait_timeout
next_wait_timeout-bounds remaining now d h =
    wait_for-bounds (active_deadlines now (select (λ _. true) d))
  where
    wait_for-bounds :
        (ds : List ℕ)
        → (0 < wait_for remaining now ds)
          × (wait_for remaining now ds ≤ remaining)
          × All (λ deadline. wait_for remaining now ds ≤ max 10000 (deadline - now)) ds
    wait_for-bounds [] = (h, omega arith, tt)
    wait_for-bounds (m ∷ rest) = (
      omega (arith, h),
      omega arith,
      (
        omega (arith, least-le_start m rest),
        All-imp (λ x. least m rest ≤ x) _ rest (λ x e. omega (arith, e)) (least-le m rest),
      ),
    )
