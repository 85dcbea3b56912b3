-- ===== src/Service/Popping.antt =====
-- Pruning pops the oldest tombstones (_prune_terminal_environments of
-- netopsbench/platform/simulator/service.py).
use Prim.Native.Nat.{min}
use net_ops_bench.Prelude.{
  ℕ, ◌+◌, if◌then◌else◌, ◌-◌, ◌≡◌, refl, sym, ap, subst, ◌∙◌, Bool, true, false, not, ◌&&◌, ◌||◌,
  none, some, [], ◌∷◌, All, All-imp, All-both, Text, text_eq, text_eq_iff, length, take, keep,
  count_if, is_some, arith, Bool-cases, inl, inr, ◌⊎◌, Dict, lookup, remove, lookup-remove,
  IsFunctional, entries-lookup,
}
use net_ops_bench.Service.{
  EnvironmentSlot, max_terminal_tombstones, is_earlier, is_tombstone, is_expired, sort_by_time,
  pop_all, drop_expired, excess, drop_excess, prune,
}
use net_ops_bench.Service.Pruning.{
  keep-All, keep-satisfies, IsEntry, entries, entry-apart, lookup-pop_all, length-keep,
  length-excess, count-pop_all, excess-IsEntry, keep-IsFunctional, excess-IsFunctional,
  drop_expired-IsFunctional, drop_expired-none, expired-IsTombstone, count-pop_all_le,
  prune-IsFunctional,
}
use net_ops_bench.Service.Ordering.{
  NotEarlier, sort_by_time-IsSorted, keep-IsSorted, is_among, take-split, All-lookup, All-unkeep,
  All-unsort,
}

module _ {H : Type 0} where
  lookup-pop_all-inv :
      (id : Text) (v : EnvironmentSlot H) (es d : Dict (EnvironmentSlot H))
      → lookup id (pop_all es d) ≡ some v
      → (lookup id d ≡ some v) × (is_among es id ≡ false)
  unfolding pop_all
  lookup-pop_all-inv id v [] d h = (h, refl)
  lookup-pop_all-inv id v (e ∷ rest) d h =
      let r = lookup-pop_all-inv id v rest (remove e.0 d) h in
      there (text_eq e.0 id) refl (sym (lookup-remove e.0 id d) ∙ r.0) r.1
    where
      there :
          (b : Bool)
          → text_eq e.0 id ≡ b
          → (if b then none else lookup id d) ≡ some v
          → is_among rest id ≡ false
          → (lookup id d ≡ some v) × (is_among (e ∷ rest) id ≡ false)
      there true k f a = ground (arith, f)
      there false k f a = (f, ground (arith, k, a))

  -- A tombstone that stays is not earlier than any that is popped.
  kept-NotEarlier :
      (d : Dict (EnvironmentSlot H)) (k : Text × EnvironmentSlot H)
      → IsEntry is_tombstone (drop_excess d) k
      → All (λ x. NotEarlier x k) (excess d)
  unfolding drop_excess excess
  kept-NotEarlier d k entry =
      let terminals : Dict (EnvironmentSlot H) = keep (λ e. is_tombstone e.1) (sort_by_time d) in
      let n : ℕ = length terminals - max_terminal_tombstones in
      let stays = lookup-pop_all-inv k.0 k.1 (take n terminals) d entry.0 in
      let splits =
        take-split n terminals
          (keep-IsSorted (λ e. is_tombstone e.1) (sort_by_time d) (sort_by_time-IsSorted d)) in
      outside (take n terminals) stays.1 (
        All-lookup _ k.0 k.1 d
          (All-unsort _ d (
            All-unkeep
              (λ j.
                (is_among (take n terminals) j.0 ≡ true)
                ⊎ All (λ x. NotEarlier x j) (take n terminals))
              (λ e. is_tombstone e.1) (sort_by_time d) splits))
          stays.0 entry.1)
    where
      outside :
          (es : Dict (EnvironmentSlot H))
          → is_among es k.0 ≡ false
          → (is_among es k.0 ≡ true) ⊎ All (λ x. NotEarlier x k) es
          → All (λ x. NotEarlier x k) es
      outside es a (inl among) = absurd (ground (arith, a, among))
      outside es a (inr rest) = rest

  All-among :
      (Q : EnvironmentSlot H → Type 0) (id : Text) (v : EnvironmentSlot H)
      (d es : Dict (EnvironmentSlot H))
      → lookup id d ≡ some v
      → All (λ x. (lookup x.0 d ≡ some x.1) × Q x.1) es
      → is_among es id ≡ true
      → Q v
  All-among Q id v d [] f h among = ground (arith, among)
  All-among Q id v d (x ∷ xs) f h among =
      either (text_eq x.0 id) refl among (λ a. All-among Q id v d xs f h.1 a)
    where
      either :
          (b : Bool)
          → text_eq x.0 id ≡ b
          → b || is_among xs id ≡ true
          → (is_among xs id ≡ true → Q v)
          → Q v
      either true e a rest =
          let both : some x.1 ≡ some v =
            sym h.0.0 ∙ (ap (λ k. lookup k d) ((text_eq_iff x.0 id).0 e) ∙ f) in
          let same : x.1 ≡ v = ground (arith, both) in subst Q same h.0.1
      either false e a rest = rest a

  apart-All :
      (id : Text) (es : Dict (EnvironmentSlot H))
      → is_among es id ≡ false
      → All (λ x. text_eq x.0 id ≡ false) es
  apart-All id [] h = tt
  apart-All id (x ∷ xs) h = (ground (arith, h), apart-All id xs (ground (arith, h)))

  -- What holds of popped entries holds of an entry that is looked up to and is gone.
  popped-All :
      (Q : EnvironmentSlot H → Type 0) (id : Text) (v : EnvironmentSlot H)
      (es d : Dict (EnvironmentSlot H))
      → All (λ x. (lookup x.0 d ≡ some x.1) × Q x.1) es
      → lookup id d ≡ some v
      → is_some (lookup id (pop_all es d)) ≡ false
      → Q v
  popped-All Q id v es d h f gone = elim (Bool-cases (is_among es id)) [
    | inl among ↦ All-among Q id v d es f h among
    | inr outside ↦
        absurd
          (ground (arith, ap is_some (lookup-pop_all id es d (apart-All id es outside) ∙ f), gone))
  ]

  -- A tombstone whose time is not over.
  abbrev pub is_fresh : ℕ → EnvironmentSlot H → Bool
  is_fresh now slot = is_tombstone slot && not (is_expired now slot)

  -- Popped although its time is not over.
  abbrev pub is_popped : ℕ → Dict (EnvironmentSlot H) → Text × EnvironmentSlot H → Bool
  is_popped now pruned e = is_fresh now e.1 && not (is_some (lookup e.0 pruned))

  -- Dropping what has expired leaves the other entries.
  lookup-drop_expired :
      (now : ℕ) (d : Dict (EnvironmentSlot H)) (id : Text) (slot : EnvironmentSlot H)
      → IsFunctional d
      → lookup id d ≡ some slot
      → is_expired now slot ≡ false
      → lookup id (drop_expired now d) ≡ some slot
  unfolding drop_expired
  lookup-drop_expired now d id slot hd h fresh_ =
      lookup-pop_all id (keep (λ e. is_expired now e.1) d) d (
        All-imp (IsEntry (is_expired now) d) (λ e. text_eq e.0 id ≡ false)
          (keep (λ e. is_expired now e.1) d)
          (λ e entry. entry-apart (is_expired now) d id slot h fresh_ e entry)
          (entries (is_expired now) d hd))
      ∙ h

  popped-NotEarlier :
      (now : ℕ) (d : Dict (EnvironmentSlot H)) (e k : Text × EnvironmentSlot H)
      → IsFunctional d
      → (lookup e.0 d ≡ some e.1) × (is_popped now (prune now d) e ≡ true)
      → IsEntry is_tombstone (prune now d) k
      → NotEarlier e k
  unfolding prune drop_excess
  popped-NotEarlier now d e k hd gone entry =
      let dropped : Dict (EnvironmentSlot H) = drop_expired now d in
      let entries_ = excess-IsEntry dropped (drop_expired-IsFunctional now d hd) in
      popped-All (λ v. is_earlier k.1.terminal_at v.terminal_at ≡ false) e.0 e.1 (excess dropped)
        dropped
        (All-imp (λ x. IsEntry is_tombstone dropped x × NotEarlier x k)
          (λ x. (lookup x.0 dropped ≡ some x.1) × NotEarlier x k) (excess dropped)
          (λ x both. (both.0.0, both.1))
          (All-both (IsEntry is_tombstone dropped) (λ x. NotEarlier x k) (excess dropped) entries_
            (kept-NotEarlier dropped k entry)))
        (lookup-drop_expired now d e.0 e.1 hd gone.0 (ground (arith, gone.1)))
        (ground (arith, gone.1))

  count-fresh :
      (now : ℕ) (d : Dict (EnvironmentSlot H))
      → count_if (λ e. is_tombstone e.1) d
        ≡ count_if (λ e. is_expired now e.1) d + count_if (λ e. is_fresh now e.1) d
  count-fresh now [] = refl
  count-fresh now (e ∷ rest) = ground (arith, count-fresh now rest)

  count-drop_expired :
      (now : ℕ) (d : Dict (EnvironmentSlot H))
      → IsFunctional d
      → count_if (λ e. is_tombstone e.1) (drop_expired now d) ≡ count_if (λ e. is_fresh now e.1) d
  unfolding drop_expired
  count-drop_expired now d h = omega (
    arith,
    count-fresh now d,
    length-keep (λ e. is_expired now e.1) d,
    count-pop_all is_tombstone (keep (λ e. is_expired now e.1) d) d h
        (keep-IsFunctional (λ e. is_expired now e.1) d h)
        (All-imp (IsEntry (is_expired now) d) (IsEntry is_tombstone d)
          (keep (λ e. is_expired now e.1) d) (λ e entry. (entry.0, ground (arith, entry.1)))
          (entries (is_expired now) d h)),
  )

  count-drop_excess :
      (d : Dict (EnvironmentSlot H))
      → IsFunctional d
      → count_if (λ e. is_tombstone e.1) (drop_excess d)
        ≡ min max_terminal_tombstones (count_if (λ e. is_tombstone e.1) d)
  unfolding drop_excess
  count-drop_excess d h = omega (
    arith,
    length-excess d,
    count-pop_all is_tombstone (excess d) d h (excess-IsFunctional d h) (excess-IsEntry d h),
  )

  live-kept :
      (now : ℕ) (d : Dict (EnvironmentSlot H)) (id : Text) (slot : EnvironmentSlot H)
      → IsFunctional d
      → (lookup id d ≡ some slot) × (is_tombstone slot ≡ false)
      → lookup id (prune now d) ≡ some slot
  unfolding prune drop_excess
  live-kept now d id slot hd (h, live) =
      let dropped : Dict (EnvironmentSlot H) = drop_expired now d in
      let kept = lookup-drop_expired now d id slot hd h (expired-IsTombstone now slot live) in
      lookup-pop_all id (excess dropped) dropped (
        All-imp (IsEntry is_tombstone dropped) (λ e. text_eq e.0 id ≡ false) (excess dropped)
          (λ e entry. entry-apart is_tombstone dropped id slot kept live e entry)
          (excess-IsEntry dropped (drop_expired-IsFunctional now d hd)))
      ∙ kept

  no_expired :
      (now : ℕ) (d : Dict (EnvironmentSlot H))
      → IsFunctional d
      → count_if (λ e. is_expired now e.1) (prune now d) ≡ 0
  unfolding prune drop_excess
  no_expired now d h = omega (
    arith,
    drop_expired-none now d h,
    count-pop_all_le (λ e. is_expired now e.1) (excess (drop_expired now d)) (drop_expired now d),
  )

  tombstones_left :
      (now : ℕ) (d : Dict (EnvironmentSlot H))
      → IsFunctional d
      → count_if (λ e. is_tombstone e.1) (prune now d)
        ≡ min max_terminal_tombstones (count_if (λ e. is_fresh now e.1) d)
  unfolding prune
  tombstones_left now d h =
      count-drop_excess (drop_expired now d) (drop_expired-IsFunctional now d h)
      ∙ ap (min max_terminal_tombstones) (count-drop_expired now d h)

  -- In a dict without a key twice, pruning pops every tombstone whose time is over; of the others it
  -- leaves as many as there are, but at most the maximum, and none that stays ended before one that is
  -- popped; and each slot that is no tombstone stays as it is.
  pub prune-oldest :
      (now : ℕ) (d : Dict (EnvironmentSlot H))
      → IsFunctional d
      → (count_if (λ e. is_expired now e.1) (prune now d) ≡ 0)
        × (count_if (λ e. is_tombstone e.1) (prune now d)
            ≡ min max_terminal_tombstones (count_if (λ e. is_fresh now e.1) d))
        × All
            (λ k. All (λ e. NotEarlier e k) (keep (is_popped now (prune now d)) d))
            (keep (λ e. is_tombstone e.1) (prune now d))
        × All (λ e. lookup e.0 (prune now d) ≡ some e.1) (keep (λ e. not (is_tombstone e.1)) d)
  prune-oldest now d h =
      let popped : Dict (EnvironmentSlot H) = keep (is_popped now (prune now d)) d in
      let are_popped =
        All-both (λ e. lookup e.0 d ≡ some e.1) (λ e. is_popped now (prune now d) e ≡ true) popped
          (keep-All (λ e. lookup e.0 d ≡ some e.1) (is_popped now (prune now d)) d
            (entries-lookup d h))
          (keep-satisfies (is_popped now (prune now d)) d) in
      (
        no_expired now d h,
        tombstones_left now d h,
        All-imp (IsEntry is_tombstone (prune now d)) (λ k. All (λ e. NotEarlier e k) popped)
            (keep (λ e. is_tombstone e.1) (prune now d))
            (λ k entry.
              All-imp _ (λ e. NotEarlier e k) popped
                (λ e gone. popped-NotEarlier now d e k h gone entry) are_popped)
            (entries is_tombstone (prune now d) (prune-IsFunctional now d h)),
        All-imp (λ e. (lookup e.0 d ≡ some e.1) × ((not (is_tombstone e.1)) ≡ true))
            (λ e. lookup e.0 (prune now d) ≡ some e.1) (keep (λ e. not (is_tombstone e.1)) d)
            (λ e live. live-kept now d e.0 e.1 h (live.0, ground (arith, live.1)))
            (All-both (λ e. lookup e.0 d ≡ some e.1) (λ e. (not (is_tombstone e.1)) ≡ true)
              (keep (λ e. not (is_tombstone e.1)) d)
              (keep-All (λ e. lookup e.0 d ≡ some e.1) (λ e. not (is_tombstone e.1)) d
                (entries-lookup d h))
              (keep-satisfies (λ e. not (is_tombstone e.1)) d)),
      )
