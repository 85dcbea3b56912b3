-- ===== src/Service/Pruning.antt =====
-- Pruning drops the tombstones that have expired and those above the maximum, and nothing else
-- (_prune_terminal_environments of netopsbench/platform/simulator/service.py).
use net_ops_bench.Prelude.{
  ℕ, zero, suc, ◌+◌, ◌-◌, ◌≤◌, ◌≡◌, refl, sym, ap, ◌∙◌, Bool, true, false, some, List, [], ◌∷◌, All,
  All-imp, All-both, Text, text_eq, text_eq_iff, text_eq_comm, length, take, keep, count_if, arith,
  Bool-cases, inl, inr, Dict, lookup, remove, lookup-remove, IsFunctional, count-remove_key,
  remove-IsFunctional, entries-lookup, holds_at,
}
use net_ops_bench.Service.{
  EnvironmentSlot, max_terminal_tombstones, is_tombstone, is_expired, insert_by_time, sort_by_time,
  pop_all, drop_expired, excess, drop_excess, prune,
}

module _ {V : Type 0} where
  pub keep-All : (P : V → Type 0) (p : V → Bool) (xs : List V) → All P xs → All P (keep p xs)
  keep-All P p [] h = tt
  keep-All P p (x ∷ xs) h = ground (arith, keep-All P p xs h.1)

  pub keep-satisfies : (p : V → Bool) (xs : List V) → All (λ x. p x ≡ true) (keep p xs)
  keep-satisfies p [] = tt
  keep-satisfies p (x ∷ xs) = kept (p x) refl (keep-satisfies p xs)
    where
      kept :
          (b : Bool)
          → p x ≡ b
          → All (λ y. p y ≡ true) (keep p xs)
          → All (λ y. p y ≡ true) (elim b [ true ↦ x ∷ keep p xs | false ↦ keep p xs ])
      kept true e h = (e, h)
      kept false e h = h

  take-All : (P : V → Type 0) (n : ℕ) (xs : List V) → All P xs → All P (take n xs)
  take-All P zero xs h = tt
  take-All P (suc n) [] h = tt
  take-All P (suc n) (x ∷ xs) h = (h.0, take-All P n xs h.1)

  pub length-keep : (p : V → Bool) (xs : List V) → length (keep p xs) ≡ count_if p xs
  length-keep p [] = refl
  length-keep p (x ∷ xs) = ground (arith, length-keep p xs)

  length-take : (n : ℕ) (xs : List V) → n ≤ length xs → length (take n xs) ≡ n
  length-take zero xs h = refl
  length-take (suc n) [] h = omega (arith, h)
  length-take (suc n) (x ∷ xs) h = omega (arith, length-take n xs (omega (arith, h)))

pub keep-IsFunctional :
    {V : Type 0} (p : Text × V → Bool) (d : Dict V) → IsFunctional d → IsFunctional (keep p d)
unfolding IsFunctional
keep-IsFunctional p [] h = tt
keep-IsFunctional p ((k, v) ∷ d) h =
    kept (p (k, v)) (keep-All (λ e. text_eq k e.0 ≡ false) p d h.0) (keep-IsFunctional p d h.1)
  where
    kept :
        (b : Bool)
        → All (λ e. text_eq k e.0 ≡ false) (keep p d)
        → IsFunctional (keep p d)
        → IsFunctional (elim b [ true ↦ (k, v) ∷ keep p d | false ↦ keep p d ])
    kept true a f = (a, f)
    kept false a f = f

take-IsFunctional : {V : Type 0} (n : ℕ) (d : Dict V) → IsFunctional d → IsFunctional (take n d)
unfolding IsFunctional
take-IsFunctional zero d h = tt
take-IsFunctional (suc n) [] h = tt
take-IsFunctional (suc n) ((k, v) ∷ d) h =
    (take-All (λ e. text_eq k e.0 ≡ false) n d h.0, take-IsFunctional n d h.1)

module _ {H : Type 0} where
  pub insert_by_time-All :
      (P : Text × EnvironmentSlot H → Type 0) (e : Text × EnvironmentSlot H)
      (d : Dict (EnvironmentSlot H))
      → P e
      → All P d
      → All P (insert_by_time e d)
  unfolding insert_by_time
  insert_by_time-All P e [] h hs = (h, tt)
  insert_by_time-All P e (f ∷ rest) h hs = ground (arith, insert_by_time-All P e rest h hs.1)

  pub sort_by_time-All :
      (P : Text × EnvironmentSlot H → Type 0) (d : Dict (EnvironmentSlot H))
      → All P d
      → All P (sort_by_time d)
  unfolding sort_by_time
  sort_by_time-All P [] hs = tt
  sort_by_time-All P (e ∷ rest) hs =
      insert_by_time-All P e (sort_by_time rest) hs.0 (sort_by_time-All P rest hs.1)

  insert_by_time-IsFunctional :
      (e : Text × EnvironmentSlot H) (d : Dict (EnvironmentSlot H))
      → All (λ f. text_eq e.0 f.0 ≡ false) d
      → IsFunctional d
      → IsFunctional (insert_by_time e d)
  unfolding insert_by_time IsFunctional
  insert_by_time-IsFunctional e [] h hs = (tt, tt)
  insert_by_time-IsFunctional e (f ∷ rest) h hs = ground (
    arith,
    insert_by_time-IsFunctional e rest h.1 hs.1,
    insert_by_time-All (λ g. text_eq f.0 g.0 ≡ false) e rest (text_eq_comm f.0 e.0 ∙ h.0) hs.0,
  )

  sort_by_time-IsFunctional :
      (d : Dict (EnvironmentSlot H)) → IsFunctional d → IsFunctional (sort_by_time d)
  unfolding sort_by_time IsFunctional
  sort_by_time-IsFunctional [] h = tt
  sort_by_time-IsFunctional (e ∷ rest) h =
      insert_by_time-IsFunctional e (sort_by_time rest)
        (sort_by_time-All (λ f. text_eq e.0 f.0 ≡ false) rest h.0)
        (sort_by_time-IsFunctional rest h.1)

  count-insert_by_time :
      (p : Text × EnvironmentSlot H → Bool) (e : Text × EnvironmentSlot H)
      (d : Dict (EnvironmentSlot H))
      → count_if p (insert_by_time e d) ≡ count_if p (e ∷ d)
  unfolding insert_by_time
  count-insert_by_time p e [] = refl
  count-insert_by_time p e (f ∷ rest) = ground (arith, count-insert_by_time p e rest)

  count-sort_by_time :
      (p : Text × EnvironmentSlot H → Bool) (d : Dict (EnvironmentSlot H))
      → count_if p (sort_by_time d) ≡ count_if p d
  unfolding sort_by_time
  count-sort_by_time p [] = refl
  count-sort_by_time p (e ∷ rest) =
      ground (arith, count-insert_by_time p e (sort_by_time rest), count-sort_by_time p rest)

  pop_all-IsFunctional :
      (es d : Dict (EnvironmentSlot H)) → IsFunctional d → IsFunctional (pop_all es d)
  unfolding pop_all
  pop_all-IsFunctional [] d h = h
  pop_all-IsFunctional (e ∷ rest) d h =
      pop_all-IsFunctional rest (remove e.0 d) (remove-IsFunctional e.0 d h)

  -- An entry of a dict with a property.
  abbrev pub IsEntry :
      (EnvironmentSlot H → Bool) → Dict (EnvironmentSlot H) → Text × EnvironmentSlot H → Type 0
  IsEntry p d e = (lookup e.0 d ≡ some e.1) × (p e.1 ≡ true)

  remove-IsEntry :
      (p : EnvironmentSlot H → Bool) (k : Text) (d : Dict (EnvironmentSlot H))
      (e : Text × EnvironmentSlot H)
      → text_eq k e.0 ≡ false
      → IsEntry p d e
      → IsEntry p (remove k d) e
  remove-IsEntry p k d e apart h = (rw (lookup-remove k e.0 d, apart) h.0, h.1)

  -- Popping entries with a property takes as many from those with it.
  pub count-pop_all :
      (p : EnvironmentSlot H → Bool) (es d : Dict (EnvironmentSlot H))
      → IsFunctional d
      → IsFunctional es
      → All (IsEntry p d) es
      → count_if (λ e. p e.1) (pop_all es d) + length es ≡ count_if (λ e. p e.1) d
  unfolding pop_all IsFunctional
  count-pop_all p [] d hd hes h = omega arith
  count-pop_all p (e ∷ rest) d hd hes h =
      let found : holds_at p (lookup e.0 d) ≡ true = rw h.0.0 h.0.1 in
      ground (
        arith,
        count-remove_key p e.0 d hd,
        found,
        count-pop_all p rest (remove e.0 d) (remove-IsFunctional e.0 d hd) hes.1 (
            All-imp (λ f. (text_eq e.0 f.0 ≡ false) × IsEntry p d f) (IsEntry p (remove e.0 d)) rest
              (λ f both. remove-IsEntry p e.0 d f both.0 both.1)
              (All-both (λ f. text_eq e.0 f.0 ≡ false) (IsEntry p d) rest hes.0 h.1)),
      )

  count-remove_le :
      (p : Text × EnvironmentSlot H → Bool) (k : Text) (d : Dict (EnvironmentSlot H))
      → count_if p (remove k d) ≤ count_if p d
  unfolding remove
  count-remove_le p k [] = omega arith
  count-remove_le p k ((i, w) ∷ d) = ground (arith, count-remove_le p k d)

  pub count-pop_all_le :
      (p : Text × EnvironmentSlot H → Bool) (es d : Dict (EnvironmentSlot H))
      → count_if p (pop_all es d) ≤ count_if p d
  unfolding pop_all
  count-pop_all_le p [] d = omega arith
  count-pop_all_le p (e ∷ rest) d =
      omega (arith, count-pop_all_le p rest (remove e.0 d), count-remove_le p e.0 d)

  pub lookup-pop_all :
      (id : Text) (es d : Dict (EnvironmentSlot H))
      → All (λ e. text_eq e.0 id ≡ false) es
      → lookup id (pop_all es d) ≡ lookup id d
  unfolding pop_all
  lookup-pop_all id [] d h = refl
  lookup-pop_all id (e ∷ rest) d h =
      lookup-pop_all id rest (remove e.0 d) h.1 ∙ rw (lookup-remove e.0 id d, h.0) refl

  pub entries :
      (p : EnvironmentSlot H → Bool) (d : Dict (EnvironmentSlot H))
      → IsFunctional d
      → All (IsEntry p d) (keep (λ e. p e.1) d)
  entries p d h =
      All-both (λ e. lookup e.0 d ≡ some e.1) (λ e. p e.1 ≡ true) (keep (λ e. p e.1) d)
        (keep-All (λ e. lookup e.0 d ≡ some e.1) (λ e. p e.1) d (entries-lookup d h))
        (keep-satisfies (λ e. p e.1) d)

  pub excess-IsEntry :
      (d : Dict (EnvironmentSlot H)) → IsFunctional d → All (IsEntry is_tombstone d) (excess d)
  unfolding excess
  excess-IsEntry d h =
      take-All (IsEntry is_tombstone d)
        (length (keep (λ e. is_tombstone e.1) (sort_by_time d)) - max_terminal_tombstones)
        (keep (λ e. is_tombstone e.1) (sort_by_time d))
        (All-both (λ e. lookup e.0 d ≡ some e.1) (λ e. is_tombstone e.1 ≡ true)
          (keep (λ e. is_tombstone e.1) (sort_by_time d))
          (keep-All (λ e. lookup e.0 d ≡ some e.1) (λ e. is_tombstone e.1) (sort_by_time d)
            (sort_by_time-All (λ e. lookup e.0 d ≡ some e.1) d (entries-lookup d h)))
          (keep-satisfies (λ e. is_tombstone e.1) (sort_by_time d)))

  pub excess-IsFunctional :
      (d : Dict (EnvironmentSlot H)) → IsFunctional d → IsFunctional (excess d)
  unfolding excess
  excess-IsFunctional d h =
      take-IsFunctional
        (length (keep (λ e. is_tombstone e.1) (sort_by_time d)) - max_terminal_tombstones)
        (keep (λ e. is_tombstone e.1) (sort_by_time d))
        (keep-IsFunctional (λ e. is_tombstone e.1) (sort_by_time d) (sort_by_time-IsFunctional d h))

  pub length-excess :
      (d : Dict (EnvironmentSlot H))
      → length (excess d) ≡ count_if (λ e. is_tombstone e.1) d - max_terminal_tombstones
  unfolding excess
  length-excess d =
      length-take (length (keep (λ e. is_tombstone e.1) (sort_by_time d)) - max_terminal_tombstones)
        (keep (λ e. is_tombstone e.1) (sort_by_time d)) (omega arith)
      ∙ ap (λ n. n - max_terminal_tombstones)
          (length-keep (λ e. is_tombstone e.1) (sort_by_time d)
            ∙ count-sort_by_time (λ e. is_tombstone e.1) d)

  pub drop_expired-IsFunctional :
      (now : ℕ) (d : Dict (EnvironmentSlot H)) → IsFunctional d → IsFunctional (drop_expired now d)
  unfolding drop_expired
  drop_expired-IsFunctional now d h = pop_all-IsFunctional (keep (λ e. is_expired now e.1) d) d h

  pub prune-IsFunctional :
      (now : ℕ) (d : Dict (EnvironmentSlot H)) → IsFunctional d → IsFunctional (prune now d)
  unfolding prune drop_excess
  prune-IsFunctional now d h =
      pop_all-IsFunctional (excess (drop_expired now d)) (drop_expired now d)
        (drop_expired-IsFunctional now d h)

  pub drop_excess-few :
      (d : Dict (EnvironmentSlot H))
      → IsFunctional d
      → count_if (λ e. is_tombstone e.1) (drop_excess d) ≤ max_terminal_tombstones
  unfolding drop_excess
  drop_excess-few d h = omega (
    arith,
    length-excess d,
    count-pop_all is_tombstone (excess d) d h (excess-IsFunctional d h) (excess-IsEntry d h),
  )

  pub drop_expired-none :
      (now : ℕ) (d : Dict (EnvironmentSlot H))
      → IsFunctional d
      → count_if (λ e. is_expired now e.1) (drop_expired now d) ≡ 0
  unfolding drop_expired
  drop_expired-none now d h = omega (
    arith,
    length-keep (λ e. is_expired now e.1) d,
    count-pop_all (is_expired now) (keep (λ e. is_expired now e.1) d) d h
        (keep-IsFunctional (λ e. is_expired now e.1) d h) (entries (is_expired now) d h),
  )

  -- An entry that is not among some popped entries of the same dict.
  pub entry-apart :
      (p : EnvironmentSlot H → Bool) (d : Dict (EnvironmentSlot H)) (id : Text)
      (slot : EnvironmentSlot H)
      → lookup id d ≡ some slot
      → p slot ≡ false
      → (e : Text × EnvironmentSlot H) → IsEntry p d e
      → text_eq e.0 id ≡ false
  entry-apart p d id slot h live e entry = elim (Bool-cases (text_eq e.0 id)) [
    | inr apart ↦ apart
    | inl same ↦
        let both : some e.1 ≡ some slot =
          sym entry.0 ∙ (ap (λ k. lookup k d) ((text_eq_iff e.0 id).0 same) ∙ h) in
        ground (arith, sym entry.1 ∙ (ap (holds_at p) both ∙ live))
  ]

  pub expired-IsTombstone :
      (now : ℕ) (slot : EnvironmentSlot H) → is_tombstone slot ≡ false → is_expired now slot ≡ false
  expired-IsTombstone now slot h = rw h refl
