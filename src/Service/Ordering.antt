-- ===== src/Service/Ordering.antt =====
-- Tombstones in the order of the times at which they ended (netopsbench/platform/simulator/service.py).
use net_ops_bench.Prelude.{
  ℕ, zero, suc, if◌then◌else◌, ◌≡◌, refl, subst, Bool, true, false, Option, none, some, [], ◌∷◌,
  All, All-imp, All-both, Text, text_eq, text_eq_iff, text_eq_refl, take, keep, any, arith, inl,
  inr, ◌⊎◌, Dict, lookup,
}
use net_ops_bench.Service.{EnvironmentSlot, is_earlier, insert_by_time, sort_by_time}
use net_ops_bench.Service.Pruning.{keep-All, insert_by_time-All}

-- What is earlier is not later, and what is not earlier than that which is not earlier is not earlier.
earlier-not_later : (a b : Option ℕ) → is_earlier a b ≡ true → is_earlier b a ≡ false
earlier-not_later none b h = ground (arith, h)
earlier-not_later (some zero) b h = ground (arith, h)
earlier-not_later (some (suc a)) none h = refl
earlier-not_later (some (suc a)) (some zero) h = refl
earlier-not_later (some (suc a)) (some (suc b)) h = ground (arith, h)

not_earlier_trans :
    (a b c : Option ℕ) → is_earlier a b ≡ false → is_earlier b c ≡ false → is_earlier a c ≡ false
not_earlier_trans none b c h k = refl
not_earlier_trans (some zero) b c h k = refl
not_earlier_trans (some (suc a)) none c h k = ground (arith, h)
not_earlier_trans (some (suc a)) (some zero) c h k = ground (arith, h)
not_earlier_trans (some (suc a)) (some (suc b)) none h k = ground (arith, k)
not_earlier_trans (some (suc a)) (some (suc b)) (some zero) h k = ground (arith, k)
not_earlier_trans (some (suc a)) (some (suc b)) (some (suc c)) h k = ground (arith, h, k)

module _ {H : Type 0} where
  abbrev pub NotEarlier : Text × EnvironmentSlot H → Text × EnvironmentSlot H → Type 0
  NotEarlier x y = is_earlier y.1.terminal_at x.1.terminal_at ≡ false

  unfoldable pub IsSorted : Dict (EnvironmentSlot H) → Type 0
  IsSorted [] = Unit
  IsSorted (x ∷ xs) = All (NotEarlier x) xs × IsSorted xs

  insert_by_time-IsSorted :
      (e : Text × EnvironmentSlot H) (d : Dict (EnvironmentSlot H))
      → IsSorted d
      → IsSorted (insert_by_time e d)
  unfolding insert_by_time IsSorted
  insert_by_time-IsSorted e [] h = (tt, tt)
  insert_by_time-IsSorted e (f ∷ rest) h =
      placed (is_earlier f.1.terminal_at e.1.terminal_at) refl (insert_by_time-IsSorted e rest h.1)
    where
      placed :
          (b : Bool)
          → is_earlier f.1.terminal_at e.1.terminal_at ≡ b
          → IsSorted (insert_by_time e rest)
          → IsSorted (if b then f ∷ insert_by_time e rest else e ∷ f ∷ rest)
      placed true k after = (
        insert_by_time-All (NotEarlier f) e rest
            (earlier-not_later f.1.terminal_at e.1.terminal_at k) h.0,
        after,
      )
      placed false k after = (
        (
          k,
          All-imp (NotEarlier f) (NotEarlier e) rest
              (λ g n. not_earlier_trans g.1.terminal_at f.1.terminal_at e.1.terminal_at n k) h.0,
        ),
        h,
      )

  pub sort_by_time-IsSorted : (d : Dict (EnvironmentSlot H)) → IsSorted (sort_by_time d)
  unfolding sort_by_time IsSorted
  sort_by_time-IsSorted [] = tt
  sort_by_time-IsSorted (e ∷ rest) =
      insert_by_time-IsSorted e (sort_by_time rest) (sort_by_time-IsSorted rest)

  pub keep-IsSorted :
      (p : Text × EnvironmentSlot H → Bool) (d : Dict (EnvironmentSlot H))
      → IsSorted d
      → IsSorted (keep p d)
  unfolding IsSorted
  keep-IsSorted p [] h = tt
  keep-IsSorted p (x ∷ xs) h =
      kept (p x) (keep-All (NotEarlier x) p xs h.0) (keep-IsSorted p xs h.1)
    where
      kept :
          (b : Bool)
          → All (NotEarlier x) (keep p xs)
          → IsSorted (keep p xs)
          → IsSorted (elim b [ true ↦ x ∷ keep p xs | false ↦ keep p xs ])
      kept true a s = (a, s)
      kept false a s = s

  abbrev pub is_among : Dict (EnvironmentSlot H) → Text → Bool
  is_among es id = any (λ x. text_eq x.0 id) es

  -- What is not among the first n of a sorted list is not earlier than any of these.
  pub take-split :
      (n : ℕ) (d : Dict (EnvironmentSlot H))
      → IsSorted d
      → All (λ k. (is_among (take n d) k.0 ≡ true) ⊎ All (λ x. NotEarlier x k) (take n d)) d
  unfolding IsSorted
  take-split zero d h = all d
    where
      all : (xs : Dict (EnvironmentSlot H)) → All (λ k. (false ≡ true) ⊎ Unit {0}) xs
      all [] = tt
      all (x ∷ xs) = (inr tt, all xs)
  take-split (suc n) [] h = tt
  take-split (suc n) (x ∷ xs) h = (
    inl (rw (text_eq_refl x.0) refl),
    All-imp
        (λ k.
          NotEarlier x k
          × ((is_among (take n xs) k.0 ≡ true) ⊎ All (λ y. NotEarlier y k) (take n xs)))
        (λ k. (is_among (x ∷ take n xs) k.0 ≡ true) ⊎ All (λ y. NotEarlier y k) (x ∷ take n xs)) xs
        (λ k both. later k both.0 both.1) (All-both (NotEarlier x) _ xs h.0 (take-split n xs h.1)),
  )
    where
      later :
          (k : Text × EnvironmentSlot H)
          → NotEarlier x k
          → (is_among (take n xs) k.0 ≡ true) ⊎ All (λ y. NotEarlier y k) (take n xs)
          → (is_among (x ∷ take n xs) k.0 ≡ true) ⊎ All (λ y. NotEarlier y k) (x ∷ take n xs)
      later k a (inl among) = inl (ground (arith, among))
      later k a (inr rest) = inr (a, rest)

  pub All-lookup :
      (P : Text × EnvironmentSlot H → Type 0) (id : Text) (v : EnvironmentSlot H)
      (d : Dict (EnvironmentSlot H))
      → All P d
      → lookup id d ≡ some v
      → P (id, v)
  unfolding lookup
  All-lookup P id v [] h f = ground (arith, f)
  All-lookup P id v ((k, w) ∷ d) h f = found (text_eq k id) refl f (λ g. All-lookup P id v d h.1 g)
    where
      found :
          (b : Bool)
          → text_eq k id ≡ b
          → (if b then some w else lookup id d) ≡ some v
          → (lookup id d ≡ some v → P (id, v))
          → P (id, v)
      found true e g rest =
          let same : w ≡ v = ground (arith, g) in
          subst (λ (u : EnvironmentSlot H). P (id, u)) same
            (subst (λ j. P (j, w)) ((text_eq_iff k id).0 e) h.0)
      found false e g rest = rest g

  pub All-unkeep :
      (P : Text × EnvironmentSlot H → Type 0) (p : Text × EnvironmentSlot H → Bool)
      (d : Dict (EnvironmentSlot H))
      → All P (keep p d)
      → All (λ x. p x ≡ true → P x) d
  All-unkeep P p [] h = tt
  All-unkeep P p (x ∷ xs) h = split (p x) refl h (λ k. All-unkeep P p xs k)
    where
      split :
          (b : Bool)
          → p x ≡ b
          → All P (elim b [ true ↦ x ∷ keep p xs | false ↦ keep p xs ])
          → (All P (keep p xs) → All (λ y. p y ≡ true → P y) xs)
          → (p x ≡ true → P x) × All (λ y. p y ≡ true → P y) xs
      split true e k rest = (λ _. k.0, rest k.1)
      split false e k rest = (λ f. absurd (ground (arith, e, f)), rest k)

  All-uninsert :
      (P : Text × EnvironmentSlot H → Type 0) (e : Text × EnvironmentSlot H)
      (d : Dict (EnvironmentSlot H))
      → All P (insert_by_time e d)
      → P e × All P d
  unfolding insert_by_time
  All-uninsert P e [] h = h
  All-uninsert P e (f ∷ rest) h =
      split (is_earlier f.1.terminal_at e.1.terminal_at) h (All-uninsert P e rest)
    where
      split :
          (b : Bool)
          → All P (if b then f ∷ insert_by_time e rest else e ∷ f ∷ rest)
          → (All P (insert_by_time e rest) → P e × All P rest)
          → P e × (P f × All P rest)
      split true k r = let s = r k.1 in (s.0, (k.0, s.1))
      split false k r = k

  pub All-unsort :
      (P : Text × EnvironmentSlot H → Type 0) (d : Dict (EnvironmentSlot H))
      → All P (sort_by_time d)
      → All P d
  unfolding sort_by_time
  All-unsort P [] h = tt
  All-unsort P (e ∷ rest) h =
      let r = All-uninsert P e (sort_by_time rest) h in (r.0, All-unsort P rest r.1)
