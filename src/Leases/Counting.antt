-- ===== src/Leases/Counting.antt =====
-- How the operations on the records of a lease pool change the number of those with a property
-- (netopsbench/platform/simulator/runtime.py).
use net_ops_bench.Prelude.{
  ℕ, ◌+◌, ◌≤◌, ◌≡◌, refl, ap, Bool, true, false, ◌&&◌, some, List, [], ◌∷◌, ◌++◌, Text, ◌==◌, arith,
  if◌then◌else◌, Dict, lookup, lookup_or,
}
use net_ops_bench.Leases.{
  WarmRuntime, count_in, count_where, update_in, update, remove_in, remove_record,
  setdefault_append, set_leased, is_idle, first_idle,
}

module _ (p : WarmRuntime → Bool) where
  count_in-append :
      (xs ys : List WarmRuntime) → count_in p (xs ++ ys) ≡ count_in p xs + count_in p ys
  unfolding count_in
  count_in-append [] ys = omega arith
  count_in-append (x ∷ xs) ys = omega (arith, count_in-append xs ys)

  -- Updates that give no record the property do not raise the number.
  count_in-update :
      (id : ℕ) (f : WarmRuntime → WarmRuntime) (xs : List WarmRuntime)
      → ((r : WarmRuntime) → p (f r) ≡ true → p r ≡ true)
      → count_in p (update_in id f xs) ≤ count_in p xs
  unfolding count_in update_in
  count_in-update id f [] h = omega arith
  count_in-update id f (x ∷ xs) h = ground (arith, count_in-update id f xs h, h x)

  pub count-update :
      (id : ℕ) (f : WarmRuntime → WarmRuntime) (d : Dict (List WarmRuntime))
      → ((r : WarmRuntime) → p (f r) ≡ true → p r ≡ true)
      → count_where p (update id f d) ≤ count_where p d
  unfolding count_where update
  count-update id f [] h = omega arith
  count-update id f ((k, xs) ∷ d) h =
      omega (arith, count_in-update id f xs h, count-update id f d h)

  count_in-update_at :
      (id : ℕ) (f : WarmRuntime → WarmRuntime) (xs : List WarmRuntime)
      → ((r : WarmRuntime) → (r.id == id) ≡ true → p (f r) ≡ true → p r ≡ true)
      → count_in p (update_in id f xs) ≤ count_in p xs
  unfolding count_in update_in
  count_in-update_at id f [] h = omega arith
  count_in-update_at id f (x ∷ xs) h = ground (arith, count_in-update_at id f xs h, h x)

  -- The same where only the updated record matters.
  pub count-update_at :
      (id : ℕ) (f : WarmRuntime → WarmRuntime) (d : Dict (List WarmRuntime))
      → ((r : WarmRuntime) → (r.id == id) ≡ true → p (f r) ≡ true → p r ≡ true)
      → count_where p (update id f d) ≤ count_where p d
  unfolding count_where update
  count-update_at id f [] h = omega arith
  count-update_at id f ((k, xs) ∷ d) h =
      omega (arith, count_in-update_at id f xs h, count-update_at id f d h)

  count_in-remove : (id : ℕ) (xs : List WarmRuntime) → count_in p (remove_in id xs) ≤ count_in p xs
  unfolding count_in remove_in
  count_in-remove id [] = omega arith
  count_in-remove id (x ∷ xs) = ground (arith, count_in-remove id xs)

  pub count-remove :
      (scale : Text) (id : ℕ) (d : Dict (List WarmRuntime))
      → count_where p (remove_record scale id d) ≤ count_where p d
  unfolding count_where remove_record
  count-remove scale id [] = omega arith
  count-remove scale id ((k, xs) ∷ d) =
      ground (arith, count_in-remove id xs, count-remove scale id d)

  pub count-setdefault_append :
      (scale : Text) (added : List WarmRuntime) (d : Dict (List WarmRuntime))
      → count_where p (setdefault_append scale added d) ≡ count_where p d + count_in p added
  unfolding count_where setdefault_append count_in
  count-setdefault_append scale added [] = omega arith
  count-setdefault_append scale added ((k, xs) ∷ d) =
      ground (arith, count_in-append xs added, count-setdefault_append scale added d)

  pub count-add :
      (scale : Text) (r : WarmRuntime) (d : Dict (List WarmRuntime))
      → count_where p (setdefault_append scale (r ∷ []) d)
        ≡ count_where p d + (if p r then 1 else 0)
  unfolding count_in
  count-add scale r d = omega (arith, count-setdefault_append scale (r ∷ []) d)

  pub count_in-lookup :
      (scale : Text) (d : Dict (List WarmRuntime))
      → count_in p (lookup_or [] (lookup scale d)) ≤ count_where p d
  unfolding count_where lookup count_in
  count_in-lookup scale [] = omega arith
  count_in-lookup scale ((k, xs) ∷ d) = ground (arith, count_in-lookup scale d)

module _ (p q : WarmRuntime → Bool) where
  count_in_mono :
      (xs : List WarmRuntime)
      → ((r : WarmRuntime) → p r ≡ true → q r ≡ true)
      → count_in p xs ≤ count_in q xs
  unfolding count_in
  count_in_mono [] h = omega arith
  count_in_mono (x ∷ xs) h = ground (arith, count_in_mono xs h, h x)

  pub count_where_mono :
      (d : Dict (List WarmRuntime))
      → ((r : WarmRuntime) → p r ≡ true → q r ≡ true)
      → count_where p d ≤ count_where q d
  unfolding count_where
  count_where_mono [] h = omega arith
  count_where_mono ((k, xs) ∷ d) h = omega (arith, count_in_mono xs h, count_where_mono d h)

-- Two properties that exclude each other share the records of a third that both imply.
module _ (p q both : WarmRuntime → Bool)
    (split : (r : WarmRuntime)
      → (if p r then 1 else 0) + (if q r then 1 else 0) ≤ (if both r then 1 else 0)) where
  count_in_split : (xs : List WarmRuntime) → count_in p xs + count_in q xs ≤ count_in both xs
  unfolding count_in
  count_in_split [] = omega arith
  count_in_split (x ∷ xs) = omega (arith, count_in_split xs, split x)

  pub count_where_split :
      (d : Dict (List WarmRuntime)) → count_where p d + count_where q d ≤ count_where both d
  unfolding count_where
  count_where_split [] = omega arith
  count_where_split ((k, xs) ∷ d) = omega (arith, count_in_split xs, count_where_split d)

-- What is found idle is counted.
pub first_idle-counts :
    (p : WarmRuntime → Bool) (xs : List WarmRuntime) (r : WarmRuntime)
    → first_idle xs ≡ some r
    → p r ≡ true
    → 1 ≤ count_in (λ x. p x && is_idle x) xs
unfolding first_idle count_in
first_idle-counts p [] r h hp = ground (arith, h)
first_idle-counts p (x ∷ xs) r h hp = found (is_idle x) refl h (λ k. first_idle-counts p xs r k hp)
  where
    found :
        (b : Bool)
        → is_idle x ≡ b
        → (if b then some x else first_idle xs) ≡ some r
        → (first_idle xs ≡ some r → 1 ≤ count_in (λ y. p y && is_idle y) xs)
        → 1 ≤ (if p x && is_idle x then 1 else 0) + count_in (λ y. p y && is_idle y) xs
    found true e h rest = ground (arith, e, ap (λ y. p y) (ap (λ o. lookup_or r o) h), hp)
    found false e h rest = ground (arith, rest h)

-- An update of one record adds at most that record.
count_in-update_one :
    (p q : WarmRuntime → Bool) (id : ℕ) (f : WarmRuntime → WarmRuntime) (xs : List WarmRuntime)
    → ((r : WarmRuntime) → p (f r) ≡ true → q r ≡ true)
    → count_in p (update_in id f xs) ≤ count_in p xs + count_in (λ r. (r.id == id) && q r) xs
unfolding count_in update_in
count_in-update_one p q id f [] h = omega arith
count_in-update_one p q id f (x ∷ xs) h = ground (arith, count_in-update_one p q id f xs h, h x)

pub count-update_one :
    (p q : WarmRuntime → Bool) (id : ℕ) (f : WarmRuntime → WarmRuntime)
    (d : Dict (List WarmRuntime))
    → ((r : WarmRuntime) → p (f r) ≡ true → q r ≡ true)
    → count_where p (update id f d) ≤ count_where p d + count_where (λ r. (r.id == id) && q r) d
unfolding count_where update
count-update_one p q id f [] h = omega arith
count-update_one p q id f ((k, xs) ∷ d) h =
    omega (arith, count_in-update_one p q id f xs h, count-update_one p q id f d h)

count_in-leased :
    (id deadline : ℕ) (xs : List WarmRuntime)
    → count_in (λ r. (r.id == id) && r.in_use) (update_in id (set_leased deadline) xs)
      ≡ count_in (λ r. r.id == id) xs
unfolding count_in update_in
count_in-leased id deadline [] = refl
count_in-leased id deadline (x ∷ xs) = ground (arith, count_in-leased id deadline xs)

-- Putting a record in use.
pub count-leased :
    (id deadline : ℕ) (d : Dict (List WarmRuntime))
    → count_where (λ r. (r.id == id) && r.in_use) (update id (set_leased deadline) d)
      ≡ count_where (λ r. r.id == id) d
unfolding count_where update
count-leased id deadline [] = refl
count-leased id deadline ((k, xs) ∷ d) =
    omega (arith, count_in-leased id deadline xs, count-leased id deadline d)
