-- ===== src/Topology/Manifest/Naming.antt =====
-- Names that occur once, and the lookups by name (netopsbench/models/topology.py).
use net_ops_bench.Prelude.{
  suc, ◌≤◌, ◌≡◌, refl, ap, subst, Bool, true, false, ◌||◌, none, some, List, [], ◌∷◌, Text, text_eq,
  text_eq_iff, text_eq_refl, text_eq_comm, any, keep, length, All, All-both, All-imp, if◌then◌else◌,
  arith, inl, inr, Option-cases,
}
use net_ops_bench.Topology.Manifest.{Device, find_device, set_of, names_of, by_name}

-- No text occurs twice.
unfoldable pub IsUnique : List Text → Type 0
IsUnique [] = Unit
IsUnique (x ∷ xs) = (any (text_eq x) xs ≡ false) × IsUnique xs

set_of-le : (xs : List Text) → length (set_of xs) ≤ length xs
unfolding set_of
set_of-le [] = omega arith
set_of-le (x ∷ xs) = ground (arith, set_of-le xs)

pub set_of-IsUnique :
    (xs : List Text) → length (set_of xs) ≡ length xs → (set_of xs ≡ xs) × IsUnique xs
unfolding set_of IsUnique
set_of-IsUnique [] h = (refl, tt)
set_of-IsUnique (x ∷ xs) h = go (any (text_eq x) (set_of xs)) refl h (set_of-IsUnique xs)
  where
    go :
        (b : Bool)
        → any (text_eq x) (set_of xs) ≡ b
        → length (if b then set_of xs else x ∷ set_of xs) ≡ suc (length xs)
        → (length (set_of xs) ≡ length xs → (set_of xs ≡ xs) × IsUnique xs)
        → ((if b then set_of xs else x ∷ set_of xs) ≡ x ∷ xs)
          × ((any (text_eq x) xs ≡ false) × IsUnique xs)
    go true e l rest = absurd (omega (arith, l, set_of-le xs))
    go false e l rest =
        let r = rest (omega (arith, l)) in
        (ap (λ ys. x ∷ ys) r.0, (subst (λ ys. any (text_eq x) ys ≡ false) r.0 e, r.1))

pub find_device-name :
    (name : Text) (ds : List Device) (d : Device) → find_device name ds ≡ some d → d.name ≡ name
unfolding find_device
find_device-name name [] d h = ground (arith, h)
find_device-name name (x ∷ ds) d h = go (text_eq x.name name) refl h (find_device-name name ds d)
  where
    go :
        (b : Bool)
        → text_eq x.name name ≡ b
        → (if b then some x else find_device name ds) ≡ some d
        → (find_device name ds ≡ some d → d.name ≡ name)
        → d.name ≡ name
    go true e f rest =
        let same : x ≡ d = ground (arith, f) in
        subst (λ (y : Device). y.name ≡ name) same ((text_eq_iff x.name name).0 e)
    go false e f rest = rest f

find_device-none :
    (name : Text) (ds : List Device)
    → any (text_eq name) (names_of ds) ≡ false
    → find_device name ds ≡ none
unfolding find_device names_of
find_device-none name [] h = refl
find_device-none name (x ∷ ds) h =
    rw (text_eq_comm x.name name) (go (text_eq name x.name) refl h (find_device-none name ds))
  where
    go :
        (b : Bool)
        → text_eq name x.name ≡ b
        → b || any (text_eq name) (names_of ds) ≡ false
        → (any (text_eq name) (names_of ds) ≡ false → find_device name ds ≡ none)
        → (if b then some x else find_device name ds) ≡ none
    go true e f rest = ground (arith, f)
    go false e f rest = rest f

-- Where names are unique, the last device of a name is the first.
pub by_name-find_device :
    (name : Text) (ds : List Device)
    → IsUnique (names_of ds)
    → by_name name ds ≡ find_device name ds
unfolding by_name find_device names_of IsUnique
by_name-find_device name [] u = refl
by_name-find_device name (x ∷ ds) u =
    rw (by_name-find_device name ds u.1) (go (text_eq x.name name) refl)
  where
    go :
        (b : Bool)
        → text_eq x.name name ≡ b
        → elim (find_device name ds) [ some e ↦ some e | none ↦ if b then some x else none ]
          ≡ (if b then some x else find_device name ds)
    go true e =
        rw
          (find_device-none name ds (
            subst (λ n. any (text_eq n) (names_of ds) ≡ false) ((text_eq_iff x.name name).0 e) u.0))
          refl
    go false e = elim (Option-cases (find_device name ds)) [
      | inl n ↦ rw n refl
      | inr (d, n) ↦ rw n refl
    ]

apart :
    (x : Device) (ds : List Device)
    → any (text_eq x.name) (names_of ds) ≡ false
    → All (λ d. text_eq x.name d.name ≡ false) ds
unfolding names_of
apart x [] h = tt
apart x (d ∷ ds) h = (ground (arith, h), apart x ds (ground (arith, h)))

pub find_device-member :
    (ds : List Device) → IsUnique (names_of ds) → All (λ d. find_device d.name ds ≡ some d) ds
unfolding find_device names_of IsUnique
find_device-member [] u = tt
find_device-member (x ∷ ds) u = (
  rw (text_eq_refl x.name) refl,
  All-imp (λ d. (find_device d.name ds ≡ some d) × (text_eq x.name d.name ≡ false))
      (λ d. find_device d.name (x ∷ ds) ≡ some d) ds (λ d h. rw (h.1) (h.0))
      (All-both (λ d. find_device d.name ds ≡ some d) (λ d. text_eq x.name d.name ≡ false) ds
        (find_device-member ds u.1) (apart x ds u.0)),
)

pub find_device-keep :
    (name : Text) (p : Device → Bool) (ds : List Device) (d : Device)
    → find_device name ds ≡ some d
    → p d ≡ true
    → find_device name (keep p ds) ≡ some d
unfolding find_device
find_device-keep name p [] d h k = ground (arith, h)
find_device-keep name p (x ∷ ds) d h k =
    go (text_eq x.name name) refl (p x) refl h (λ f. find_device-keep name p ds d f k)
  where
    go :
        (b : Bool)
        → text_eq x.name name ≡ b
        → (c : Bool) → p x ≡ c
        → (if b then some x else find_device name ds) ≡ some d
        → (find_device name ds ≡ some d → find_device name (keep p ds) ≡ some d)
        → find_device name (elim c [ true ↦ x ∷ keep p ds | false ↦ keep p ds ]) ≡ some d
    go true e true f g rest = rw e g
    go true e false f g rest =
        let same : x ≡ d = ground (arith, g) in
        absurd (ground (arith, subst (λ y. p y ≡ false) same f, k))
    go false e true f g rest = rw e (rest g)
    go false e false f g rest = rest g
