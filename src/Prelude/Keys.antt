-- ===== src/Prelude/Keys.antt =====
-- Dicts that hold no key twice.
use Prim.Native.Nat.{◌+◌}
use mathlib.Core.Path.{◌≡◌, refl, subst, ap}
use mathlib.Core.Logic.{inl, inr}
use mathlib.Core.Bool.{Bool, false}
use mathlib.Core.Option.{Option, none, some}
use mathlib.Core.List.{[], ◌∷◌}
use native.Mathlib.Omega.{arith}
use net_ops_bench.Prelude.Tests.{if◌then◌else◌, Bool-cases}
use net_ops_bench.Prelude.Lists.{All, All-imp, All-both, count_if}
use net_ops_bench.Prelude.Texts.{Text, text_eq, text_eq_iff, text_eq_refl}
use net_ops_bench.Prelude.Dicts.{Dict, lookup, put, remove}

-- No key twice.
unfoldable pub IsFunctional {ℓ} : {V : Type ℓ} → Dict V → Type ℓ
IsFunctional [] = Unit
IsFunctional ((k, v) ∷ d) = All (λ e. text_eq k e.0 ≡ false) d × IsFunctional d

pub empty-IsFunctional : (V : Type 0) → IsFunctional {V = V} []
unfolding IsFunctional
empty-IsFunctional V = tt

put-All :
    {V : Type 0} (j k : Text) (v : V) (d : Dict V)
    → text_eq j k ≡ false
    → All (λ e. text_eq j e.0 ≡ false) d
    → All (λ e. text_eq j e.0 ≡ false) (put k v d)
unfolding put
put-All j k v [] h hs = (h, tt)
put-All j k v ((i, w) ∷ d) h hs = ground (arith, put-All j k v d h hs.1)

pub put-IsFunctional :
    {V : Type 0} (k : Text) (v : V) (d : Dict V) → IsFunctional d → IsFunctional (put k v d)
unfolding put IsFunctional
put-IsFunctional k v [] h = (tt, tt)
put-IsFunctional k v ((i, w) ∷ d) h = elim (Bool-cases (text_eq i k)) [
  | inl e ↦ rw e h
  | inr e ↦ rw e (put-All i k v d e h.0, put-IsFunctional k v d h.1)
]

remove-All :
    {V : Type 0} (P : Text × V → Type 0) (k : Text) (d : Dict V) → All P d → All P (remove k d)
unfolding remove
remove-All P k [] hs = tt
remove-All P k ((i, w) ∷ d) hs = ground (arith, remove-All P k d hs.1)

pub remove-IsFunctional :
    {V : Type 0} (k : Text) (d : Dict V) → IsFunctional d → IsFunctional (remove k d)
unfolding remove IsFunctional
remove-IsFunctional k [] h = tt
remove-IsFunctional k ((i, w) ∷ d) h = elim (Bool-cases (text_eq i k)) [
  | inl e ↦ rw e (remove-IsFunctional k d h.1)
  | inr e ↦ rw e (remove-All (λ e. text_eq i e.0 ≡ false) k d h.0, remove-IsFunctional k d h.1)
]

-- d.pop(k, None) of an absent key
remove-absent :
    {V : Type 0} (k : Text) (d : Dict V) → All (λ e. text_eq k e.0 ≡ false) d → remove k d ≡ d
unfolding remove
remove-absent k [] h = refl
remove-absent k ((i, w) ∷ d) h =
    ground (arith, remove-absent k d h.1, text_eq_iff i k, text_eq_iff k i)

abbrev pub holds_at {ℓ} : {V : Type ℓ} → (V → Bool) → Option V → Bool
holds_at p none = false
holds_at p (some v) = p v

-- What removing a key takes from the number of values with a property.
pub count-remove_key :
    {V : Type 0} (p : V → Bool) (k : Text) (d : Dict V)
    → IsFunctional d
    → count_if (λ e. p e.1) d
      ≡ count_if (λ e. p e.1) (remove k d) + (if holds_at p (lookup k d) then 1 else 0)
unfolding remove lookup IsFunctional
count-remove_key p k [] h = refl
count-remove_key p k ((i, w) ∷ d) h = elim (Bool-cases (text_eq i k)) [
  | inl e ↦
      let same : i ≡ k = (text_eq_iff i k).0 e in
      let gone : remove k d ≡ d = subst (λ j. remove j d ≡ d) same (remove-absent i d h.0) in
      ground (arith, e, ap (count_if (λ x. p x.1)) gone)
  | inr e ↦ ground (arith, e, count-remove_key p k d h.1)
]

-- Each entry is what its key is looked up to.
pub entries-lookup :
    {V : Type 0} (d : Dict V) → IsFunctional d → All (λ e. lookup e.0 d ≡ some e.1) d
unfolding lookup IsFunctional
entries-lookup [] h = tt
entries-lookup ((k, v) ∷ d) h = (
  rw (text_eq_refl k) refl,
  All-imp (λ e. (text_eq k e.0 ≡ false) × (lookup e.0 d ≡ some e.1)) _ d
      (λ e both. rw both.0 both.1) (All-both _ _ d h.0 (entries-lookup d h.1)),
)
