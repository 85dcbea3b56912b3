-- ===== src/Topology/Manifest/Addresses.antt =====
-- Address fields without duplicates (netopsbench/models/topology.py).
use net_ops_bench.Prelude.{
  ◌≡◌, refl, Bool, true, false, Option, none, some, List, [], ◌∷◌, Text, text_eq, text_eq_comm, any,
  All, if◌then◌else◌, Outcome, returned, raised, arith,
}
use net_ops_bench.Topology.{value_error}
use net_ops_bench.Topology.Manifest.{Device, duplicates_of, have_no_duplicates}
use net_ops_bench.Topology.Manifest.Naming.{IsUnique}

-- What the field holds, where it holds anything.
unfoldable pub values_of : (Device → Option Text) → List Device → List Text
values_of field [] = []
values_of field (d ∷ ds) =
    let rest = values_of field ds in elim (field d) [ none ↦ rest | some v ↦ v ∷ rest ]

unseen :
    (v : Text) (seen vs : List Text)
    → All (λ w. any (text_eq w) (v ∷ seen) ≡ false) vs
    → (any (text_eq v) vs ≡ false) × All (λ w. any (text_eq w) seen ≡ false) vs
unseen v seen [] h = (refl, tt)
unseen v seen (w ∷ vs) h =
    let rest = unseen v seen vs h.1 in
    (ground (arith, h.0, text_eq_comm w v, rest.0), (ground (arith, h.0), rest.1))

duplicates_of-none :
    (field : Device → Option Text) (seen : List Text) (ds : List Device)
    → duplicates_of field seen ds ≡ []
    → IsUnique (values_of field ds) × All (λ w. any (text_eq w) seen ≡ false) (values_of field ds)
unfolding duplicates_of values_of IsUnique
duplicates_of-none field seen [] h = (tt, tt)
duplicates_of-none field seen (d ∷ ds) h = go (field d) h (λ more. duplicates_of-none field more ds)
  where
    Fresh : List Text → List Text → Type 0
    Fresh more vs = IsUnique vs × All (λ w. any (text_eq w) more ≡ false) vs

    split :
        (v : Text) (b : Bool)
        → any (text_eq v) seen ≡ b
        → (if b then v ∷ duplicates_of field (v ∷ seen) ds else duplicates_of field (v ∷ seen) ds)
          ≡ []
        → (duplicates_of field (v ∷ seen) ds ≡ [] → Fresh (v ∷ seen) (values_of field ds))
        → Fresh seen (v ∷ values_of field ds)
    split v true e f rest = absurd (ground (arith, f))
    split v false e f rest =
        let r = rest f in
        let apart_ = unseen v seen (values_of field ds) r.1 in ((apart_.0, r.0), (e, apart_.1))

    go :
        (o : Option Text)
        → elim o [
          | none ↦ duplicates_of field seen ds
          | some v ↦
              if any (text_eq v) seen
              then v ∷ duplicates_of field (v ∷ seen) ds
              else duplicates_of field (v ∷ seen) ds
        ]
          ≡ []
        → ((more : List Text) → duplicates_of field more ds ≡ [] → Fresh more (values_of field ds))
        → Fresh seen (elim o [ none ↦ values_of field ds | some v ↦ v ∷ values_of field ds ])
    go none f rest = rest seen f
    go (some v) f rest = split v (any (text_eq v) seen) refl f (rest (v ∷ seen))

pub have_no_duplicates-IsUnique :
    (field : Device → Option Text) (ds : List Device)
    → have_no_duplicates field ds ≡ returned tt
    → IsUnique (values_of field ds)
have_no_duplicates-IsUnique field ds h =
    (duplicates_of-none field [] ds (empty (duplicates_of field [] ds) h)).0
  where
    empty :
        (vs : List Text)
        → elim vs as (λ _. Outcome (Unit {0})) [ [] ↦ returned tt | w ∷ ws ↦ raised value_error ]
          ≡ returned tt
        → vs ≡ []
    empty [] k = refl
    empty (v ∷ vs) k = ground (arith, k)
