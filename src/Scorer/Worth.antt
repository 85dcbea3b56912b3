-- ===== src/Scorer/Worth.antt =====
-- The rank of _match_location picks a location of the highest score.
use Prim.Native.Nat.{max}
use mathlib.Core.Path.{subst}
use net_ops_bench.Prelude.{
  ℕ, ◌+◌, ◌≤◌, ◌≡◌, refl, sym, Bool, true, false, not, Option, none, some, List, [], ◌∷◌, Text,
  ◌==◌, arith, Bool-cases, inl, inr,
}
use net_ops_bench.Scorer.{
  Location, Rank, BestMatch, bit, is_better_location_rank, worth, consider, consider_all, start,
  match_location,
}
use net_ops_bench.Scorer.Matches.{
  device_of, interface_of, IsCoherent, rank_of, interface_of-inapplicable, consider-IsCoherent,
  loop, start-IsCoherent, result,
}

-- The comparison of ranks is that of the scores, ties aside.
worth_of_better :
    (a d i e j : Bool) (f g : ℕ)
    → (a ≡ false → (i ≡ true) × (j ≡ true))
    → is_better_location_rank
        (record { device = bit d; interface = bit i; first = f })
        (some (record { device = bit e; interface = bit j; first = g }))
      ≡ true
    → worth a e j ≤ worth a d i
unfolding is_better_location_rank worth
worth_of_better true d i e j f g h better = ground arith
worth_of_better false d i e j f g h better = ground (arith, h refl)

worth_of_worse :
    (a d i e j : Bool) (f g : ℕ)
    → (a ≡ false → (i ≡ true) × (j ≡ true))
    → is_better_location_rank
        (record { device = bit d; interface = bit i; first = f })
        (some (record { device = bit e; interface = bit j; first = g }))
      ≡ false
    → worth a d i ≤ worth a e j
unfolding is_better_location_rank worth
worth_of_worse true d i e j f g h worse = ground arith
worth_of_worse false d i e j f g h worse = ground (arith, h refl)

is_better_none : (rank : Rank) → is_better_location_rank rank none ≡ true
unfolding is_better_location_rank
is_better_none rank = refl

worth_start : (a : Bool) → worth a false (not a) ≡ 0
unfolding worth
worth_start true = refl
worth_start false = refl

module _ (agent_device : Text) (agent_interface : Option Text) (applicable : Bool) where
  -- What one location is worth, in thousandths.
  unfoldable pub location_score : Location → ℕ
  location_score l =
      worth applicable ((device_of agent_device agent_interface applicable) l)
        ((interface_of agent_device agent_interface applicable) l)

  -- The worth of the best of some locations.
  unfoldable pub best_score : List Location → ℕ
  unfolding location_score
  best_score [] = 0
  best_score (l ∷ ls) = max (location_score l) (best_score ls)

  -- The flags of a best match, and the score that they stand for.
  abbrev pub best_worth : BestMatch → ℕ
  best_worth best = worth applicable best.device best.interface

  consider-score :
      (k : ℕ) (l : Location) (best : BestMatch)
      → (IsCoherent agent_device agent_interface applicable) best
      → best_worth (consider agent_device agent_interface applicable k l best)
        ≡ max (best_worth best) (location_score l)
  unfolding location_score consider
  consider-score k l best c = elim c.ranked [
    | inl (e, d, i) ↦
        let better : is_better_location_rank ((rank_of agent_device agent_interface applicable) k l)
              best.rank
            ≡ true =
          subst
            (λ r.
              is_better_location_rank ((rank_of agent_device agent_interface applicable) k l) r
              ≡ true)
            (sym e) (is_better_none _) in
        rw better (rw (d, i) (omega (arith, worth_start applicable)))
    | inr (f, e) ↦
        elim (Bool-cases (
          is_better_location_rank ((rank_of agent_device agent_interface applicable) k l)
            best.rank)) [
              | inl better ↦ rw better (
                  omega (
                    arith,
                    worth_of_better applicable
                        ((device_of agent_device agent_interface applicable) l)
                        ((interface_of agent_device agent_interface applicable) l) best.device
                        best.interface (bit (k == 0)) f
                        (λ z. (
                          (interface_of-inapplicable agent_device agent_interface applicable) l z,
                          c.inapplicable z,
                        ))
                        (rw e at better),
                  ))
              | inr worse ↦ rw worse (
                  omega (
                    arith,
                    worth_of_worse applicable
                        ((device_of agent_device agent_interface applicable) l)
                        ((interface_of agent_device agent_interface applicable) l) best.device
                        best.interface (bit (k == 0)) f
                        (λ z. (
                          (interface_of-inapplicable agent_device agent_interface applicable) l z,
                          c.inapplicable z,
                        ))
                        (rw e at worse),
                  ))
            ]
  ]

  loop-score :
      (k : ℕ) (ls : List Location) (best : BestMatch)
      → (IsCoherent agent_device agent_interface applicable) best
      → best_worth ((loop agent_device agent_interface applicable) k ls best)
        ≡ max (best_worth best) (best_score ls)
  unfolding consider_all best_score
  loop-score k [] best c = omega arith
  loop-score k (l ∷ ls) best c = omega (
    arith,
    consider-score k l best c,
    loop-score (k + 1) ls (consider agent_device agent_interface applicable k l best)
        ((consider-IsCoherent agent_device agent_interface applicable) k l best c),
  )

  -- The score of a detected fault is that of the best single candidate.
  pub match_location-score :
      (ls : List Location)
      → best_worth ((result agent_device agent_interface applicable) ls) ≡ best_score ls
  unfolding match_location
  match_location-score ls = omega (
    arith,
    loop-score 0 ls _ (start-IsCoherent agent_device agent_interface applicable),
    start-score,
  )
    where
      start-score : best_worth (start agent_device agent_interface applicable) ≡ 0
      start-score = unfold worth start in ground arith
