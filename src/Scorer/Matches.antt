-- ===== src/Scorer/Matches.antt =====
-- The loop of _match_location: what the best match says of the candidates.
use net_ops_bench.Prelude.{
  ℕ, ◌+◌, ◌≡◌, ◌⊎◌, refl, ◌∙◌, Bool, true, false, not, ◌&&◌, ◌||◌, Option, none, some, List, [],
  ◌∷◌, Text, any, ◌==◌, arith, Bool-cases, inl, inr,
}
use net_ops_bench.Scorer.{
  Location, Rank, BestMatch, bit, is_better_location_rank, device_match, interface_match, consider,
  consider_all, start, match_location,
}

module _ (agent_device : Text) (agent_interface : Option Text) (applicable : Bool) where
  abbrev pub device_of : Location → Bool
  device_of = device_match agent_device agent_interface applicable

  abbrev pub interface_of : Location → Bool
  interface_of = interface_match agent_device agent_interface applicable

  -- Both parts of a location match.
  unfoldable pub full_match : Location → Bool
  full_match location = device_of location && interface_of location

  abbrev pub loop : ℕ → List Location → BestMatch → BestMatch
  loop = consider_all agent_device agent_interface applicable

  -- What the best match says of itself: nothing was found yet, or the flags are those of the rank and
  -- of the location found.
  pub record IsCoherent (best : BestMatch) : Type 0 where
    pub ranked :
        (best.rank ≡ none) × (best.device ≡ false) × (best.interface ≡ not applicable)
        ⊎ ((f : ℕ) × (best.rank
              ≡ some
                  (record { device = bit best.device; interface = bit best.interface; first = f })))
    pub inapplicable : applicable ≡ false → best.interface ≡ true
    pub found :
        (l : Location)
        → best.location ≡ some l
        → (device_of l ≡ best.device) × (interface_of l ≡ best.interface)

  pub interface_of-inapplicable : (l : Location) → applicable ≡ false → interface_of l ≡ true
  unfolding interface_match
  interface_of-inapplicable l e = rw e

  abbrev pub rank_of : ℕ → Location → Rank
  rank_of k l = record {
    device = bit (device_of l);
    interface = bit (interface_of l);
    first = bit (k == 0);
  }

  pub consider-IsCoherent :
      (k : ℕ) (l : Location) (best : BestMatch)
      → IsCoherent best
      → IsCoherent (consider agent_device agent_interface applicable k l best)
  unfolding consider
  consider-IsCoherent k l best c =
      elim (Bool-cases (is_better_location_rank (rank_of k l) best.rank)) [
        | inl better ↦ record {
          ranked = rw better (inr (bit (k == 0), refl));
          inapplicable = rw better (interface_of-inapplicable l);
          found = λ m e. let same : l ≡ m = ground arith in rw better (rw (← same) (refl, refl));
        }
        | inr worse ↦ record {
          ranked = rw worse c.ranked;
          inapplicable = rw worse c.inapplicable;
          found = rw worse c.found;
        }
      ]

  -- One candidate more: a device match is kept, and so is a full match.
  consider-device :
      (k : ℕ) (l : Location) (best : BestMatch)
      → IsCoherent best
      → (consider agent_device agent_interface applicable k l best).device
        ≡ (best.device || device_of l)
  unfolding consider is_better_location_rank
  consider-device k l best c = elim c.ranked [
    | inl (e, d, i) ↦ ground arith
    | inr (f, e) ↦ ground arith
  ]

  abbrev pub is_full : BestMatch → Bool
  is_full best = best.device && best.interface

  pub consider-full :
      (k : ℕ) (l : Location) (best : BestMatch)
      → IsCoherent best
      → is_full (consider agent_device agent_interface applicable k l best)
        ≡ (is_full best || full_match l)
  unfolding consider is_better_location_rank full_match
  consider-full k l best c = elim c.ranked [
    | inl (e, d, i) ↦ ground arith
    | inr (f, e) ↦ ground arith
  ]

  loop-IsCoherent :
      (k : ℕ) (ls : List Location) (best : BestMatch)
      → IsCoherent best
      → IsCoherent (loop k ls best)
  unfolding consider_all
  loop-IsCoherent k [] best c = c
  loop-IsCoherent k (l ∷ ls) best c = loop-IsCoherent (k + 1) ls _ (consider-IsCoherent k l best c)

  loop-device :
      (k : ℕ) (ls : List Location) (best : BestMatch)
      → IsCoherent best
      → (loop k ls best).device ≡ (best.device || any device_of ls)
  unfolding consider_all
  loop-device k [] best c = ground arith
  loop-device k (l ∷ ls) best c =
      loop-device (k + 1) ls _ (consider-IsCoherent k l best c)
      ∙ rw (consider-device k l best c) (ground arith)

  loop-full :
      (k : ℕ) (ls : List Location) (best : BestMatch)
      → IsCoherent best
      → is_full (loop k ls best) ≡ (is_full best || any full_match ls)
  unfolding consider_all
  loop-full k [] best c = ground arith
  loop-full k (l ∷ ls) best c =
      loop-full (k + 1) ls _ (consider-IsCoherent k l best c)
      ∙ rw (consider-full k l best c) (ground arith)

  pub start-IsCoherent : IsCoherent (start agent_device agent_interface applicable)
  unfolding start
  start-IsCoherent = record {
    ranked = inl (refl, refl, refl);
    inapplicable = λ e. rw e;
    found = λ l e. absurd (ground arith);
  }

  abbrev pub result : List Location → BestMatch
  result = match_location agent_device agent_interface applicable

  -- The device counts as right exactly if some candidate has it.
  pub match_location-device : (ls : List Location) → (result ls).device ≡ any device_of ls
  unfolding match_location
  match_location-device ls = loop-device 0 ls _ start-IsCoherent

  -- Device and interface count as right together exactly if one candidate has both.
  pub match_location-full :
      (ls : List Location) → ((result ls).device && (result ls).interface) ≡ any full_match ls
  unfolding match_location
  match_location-full ls = loop-full 0 ls _ start-IsCoherent

  -- The location that is reported is matched in just the parts that are counted as right.
  pub match_location-found :
      (ls : List Location) (l : Location)
      → (result ls).location ≡ some l
      → (device_of l ≡ (result ls).device) × (interface_of l ≡ (result ls).interface)
  unfolding match_location
  match_location-found ls l e = (loop-IsCoherent 0 ls _ start-IsCoherent).found l e

  -- Without an interface in the ground truth the interface always counts as right.
  pub match_location-inapplicable :
      (ls : List Location) → applicable ≡ false → (result ls).interface ≡ true
  unfolding match_location
  match_location-inapplicable ls e = (loop-IsCoherent 0 ls _ start-IsCoherent).inapplicable e
