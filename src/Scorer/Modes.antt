-- ===== src/Scorer/Modes.antt =====
-- The mode that _match_location reports.
use native.Mathlib.Numerals.{add-one}
use net_ops_bench.Prelude.{
  ℕ, suc, ◌≡◌, refl, ap, ◌∙◌, Bool, true, false, Option, List, [], ◌∷◌, Text, any, if◌then◌else◌,
  arith, Bool-cases, inl, inr,
}
use net_ops_bench.Scorer.{
  Location, exact, equivalent, partial, BestMatch, is_better_location_rank, consider, consider_all,
  start, match_location,
}
use net_ops_bench.Scorer.Matches.{
  IsCoherent, consider-IsCoherent, consider-full, is_full, loop, start-IsCoherent, result,
  full_match,
}

module _ (agent_device : Text) (agent_interface : Option Text) (applicable : Bool) where
  -- Past the first candidate a full match stays as it is, and any other gives way to a full match.
  consider-mode_full :
      (k : ℕ) (l : Location) (best : BestMatch)
      → (IsCoherent agent_device agent_interface applicable) best
      → (is_full agent_device agent_interface applicable) best ≡ true
      → (consider agent_device agent_interface applicable (suc k) l best).mode ≡ best.mode
  unfolding consider is_better_location_rank
  consider-mode_full k l best c full = elim c.ranked [
    | inl (e, d, i) ↦ absurd (ground arith)
    | inr (f, e) ↦ ground arith
  ]

  consider-mode_partial :
      (k : ℕ) (l : Location) (best : BestMatch)
      → (IsCoherent agent_device agent_interface applicable) best
      → (is_full agent_device agent_interface applicable) best ≡ false
      → best.mode ≡ partial
      → (consider agent_device agent_interface applicable (suc k) l best).mode
        ≡ (if (full_match agent_device agent_interface applicable) l then equivalent else partial)
  unfolding consider is_better_location_rank full_match
  consider-mode_partial k l best c full mode = elim c.ranked [
    | inl (e, d, i) ↦ ground arith
    | inr (f, e) ↦ ground arith
  ]

  loop-cons :
      (k : ℕ) (l : Location) (ls : List Location) (best : BestMatch)
      → (loop agent_device agent_interface applicable) (suc k) (l ∷ ls) best
        ≡ (loop agent_device agent_interface applicable)
            (suc (suc k))
            ls
            (consider agent_device agent_interface applicable (suc k) l best)
  unfolding consider_all
  loop-cons k l ls best =
      ap
        (λ j.
          (loop agent_device agent_interface applicable) j ls
            (consider agent_device agent_interface applicable (suc k) l best))
        (add-one (suc k))

  loop-mode_full :
      (k : ℕ) (ls : List Location) (best : BestMatch)
      → (IsCoherent agent_device agent_interface applicable) best
      → (is_full agent_device agent_interface applicable) best ≡ true
      → ((loop agent_device agent_interface applicable) (suc k) ls best).mode ≡ best.mode
  unfolding consider_all
  loop-mode_full k [] best c full = refl
  loop-mode_full k (l ∷ ls) best c full =
      let next = consider agent_device agent_interface applicable (suc k) l best in
      let still : (is_full agent_device agent_interface applicable) next ≡ true =
        ground (arith, (consider-full agent_device agent_interface applicable) (suc k) l best c) in
      ap (λ (b : BestMatch). b.mode) (loop-cons k l ls best)
      ∙ loop-mode_full (suc k) ls next
          ((consider-IsCoherent agent_device agent_interface applicable) (suc k) l best c) still
      ∙ consider-mode_full k l best c full

  loop-mode_partial :
      (k : ℕ) (ls : List Location) (best : BestMatch)
      → (IsCoherent agent_device agent_interface applicable) best
      → (is_full agent_device agent_interface applicable) best ≡ false
      → best.mode ≡ partial
      → ((loop agent_device agent_interface applicable) (suc k) ls best).mode ≡ (
          if any (full_match agent_device agent_interface applicable) ls
          then equivalent
          else partial)
  unfolding consider_all
  loop-mode_partial k [] best c full mode = mode
  loop-mode_partial k (l ∷ ls) best c full mode =
      let next = consider agent_device agent_interface applicable (suc k) l best in
      let coherent =
        (consider-IsCoherent agent_device agent_interface applicable) (suc k) l best c in
      let step = consider-mode_partial k l best c full mode in
      let fullness = (consider-full agent_device agent_interface applicable) (suc k) l best c in
      ap (λ (b : BestMatch). b.mode) (loop-cons k l ls best)
      ∙ (elim (Bool-cases ((full_match agent_device agent_interface applicable) l)) [
        | inl found ↦ rw found (
            loop-mode_full (suc k) ls next coherent (ground (arith, fullness))
            ∙ step
            ∙ ap (λ b. if b then equivalent else partial) found)
        | inr missed ↦ rw missed (
            loop-mode_partial (suc k) ls next coherent (ground (arith, fullness))
              (step ∙ ap (λ b. if b then equivalent else partial) missed))
      ])

  first-mode :
      (l : Location)
      → (consider agent_device agent_interface applicable 0 l
          (start agent_device agent_interface applicable)).mode
        ≡ (if (full_match agent_device agent_interface applicable) l then exact else partial)
  unfolding consider start is_better_location_rank full_match
  first-mode l = ground arith

  -- The mode is `exact` if the ground truth itself has both parts, `equivalent` if another candidate
  -- has both and it has not, and `partial` if no candidate has both.
  pub match_location-mode :
      (l : Location) (ls : List Location)
      → ((result agent_device agent_interface applicable) (l ∷ ls)).mode ≡ (
          if (full_match agent_device agent_interface applicable) l
          then exact
          else if any (full_match agent_device agent_interface applicable) ls
          then equivalent
          else partial)
  unfolding match_location
  match_location-mode l ls =
      let begin = start agent_device agent_interface applicable in
      let next = consider agent_device agent_interface applicable 0 l begin in
      let coherent =
        (consider-IsCoherent agent_device agent_interface applicable) 0 l begin
          (start-IsCoherent agent_device agent_interface applicable) in
      let fullness =
        (consider-full agent_device agent_interface applicable) 0 l begin
          (start-IsCoherent agent_device agent_interface applicable) in
      elim (Bool-cases ((full_match agent_device agent_interface applicable) l)) [
        | inl found ↦ rw found (
            loop-mode_full 0 ls next coherent (ground (arith, fullness))
            ∙ first-mode l
            ∙ ap (λ b. if b then exact else partial) found)
        | inr missed ↦ rw missed (
            loop-mode_partial 0 ls next coherent (ground (arith, fullness))
              (first-mode l ∙ ap (λ b. if b then exact else partial) missed))
      ]
