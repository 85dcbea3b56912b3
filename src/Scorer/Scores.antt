-- ===== src/Scorer/Scores.antt =====
-- What Evaluator.evaluate returns for a faulty case.
use net_ops_bench.Prelude.{
  ℕ, ◌≤◌, ◌≡◌, refl, ap, ◌∙◌, Bool, true, false, Option, some, List, [], ◌∷◌, ◌++◌, Text, codes,
  text_eq, arith, if◌then◌else◌, Exn, Outcome, returned, raised, ◌↔◌,
}
use net_ops_bench.FaultType.{JudgeFn, Judgment, or_empty}
use net_ops_bench.Scorer.{
  Location, Candidate, dict, other, AgentOutput, GroundTruth, EvaluationResult, BestMatch, evaluate,
  finish, positive_result, located, agent_location, has_interface, candidate_locations, dicts,
  fault_score, worth,
}
use net_ops_bench.Scorer.Matches.{match_location-inapplicable}
use net_ops_bench.Scorer.Worth.{best_score, match_location-score}

finish-returned :
    (output : AgentOutput) (truth : GroundTruth) (id : Text) (judged : Outcome (Bool × Judgment))
    (r : EvaluationResult)
    → finish output truth id judged ≡ returned r
    → (p : Bool × Judgment) × (r ≡ positive_result output truth id p)
unfolding finish
finish-returned output truth id (returned p) r h = (p, ground arith)
finish-returned output truth id (raised e) r h = absurd (ground arith)

unfoldable pub detected : AgentOutput → Bool
detected output = text_eq output.verdict (codes "fault_detected")

-- The score of the best candidate location for this diagnosis, in thousandths.
unfoldable pub best_location_score : AgentOutput → GroundTruth → ℕ
best_location_score output truth =
    let location = agent_location output in
    best_score (or_empty location.device) location.interface (has_interface truth.location)
      (candidate_locations truth)

fault_score-located :
    (output : AgentOutput) (truth : GroundTruth) (verdict : Bool)
    → fault_score verdict (has_interface truth.location) (located output truth)
      ≡ (if verdict then best_location_score output truth else 0)
unfolding fault_score located best_location_score
fault_score-located output truth false = refl
fault_score-located output truth true =
    let location = agent_location output in
    match_location-score (or_empty location.device) location.interface
      (has_interface truth.location) (candidate_locations truth)

worth-full :
    (verdict applicable : Bool) (best : BestMatch)
    → (applicable ≡ false → best.interface ≡ true)
    → (fault_score verdict applicable best ≡ 1000)
      ↔ ((verdict ≡ true) × (best.device ≡ true) × (best.interface ≡ true))
unfolding fault_score worth
worth-full verdict true best h = ground arith
worth-full verdict false best h = ground (arith, h refl)

module _ (caught : Exn → Bool) (output : AgentOutput) (truth : GroundTruth) (id : Text) where
  pub evaluate-positive :
      (judge : Option JudgeFn) (r : EvaluationResult)
      → evaluate caught judge output (some truth) id ≡ returned r
      → (p : Bool × Judgment) × (r ≡ positive_result output truth id p)
  unfolding evaluate
  evaluate-positive judge r h = finish-returned output truth id _ r h

  -- A faulty case scores nothing unless the verdict is `fault_detected`, and then it scores what the
  -- best single candidate location is worth, in thousandths: half for the device and half for the
  -- interface where the ground truth names an interface, all for the device where it names none.
  pub evaluate-score :
      (judge : Option JudgeFn) (r : EvaluationResult)
      → evaluate caught judge output (some truth) id ≡ returned r
      → r.score ≡ (if detected output then best_location_score output truth else 0)
  unfolding positive_result detected
  evaluate-score judge r h =
      let (p, e) = evaluate-positive judge r h in
      ap (λ (x : EvaluationResult). x.score) e ∙ fault_score-located output truth _

  -- A faulty case has the full score exactly if verdict, device and interface all count as right.
  pub evaluate-score_full :
      (judge : Option JudgeFn) (r : EvaluationResult)
      → evaluate caught judge output (some truth) id ≡ returned r
      → (r.score ≡ 1000)
        ↔ ((r.correct_verdict ≡ true) × (r.correct_device ≡ true) × (r.correct_interface ≡ true))
  unfolding positive_result
  evaluate-score_full judge r h =
      let (p, e) = evaluate-positive judge r h in
      rw e (
        worth-full _ (has_interface truth.location) (located output truth) (
          unfold located in
          match_location-inapplicable (or_empty (agent_location output).device)
            (agent_location output).interface (has_interface truth.location)
            (candidate_locations truth)))

  -- The judge decides on the fault type alone: with any two judges that return, the verdict, the
  -- device, the interface and the score come out the same.
  pub evaluate-judge :
      (judge judge' : Option JudgeFn) (r r' : EvaluationResult)
      → evaluate caught judge output (some truth) id ≡ returned r
      → evaluate caught judge' output (some truth) id ≡ returned r'
      → (r.correct_verdict ≡ r'.correct_verdict)
        × (r.correct_device ≡ r'.correct_device)
        × (r.correct_interface ≡ r'.correct_interface)
        × (r.score ≡ r'.score)
  unfolding positive_result
  evaluate-judge judge judge' r r' h h' =
      let (p, e) = evaluate-positive judge r h in
      let (p', e') = evaluate-positive judge' r' h' in
      (rw (e, e'), rw (e, e'), rw (e, e'), rw (e, e'))

dicts-append : (xs ys : List Candidate) → dicts (xs ++ ys) ≡ dicts xs ++ dicts ys
unfolding dicts
dicts-append [] ys = refl
dicts-append (dict l ∷ xs) ys = ap (λ ls. l ∷ ls) (dicts-append xs ys)
dicts-append (other ∷ xs) ys = dicts-append xs ys

best_score-append :
    (device : Text) (interface : Option Text) (applicable : Bool) (xs ys : List Location)
    → best_score device interface applicable xs ≤ best_score device interface applicable (xs ++ ys)
unfolding best_score
best_score-append device interface applicable [] ys = omega arith
best_score-append device interface applicable (x ∷ xs) ys =
    omega (arith, best_score-append device interface applicable xs ys)

abbrev pub with_more : GroundTruth → List Candidate → GroundTruth
with_more truth more = record truth { equivalent_locations = truth.equivalent_locations ++ more }

best_location_score-with_more :
    (output : AgentOutput) (truth : GroundTruth) (more : List Candidate)
    → best_location_score output truth ≤ best_location_score output (with_more truth more)
unfolding best_location_score candidate_locations
best_location_score-with_more output truth more =
    rw (dicts-append truth.equivalent_locations more) (
      best_score-append (or_empty (agent_location output).device) (agent_location output).interface
        (has_interface truth.location) (truth.location ∷ dicts truth.equivalent_locations)
        (dicts more))

-- Accepting more equivalent locations never lowers the score of a diagnosis.
pub evaluate-with_more :
    (caught : Exn → Bool) (judge : Option JudgeFn) (output : AgentOutput) (truth : GroundTruth)
    (more : List Candidate) (id : Text) (r r' : EvaluationResult)
    → evaluate caught judge output (some truth) id ≡ returned r
    → evaluate caught judge output (some (with_more truth more)) id ≡ returned r'
    → r.score ≤ r'.score
evaluate-with_more caught judge output truth more id r r' h h' = ground (
  arith,
  evaluate-score caught output truth id judge r h,
  evaluate-score caught output (with_more truth more) id judge r' h',
  best_location_score-with_more output truth more,
)
