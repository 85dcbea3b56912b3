-- ===== src/Scorer/Report/Counts.antt =====
-- The counts of a report fit together, and its rates lie between 0 and 1.
use net_ops_bench.Prelude.{
  ℕ, ◌+◌, ◌≤◌, ◌<◌, ◌≡◌, refl, Bool, true, not, Option, none, some, List, [], ◌∷◌, Text, length,
  keep, count_if, count_if-le, All, arith, Exn, returned,
}
use net_ops_bench.FaultType.{JudgeFn}
use net_ops_bench.Scorer.{
  EvaluationResult, AgentOutput, GroundTruth, evaluate, negative_result, positive_result,
}
use net_ops_bench.Scorer.Scores.{evaluate-positive}
use net_ops_bench.Scorer.Report.{
  Ratio, ratio, is_negative, is_fully_correct_case, is_interface_applicable, negatives, positives,
  counts, rates,
}

-- A fraction from 0 to 1.
abbrev pub IsRate : Ratio → Type 0
IsRate r = (r.part ≤ r.whole) × (0 < r.whole)

-- What a result of `evaluate` says of false positives.
abbrev pub IsScored : EvaluationResult → Type 0
IsScored r = is_negative r ≡ true → r.details.false_positive ≡ not r.correct_verdict

ratio-IsRate : (part whole : ℕ) → part ≤ whole → IsRate (ratio part whole)
unfolding ratio
ratio-IsRate part whole h = ground arith

module _ {ℓ} {A : Type ℓ} where
  length-keep-add :
      (p : A → Bool) (xs : List A)
      → length (keep p xs) + length (keep (λ x. not (p x)) xs) ≡ length xs
  length-keep-add p [] = omega arith
  length-keep-add p (x ∷ xs) = ground (arith, length-keep-add p xs)

  count_if-keep-add :
      (p q : A → Bool) (xs : List A)
      → count_if q (keep p xs) + count_if q (keep (λ x. not (p x)) xs) ≡ count_if q xs
  count_if-keep-add p q [] = omega arith
  count_if-keep-add p q (x ∷ xs) = ground (arith, count_if-keep-add p q xs)

  count_if_mono :
      (p q : A → Bool) (xs : List A)
      → ((x : A) → p x ≡ true → q x ≡ true)
      → count_if p xs ≤ count_if q xs
  count_if_mono p q [] h = omega arith
  count_if_mono p q (x ∷ xs) h = ground (arith, h x, count_if_mono p q xs h)

  count_if-not-add :
      (p : A → Bool) (xs : List A) → count_if p xs + count_if (λ x. not (p x)) xs ≡ length xs
  count_if-not-add p [] = omega arith
  count_if-not-add p (x ∷ xs) = ground (arith, count_if-not-add p xs)

false_positives-eq :
    (results : List EvaluationResult)
    → All IsScored results
    → count_if (λ r. r.details.false_positive) (negatives results)
      ≡ count_if (λ r. not r.correct_verdict) (negatives results)
false_positives-eq [] h = refl
false_positives-eq (r ∷ rest) h = ground (arith, h.0, false_positives-eq rest h.1)

-- Every case is a true or false positive or negative; the correct verdicts are the true ones, and the
-- cases are the negative and the positive samples.
pub counts-confusion :
    (results : List EvaluationResult)
    → All IsScored results
    → let c = counts results in
      (c.tp_det + c.fn_det + c.fp_det + c.tn_det ≡ c.total_cases)
      × (c.tp_det + c.tn_det ≡ c.correct_verdict)
      × (c.negative_sample_cases + c.positive_sample_cases ≡ c.total_cases)
unfolding counts
counts-confusion results h =
    let tp = count_if-le (λ r. r.correct_verdict) (positives results) in
    let fp = count_if-le (λ r. r.details.false_positive) (negatives results) in
    let split = length-keep-add is_negative results in
    let verdicts = count_if-keep-add is_negative (λ r. r.correct_verdict) results in
    let missed = count_if-not-add (λ r. r.correct_verdict) (negatives results) in
    let same = false_positives-eq results h in (omega arith, omega arith, omega arith)

-- The rates of a report with no case are the fractions 0 / 1; all rates lie between 0 and 1.
pub rates-IsRate :
    (results : List EvaluationResult)
    → let r = rates (counts results) in
      IsRate r.overall_accuracy
      × IsRate r.detection_accuracy
      × IsRate r.localization_success_rate
      × IsRate r.interface_localization_rate
      × IsRate r.fault_type_accuracy
      × IsRate r.detection_precision
      × IsRate r.detection_recall
unfolding rates counts
rates-IsRate results = (
  ratio-IsRate _ _ (count_if-le _ results),
  ratio-IsRate _ _ (count_if-le _ results),
  ratio-IsRate _ _ (count_if-le _ (positives results)),
  ratio-IsRate _ _
      (count_if_mono _ is_interface_applicable (positives results) (λ r h. ground arith)),
  ratio-IsRate _ _ (count_if-le _ (positives results)),
  ratio-IsRate _ _ (omega arith),
  ratio-IsRate _ _ (omega arith),
)

-- A case that counts for the device, the interface or as fully correct has the correct verdict.
pub counts-gated :
    (results : List EvaluationResult)
    → let c = counts results in
      (c.fully_correct ≤ c.correct_verdict)
      × (c.correct_device ≤ c.tp_det)
      × (c.correct_interface ≤ c.tp_det)
unfolding counts is_fully_correct_case
counts-gated results = (
  count_if_mono is_fully_correct_case (λ r. r.correct_verdict) results (λ r h. ground arith),
  count_if_mono _ (λ r. r.correct_verdict) (positives results) (λ r h. ground arith),
  count_if_mono _ (λ r. r.correct_verdict) (positives results) (λ r h. ground arith),
)

-- What `evaluate` returns, for a healthy case as for a faulty one, is scored in this sense.
pub evaluate-IsScored :
    (caught : Exn → Bool) (judge : Option JudgeFn) (output : AgentOutput)
    (truth : Option GroundTruth) (id : Text) (r : EvaluationResult)
    → evaluate caught judge output truth id ≡ returned r
    → IsScored r
unfolding evaluate negative_result is_negative
evaluate-IsScored caught judge output none id r h = ground arith
evaluate-IsScored caught judge output (some truth) id r h =
    let (p, e) = evaluate-positive caught output truth id judge r h in
    unfold positive_result in rw e (λ n. absurd (ground arith))
