-- ===== src/Scorer/Report.antt =====
-- Evaluator.generate_report: the counts of a benchmark report, its rates as exact fractions (the
-- source rounds them to three places), and its two breakdowns.
pub mod Counts
pub mod Breakdowns
use net_ops_bench.Prelude.{
  ℕ, suc, ◌+◌, ◌-◌, Bool, true, false, not, ◌&&◌, Option, none, some, List, [], ◌∷◌, Text, codes,
  text_eq, length, keep, count_if, ◌==◌, if◌then◌else◌, Dict, lookup, lookup_or, put,
}
use net_ops_bench.Scorer.{EvaluationResult, AgentOutput, GroundTruth, has_interface}

-- part / whole
pub record Ratio : Type 0 where
  pub part : ℕ
  pub whole : ℕ

-- `part / whole if whole else 0.0`
unfoldable pub ratio : ℕ → ℕ → Ratio
ratio part whole =
    if whole == 0 then record { part = 0; whole = 1 } else record { part = part; whole = whole }

unfoldable pub is_negative : EvaluationResult → Bool
is_negative r = r.details.negative_sample

-- bool((details["ground_truth"]["location"] or {}).get("interface"))
unfoldable pub is_interface_applicable : EvaluationResult → Bool
is_interface_applicable r = elim r.details.ground_truth [
  | none ↦ false
  | some truth ↦ has_interface truth.location
]

-- _is_fully_correct_case
unfoldable pub is_fully_correct_case : EvaluationResult → Bool
is_fully_correct_case r =
    if is_negative r
    then r.correct_verdict
    else r.correct_verdict
      && r.correct_device
      && r.correct_fault_type
      && (if is_interface_applicable r then r.correct_interface else true)

abbrev negatives : List EvaluationResult → List EvaluationResult
negatives results = keep is_negative results

abbrev pub positives : List EvaluationResult → List EvaluationResult
positives results = keep (λ r. not (is_negative r)) results

unfoldable pub total_of : (EvaluationResult → ℕ) → List EvaluationResult → ℕ
total_of f [] = 0
total_of f (r ∷ rest) = f r + total_of f rest

pub record CaseCounts : Type 0 where
  pub total_cases : ℕ
  pub correct_verdict : ℕ
  pub correct_device : ℕ
  pub correct_interface : ℕ
  pub correct_fault_type : ℕ
  pub fully_correct : ℕ
  pub interface_applicable_cases : ℕ
  pub negative_sample_cases : ℕ
  pub positive_sample_cases : ℕ
  pub false_positives : ℕ
  pub false_negatives : ℕ
  pub tp_det : ℕ
  pub fn_det : ℕ
  pub fp_det : ℕ
  pub tn_det : ℕ
  pub total_tool_calls : ℕ
  pub total_time : ℕ
  pub total_input_tokens : ℕ
  pub total_output_tokens : ℕ
  pub score_sum : ℕ

unfoldable pub counts : List EvaluationResult → CaseCounts
unfolding total_of
counts results =
    let pos = positives results in
    let neg = negatives results in
    let tp = count_if (λ r. r.correct_verdict) pos in
    let fp = count_if (λ r. r.details.false_positive) neg in
    record {
      total_cases = length results;
      correct_verdict = count_if (λ r. r.correct_verdict) results;
      correct_device = count_if (λ r. r.correct_verdict && r.correct_device) pos;
      correct_interface =
          count_if (λ r. is_interface_applicable r && r.correct_verdict && r.correct_interface) pos;
      correct_fault_type = count_if (λ r. r.correct_fault_type) pos;
      fully_correct = count_if is_fully_correct_case results;
      interface_applicable_cases = count_if is_interface_applicable pos;
      negative_sample_cases = length neg;
      positive_sample_cases = length pos;
      false_positives = fp;
      false_negatives =
          count_if (λ r. text_eq r.details.agent_output.verdict (codes "network_healthy")) pos;
      tp_det = tp;
      fn_det = length pos - tp;
      fp_det = fp;
      tn_det = length neg - fp;
      total_tool_calls = total_of (λ r. length r.details.agent_output.tool_calls) results;
      total_time = total_of (λ r. r.details.agent_output.time_taken) results;
      total_input_tokens = total_of (λ r. r.details.agent_output.input_tokens) results;
      total_output_tokens = total_of (λ r. r.details.agent_output.output_tokens) results;
      score_sum = total_of (λ r. r.score) results;
    }

pub record Rates : Type 0 where
  pub overall_accuracy : Ratio
  pub detection_accuracy : Ratio
  pub localization_success_rate : Ratio
  pub interface_localization_rate : Ratio
  pub fault_type_accuracy : Ratio
  pub detection_precision : Ratio
  pub detection_recall : Ratio
  pub false_positive_rate : Option Ratio
  pub false_negative_rate : Option Ratio

-- `… if cases else None`
ratio? : ℕ → ℕ → Option Ratio
ratio? part whole = if whole == 0 then none else some (record { part = part; whole = whole })

unfoldable pub rates : CaseCounts → Rates
unfolding ratio?
rates c = record {
  overall_accuracy = ratio c.fully_correct c.total_cases;
  detection_accuracy = ratio c.correct_verdict c.total_cases;
  localization_success_rate = ratio c.correct_device c.positive_sample_cases;
  interface_localization_rate = ratio c.correct_interface c.interface_applicable_cases;
  fault_type_accuracy = ratio c.correct_fault_type c.positive_sample_cases;
  detection_precision = ratio c.tp_det (c.tp_det + c.fp_det);
  detection_recall = ratio c.tp_det (c.tp_det + c.fn_det);
  false_positive_rate = ratio? c.false_positives c.negative_sample_cases;
  false_negative_rate = ratio? c.false_negatives c.positive_sample_cases;
}

-- One line of a breakdown; `correct` is kept for fault types only.
pub record Bucket : Type 0 where
  pub total : ℕ
  pub correct : ℕ
  pub score_sum : ℕ

abbrev pub empty_bucket : Bucket
empty_bucket = record { total = 0; correct = 0; score_sum = 0 }

-- buckets[key]: a new bucket if the key is not there, then one case more.
unfoldable pub add_case : Text → Bool → ℕ → Dict Bucket → Dict Bucket
add_case key correct score buckets =
    let bucket = lookup_or empty_bucket (lookup key buckets) in
    put key
      (record {
        total = bucket.total + 1;
        correct = if correct then bucket.correct + 1 else bucket.correct;
        score_sum = bucket.score_sum + score;
      })
      buckets

difficulty_of : EvaluationResult → Text
difficulty_of r = lookup_or (codes "unknown") r.details.difficulty

unfoldable pub by_difficulty : List EvaluationResult → Dict Bucket → Dict Bucket
unfolding difficulty_of
by_difficulty [] buckets = buckets
by_difficulty (r ∷ rest) buckets =
    by_difficulty rest (add_case (difficulty_of r) false r.score buckets)

fault_type_of : EvaluationResult → Text
fault_type_of r = elim r.details.ground_truth [
  | none ↦ codes "unknown"
  | some truth ↦ truth.fault_type
]

unfoldable pub by_fault_type : List EvaluationResult → Dict Bucket → Dict Bucket
unfolding fault_type_of
by_fault_type [] buckets = buckets
by_fault_type (r ∷ rest) buckets =
    by_fault_type rest (add_case (fault_type_of r) r.correct_fault_type r.score buckets)

pub record Report : Type 0 where
  pub counts : CaseCounts
  pub rates : Rates
  pub breakdown_by_difficulty : Dict Bucket
  pub breakdown_by_fault_type : Dict Bucket

-- Without results the report is the error "No results to report".
unfoldable pub generate_report : List EvaluationResult → Option Report
generate_report [] = none
generate_report (r ∷ rest) =
    let results = r ∷ rest in
    some (record {
      counts = counts results;
      rates = rates (counts results);
      breakdown_by_difficulty = by_difficulty results [];
      breakdown_by_fault_type = by_fault_type (positives results) [];
    })
