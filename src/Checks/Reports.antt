-- ===== src/Checks/Reports.antt =====
-- Runs of the benchmark report (netopsbench/evaluator/scorer.py).
use net_ops_bench.Prelude.{
  ◌≡◌, refl, true, false, none, some, List, [], ◌∷◌, codes, String, arith, returned,
}
use net_ops_bench.FaultType.{deterministic}
use net_ops_bench.Scorer.{
  AgentOutput, GroundTruth, EvaluationResult, evaluate, negative_result, positive_result,
}
use net_ops_bench.Scorer.Report.{by_difficulty, by_fault_type, positives, counts, is_negative}
use net_ops_bench.Scorer.Report.Counts.{IsScored}
use net_ops_bench.Scorer.Report.Breakdowns.{column, breakdowns_complete}

abbrev verdict_only : String → AgentOutput
verdict_only verdict = record {
  verdict = codes verdict;
  fault_type = none;
  location = none;
  evidence = [];
  reasoning = [];
  tool_calls = [];
  time_taken = 0;
  input_tokens = 0;
  output_tokens = 0;
}

abbrev down_truth : GroundTruth
down_truth = record {
  location = record { device = some (codes "leaf1"); interface = none };
  equivalent_locations = [];
  fault_type = codes "device_down";
}

-- A false alarm, and a faulty case that was taken for healthy.
abbrev alarm : EvaluationResult
alarm = negative_result (verdict_only "fault_detected") (codes "healthy-1")

abbrev missed : EvaluationResult
missed =
    positive_result (verdict_only "network_healthy") down_truth (codes "down-1")
      (false, deterministic false)

abbrev reported : List EvaluationResult
reported = alarm ∷ missed ∷ []

alarm-IsScored : IsScored alarm
unfolding negative_result
alarm-IsScored h = refl

missed-IsScored : IsScored missed
unfolding positive_result is_negative
missed-IsScored h = ground arith

alarm-evaluate :
    evaluate (λ e. true) none (verdict_only "fault_detected") none (codes "healthy-1")
    ≡ returned alarm
unfolding evaluate
alarm-evaluate = refl

breakdowns_complete_example :
    let c = counts reported in
    (column (λ b. b.total) (by_difficulty reported []) ≡ c.total_cases)
    × (column (λ b. b.score_sum) (by_difficulty reported []) ≡ c.score_sum)
    × (column (λ b. b.total) (by_fault_type (positives reported) []) ≡ c.positive_sample_cases)
    × (column (λ b. b.correct) (by_fault_type (positives reported) []) ≡ c.correct_fault_type)
breakdowns_complete_example = breakdowns_complete reported
