-- ===== src/Scorer.antt =====
-- The evaluator (netopsbench/evaluator/scorer.py): scoring of one diagnosis against the ground truth.
-- Scores are kept in thousandths, which hold every value that `round(score, 3)` gives here exactly.
pub mod Matches
pub mod Modes
pub mod Worth
pub mod Scores
pub mod Report
use net_ops_bench.Prelude.{
  ℕ, ◌+◌, ◌≡◌, Bool, true, false, not, ◌&&◌, Option, none, some, List, [], ◌∷◌, Text, codes,
  text_eq, is_empty, lower, strip, is_some, ltb, ◌==◌, if◌then◌else◌, Exn, Outcome, returned,
  raised,
}
use net_ops_bench.Interface.{replace, normalize_interface_name}
use net_ops_bench.FaultType.{JudgeFn, Judgment, judge_fault_type_match, or_empty}

-- {"device": …, "interface": …}; a missing key and None are both `none`.
pub record Location : Type 0 where
  pub device : Option Text
  pub interface : Option Text

abbrev pub no_location : Location
no_location = record { device = none; interface = none }

pub record ToolCall : Type 0 where
  pub tool : Text
  pub args : List (Text × Text)

-- AgentOutput, less the confidence, which is only copied.
pub record AgentOutput : Type 0 where
  pub verdict : Text
  pub fault_type : Option Text
  pub location : Option Location
  pub evidence : List Text
  pub reasoning : Text
  pub tool_calls : List ToolCall
  pub time_taken : ℕ
  pub input_tokens : ℕ
  pub output_tokens : ℕ

-- An entry of `equivalent_locations`; what is no dict is skipped.
pub data Candidate : Type 0 where
  dict : Location → Candidate
  other : Candidate

-- The ground truth of a faulty case; that of a healthy one is the empty dict, `none` below.
pub record GroundTruth : Type 0 where
  pub location : Location
  pub equivalent_locations : List Candidate
  pub fault_type : Text

pub data MatchMode : Type 0 where
  no_match exact equivalent partial : MatchMode

-- (device, interface, first); the start value (-1, -1, -1), below every other, is `none`.
pub record Rank : Type 0 where
  pub device : ℕ
  pub interface : ℕ
  pub first : ℕ

pub record BestMatch : Type 0 where
  pub rank : Option Rank
  pub device : Bool
  pub interface : Bool
  pub location : Option Location
  pub mode : MatchMode

abbrev pub bit : Bool → ℕ
bit true = 1
bit false = 0

-- The loop of _is_better_location_rank over the pairs of values.
better_values : List ℕ → List ℕ → Bool
better_values (v ∷ vs) (b ∷ bs) =
    let rest = better_values vs bs in if ltb b v then true else if ltb v b then false else rest
better_values _ _ = false

unfoldable pub is_better_location_rank : Rank → Option Rank → Bool
unfolding better_values
is_better_location_rank rank none = true
is_better_location_rank rank (some best) =
    better_values (rank.device ∷ rank.interface ∷ rank.first ∷ [])
      (best.device ∷ best.interface ∷ best.first ∷ [])

unfoldable pub normalize_name : Text → Text
normalize_name name =
    if is_empty name
    then []
    else replace (codes "_") [] (replace (codes "-") [] (strip (lower name)))

module _ (agent_device : Text) (agent_interface : Option Text) (interface_applicable : Bool) where
  unfoldable pub device_match : Location → Bool
  device_match location =
      text_eq (normalize_name agent_device) (normalize_name (or_empty location.device))

  unfoldable pub interface_match : Location → Bool
  interface_match location =
      if interface_applicable
      then text_eq (normalize_interface_name agent_interface)
          (normalize_interface_name location.interface)
      else true

  -- The body of the loop of _match_location.
  unfoldable pub consider : ℕ → Location → BestMatch → BestMatch
  consider index location best =
      let device = device_match location in
      let interface = interface_match location in
      let rank : Rank = record {
        device = bit device;
        interface = bit interface;
        first = bit (index == 0);
      } in
      if is_better_location_rank rank best.rank
      then record {
        rank = some rank;
        device = device;
        interface = interface;
        location = some location;
        mode = if device && interface then (if index == 0 then exact else equivalent) else partial;
      }
      else best

  pub consider_all : ℕ → List Location → BestMatch → BestMatch
  consider_all index [] best = best
  consider_all index (location ∷ rest) best =
      consider_all (index + 1) rest (consider index location best)

  unfoldable pub start : BestMatch
  start = record {
    rank = none;
    device = false;
    interface = not interface_applicable;
    location = none;
    mode = no_match;
  }

  unfoldable pub match_location : List Location → BestMatch
  unfolding consider_all start
  match_location candidates = consider_all 0 candidates start

pub record Details : Type 0 where
  pub agent_output : AgentOutput
  pub negative_sample : Bool
  pub false_positive : Bool
  pub ground_truth : Option GroundTruth
  pub interface_applicable : Bool
  pub matched_location : Option Location
  pub location_match_mode : MatchMode
  pub fault_type_judgment : Option Judgment
  pub difficulty : Option Text

pub record EvaluationResult : Type 0 where
  pub testcase_id : Text
  pub correct_verdict : Bool
  pub correct_device : Bool
  pub correct_interface : Bool
  pub correct_fault_type : Bool
  pub score : ℕ
  pub details : Details

unfoldable pub negative_result : AgentOutput → Text → EvaluationResult
negative_result output testcase_id =
    let correct = text_eq output.verdict (codes "network_healthy") in
    record {
      testcase_id = testcase_id;
      correct_verdict = correct;
      correct_device = true;
      correct_interface = true;
      correct_fault_type = true;
      score = if correct then 1000 else 0;
      details = record {
        agent_output = output;
        negative_sample = true;
        false_positive = not correct;
        ground_truth = none;
        interface_applicable = false;
        matched_location = none;
        location_match_mode = no_match;
        fault_type_judgment = none;
        difficulty = none;
      };
    }

-- `bool(interface)`
unfoldable pub has_interface : Location → Bool
has_interface location = not (is_empty (or_empty location.interface))

-- The locations that count as right: that of the ground truth first.
unfoldable pub dicts : List Candidate → List Location
dicts [] = []
dicts (dict location ∷ rest) = location ∷ dicts rest
dicts (other ∷ rest) = dicts rest

unfoldable pub candidate_locations : GroundTruth → List Location
candidate_locations truth = truth.location ∷ dicts truth.equivalent_locations

abbrev pub agent_location : AgentOutput → Location
agent_location output = elim output.location [ none ↦ no_location | some location ↦ location ]

-- The match of one diagnosis with a faulty case.
unfoldable pub located : AgentOutput → GroundTruth → BestMatch
located output truth =
    let location = agent_location output in
    match_location (or_empty location.device) location.interface (has_interface truth.location)
      (candidate_locations truth)

-- The two parts of a location: the device and, if it is applicable, the interface.
unfoldable pub worth : (interface_applicable device interface : Bool) → ℕ
worth true device interface = (if device then 500 else 0) + (if interface then 500 else 0)
worth false device interface = if device then 1000 else 0

-- The verdict gates the score.
unfoldable pub fault_score : Bool → Bool → BestMatch → ℕ
fault_score correct_verdict interface_applicable best =
    if not correct_verdict then 0 else worth interface_applicable best.device best.interface

unfoldable pub positive_result :
    AgentOutput → GroundTruth → Text → Bool × Judgment → EvaluationResult
positive_result output truth testcase_id (correct_fault_type, judgment) =
    let best = located output truth in
    let correct_verdict = text_eq output.verdict (codes "fault_detected") in
    let interface_applicable = has_interface truth.location in
    record {
      testcase_id = testcase_id;
      correct_verdict = correct_verdict;
      correct_device = best.device;
      correct_interface = best.interface;
      correct_fault_type = correct_fault_type;
      score = fault_score correct_verdict interface_applicable best;
      details = record {
        agent_output = output;
        negative_sample = false;
        false_positive = false;
        ground_truth = some truth;
        interface_applicable = interface_applicable;
        matched_location = best.location;
        location_match_mode = best.mode;
        fault_type_judgment = some judgment;
        difficulty = none;
      };
    }

finish : AgentOutput → GroundTruth → Text → Outcome (Bool × Judgment) → Outcome EvaluationResult
finish output truth testcase_id (returned judged) =
    returned (positive_result output truth testcase_id judged)
finish output truth testcase_id (raised e) = raised e

-- Evaluator.evaluate
unfoldable pub evaluate :
    (caught : Exn → Bool)
    → Option JudgeFn
    → AgentOutput
    → Option GroundTruth
    → Text
    → Outcome EvaluationResult
unfolding finish
evaluate caught judge output none testcase_id = returned (negative_result output testcase_id)
evaluate caught judge output (some truth) testcase_id = finish output truth testcase_id (
    judge_fault_type_match caught judge (or_empty output.fault_type) truth.fault_type
      output.reasoning output.evidence)
