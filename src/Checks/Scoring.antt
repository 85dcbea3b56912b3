-- ===== src/Checks/Scoring.antt =====
-- Runs of the evaluator (netopsbench/evaluator/scorer.py, fault_type_judge.py).
use net_ops_bench.Interface.{
  replace, at_end, e_style_match, eth_name, fallback, linux_match, match_last_number, match_prefix,
  match_second_number, normalize_interface_name, sonic_match, span_digits, vendor_style_match,
}
use net_ops_bench.Prelude.{
  ◌≡◌, ◌≤◌, refl, Bool, true, false, Option, none, some, List, [], ◌∷◌, Text, codes, String, any,
  ◌⊎◌, Exn, returned, raised, if◌then◌else◌, strip, is_space, lookup, put, text_eq, lower_code,
  int_of, show, value_from, is_digit,
}
use net_ops_bench.FaultType.{
  JudgeFn, JudgeResult, Judgment, deterministic, llm_judge, judge_fault_type_match,
  canonicalize_fault_type, build_judge_request, structured_judge, is_allowed, accepts,
  judge_request, canonicalize_fault_name, builtin_alias_index, builtin_faults,
  canonical_fault_aliases, legacy_fault_type_aliases, validate_result, supported_fault_types,
  unknown_fault_type,
}
use net_ops_bench.FaultType.Matching.{JudgedMatch, judge_match_sound}
use net_ops_bench.Scorer.{
  Location, AgentOutput, Candidate, dict, other, GroundTruth, exact, equivalent, partial,
  EvaluationResult, evaluate, positive_result, match_location, located, fault_score, worth,
  has_interface, candidate_locations, dicts, consider, is_better_location_rank, device_match,
  normalize_name, interface_match, start,
}
use net_ops_bench.Scorer.Matches.{full_match}
use net_ops_bench.Scorer.Modes.{match_location-mode}
use net_ops_bench.Scorer.Scores.{
  evaluate-score, evaluate-with_more, best_location_score, detected, with_more,
}

abbrev at : String → String → Location
at device interface = record { device = some (codes device); interface = some (codes interface) }

abbrev diagnosed : String → Location → AgentOutput
diagnosed fault location = record {
  verdict = codes "fault_detected";
  fault_type = some (codes fault);
  location = some location;
  evidence = codes "carrier lost" ∷ [];
  reasoning = codes "port down";
  tool_calls = [];
  time_taken = 12;
  input_tokens = 0;
  output_tokens = 0;
}

abbrev link_truth : GroundTruth
link_truth = record {
  location = at "leaf-1" "Ethernet0";
  equivalent_locations = dict (at "spine1" "eth3") ∷ other ∷ [];
  fault_type = codes "link_down";
}

abbrev caught : Exn → Bool
caught e = true

abbrev far_end : AgentOutput
far_end = diagnosed "link_failure" (at "Spine_1" "Ethernet8")

abbrev far_end_result : EvaluationResult
far_end_result = positive_result far_end link_truth (codes "case") (true, deterministic true)

far_end-evaluate :
    evaluate caught none far_end (some link_truth) (codes "case") ≡ returned far_end_result
unfolding evaluate judge_fault_type_match canonicalize_fault_type build_judge_request judge_request
    strip is_space canonicalize_fault_name lookup builtin_alias_index builtin_faults put
    canonical_fault_aliases text_eq legacy_fault_type_aliases replace lower_code
far_end-evaluate = refl

evaluate-score_example :
    far_end_result.score ≡ (if detected far_end then best_location_score far_end link_truth else 0)
evaluate-score_example =
    evaluate-score caught far_end link_truth (codes "case") none far_end_result far_end-evaluate

-- A judge that takes every diagnosis for a dead link.
abbrev dead_link : JudgeResult
dead_link = record {
  canonical_agent_fault_type = codes "link_down";
  canonical_ground_truth_fault_type = codes "link_down";
  is_match = true;
  taxonomy_violation = false;
}

abbrev lenient : JudgeFn
lenient request = returned dead_link

abbrev unavailable : Exn
unavailable = record { error_type = codes "TimeoutError"; message = codes "model" }

abbrev broken_judge : JudgeFn
broken_judge request = raised unavailable

abbrev uncaught : Exn → Bool
uncaught e = false

abbrev carrier : AgentOutput
carrier = diagnosed "carrier loss" (at "leaf1" "eth2")

abbrev carrier_result : Judgment → Bool → EvaluationResult
carrier_result judgment correct =
    positive_result carrier link_truth (codes "case") (correct, judgment)

carrier-lenient :
    evaluate caught (some lenient) carrier (some link_truth) (codes "case")
    ≡ returned (carrier_result (llm_judge true dead_link) true)
unfolding evaluate judge_fault_type_match judge_request build_judge_request canonicalize_fault_type
    strip is_space canonicalize_fault_name lookup builtin_alias_index builtin_faults put
    canonical_fault_aliases text_eq legacy_fault_type_aliases replace lower_code accepts
carrier-lenient = refl

carrier-alone :
    evaluate caught none carrier (some link_truth) (codes "case")
    ≡ returned (carrier_result (deterministic false) false)
unfolding evaluate judge_fault_type_match judge_request build_judge_request canonicalize_fault_type
    strip is_space canonicalize_fault_name lookup builtin_alias_index builtin_faults put
    canonical_fault_aliases text_eq legacy_fault_type_aliases replace lower_code
carrier-alone = refl

abbrev nearby : List Candidate
nearby = dict (at "leaf1" "Ethernet4") ∷ []

abbrev nearby_result : EvaluationResult
nearby_result =
    positive_result carrier (with_more link_truth nearby) (codes "case")
      (false, deterministic false)

nearby-evaluate :
    evaluate caught none carrier (some (with_more link_truth nearby)) (codes "case")
    ≡ returned nearby_result
unfolding evaluate judge_fault_type_match judge_request build_judge_request canonicalize_fault_type
    strip is_space canonicalize_fault_name lookup builtin_alias_index builtin_faults put
    canonical_fault_aliases text_eq legacy_fault_type_aliases replace lower_code
nearby-evaluate = refl

evaluate-with_more_example :
    (carrier_result (deterministic false) false).score ≤ nearby_result.score
evaluate-with_more_example =
    evaluate-with_more caught none carrier link_truth nearby (codes "case")
      (carrier_result (deterministic false) false) nearby_result carrier-alone nearby-evaluate

-- The score rises from 500 to 1000 when the location is accepted.
nearby_scores :
    ((carrier_result (deterministic false) false).score ≡ 500) × (nearby_result.score ≡ 1000)
unfolding positive_result fault_score text_eq worth has_interface located match_location
    candidate_locations dicts consider is_better_location_rank device_match normalize_name replace
    strip is_space lower_code interface_match at_end e_style_match eth_name fallback linux_match
    match_last_number match_prefix match_second_number normalize_interface_name sonic_match
    span_digits vendor_style_match int_of show value_from is_digit start
nearby_scores = (refl, refl)

lenient-match :
    judge_fault_type_match caught
      (some (structured_judge lenient))
      (codes "carrier loss")
      (codes "link_down")
      (codes "port down")
      []
    ≡ returned (true, llm_judge true dead_link)
unfolding judge_fault_type_match judge_request build_judge_request canonicalize_fault_type strip
    is_space canonicalize_fault_name lookup builtin_alias_index builtin_faults put
    canonical_fault_aliases text_eq legacy_fault_type_aliases replace lower_code accepts
    structured_judge validate_result is_allowed supported_fault_types unknown_fault_type
lenient-match = refl

judge_match_sound_example :
    (canonicalize_fault_type (codes "carrier loss") ≡ canonicalize_fault_type (codes "link_down"))
    ⊎ JudgedMatch
        (some (structured_judge lenient))
        (build_judge_request (codes "carrier loss") (codes "link_down") (codes "port down") [])
judge_match_sound_example =
    judge_match_sound caught (codes "carrier loss") (codes "link_down") (codes "port down") []
      (some (structured_judge lenient)) (llm_judge true dead_link) lenient-match

broken_judge-raises :
    judge_fault_type_match uncaught
      (some broken_judge)
      (codes "carrier loss")
      (codes "link_down")
      []
      []
    ≡ raised unavailable
unfolding judge_fault_type_match judge_request build_judge_request canonicalize_fault_type strip
    is_space canonicalize_fault_name lookup builtin_alias_index builtin_faults put
    canonical_fault_aliases text_eq legacy_fault_type_aliases replace lower_code
broken_judge-raises = refl

abbrev places : List Location
places = at "leaf-1" "Ethernet0" ∷ at "spine1" "eth3" ∷ []

abbrev said : Option Text
said = some (codes "Ethernet8")

spine-found :
    (match_location (codes "Spine_1") said true places).location ≡ some (at "spine1" "eth3")
unfolding match_location consider is_better_location_rank device_match text_eq normalize_name
    replace strip is_space lower_code
spine-found = refl

match_location-mode_example : (match_location (codes "Spine_1") said true places).mode ≡ (
    if full_match (codes "Spine_1") said true (at "leaf-1" "Ethernet0")
    then exact
    else if any (full_match (codes "Spine_1") said true) (at "spine1" "eth3" ∷ [])
    then equivalent
    else partial)
match_location-mode_example =
    match_location-mode (codes "Spine_1") said true (at "leaf-1" "Ethernet0")
      (at "spine1" "eth3" ∷ [])
