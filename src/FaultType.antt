-- ===== src/FaultType.antt =====
-- Canonical fault types and the optional semantic judge (netopsbench/evaluator/fault_type_judge.py),
-- with the alias index of netopsbench/platform/faults/specs.py.
pub mod Matching
use net_ops_bench.Prelude.{
  ℕ, ◌-◌, Bool, true, false, not, ◌&&◌, ◌||◌, Option, none, some, List, [], ◌∷◌, ◌++◌, map, Text,
  codes, text_eq, text_leb, is_empty, lower, strip, rstrip, length, take, any, leb, if◌then◌else◌,
  Dict, lookup, lookup_or, put, Exn, Outcome, returned, raised, String,
}
use net_ops_bench.Interface.{replace}

-- The name and the aliases of a registered fault.
pub record FaultName : Type 0 where
  pub name : Text
  pub aliases : List Text
  pub scenario_supported : Bool

abbrev plain : String → FaultName
plain s = record { name = codes s; aliases = []; scenario_supported = true }

abbrev with_alias : String → String → FaultName
with_alias s a = record { name = codes s; aliases = codes a ∷ []; scenario_supported = true }

-- _build_builtin_fault_specs: link, routing, impairment, system and ACL faults.
unfoldable pub builtin_faults : List FaultName
builtin_faults =
    plain "link_down"
    ∷ plain "link_flapping"
    ∷ plain "blackhole_route"
    ∷ with_alias "static_route_misconfig" "static_route_misconfiguration"
    ∷ plain "bgp_neighbor_misconfig"
    ∷ plain "route_policy_misconfig"
    ∷ plain "mtu_mismatch"
    ∷ plain "packet_corruption"
    ∷ plain "packet_loss"
    ∷ plain "high_latency"
    ∷ plain "device_down"
    ∷ with_alias "acl_misconfig" "acl_misconfiguration"
    ∷ []

abbrev alias : String → String → Text × Text
alias a b = (codes a, codes b)

unfoldable pub canonical_fault_aliases : Dict Text
canonical_fault_aliases = alias "static_route_misconfiguration" "static_route_misconfig" ∷ []

put_all : List Text → Text → Dict Text → Dict Text
put_all [] canonical d = d
put_all (a ∷ as_) canonical d = put_all as_ canonical (put a canonical d)

index_from : List FaultName → Dict Text → Dict Text
unfolding put_all
index_from [] aliases = aliases
index_from (spec ∷ specs) aliases =
    let canonical = lookup_or spec.name (lookup spec.name aliases) in
    index_from specs
      (put_all spec.aliases canonical (put spec.name canonical (put canonical canonical aliases)))

unfoldable pub builtin_alias_index : Dict Text
unfolding index_from
builtin_alias_index = index_from builtin_faults canonical_fault_aliases

-- A missing name is the empty text.
abbrev pub or_empty : Option Text → Text
or_empty none = []
or_empty (some s) = s

unfoldable pub canonicalize_fault_name : Text → Text
canonicalize_fault_name name =
    let raw_name = strip name in lookup_or raw_name (lookup raw_name builtin_alias_index)

insert_sorted : Text → List Text → List Text
insert_sorted x [] = x ∷ []
insert_sorted x (y ∷ ys) = if text_leb x y then x ∷ y ∷ ys else y ∷ insert_sorted x ys

sorted : List Text → List Text
unfolding insert_sorted
sorted [] = []
sorted (x ∷ xs) = insert_sorted x (sorted xs)

supported : List FaultName → List Text
supported [] = []
supported (spec ∷ specs) =
    let rest = supported specs in if spec.scenario_supported then spec.name ∷ rest else rest

-- The names of the builtin faults, which are all different, in order.
unfoldable pub supported_fault_types : List Text
unfolding supported sorted text_leb builtin_faults
supported_fault_types = sorted (supported builtin_faults)

unfoldable pub legacy_fault_type_aliases : Dict Text
legacy_fault_type_aliases =
    alias "link_failure" "link_down"
    ∷ alias "linkdown" "link_down"
    ∷ alias "link failure" "link_down"
    ∷ alias "blackhole" "blackhole_route"
    ∷ alias "black_hole" "blackhole_route"
    ∷ alias "static_route_error" "static_route_misconfig"
    ∷ alias "static_route_misconfiguration" "static_route_misconfig"
    ∷ alias "route_misconfig" "static_route_misconfig"
    ∷ alias "mtu_error" "mtu_mismatch"
    ∷ alias "bgp_peer_misconfig" "bgp_neighbor_misconfig"
    ∷ alias "bgp_peer_config_error" "bgp_neighbor_misconfig"
    ∷ alias "bgp_session_misconfig" "bgp_neighbor_misconfig"
    ∷ alias "bgp_neighbor_config_error" "bgp_neighbor_misconfig"
    ∷ alias "route_policy_error" "route_policy_misconfig"
    ∷ alias "route_policy_misconfiguration" "route_policy_misconfig"
    ∷ alias "bgp_policy_misconfig" "route_policy_misconfig"
    ∷ alias "route_origination_missing" "route_policy_misconfig"
    ∷ alias "network_statement_missing" "route_policy_misconfig"
    ∷ alias "prefix_filter_misconfig" "route_policy_misconfig"
    ∷ alias "outbound_prefix_filter" "route_policy_misconfig"
    ∷ alias "acl_misconfiguration" "acl_misconfig"
    ∷ []

-- `x or y` on texts
abbrev pub or_else : Text → Text → Text
or_else [] y = y
or_else (c ∷ x) y = c ∷ x

unfoldable pub canonicalize_fault_type : Text → Text
canonicalize_fault_type fault_type =
    let raw = strip fault_type in
    let spelled = replace (codes " ") (codes "_") (strip (lower raw)) in
    let normalized = lookup_or spelled (lookup spelled legacy_fault_type_aliases) in
    if is_empty raw then [] else or_else (canonicalize_fault_name normalized) normalized

-- _truncate_text
unfoldable pub truncate_text : Text → ℕ → Text
truncate_text value limit =
    let text = strip value in
    if leb (length text) limit then text else rstrip (take (limit - 3) text) ++ codes "..."

unfoldable pub compact_evidence : List Text → List Text
compact_evidence evidence = map (λ item. truncate_text item 240) (take 6 evidence)

pub record JudgeRequest : Type 0 where
  pub agent_fault_type : Text
  pub ground_truth_fault_type : Text
  pub canonical_agent_fault_type : Text
  pub canonical_ground_truth_fault_type : Text
  pub allowed_fault_types : List Text
  pub agent_reasoning : Text
  pub evidence : List Text

-- The fields of a judgment on which the match depends.
pub record JudgeResult : Type 0 where
  pub canonical_agent_fault_type : Text
  pub canonical_ground_truth_fault_type : Text
  pub is_match : Bool
  pub taxonomy_violation : Bool

unfoldable pub unknown_fault_type : Text
unknown_fault_type = codes "unknown"

unfoldable pub is_allowed : Text → Bool
is_allowed name = any (text_eq name) ([] ∷ unknown_fault_type ∷ supported_fault_types)

-- The validators of FaultTypeJudgeResult, which run whenever one is built.
unfoldable pub validate_result : JudgeResult → JudgeResult
validate_result r =
    let agent = or_else (canonicalize_fault_type r.canonical_agent_fault_type) unknown_fault_type in
    let truth =
      or_else (canonicalize_fault_type r.canonical_ground_truth_fault_type) unknown_fault_type in
    let allowed = is_allowed agent && is_allowed truth in
    record {
      canonical_agent_fault_type = agent;
      canonical_ground_truth_fault_type = truth;
      is_match = r.is_match && allowed;
      taxonomy_violation = r.taxonomy_violation || not allowed;
    }

-- An LLM or a test double: what the injected callable returns, or raises.
abbrev pub JudgeFn : Type 0
JudgeFn = JudgeRequest → Outcome JudgeResult

validated : Outcome JudgeResult → Outcome JudgeResult
validated (returned raw) = returned (validate_result raw)
validated (raised e) = raised e

-- StructuredFaultTypeJudge.judge
unfoldable pub structured_judge : JudgeFn → JudgeFn
unfolding validated
structured_judge judge_fn request = validated (judge_fn request)

unfoldable pub build_judge_request : Text → Text → Text → List Text → JudgeRequest
build_judge_request agent_fault_type ground_truth_fault_type agent_reasoning evidence = record {
  agent_fault_type = agent_fault_type;
  ground_truth_fault_type = ground_truth_fault_type;
  canonical_agent_fault_type = canonicalize_fault_type agent_fault_type;
  canonical_ground_truth_fault_type = canonicalize_fault_type ground_truth_fault_type;
  allowed_fault_types = supported_fault_types;
  agent_reasoning = truncate_text agent_reasoning 1200;
  evidence = compact_evidence evidence;
}

-- The `mode` of the details, with the match.
pub data Judgment : Type 0 where
  deterministic : Bool → Judgment
  judge_error : Exn → Judgment
  llm_judge : Bool → JudgeResult → Judgment

-- The three vetoes on a judgment.
unfoldable pub accepts : JudgeRequest → JudgeResult → Bool
accepts request judgment =
    judgment.is_match
    && not judgment.taxonomy_violation
    && text_eq judgment.canonical_ground_truth_fault_type request.canonical_ground_truth_fault_type
    && text_eq judgment.canonical_agent_fault_type request.canonical_ground_truth_fault_type

-- `caught` tells the exceptions that the `except` clause names (ValidationError, JSONDecodeError,
-- ValueError, TypeError) from the others, which pass through.
consult : (caught : Exn → Bool) → JudgeRequest → Outcome JudgeResult → Outcome (Bool × Judgment)
consult caught request (returned judgment) =
    returned (accepts request judgment, llm_judge (accepts request judgment) judgment)
consult caught request (raised e) = if caught e then returned (false, judge_error e) else raised e

fast_path : JudgeRequest → Bool
fast_path request =
    not (is_empty request.canonical_agent_fault_type)
    && text_eq request.canonical_agent_fault_type request.canonical_ground_truth_fault_type

unfoldable pub judge_request :
    (caught : Exn → Bool) → Option JudgeFn → JudgeRequest → Outcome (Bool × Judgment)
unfolding consult fast_path
judge_request caught judge request =
    if fast_path request then returned (true, deterministic true) else elim judge [
      | none ↦ returned (false, deterministic false)
      | some judge_fn ↦ consult caught request (judge_fn request)
    ]

unfoldable pub judge_fault_type_match :
    (caught : Exn → Bool)
    → Option JudgeFn
    → Text
    → Text
    → Text
    → List Text
    → Outcome (Bool × Judgment)
judge_fault_type_match caught judge agent truth reasoning evidence =
    judge_request caught judge (build_judge_request agent truth reasoning evidence)
