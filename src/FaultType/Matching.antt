-- ===== src/FaultType/Matching.antt =====
-- When judge_fault_type_match counts a fault type as correct.
use mathlib.Core.Path.{subst}
use net_ops_bench.Prelude.{
  ◌≡◌, refl, ◌⊎◌, inl, inr, Bool, true, false, Option, none, some, List, Text, text_eq_iff, arith,
  Exn, Outcome, returned, raised, ap, Bool-cases,
}
use net_ops_bench.FaultType.{
  JudgeRequest, JudgeResult, JudgeFn, Judgment, canonicalize_fault_type, accepts, fast_path,
  consult, judge_request, build_judge_request, structured_judge, validated, validate_result,
  is_allowed, judge_fault_type_match,
}

-- A judgment on which all three checks hold.
pub record IsAccepted (truth : Text) (j : JudgeResult) : Type 0 where
  pub matched : j.is_match ≡ true
  pub in_taxonomy : j.taxonomy_violation ≡ false
  pub same_truth : j.canonical_ground_truth_fault_type ≡ truth
  pub agent_is_truth : j.canonical_agent_fault_type ≡ truth

accepts-IsAccepted :
    (request : JudgeRequest) (j : JudgeResult)
    → accepts request j ≡ true
    → IsAccepted request.canonical_ground_truth_fault_type j
unfolding accepts
accepts-IsAccepted request j h = ground (
  arith,
  text_eq_iff j.canonical_ground_truth_fault_type request.canonical_ground_truth_fault_type,
  text_eq_iff j.canonical_agent_fault_type request.canonical_ground_truth_fault_type,
)

fast_path-eq :
    (request : JudgeRequest)
    → fast_path request ≡ true
    → request.canonical_agent_fault_type ≡ request.canonical_ground_truth_fault_type
unfolding fast_path
fast_path-eq request h = ground (
  arith,
  text_eq_iff request.canonical_agent_fault_type request.canonical_ground_truth_fault_type,
)

-- How a request comes to be counted as a match: by equal canonical names, or by a judge.
abbrev pub JudgedMatch : Option JudgeFn → JudgeRequest → Type 0
JudgedMatch judge request =
    (f : JudgeFn) × (j : JudgeResult) × (judge ≡ some f)
    × (f request ≡ returned j)
    × IsAccepted request.canonical_ground_truth_fault_type j

consult-match :
    (caught : Exn → Bool) (request : JudgeRequest) (r : Outcome JudgeResult) (d : Judgment)
    → consult caught request r ≡ returned (true, d)
    → (j : JudgeResult) × (r ≡ returned j) × (accepts request j ≡ true)
unfolding consult
consult-match caught request (returned j) d h = (j, refl, ground arith)
consult-match caught request (raised e) d h = absurd (ground arith)

consult-raises :
    (caught : Exn → Bool) (request : JudgeRequest) (r : Outcome JudgeResult) (e : Exn)
    → consult caught request r ≡ raised e
    → (r ≡ raised e) × (caught e ≡ false)
unfolding consult
consult-raises caught request (returned j) e h = absurd (ground arith)
consult-raises caught request (raised e') e h = elim (Bool-cases (caught e')) [
  | inl stopped ↦ absurd (ground arith)
  | inr passed ↦ let same : e' ≡ e = ground arith in (ap raised same, rw (← same) passed)
]

validated-is_allowed :
    (r : JudgeResult)
    → (validate_result r).is_match ≡ true
    → is_allowed (validate_result r).canonical_ground_truth_fault_type ≡ true
unfolding validate_result
validated-is_allowed r h = ground arith

validated-is_allowed_truth :
    (r : Outcome JudgeResult) (j : JudgeResult)
    → validated r ≡ returned j
    → j.is_match ≡ true
    → is_allowed j.canonical_ground_truth_fault_type ≡ true
unfolding validated
validated-is_allowed_truth (raised e) j said matched = absurd (ground arith)
validated-is_allowed_truth (returned raw) j said matched =
    let same : validate_result raw ≡ j = ground arith in
    rw (← same) (validated-is_allowed raw (rw same matched))

structured_judge-is_allowed :
    (f : JudgeFn) (request : JudgeRequest) (j : JudgeResult)
    → structured_judge f request ≡ returned j
    → j.is_match ≡ true
    → is_allowed j.canonical_ground_truth_fault_type ≡ true
unfolding structured_judge
structured_judge-is_allowed f request = validated-is_allowed_truth (f request)

judge_request-match :
    (caught : Exn → Bool) (judge : Option JudgeFn) (request : JudgeRequest) (d : Judgment)
    → judge_request caught judge request ≡ returned (true, d)
    → (request.canonical_agent_fault_type ≡ request.canonical_ground_truth_fault_type)
      ⊎ JudgedMatch judge request
unfolding judge_request
judge_request-match caught none request d h = elim (Bool-cases (fast_path request)) [
  | inl same ↦ inl (fast_path-eq request same)
  | inr differ ↦ absurd (ground arith)
]
judge_request-match caught (some f) request d h = elim (Bool-cases (fast_path request)) [
  | inl same ↦ inl (fast_path-eq request same)
  | inr differ ↦
      let (j, said, ok) = consult-match caught request (f request) d (rw differ at h) in
      inr (f, j, refl, said, accepts-IsAccepted request j ok)
]

module _ (caught : Exn → Bool) (agent truth reasoning : Text) (evidence : List Text) where
  abbrev request : JudgeRequest
  request = build_judge_request agent truth reasoning evidence

  -- A fault type counts as correct only if its canonical name is that of the ground truth, or a judge
  -- returned a judgment that is a match, violates no taxonomy, restates the ground truth's canonical
  -- name and gives the agent's fault type the same one.
  pub judge_match_sound :
      (judge : Option JudgeFn) (d : Judgment)
      → judge_fault_type_match caught judge agent truth reasoning evidence ≡ returned (true, d)
      → (canonicalize_fault_type agent ≡ canonicalize_fault_type truth)
        ⊎ JudgedMatch judge (build_judge_request agent truth reasoning evidence)
  unfolding judge_fault_type_match
  judge_match_sound judge d h = elim (judge_request-match caught judge request d h) [
    | inl same ↦ inl (unfold build_judge_request in same)
    | inr judged ↦ inr judged
  ]

  -- An exception comes out only if the configured judge raised it on this request and it is none of
  -- those that are caught.
  pub judge_match_raises :
      (judge : Option JudgeFn) (e : Exn)
      → judge_fault_type_match caught judge agent truth reasoning evidence ≡ raised e
      → (f : JudgeFn) × (judge ≡ some f)
        × (f (build_judge_request agent truth reasoning evidence) ≡ raised e)
        × (caught e ≡ false)
  unfolding judge_fault_type_match judge_request
  judge_match_raises none e h = absurd (ground arith)
  judge_match_raises (some f) e h = elim (Bool-cases (fast_path request)) [
    | inl same ↦ absurd (ground arith)
    | inr differ ↦
        let (said, passed) = consult-raises caught request (f request) e (rw differ at h) in
        (f, refl, said, passed)
  ]

  -- With a structured judge, a fault type that the canonical names do not settle can only match if the
  -- ground truth's canonical name is one of the supported fault types, `unknown` or empty.
  pub judge_match_taxonomy :
      (f : JudgeFn) (d : Judgment)
      → judge_fault_type_match caught (some (structured_judge f)) agent truth reasoning evidence
        ≡ returned (true, d)
      → (canonicalize_fault_type agent ≡ canonicalize_fault_type truth)
        ⊎ (is_allowed (canonicalize_fault_type truth) ≡ true)
  unfolding build_judge_request
  judge_match_taxonomy f d h = elim (judge_match_sound (some (structured_judge f)) d h) [
    | inl same ↦ inl same
    | inr (g, j, configured, said, accepted) ↦
        let same : structured_judge f ≡ g = ground arith in
        let allowed = structured_judge-is_allowed f request j (rw same said) accepted.matched in
        inr (subst (λ name. is_allowed name ≡ true) accepted.same_truth allowed)
  ]
