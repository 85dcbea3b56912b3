-- ===== src/Scorer/Report/Breakdowns.antt =====
-- The breakdowns of a report lose no case and no score.
use net_ops_bench.Prelude.{
  ℕ, ◌+◌, ◌≡◌, refl, Bool, false, List, [], ◌∷◌, Text, length, count_if, arith, if◌then◌else◌, Dict,
  lookup, lookup_or, put,
}
use net_ops_bench.Scorer.{EvaluationResult}
use net_ops_bench.Scorer.Report.{
  Bucket, empty_bucket, add_case, by_difficulty, by_fault_type, positives, total_of, counts,
  difficulty_of, fault_type_of,
}

-- The sum of one column of a breakdown.
unfoldable pub column : (Bucket → ℕ) → Dict Bucket → ℕ
column f [] = 0
column f ((k, b) ∷ d) = f b + column f d

column-put :
    (f : Bucket → ℕ) (k : Text) (b : Bucket) (d : Dict Bucket)
    → f empty_bucket ≡ 0
    → column f (put k b d) + f (lookup_or empty_bucket (lookup k d)) ≡ column f d + f b
unfolding column put lookup
column-put f k b [] h = ground arith
column-put f k b ((j, c) ∷ d) h = ground (arith, column-put f k b d h)

module _ (key : Text) (correct : Bool) (score : ℕ) (d : Dict Bucket) where
  column-add_case_total :
      column (λ b. b.total) (add_case key correct score d) ≡ column (λ b. b.total) d + 1
  unfolding add_case
  column-add_case_total = omega (arith, column-put (λ b. b.total) key _ d refl)

  column-add_case_score :
      column (λ b. b.score_sum) (add_case key correct score d) ≡ column (λ b. b.score_sum) d + score
  unfolding add_case
  column-add_case_score = omega (arith, column-put (λ b. b.score_sum) key _ d refl)

  column-add_case_correct :
      column (λ b. b.correct) (add_case key correct score d)
      ≡ column (λ b. b.correct) d + (if correct then 1 else 0)
  unfolding add_case
  column-add_case_correct = ground (
    arith,
    column-put (λ b. b.correct) key
        (record {
          total = (lookup_or empty_bucket (lookup key d)).total + 1;
          correct =
              if correct
              then (lookup_or empty_bucket (lookup key d)).correct + 1
              else (lookup_or empty_bucket (lookup key d)).correct;
          score_sum = (lookup_or empty_bucket (lookup key d)).score_sum + score;
        })
        d refl,
  )

-- The breakdown by difficulty, from the buckets `d`: a line for each case, with its score.
by_difficulty-columns :
    (rs : List EvaluationResult) (d : Dict Bucket)
    → (column (λ b. b.total) (by_difficulty rs d) ≡ column (λ b. b.total) d + length rs)
      × (column (λ b. b.score_sum) (by_difficulty rs d)
          ≡ column (λ b. b.score_sum) d + total_of (λ r. r.score) rs)
unfolding by_difficulty total_of
by_difficulty-columns [] d = (omega arith, omega arith)
by_difficulty-columns (r ∷ rs) d =
    let next = add_case (difficulty_of r) false r.score d in
    let (totals, scores) = by_difficulty-columns rs next in
    (
      omega (arith, totals, column-add_case_total (difficulty_of r) false r.score d),
      omega (arith, scores, column-add_case_score (difficulty_of r) false r.score d),
    )

by_fault_type-columns :
    (rs : List EvaluationResult) (d : Dict Bucket)
    → (column (λ b. b.total) (by_fault_type rs d) ≡ column (λ b. b.total) d + length rs)
      × (column (λ b. b.correct) (by_fault_type rs d)
          ≡ column (λ b. b.correct) d + count_if (λ r. r.correct_fault_type) rs)
unfolding by_fault_type
by_fault_type-columns [] d = (omega arith, omega arith)
by_fault_type-columns (r ∷ rs) d =
    let next = add_case (fault_type_of r) r.correct_fault_type r.score d in
    let (totals, corrects) = by_fault_type-columns rs next in
    (
      omega (arith, totals, column-add_case_total (fault_type_of r) r.correct_fault_type r.score d),
      ground (
        arith,
        corrects,
        column-add_case_correct (fault_type_of r) r.correct_fault_type r.score d,
      ),
    )

-- The breakdown by difficulty holds every case and the whole score; that by fault type holds every
-- positive case and every correct fault type among them.
pub breakdowns_complete :
    (results : List EvaluationResult)
    → let c = counts results in
      (column (λ b. b.total) (by_difficulty results []) ≡ c.total_cases)
      × (column (λ b. b.score_sum) (by_difficulty results []) ≡ c.score_sum)
      × (column (λ b. b.total) (by_fault_type (positives results) []) ≡ c.positive_sample_cases)
      × (column (λ b. b.correct) (by_fault_type (positives results) []) ≡ c.correct_fault_type)
unfolding counts column
breakdowns_complete results =
    let (totals, scores) = by_difficulty-columns results [] in
    let (cases, corrects) = by_fault_type-columns (positives results) [] in
    (omega arith, omega arith, omega arith, omega arith)
