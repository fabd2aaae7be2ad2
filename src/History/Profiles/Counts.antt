-- ===== src/History/Profiles/Counts.antt =====
-- What the evidence of a worker counts.
use c4harness.Base.{
  ◌∙◌, ℕ, suc, ◌+◌, String, Bool, true, false, not, ◌&&◌, List, [], ◌∷◌, Dict, lookup, insert,
  lookup-insert, ◌==◌, string_eq, if◌then◌else◌, ◌≡◌, refl, arith,
}
use c4harness.History.{ExecutionOutcome, is_excluded, success, failed}
use c4harness.History.Profiles.{
  Bucket, empty_bucket, count_outcome, bucket_of, count_dimensions, dimensions_of, is_of,
  count_outcomes,
}

-- How often a dimension is among these.
unfoldable pub occurrences : String → List String → ℕ
occurrences d [] = 0
occurrences d (x ∷ xs) = let rest = occurrences d xs in if d == x then suc rest else rest

-- How often the outcomes of a worker that pass a test have a dimension.
unfoldable pub tally : (ExecutionOutcome → Bool) → String → String → List ExecutionOutcome → ℕ
unfolding occurrences
tally test worker_arm_id d [] = 0
tally test worker_arm_id d (o ∷ outcomes) =
    let rest = tally test worker_arm_id d outcomes in
    if is_of worker_arm_id o && test o then occurrences d (dimensions_of o) + rest else rest

abbrev pub is_success : ExecutionOutcome → Bool
is_success o =
    not (is_excluded o.failure_attribution) && elim o.status [ success ↦ true | _ ↦ false ]

abbrev pub is_failure : ExecutionOutcome → Bool
is_failure o =
    not (is_excluded o.failure_attribution) && elim o.status [ failed ↦ true | _ ↦ false ]

abbrev pub is_left_out : ExecutionOutcome → Bool
is_left_out o = is_excluded o.failure_attribution

abbrev pub is_undecided : ExecutionOutcome → Bool
is_undecided o =
    not (is_excluded o.failure_attribution)
    && elim o.status [ success ↦ false | failed ↦ false | _ ↦ true ]

-- A count of a bucket that grows by one for each outcome that passes a test.
module _ (field : Bucket → ℕ) (test : ExecutionOutcome → Bool) (nothing : field empty_bucket ≡ 0)
    (grows : (o : ExecutionOutcome) (b : Bucket)
      → field (count_outcome o b) ≡ (if test o then suc (field b) else field b)) where
  count_dimensions-field :
      (o : ExecutionOutcome) (dimensions : List String) (buckets : Dict String Bucket) (d : String)
      → field (bucket_of d (count_dimensions o dimensions buckets)) ≡ (
          if test o
          then occurrences d dimensions + field (bucket_of d buckets)
          else field (bucket_of d buckets))
  unfolding count_dimensions occurrences
  count_dimensions-field o [] buckets d = ground arith
  count_dimensions-field o (x ∷ dimensions) buckets d =
      let next = insert x (count_outcome o (bucket_of x buckets)) buckets in
      ground (
        arith,
        count_dimensions-field o dimensions next d,
        lookup-insert d x (count_outcome o (bucket_of x buckets)) buckets,
        grows o (bucket_of x buckets),
      )

  count_outcomes-field :
      (worker_arm_id : String) (outcomes : List ExecutionOutcome) (buckets : Dict String Bucket)
      (d : String)
      → field (bucket_of d (count_outcomes worker_arm_id outcomes buckets))
        ≡ tally test worker_arm_id d outcomes + field (bucket_of d buckets)
  unfolding count_outcomes tally
  count_outcomes-field worker_arm_id [] buckets d = omega arith
  count_outcomes-field worker_arm_id (o ∷ outcomes) buckets d = ground (
    arith,
    count_outcomes-field worker_arm_id outcomes buckets d,
    count_outcomes-field worker_arm_id outcomes (count_dimensions o (dimensions_of o) buckets) d,
    count_dimensions-field o (dimensions_of o) buckets d,
  )

-- The bucket of a dimension counts how often the outcomes of the worker have it: those that are left out,
-- the successes, the failures, and the others, each outcome once for each time that it has the dimension.
pub count_outcomes_correct :
    (worker_arm_id : String) (outcomes : List ExecutionOutcome) (d : String)
    → let b = bucket_of d (count_outcomes worker_arm_id outcomes []) in
      ((b.excluded ≡ tally is_left_out worker_arm_id d outcomes)
        × (b.successes ≡ tally is_success worker_arm_id d outcomes)
        × (b.failures ≡ tally is_failure worker_arm_id d outcomes)
        × (b.inconclusives ≡ tally is_undecided worker_arm_id d outcomes))
unfolding count_outcome lookup
count_outcomes_correct worker_arm_id outcomes d = (
  count_outcomes-field (λ b. b.excluded) is_left_out refl (λ o b. ground arith) worker_arm_id
        outcomes [] d
      ∙ omega arith,
  count_outcomes-field (λ b. b.successes) is_success refl (λ o b. ground arith) worker_arm_id
        outcomes [] d
      ∙ omega arith,
  count_outcomes-field (λ b. b.failures) is_failure refl (λ o b. ground arith) worker_arm_id
        outcomes [] d
      ∙ omega arith,
  count_outcomes-field (λ b. b.inconclusives) is_undecided refl (λ o b. ground arith) worker_arm_id
        outcomes [] d
      ∙ omega arith,
)
