-- ===== src/History/Profiles.antt =====
-- c4harness/history/profiles.py: the evidence that the outcomes of a worker give, by dimension.
pub mod Counts
use c4harness.Base.{
  ℕ, suc, ◌+◌, String, Bool, true, false, Option, none, some, List, [], ◌∷◌, Dict, lookup, insert,
  str_le, map, ◌==◌, string_eq, if◌then◌else◌,
}
use c4harness.Core.Types.{is_nonempty}
use c4harness.History.{
  OutcomeStatus, ExecutionOutcome, CapabilityEvidence, is_excluded, success, failed, inconclusive,
  blocked, cancelled,
}

pub record Bucket : Type 0 where
  pub successes : ℕ
  pub failures : ℕ
  pub inconclusives : ℕ
  pub excluded : ℕ
  pub tokens : ℕ
  pub latency : ℕ

abbrev pub empty_bucket : Bucket
empty_bucket = record {
  successes = 0;
  failures = 0;
  inconclusives = 0;
  excluded = 0;
  tokens = 0;
  latency = 0;
}

-- `value or 0`
abbrev or_zero : Option ℕ → ℕ
or_zero none = 0
or_zero (some n) = n

-- What the loop over the dimensions adds to a bucket.
unfoldable pub count_outcome : ExecutionOutcome → Bucket → Bucket
count_outcome o b =
    let spent : Bucket = record b {
      tokens = b.tokens + or_zero o.total_tokens;
      latency = b.latency + or_zero o.latency_ms;
    } in
    if is_excluded o.failure_attribution
    then record spent { excluded = suc b.excluded }
    else elim o.status [
      | success ↦ record spent { successes = suc b.successes }
      | failed ↦ record spent { failures = suc b.failures }
      | _ ↦ record spent { inconclusives = suc b.inconclusives }
    ]

-- `buckets.setdefault(dimension, …)`, with what is there already.
abbrev pub bucket_of : String → Dict String Bucket → Bucket
bucket_of dimension buckets = elim (lookup dimension buckets) [ none ↦ empty_bucket | some b ↦ b ]

unfoldable pub count_dimensions :
    ExecutionOutcome → List String → Dict String Bucket → Dict String Bucket
unfolding count_outcome
count_dimensions o [] buckets = buckets
count_dimensions o (dimension ∷ dimensions) buckets =
    count_dimensions o dimensions
      (insert dimension (count_outcome o (bucket_of dimension buckets)) buckets)

-- `outcome.capability_dimensions or ("general",)`
abbrev pub dimensions_of : ExecutionOutcome → List String
dimensions_of o =
    if is_nonempty o.capability_dimensions then o.capability_dimensions else "general" ∷ []

-- `outcome.worker_arm_id == worker_arm_id`
abbrev pub is_of : String → ExecutionOutcome → Bool
is_of worker_arm_id o = elim o.worker_arm_id [ none ↦ false | some id ↦ id == worker_arm_id ]

-- The loop over the outcomes.
unfoldable pub count_outcomes :
    String → List ExecutionOutcome → Dict String Bucket → Dict String Bucket
unfolding count_dimensions
count_outcomes worker_arm_id [] buckets = buckets
count_outcomes worker_arm_id (o ∷ outcomes) buckets =
    let rest = count_outcomes worker_arm_id outcomes in
    if is_of worker_arm_id o
    then rest (count_dimensions o (dimensions_of o) buckets)
    else rest buckets

-- `sorted(buckets.items())`: the keys of a dict differ.
insert_item : String × Bucket → List (String × Bucket) → List (String × Bucket)
insert_item item [] = item ∷ []
insert_item item (other ∷ items) =
    let rest = insert_item item items in
    if str_le item.0 other.0 then item ∷ other ∷ items else other ∷ rest

unfoldable pub sorted_items : Dict String Bucket → List (String × Bucket)
unfolding insert_item
sorted_items [] = []
sorted_items (item ∷ items) = insert_item item (sorted_items items)

abbrev pub evidence_from : String → String × Bucket → CapabilityEvidence
evidence_from worker_arm_id (dimension, b) = record {
  worker_arm_id = worker_arm_id;
  capability_dimension = dimension;
  verified_successes = b.successes;
  verified_failures = b.failures;
  inconclusive_count = b.inconclusives;
  excluded_count = b.excluded;
  total_tokens = b.tokens;
  total_latency_ms = b.latency;
}

pub record CapabilityProfile : Type 0 where
  pub worker_arm_id : String
  pub evidence : List CapabilityEvidence

unfoldable pub build_capability_profile : String → List ExecutionOutcome → CapabilityProfile
unfolding count_outcomes sorted_items
build_capability_profile worker_arm_id outcomes = record {
  worker_arm_id = worker_arm_id;
  evidence =
      map (evidence_from worker_arm_id) (sorted_items (count_outcomes worker_arm_id outcomes []));
}
