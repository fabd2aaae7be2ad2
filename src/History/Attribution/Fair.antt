-- ===== src/History/Attribution/Fair.antt =====
-- Which outcomes speak for a worker, and which against it.
use c4harness.Base.{
  Option-cases, String, true, false, Option, none, some, List, [], ◌∷◌, string_eq, ◌≡◌, ◌↔◌, ◌⊎◌,
  inl, inr, refl, arith,
}
use c4harness.Core.Types.{is_nonempty}
use c4harness.Core.Contracts.{VerificationResult, WorkerResult}
use c4harness.History.{FailureAttribution, success, blocked, is_excluded, no_failure}
use c4harness.History.Attribution.{
  WorkerException, classify_exception, block_reason, classify_block_reasons, classify_verification,
  attribute_outcome, Execution,
}

classify_exception-success : (x : WorkerException) → (classify_exception x).0 ≡ success → ⊥
unfolding classify_exception
classify_exception-success x succeeds = ground (arith, succeeds)

classify_exception-blocked :
    (x : WorkerException)
    → (classify_exception x).0 ≡ blocked
    → is_excluded (classify_exception x).1 ≡ true
unfolding classify_exception
classify_exception-blocked x is = ground (arith, is)

-- What it takes for an outcome to be a success.
abbrev pub Succeeds :
    Option WorkerResult → Option VerificationResult → Option WorkerException → Type 0
Succeeds result verification raised =
    (raised ≡ none)
    × ((r : WorkerResult) × (result ≡ some r)
        × (is_nonempty r.policy_violations ≡ false)
        × (r.status ≡ "success")
        × ((verification ≡ none)
            ⊎ ((v : VerificationResult) × (verification ≡ some v) × (v.accepted ≡ true))))

module _ (lower : String → String) where
  block_reason-is_excluded :
      (issue : String) {a : FailureAttribution}
      → block_reason lower issue ≡ some a
      → is_excluded a ≡ true
  unfolding block_reason
  block_reason-is_excluded issue is = ground (arith, is)

  classify_block_reasons-is_excluded :
      (issues : List String) → is_excluded (classify_block_reasons lower issues) ≡ true
  unfolding classify_block_reasons
  classify_block_reasons-is_excluded [] = refl
  classify_block_reasons-is_excluded (issue ∷ issues) =
      elim (Option-cases (block_reason lower issue)) [
        | inl unknown ↦
            rw (classify_block_reasons, unknown) (classify_block_reasons-is_excluded issues)
        | inr (a, known) ↦ rw (classify_block_reasons, known) (block_reason-is_excluded issue known)
      ]

  -- An outcome that is blocked is not counted against the worker.
  classify_verification-blocked :
      (v : VerificationResult)
      → (classify_verification lower v).0 ≡ blocked
      → is_excluded (classify_verification lower v).1 ≡ true
  unfolding classify_verification
  classify_verification-blocked v is =
      ground (arith, is, classify_block_reasons-is_excluded v.issues)

  classify_verification-success :
      (v : VerificationResult) → ((classify_verification lower v).0 ≡ success) ↔ (v.accepted ≡ true)
  unfolding classify_verification
  classify_verification-success v = ground arith

  classify_verification-unblamed :
      (v : VerificationResult)
      → (classify_verification lower v).0 ≡ success
      → (classify_verification lower v).1 ≡ no_failure
  unfolding classify_verification
  classify_verification-unblamed v is = ground (arith, is)

  -- An outcome is a success exactly if the worker raised nothing, gave a result that violates no policy and
  -- says that it succeeded, and the verification accepts it, where there is one.
  pub attribute_outcome_success_iff :
      (e : Execution) (result : Option WorkerResult) (verification : Option VerificationResult)
      (raised : Option WorkerException)
      → ((attribute_outcome lower e result verification raised).status ≡ success)
        ↔ Succeeds result verification raised
  unfolding attribute_outcome
  attribute_outcome_success_iff e result verification (some x) =
      (λ succeeds. absurd (classify_exception-success x succeeds), λ (nothing, _). cc)
  attribute_outcome_success_iff e none verification none =
      (λ succeeds. cc, λ (_, (r, is, _, _, _)). cc)
  attribute_outcome_success_iff e (some r) none none = (
    λ succeeds. (refl, (r, refl, ground (arith, succeeds), ground (arith, succeeds), inl refl)),
    λ (_, (_, is, clean, status, _)). ground (arith, is, clean, status),
  )
  attribute_outcome_success_iff e (some r) (some v) none = (
    λ succeeds. (
      refl,
      (
        r,
        refl,
        ground (arith, succeeds),
        ground (arith, succeeds),
        inr (v, refl, ground (arith, succeeds, classify_verification-success v)),
      ),
    ),
    λ (_, (_, is, clean, status, accepts)).
        ground (arith, is, clean, status, accepts, classify_verification-success v),
  )

  -- An outcome that is blocked has an attribution that the profile of the worker leaves out; and one that
  -- is a success has none.
  pub attribute_outcome_fair :
      (e : Execution) (result : Option WorkerResult) (verification : Option VerificationResult)
      (raised : Option WorkerException)
      → let o = attribute_outcome lower e result verification raised in
        ((o.status ≡ blocked → is_excluded o.failure_attribution ≡ true)
          × (o.status ≡ success → o.failure_attribution ≡ no_failure))
  unfolding attribute_outcome
  attribute_outcome_fair e result verification (some x) =
      (classify_exception-blocked x, λ succeeds. absurd (classify_exception-success x succeeds))
  attribute_outcome_fair e none verification none = (λ is. cc, λ is. cc)
  attribute_outcome_fair e (some r) none none = (λ is. ground (arith, is), λ is. ground (arith, is))
  attribute_outcome_fair e (some r) (some v) none = (
    λ is. ground (arith, is, classify_verification-blocked v),
    λ is. ground (arith, is, classify_verification-unblamed v),
  )
