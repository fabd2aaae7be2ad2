-- ===== src/Integrator/Patches/Correct.antt =====
-- What `PatchTransaction.apply` does to the workspace.
use c4harness.Base.{
  All, any, contains, ◌∙◌, Bool, inl, inr, lookup, String, ◌≡◌, refl, true, false, Option, none,
  List, [], string_eq, subst, sym,
}
use c4harness.Core.Errors.{ok}
use c4harness.Core.Types.{is_nonempty}
use c4harness.Integrator.Workspace.{Os, Workspace}
use c4harness.Integrator.Patches.{PatchHunk, PatchResult, success, Step, is_allowed}
use c4harness.Integrator.Patches.Transactions.{apply}
use c4harness.Integrator.Patches.Steps.{IsClean, IsValidated, gather_all-IsValidated}
use c4harness.Integrator.Patches.Trees.{
  IsDone, is_for, targets, apply_steps-IsDone, apply_steps-frame, contains-targets, targets-allowed,
  apply_steps-applied,
}
use c4harness.Integrator.Patches.Atomic.{gathered, apply-returns, begin, IsInstalled}

module _ (os : Os) (allowed : Option (List String)) (hunks : List PatchHunk)
    (retain_rollback : Bool) where
  pub IsInstalled-success :
      (steps : List Step) (w w' : Workspace) (r : PatchResult)
      → is_nonempty steps ≡ true
      → IsInstalled os retain_rollback steps w w' r
      → success r ≡ true
  unfolding success
  IsInstalled-success steps w w' r filled
        (t, ran, same, no_failed, no_violations, _, _, _, _, _, _) =
      rw (same, no_failed, no_violations, apply_steps-applied os steps (begin w) filled ran) refl

  -- The run that a success comes from.
  abbrev pub IsRun : Workspace → Workspace → PatchResult → Type 0
  IsRun w w' r =
      (w.snapshot.pending_rollback ≡ none)
      × ((steps : List Step) × IsValidated os allowed w.snapshot [] hunks steps
          × IsInstalled os retain_rollback steps w w' r)

  IsClean-IsRun :
      (w w' : Workspace) (r : PatchResult)
      → w.snapshot.pending_rollback ≡ none
      → IsClean (gathered os allowed hunks w)
      → IsInstalled os retain_rollback (gathered os allowed hunks w).to_apply w w' r
      → IsRun w w' r
  IsClean-IsRun w w' r idle clean installed =
      let (steps, total, validated) = gather_all-IsValidated os allowed w.snapshot hunks _ clean in
      (
        idle,
        (steps, validated, subst (λ x. IsInstalled os retain_rollback x w w' r) total installed),
      )

  IsRun-IsDone :
      (w w' : Workspace) (r : PatchResult)
      → IsRun w w' r
      → All (IsDone os w.snapshot.root w'.files) hunks
  IsRun-IsDone w w' r (_, (steps, validated, installed)) =
      let (t, ran, _, _, _, files, _, _, _, _, _) = installed in
      subst (λ x. All (IsDone os w.snapshot.root x) hunks) (sym files)
        (apply_steps-IsDone os allowed w.snapshot [] hunks steps (begin w) validated ran)

  pub apply-IsRun :
      (w : Workspace) {w' : Workspace} {r : PatchResult}
      → apply os allowed hunks retain_rollback w ≡ ok (w', r)
      → success r ≡ true
      → IsRun w w' r
  apply-IsRun w {w' = w'} {r = r} returns succeeds =
      let (w2, r2, returns2, outcome) = apply-returns os allowed retain_rollback hunks w returns in
      let same : Path (Workspace × PatchResult) (w2, r2) (w', r) = cc in
      subst (λ x. success x.1 ≡ true → IsRun w x.0 x.1) same
        (λ fine. elim outcome [
          | inl (refused, _) ↦ cc
          | inr (idle, clean, _, installed) ↦ IsClean-IsRun w w2 r2 idle clean installed
        ])
        succeeds

  IsRun-frame :
      (w w' : Workspace) (r : PatchResult) (p : String) (run : IsRun w w' r)
      → contains (targets run.1.0) p ≡ false
      → lookup p w'.files ≡ lookup p w.files
  IsRun-frame w w' r p (_, (steps, validated, installed)) out =
      let (t, ran, _, _, _, files, _, _, _, _, _) = installed in
      rw files ((apply_steps-frame os steps (begin w) p ran out).0)

  -- If a patch is applied, then the path of every hunk can be read, and the text at it is the one that
  -- the hunk has (no text for a deletion); and every path that no hunk is for has the text of before.
  pub apply_refines :
      (w : Workspace) {w' : Workspace} {r : PatchResult}
      → apply os allowed hunks retain_rollback w ≡ ok (w', r)
      → success r ≡ true
      → All (IsDone os w.snapshot.root w'.files) hunks
        × ((p : String)
            → any (is_for os w.snapshot.root p) hunks ≡ false
            → lookup p w'.files ≡ lookup p w.files)
  apply_refines w {w' = w'} {r = r} returns succeeds =
      let run = apply-IsRun w returns succeeds in
      (
        IsRun-IsDone w w' r run,
        λ p none_for.
            IsRun-frame w w' r p run
              (contains-targets os allowed w.snapshot [] hunks run.1.0 p run.1.1 ∙ none_for),
      )

  -- Whatever comes of a patch, a path that is not allowed keeps its text.
  pub apply-allowed :
      (w : Workspace) {w' : Workspace} {r : PatchResult} (p : String)
      → apply os allowed hunks retain_rollback w ≡ ok (w', r)
      → is_allowed os allowed p ≡ false
      → lookup p w'.files ≡ lookup p w.files
  apply-allowed w {w' = w'} {r = r} p returns outside =
      let (w2, r2, returns2, outcome) = apply-returns os allowed retain_rollback hunks w returns in
      let same : Path (Workspace × PatchResult) (w2, r2) (w', r) = cc in
      subst (λ x. lookup p x.0.files ≡ lookup p w.files) same
        (elim outcome [
          | inl (_, kept) ↦ rw kept refl
          | inr (idle, clean, _, installed) ↦
              let run = IsClean-IsRun w w2 r2 idle clean installed in
              IsRun-frame w w2 r2 p run
                (targets-allowed os allowed w.snapshot [] hunks run.1.0 p run.1.1 outside)
        ])
