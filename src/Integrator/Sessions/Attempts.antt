-- ===== src/Integrator/Sessions/Attempts.antt =====
-- What a proposal comes to, before the lock is looked at.
use c4harness.Base.{
  insert, subst, String, true, false, Option, none, some, List, [], ◌∷◌, ◌++◌, Dict, to_set,
  string_eq, ◌≡◌, refl, ◌⊎◌, inl, inr, arith,
}
use c4harness.Core.Errors.{Result, ok, err, ◌>>=◌, Result-cases}
use c4harness.Core.Types.{is_nonempty}
use c4harness.Integrator.Workspace.{Os, Workspace}
use c4harness.Integrator.Patches.{PatchHunk, PatchResult, success}
use c4harness.Integrator.Patches.Transactions.{apply}
use c4harness.Integrator.Patches.Atomic.{apply-IsOutcome}
use c4harness.Integrator.Patches.Correct.{IsInstalled-success}
use c4harness.Integrator.Diffs.{Texts}
use c4harness.Integrator.Diffs.Files.{parse_unified_diff}
use c4harness.Integrator.Conflicts.{Entry, detect_conflicts}
use c4harness.Integrator.Sessions.{
  IntegrationAttempt, accepted, Session, relative_paths, apply_unified_diff, keeps_lock, propose,
}

issues-nonempty :
    (xs ys : List String)
    → is_nonempty xs ≡ false
    → is_nonempty ys ≡ false
    → is_nonempty (xs ++ ys) ≡ false
issues-nonempty [] ys none_failed none_violated = none_violated
issues-nonempty (_ ∷ _) ys none_failed none_violated = cc

module _ (os : Os) (t : Texts) where
  -- The patch was refused, and the workspace is as it was; or it was applied and waits.
  abbrev pub IsApplied : Workspace → Result (Workspace × PatchResult) → Type 0
  IsApplied w (err _) = Unit
  IsApplied w (ok (w', r)) =
      ((success r ≡ false) × (w' ≡ w))
      ⊎ ((success r ≡ true)
          × (is_nonempty r.failed ≡ false)
          × (is_nonempty r.violations ≡ false)
          × (r.rollback_dir ≡ some os.backup_name)
          × (w.snapshot.pending_rollback ≡ none)
          × (w'.snapshot.pending_rollback ≡ some os.backup_name)
          × (w'.snapshot.root ≡ w.snapshot.root)
          × (w'.backups ≡ insert os.backup_name w.files w.backups))

  apply-IsApplied :
      (allowed : Option (List String)) (hunks : List PatchHunk) (w : Workspace)
      → IsApplied w (apply os allowed hunks true w)
  apply-IsApplied allowed hunks w = elim (apply-IsOutcome os allowed true hunks w) [
    | inl (text, _, raises) ↦ rw raises tt
    | inr (w', r, returns, inl refused) ↦ rw returns (inl refused)
    | inr (w', r, returns, inr (idle, _, filled, installed)) ↦
        let (_, _, _, no_failed, no_violations, _, _, root, pending, dir, backups) = installed in
        rw returns (
          inr (
            IsInstalled-success os allowed hunks true _ w w' r filled installed,
            no_failed,
            no_violations,
            dir,
            idle,
            pending,
            root,
            backups,
          ))
  ]

  apply_unified_diff-IsApplied :
      (allowed : Option (List String)) (patch : Result String) (w : Workspace)
      → IsApplied w (apply_unified_diff os t allowed patch true w)
  unfolding apply_unified_diff success
  apply_unified_diff-IsApplied allowed (err e) w = inl (refl, refl)
  apply_unified_diff-IsApplied allowed (ok patch_text) w =
      elim (Result-cases (parse_unified_diff os t patch_text w)) [
        | inr (e, raised) ↦ rw (apply_unified_diff, raised) (inl (refl, refl))
        | inl (hunks, parsed) ↦ rw (apply_unified_diff, parsed) (apply-IsApplied allowed hunks w)
      ]

  -- The attempt is not accepted, and the workspace is as it was; or it is accepted and keeps the lock.
  abbrev pub IsRefused : Workspace → Workspace → IntegrationAttempt → Type 0
  IsRefused w w' a = (accepted a ≡ false) × (a.lock_held ≡ false) × (w' ≡ w)

  abbrev pub IsKept : Workspace → Workspace → IntegrationAttempt → Type 0
  IsKept w w' a =
      (accepted a ≡ true)
      × (a.lock_held ≡ true)
      × ((r : PatchResult) × (a.patch_result ≡ some r)
          × (r.rollback_dir ≡ some os.backup_name)
          × (w.snapshot.pending_rollback ≡ none)
          × (w'.snapshot.pending_rollback ≡ some os.backup_name)
          × (w'.snapshot.root ≡ w.snapshot.root)
          × (w'.backups ≡ insert os.backup_name w.files w.backups)
          × (a.expected_states ≡ w'.snapshot.file_states))

  abbrev pub IsProposed : Workspace → Result (Workspace × IntegrationAttempt) → Type 0
  IsProposed w (err _) = Unit
  IsProposed w (ok (w', a)) = IsRefused w w' a ⊎ IsKept w w' a

  module _ (source : Dict String Entry) (patch : Result String) (write_paths : List String)
      (s : Session) where
    -- What is left when no conflict is found.
    attempt-IsProposed :
        (allowed : List String)
        → IsApplied s.workspace (apply_unified_diff os t (some allowed) patch true s.workspace)
        → IsProposed s.workspace (
            apply_unified_diff os t (some allowed) patch true s.workspace >>= λ applied. ok (
              applied.0,
              record {
                patch_result = some applied.1;
                conflicts = [];
                issues = applied.1.failed ++ applied.1.violations;
                expected_states = applied.0.snapshot.file_states;
                lock_held = keeps_lock applied.1;
              },
            ))
    unfolding accepted
    attempt-IsProposed allowed applied =
        elim (Result-cases (apply_unified_diff os t (some allowed) patch true s.workspace)) [
          | inr (e, raised) ↦ rw raised tt
          | inl ((w', r), returned) ↦
              rw returned (elim (subst (IsApplied s.workspace) returned applied) [
                | inl (refused, same) ↦ inl (rw refused (ground arith), rw refused refl, same)
                | inr (fine, no_failed, no_violations, dir, idle, pending, root, backups) ↦ inr (
                  rw (issues-nonempty r.failed r.violations no_failed no_violations, fine) refl,
                  rw (fine, dir) refl,
                  (r, refl, dir, idle, pending, root, backups, refl),
                )
              ])
        ]

    pub propose-IsProposed : IsProposed s.workspace (propose os t source patch write_paths s)
    unfolding propose accepted
    propose-IsProposed = elim (Result-cases (relative_paths os s write_paths)) [
      | inr (e, raised) ↦ rw (propose, raised) tt
      | inl (allowed, relative) ↦
          elim (Result-cases
            (detect_conflicts os source s.source_baseline none (some (to_set allowed)))) [
              | inr (e, raised) ↦ rw (propose, relative, raised) tt
              | inl ([], found) ↦
                  rw (propose, relative, found)
                    (attempt-IsProposed (to_set allowed)
                      (apply_unified_diff-IsApplied (some (to_set allowed)) patch s.workspace))
              | inl (_ ∷ _, found) ↦ rw (propose, relative, found) (inl (refl, refl, refl))
            ]
    ]
