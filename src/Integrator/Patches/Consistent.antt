-- ===== src/Integrator/Patches/Consistent.antt =====
-- The states that a snapshot records are those of the files of its tree. Excluded paths are left out: a
-- scan does not record them, and a patch does.
use c4harness.Base.{
  Bool, inl, inr, lookup, String, ◌≡◌, refl, false, Option, List, [], ◌∷◌, string_eq, arith, subst,
}
use c4harness.Core.Errors.{ok}
use c4harness.Integrator.Workspace.{
  Os, Files, Workspace, scan_file_states, is_excluded_relative_path,
}
use c4harness.Integrator.Patches.{PatchHunk, PatchResult}
use c4harness.Integrator.Patches.Transactions.{apply, commit, rollback}
use c4harness.Integrator.Patches.Trees.{AgreesAt, apply_steps-AgreesAt}
use c4harness.Integrator.Patches.Atomic.{begin, apply-returns}

module _ (os : Os) where
  abbrev pub IsConsistent : Workspace → Type 0
  IsConsistent w =
      (p : String)
      → is_excluded_relative_path p ≡ false
      → AgreesAt os w.snapshot.file_states w.files p

  -- What a scan records.
  pub scan_file_states-AgreesAt :
      (files : Files) (p : String)
      → is_excluded_relative_path p ≡ false
      → AgreesAt os (scan_file_states os files) files p
  unfolding scan_file_states lookup
  scan_file_states-AgreesAt [] p tracked = refl
  scan_file_states-AgreesAt ((path, text) ∷ files) p tracked =
      ground (arith, scan_file_states-AgreesAt files p tracked)

  -- If the states agree with the files at each path that a scan records, then they do after a patch, be
  -- it applied or refused.
  pub apply-IsConsistent :
      (allowed : Option (List String)) (hunks : List PatchHunk) (retain_rollback : Bool)
      (w : Workspace) {w' : Workspace} {r : PatchResult}
      → IsConsistent w
      → apply os allowed hunks retain_rollback w ≡ ok (w', r)
      → IsConsistent w'
  apply-IsConsistent allowed hunks retain_rollback w {w' = w'} {r = r} agree returns =
      let (w2, r2, returns2, outcome) = apply-returns os allowed retain_rollback hunks w returns in
      let same : Path (Workspace × PatchResult) (w2, r2) (w', r) = cc in
      subst (λ x. IsConsistent x.0) same
        (λ p tracked. elim outcome [
          | inl (_, kept) ↦ rw kept (agree p tracked)
          | inr (_, _, _, installed) ↦
              let (t, ran, _, _, _, files, states, _, _, _, _) = installed in
              rw (files, states) (apply_steps-AgreesAt os _ (begin w) p ran (agree p tracked))
        ])

  pub commit-IsConsistent :
      (r : PatchResult) (w : Workspace) {w' : Workspace} {r' : PatchResult}
      → IsConsistent w
      → commit r w ≡ ok (w', r')
      → IsConsistent w'
  unfolding commit
  commit-IsConsistent r w agree returns p tracked = ground (arith, agree p tracked)

  -- If the states agree with the files at each path that a scan records, then they do after a rollback
  -- that returns, be it done or not.
  pub rollback-IsConsistent :
      (r : PatchResult) (w : Workspace) {w' : Workspace} {r' : PatchResult} {done : Bool}
      → IsConsistent w
      → rollback os r w ≡ (w', ok (r', done))
      → IsConsistent w'
  unfolding rollback
  rollback-IsConsistent r w {w' = w'} agree returns p tracked =
      ground (arith, agree p tracked, scan_file_states-AgreesAt w'.files p tracked)
