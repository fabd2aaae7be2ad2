-- ===== src/Integrator/Patches/Expected.antt =====
-- The hash that a hunk expects is that of the text which it replaces.
use c4harness.Base.{
  ◌∙◌, Bool, lookup, String, ◌≡◌, refl, true, false, Option, none, some, List, [], ◌∷◌, ◌++◌,
  string_eq, arith, sym,
}
use c4harness.Core.Errors.{ok}
use c4harness.Integrator.Workspace.{
  Os, FileState, IntegrationSnapshot, Workspace, normalize_repo_relative, is_excluded_relative_path,
  state_of,
}
use c4harness.Integrator.Patches.{
  PatchHunk, PatchResult, success, Step, valid, validate_hunk, check_kind,
}
use c4harness.Integrator.Patches.Transactions.{apply}
use c4harness.Integrator.Patches.Steps.{IsValidated}
use c4harness.Integrator.Patches.Trees.{state_at, validate_hunk-valid}
use c4harness.Integrator.Patches.Correct.{apply-IsRun}
use c4harness.Integrator.Patches.Consistent.{IsConsistent}

-- A state that is recorded is that of a text.
state_at-some :
    (os : Os) (p : String) (o : Option String) {state : FileState}
    → state_at os p o ≡ some state
    → (text : String) × (o ≡ some text) × (os.sha256 text ≡ state.sha256)
unfolding state_of
state_at-some os p none is = cc
state_at-some os p (some text) is = (text, refl, ground (arith, is))

module _ (os : Os) (allowed : Option (List String)) (snapshot : IntegrationSnapshot) where
  -- A valid hunk that expects a hash finds it.
  validate_hunk-expected :
      (h : PatchHunk) {relative : String} {old : Option FileState} {expected : String}
      → validate_hunk os allowed snapshot h ≡ valid relative old
      → h.expected_sha256 ≡ some expected
      → (state : FileState) × (old ≡ some state) × (state.sha256 ≡ expected)
  unfolding validate_hunk check_kind
  validate_hunk-expected h {old = old} {expected = expected} found expects = at old refl
    where
      at :
          (o : Option FileState)
          → old ≡ o
          → (state : FileState) × (old ≡ some state) × (state.sha256 ≡ expected)
      at none is = absurd (ground (arith, found, expects, is))
      at (some state) is = (state, is, ground (arith, found, expects, is))

  -- Each of the hunks is valid.
  IsValidated-hunk :
      (seen : List String) (before : List PatchHunk) (h : PatchHunk) (after : List PatchHunk)
      (steps : List Step)
      → IsValidated os allowed snapshot seen (before ++ h ∷ after) steps
      → (s : Step) × (validate_hunk os allowed snapshot h ≡ valid s.relative s.old_state)
  IsValidated-hunk seen [] h after [] v = absurd v
  IsValidated-hunk seen [] h after (s ∷ _) (_, found, _, _) = (s, found)
  IsValidated-hunk seen (_ ∷ _) h after [] v = absurd v
  IsValidated-hunk seen (_ ∷ before) h after (s ∷ steps) (_, _, _, rest) =
      IsValidated-hunk (s.relative ∷ seen) before h after steps rest

-- If a patch is applied to a workspace whose states agree with its files, then each of its hunks that
-- expects a hash is for a path under the root; and if a scan records this path, then the path had a text
-- before, with the hash that is expected.
pub apply_expected :
    (os : Os) (allowed : Option (List String)) (before : List PatchHunk) (h : PatchHunk)
    (after : List PatchHunk) (retain_rollback : Bool) (w : Workspace) {w' : Workspace}
    {r : PatchResult} {expected : String}
    → IsConsistent os w
    → apply os allowed (before ++ h ∷ after) retain_rollback w ≡ ok (w', r)
    → success r ≡ true
    → h.expected_sha256 ≡ some expected
    → (p : String) × (normalize_repo_relative os h.path w.snapshot.root ≡ ok p)
      × (is_excluded_relative_path p ≡ false
          → (text : String) × (lookup p w.files ≡ some text) × (os.sha256 text ≡ expected))
apply_expected os allowed before h after retain_rollback w agree returns succeeds expects =
    let hunks = before ++ h ∷ after in
    let (_, (steps, validated, _)) =
      apply-IsRun os allowed hunks retain_rollback w returns succeeds in
    let (s, found) = IsValidated-hunk os allowed w.snapshot [] before h after steps validated in
    let (path, _, recorded) = validate_hunk-valid os allowed w.snapshot h found in
    let (state, is, hash) = validate_hunk-expected os allowed w.snapshot h found expects in
    (
      s.relative,
      path,
      λ tracked.
          let (text, there, same) =
            state_at-some os s.relative (lookup s.relative w.files)
              (sym (agree s.relative tracked) ∙ recorded ∙ is) in
          (text, there, same ∙ hash),
    )
