-- ===== src/Integrator/Patches/Trees.antt =====
-- The second loop of `apply`: what the steps do to the tree and to the states.
use c4harness.Base.{
  ==_refl, contains_self, any, All, Bool, lookup-erase, lookup-insert, sym, contains-cons, contains,
  map, Dict, lookup, ◌∙◌, String, ◌≡◌, refl, true, false, Option, none, some, List, [], ◌∷◌,
  string_eq, ◌==◌, if◌then◌else◌, arith,
}
use c4harness.Core.Types.{is_nonempty}
use c4harness.Integrator.Workspace.{Os, IntegrationSnapshot, FileState, Files, state_of}
use c4harness.Core.Errors.{ok, err}
use c4harness.Integrator.Patches.{
  normalize_repo_relative, is_allowed, check_kind, ChangeKind, create, modify, delete, PatchHunk,
  valid, create, modify, delete, validate_hunk, Step, new_text,
}
use c4harness.Integrator.Patches.Transactions.{Transaction, apply_to_root, apply_steps}
use c4harness.Integrator.Patches.Steps.{IsValidated, append-nonempty}

-- What a hunk leaves at its path.
abbrev pub hunk_text : PatchHunk → Option String
hunk_text h = elim h.kind [ delete ↦ none | _ ↦ some (new_text h) ]

abbrev pub targets : List Step → List String
targets = map (λ s. s.relative)

-- Later targets are not among those already seen.
IsValidated-fresh :
    (os : Os) (allowed : Option (List String)) (snapshot : IntegrationSnapshot) (seen : List String)
    (hunks : List PatchHunk) (steps : List Step) (p : String)
    → IsValidated os allowed snapshot seen hunks steps
    → contains seen p ≡ true
    → contains (targets steps) p ≡ false
IsValidated-fresh os allowed snapshot seen [] [] p h m = unfold contains in refl
IsValidated-fresh os allowed snapshot seen [] (s ∷ steps) p h m = absurd h
IsValidated-fresh os allowed snapshot seen (_ ∷ _) [] p h m = absurd h
IsValidated-fresh os allowed snapshot seen (h ∷ hunks) (s ∷ steps) p (_, _, new, rest) m = ground (
  arith,
  new,
  m,
  contains-cons s.relative (targets steps) p,
  contains-cons s.relative seen p,
  IsValidated-fresh os allowed snapshot (s.relative ∷ seen) hunks steps p rest,
)

-- What a file's state must be for the text at its path.
abbrev pub state_at : Os → String → Option String → Option FileState
state_at os p none = none
state_at os p (some text) = some (state_of os p text)

module _ (os : Os) where
  apply_to_root-files :
      (s : Step) (t : Transaction) (p : String)
      → lookup p (apply_to_root os s t).files
        ≡ (if p == s.relative then hunk_text s.hunk else lookup p t.files)
  unfolding apply_to_root
  apply_to_root-files s t p = ground (
    arith,
    lookup-insert p s.relative (new_text s.hunk) t.files,
    lookup-erase p s.relative t.files,
  )

  apply_to_root-states :
      (s : Step) (t : Transaction) (p : String)
      → lookup p (apply_to_root os s t).states
        ≡ (if p == s.relative then state_at os s.relative (hunk_text s.hunk) else lookup p t.states)
  unfolding apply_to_root
  apply_to_root-states s t p = ground (
    arith,
    lookup-insert p s.relative (state_of os s.relative (new_text s.hunk)) t.states,
    lookup-erase p s.relative t.states,
  )

  -- A step that succeeds is followed by the rest of the loop.
  apply_steps-cons :
      (s : Step) (steps : List Step) (t : Transaction) {t' : Transaction}
      → apply_steps os (s ∷ steps) t ≡ ok t'
      → apply_steps os steps (apply_to_root os s t) ≡ ok t'
  unfolding apply_steps
  apply_steps-cons s steps t done = ground arith

  apply_steps-nil : (t : Transaction) {t' : Transaction} → apply_steps os [] t ≡ ok t' → t ≡ t'
  unfolding apply_steps
  apply_steps-nil t done = cc

  -- Paths that no step targets keep their text and their state.
  pub apply_steps-frame :
      (steps : List Step) (t : Transaction) {t' : Transaction} (p : String)
      → apply_steps os steps t ≡ ok t'
      → contains (targets steps) p ≡ false
      → (lookup p t'.files ≡ lookup p t.files) × (lookup p t'.states ≡ lookup p t.states)
  apply_steps-frame [] t p done out = rw (apply_steps-nil t done) (refl, refl)
  apply_steps-frame (s ∷ steps) t p done out =
      let fresh = contains-cons s.relative (targets steps) p in
      let (files, states) =
        apply_steps-frame steps (apply_to_root os s t) p (apply_steps-cons s steps t done)
          (ground (arith, out, fresh)) in
      (
        ground (arith, out, fresh, files, apply_to_root-files s t p),
        ground (arith, out, fresh, states, apply_to_root-states s t p),
      )

-- What a hunk means for its path: no text if it deletes the file, else the text that it has.
abbrev pub meant_text : PatchHunk → Option String
meant_text h = elim h.kind [ delete ↦ none | _ ↦ h.content ]

-- The path of a hunk is read as this one.
abbrev pub is_for : Os → String → String → PatchHunk → Bool
is_for os root p h = elim (normalize_repo_relative os h.path root) [
  | err _ ↦ false
  | ok relative ↦ p == relative
]

-- A tree has what a hunk means at the path of the hunk.
abbrev pub IsDone : Os → String → Files → PatchHunk → Type 0
IsDone os root files h =
    (p : String) × (normalize_repo_relative os h.path root ≡ ok p) × (lookup p files ≡ meant_text h)

module _ (os : Os) (allowed : Option (List String)) (snapshot : IntegrationSnapshot) where
  -- A hunk is valid for one path: that to which its own is normalized, which is allowed.
  pub validate_hunk-valid :
      (h : PatchHunk) {relative : String} {old : Option FileState}
      → validate_hunk os allowed snapshot h ≡ valid relative old
      → (normalize_repo_relative os h.path snapshot.root ≡ ok relative)
        × (is_allowed os allowed relative ≡ true)
        × (lookup relative snapshot.file_states ≡ old)
  unfolding validate_hunk check_kind
  validate_hunk-valid h found = ground arith

  -- A valid hunk that does not delete has a text.
  hunk_text-valid :
      (h : PatchHunk) {relative : String} {old : Option FileState}
      → validate_hunk os allowed snapshot h ≡ valid relative old
      → hunk_text h ≡ meant_text h
  unfolding validate_hunk check_kind
  hunk_text-valid h found = ground arith

  -- The targets are the paths of the hunks.
  pub contains-targets :
      (seen : List String) (hunks : List PatchHunk) (steps : List Step) (p : String)
      → IsValidated os allowed snapshot seen hunks steps
      → contains (targets steps) p ≡ any (is_for os snapshot.root p) hunks
  unfolding contains any
  contains-targets seen [] [] p v = refl
  contains-targets seen [] (s ∷ steps) p v = absurd v
  contains-targets seen (h ∷ hunks) [] p v = absurd v
  contains-targets seen (h ∷ hunks) (s ∷ steps) p (same, checked, new, rest) = ground (
    arith,
    validate_hunk-valid h checked,
    contains-targets (s.relative ∷ seen) hunks steps p rest,
  )

  -- The targets are allowed.
  pub targets-allowed :
      (seen : List String) (hunks : List PatchHunk) (steps : List Step) (p : String)
      → IsValidated os allowed snapshot seen hunks steps
      → is_allowed os allowed p ≡ false
      → contains (targets steps) p ≡ false
  unfolding contains
  targets-allowed seen [] [] p v outside = refl
  targets-allowed seen [] (s ∷ steps) p v outside = absurd v
  targets-allowed seen (h ∷ hunks) [] p v outside = absurd v
  targets-allowed seen (h ∷ hunks) (s ∷ steps) p (same, checked, new, rest) outside = ground (
    arith,
    validate_hunk-valid h checked,
    targets-allowed (s.relative ∷ seen) hunks steps p rest outside,
  )

  -- The steps leave at the path of each hunk what it means.
  pub apply_steps-IsDone :
      (seen : List String) (hunks : List PatchHunk) (steps : List Step) (t : Transaction)
      {t' : Transaction}
      → IsValidated os allowed snapshot seen hunks steps
      → apply_steps os steps t ≡ ok t'
      → All (IsDone os snapshot.root t'.files) hunks
  apply_steps-IsDone seen [] [] t v done = tt
  apply_steps-IsDone seen [] (s ∷ steps) t v done = absurd v
  apply_steps-IsDone seen (h ∷ hunks) [] t v done = absurd v
  apply_steps-IsDone seen (h ∷ hunks) (s ∷ steps) t (same, checked, new, rest) done =
      let next = apply_steps-cons os s steps t done in
      let fresh =
        IsValidated-fresh os allowed snapshot (s.relative ∷ seen) hunks steps s.relative rest
          (contains_self s.relative seen) in
      let (kept, _) = apply_steps-frame os steps (apply_to_root os s t) s.relative next fresh in
      let here = apply_to_root-files os s t s.relative in
      let text : lookup s.relative (apply_to_root os s t).files ≡ hunk_text h =
        ground (arith, here, same, ==_refl s.relative) in
      (
        (s.relative, (validate_hunk-valid h checked).0, kept ∙ text ∙ hunk_text-valid h checked),
        apply_steps-IsDone (s.relative ∷ seen) hunks steps (apply_to_root os s t) rest next,
      )

-- The state that is recorded for a path is that of the text at the path.
abbrev pub AgreesAt : Os → Dict String FileState → Files → String → Type 0
AgreesAt os states files p = lookup p states ≡ state_at os p (lookup p files)

apply_to_root-AgreesAt :
    (os : Os) (s : Step) (t : Transaction) (p : String)
    → AgreesAt os t.states t.files p
    → AgreesAt os (apply_to_root os s t).states (apply_to_root os s t).files p
apply_to_root-AgreesAt os s t p agrees =
    ground (arith, agrees, apply_to_root-files os s t p, apply_to_root-states os s t p)

pub apply_steps-AgreesAt :
    (os : Os) (steps : List Step) (t : Transaction) {t' : Transaction} (p : String)
    → apply_steps os steps t ≡ ok t'
    → AgreesAt os t.states t.files p
    → AgreesAt os t'.states t'.files p
apply_steps-AgreesAt os [] t p done agrees = rw (sym (apply_steps-nil os t done)) agrees
apply_steps-AgreesAt os (s ∷ steps) t p done agrees =
    apply_steps-AgreesAt os steps (apply_to_root os s t) p (apply_steps-cons os s steps t done)
      (apply_to_root-AgreesAt os s t p agrees)

apply_to_root-nonempty :
    (os : Os) (s : Step) (t : Transaction) → is_nonempty (apply_to_root os s t).applied ≡ true
unfolding apply_to_root
apply_to_root-nonempty os s t = at s.hunk.kind refl
  where
    at : (k : ChangeKind) → s.hunk.kind ≡ k → is_nonempty (apply_to_root os s t).applied ≡ true
    at create e = rw (apply_to_root, e) (append-nonempty t.applied _)
    at modify e = rw (apply_to_root, e) (append-nonempty t.applied _)
    at delete e = rw (apply_to_root, e) (append-nonempty t.applied _)

apply_steps-nonempty :
    (os : Os) (steps : List Step) (t : Transaction) {t' : Transaction}
    → apply_steps os steps t ≡ ok t'
    → is_nonempty t.applied ≡ true
    → is_nonempty t'.applied ≡ true
apply_steps-nonempty os [] t done some_applied = rw (sym (apply_steps-nil os t done)) some_applied
apply_steps-nonempty os (s ∷ steps) t done some_applied =
    apply_steps-nonempty os steps (apply_to_root os s t) (apply_steps-cons os s steps t done)
      (apply_to_root-nonempty os s t)

-- The steps leave a change, if there are steps.
pub apply_steps-applied :
    (os : Os) (steps : List Step) (t : Transaction) {t' : Transaction}
    → is_nonempty steps ≡ true
    → apply_steps os steps t ≡ ok t'
    → is_nonempty t'.applied ≡ true
apply_steps-applied os [] t filled done = cc
apply_steps-applied os (s ∷ steps) t filled done =
    apply_steps-nonempty os steps (apply_to_root os s t) (apply_steps-cons os s steps t done)
      (apply_to_root-nonempty os s t)
