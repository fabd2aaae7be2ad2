-- ===== src/Integrator/Patches.antt =====
-- c4harness/integrator/patches.py: the data of patches, and the validation of hunks.
pub mod Transactions
pub mod Steps
pub mod Trees
pub mod Atomic
pub mod Correct
pub mod Consistent
pub mod Rollback
pub mod Expected
use Prim.Native.String.{◌++◌ as ◌<>◌}
use c4harness.Base.{
  ℕ, String, Bool, true, false, not, ◌&&◌, ◌||◌, Option, none, some, List, [], ◌∷◌, ◌++◌, Dict,
  lookup, insert, erase, has_key, any, contains, starts_with, ends_with, has_text, rstrip_slash,
  text_take, utf8_length, ◌==◌, string_eq, if◌then◌else◌,
}
use c4harness.Core.Errors.{
  Error, Result, ok, err, value_error, key_error, compile_error, recursion_error, raise_if, ◌>>=◌,
  ◌>>◌,
}
use c4harness.Core.Types.{is_nonempty}
use c4harness.Integrator.Workspace.{
  Files, Os, FileState, IntegrationSnapshot, Workspace, normalize_repo_relative, state_of,
  scan_file_states,
}

pub data ChangeKind : Type 0 where
  create modify delete : ChangeKind

pub record PatchHunk : Type 0 where
  pub path : String
  pub kind : ChangeKind
  pub content : Option String
  pub expected_sha256 : Option String

pub record FileChange : Type 0 where
  pub path : String
  pub kind : ChangeKind
  pub old_sha256 : Option String
  pub new_sha256 : Option String
  pub size : ℕ

pub record PatchResult : Type 0 where
  pub applied : List FileChange
  pub failed : List String
  pub violations : List String
  pub rollback_dir : Option String

unfoldable pub success : PatchResult → Bool
success r = is_nonempty r.applied && (not (is_nonempty r.failed) && not (is_nonempty r.violations))

-- `PatchResult(failed=…, violations=…)`
abbrev pub failure : List String → List String → PatchResult
failure failed violations = record {
  applied = [];
  failed = failed;
  violations = violations;
  rollback_dir = none;
}

-- The text of an exception.
abbrev pub error_text : Error → String
error_text (value_error text) = text
error_text (key_error text) = text
error_text (compile_error text) = text
error_text recursion_error = ""

-- What `_validate_hunk` returns: the relative path and the old state, or the error.
pub data HunkCheck : Type 0 where
  valid : String → Option FileState → HunkCheck
  invalid : String → HunkCheck

-- One round of the loop of `_is_allowed`.
unfoldable pub allows : Os → String → String → Bool
allows os relative allowed =
    relative == allowed
    || ((ends_with "/" allowed && starts_with allowed relative)
        || (os.is_directory allowed && starts_with (rstrip_slash allowed <> "/") relative))

unfoldable pub is_allowed : Os → Option (List String) → String → Bool
unfolding allows
is_allowed os none relative = true
is_allowed os (some allowed) relative = any (allows os relative) allowed

-- `hunk.expected_sha256 is not None and old_state.sha256 != hunk.expected_sha256`
abbrev pub mismatch : Option String → FileState → Option String
mismatch none old = none
mismatch (some expected) old =
    if old.sha256 == expected
    then none
    else some (
        "expected " <> text_take 16 expected <> "…, " <> "found " <> text_take 16 old.sha256 <> "…")

-- The `if hunk.kind == …` chain of `_validate_hunk`.
unfoldable pub check_kind : PatchHunk → String → Option FileState → HunkCheck
check_kind h relative old = elim h.kind [
  | create ↦ elim old [
    | some _ ↦ invalid ("File already exists (cannot CREATE): " <> relative)
    | none ↦ elim h.expected_sha256 [
      | some _ ↦ invalid ("CREATE must not specify expected_sha256: " <> relative)
      | none ↦ elim h.content [
        | none ↦ invalid ("CREATE requires content: " <> relative)
        | some _ ↦ valid relative none
      ]
    ]
  ]
  | modify ↦ elim old [
    | none ↦ invalid ("File does not exist (cannot MODIFY): " <> relative)
    | some state ↦ elim h.content [
      | none ↦ invalid ("MODIFY requires content: " <> relative)
      | some _ ↦ elim (mismatch h.expected_sha256 state) [
        | some detail ↦ invalid ("SHA-256 mismatch for " <> relative <> ": " <> detail)
        | none ↦ valid relative (some state)
      ]
    ]
  ]
  | delete ↦ elim old [
    | none ↦ invalid ("File does not exist (cannot DELETE): " <> relative)
    | some state ↦ elim (mismatch h.expected_sha256 state) [
      | some detail ↦ invalid ("SHA-256 mismatch for DELETE " <> relative <> ": " <> detail)
      | none ↦ valid relative (some state)
    ]
  ]
]

unfoldable pub validate_hunk :
    Os → Option (List String) → IntegrationSnapshot → PatchHunk → HunkCheck
unfolding is_allowed check_kind
validate_hunk os allowed snapshot h = elim (normalize_repo_relative os h.path snapshot.root) [
  | err e ↦ invalid ("Path rejected: " <> h.path <> " (" <> error_text e <> ")")
  | ok relative ↦
      if not (is_allowed os allowed relative)
      then invalid ("Path outside write allowlist: " <> relative)
      else check_kind h relative (lookup relative snapshot.file_states)
]

-- A validated hunk with its relative path and the state of its file.
pub record Step : Type 0 where
  pub hunk : PatchHunk
  pub relative : String
  pub old_state : Option FileState

-- The lists that the first loop of `apply` builds.
pub record Gathered : Type 0 where
  pub to_apply : List Step
  pub failed : List String
  pub violations : List String
  pub seen : List String

-- `"violation" in error.lower() or "allowlist" in error.lower()`
abbrev pub is_violation : Os → String → Bool
is_violation os e = has_text "violation" (os.lower e) || has_text "allowlist" (os.lower e)

-- The body of that loop.
unfoldable pub gather :
    Os → Option (List String) → IntegrationSnapshot → PatchHunk → Gathered → Gathered
unfolding validate_hunk
gather os allowed snapshot h g = elim (validate_hunk os allowed snapshot h) [
  | invalid e ↦
      if is_violation os e
      then record g { violations = g.violations ++ e ∷ [] }
      else record g { failed = g.failed ++ e ∷ [] }
  | valid relative old ↦
      if contains g.seen relative
      then record g { failed = g.failed ++ ("Duplicate patch target: " <> relative) ∷ [] }
      else record g {
        seen = relative ∷ g.seen;
        to_apply = g.to_apply ++ record { hunk = h; relative = relative; old_state = old } ∷ [];
      }
]

unfoldable pub gather_all :
    Os → Option (List String) → IntegrationSnapshot → List PatchHunk → Gathered → Gathered
unfolding gather
gather_all os allowed snapshot [] g = g
gather_all os allowed snapshot (h ∷ hunks) g =
    gather_all os allowed snapshot hunks (gather os allowed snapshot h g)

-- `hunk.content or ""`
abbrev pub new_text : PatchHunk → String
new_text h = elim h.content [ none ↦ "" | some text ↦ text ]

abbrev pub old_sha : Option FileState → Option String
old_sha none = none
old_sha (some state) = some state.sha256
