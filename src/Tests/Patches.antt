-- ===== src/Tests/Patches.antt =====
-- Tests of patches to the shared workspace.
use Prim.Native.String.{◌++◌ as ◌<>◌}
use c4harness.Base.{
  All, any, has_key, subst, ◌≡◌, refl, String, true, false, Option, none, some, List, [], ◌∷◌,
  lookup, insert, erase, keys, contains, string_eq,
}
use c4harness.Core.Errors.{ok}
use c4harness.Integrator.Workspace.{
  scan_file_states, normalize_repo_relative, is_excluded_relative_path, Os, Files, Workspace,
  IntegrationSnapshot, FileState,
}
use c4harness.Integrator.Patches.Correct.{apply_refines, apply-allowed}
use c4harness.Integrator.Patches.Trees.{IsDone, is_for, AgreesAt}
use c4harness.Integrator.Patches.Consistent.{
  rollback-IsConsistent, IsConsistent, apply-IsConsistent, scan_file_states-AgreesAt,
}
use c4harness.Integrator.Patches.Rollback.{rollback-apply}
use c4harness.Integrator.Patches.Expected.{apply_expected}
use c4harness.Integrator.Patches.{
  failure, is_allowed, PatchHunk, PatchResult, create, modify, delete, success,
}
use c4harness.Integrator.Patches.Transactions.{disk_of, exchange, rollback, apply}

abbrev pub os : Os
os = record {
  resolve = λ path. path;
  sha256 = λ text. "#" <> text;
  lower = λ text. text;
  is_directory = λ path. false;
  symlink = none;
  backup_name = "/old";
  temp_fault = none;
  copy_fault = none;
  write_fault = λ files path. none;
  move_out_fault = none;
  move_in_fault = none;
  move_back_fault = none;
  scan_fault = none;
  listing_fault = none;
}

abbrev pub state : String → String → FileState
state path text = record { path = path; sha256 = "#" <> text; size = 3 }

abbrev pub workspace : Workspace
workspace = record {
  snapshot = record {
    root = "/w";
    file_states = ("a.txt", state "a.txt" "one") ∷ ("b.txt", state "b.txt" "two") ∷ [];
    pending_rollback = none;
  };
  files = ("a.txt", "one") ∷ ("b.txt", "two") ∷ [];
  backups = [];
}

abbrev first_hunk : PatchHunk
first_hunk = record {
  path = "a.txt";
  kind = modify;
  content = some "uno";
  expected_sha256 = some "#one";
}

abbrev later_hunks : List PatchHunk
later_hunks =
    record { path = "b.txt"; kind = delete; content = none; expected_sha256 = none }
    ∷ record { path = "c.txt"; kind = create; content = some "new"; expected_sha256 = none }
    ∷ []

abbrev hunks : List PatchHunk
hunks = first_hunk ∷ later_hunks

abbrev allowed : Option (List String)
allowed = some ("a.txt" ∷ "b.txt" ∷ "c.txt" ∷ [])

abbrev patched : Workspace
patched = record {
  snapshot = record {
    root = "/w";
    file_states = ("a.txt", state "a.txt" "uno") ∷ ("c.txt", state "c.txt" "new") ∷ [];
    pending_rollback = some "/old";
  };
  files = ("a.txt", "uno") ∷ ("c.txt", "new") ∷ [];
  backups = ("/old", ("a.txt", "one") ∷ ("b.txt", "two") ∷ []) ∷ [];
}

abbrev result : PatchResult
result = record {
  applied =
      record {
        path = "a.txt";
        kind = modify;
        old_sha256 = some "#one";
        new_sha256 = some "#uno";
        size = 3;
      }
      ∷ record {
        path = "b.txt";
        kind = delete;
        old_sha256 = some "#two";
        new_sha256 = none;
        size = 0;
      }
      ∷ record {
        path = "c.txt";
        kind = create;
        old_sha256 = none;
        new_sha256 = some "#new";
        size = 3;
      }
      ∷ [];
  failed = [];
  violations = [];
  rollback_dir = some "/old";
}

applies : apply os allowed hunks true workspace ≡ ok (patched, result)
unfolding apply c4harness.Integrator.Workspace.normalize_repo_relative string_eq
    c4harness.Paths.root_of contains c4harness.Paths.parts c4harness.Base.filter
    c4harness.Paths.as_posix c4harness.Base.starts_with c4harness.Scheduler.Batch.strip_parts
    c4harness.Base.any c4harness.Scheduler.Batch.join_parts c4harness.Base.ends_with lookup insert
    erase
applies = refl

succeeds : success result ≡ true
unfolding success
succeeds = refl

scanned : scan_file_states os workspace.files ≡ workspace.snapshot.file_states
unfolding scan_file_states c4harness.Base.any c4harness.Paths.parts string_eq c4harness.Base.filter
    contains
scanned = refl

workspace-IsConsistent : IsConsistent os workspace
workspace-IsConsistent p tracked =
    subst (λ states. AgreesAt os states workspace.files p) scanned
      (scan_file_states-AgreesAt os workspace.files p tracked)

apply_refines_example :
    All (IsDone os "/w" patched.files) hunks
    × ((p : String)
        → any (is_for os "/w" p) hunks ≡ false
        → lookup p patched.files ≡ lookup p workspace.files)
apply_refines_example = apply_refines os allowed hunks true workspace applies succeeds

outside : is_allowed os allowed "d.txt" ≡ false
unfolding is_allowed c4harness.Base.any string_eq c4harness.Base.ends_with
outside = refl

apply-allowed_example : lookup "d.txt" patched.files ≡ lookup "d.txt" workspace.files
apply-allowed_example = apply-allowed os allowed hunks true workspace "d.txt" applies outside

apply-IsConsistent_example : IsConsistent os patched
apply-IsConsistent_example =
    apply-IsConsistent os allowed hunks true workspace workspace-IsConsistent applies

abbrev restored : Workspace
restored = record workspace {
  snapshot = record workspace.snapshot {
    file_states = scan_file_states os workspace.files;
    pending_rollback = none;
  };
}

unused : has_key "/old" workspace.backups ≡ false
unfolding has_key
unused = refl

patched-IsConsistent : IsConsistent os patched
patched-IsConsistent =
    apply-IsConsistent os allowed hunks true workspace workspace-IsConsistent applies

rolled_back :
    rollback os result patched ≡ (restored, ok (record result { rollback_dir = none }, true))
rolled_back = rollback-apply os os allowed hunks workspace refl refl refl unused applies succeeds

rollback-apply_example :
    rollback os result patched ≡ (restored, ok (record result { rollback_dir = none }, true))
rollback-apply_example =
    rollback-apply os os allowed hunks workspace refl refl refl unused applies succeeds

apply_expected_example :
    (p : String) × (normalize_repo_relative os "a.txt" "/w" ≡ ok p)
    × (is_excluded_relative_path p ≡ false
        → (text : String) × (lookup p workspace.files ≡ some text) × (("#" <> text) ≡ "#one"))
apply_expected_example =
    apply_expected os allowed [] first_hunk later_hunks true workspace workspace-IsConsistent
      applies succeeds refl

rollback-IsConsistent_example : IsConsistent os restored
rollback-IsConsistent_example =
    rollback-IsConsistent os result patched patched-IsConsistent rolled_back

-- A move that fails, and is undone at once or by the handler of `apply`, leaves the workspace as it was.
abbrev unlucky : Os
unlucky = record os { move_in_fault = some "OSError: in"; move_back_fault = some "OSError: back" }

exchange_fails : exchange unlucky (disk_of workspace.files patched.files) ≡ (
  record { root = none; incoming = some patched.files; outgoing = some workspace.files },
  some "OSError: back",
)
unfolding exchange
exchange_fails = refl

failed_exchange :
    apply unlucky allowed hunks true workspace
    ≡ ok (workspace, failure ("Patch transaction failed: OSError: back" ∷ []) [])
unfolding apply c4harness.Integrator.Workspace.normalize_repo_relative string_eq
    c4harness.Paths.root_of contains c4harness.Paths.parts c4harness.Base.filter
    c4harness.Paths.as_posix c4harness.Base.starts_with c4harness.Scheduler.Batch.strip_parts
    c4harness.Base.any c4harness.Scheduler.Batch.join_parts c4harness.Base.ends_with lookup insert
    erase
failed_exchange = refl

-- A rollback whose exchange can not be undone raises, and leaves no tree at the root.
lost : (rollback unlucky result patched).0.files ≡ []
unfolding rollback lookup string_eq
lost = refl

-- A rollback whose scan raises has moved the backup to the root, and stays pending.
stuck :
    (rollback (record os { scan_fault = some "OSError" }) result patched).0
    ≡ record patched { files = workspace.files; backups = [] }
unfolding rollback lookup erase string_eq
stuck = refl
