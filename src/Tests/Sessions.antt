-- ===== src/Tests/Sessions.antt =====
-- Tests of the session that integrates the patches of a graph.
use c4harness.Base.{
  ◌≡◌, ◌↔◌, ◌⊎◌, refl, suc, Dict, String, Bool, true, false, Option, none, some, List, [], ◌∷◌,
  lookup, has_key, keys, Nodup, string_eq,
}
use c4harness.Core.Errors.{Error, Result, err, ok}
use c4harness.Reservations.{new_manager}
use c4harness.Integrator.Workspace.{Workspace, scan_file_states, FileState}
use c4harness.Integrator.Patches.{modify, PatchResult, FileChange}
use c4harness.Integrator.Conflicts.{
  Entry, regular, detect_conflicts, relevant, selected_paths, Entry,
}
use c4harness.Integrator.Conflicts.Unchanged.{IsUnchanged, detect_conflicts_iff}
use c4harness.Integrator.Sessions.{
  Session, IntegrationAttempt, accepted, apply_proposal, commit, rollback, post_verification_issues,
}
use c4harness.Integrator.Sessions.Rounds.{
  apply_proposal_correct, commit-apply_proposal, rollback-apply_proposal,
}
use c4harness.Integrator.Sessions.Changes.{post_verification_issues_iff}
use c4harness.Tests.Patches.{os, workspace, state}
use c4harness.Tests.Diffs.{texts}

abbrev source : Dict String Entry
source = ("a.txt", regular "one") ∷ ("b.txt", regular "two") ∷ []

abbrev session : Session
session = record {
  workspace = workspace;
  source_repo = "/src";
  source_baseline = workspace.snapshot.file_states;
  reservations = new_manager;
  lock = 0;
}

abbrev patch : Result String
patch =
    ok
      "--- a/a.txt\n+++ b/a.txt\n@@ -1 +1 @@\n-one\n\\ No newline at end of file\n+uno\n\\ No newline at end of file\n"

abbrev patched : Session
patched = record session {
  workspace = record {
    snapshot = record {
      root = "/w";
      file_states = ("a.txt", state "a.txt" "uno") ∷ ("b.txt", state "b.txt" "two") ∷ [];
      pending_rollback = some "/old";
    };
    files = ("a.txt", "uno") ∷ ("b.txt", "two") ∷ [];
    backups = ("/old", ("a.txt", "one") ∷ ("b.txt", "two") ∷ []) ∷ [];
  };
  lock = 1;
}

abbrev attempt : IntegrationAttempt
attempt = record {
  patch_result = some (record {
    applied =
        record {
          path = "a.txt";
          kind = modify;
          old_sha256 = some "#one";
          new_sha256 = some "#uno";
          size = 3;
        }
        ∷ [];
    failed = [];
    violations = [];
    rollback_dir = some "/old";
  });
  conflicts = [];
  issues = [];
  expected_states = patched.workspace.snapshot.file_states;
  lock_held = true;
}

proposed : apply_proposal os texts source patch ("a.txt" ∷ []) session ≡ (patched, ok attempt)
unfolding apply_proposal string_eq lookup has_key c4harness.Base.contains c4harness.Base.insert
    c4harness.Base.erase c4harness.Base.to_set c4harness.Base.any c4harness.Base.filter
    c4harness.Base.starts_with c4harness.Base.ends_with c4harness.Base.has_text
    c4harness.Base.text_drop c4harness.Base.text_take c4harness.Base.rstrip_newline
    c4harness.Base.lstrip_slash c4harness.Base.rstrip_slash c4harness.Base.concat
    c4harness.Paths.split c4harness.Paths.root_of c4harness.Paths.parts c4harness.Paths.as_posix
    c4harness.Paths.list_eq c4harness.Paths.parts_overlap c4harness.Paths.paths_overlap
    c4harness.Scheduler.Batch.strip_parts c4harness.Scheduler.Batch.join_parts
    c4harness.Reservations.canonical_write_path c4harness.Reservations.canonical_paths
    c4harness.Tests.Diffs.split_lines c4harness.Integrator.Workspace.normalize_repo_relative
    c4harness.Integrator.Workspace.is_excluded_relative_path
    c4harness.Integrator.Patches.Transactions.apply c4harness.Integrator.Patches.success
    c4harness.Integrator.Diffs.Files.parse_unified_diff c4harness.Integrator.Diffs.has_line
proposed = refl

accepts : accepted attempt ≡ true
unfolding accepted c4harness.Integrator.Patches.success
accepts = refl

apply_proposal_correct_example :
    (s' : Session) × (outcome : Result IntegrationAttempt) × (apply_proposal os texts source patch
        ("a.txt" ∷ [])
        session
      ≡ (s', outcome))
    × (((e : Error) × (outcome ≡ err e) × (s' ≡ session))
        ⊎ ((a : IntegrationAttempt) × (outcome ≡ ok a)
            × (((accepted a ≡ false) × (a.lock_held ≡ false) × (s' ≡ session))
                ⊎ ((accepted a ≡ true)
                    × (a.lock_held ≡ true)
                    × (s'.lock ≡ 1)
                    × (workspace.snapshot.pending_rollback ≡ none)
                    × (s'.workspace.snapshot.pending_rollback ≡ some "/old")))))
apply_proposal_correct_example = apply_proposal_correct os texts source patch ("a.txt" ∷ []) session

commit-apply_proposal_example :
    (s'' : Session) × (a' : IntegrationAttempt) × (commit attempt patched ≡ (s'', a', ok tt))
    × (s''.lock ≡ 0)
    × (a'.lock_held ≡ false)
    × (s''.workspace.files ≡ patched.workspace.files)
    × (s''.workspace.snapshot.file_states ≡ patched.workspace.snapshot.file_states)
    × (s''.workspace.snapshot.pending_rollback ≡ none)
commit-apply_proposal_example =
    commit-apply_proposal os texts source patch ("a.txt" ∷ []) session proposed accepts

unused : has_key "/old" workspace.backups ≡ false
unfolding has_key
unused = refl

rollback-apply_proposal_example :
    (a' : IntegrationAttempt) × (rollback os attempt patched ≡ (
      record session {
        workspace = record workspace {
          snapshot = record workspace.snapshot {
            file_states = scan_file_states os workspace.files;
            pending_rollback = none;
          };
        };
      },
      a',
      ok true,
    ))
    × (a'.lock_held ≡ false)
rollback-apply_proposal_example =
    rollback-apply_proposal os texts source patch ("a.txt" ∷ []) session proposed accepts os refl
      refl refl unused

post_verification_issues_iff_example : (post_verification_issues os attempt patched ≡ []) ↔ (
    (os.symlink ≡ none)
    × (os.scan_fault ≡ none)
    × ((p : String)
        → lookup p patched.workspace.snapshot.file_states
          ≡ lookup p (scan_file_states os patched.workspace.files)))
post_verification_issues_iff_example = post_verification_issues_iff os attempt patched

distinct_baseline : Nodup (keys workspace.snapshot.file_states)
unfolding keys c4harness.Base.contains string_eq
distinct_baseline = (refl, (refl, tt))

distinct_source : Nodup (keys source)
unfolding keys c4harness.Base.contains string_eq
distinct_source = (refl, (refl, tt))

all_paths : selected_paths none ≡ ok none
unfolding selected_paths
all_paths = refl

detect_conflicts_iff_example :
    (detect_conflicts os source workspace.snapshot.file_states none none ≡ ok []) ↔ (
      (p : String)
      → relevant none p ≡ true
      → IsUnchanged os source workspace.snapshot.file_states p)
detect_conflicts_iff_example =
    detect_conflicts_iff os source workspace.snapshot.file_states none none all_paths
      distinct_baseline distinct_source

-- Where the listing of the source fails at once, no conflict is found although there is a new file.
listing_fails :
    detect_conflicts
      (record os { listing_fault = some 0 })
      (("c.txt", regular "new") ∷ source)
      workspace.snapshot.file_states
      none
      none
    ≡ ok []
unfolding detect_conflicts lookup string_eq
listing_fails = refl
