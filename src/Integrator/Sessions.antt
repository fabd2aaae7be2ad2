-- ===== src/Integrator/Sessions.antt =====
-- c4harness/integrator/service.py: `GraphIntegrationSession`. The lock is the number of times that it is
-- held. A method that may raise returns the session of after with its result, since `finally` releases the
-- lock in either case.
pub mod Attempts
pub mod Rounds
pub mod Changes
use Prim.Native.String.{◌++◌ as ◌<>◌}
use c4harness.Base.{
  ℕ, suc, ◌-◌, String, Bool, true, false, not, ◌&&◌, Option, none, some, List, [], ◌∷◌, ◌++◌, Dict,
  lookup, keys, filter, to_set, sorted, ◌==◌, string_eq, if◌then◌else◌,
}
use c4harness.Core.Errors.{Error, Result, ok, err, value_error, ◌>>=◌}
use c4harness.Core.Types.{is_nonempty}
use c4harness.Core.Graph.{join}
use c4harness.Paths.{parts, root_of}
use c4harness.Scheduler.Batch.{strip_parts, join_parts}
use c4harness.Reservations.{WriteReservationManager, reserve, release_node}
use c4harness.Reservations.{reserve, release_node, WriteReservationManager}
use c4harness.Integrator.Workspace.{Os, FileState, Workspace, scan_file_states}
use c4harness.Integrator.Patches.{PatchResult, success, failure, error_text}
use c4harness.Integrator.Patches.Transactions.{apply}
use c4harness.Integrator.Patches.Transactions as Patches
use c4harness.Integrator.Diffs.{is_equal, Texts}
use c4harness.Integrator.Diffs.Files.{parse_unified_diff}
use c4harness.Integrator.Conflicts.{Conflict, Entry, detect_conflicts}

pub record IntegrationAttempt : Type 0 where
  pub patch_result : Option PatchResult
  pub conflicts : List Conflict
  pub issues : List String
  pub expected_states : Dict String FileState
  pub lock_held : Bool

-- `IntegrationAttempt.accepted`
unfoldable pub accepted : IntegrationAttempt → Bool
accepted a =
    not (is_nonempty a.conflicts)
    && (not (is_nonempty a.issues)
        && elim a.patch_result [ none ↦ false | some result ↦ success result ])

-- The session with its snapshot, and what the snapshot says of the source.
pub record Session : Type 0 where
  pub workspace : Workspace
  pub source_repo : String
  pub source_baseline : Dict String FileState
  pub reservations : WriteReservationManager
  pub lock : ℕ

-- The loop of `relative_path` over the two roots.
unfoldable pub relative_to_one : Os → List String → String → Option String
relative_to_one os [] resolved = none
relative_to_one os (root ∷ roots) resolved =
    let rest = relative_to_one os roots resolved in
    elim (strip_parts (parts (os.resolve root)) (parts resolved)) [
      | none ↦ rest
      | some below ↦ some (join_parts below)
    ]

unfoldable pub relative_path : Os → Session → String → Result String
unfolding relative_to_one
relative_path os s path =
    let candidate : String =
      if not (root_of path == "") then path else s.source_repo <> "/" <> path in
    elim (relative_to_one os (s.source_repo ∷ s.workspace.snapshot.root ∷ [])
      (os.resolve candidate)) [
        | none ↦ err (value_error ("Path is outside the graph repository: " <> path))
        | some relative ↦ ok relative
      ]

-- `[self.relative_path(path) for path in write_paths]`
unfoldable pub relative_paths : Os → Session → List String → Result (List String)
unfolding relative_path
relative_paths os s [] = ok []
relative_paths os s (path ∷ paths) =
    let rest = relative_paths os s paths in
    relative_path os s path >>= λ relative. rest >>= λ relatives. ok (relative ∷ relatives)

-- The method `reserve`, and `release`, of the session.
unfoldable pub reserve_paths : Os → Session → String → List String → Result Session
unfolding relative_paths
reserve_paths os s node_id write_paths = do
  relatives ← relative_paths os s write_paths
  reserved ← reserve s.reservations node_id relatives
  ok (record s { reservations = reserved.0 })

unfoldable pub release_reserved : Session → String → Result Session
release_reserved s node_id =
    release_node s.reservations node_id >>= λ released. ok (record s { reservations = released.0 })

-- `PatchApplier.apply_unified_diff`, with what reading the patch file comes to.
unfoldable pub apply_unified_diff :
    Os
    → Texts
    → Option (List String)
    → Result String
    → Bool
    → Workspace
    → Result (Workspace × PatchResult)
unfolding parse_unified_diff
apply_unified_diff os t allowed patch retain_rollback w =
    elim (patch >>= λ patch_text. parse_unified_diff os t patch_text w) [
      | err e ↦ ok (w, failure (("Invalid proposed patch: " <> error_text e) ∷ []) [])
      | ok hunks ↦ apply os allowed hunks retain_rollback w
    ]

-- `patch_result.success and patch_result.rollback_dir is not None`
abbrev pub keeps_lock : PatchResult → Bool
keeps_lock r = success r && elim r.rollback_dir [ none ↦ false | some _ ↦ true ]

-- The body of `apply_proposal` between the two uses of the lock.
unfoldable pub propose :
    Os
    → Texts
    → Dict String Entry
    → Result String
    → List String
    → Session
    → Result (Workspace × IntegrationAttempt)
unfolding relative_paths detect_conflicts apply_unified_diff
propose os t source patch write_paths s = relative_paths os s write_paths >>= λ allowed.
    detect_conflicts os source s.source_baseline none (some (to_set allowed)) >>= λ conflicts.
    if is_nonempty conflicts
    then ok (
      s.workspace,
      record {
        patch_result = none;
        conflicts = conflicts;
        issues = [];
        expected_states = [];
        lock_held = false;
      },
    )
    else (apply_unified_diff os t (some (to_set allowed)) patch true s.workspace >>= λ applied. ok (
      applied.0,
      record {
        patch_result = some applied.1;
        conflicts = [];
        issues = applied.1.failed ++ applied.1.violations;
        expected_states = applied.0.snapshot.file_states;
        lock_held = keeps_lock applied.1;
      },
    ))

-- The lock is taken first, and released unless the attempt keeps it.
unfoldable pub apply_proposal :
    Os
    → Texts
    → Dict String Entry
    → Result String
    → List String
    → Session
    → Session × Result IntegrationAttempt
unfolding propose
apply_proposal os t source patch write_paths s = elim (propose os t source patch write_paths s) [
  | err e ↦ (s, err e)
  | ok (w, attempt) ↦ (
    record s { workspace = w; lock = if attempt.lock_held then suc s.lock else s.lock },
    ok attempt,
  )
]

-- `_release_attempt_lock`
unfoldable pub release_attempt_lock : IntegrationAttempt → Session → Session × IntegrationAttempt
release_attempt_lock a s =
    if a.lock_held then (record s { lock = s.lock - 1 }, record a { lock_held = false }) else (s, a)

-- The session and the attempt of after, and what the method returns or raises.
unfoldable pub commit :
    IntegrationAttempt → Session → Session × IntegrationAttempt × Result (Unit {0})
unfolding release_attempt_lock
commit a s = elim a.patch_result [
  | none ↦ let (s', a') = release_attempt_lock a s in (s', a', ok tt)
  | some result ↦ elim (Patches.commit result s.workspace) [
    | err e ↦ let (s', a') = release_attempt_lock a s in (s', a', err e)
    | ok (w, result') ↦
        let (s', a') =
          release_attempt_lock (record a { patch_result = some result' })
            (record s { workspace = w }) in
        (s', a', ok tt)
  ]
]

unfoldable pub rollback :
    Os → IntegrationAttempt → Session → Session × IntegrationAttempt × Result Bool
unfolding release_attempt_lock
rollback os a s = elim a.patch_result [
  | none ↦ let (s', a') = release_attempt_lock a s in (s', a', ok false)
  | some result ↦
      let back = Patches.rollback os result s.workspace in
      elim back.1 [
        | err e ↦
            let (s', a') = release_attempt_lock a (record s { workspace = back.0 }) in
            (s', a', err e)
        | ok (result', done) ↦
            let (s', a') =
              release_attempt_lock (record a { patch_result = some result' })
                (record s { workspace = back.0 }) in
            (s', a', ok done)
      ]
]

-- `expected.get(path) != current.get(path)`
abbrev pub differ : Option FileState → Option FileState → Bool
differ none none = false
differ none (some _) = true
differ (some _) none = true
differ (some a) (some b) =
    not (a.path == b.path && (a.sha256 == b.sha256 && is_equal a.size b.size))

-- The list `changed`.
unfoldable pub changed_paths : Dict String FileState → Dict String FileState → List String
changed_paths expected current = sorted (
    filter (λ path. differ (lookup path expected) (lookup path current))
      (to_set (keys expected ++ keys current)))

unfoldable pub post_verification_issues : Os → IntegrationAttempt → Session → List String
unfolding changed_paths
post_verification_issues os a s = elim os.symlink [
  | some link ↦ ("Post verifier created a symlink: " <> link) ∷ []
  | none ↦ elim os.scan_fault [
    | some text ↦ ("Cannot rescan integration workspace after verification: " <> text) ∷ []
    | none ↦
        let changed = changed_paths a.expected_states (scan_file_states os s.workspace.files) in
        if is_nonempty changed
        then ("Post verifier changed files outside the patch transaction: " <> join changed) ∷ []
        else []
  ]
]
