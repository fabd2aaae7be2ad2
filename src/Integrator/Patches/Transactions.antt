-- ===== src/Integrator/Patches/Transactions.antt =====
-- `PatchApplier`: the transaction that applies hunks, its commit and its rollback. A transaction copies the
-- tree, changes the copy, and exchanges the two. If `apply` has to move the old tree back a second time, that
-- this does not fail is taken for granted.
use Prim.Native.String.{◌++◌ as ◌<>◌}
use c4harness.Base.{
  String, Bool, true, false, not, ◌||◌, Option, none, some, List, [], ◌∷◌, ◌++◌, Dict, lookup,
  insert, erase, utf8_length, ◌==◌, string_eq, if◌then◌else◌,
}
use c4harness.Core.Errors.{Result, ok, err, value_error, ◌>>◌}
use c4harness.Core.Types.{is_nonempty}
use c4harness.Integrator.Workspace.{Files, Os, FileState, Workspace, state_of, scan_file_states}
use c4harness.Integrator.Patches.{
  FileChange, PatchHunk, PatchResult, Step, delete, error_text, failure, gather_all, new_text,
  old_sha,
}

-- The tree of the transaction, the states that go with it, and the changes made so far.
pub record Transaction : Type 0 where
  pub files : Files
  pub states : Dict String FileState
  pub applied : List FileChange

unfoldable pub apply_to_root : Os → Step → Transaction → Transaction
unfolding state_of
apply_to_root os s t = elim s.hunk.kind [
  | delete ↦ record {
    files = erase s.relative t.files;
    states = erase s.relative t.states;
    applied =
        t.applied
        ++ record {
          path = s.relative;
          kind = delete;
          old_sha256 = old_sha s.old_state;
          new_sha256 = none;
          size = 0;
        }
          ∷ [];
  }
  | other ↦ record {
    files = insert s.relative (new_text s.hunk) t.files;
    states = insert s.relative (state_of os s.relative (new_text s.hunk)) t.states;
    applied =
        t.applied
        ++ record {
          path = s.relative;
          kind = other;
          old_sha256 = old_sha s.old_state;
          new_sha256 = some (os.sha256 (new_text s.hunk));
          size = utf8_length (new_text s.hunk);
        }
          ∷ [];
  }
]

-- The loop over `to_apply`, where the change of a file may raise.
unfoldable pub apply_steps : Os → List Step → Transaction → Result Transaction
unfolding apply_to_root
apply_steps os [] t = ok t
apply_steps os (s ∷ steps) t = elim (os.write_fault t.files s.relative) [
  | some text ↦ err (value_error text)
  | none ↦ apply_steps os steps (apply_to_root os s t)
]

-- `raise` of an injected exception
abbrev pub raise_fault : Option String → Result (Unit {0})
raise_fault none = ok tt
raise_fault (some text) = err (value_error text)

-- The directories of an exchange: the root, the tree that is to take its place, and the tree that was moved
-- away. In `apply`, these are the workspace, the transaction and the backup; in `rollback`, the workspace, the
-- backup and the rejected tree.
pub record Disk : Type 0 where
  pub root : Option Files
  pub incoming : Option Files
  pub outgoing : Option Files

abbrev pub disk_of : Files → Files → Disk
disk_of old new = record { root = some old; incoming = some new; outgoing = none }

-- `os.replace` of the root to the name of the outgoing tree, of the incoming tree to the root, and of the
-- outgoing tree back to the root.
abbrev pub move_out : Disk → Disk
move_out d = record d { root = none; outgoing = d.root }

abbrev pub move_in : Disk → Disk
move_in d = record d { root = d.incoming; incoming = none }

abbrev pub move_back : Disk → Disk
move_back d = record d { root = d.outgoing; outgoing = none }

-- The two `os.replace` calls, with the handler of the second: what is left, and the exception if one is raised.
unfoldable pub exchange : Os → Disk → Disk × Option String
exchange os d = elim os.move_out_fault [
  | some text ↦ (d, some text)
  | none ↦ elim os.move_in_fault [
    | none ↦ (move_in (move_out d), none)
    | some text ↦ elim os.move_back_fault [
      | some other ↦ (move_out d, some other)
      | none ↦ (move_back (move_out d), some text)
    ]
  ]
]

-- The handler of `apply`: the transaction is removed, and the backup moved back if the root is missing.
unfoldable pub reclaim : Disk → Disk
reclaim d = elim d.outgoing [
  | none ↦ record d { incoming = none }
  | some _ ↦ elim d.root [
    | some _ ↦ record d { incoming = none }
    | none ↦ move_back (record d { incoming = none })
  ]
]

-- A directory that is missing has no files.
abbrev pub tree_of : Option Files → Files
tree_of none = []
tree_of (some files) = files

-- The workspace and its backups as the directories of `apply` are.
unfoldable pub settled : Os → Disk → Workspace → Workspace
settled os d w = record w {
  files = tree_of d.root;
  backups = elim d.outgoing [ none ↦ w.backups | some old ↦ insert os.backup_name old w.backups ];
}

-- The `try` block of the second phase, up to the exchange of the trees.
unfoldable pub run_transaction : Os → List Step → Workspace → Result Transaction
unfolding apply_steps
run_transaction os steps w = do
  raise_fault os.copy_fault
  apply_steps os steps (record { files = w.files; states = w.snapshot.file_states; applied = [] })

unfoldable pub commit : PatchResult → Workspace → Result (Workspace × PatchResult)
commit r w = elim r.rollback_dir [
  | none ↦ ok (w, r)
  | some dir ↦ elim w.snapshot.pending_rollback [
    | none ↦ err (value_error "Patch transaction does not own the pending rollback.")
    | some owner ↦
        if not (owner == dir)
        then err (value_error "Patch transaction does not own the pending rollback.")
        else ok (
          record w {
            snapshot = record w.snapshot { pending_rollback = none };
            backups = erase dir w.backups;
          },
          record r { rollback_dir = none },
        )
  ]
]

abbrev pub failed_transaction : String → PatchResult
failed_transaction text = failure (("Patch transaction failed: " <> text) ∷ []) []

-- What follows the exchange in the second phase, where it raised nothing.
unfoldable pub finish : Os → Bool → Transaction → Workspace → Result (Workspace × PatchResult)
unfolding commit
finish os retain_rollback t w =
    let result : PatchResult = record {
      applied = t.applied;
      failed = [];
      violations = [];
      rollback_dir = some os.backup_name;
    } in
    let pending : Workspace = record w {
      snapshot = record w.snapshot {
        file_states = t.states;
        pending_rollback = some os.backup_name;
      };
    } in
    if retain_rollback then ok (pending, result) else commit result pending

-- The second phase after an exchange that has left directories, and raised an exception or none.
unfoldable pub after_exchange :
    Os → Bool → Transaction → Workspace → Disk × Option String → Result (Workspace × PatchResult)
unfolding reclaim settled finish
after_exchange os retain_rollback t w (d, some text) =
    ok (settled os (reclaim d) w, failed_transaction text)
after_exchange os retain_rollback t w (d, none) = finish os retain_rollback t (settled os d w)

-- The second phase of `apply` from its `try` on.
unfoldable pub install : Os → Bool → List Step → Workspace → Result (Workspace × PatchResult)
unfolding run_transaction exchange after_exchange
install os retain_rollback steps w = elim (run_transaction os steps w) [
  | err e ↦
      let left : Disk = record { root = some w.files; incoming = none; outgoing = none } in
      ok (settled os (reclaim left) w, failed_transaction (error_text e))
  | ok t ↦ after_exchange os retain_rollback t w (exchange os (disk_of w.files t.files))
]

-- The second phase of `apply`.
unfoldable pub transact : Os → Bool → List Step → Workspace → Result (Workspace × PatchResult)
unfolding install
transact os retain_rollback steps w = elim os.temp_fault [
  | some text ↦ err (value_error text)
  | none ↦ install os retain_rollback steps w
]

unfoldable pub apply :
    Os → Option (List String) → List PatchHunk → Bool → Workspace → Result (Workspace × PatchResult)
unfolding gather_all transact
apply os allowed hunks retain_rollback w =
    let g =
      gather_all os allowed w.snapshot hunks
        (record { to_apply = []; failed = []; violations = []; seen = [] }) in
    elim w.snapshot.pending_rollback [
      | some _ ↦ ok (
        w,
        failure ("A previous patch transaction is still awaiting commit or rollback." ∷ []) [],
      )
      | none ↦ elim os.symlink [
        | some link ↦
            ok (
              w,
              failure (("Integration workspace invariant violated by symlink: " <> link) ∷ []) [],
            )
        | none ↦
            if is_nonempty g.failed || is_nonempty g.violations
            then ok (w, failure g.failed g.violations)
            else if not (is_nonempty g.to_apply)
            then ok (w, failure ("Patch contains no file changes." ∷ []) [])
            else transact os retain_rollback g.to_apply w
      ]
    ]

-- The exchange of a rollback and what follows: the workspace of after, and what is returned or raised. A
-- rejected tree that stays when the exchange can not be undone is none of the backups.
unfoldable pub restore :
    Os → PatchResult → String → Files → Workspace → Workspace × Result (PatchResult × Bool)
unfolding exchange
restore os r dir old w =
    let moved = exchange os (disk_of w.files old) in
    elim moved.1 [
      | some text ↦ (record w { files = tree_of moved.0.root }, err (value_error text))
      | none ↦
          let w' : Workspace = record w {
            files = tree_of moved.0.root;
            backups = erase dir w.backups;
          } in
          elim os.scan_fault [
            | some text ↦ (w', err (value_error text))
            | none ↦ (
              record w' {
                snapshot = record w'.snapshot {
                  file_states = scan_file_states os w'.files;
                  pending_rollback = none;
                };
              },
              ok (record r { rollback_dir = none }, true),
            )
          ]
    ]

unfoldable pub rollback : Os → PatchResult → Workspace → Workspace × Result (PatchResult × Bool)
unfolding restore
rollback os r w = elim r.rollback_dir [
  | none ↦ (w, ok (r, false))
  | some dir ↦ elim (lookup dir w.backups) [
    | none ↦ (w, ok (r, false))
    | some old ↦ elim w.snapshot.pending_rollback [
      | none ↦ (w, err (value_error "Patch transaction does not own the pending rollback."))
      | some owner ↦
          if not (owner == dir)
          then (w, err (value_error "Patch transaction does not own the pending rollback."))
          else restore os r dir old w
    ]
  ]
]
