-- ===== src/Integrator/Patches/Rollback.antt =====
-- What commits and rollbacks undo, and what they keep.
use c4harness.Base.{
  has_key, erase-insert, lookup-insert, ==_refl, String, ◌≡◌, true, false, Option, none, List,
  string_eq, arith,
}
use c4harness.Core.Errors.{ok}
use c4harness.Integrator.Workspace.{Os, Workspace, scan_file_states}
use c4harness.Integrator.Patches.{PatchHunk, PatchResult, success}
use c4harness.Integrator.Patches.Transactions.{apply, rollback}
use c4harness.Integrator.Patches.Correct.{apply-IsRun}

module _ (os later : Os) (allowed : Option (List String)) (hunks : List PatchHunk)
    (w : Workspace) where
  -- A rollback after an applied patch that was retained, where neither the exchange of the trees nor
  -- the scan fails and the name of the backup was new, gives the tree and the backups of before, with the states of a
  -- scan of the tree, and no transaction is pending.
  pub rollback-apply :
      {w' : Workspace} {r : PatchResult}
      → later.move_out_fault ≡ none
      → later.move_in_fault ≡ none
      → later.scan_fault ≡ none
      → has_key os.backup_name w.backups ≡ false
      → apply os allowed hunks true w ≡ ok (w', r)
      → success r ≡ true
      → rollback later r w' ≡ (
        record w {
          snapshot = record w.snapshot {
            file_states = scan_file_states later w.files;
            pending_rollback = none;
          };
        },
        ok (record r { rollback_dir = none }, true),
      )
  unfolding rollback
  rollback-apply {w' = w'} {r = r} out in_place scans new returns succeeds =
      let (idle, (steps, _, installed)) = apply-IsRun os allowed hunks true w returns succeeds in
      let (_, _, _, _, _, _, _, root, pending, dir, backups) = installed in
      let found = lookup-insert os.backup_name os.backup_name w.files w.backups in
      ground (
        arith,
        out,
        in_place,
        scans,
        new,
        found,
        root,
        pending,
        dir,
        backups,
        ==_refl os.backup_name,
        erase-insert os.backup_name w.files w.backups new,
      )
