-- ===== src/Integrator/Sessions/Rounds.antt =====
-- A proposal, then a commit or a rollback: what they do to the workspace and to the lock.
use c4harness.Base.{
  lookup-insert, erase-insert, has_key, insert, erase, if◌then◌else◌, ==_refl, ◌-◌, suc, subst,
  String, true, false, none, some, List, Dict, string_eq, ◌≡◌, refl, ◌⊎◌, inl, inr, arith,
}
use c4harness.Core.Errors.{Error, Result, ok, err, Result-cases}
use c4harness.Integrator.Workspace.{scan_file_states, Os, Workspace}
use c4harness.Integrator.Patches.{PatchResult}
use c4harness.Integrator.Patches.Transactions.{apply}
use c4harness.Integrator.Patches.Transactions as Patches
use c4harness.Integrator.Diffs.{Texts}
use c4harness.Integrator.Conflicts.{Entry}
use c4harness.Integrator.Sessions.{
  release_attempt_lock, apply_proposal, IntegrationAttempt, accepted, Session, propose, commit,
  rollback,
}
use c4harness.Integrator.Sessions.Attempts.{IsProposed, IsKept, propose-IsProposed}

patch_committed :
    (r : PatchResult) (w : Workspace) (dir : String)
    → r.rollback_dir ≡ some dir
    → w.snapshot.pending_rollback ≡ some dir
    → Patches.commit r w
      ≡ ok (
        record w {
          snapshot = record w.snapshot { pending_rollback = none };
          backups = erase dir w.backups;
        },
        record r { rollback_dir = none },
      )
unfolding Patches.commit
patch_committed r w dir owns pending = ground (arith, owns, pending, ==_refl dir)

patch_rolled_back :
    (later : Os) (r : PatchResult) (before w : Workspace) (dir : String)
    → later.move_out_fault ≡ none
    → later.move_in_fault ≡ none
    → later.scan_fault ≡ none
    → has_key dir before.backups ≡ false
    → r.rollback_dir ≡ some dir
    → w.snapshot.pending_rollback ≡ some dir
    → w.snapshot.root ≡ before.snapshot.root
    → w.backups ≡ insert dir before.files before.backups
    → Patches.rollback later r w ≡ (
      record before {
        snapshot = record before.snapshot {
          file_states = scan_file_states later before.files;
          pending_rollback = none;
        };
      },
      ok (record r { rollback_dir = none }, true),
    )
unfolding Patches.rollback
patch_rolled_back later r before w dir out in_place scans new owns pending root backups = ground (
  arith,
  out,
  in_place,
  scans,
  owns,
  pending,
  root,
  backups,
  ==_refl dir,
  lookup-insert dir dir before.files before.backups,
  erase-insert dir before.files before.backups new,
)

module _ (os : Os) (t : Texts) where
  module _ (source : Dict String Entry) (patch : Result String) (write_paths : List String)
      (s : Session) where
    -- A proposal that raises leaves the session as it was. Otherwise the attempt is not accepted, holds no
    -- lock, and leaves the session as it was; or it is accepted, no transaction was pending, one is pending
    -- now, and the attempt holds the lock once more than it was held.
    pub apply_proposal_correct :
        (s' : Session) × (outcome : Result IntegrationAttempt) × (apply_proposal os t source patch
            write_paths s
          ≡ (s', outcome))
        × (((e : Error) × (outcome ≡ err e) × (s' ≡ s))
            ⊎ ((a : IntegrationAttempt) × (outcome ≡ ok a)
                × (((accepted a ≡ false) × (a.lock_held ≡ false) × (s' ≡ s))
                    ⊎ ((accepted a ≡ true)
                        × (a.lock_held ≡ true)
                        × (s'.lock ≡ suc s.lock)
                        × (s.workspace.snapshot.pending_rollback ≡ none)
                        × (s'.workspace.snapshot.pending_rollback ≡ some os.backup_name)))))
    unfolding apply_proposal
    apply_proposal_correct = elim (Result-cases (propose os t source patch write_paths s)) [
      | inr (e, raised) ↦ (s, err e, rw (apply_proposal, raised) refl, inl (e, refl, refl))
      | inl ((w, a), returned) ↦ (
        record s { workspace = w; lock = if a.lock_held then suc s.lock else s.lock },
        ok a,
        rw (apply_proposal, returned) refl,
        inr (
          a,
          refl,
          elim (subst (IsProposed os t s.workspace) returned
              (propose-IsProposed os t source patch write_paths s)) [
                | inl (refused, free, same) ↦ inl (refused, free, rw (free, same) refl)
                | inr (fine, held, (r, _, _, idle, pending, _, _, _)) ↦
                    inr (fine, held, rw held refl, idle, pending)
              ],
        ),
      )
    ]

    -- What an accepted attempt keeps.
    abbrev Keeps : Session × Result IntegrationAttempt → Type 0
    Keeps (s', err _) = Unit
    Keeps (s', ok a) =
        accepted a ≡ true
        → IsKept os t s.workspace s'.workspace a
          × (s' ≡ record s { workspace = s'.workspace; lock = suc s.lock })

    apply_proposal-Keeps : Keeps (apply_proposal os t source patch write_paths s)
    unfolding apply_proposal
    apply_proposal-Keeps = elim (Result-cases (propose os t source patch write_paths s)) [
      | inr (e, raised) ↦ rw (apply_proposal, raised) tt
      | inl ((w, a), returned) ↦
          rw (apply_proposal, returned)
            (λ fine.
              elim (subst (IsProposed os t s.workspace) returned
                (propose-IsProposed os t source patch write_paths s)) [
                  | inl (refused, _, _) ↦ absurd (ground (arith, refused, fine))
                  | inr (accepts, held, more) ↦ ((accepts, held, more), rw held refl)
                ])
    ]

    module _ {s' : Session} {a : IntegrationAttempt}
        (returns : apply_proposal os t source patch write_paths s ≡ (s', ok a))
        (fine : accepted a ≡ true) where
      -- A commit of an accepted attempt raises nothing; it keeps the tree and its states, ends the
      -- transaction, and leaves the lock as it was before the proposal.
      pub commit-apply_proposal :
          (s'' : Session) × (a' : IntegrationAttempt) × (commit a s' ≡ (s'', a', ok tt))
          × (s''.lock ≡ s.lock)
          × (a'.lock_held ≡ false)
          × (s''.workspace.files ≡ s'.workspace.files)
          × (s''.workspace.snapshot.file_states ≡ s'.workspace.snapshot.file_states)
          × (s''.workspace.snapshot.pending_rollback ≡ none)
      unfolding commit release_attempt_lock
      commit-apply_proposal =
          let (kept, same) = subst Keeps returns apply_proposal-Keeps fine in
          let (_, held, (r, is, dir, idle, pending, root, backups, _)) = kept in
          let w : Workspace = record s'.workspace {
            snapshot = record s'.workspace.snapshot { pending_rollback = none };
            backups = erase os.backup_name s'.workspace.backups;
          } in
          let done : Patches.commit r s'.workspace ≡ ok (w, record r { rollback_dir = none }) =
            patch_committed r s'.workspace os.backup_name dir pending in
          (
            record s' { workspace = w; lock = s'.lock - 1 },
            record a { patch_result = some (record r { rollback_dir = none }); lock_held = false },
            ground (arith, is, held, done),
            ground (arith, same),
            refl,
            refl,
            refl,
            refl,
          )

      -- A rollback of an accepted attempt, where neither the exchange of the trees nor the scan fails and
      -- the name of the backup was new, raises nothing and gives the session of before the proposal, with the states of
      -- a scan of its tree.
      pub rollback-apply_proposal :
          (later : Os)
          → later.move_out_fault ≡ none
          → later.move_in_fault ≡ none
          → later.scan_fault ≡ none
          → has_key os.backup_name s.workspace.backups ≡ false
          → (a' : IntegrationAttempt) × (rollback later a s' ≡ (
            record s {
              workspace = record s.workspace {
                snapshot = record s.workspace.snapshot {
                  file_states = scan_file_states later s.workspace.files;
                  pending_rollback = none;
                };
              };
            },
            a',
            ok true,
          ))
            × (a'.lock_held ≡ false)
      unfolding rollback release_attempt_lock
      rollback-apply_proposal later out in_place scans new =
          let (kept, same) = subst Keeps returns apply_proposal-Keeps fine in
          let (_, held, (r, is, dir, idle, pending, root, backups, _)) = kept in
          let done =
            patch_rolled_back later r s.workspace s'.workspace os.backup_name out in_place scans new
              dir pending root backups in
          (
            record a { patch_result = some (record r { rollback_dir = none }); lock_held = false },
            ground (arith, is, held, done, same),
            refl,
          )
