-- ===== src/Integrator/Patches/Atomic.antt =====
-- `PatchTransaction.apply` as a whole: it raises nothing, and it is all or nothing.
use Prim.Native.String.{◌++◌ as ◌<>◌}
use c4harness.Base.{
  ap, ◌∙◌, insert, erase, ==_refl, ◌||◌, Bool, Bool-cases, Option-cases, inl, inr, ◌⊎◌, String, ◌≡◌,
  refl, true, false, Option, none, some, List, [], ◌∷◌, string_eq, if◌then◌else◌, arith,
}
use c4harness.Core.Errors.{Result-cases, value_error, ok, err}
use c4harness.Core.Types.{is_nonempty}
use c4harness.Integrator.Workspace.{Os, Workspace}
use c4harness.Integrator.Patches.{
  Files, PatchHunk, PatchResult, success, failure, gather_all, Step, Gathered, error_text,
}
use c4harness.Integrator.Patches.Transactions.{
  after_exchange, move_out, move_back, Disk, disk_of, reclaim, failed_transaction, settled, finish,
  exchange, Transaction, apply_steps, install, run_transaction, commit, apply,
}
use c4harness.Integrator.Patches.Steps.{IsClean}

abbrev pub begin : Workspace → Transaction
begin w = record { files = w.files; states = w.snapshot.file_states; applied = [] }

abbrev pub gathered : Os → Option (List String) → List PatchHunk → Workspace → Gathered
gathered os allowed hunks w =
    gather_all os allowed w.snapshot hunks
      (record { to_apply = []; failed = []; violations = []; seen = [] })

module _ (os : Os) where
  -- The workspace was left as it was, and the result says that the patch failed.
  abbrev pub IsRefused : Workspace → Workspace → PatchResult → Type 0
  IsRefused w w' r = (success r ≡ false) × (w' ≡ w)

  -- The tree is that of the transaction, which waits if it is to be retained.
  abbrev pub IsInstalled : Bool → List Step → Workspace → Workspace → PatchResult → Type 0
  IsInstalled retain_rollback steps w w' r =
      (t : Transaction) × (apply_steps os steps (begin w) ≡ ok t)
      × (r.applied ≡ t.applied)
      × (is_nonempty r.failed ≡ false)
      × (is_nonempty r.violations ≡ false)
      × (w'.files ≡ t.files)
      × (w'.snapshot.file_states ≡ t.states)
      × (w'.snapshot.root ≡ w.snapshot.root)
      × (w'.snapshot.pending_rollback ≡ (if retain_rollback then some os.backup_name else none))
      × (r.rollback_dir ≡ (if retain_rollback then some os.backup_name else none))
      × (w'.backups ≡ (
          if retain_rollback
          then insert os.backup_name w.files w.backups
          else erase os.backup_name (insert os.backup_name w.files w.backups)))

  run_transaction-steps :
      (steps : List Step) (w : Workspace) {t : Transaction}
      → run_transaction os steps w ≡ ok t
      → apply_steps os steps (begin w) ≡ ok t
  unfolding run_transaction
  run_transaction-steps steps w done = ground arith

  -- An exchange is done, or what it leaves is the tree of before once it is reclaimed.
  exchange-outcome :
      (old new : Files)
      → (exchange os (disk_of old new)
          ≡ (record { root = some new; incoming = none; outgoing = some old }, none))
        ⊎ ((text : String) × (d : Disk) × (exchange os (disk_of old new) ≡ (d, some text))
            × (reclaim d ≡ record { root = some old; incoming = none; outgoing = none }))
  unfolding exchange reclaim
  exchange-outcome old new = elim (Option-cases os.move_out_fault) [
    | inr (text, out) ↦ inr (text, disk_of old new, rw (exchange, out) refl, refl)
    | inl moved ↦ elim (Option-cases os.move_in_fault) [
      | inl fine ↦ inl (rw (exchange, moved, fine) refl)
      | inr (text, failed) ↦ elim (Option-cases os.move_back_fault) [
        | inl back ↦ inr (
          text,
          move_back (move_out (disk_of old new)),
          rw (exchange, moved, failed, back) refl,
          refl,
        )
        | inr (other, lost) ↦
            inr (other, move_out (disk_of old new), rw (exchange, moved, failed, lost) refl, refl)
      ]
    ]
  ]

  -- The workspace where the trees have been and the old one is the backup.
  abbrev moved_in : Transaction → Workspace → Workspace
  moved_in t w =
      settled os (record { root = some t.files; incoming = none; outgoing = some w.files }) w

  finish-outcome :
      (retain_rollback : Bool) (steps : List Step) (w : Workspace) (t : Transaction)
      → apply_steps os steps (begin w) ≡ ok t
      → (w' : Workspace) × (r : PatchResult) × (finish os retain_rollback t (moved_in t w)
          ≡ ok (w', r))
        × IsInstalled retain_rollback steps w w' r
  unfolding finish settled
  finish-outcome true steps w t ran =
      (_, _, refl, (t, ran, refl, refl, refl, refl, refl, refl, refl, refl, refl))
  finish-outcome false steps w t ran = (
    record (moved_in t w) {
      snapshot = record w.snapshot { file_states = t.states; pending_rollback = none };
      backups = erase os.backup_name (moved_in t w).backups;
    },
    record { applied = t.applied; failed = []; violations = []; rollback_dir = none },
    rw (finish, commit, ==_refl os.backup_name) refl,
    (t, ran, refl, refl, refl, refl, refl, refl, refl, refl, refl),
  )

  install-done :
      (retain_rollback : Bool) (steps : List Step) (w : Workspace) {t : Transaction}
      → run_transaction os steps w ≡ ok t
      → install os retain_rollback steps w
        ≡ after_exchange os retain_rollback t w (exchange os (disk_of w.files t.files))
  unfolding install
  install-done retain_rollback steps w done = rw (install, done) refl

  install-outcome :
      (retain_rollback : Bool) (steps : List Step) (w : Workspace)
      → (w' : Workspace) × (r : PatchResult) × (install os retain_rollback steps w ≡ ok (w', r))
        × (IsRefused w w' r ⊎ IsInstalled retain_rollback steps w w' r)
  unfolding install success
  install-outcome retain_rollback steps w = elim (Result-cases (run_transaction os steps w)) [
    | inr (e, raised) ↦ (
      w,
      failed_transaction (error_text e),
      rw (install, raised, reclaim, settled) refl,
      inl (unfold success in refl, refl),
    )
    | inl (t, done) ↦ elim (exchange-outcome w.files t.files) [
      | inr (text, d, moved, left) ↦ (
        w,
        failed_transaction text,
        install-done retain_rollback steps w done
            ∙ ap (after_exchange os retain_rollback t w) moved
            ∙ rw (after_exchange, left, settled) refl,
        inl (unfold success in refl, refl),
      )
      | inl moved ↦
          let (w', r, returns, installed) =
            finish-outcome retain_rollback steps w t (run_transaction-steps steps w done) in
          (
            w',
            r,
            install-done retain_rollback steps w done
                ∙ ap (after_exchange os retain_rollback t w) moved
                ∙ (unfold after_exchange in returns),
            inr installed,
          )
    ]
  ]

  module _ (allowed : Option (List String)) (retain_rollback : Bool) (hunks : List PatchHunk) where
    -- What every run of `apply` comes to, if it raises nothing.
    abbrev pub IsOutcome : Workspace → Type 0
    IsOutcome w =
        (w' : Workspace) × (r : PatchResult) × (apply os allowed hunks retain_rollback w
          ≡ ok (w', r))
        × (IsRefused w w' r
            ⊎ ((w.snapshot.pending_rollback ≡ none)
                × IsClean (gathered os allowed hunks w)
                × (is_nonempty (gathered os allowed hunks w).to_apply ≡ true)
                × IsInstalled retain_rollback (gathered os allowed hunks w).to_apply w w' r))

    abbrev pub Raises : Workspace → Type 0
    Raises w =
        (text : String) × (os.temp_fault ≡ some text)
        × (apply os allowed hunks retain_rollback w ≡ err (value_error text))

    pub apply-IsOutcome : (w : Workspace) → Raises w ⊎ IsOutcome w
    unfolding apply success
    apply-IsOutcome w =
        let g = gathered os allowed hunks w in
        elim (Option-cases w.snapshot.pending_rollback) [
          | inr (owner, pending) ↦ inr (
            w,
            failure ("A previous patch transaction is still awaiting commit or rollback." ∷ []) [],
            ground arith,
            inl (unfold success in refl, refl),
          )
          | inl idle ↦ elim (Option-cases os.symlink) [
            | inr (link, linked) ↦ inr (
              w,
              failure (("Integration workspace invariant violated by symlink: " <> link) ∷ []) [],
              ground arith,
              inl (unfold success in refl, refl),
            )
            | inl unlinked ↦ elim (Bool-cases (is_nonempty g.failed || is_nonempty g.violations)) [
              | inl bad ↦ inr (
                w,
                failure g.failed g.violations,
                ground arith,
                inl (unfold success in refl, refl),
              )
              | inr clean ↦ elim (Bool-cases (is_nonempty g.to_apply)) [
                | inr empty ↦ inr (
                  w,
                  failure ("Patch contains no file changes." ∷ []) [],
                  ground arith,
                  inl (unfold success in refl, refl),
                )
                | inl filled ↦ elim (Option-cases os.temp_fault) [
                  | inr (text, fault) ↦ inl (text, fault, ground arith)
                  | inl made ↦
                      let (w', r, returns, outcome) =
                        install-outcome retain_rollback g.to_apply w in
                      inr (
                        w',
                        r,
                        ground (arith, returns),
                        elim outcome [
                          | inl refused ↦ inl refused
                          | inr installed ↦
                              inr (idle, (ground arith, ground arith), filled, installed)
                        ],
                      )
                ]
              ]
            ]
          ]
        ]

    pub apply-returns :
        (w : Workspace) {result : Workspace × PatchResult}
        → apply os allowed hunks retain_rollback w ≡ ok result
        → IsOutcome w
    apply-returns w returns = elim (apply-IsOutcome w) [
      | inl (text, _, raises) ↦ cc
      | inr outcome ↦ outcome
    ]
