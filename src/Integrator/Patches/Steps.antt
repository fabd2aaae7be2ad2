-- ===== src/Integrator/Patches/Steps.antt =====
-- The first loop of `apply`: what is gathered from the hunks.
use mathlib.Core.List.{append-nil, append_assoc}
use Prim.Native.String.{◌++◌ as ◌<>◌}
use c4harness.Base.{
  sym, subst, contains, inl, inr, ◌∙◌, Bool-cases, String, ◌≡◌, refl, true, false, Option, List, [],
  ◌∷◌, ◌++◌, string_eq, arith,
}
use c4harness.Core.Types.{is_nonempty}
use c4harness.Integrator.Workspace.{Os, IntegrationSnapshot}
use c4harness.Integrator.Patches.{
  gather_all, HunkCheck, PatchHunk, valid, invalid, validate_hunk, Step, Gathered, gather,
}

-- The hunks are valid, one step for each, for paths that are new each time.
abbrev pub IsValidated :
    Os
    → Option (List String)
    → IntegrationSnapshot
    → List String
    → List PatchHunk
    → List Step
    → Type 0
IsValidated os allowed snapshot seen [] [] = Unit
IsValidated os allowed snapshot seen [] (_ ∷ _) = ⊥
IsValidated os allowed snapshot seen (_ ∷ _) [] = ⊥
IsValidated os allowed snapshot seen (h ∷ hunks) (s ∷ steps) =
    (s.hunk ≡ h)
    × (validate_hunk os allowed snapshot h ≡ valid s.relative s.old_state)
    × (contains seen s.relative ≡ false)
    × IsValidated os allowed snapshot (s.relative ∷ seen) hunks steps

-- Nothing has failed so far.
abbrev pub IsClean : Gathered → Type 0
IsClean g = (is_nonempty g.failed ≡ false) × (is_nonempty g.violations ≡ false)

pub append-nonempty {ℓ} : {A : Type ℓ} (xs : List A) (x : A) → is_nonempty (xs ++ x ∷ []) ≡ true
append-nonempty [] x = refl
append-nonempty (y ∷ xs) x = refl

module _ (os : Os) (allowed : Option (List String)) (snapshot : IntegrationSnapshot) where
  -- An error that was gathered stays.
  gather-IsClean :
      (h : PatchHunk) (g : Gathered) → IsClean (gather os allowed snapshot h g) → IsClean g
  unfolding gather
  gather-IsClean h g clean =
      ground (arith, clean, append-nonempty g.failed, append-nonempty g.violations)

  gather_all-IsClean :
      (hunks : List PatchHunk) (g : Gathered)
      → IsClean (gather_all os allowed snapshot hunks g)
      → IsClean g
  unfolding gather_all
  gather_all-IsClean [] g clean = clean
  gather_all-IsClean (h ∷ hunks) g clean =
      gather-IsClean h g (gather_all-IsClean hunks (gather os allowed snapshot h g) clean)

  -- What one hunk adds, if nothing fails.
  gather-step :
      (h : PatchHunk) (g : Gathered)
      → IsClean (gather os allowed snapshot h g)
      → (s : Step) × (s.hunk ≡ h)
        × (validate_hunk os allowed snapshot h ≡ valid s.relative s.old_state)
        × (contains g.seen s.relative ≡ false)
        × ((gather os allowed snapshot h g).seen ≡ s.relative ∷ g.seen)
        × ((gather os allowed snapshot h g).to_apply ≡ g.to_apply ++ s ∷ [])
  unfolding gather
  gather-step h g clean = at (validate_hunk os allowed snapshot h) refl
    where
      at :
          (c : HunkCheck)
          → validate_hunk os allowed snapshot h ≡ c
          → (s : Step) × (s.hunk ≡ h)
            × (validate_hunk os allowed snapshot h ≡ valid s.relative s.old_state)
            × (contains g.seen s.relative ≡ false)
            × ((gather os allowed snapshot h g).seen ≡ s.relative ∷ g.seen)
            × ((gather os allowed snapshot h g).to_apply ≡ g.to_apply ++ s ∷ [])
      at (invalid e) found =
          absurd (ground (arith, clean, append-nonempty g.failed e, append-nonempty g.violations e))
      at (valid relative old) found = elim (Bool-cases (contains g.seen relative)) [
        | inl again ↦ absurd (
            ground
              (arith, clean, append-nonempty g.failed ("Duplicate patch target: " <> relative)))
        | inr new ↦ (
          record { hunk = h; relative = relative; old_state = old },
          refl,
          found,
          new,
          rw (gather, found, new),
          rw (gather, found, new),
        )
      ]

  -- What the loop gathers, if nothing fails.
  pub gather_all-IsValidated :
      (hunks : List PatchHunk) (g : Gathered)
      → IsClean (gather_all os allowed snapshot hunks g)
      → (steps : List Step) × ((gather_all os allowed snapshot hunks g).to_apply
          ≡ g.to_apply ++ steps)
        × IsValidated os allowed snapshot g.seen hunks steps
  unfolding gather_all
  gather_all-IsValidated [] g clean = ([], sym (append-nil g.to_apply), tt)
  gather_all-IsValidated (h ∷ hunks) g clean =
      let g' = gather os allowed snapshot h g in
      let (s, same, checked, new, seen, added) =
        gather-step h g (gather_all-IsClean hunks g' clean) in
      let (steps, total, rest) = gather_all-IsValidated hunks g' clean in
      (
        s ∷ steps,
        total ∙ rw added (append_assoc g.to_apply (s ∷ []) steps),
        (same, checked, new, subst (λ x. IsValidated os allowed snapshot x hunks steps) seen rest),
      )
