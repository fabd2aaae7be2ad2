-- ===== src/Integrator/Diffs/Total.antt =====
-- `parse_unified_diff` comes to an end.
use c4harness.Base.{
  subst, ℕ, zero, suc, ◌≤◌, ◌<◌, String, false, Option, none, some, List, [], ◌∷◌, starts_with,
  length, string_eq, ◌≡◌, ◌≢◌, refl, arith, Bool-cases, inl, inr,
}
use c4harness.Core.Errors.{Result, ok, err, recursion_error, Result-cases}
use c4harness.Integrator.Workspace.{Os, Workspace, normalize_repo_relative, under_repo}
use c4harness.Integrator.Diffs.{Texts, header_path}
use c4harness.Integrator.Diffs.Files.{
  read_header, read_file, next_header, after_old_header, read_files, parse_unified_diff, FileHeader,
  label_of,
}
use c4harness.Integrator.Diffs.Fuel.{Ends, Leaves, Leaves-le, >>=-Ends, read_hunks-Ends}

header_path-Ends : (label : String) → Ends (λ _. Unit) (header_path label)
unfolding header_path
header_path-Ends label = ground arith

normalize_repo_relative-Ends :
    (os : Os) (path repo : String) → Ends (λ _. Unit) (normalize_repo_relative os path repo)
unfolding normalize_repo_relative under_repo
normalize_repo_relative-Ends os path repo = ground arith

next_header-Ends :
    (t : Texts) (lines : List String)
    → Ends (λ rest. length rest ≤ length lines) (next_header t lines)
unfolding next_header
next_header-Ends t [] = omega arith
next_header-Ends t (line ∷ lines) = ground (arith, next_header-Ends t lines)

read_header-Ends :
    (os : Os) (t : Texts) (w : Workspace) (old_label new_label : String)
    → Ends (λ _. Unit) (read_header os t w old_label new_label)
unfolding read_header
read_header-Ends os t w old_label new_label =
    at (header_path old_label) (header_path new_label) refl refl
  where
    at :
        (old new : Result (Option String))
        → header_path old_label ≡ old
        → header_path new_label ≡ new
        → Ends (λ _. Unit) (read_header os t w old_label new_label)
    at (err e) new is are = ground (arith, is, header_path-Ends old_label)
    at (ok old) (err e) is are = ground (arith, is, are, header_path-Ends new_label)
    at (ok none) (ok none) is are = ground (arith, is, are)
    at (ok none) (ok (some path)) is are =
        ground (arith, is, are, normalize_repo_relative-Ends os path w.snapshot.root)
    at (ok (some path)) (ok new) is are =
        ground (arith, is, are, normalize_repo_relative-Ends os path w.snapshot.root)

read_file-Ends :
    (t : Texts) (f : FileHeader) (lines : List String)
    → Ends (Leaves (length lines)) (read_file t f lines)
unfolding read_file
read_file-Ends t f lines = ground (
  arith,
  read_hunks-Ends t f.original f.relative (suc (length lines)) lines
      (record { source_cursor = 0; output = []; saw_hunk = false }) (omega arith),
)

after_old_header-Ends :
    (os : Os) (t : Texts) (w : Workspace) (old_line : String) (lines : List String)
    → Ends (Leaves (length lines)) (after_old_header os t w old_line lines)
unfolding after_old_header
after_old_header-Ends os t w old_line [] = λ stuck. cc
after_old_header-Ends os t w old_line (new_line ∷ lines) =
    elim (Bool-cases (starts_with "+++ " new_line)) [
      | inl plus ↦
          rw (after_old_header, plus)
            (>>=-Ends (λ _. Unit) (Leaves (suc (length lines))) _ _
              (read_header-Ends os t w (label_of old_line) (label_of new_line))
              (λ f _.
                Leaves-le (length lines) (suc (length lines)) _ (omega arith)
                  (read_file-Ends t f lines)))
      | inr other ↦ rw (after_old_header, other) (λ stuck. cc)
    ]

read_files-Ends :
    (os : Os) (t : Texts) (w : Workspace) (fuel : ℕ) (lines : List String)
    → length lines < fuel
    → Ends (λ _. Unit) (read_files os t w fuel lines)
unfolding read_files
read_files-Ends os t w zero lines enough = absurd (omega (arith, enough))
read_files-Ends os t w (suc fuel) lines enough = elim (Result-cases (next_header t lines)) [
  | inr (e, raised) ↦ ground (arith, raised, next_header-Ends t lines)
  | inl ([], found) ↦ ground (arith, found)
  | inl (old_line ∷ after, found) ↦ elim (Result-cases (after_old_header os t w old_line after)) [
    | inr (e, raised) ↦ ground (arith, found, raised, after_old_header-Ends os t w old_line after)
    | inl ((h, rest), returned) ↦
        let fewer : length rest ≤ length after =
          subst (Ends (Leaves (length after))) returned
            (after_old_header-Ends os t w old_line after) in
        let left : suc (length after) ≤ length lines =
          subst (Ends (λ rest. length rest ≤ length lines)) found (next_header-Ends t lines) in
        ground (
          arith,
          found,
          returned,
          read_files-Ends os t w fuel rest (omega (arith, fewer, left, enough)),
        )
  ]
]

-- `parse_unified_diff` comes to an end: its fuel, a unit for each line and one more, is enough for the loops
-- over the files and over the hunks of a file.
pub parse_unified_diff_terminates :
    (os : Os) (t : Texts) (patch_text : String) (w : Workspace)
    → parse_unified_diff os t patch_text w ≢ err recursion_error
unfolding parse_unified_diff
parse_unified_diff_terminates os t patch_text w stuck = ground (
  arith,
  stuck,
  read_files-Ends os t w (suc (length (t.splitlines patch_text))) (t.splitlines patch_text)
      (omega arith),
)
