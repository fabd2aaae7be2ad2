-- ===== src/Integrator/Workspace.antt =====
-- c4harness/integrator/workspace.py, as far as patches use it: paths under the repository, the states of
-- files, and the snapshot. What the operating system does is the record `Os`.
use Prim.Native.String.{◌++◌ as ◌<>◌}
use c4harness.Base.{
  starts_with, ends_with, utf8_length, ℕ, String, Bool, not, ◌||◌, Option, none, some, List, [],
  ◌∷◌, Dict, any, contains, ◌==◌, string_eq, if◌then◌else◌,
}
use c4harness.Core.Errors.{Result, ok, err, value_error}
use c4harness.Paths.{parts, root_of, as_posix}
use c4harness.Scheduler.Batch.{strip_parts, join_parts}

-- The regular files under a directory, by their relative paths, with the texts that they hold.
abbrev pub Files : Type 0
Files = Dict String String

-- What the code asks the operating system and the standard library.
pub record Os : Type 0 where
  -- `str(Path(path).resolve())`
  pub resolve : String → String
  -- The hex digest of the SHA-256 of a text in UTF-8.
  pub sha256 : String → String
  -- `text.lower()`
  pub lower : String → String
  -- `(root / path).is_dir() and not (root / path).is_symlink()`
  pub is_directory : String → Bool
  -- A symbolic link under the root, if there is one.
  pub symlink : Option String
  -- The name of the sibling directory that keeps the old tree.
  pub backup_name : String
  -- The type and text of the exception that a step of a transaction raises, if it does: making a
  -- temporary directory, copying the tree, the change of one file of the copy; in an exchange of two
  -- trees, moving the one away, the other to its place, and the first back after that has failed; and the
  -- scan of the file states.
  pub temp_fault : Option String
  pub copy_fault : Option String
  pub write_fault : Files → String → Option String
  pub move_out_fault : Option String
  pub move_in_fault : Option String
  pub move_back_fault : Option String
  pub scan_fault : Option String
  -- How many entries of the source are listed before the listing raises an `OSError`, if it does.
  pub listing_fault : Option ℕ

pub record FileState : Type 0 where
  pub path : String
  pub sha256 : String
  pub size : ℕ

-- The state of a file that holds a text.
unfoldable pub state_of : Os → String → String → FileState
unfolding utf8_length
state_of os path text = record { path = path; sha256 = os.sha256 text; size = utf8_length text }

abbrev pub excluded_dir_names : List String
excluded_dir_names =
    ".git" ∷ ".c4harness" ∷ ".cost-router" ∷ "__pycache__" ∷ ".pytest_cache" ∷ ".mypy_cache"
    ∷ ".tox" ∷ ".nox" ∷ ".venv" ∷ "venv" ∷ "env" ∷ "node_modules" ∷ ".eggs" ∷ []

unfoldable pub is_excluded_relative_path : String → Bool
unfolding ends_with
is_excluded_relative_path path =
    any (λ part. contains excluded_dir_names part || ends_with ".egg-info" part) (parts path)

-- The part of `normalize_repo_relative` that both of its branches end with.
unfoldable pub under_repo : Os → String → String → String → Result String
under_repo os repo resolved message =
    let root = os.resolve repo in
    if resolved == root
    then ok "."
    else if not (starts_with (root <> "/") resolved)
    then err (value_error message)
    else elim (strip_parts (parts root) (parts resolved)) [
      | none ↦ err (value_error message)
      | some rest ↦ ok (join_parts rest)
    ]

-- `normalize_repo_relative(path, repo).as_posix()`
unfoldable pub normalize_repo_relative : Os → String → String → Result String
unfolding under_repo
normalize_repo_relative os path repo =
    if not (root_of path == "")
    then under_repo os repo (os.resolve path) ("Absolute path escapes repository: " <> path)
    else if contains (parts path) ".."
    then err (value_error ("Path contains traversal: " <> path))
    else elim (parts path) [
      | [] ↦ ok "."
      | _ ∷ _ ↦
          under_repo os repo (os.resolve (repo <> "/" <> as_posix path))
            ("Path escapes repository after resolution: " <> path)
    ]

-- Without `graph_id` and `empty_dirs`, and the baseline of the source, which patches do not read.
pub record IntegrationSnapshot : Type 0 where
  pub root : String
  pub file_states : Dict String FileState
  pub pending_rollback : Option String

-- A snapshot with the tree at its root, and the sibling trees that wait for a commit or a rollback.
pub record Workspace : Type 0 where
  pub snapshot : IntegrationSnapshot
  pub files : Files
  pub backups : Dict String Files

-- `_scan_file_states` of c4harness/integrator/patches.py
unfoldable pub scan_file_states : Os → Files → Dict String FileState
unfolding state_of is_excluded_relative_path
scan_file_states os [] = []
scan_file_states os ((path, text) ∷ files) =
    let rest = scan_file_states os files in
    if is_excluded_relative_path path then rest else (path, state_of os path text) ∷ rest
