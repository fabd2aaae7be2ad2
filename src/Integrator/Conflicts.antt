-- ===== src/Integrator/Conflicts.antt =====
-- `detect_conflicts` of c4harness/integrator/conflicts.py: whether the source has changed since the
-- snapshot was taken.
pub mod Unchanged
use Prim.Native.String.{◌++◌ as ◌<>◌}
use c4harness.Base.{
  String, Bool, true, false, not, ◌&&◌, ◌||◌, Option, none, some, List, [], ◌∷◌, ◌++◌, Dict, any,
  contains, lookup, has_key, starts_with, str_le, ◌==◌, string_eq, if◌then◌else◌,
}
use c4harness.Core.Errors.{Result, ok, err, ◌>>=◌}
use c4harness.Paths.{paths_overlap, take}
use c4harness.Reservations.{ReservationRecord, WriteReservationManager, canonical_paths}
use c4harness.Integrator.Workspace.{Os, FileState, is_excluded_relative_path}

pub data ConflictKind : Type 0 where
  file_modified file_created file_deleted write_conflict : ConflictKind

pub record Conflict : Type 0 where
  pub path : String
  pub kind : ConflictKind
  pub baseline_sha256 : Option String
  pub source_sha256 : Option String
  pub detail : String

-- What the source has at a path: a file with its text, a file that cannot be read with the text of the
-- exception, a directory, something else, or a symbolic link and whether what it names exists.
pub data Entry : Type 0 where
  regular unreadable : String → Entry
  directory special : Entry
  symbolic : Bool → Entry

abbrev modified : String → FileState → Option String → String → List Conflict
modified path base sha detail =
    record {
      path = path;
      kind = file_modified;
      baseline_sha256 = some base.sha256;
      source_sha256 = sha;
      detail = detail;
    }
    ∷ []

abbrev created : String → Option String → String → List Conflict
created path sha detail =
    record {
      path = path;
      kind = file_created;
      baseline_sha256 = none;
      source_sha256 = sha;
      detail = detail;
    }
    ∷ []

abbrev deleted : String → FileState → List Conflict
deleted path base =
    record {
      path = path;
      kind = file_deleted;
      baseline_sha256 = some base.sha256;
      source_sha256 = none;
      detail = "File was deleted from source since snapshot";
    }
    ∷ []

-- What a round of the first loop adds for a relevant path.
unfoldable pub baseline_conflict : Os → String → FileState → Option Entry → List Conflict
baseline_conflict os path base none = deleted path base
baseline_conflict os path base (some (symbolic false)) = deleted path base
baseline_conflict os path base (some (symbolic true)) =
    modified path base none "Baseline file became a symlink in source"
baseline_conflict os path base (some directory) =
    modified path base none "Baseline file is no longer a regular source file"
baseline_conflict os path base (some special) =
    modified path base none "Baseline file is no longer a regular source file"
baseline_conflict os path base (some (unreadable text)) =
    modified path base none ("Baseline file cannot be read from source: " <> text)
baseline_conflict os path base (some (regular text)) =
    if os.sha256 text == base.sha256
    then []
    else modified path base (some (os.sha256 text)) "File was modified in source since snapshot"

-- `relevant`
unfoldable pub relevant : Option (List String) → String → Bool
relevant none path = true
relevant (some selected) path = any (paths_overlap path) selected

-- The first loop.
unfoldable pub baseline_conflicts :
    Os → Dict String Entry → Option (List String) → Dict String FileState → List Conflict
unfolding baseline_conflict relevant
baseline_conflicts os source selected [] = []
baseline_conflicts os source selected ((path, base) ∷ baseline) =
    let rest = baseline_conflicts os source selected baseline in
    if not (relevant selected path)
    then rest
    else baseline_conflict os path base (lookup path source) ++ rest

-- What a round of the second loop adds for a relevant path that is not in the baseline.
unfoldable pub new_conflict : Os → String → Entry → List Conflict
new_conflict os path (symbolic _) =
    created path none "New symlink appeared in source since snapshot"
new_conflict os path special =
    created path none "New non-regular entry appeared in source since snapshot"
new_conflict os path directory = []
new_conflict os path (unreadable _) = []
new_conflict os path (regular text) =
    created path (some (os.sha256 text)) "New file appeared in source since snapshot"

-- The second loop.
unfoldable pub new_conflicts :
    Os → Dict String FileState → Option (List String) → Dict String Entry → List Conflict
unfolding new_conflict relevant is_excluded_relative_path
new_conflicts os baseline selected [] = []
new_conflicts os baseline selected ((path, entry) ∷ source) =
    let rest = new_conflicts os baseline selected source in
    if is_excluded_relative_path path || (has_key path baseline || not (relevant selected path))
    then rest
    else new_conflict os path entry ++ rest

-- `path_a == path_b or path_a.startswith(path_b + "/") or path_b.startswith(path_a + "/")`
abbrev pub nested : String → String → Bool
nested path_a path_b =
    path_a == path_b || (starts_with (path_b <> "/") path_a || starts_with (path_a <> "/") path_b)

-- The list `conflicts` and the set `reported` of the third loop.
pub record Overlaps : Type 0 where
  pub conflicts : List Conflict
  pub reported : List (String × String)

-- `tuple(sorted([a, b]))`
abbrev pub sorted_pair : String → String → String × String
sorted_pair a b = if str_le a b then (a, b) else (b, a)

-- `pair in reported`
unfoldable pub has_pair : List (String × String) → String × String → Bool
has_pair [] pair = false
has_pair (p ∷ pairs) pair =
    let rest = has_pair pairs pair in (p.0 == pair.0 && p.1 == pair.1) || rest

-- The inner loop, for one item and those after it.
unfoldable pub overlaps_with :
    String × ReservationRecord → Dict String ReservationRecord → Overlaps → Overlaps
unfolding has_pair
overlaps_with a [] found = found
overlaps_with a (b ∷ items) found =
    let rest = overlaps_with a items in
    let pair = sorted_pair a.1.node_id b.1.node_id in
    if a.1.node_id == b.1.node_id || (not (nested a.0 b.0) || has_pair found.reported pair)
    then rest found
    else rest (record {
      conflicts =
          found.conflicts
          ++ record {
            path = a.0;
            kind = write_conflict;
            baseline_sha256 = none;
            source_sha256 = none;
            detail =
                "Overlapping reservation: " <> a.1.node_id <> " (" <> a.0 <> ") and " <> b.1.node_id
                <> " (" <> b.0 <> ")";
          }
            ∷ [];
      reported = pair ∷ found.reported;
    })

-- The third loop.
unfoldable pub overlaps : Dict String ReservationRecord → Overlaps → Overlaps
unfolding overlaps_with
overlaps [] found = found
overlaps (item ∷ items) found = overlaps items (overlaps_with item items found)

-- `{_canonical_write_path(path) for path in paths} if paths else None`
unfoldable pub selected_paths : Option (List String) → Result (Option (List String))
selected_paths none = ok none
selected_paths (some []) = ok none
selected_paths (some (path ∷ paths)) =
    canonical_paths (path ∷ paths) >>= λ selected. ok (some selected)

-- The entries that the second loop sees: an `OSError` of the listing ends it, and is not reported.
unfoldable pub listed : Os → Dict String Entry → Dict String Entry
listed os source = elim os.listing_fault [ none ↦ source | some n ↦ take n source ]

unfoldable pub detect_conflicts :
    Os
    → Dict String Entry
    → Dict String FileState
    → Option WriteReservationManager
    → Option (List String)
    → Result (List Conflict)
unfolding selected_paths baseline_conflicts new_conflicts overlaps listed
detect_conflicts os source baseline manager paths = selected_paths paths >>= λ selected. ok (
    baseline_conflicts os source selected baseline
    ++ (new_conflicts os baseline selected (listed os source) ++ elim manager [
      | none ↦ []
      | some m ↦ (overlaps m.active (record { conflicts = []; reported = [] })).conflicts
    ]))
