-- ===== src/Reservations.antt =====
-- `WriteReservationManager` of c4harness/integrator/conflicts.py. Each method holds the lock from its
-- first read of the state to its last write, so a method is one step.
pub mod Disjoint
use Prim.Native.Char.{code}
use Prim.Native.String.{◌++◌ as ◌<>◌}
use c4harness.Base.{
  rstrip_slash, lstrip_slash, ℕ, suc, String, Bool, true, false, not, ◌&&◌, ◌||◌, Option, none,
  some, List, [], ◌∷◌, ◌++◌, Dict, lookup, insert, erase, has_key, keys, values, contains, filter,
  map, length, leb, str_le, ◌==◌, string_eq, if◌then◌else◌,
}
use c4harness.Core.Errors.{Result, ok, err, value_error, raise_if, ◌>>=◌, ◌>>◌}
use c4harness.Core.Types.{is_nonempty}
use c4harness.Core.Graph.{join_semicolon}
use c4harness.Paths.{parts, root_of, as_posix, paths_overlap}

pub record ReservationRecord : Type 0 where
  pub node_id : String
  pub path : String
  pub released : Bool

pub record WriteReservationManager : Type 0 where
  pub active : Dict String ReservationRecord
  pub all_records : List ReservationRecord

unfoldable pub new_manager : WriteReservationManager
new_manager = record { active = []; all_records = [] }

-- `path.replace("\\", "/")`
slashes : String → String
slashes String.[] = ""
slashes (String.◌∷◌ c s) =
    let rest = slashes s in
    if leb 92 (code c) && leb (code c) 92 then "/" <> rest else String.◌∷◌ c rest

unfoldable pub canonical_write_path : String → Result String
unfolding slashes lstrip_slash rstrip_slash
canonical_write_path path =
    let normalized = rstrip_slash (lstrip_slash (slashes path)) in
    (do
      raise_if
          (normalized == "" || (not (root_of normalized == "") || contains (parts normalized) ".."))
          (value_error ("Invalid write path: " <> path))
      ok (as_posix normalized))

-- `[_canonical_write_path(path) for path in paths]`
unfoldable pub canonical_paths : List String → Result (List String)
unfolding canonical_write_path
canonical_paths [] = ok []
canonical_paths (p ∷ ps) =
    let rest = canonical_paths ps in canonical_write_path p >>= λ q. rest >>= λ qs. ok (q ∷ qs)

-- `existing.node_id != node_id and _paths_overlap(path, existing_path)`
abbrev pub in_conflict : String → String → String × ReservationRecord → Bool
in_conflict node_id path (existing_path, existing) =
    not (existing.node_id == node_id) && paths_overlap path existing_path

conflict_text : String → String × ReservationRecord → String
conflict_text path (existing_path, existing) =
    path <> ": overlaps " <> existing_path <> " reserved by " <> existing.node_id

-- The list `conflicts` of `reserve`.
unfoldable pub reserve_conflicts :
    Dict String ReservationRecord → String → List String → List String
unfolding conflict_text
reserve_conflicts active node_id [] = []
reserve_conflicts active node_id (path ∷ paths) =
    map (conflict_text path) (filter (in_conflict node_id path) active)
    ++ reserve_conflicts active node_id paths

-- `existing is not None and existing.node_id == node_id`
abbrev pub held_by : String → Option ReservationRecord → Bool
held_by node_id none = false
held_by node_id (some r) = r.node_id == node_id

-- The second loop of `reserve`.
unfoldable pub acquire :
    String
    → List String
    → WriteReservationManager
    → WriteReservationManager × List ReservationRecord
acquire node_id [] m = (m, [])
acquire node_id (path ∷ paths) m =
    let fresh : ReservationRecord = record { node_id = node_id; path = path; released = false } in
    let skipped = acquire node_id paths m in
    let taken =
      acquire node_id paths (record {
        active = insert path fresh m.active;
        all_records = m.all_records ++ fresh ∷ [];
      }) in
    if held_by node_id (lookup path m.active) then skipped else (taken.0, fresh ∷ taken.1)

unfoldable pub reserve :
    WriteReservationManager
    → String
    → List String
    → Result (WriteReservationManager × List ReservationRecord)
unfolding canonical_paths reserve_conflicts join_semicolon acquire
reserve m node_id paths = canonical_paths paths >>= λ normalized.
    raise_if (is_nonempty (reserve_conflicts m.active node_id normalized)) (
      value_error (
        "Write reservation conflict: "
        <> join_semicolon (reserve_conflicts m.active node_id normalized)))
    >>= λ _. ok (acquire node_id normalized m)

-- The part of `release` under the lock.
unfoldable pub release_normalized :
    WriteReservationManager → String → String → WriteReservationManager × Bool
release_normalized m node_id path =
    if held_by node_id (lookup path m.active)
    then (
      record {
        active = erase path m.active;
        all_records =
            m.all_records ++ record { node_id = node_id; path = path; released = true } ∷ [];
      },
      true,
    )
    else (m, false)

unfoldable pub release :
    WriteReservationManager → String → String → Result (WriteReservationManager × Bool)
unfolding canonical_write_path release_normalized
release m node_id path = canonical_write_path path >>= λ p. ok (release_normalized m node_id p)

-- `for path in to_release: self.release(node_id, path)`
unfoldable pub release_paths :
    List String → WriteReservationManager → String → Result WriteReservationManager
unfolding release
release_paths [] m node_id = ok m
release_paths (p ∷ ps) m node_id = release m node_id p >>= λ r. release_paths ps r.0 node_id

unfoldable pub node_paths : WriteReservationManager → String → List String
node_paths m node_id = keys (filter (λ (path, r). r.node_id == node_id) m.active)

unfoldable pub release_node :
    WriteReservationManager → String → Result (WriteReservationManager × ℕ)
unfolding release_paths node_paths
release_node m node_id =
    release_paths (node_paths m node_id) m node_id >>= λ m'. ok (m', length (node_paths m node_id))

-- `sorted(matches, key=lambda item: item.path)[0] if matches else None`
unfoldable pub least_path : List ReservationRecord → Option ReservationRecord
least_path [] = none
least_path (r ∷ rs) = elim (least_path rs) [
  | none ↦ some r
  | some other ↦ some (if str_le r.path other.path then r else other)
]

unfoldable pub is_reserved : WriteReservationManager → String → Result (Option ReservationRecord)
unfolding canonical_write_path least_path
is_reserved m path = canonical_write_path path >>= λ p.
    ok (least_path (values (filter (λ (active_path, r). paths_overlap p active_path) m.active)))
