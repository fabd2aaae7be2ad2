-- ===== src/Scheduler/Batch.antt =====
-- `select_parallel_batch` of c4harness/delegator/scheduler.py. `resolve` is `Path.resolve`, which asks
-- the file system, and is a parameter.
pub mod Greedy
use Prim.Native.String.{◌++◌ as ◌<>◌}
use c4harness.Base.{
  ℕ, suc, zero, String, Bool, true, false, not, ◌&&◌, Option, none, some, List, [], ◌∷◌, ◌++◌, any,
  map, length, leb, ltb, ◌==◌, string_eq, if◌then◌else◌,
}
use c4harness.Core.Errors.{Result, ok, err, value_error, raise_if, ◌>>=◌, ◌>>◌}
use c4harness.Core.Types.{TaskNodeContract}
use c4harness.Paths.{parts, root_of, as_posix, paths_overlap}

-- `path.relative_to(base)` on parts: what follows `base`, if it begins the path
unfoldable pub strip_parts : List String → List String → Option (List String)
strip_parts [] ys = some ys
strip_parts (x ∷ xs) [] = none
strip_parts (x ∷ xs) (y ∷ ys) = let rest = strip_parts xs ys in if x == y then rest else none

unfoldable pub join_parts : List String → String
join_parts [] = "."
join_parts (x ∷ []) = x
join_parts (x ∷ xs) = x <> "/" <> join_parts xs

module _ (resolve : String → String) where
  -- One round of the loop of `_node_write_path_strings`.
  unfoldable pub write_path_string : Option String → String → String
  unfolding strip_parts join_parts
  write_path_string none path = as_posix path
  write_path_string (some repo) path =
      if root_of path == ""
      then as_posix path
      else elim (strip_parts (parts (resolve repo)) (parts (resolve path))) [
        | none ↦ as_posix path
        | some rest ↦ as_posix (join_parts rest)
      ]

  unfoldable pub node_write_path_strings : Option String → TaskNodeContract → List String
  unfolding write_path_string
  node_write_path_strings repo node = map (write_path_string repo) node.write_paths

  unfoldable pub nodes_overlap : Option String → TaskNodeContract → TaskNodeContract → Bool
  unfolding node_write_path_strings
  nodes_overlap repo a b =
      any (λ ap. any (λ bp. paths_overlap ap bp) (node_write_path_strings repo b))
        (node_write_path_strings repo a)

  -- `for node in ready`, where `batch` holds what was taken so far
  unfoldable pub select_loop :
      Option String → ℕ → List TaskNodeContract → List TaskNodeContract → List TaskNodeContract
  select_loop repo max_parallel [] batch = batch
  select_loop repo max_parallel (node ∷ ready) batch =
      let next =
        select_loop repo max_parallel ready
          (if any (nodes_overlap repo node) batch then batch else batch ++ node ∷ []) in
      if leb max_parallel (length batch) then batch else next

  unfoldable pub select_parallel_batch :
      List TaskNodeContract → ℕ → Option String → Result (List TaskNodeContract)
  unfolding select_loop
  select_parallel_batch ready max_parallel repo = do
    raise_if (ltb max_parallel 1) (value_error "max_parallel must be at least 1")
    ok (select_loop repo max_parallel ready [])
