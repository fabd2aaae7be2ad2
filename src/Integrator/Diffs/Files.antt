-- ===== src/Integrator/Diffs/Files.antt =====
-- The loop of `parse_unified_diff` over the files of a patch.
use Prim.Native.String.{◌++◌ as ◌<>◌}
use c4harness.Base.{
  text_drop, rstrip_newline, concat, ℕ, zero, suc, String, Bool, true, false, not, ◌&&◌, ◌||◌,
  Option, none, some, List, [], ◌∷◌, ◌++◌, lookup, starts_with, has_text, length, ◌==◌, string_eq,
  if◌then◌else◌,
}
use c4harness.Core.Errors.{Result, ok, err, value_error, recursion_error, raise_if, ◌>>=◌, ◌>>◌}
use c4harness.Core.Types.{is_nonempty}
use c4harness.Integrator.Workspace.{Os, Workspace, normalize_repo_relative}
use c4harness.Integrator.Patches.{PatchHunk, ChangeKind, create, modify, delete}
use c4harness.Integrator.Diffs.{Texts, read_hunks, header_path, drop}

-- What the two headers of a file say: its path, the lines of before, the kind, and the hash that is
-- expected.
pub record FileHeader : Type 0 where
  pub relative : String
  pub original : List String
  pub kind : ChangeKind
  pub expected : Option String

-- From the labels to `expected`.
unfoldable pub read_header : Os → Texts → Workspace → String → String → Result FileHeader
unfolding header_path
read_header os t w old_label new_label = header_path old_label >>= λ old_path.
    header_path new_label >>= λ new_path. elim old_path [
      | none ↦ elim new_path [
        | none ↦ err (value_error "both patch paths are /dev/null")
        | some relative ↦
            (normalize_repo_relative os relative w.snapshot.root >>= λ _.
            ok (record { relative = relative; original = []; kind = create; expected = none }))
      ]
      | some relative ↦
          if elim new_path [ none ↦ false | some other ↦ not (other == relative) ]
          then err (value_error "renames are not supported")
          else (normalize_repo_relative os relative w.snapshot.root >>= λ _.
              elim (lookup relative w.files) [
                | none ↦ err (value_error ("patch source does not exist: " <> relative))
                | some text ↦ elim (lookup relative w.snapshot.file_states) [
                  | none ↦
                      err (value_error ("patch source is not in workspace state: " <> relative))
                  | some state ↦ ok (record {
                    relative = relative;
                    original = t.splitlines (t.read_text text);
                    kind = elim new_path [ none ↦ delete | some _ ↦ modify ];
                    expected = some state.sha256;
                  })
                ]
              ])
    ]

-- `kind not in {ChangeKind.CREATE, ChangeKind.DELETE} or original`
abbrev pub needs_hunk : FileHeader → Bool
needs_hunk f = elim f.kind [ modify ↦ true | _ ↦ is_nonempty f.original ]

-- From the loop over the hunks to the `PatchHunk`.
unfoldable pub read_file : Texts → FileHeader → List String → Result (PatchHunk × List String)
unfolding read_hunks concat
read_file t f lines = do
  read ←
      read_hunks t (suc (length lines)) f.original f.relative lines
        (record { source_cursor = 0; output = []; saw_hunk = false })
  raise_if (not read.0.saw_hunk && needs_hunk f)
      (value_error ("file patch has no hunks: " <> f.relative))
  ok (
    record {
      path = f.relative;
      kind = f.kind;
      content = elim f.kind [
        | delete ↦ none
        | _ ↦ some (concat (read.0.output ++ drop read.0.source_cursor f.original))
      ];
      expected_sha256 = f.expected;
    },
    read.1,
  )

-- The loop to the next header of a file.
unfoldable pub next_header : Texts → List String → Result (List String)
next_header t [] = ok []
next_header t (line ∷ lines) =
    let rest = next_header t lines in
    if starts_with "--- " line
    then ok (line ∷ lines)
    else if not (t.is_blank line)
    then err (value_error ("unexpected patch line: " <> t.rstrip line))
    else rest

-- `line[4:].rstrip("\r\n")`
abbrev pub label_of : String → String
label_of line = rstrip_newline (text_drop 4 line)

-- The second header of a file, and what follows it.
unfoldable pub after_old_header :
    Os → Texts → Workspace → String → List String → Result (PatchHunk × List String)
unfolding read_header read_file
after_old_header os t w old_line [] = err (value_error "missing +++ file header")
after_old_header os t w old_line (new_line ∷ lines) =
    if not (starts_with "+++ " new_line)
    then err (value_error "missing +++ file header")
    else (read_header os t w (label_of old_line) (label_of new_line) >>= λ f. read_file t f lines)

-- The loop over the files.
unfoldable pub read_files : Os → Texts → Workspace → ℕ → List String → Result (List PatchHunk)
unfolding next_header after_old_header
read_files os t w zero lines = err recursion_error
read_files os t w (suc fuel) lines =
    let rest = read_files os t w fuel in
    next_header t lines >>= λ found. elim found [
      | [] ↦ ok []
      | old_line ∷ after ↦
          (after_old_header os t w old_line after >>= λ read.
          rest read.1 >>= λ operations. ok (read.0 ∷ operations))
    ]

unfoldable pub parse_unified_diff : Os → Texts → String → Workspace → Result (List PatchHunk)
unfolding read_files
parse_unified_diff os t patch_text w = do
  raise_if (t.is_blank patch_text) (value_error "patch is empty")
  raise_if (has_text "GIT binary patch" patch_text || has_text "Binary files " patch_text)
      (value_error "binary patches are not supported")
  operations ← read_files os t w (suc (length (t.splitlines patch_text))) (t.splitlines patch_text)
  raise_if (not (is_nonempty operations)) (value_error "patch contains no file operations")
  ok operations
