-- ===== src/Tests/Diffs.antt =====
-- Tests of the reading of unified diffs.
use Prim.Native.Char.{code}
use Prim.Native.String.{String}
use Prim.Native.String.{◌++◌ as ◌<>◌}
use c4harness.Base.{
  has_text, rstrip_newline, starts_with, ◌≡◌, ◌≢◌, refl, Bool, true, false, Option, none, some,
  List, [], ◌∷◌, ◌==◌, string_eq, leb, ◌&&◌, if◌then◌else◌, ◌||◌, concat,
}
use c4harness.Core.Errors.{value_error, err, recursion_error, ok}
use c4harness.Integrator.Patches.{modify}
use c4harness.Integrator.Diffs.{ends_hunk, Texts, HunkHeader}
use c4harness.Integrator.Diffs.Files.{
  FileHeader, label_of, read_header, read_file, parse_unified_diff,
}
use c4harness.Integrator.Diffs.Generate.{generate_unified_diff}
use c4harness.Integrator.Diffs.Script.{
  old_side, new_side, line_of, keep, remove, add, Segment, rendered, old_lines, IsScript,
}
use c4harness.Integrator.Diffs.Total.{parse_unified_diff_terminates}
use c4harness.Integrator.Diffs.Whole.{hunk_of, parse_unified_diff-rendered}
use c4harness.Integrator.Workspace.{Workspace}
use c4harness.Tests.Patches.{os, workspace}

-- `splitlines(keepends=True)` where lines end in "\n".
extend_first : String → List String → List String
extend_first c [] = c ∷ []
extend_first c (line ∷ lines) = (c <> line) ∷ lines

unfoldable pub split_lines : String → List String
unfolding extend_first
split_lines String.[] = []
split_lines (String.◌∷◌ c s) =
    let rest = split_lines s in
    if leb 10 (code c) && leb (code c) 10 then "\n" ∷ rest else extend_first (String.◌∷◌ c "") rest

abbrev pub texts : Texts
texts = record {
  splitlines = split_lines;
  is_blank = λ text. text == "" || text == "\n";
  rstrip = λ text. text;
  hunk_header = λ line.
      if line == "@@ -1,3 +1,3 @@"
      then some (record { old_start = 1; old_count = some 3; new_count = some 3 })
      else if line == "@@ -1 +1 @@"
      then some (record { old_start = 1; old_count = none; new_count = none })
      else if line == "@@ -2,0 +3 @@"
      then some (record { old_start = 2; old_count = some 0; new_count = none })
      else none;
  read_text = λ text. text;
}

abbrev file : FileHeader
file = record {
  relative = "a.txt";
  original = "one\n" ∷ "two\n" ∷ "three\n" ∷ [];
  kind = modify;
  expected = some "#";
}

abbrev segment : Segment
segment = record {
  gap = [];
  header = "@@ -1,3 +1,3 @@\n";
  edits = keep "one\n" ∷ remove "two\n" ∷ add "zwei\n" ∷ keep "three\n" ∷ [];
}

segment_lines :
    rendered (segment ∷ [])
    ≡ "@@ -1,3 +1,3 @@\n" ∷ " one\n" ∷ "-two\n" ∷ "+zwei\n" ∷ " three\n" ∷ []
unfolding rendered
segment_lines = refl

abbrev first_header : HunkHeader
first_header = record { old_start = 1; old_count = some 3; new_count = some 3 }

segment-IsScript : IsScript texts 0 (segment ∷ [])
unfolding rendered rstrip_newline starts_with string_eq old_side new_side line_of ends_hunk
segment-IsScript =
    ((first_header, refl, refl, refl, refl, refl, refl, (refl, (refl, (refl, (refl, tt))))), tt)

file_lines : file.original ≡ old_lines (segment ∷ []) []
unfolding old_lines
file_lines = refl

parse_unified_diff_terminates_example :
    parse_unified_diff os texts "--- a/a.txt\n+++ b/a.txt\n" workspace ≢ err recursion_error
parse_unified_diff_terminates_example =
    parse_unified_diff_terminates os texts "--- a/a.txt\n+++ b/a.txt\n" workspace

abbrev long_workspace : Workspace
long_workspace = record workspace { files = ("a.txt", "one\ntwo\nthree\n") ∷ [] }

abbrev whole_file : FileHeader
whole_file = record file { expected = some "#one" }

abbrev whole_patch : String
whole_patch = "--- a/a.txt\n+++ b/a.txt\n@@ -1,3 +1,3 @@\n one\n-two\n+zwei\n three\n"

whole_patch_lines :
    texts.splitlines whole_patch ≡ "--- a/a.txt\n" ∷ "+++ b/a.txt\n" ∷ rendered (segment ∷ [])
unfolding rendered split_lines
whole_patch_lines = refl

whole_patch_binary :
    (has_text "GIT binary patch" whole_patch || has_text "Binary files " whole_patch) ≡ false
unfolding has_text
whole_patch_binary = refl

whole_patch_from : starts_with "--- " "--- a/a.txt\n" ≡ true
unfolding starts_with
whole_patch_from = refl

whole_patch_to : starts_with "+++ " "+++ b/a.txt\n" ≡ true
unfolding starts_with
whole_patch_to = refl

whole_patch_headed :
    read_header os texts long_workspace (label_of "--- a/a.txt\n") (label_of "+++ b/a.txt\n")
    ≡ ok whole_file
unfolding read_header string_eq rstrip_newline starts_with c4harness.Paths.root_of
    c4harness.Base.contains c4harness.Paths.parts c4harness.Base.filter c4harness.Paths.as_posix
    c4harness.Integrator.Workspace.normalize_repo_relative c4harness.Scheduler.Batch.strip_parts
    c4harness.Base.lookup split_lines
whole_patch_headed = refl

parse_unified_diff-rendered_example :
    parse_unified_diff os texts whole_patch long_workspace
    ≡ ok (hunk_of whole_file (segment ∷ []) [] ∷ [])
unfolding string_eq
parse_unified_diff-rendered_example =
    parse_unified_diff-rendered os texts long_workspace whole_file (segment ∷ []) [] "--- a/a.txt\n"
      "+++ b/a.txt\n" whole_patch whole_patch_lines refl whole_patch_binary whole_patch_from
      whole_patch_to whole_patch_headed file_lines segment-IsScript refl

-- A hunk that only adds, after line 2 as its header says, is applied after line 1.
addition :
    read_file texts file ("@@ -2,0 +3 @@\n" ∷ "+new\n" ∷ [])
    ≡ ok (
      record {
        path = "a.txt";
        kind = modify;
        content = some "one\nnew\ntwo\nthree\n";
        expected_sha256 = some "#";
      },
      [],
    )
unfolding read_file c4harness.Base.starts_with string_eq c4harness.Base.text_take
    c4harness.Base.text_drop
addition = refl

-- A line that is removed and starts with "-- " is taken for the header of a file.
abbrev comment_file : FileHeader
comment_file = record file { original = "-- x\n" ∷ "two\n" ∷ "three\n" ∷ [] }

removal :
    read_file texts comment_file
      ("@@ -1,3 +1,3 @@\n" ∷ "--- x\n" ∷ "+-- y\n" ∷ " two\n" ∷ " three\n" ∷ [])
    ≡ err (value_error "hunk count mismatch for a.txt")
unfolding read_file c4harness.Base.starts_with string_eq
removal = refl

-- Lines without an end get a marker.
generated :
    generate_unified_diff texts
      (λ old new fromfile tofile. "@@ -1 +1 @@\n" ∷ "-one" ∷ "+uno\n" ∷ [])
      "a.txt"
      "one"
      "uno\n"
      true
      true
    ≡ "@@ -1 +1 @@\n-one\n\\ No newline at end of file\n+uno\n"
unfolding generate_unified_diff string_eq c4harness.Base.text_take c4harness.Base.ends_with
generated = refl
