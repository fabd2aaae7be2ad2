-- ===== src/Integrator/Diffs/Generate.antt =====
-- `generate_unified_diff` of c4harness/integrator/patches.py. `difflib.unified_diff` is a parameter: the lines
-- of before, those of after, and the names of the two files.
use Prim.Native.String.{◌++◌ as ◌<>◌}
use c4harness.Base.{
  String, Bool, true, false, not, ◌&&◌, ◌||◌, List, [], ◌∷◌, concat, ends_with, text_take, ◌==◌,
  string_eq, if◌then◌else◌,
}
use c4harness.Core.Types.{is_nonempty}
use c4harness.Integrator.Diffs.{Texts}

-- `line[:1] in {" ", "+", "-"} and not line.endswith(("\n", "\r"))`
abbrev pub lacks_newline : String → Bool
lacks_newline line =
    (text_take 1 line == " " || (text_take 1 line == "+" || text_take 1 line == "-"))
    && not (ends_with "\n" line || ends_with "\r" line)

-- The list `encoded` of `_encode_no_newline_markers`.
unfoldable pub encoded_lines : List String → List String
encoded_lines [] = []
encoded_lines (line ∷ lines) =
    let rest = encoded_lines lines in
    if lacks_newline line
    then (line <> "\n") ∷ "\\ No newline at end of file\n" ∷ rest
    else line ∷ rest

unfoldable pub encode_no_newline_markers : List String → String
unfolding encoded_lines concat
encode_no_newline_markers lines = concat (encoded_lines lines)

-- `existed_before == exists_after`
abbrev pub agree : Bool → Bool → Bool
agree true b = b
agree false b = not b

unfoldable pub generate_unified_diff :
    Texts
    → (List String → List String → String → String → List String)
    → String
    → String
    → String
    → Bool
    → Bool
    → String
unfolding encode_no_newline_markers
generate_unified_diff t unified_diff label old_text new_text existed_before exists_after =
    let fromfile : String = if existed_before then "a/" <> label else "/dev/null" in
    let tofile : String = if exists_after then "b/" <> label else "/dev/null" in
    let lines = unified_diff (t.splitlines old_text) (t.splitlines new_text) fromfile tofile in
    if old_text == new_text && agree existed_before exists_after
    then ""
    else if not (is_nonempty lines) && not (agree existed_before exists_after)
    then "--- " <> fromfile <> "\n+++ " <> tofile <> "\n"
    else encode_no_newline_markers lines
