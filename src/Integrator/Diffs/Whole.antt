-- ===== src/Integrator/Diffs/Whole.antt =====
-- A whole patch for one file, from its text to the workspace.
use c4harness.Base.{
  sym, subst, length, has_text, false, ℕ, suc, String, true, not, ◌||◌, none, some, List, [], ◌∷◌,
  starts_with, concat, string_eq, ◌≡◌, arith,
}
use c4harness.Core.Errors.{ok}
use c4harness.Core.Types.{is_nonempty}
use c4harness.Integrator.Workspace.{Os, Workspace}
use c4harness.Integrator.Patches.{PatchHunk, delete}
use c4harness.Integrator.Diffs.{Texts}
use c4harness.Integrator.Diffs.Files.{
  FileHeader, needs_hunk, read_header, next_header, parse_unified_diff, after_old_header,
  read_files, label_of,
}
use c4harness.Integrator.Diffs.Script.{Segment, old_lines, new_lines, rendered, IsScript}
use c4harness.Integrator.Diffs.RoundTrip.{read_file-rendered}

-- What an edit script of a file asks for.
abbrev pub hunk_of : FileHeader → List Segment → List String → PatchHunk
hunk_of f segments end = record {
  path = f.relative;
  kind = f.kind;
  content = elim f.kind [ delete ↦ none | _ ↦ some (concat (new_lines segments end)) ];
  expected_sha256 = f.expected;
}

module _ (os : Os) (t : Texts) (w : Workspace) (f : FileHeader) (segments : List Segment)
    (end : List String) (old_line new_line : String) (from : starts_with "--- " old_line ≡ true)
    (to : starts_with "+++ " new_line ≡ true)
    (headed : read_header os t w (label_of old_line) (label_of new_line) ≡ ok f)
    (old : f.original ≡ old_lines segments end) (script : IsScript t 0 segments)
    (filled : (is_nonempty segments || not (needs_hunk f)) ≡ true) where
  after_old_header-rendered :
      after_old_header os t w old_line (new_line ∷ rendered segments)
      ≡ ok (hunk_of f segments end, [])
  unfolding after_old_header
  after_old_header-rendered =
      rw (after_old_header, to, headed) (read_file-rendered t f segments end old script filled)

  read_files-rendered :
      (fuel : ℕ)
      → read_files os t w (suc (suc fuel)) (old_line ∷ new_line ∷ rendered segments)
        ≡ ok (hunk_of f segments end ∷ [])
  unfolding read_files next_header
  read_files-rendered fuel = ground (arith, from, after_old_header-rendered)

-- A patch text whose lines are the two headers of a file and the lines of an edit script of it, and that
-- is not blank and does not name a binary patch, is read as the one hunk that gives the file the lines of
-- after, or no text if it deletes the file. The headers are accepted for this workspace; the script has a
-- hunk, or the file is created or deleted and was empty; no line of the script is read as a header; and
-- for each hunk, the number in its header, less one, is that of the lines before it, and the counts are
-- those of its lines.
pub parse_unified_diff-rendered :
    (os : Os) (t : Texts) (w : Workspace) (f : FileHeader) (segments : List Segment)
    → (end : List String) (old_line new_line patch_text : String)
    → t.splitlines patch_text ≡ old_line ∷ new_line ∷ rendered segments
    → t.is_blank patch_text ≡ false
    → (has_text "GIT binary patch" patch_text || has_text "Binary files " patch_text) ≡ false
    → starts_with "--- " old_line ≡ true
    → starts_with "+++ " new_line ≡ true
    → read_header os t w (label_of old_line) (label_of new_line) ≡ ok f
    → f.original ≡ old_lines segments end
    → IsScript t 0 segments
    → (is_nonempty segments || not (needs_hunk f)) ≡ true
    → parse_unified_diff os t patch_text w ≡ ok (hunk_of f segments end ∷ [])
unfolding parse_unified_diff
parse_unified_diff-rendered os t w f segments end old_line new_line patch_text lines blank binary
      from to headed old script filled =
    let read : read_files os t w (suc (length (t.splitlines patch_text))) (t.splitlines patch_text)
        ≡ ok (hunk_of f segments end ∷ []) =
      subst (λ x. read_files os t w (suc (length x)) x ≡ ok (hunk_of f segments end ∷ []))
        (sym lines)
        (read_files-rendered os t w f segments end old_line new_line from to headed old script
          filled (suc (length (rendered segments)))) in
    ground (arith, blank, binary, read)
