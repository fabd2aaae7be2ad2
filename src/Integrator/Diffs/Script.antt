-- ===== src/Integrator/Diffs/Script.antt =====
-- Edit scripts of a file, and the lines that a patch has for them.
use Prim.Native.String.{String}
use c4harness.Base.{
  ℕ, ◌+◌, false, some, List, [], ◌∷◌, ◌++◌, map, length, starts_with, rstrip_newline, ◌≡◌, All,
  string_eq,
}
use c4harness.Integrator.Diffs.{
  Texts, HunkHeader, ends_hunk, target_of, count_of, no_newline_marker,
}

-- What happens to one line.
pub data Edit : Type 0 where
  keep remove add : String → Edit

-- Its line in a patch.
unfoldable pub line_of : Edit → String
line_of (keep x) = String.◌∷◌ " " x
line_of (remove x) = String.◌∷◌ "-" x
line_of (add x) = String.◌∷◌ "+" x

-- The lines of before, and those of after.
unfoldable pub old_side : List Edit → List String
old_side [] = []
old_side (keep x ∷ edits) = x ∷ old_side edits
old_side (remove x ∷ edits) = x ∷ old_side edits
old_side (add x ∷ edits) = old_side edits

unfoldable pub new_side : List Edit → List String
new_side [] = []
new_side (keep x ∷ edits) = x ∷ new_side edits
new_side (remove x ∷ edits) = new_side edits
new_side (add x ∷ edits) = x ∷ new_side edits

-- Lines that the patch passes over, and a hunk.
pub record Segment : Type 0 where
  pub gap : List String
  pub header : String
  pub edits : List Edit

-- The lines of the file before and after, where those at the end follow the last hunk.
unfoldable pub old_lines : List Segment → List String → List String
unfolding old_side
old_lines [] end = end
old_lines (s ∷ segments) end = s.gap ++ (old_side s.edits ++ old_lines segments end)

unfoldable pub new_lines : List Segment → List String → List String
unfolding new_side
new_lines [] end = end
new_lines (s ∷ segments) end = s.gap ++ (new_side s.edits ++ new_lines segments end)

-- The lines of the patch.
unfoldable pub rendered : List Segment → List String
unfolding line_of
rendered [] = []
rendered (s ∷ segments) = s.header ∷ (map line_of s.edits ++ rendered segments)

-- No line of a hunk is read as a header.
abbrev pub IsPlain : Texts → Edit → Type 0
IsPlain t e = ends_hunk t (line_of e) ≡ false

-- The header of a hunk says where it starts, the number of lines before it being given, and how many
-- lines it has on each side.
abbrev pub IsHeaded : Texts → ℕ → Segment → Type 0
IsHeaded t n s =
    (h : HunkHeader) × (t.hunk_header (rstrip_newline s.header) ≡ some h)
    × (starts_with "--- " s.header ≡ false)
    × (starts_with no_newline_marker s.header ≡ false)
    × (target_of h ≡ n + length s.gap)
    × (count_of h.old_count ≡ length (old_side s.edits))
    × (count_of h.new_count ≡ length (new_side s.edits))
    × All (IsPlain t) s.edits

-- All the hunks of a file are, one after the other.
abbrev pub IsScript : Texts → ℕ → List Segment → Type 0
IsScript t n [] = Unit
IsScript t n (s ∷ segments) =
    IsHeaded t n s × IsScript t (n + length s.gap + length (old_side s.edits)) segments
