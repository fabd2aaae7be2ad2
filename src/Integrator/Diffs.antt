-- ===== src/Integrator/Diffs.antt =====
-- c4harness/integrator/patches.py: `parse_unified_diff`, which reads the hunks of a patch from a text.
pub mod Files
pub mod Generate
pub mod Fuel
pub mod Total
pub mod Script
pub mod Render
pub mod RoundTrip
pub mod Whole
use Prim.Native.String.{◌++◌ as ◌<>◌}
use Prim.Native.Char.{code}
use c4harness.Base.{
  text_drop, rstrip_newline, concat, text_take, ℕ, zero, suc, ◌-◌, ◌+◌, String, Bool, true, false,
  not, ◌&&◌, ◌||◌, Option, none, some, List, [], ◌∷◌, ◌++◌, lookup, has_key, contains, starts_with,
  has_text, length, ◌==◌, string_eq, if◌then◌else◌, ltb, leb,
}
use c4harness.Core.Errors.{Result, ok, err, value_error, recursion_error, raise_if, ◌>>=◌, ◌>>◌}
use c4harness.Core.Types.{is_nonempty}
use c4harness.Paths.{parts, root_of, as_posix, take}
use c4harness.Integrator.Workspace.{Os, Workspace, normalize_repo_relative}
use c4harness.Integrator.Patches.{PatchHunk, ChangeKind, create, modify, delete}

-- The groups of a match of `_HUNK_HEADER`, as numbers, without the third, which the code does not use.
pub record HunkHeader : Type 0 where
  pub old_start : ℕ
  pub old_count : Option ℕ
  pub new_count : Option ℕ

-- What the code asks the standard library about texts.
pub record Texts : Type 0 where
  -- `text.splitlines(keepends=True)`
  pub splitlines : String → List String
  -- `not text.strip()`
  pub is_blank : String → Bool
  -- `text.rstrip()`
  pub rstrip : String → String
  -- `_HUNK_HEADER.match(line)`
  pub hunk_header : String → Option HunkHeader
  -- What `read_text` returns for a file that holds a text.
  pub read_text : String → String

-- `lines[n:]`
abbrev pub drop {ℓ} : {A : Type ℓ} → ℕ → List A → List A
drop zero xs = xs
drop (suc n) [] = []
drop (suc n) (x ∷ xs) = drop n xs

-- The loop of `_header_path` over the prefixes.
abbrev pub unprefixed : String → String
unprefixed label =
    if starts_with "a/" label || starts_with "b/" label then text_drop 2 label else label

unfoldable pub header_path : String → Result (Option String)
unfolding text_drop
header_path label =
    if label == "/dev/null"
    then ok none
    else if unprefixed label == ""
        || (not (root_of (unprefixed label) == "") || contains (parts (unprefixed label)) "..")
    then err (value_error ("unsafe patch path: " <> unprefixed label))
    else ok (some (as_posix (unprefixed label)))

-- The variables of the loop over the lines of a hunk.
pub record Body : Type 0 where
  pub source_cursor : ℕ
  pub output : List String
  pub consumed_old : ℕ
  pub produced_new : ℕ

abbrev pub no_newline_marker : String
no_newline_marker = "\\ No newline at end of file"

-- `no_newline`, where these are the lines after the current one.
abbrev pub is_marked : List String → Bool
is_marked [] = false
is_marked (next ∷ _) = starts_with no_newline_marker next

abbrev pub payload_of : Bool → String → String
payload_of no_newline line =
    if no_newline then rstrip_newline (text_drop 1 line) else text_drop 1 line

-- `not (source_cursor >= len(original) or original[source_cursor] != payload)`
unfoldable pub has_line : List String → ℕ → String → Bool
has_line [] n payload = false
has_line (line ∷ _) zero payload = line == payload
has_line (_ ∷ lines) (suc n) payload = has_line lines n payload

-- The `if prefix == …` chain.
unfoldable pub hunk_line : List String → String → String → String → Body → Result Body
hunk_line original relative prefix payload b =
    if prefix == " "
    then (raise_if (not (has_line original b.source_cursor payload))
          (value_error ("context mismatch for " <> relative))
        >> ok (record {
          source_cursor = suc b.source_cursor;
          output = b.output ++ payload ∷ [];
          consumed_old = suc b.consumed_old;
          produced_new = suc b.produced_new;
        }))
    else if prefix == "-"
    then (raise_if (not (has_line original b.source_cursor payload))
          (value_error ("deletion mismatch for " <> relative))
        >> ok (record b { source_cursor = suc b.source_cursor; consumed_old = suc b.consumed_old }))
    else if prefix == "+"
    then ok (record b { output = b.output ++ payload ∷ []; produced_new = suc b.produced_new })
    else err (value_error ("invalid hunk line for " <> relative))

-- `line.startswith("--- ") or _HUNK_HEADER.match(line.rstrip("\r\n"))`
unfoldable pub ends_hunk : Texts → String → Bool
unfolding rstrip_newline
ends_hunk t line =
    starts_with "--- " line
    || elim (t.hunk_header (rstrip_newline line)) [ none ↦ false | some _ ↦ true ]

-- The loop over the lines of a hunk, which returns the lines that it leaves. After a line that is marked,
-- the source skips the marker at once, and the model with the next line.
unfoldable pub hunk_body :
    Texts → List String → String → List String → Body → Result (Body × List String)
unfolding ends_hunk hunk_line
hunk_body t original relative [] b = ok (b, [])
hunk_body t original relative (line ∷ lines) b =
    let rest = hunk_body t original relative lines in
    if ends_hunk t line
    then ok (b, line ∷ lines)
    else if starts_with no_newline_marker line
    then rest b
    else (hunk_line original relative (text_take 1 line) (payload_of (is_marked lines) line) b
        >>= λ b'. rest b')

-- The variables of the loop over the hunks of a file.
pub record FilePatch : Type 0 where
  pub source_cursor : ℕ
  pub output : List String
  pub saw_hunk : Bool

-- `int(group or "1")`
abbrev pub count_of : Option ℕ → ℕ
count_of none = 1
count_of (some n) = n

-- `max(0, old_start - 1)`
abbrev pub target_of : HunkHeader → ℕ
target_of h = h.old_start - 1

abbrev pub is_equal : ℕ → ℕ → Bool
is_equal m n = leb m n && leb n m

-- One hunk, from its header on.
unfoldable pub read_hunk :
    Texts
    → List String
    → String
    → HunkHeader
    → List String
    → FilePatch
    → Result (FilePatch × List String)
unfolding hunk_body
read_hunk t original relative h lines f = do
  raise_if (ltb (target_of h) f.source_cursor || ltb (length original) (target_of h))
      (value_error ("invalid hunk offset for " <> relative))
  read ← hunk_body t original relative lines (record {
    source_cursor = target_of h;
    output = f.output ++ take (target_of h - f.source_cursor) (drop f.source_cursor original);
    consumed_old = 0;
    produced_new = 0;
  })
  raise_if
      (not (is_equal read.0.consumed_old (count_of h.old_count))
        || not (is_equal read.0.produced_new (count_of h.new_count)))
      (value_error ("hunk count mismatch for " <> relative))
  ok (
    record { source_cursor = read.0.source_cursor; output = read.0.output; saw_hunk = true },
    read.1,
  )

-- The loop over the hunks of a file.
unfoldable pub read_hunks :
    Texts → ℕ → List String → String → List String → FilePatch → Result (FilePatch × List String)
unfolding read_hunk
read_hunks t zero original relative lines f = err recursion_error
read_hunks t (suc fuel) original relative [] f = ok (f, [])
read_hunks t (suc fuel) original relative (line ∷ lines) f =
    let rest = read_hunks t fuel original relative in
    if starts_with "--- " line
    then ok (f, line ∷ lines)
    else elim (t.hunk_header (rstrip_newline line)) [
      | none ↦
          if not (t.is_blank line)
          then err (value_error ("malformed hunk header: " <> t.rstrip line))
          else rest lines f
      | some h ↦ (read_hunk t original relative h lines f >>= λ read. rest read.1 read.0)
    ]
