-- ===== src/Integrator/Diffs/RoundTrip.antt =====
-- A patch made of an edit script, and the file that it is read as.
use mathlib.Core.List.{append_assoc}
use c4harness.Base.{
  length-append, All, ℕ, zero, suc, ◌-◌, ◌+◌, ◌≤◌, ◌<◌, String, true, false, not, ◌||◌, none, some,
  List, [], ◌∷◌, ◌++◌, map, concat, length, ◌≡◌, refl, arith, sym, ◌∙◌, subst,
}
use c4harness.Core.Errors.{ok}
use c4harness.Core.Types.{is_nonempty}
use c4harness.Paths.{take}
use c4harness.Integrator.Patches.{delete}
use c4harness.Integrator.Diffs.{
  Texts, Body, FilePatch, HunkHeader, hunk_body, read_hunk, read_hunks, ends_hunk, drop, target_of,
  count_of,
}
use c4harness.Integrator.Diffs.Files.{FileHeader, read_file, needs_hunk}
use c4harness.Integrator.Diffs.Script.{
  IsPlain, old_side, new_side, line_of, Segment, old_lines, new_lines, rendered, IsScript,
}
use c4harness.Integrator.Diffs.Render.{
  Stops, drop-append, take-append, drop-le, after_edits, hunk_body-render,
}

module _ (t : Texts) (original : List String) (relative : String) where
  rendered-Stops :
      (n : ℕ) (segments : List Segment) → IsScript t n segments → Stops t (rendered segments)
  unfolding rendered ends_hunk
  rendered-Stops n [] script = tt
  rendered-Stops n (s ∷ segments) ((h, found, _, plain, _, _, _, _), _) =
      (ground (arith, found), plain)

  -- One hunk.
  read_hunk-render :
      (s : Segment) (h : HunkHeader) (rest after : List String) (f : FilePatch)
      → drop f.source_cursor original ≡ s.gap ++ (old_side s.edits ++ after)
      → f.source_cursor ≤ length original
      → target_of h ≡ f.source_cursor + length s.gap
      → count_of h.old_count ≡ length (old_side s.edits)
      → count_of h.new_count ≡ length (new_side s.edits)
      → All (IsPlain t) s.edits
      → Stops t rest
      → read_hunk t original relative h (map line_of s.edits ++ rest) f
        ≡ ok (
          record {
            source_cursor = f.source_cursor + length s.gap + length (old_side s.edits);
            output = f.output ++ s.gap ++ new_side s.edits;
            saw_hunk = true;
          },
          rest,
        )
  unfolding read_hunk
  read_hunk-render s h rest after f there le target old new plain stops =
      let size = drop-le original f.source_cursor s.gap (old_side s.edits ++ after) le there in
      let moved = drop-append original f.source_cursor s.gap (old_side s.edits ++ after) there in
      let b : Body = record {
        source_cursor = f.source_cursor + length s.gap;
        output = f.output ++ s.gap;
        consumed_old = 0;
        produced_new = 0;
      } in
      let read = hunk_body-render t original relative s.edits rest after b moved plain stops in
      let width : target_of h - f.source_cursor ≡ length s.gap = omega (arith, target) in
      let taken : take (target_of h - f.source_cursor) (drop f.source_cursor original) ≡ s.gap =
        rw (width, there) (take-append s.gap (old_side s.edits ++ after)) in
      let begun : Path Body
          (record {
            source_cursor = target_of h;
            output =
                f.output ++ take (target_of h - f.source_cursor) (drop f.source_cursor original);
            consumed_old = 0;
            produced_new = 0;
          })
          b =
        rw (taken, target) refl in
      let read_so =
        subst
          (λ x.
            hunk_body t original relative (map line_of s.edits ++ rest) x
            ≡ ok (after_edits t original relative s.edits b, rest))
          (sym begun) read in
      ground (arith, size, target, old, new, read_so)

  -- The variables after some hunks.
  pub read_hunks-render :
      (fuel : ℕ) (segments : List Segment) (end : List String) (f : FilePatch)
      → length segments < fuel
      → drop f.source_cursor original ≡ old_lines segments end
      → f.source_cursor ≤ length original
      → IsScript t f.source_cursor segments
      → (f' : FilePatch) × (read_hunks t fuel original relative (rendered segments) f ≡ ok (f', []))
        × (f'.output ++ drop f'.source_cursor original ≡ f.output ++ new_lines segments end)
        × (f'.saw_hunk ≡ (f.saw_hunk || is_nonempty segments))
  unfolding read_hunks rendered old_lines new_lines
  read_hunks-render zero segments end f enough there le script = absurd (omega (arith, enough))
  read_hunks-render (suc fuel) [] end f enough there le script =
      (f, refl, rw there refl, ground arith)
  read_hunks-render (suc fuel) (s ∷ segments) end f enough there le
        ((h, found, hunk, _, target, old, new, plain), script) =
      let after = old_lines segments end in
      let moved = drop-append original f.source_cursor s.gap (old_side s.edits ++ after) there in
      let size = drop-le original f.source_cursor s.gap (old_side s.edits ++ after) le there in
      let f1 : FilePatch = record {
        source_cursor = f.source_cursor + length s.gap + length (old_side s.edits);
        output = f.output ++ s.gap ++ new_side s.edits;
        saw_hunk = true;
      } in
      let stops = rendered-Stops f1.source_cursor segments script in
      let read =
        read_hunk-render s h (rendered segments) after f there le target old new plain stops in
      let (f', rest, output, saw) =
        read_hunks-render fuel segments end f1 (omega (arith, enough))
          (drop-append original (f.source_cursor + length s.gap) (old_side s.edits) after moved)
          (drop-le original (f.source_cursor + length s.gap) (old_side s.edits) after size moved)
          script in
      (
        f',
        rw (read_hunks, hunk, found, read) rest,
        output
            ∙ append_assoc (f.output ++ s.gap) (new_side s.edits) (new_lines segments end)
            ∙ append_assoc f.output s.gap (new_side s.edits ++ new_lines segments end),
        ground (arith, saw),
      )

  length-rendered : (segments : List Segment) → length segments ≤ length (rendered segments)
  unfolding rendered
  length-rendered [] = omega arith
  length-rendered (s ∷ segments) =
      omega
        (arith, length-rendered segments, length-append (map line_of s.edits) (rendered segments))

-- The lines that a patch has for an edit script of a file are read as the hunk that gives the file the
-- lines of after, or no text if it deletes the file. The script has a hunk, or the file is created or
-- deleted and was empty; no line of the script is read as a header; and for each hunk, the number in its
-- header, less one, is that of the lines before it, and the counts are those of its lines.
pub read_file-rendered :
    (t : Texts) (f : FileHeader) (segments : List Segment) (end : List String)
    → f.original ≡ old_lines segments end
    → IsScript t 0 segments
    → (is_nonempty segments || not (needs_hunk f)) ≡ true
    → read_file t f (rendered segments)
      ≡ ok (
        record {
          path = f.relative;
          kind = f.kind;
          content = elim f.kind [ delete ↦ none | _ ↦ some (concat (new_lines segments end)) ];
          expected_sha256 = f.expected;
        },
        [],
      )
unfolding read_file
read_file-rendered t f segments end old script filled =
    let (f', read, output, saw) =
      read_hunks-render t f.original f.relative (suc (length (rendered segments))) segments end
        (record { source_cursor = 0; output = []; saw_hunk = false })
        (omega (arith, length-rendered t f.original f.relative segments)) old (omega arith)
        script in
    ground (arith, read, output, saw, filled)
