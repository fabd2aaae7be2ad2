-- ===== src/Integrator/Diffs/Render.antt =====
-- The lines of an edit script, read back.
use mathlib.Core.List.{append_assoc, append-nil}
use c4harness.Base.{
  ◌∙◌, All, length-append, ℕ, zero, suc, ◌+◌, ◌≤◌, String, true, false, List, [], ◌∷◌, ◌++◌, map,
  starts_with, text_take, text_drop, length, ==_refl, string_eq, ◌≡◌, refl, arith, sym, subst,
}
use c4harness.Core.Errors.{ok}
use c4harness.Paths.{take}
use c4harness.Integrator.Diffs.{
  hunk_body, Texts, Body, hunk_line, ends_hunk, has_line, drop, is_marked, no_newline_marker,
}
use c4harness.Integrator.Diffs.Script.{
  IsPlain, Edit, keep, remove, add, line_of, old_side, new_side,
}

-- The line at a cursor, and what follows it.
drop-cons :
    (xs : List String) (n : ℕ) (x : String) (post : List String)
    → drop n xs ≡ x ∷ post
    → (has_line xs n x ≡ true) × (drop (suc n) xs ≡ post)
unfolding has_line
drop-cons [] zero x post there = absurd (cc)
drop-cons [] (suc n) x post there = absurd (cc)
drop-cons (y ∷ xs) zero x post there = ground (arith, there, ==_refl x)
drop-cons (y ∷ xs) (suc n) x post there = drop-cons xs n x post there

pub drop-append :
    (xs : List String) (n : ℕ) (gap post : List String)
    → drop n xs ≡ gap ++ post
    → drop (n + length gap) xs ≡ post
drop-append xs n [] post there = subst (λ m. drop m xs ≡ post) (omega arith) there
drop-append xs n (x ∷ gap) post there =
    subst (λ m. drop m xs ≡ post) (omega arith)
      (drop-append xs (suc n) gap post (drop-cons xs n x (gap ++ post) there).1)

pub take-append : (gap post : List String) → take (length gap) (gap ++ post) ≡ gap
take-append [] post = refl
take-append (x ∷ gap) post = rw (take-append gap post) refl

pub drop-le :
    (xs : List String) (n : ℕ) (gap post : List String)
    → n ≤ length xs
    → drop n xs ≡ gap ++ post
    → n + length gap ≤ length xs
drop-le xs zero gap post le there = omega (
  arith,
  length-append gap post,
  subst (λ ys. length gap ≤ length ys) (sym there) (omega (arith, length-append gap post)),
)
drop-le [] (suc n) gap post le there = absurd (omega (arith, le))
drop-le (x ∷ xs) (suc n) gap post le there =
    omega (arith, drop-le xs n gap post (omega (arith, le)) there)

-- Nothing more of the hunk follows.
abbrev pub Stops : Texts → List String → Type 0
Stops t [] = Unit
Stops t (line ∷ _) = (ends_hunk t line ≡ true) × (starts_with no_newline_marker line ≡ false)

module _ (t : Texts) (original : List String) (relative : String) where
  is_marked-render :
      (edits : List Edit) (rest : List String)
      → Stops t rest
      → is_marked (map line_of edits ++ rest) ≡ false
  unfolding line_of starts_with
  is_marked-render [] [] stops = refl
  is_marked-render [] (line ∷ rest) (_, stops) = stops
  is_marked-render (keep x ∷ edits) rest stops = refl
  is_marked-render (remove x ∷ edits) rest stops = refl
  is_marked-render (add x ∷ edits) rest stops = refl

  -- The variables after some edits.
  abbrev pub after_edits : List Edit → Body → Body
  after_edits edits b = record {
    source_cursor = b.source_cursor + length (old_side edits);
    output = b.output ++ new_side edits;
    consumed_old = b.consumed_old + length (old_side edits);
    produced_new = b.produced_new + length (new_side edits);
  }

  -- One line.
  hunk_line-render :
      (e : Edit) (after : List String) (b : Body)
      → drop b.source_cursor original ≡ old_side (e ∷ []) ++ after
      → hunk_line original relative (text_take 1 (line_of e)) (text_drop 1 (line_of e)) b
        ≡ ok (after_edits (e ∷ []) b)
  unfolding hunk_line line_of text_take text_drop string_eq old_side new_side
  hunk_line-render (keep x) after b there =
      ground (arith, (drop-cons original b.source_cursor x after there).0)
  hunk_line-render (remove x) after b there =
      ground (arith, append-nil b.output, (drop-cons original b.source_cursor x after there).0)
  hunk_line-render (add x) after b there = ground arith

  after_edits-cons :
      (e : Edit) (edits : List Edit) (b : Body)
      → after_edits edits (after_edits (e ∷ []) b) ≡ after_edits (e ∷ edits) b
  unfolding old_side new_side
  after_edits-cons (keep x) edits b =
      ground (arith, append_assoc b.output (x ∷ []) (new_side edits))
  after_edits-cons (remove x) edits b = ground (arith, append-nil b.output)
  after_edits-cons (add x) edits b = ground (arith, append_assoc b.output (x ∷ []) (new_side edits))

  line_of-unmarked : (e : Edit) → starts_with no_newline_marker (line_of e) ≡ false
  unfolding line_of starts_with
  line_of-unmarked (keep x) = refl
  line_of-unmarked (remove x) = refl
  line_of-unmarked (add x) = refl

  old_side-cons :
      (e : Edit) (edits : List Edit) (after : List String)
      → old_side (e ∷ edits) ++ after ≡ old_side (e ∷ []) ++ (old_side edits ++ after)
  unfolding old_side
  old_side-cons (keep x) edits after = refl
  old_side-cons (remove x) edits after = refl
  old_side-cons (add x) edits after = refl

  -- The lines of a hunk are read as its edits.
  pub hunk_body-render :
      (edits : List Edit) (rest after : List String) (b : Body)
      → drop b.source_cursor original ≡ old_side edits ++ after
      → All (IsPlain t) edits
      → Stops t rest
      → hunk_body t original relative (map line_of edits ++ rest) b ≡ ok (after_edits edits b, rest)
  unfolding hunk_body old_side new_side
  hunk_body-render [] [] after b there plain stops = ground (arith, append-nil b.output)
  hunk_body-render [] (line ∷ rest) after b there plain (ends, _) =
      ground (arith, ends, append-nil b.output)
  hunk_body-render (e ∷ edits) rest after b there (plain, plains) stops =
      let here = there ∙ old_side-cons e edits after in
      let moved =
        drop-append original b.source_cursor (old_side (e ∷ [])) (old_side edits ++ after) here in
      rw
        (
          hunk_body,
          plain,
          line_of-unmarked e,
          is_marked-render edits rest stops,
          hunk_line-render e (old_side edits ++ after) b here,
        )
        (hunk_body-render edits rest after (after_edits (e ∷ []) b) moved plains stops
          ∙ rw (after_edits-cons e edits b) refl)
