-- ===== src/Integrator/Diffs/Fuel.antt =====
-- The fuel of `parse_unified_diff` is enough: each round of its loops takes a line.
use c4harness.Base.{
  rstrip_newline, text_take, ℕ, zero, suc, ◌-◌, ◌≤◌, ◌<◌, String, Bool, true, false, List, [], ◌∷◌,
  ◌++◌, starts_with, length, string_eq, ◌≢◌, arith, Bool-cases, Option-cases, inl, inr,
}
use c4harness.Paths.{take}
use c4harness.Core.Errors.{Result, ok, err, value_error, recursion_error, raise_if, ◌>>=◌}
use c4harness.Integrator.Diffs.{
  target_of, drop, payload_of, is_marked, no_newline_marker, Texts, Body, FilePatch, HunkHeader,
  hunk_line, hunk_body, read_hunk, read_hunks, ends_hunk,
}

-- A result that is not the end of the fuel; and if it is a value, then one with the property.
abbrev pub Ends {ℓ} : {A : Type ℓ} → (A → Type 0) → Result A → Type 0
Ends P (err e) = e ≢ recursion_error
Ends P (ok a) = P a

pub >>=-Ends {ℓ κ} :
    {A : Type ℓ} {B : Type κ} (P : A → Type 0) (Q : B → Type 0) (first : Result A)
    (next : A → Result B)
    → Ends P first
    → ((a : A) → P a → Ends Q (next a))
    → Ends Q (first >>= next)
>>=-Ends P Q (err e) next h k = h
>>=-Ends P Q (ok a) next h k = k a h

pub raise_if-Ends :
    (test : Bool) (text : String) → Ends (λ _. Unit) (raise_if test (value_error text))
raise_if-Ends true text = λ stuck. cc
raise_if-Ends false text = tt

-- At most so many lines are left.
abbrev pub Leaves {ℓ} : {A : Type ℓ} → ℕ → A × List String → Type 0
Leaves n x = length x.1 ≤ n

pub Leaves-le {ℓ} :
    {A : Type ℓ} (m n : ℕ) (r : Result (A × List String))
    → m ≤ n
    → Ends (Leaves m) r
    → Ends (Leaves n) r
Leaves-le m n (err e) le h = h
Leaves-le m n (ok x) le h = omega (arith, le, h)

module _ (t : Texts) (original : List String) (relative : String) where
  hunk_line-Ends :
      (prefix payload : String) (b : Body)
      → Ends (λ _. Unit) (hunk_line original relative prefix payload b)
  unfolding hunk_line
  hunk_line-Ends prefix payload b = ground arith

  hunk_body-Ends :
      (lines : List String) (b : Body)
      → Ends (Leaves (length lines)) (hunk_body t original relative lines b)
  unfolding hunk_body
  hunk_body-Ends [] b = omega arith
  hunk_body-Ends (line ∷ lines) b = elim (Bool-cases (ends_hunk t line)) [
    | inl ends ↦ rw (hunk_body, ends) (omega arith)
    | inr goes ↦
        let later : (b' : Body)
            → Ends (Leaves (suc (length lines))) (hunk_body t original relative lines b') =
          λ b'.
            Leaves-le (length lines) (suc (length lines)) _ (omega arith)
              (hunk_body-Ends lines b') in
        elim (Bool-cases (starts_with no_newline_marker line)) [
          | inl marker ↦ rw (hunk_body, goes, marker) (later b)
          | inr plain ↦
              rw (hunk_body, goes, plain)
                (>>=-Ends (λ _. Unit) (Leaves (suc (length lines))) _ _
                  (hunk_line-Ends (text_take 1 line) (payload_of (is_marked lines) line) b)
                  (λ b' _. later b'))
        ]
  ]

  read_hunk-Ends :
      (h : HunkHeader) (lines : List String) (f : FilePatch)
      → Ends (Leaves (length lines)) (read_hunk t original relative h lines f)
  unfolding read_hunk
  read_hunk-Ends h lines f = ground (
    arith,
    hunk_body-Ends lines (record {
      source_cursor = target_of h;
      output = f.output ++ take (target_of h - f.source_cursor) (drop f.source_cursor original);
      consumed_old = 0;
      produced_new = 0;
    }),
  )

  -- A unit of fuel for each line, and one more.
  pub read_hunks-Ends :
      (fuel : ℕ) (lines : List String) (f : FilePatch)
      → length lines < fuel
      → Ends (Leaves (length lines)) (read_hunks t fuel original relative lines f)
  unfolding read_hunks
  read_hunks-Ends zero lines f enough = absurd (omega (arith, enough))
  read_hunks-Ends (suc fuel) [] f enough = omega arith
  read_hunks-Ends (suc fuel) (line ∷ lines) f enough = elim (Bool-cases (starts_with "--- " line)) [
    | inl ends ↦ rw (read_hunks, ends) (omega arith)
    | inr goes ↦
        let left : (FilePatch × List String) → Type 0 = Leaves (suc (length lines)) in
        let later : (rest : List String) (f' : FilePatch)
            → length rest ≤ length lines
            → Ends left (read_hunks t fuel original relative rest f') =
          λ rest f' le.
            Leaves-le (length rest) (suc (length lines)) _ (omega (arith, le))
              (read_hunks-Ends fuel rest f' (omega (arith, enough, le))) in
        elim (Option-cases (t.hunk_header (rstrip_newline line))) [
          | inr (h, found) ↦
              rw (read_hunks, goes, found)
                (>>=-Ends (Leaves (length lines)) left _ _ (read_hunk-Ends h lines f)
                  (λ read le. later read.1 read.0 le))
          | inl other ↦ elim (Bool-cases (t.is_blank line)) [
            | inl blank ↦ rw (read_hunks, goes, other, blank) (later lines f (omega arith))
            | inr text ↦ rw (read_hunks, goes, other, text) (λ stuck. cc)
          ]
        ]
  ]
