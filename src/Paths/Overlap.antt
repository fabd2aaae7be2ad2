-- ===== src/Paths/Overlap.antt =====
-- Two paths overlap exactly when one is an ancestor of the other, or the same.
use c4harness.Base.{
  ℕ, suc, String, ◌≡◌, refl, sym, ap, ◌∙◌, ◌&&◌, Bool, true, List, [], ◌∷◌, ◌==◌, string_eq, length,
  arith, ◌⊎◌, inl, inr, ◌↔◌,
}
use c4harness.Paths.{parts, take, list_eq, min_len, parts_overlap, paths_overlap}

-- The first list begins the second.
abbrev pub IsPrefix : List String → List String → Type 0
IsPrefix [] ys = Unit
IsPrefix (x ∷ xs) [] = ⊥
IsPrefix (x ∷ xs) (y ∷ ys) = (x ≡ y) × IsPrefix xs ys

min_len-suc : (a b : ℕ) → min_len (suc a) (suc b) ≡ suc (min_len a b)
min_len-suc a b = ground arith

min_len-zero : (a : ℕ) → min_len a 0 ≡ 0
min_len-zero a = ground arith

zero-min_len : (a : ℕ) → min_len 0 a ≡ 0
zero-min_len a = ground arith

heads_overlap : (n : ℕ) (xs ys : List String) → Bool
heads_overlap n xs ys = list_eq (take n xs) (take n ys)

parts_overlap-heads :
    (xs ys : List String)
    → parts_overlap xs ys ≡ heads_overlap (min_len (length xs) (length ys)) xs ys
unfolding parts_overlap heads_overlap
parts_overlap-heads xs ys = refl

heads_overlap-suc :
    (n : ℕ) (x y : String) (xs ys : List String)
    → heads_overlap (suc n) (x ∷ xs) (y ∷ ys) ≡ (x == y && heads_overlap n xs ys)
unfolding heads_overlap list_eq
heads_overlap-suc n x y xs ys = refl

heads_overlap-zero : (xs ys : List String) → heads_overlap 0 xs ys ≡ true
unfolding heads_overlap list_eq
heads_overlap-zero xs ys = refl

parts_overlap-cons :
    (x y : String) (xs ys : List String)
    → parts_overlap (x ∷ xs) (y ∷ ys) ≡ (x == y && parts_overlap xs ys)
parts_overlap-cons x y xs ys =
    parts_overlap-heads (x ∷ xs) (y ∷ ys)
    ∙ ap (λ n. heads_overlap n (x ∷ xs) (y ∷ ys)) (min_len-suc (length xs) (length ys))
    ∙ heads_overlap-suc (min_len (length xs) (length ys)) x y xs ys
    ∙ ap (λ b. x == y && b) (sym (parts_overlap-heads xs ys))

nil-parts_overlap : (ys : List String) → parts_overlap [] ys ≡ true
nil-parts_overlap ys =
    parts_overlap-heads [] ys
    ∙ ap (λ n. heads_overlap n [] ys) (zero-min_len (length ys))
    ∙ heads_overlap-zero [] ys

parts_overlap-nil : (xs : List String) → parts_overlap xs [] ≡ true
parts_overlap-nil xs =
    parts_overlap-heads xs []
    ∙ ap (λ n. heads_overlap n xs []) (min_len-zero (length xs))
    ∙ heads_overlap-zero xs []

-- The overlap of two lists of parts holds exactly when one begins the other.
parts_overlap_iff :
    (xs ys : List String) → (parts_overlap xs ys ≡ true) ↔ (IsPrefix xs ys ⊎ IsPrefix ys xs)
parts_overlap_iff [] ys = (λ _. inl tt, λ _. nil-parts_overlap ys)
parts_overlap_iff (x ∷ xs) [] = (λ _. inr tt, λ _. parts_overlap-nil (x ∷ xs))
parts_overlap_iff (x ∷ xs) (y ∷ ys) =
    ground (arith, parts_overlap-cons x y xs ys, parts_overlap_iff xs ys)

-- Two paths overlap exactly when the parts of one begin the parts of the other: the paths are equal,
-- or one is a directory above the other. A common beginning of two names is not enough.
pub paths_overlap_iff :
    (left right : String)
    → (paths_overlap left right ≡ true)
      ↔ (IsPrefix (parts left) (parts right) ⊎ IsPrefix (parts right) (parts left))
unfolding paths_overlap
paths_overlap_iff left right = parts_overlap_iff (parts left) (parts right)

pub paths_overlap_comm : (left right : String) → paths_overlap left right ≡ paths_overlap right left
paths_overlap_comm left right =
    ground (arith, paths_overlap_iff left right, paths_overlap_iff right left)
