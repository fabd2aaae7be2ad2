-- ===== src/Base/Lists.antt =====
-- Lists: membership, comprehensions, `any`, `all`, `len`, and the predicates that proofs use.
use Prim.Native.Nat.{ℕ, suc, ◌+◌, ◌≤◌, ◌<◌}
use mathlib.Core.Path.{◌≡◌, refl}
use mathlib.Core.Logic.{◌↔◌, ◌⊎◌, inl, inr}
use mathlib.Core.Bool.{Bool, true, false, not, ◌&&◌, ◌||◌}
use mathlib.Core.List.{List, [], ◌∷◌, ◌++◌}
use native.Mathlib.Omega.{arith}
use c4harness.Base.Equality.{Eq, ◌==◌, if◌then◌else◌}

module _ {ℓ} {A : Type ℓ} where
  abbrev pub length : List A → ℕ
  length [] = 0
  length (x ∷ xs) = suc (length xs)

  -- `any(p(x) for x in xs)`, `all(…)` and `[x for x in xs if p(x)]`
  unfoldable pub any : (A → Bool) → List A → Bool
  any p [] = false
  any p (x ∷ xs) = p x || any p xs

  unfoldable pub all : (A → Bool) → List A → Bool
  all p [] = true
  all p (x ∷ xs) = p x && all p xs

  unfoldable pub filter : (A → Bool) → List A → List A
  filter p [] = []
  filter p (x ∷ xs) = let rest = filter p xs in if p x then x ∷ rest else rest

  abbrev pub All {κ} : (A → Type κ) → List A → Type κ
  All P [] = Unit
  All P (x ∷ xs) = P x × All P xs

  pub length-append : (xs ys : List A) → length (xs ++ ys) ≡ length xs + length ys
  length-append [] ys = omega arith
  length-append (x ∷ xs) ys = omega (arith, length-append xs ys)

  pub length-filter-le : (p : A → Bool) (xs : List A) → length (filter p xs) ≤ length xs
  unfolding filter
  length-filter-le p [] = omega arith
  length-filter-le p (x ∷ xs) = ground (arith, length-filter-le p xs)

module _ {ℓ} {A : Type ℓ} ⦃e : Eq A⦄ where
  -- `a in xs`
  unfoldable pub contains : List A → A → Bool
  contains [] a = false
  contains (x ∷ xs) a = a == x || contains xs a

  pub contains-cons :
      (x : A) (xs : List A) (a : A)
      → (contains (x ∷ xs) a ≡ true) ↔ ((a ≡ x) ⊎ (contains xs a ≡ true))
  unfolding contains
  contains-cons x xs a = ground arith

  pub contains-append :
      (xs ys : List A) (a : A)
      → (contains (xs ++ ys) a ≡ true) ↔ ((contains xs a ≡ true) ⊎ (contains ys a ≡ true))
  unfolding contains
  contains-append [] ys a = ground arith
  contains-append (x ∷ xs) ys a = ground (arith, contains-append xs ys a)

  pub contains-filter :
      (p : A → Bool) (xs : List A) (a : A)
      → (contains (filter p xs) a ≡ true) ↔ ((contains xs a ≡ true) × (p a ≡ true))
  unfolding contains filter
  contains-filter p [] a = ground arith
  contains-filter p (x ∷ xs) a = ground (arith, contains-filter p xs a)

  pub any-contains :
      (p : A → Bool) (xs : List A) (a : A) → contains xs a ≡ true → p a ≡ true → any p xs ≡ true
  unfolding contains any
  any-contains p [] a m h = ground arith
  any-contains p (x ∷ xs) a m h = ground (arith, any-contains p xs a)

  pub all-contains :
      (p : A → Bool) (xs : List A) (a : A) → all p xs ≡ true → contains xs a ≡ true → p a ≡ true
  unfolding contains all
  all-contains p [] a h m = ground arith
  all-contains p (x ∷ xs) a h m = ground (arith, all-contains p xs a)

  abbrev pub Nodup : List A → Type 0
  Nodup [] = Unit
  Nodup (x ∷ xs) = (contains xs x ≡ false) × Nodup xs

  -- `s.remove(a)` for a set held as a list without duplicates
  unfoldable pub discard : A → List A → List A
  discard a [] = []
  discard a (x ∷ xs) = if a == x then xs else x ∷ discard a xs

  -- `set(xs)`, as the items in the order of their last occurrences
  unfoldable pub to_set : List A → List A
  to_set [] = []
  to_set (x ∷ xs) = let rest = to_set xs in if contains xs x then rest else x ∷ rest

  pub contains-to_set : (xs : List A) (a : A) → contains (to_set xs) a ≡ contains xs a
  unfolding to_set contains
  contains-to_set [] a = refl
  contains-to_set (x ∷ xs) a = ground (arith, contains-to_set xs a)

  pub to_set-Nodup : (xs : List A) → Nodup (to_set xs)
  unfolding to_set
  to_set-Nodup [] = tt
  to_set-Nodup (x ∷ xs) = ground (arith, to_set-Nodup xs, contains-to_set xs x)

  pub contains_one : (x a : A) → contains (x ∷ []) a ≡ true → a ≡ x
  unfolding contains
  contains_one x a h = ground arith

  pub contains_self : (x : A) (xs : List A) → contains (x ∷ xs) x ≡ true
  contains_self x xs = (contains-cons x xs x).1 (inl refl)

  pub contains_tail :
      (x : A) (xs : List A) (a : A) → contains xs a ≡ true → contains (x ∷ xs) a ≡ true
  contains_tail x xs a h = (contains-cons x xs a).1 (inr h)

  pub discard_head : (x : A) (xs : List A) → discard x (x ∷ xs) ≡ xs
  unfolding discard
  discard_head x xs = ground arith

  -- How many of the items are not in `seen`.
  unfoldable pub missing : List A → List A → ℕ
  missing items seen = length (filter (λ k. not (contains seen k)) items)

  pub missing-le : (items seen : List A) → missing items seen ≤ length items
  unfolding missing
  missing-le items seen = length-filter-le (λ k. not (contains seen k)) items

  pub missing-cons-le :
      (items seen : List A) (n : A) → missing items (n ∷ seen) ≤ missing items seen
  unfolding missing filter contains
  missing-cons-le [] seen n = omega arith
  missing-cons-le (k ∷ ks) seen n = ground (arith, missing-cons-le ks seen n)

  pub missing-cons-lt :
      (items seen : List A) (n : A)
      → contains items n ≡ true
      → contains seen n ≡ false
      → missing items (n ∷ seen) < missing items seen
  unfolding missing filter contains
  missing-cons-lt [] seen n m h = ground arith
  missing-cons-lt (k ∷ ks) seen n m h =
      ground (arith, missing-cons-lt ks seen n, missing-cons-le ks seen n)

  pub missing_mono :
      (items a b : List A)
      → ((m : A) → contains a m ≡ true → contains b m ≡ true)
      → missing items b ≤ missing items a
  unfolding missing filter
  missing_mono [] a b h = omega arith
  missing_mono (k ∷ ks) a b h = ground (arith, missing_mono ks a b h, h k)
