-- ===== src/Base/Sorted.antt =====
-- Texts compared by code points, as Python's `<` does, and `sorted`.
use Prim.Native.Char.{code}
use Prim.Native.Nat.{suc}
use Prim.Native.String.{String}
use mathlib.Core.Path.{◌≡◌, refl}
use mathlib.Core.Logic.{inl, inr, ◌↔◌, ◌⊎◌}
use mathlib.Core.Bool.{Bool, true, false}
use mathlib.Core.List.{List, [], ◌∷◌}
use native.Mathlib.Omega.{arith}
use c4harness.Base.Equality.{Bool-cases, ltb, if◌then◌else◌, string_eq}
use c4harness.Base.Lists.{All, Nodup, contains, length}

-- `s <= t`
unfoldable pub str_le : String → String → Bool
str_le String.[] t = true
str_le (String.◌∷◌ c s) String.[] = false
str_le (String.◌∷◌ c s) (String.◌∷◌ d t) =
    let rest = str_le s t in
    if ltb (code c) (code d) then true else if ltb (code d) (code c) then false else rest

pub str_le_total : (s t : String) → str_le s t ≡ false → str_le t s ≡ true
unfolding str_le
str_le_total String.[] t h = ground arith
str_le_total (String.◌∷◌ c s) String.[] h = refl
str_le_total (String.◌∷◌ c s) (String.◌∷◌ d t) h = ground (arith, str_le_total s t)

unfoldable pub insert_sorted : String → List String → List String
insert_sorted s [] = s ∷ []
insert_sorted s (t ∷ ts) =
    let rest = insert_sorted s ts in if str_le s t then s ∷ t ∷ ts else t ∷ rest

-- `sorted(xs)`
unfoldable pub sorted : List String → List String
unfolding insert_sorted
sorted [] = []
sorted (x ∷ xs) = insert_sorted x (sorted xs)

pub str_le_trans : (s t u : String) → str_le s t ≡ true → str_le t u ≡ true → str_le s u ≡ true
unfolding str_le
str_le_trans String.[] t u h k = refl
str_le_trans (String.◌∷◌ c s) String.[] u h k = cc
str_le_trans (String.◌∷◌ c s) (String.◌∷◌ d t) String.[] h k = cc
str_le_trans (String.◌∷◌ c s) (String.◌∷◌ d t) (String.◌∷◌ e u) h k =
    ground (arith, str_le_trans s t u)

abbrev pub IsSorted : List String → Type 0
IsSorted [] = Unit
IsSorted (x ∷ xs) = All (λ y. str_le x y ≡ true) xs × IsSorted xs

All-str_le_trans :
    (s t : String) (xs : List String)
    → str_le s t ≡ true
    → All (λ y. str_le t y ≡ true) xs
    → All (λ y. str_le s y ≡ true) xs
All-str_le_trans s t [] h k = tt
All-str_le_trans s t (x ∷ xs) h k = (str_le_trans s t x h k.0, All-str_le_trans s t xs h k.1)

All-insert_sorted :
    (x s : String) (xs : List String)
    → str_le x s ≡ true
    → All (λ y. str_le x y ≡ true) xs
    → All (λ y. str_le x y ≡ true) (insert_sorted s xs)
unfolding insert_sorted
All-insert_sorted x s [] h k = (h, tt)
All-insert_sorted x s (t ∷ ts) h k = elim (Bool-cases (str_le s t)) [
  | inl before ↦ rw before (h, k)
  | inr after ↦ rw after (k.0, All-insert_sorted x s ts h k.1)
]

insert_sorted-IsSorted :
    (s : String) (xs : List String) → IsSorted xs → IsSorted (insert_sorted s xs)
unfolding insert_sorted
insert_sorted-IsSorted s [] h = (tt, tt)
insert_sorted-IsSorted s (x ∷ xs) h = elim (Bool-cases (str_le s x)) [
  | inl before ↦ rw before ((before, All-str_le_trans s x xs before h.0), h)
  | inr after ↦
      rw after
        (All-insert_sorted x s xs (str_le_total s x after) h.0, insert_sorted-IsSorted s xs h.1)
]

pub sorted-IsSorted : (xs : List String) → IsSorted (sorted xs)
unfolding sorted
sorted-IsSorted [] = tt
sorted-IsSorted (x ∷ xs) = insert_sorted-IsSorted x (sorted xs) (sorted-IsSorted xs)

contains-insert_sorted :
    (s : String) (xs : List String) (a : String)
    → (contains (insert_sorted s xs) a ≡ true) ↔ ((a ≡ s) ⊎ (contains xs a ≡ true))
unfolding insert_sorted contains
contains-insert_sorted s [] a = ground arith
contains-insert_sorted s (x ∷ xs) a = ground (arith, contains-insert_sorted s xs a)

pub contains-sorted :
    (xs : List String) (a : String) → (contains (sorted xs) a ≡ true) ↔ (contains xs a ≡ true)
unfolding sorted contains
contains-sorted [] a = ground arith
contains-sorted (x ∷ xs) a =
    ground (arith, contains-insert_sorted x (sorted xs) a, contains-sorted xs a)

length-insert_sorted :
    (s : String) (xs : List String) → length (insert_sorted s xs) ≡ suc (length xs)
unfolding insert_sorted
length-insert_sorted s [] = refl
length-insert_sorted s (x ∷ xs) = ground (arith, length-insert_sorted s xs)

pub length-sorted : (xs : List String) → length (sorted xs) ≡ length xs
unfolding sorted
length-sorted [] = refl
length-sorted (x ∷ xs) = ground (arith, length-insert_sorted x (sorted xs), length-sorted xs)

insert_sorted-Nodup :
    (s : String) (xs : List String) → contains xs s ≡ false → Nodup xs → Nodup (insert_sorted s xs)
unfolding insert_sorted contains
insert_sorted-Nodup s [] h k = ground arith
insert_sorted-Nodup s (x ∷ xs) h k =
    ground (arith, insert_sorted-Nodup s xs, contains-insert_sorted s xs x)

pub sorted-Nodup : (xs : List String) → Nodup xs → Nodup (sorted xs)
unfolding sorted
sorted-Nodup [] h = tt
sorted-Nodup (x ∷ xs) h =
    insert_sorted-Nodup x (sorted xs) (ground (arith, contains-sorted xs x, h.0))
      (sorted-Nodup xs h.1)
