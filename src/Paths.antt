-- ===== src/Paths.antt =====
-- What the program uses of `pathlib.PurePosixPath`: the parts of a path, its text, and the overlap
-- of two paths, which c4harness/delegator/scheduler.py and c4harness/integrator/conflicts.py each
-- define for themselves, in the same words.
pub mod Overlap
use Prim.Native.Char.{Char, code}
use Prim.Native.String.{◌++◌ as ◌<>◌}
use c4harness.Base.{
  ℕ, zero, suc, String, Bool, true, false, not, ◌&&◌, ◌||◌, Option, none, some, List, [], ◌∷◌, ◌==◌,
  string_eq, leb, length, filter, if◌then◌else◌,
}

-- `c == d` of two characters, by their code points
abbrev is_char : ℕ → Char → Bool
is_char n c = leb n (code c) && leb (code c) n

-- The text up to each occurrence of the character: `text.split(c)`.
cons_first : Char → List String → List String
cons_first c [] = (String.◌∷◌ c String.[]) ∷ []
cons_first c (s ∷ rest) = (String.◌∷◌ c s) ∷ rest

unfoldable pub split : ℕ → String → List String
unfolding cons_first
split n String.[] = "" ∷ []
split n (String.◌∷◌ c s) =
    let rest = split n s in if is_char n c then "" ∷ rest else cons_first c rest

-- The root of a path: "", "/", or "//" for exactly two slashes.
unfoldable pub root_of : String → String
root_of (String.◌∷◌ a (String.◌∷◌ b (String.◌∷◌ c s))) =
    if not (is_char b'/' a)
    then ""
    else if is_char b'/' b && not (is_char b'/' c)
    then "//"
    else "/"
root_of (String.◌∷◌ a (String.◌∷◌ b String.[])) =
    if not (is_char b'/' a) then "" else if is_char b'/' b then "//" else "/"
root_of (String.◌∷◌ a String.[]) = if is_char b'/' a then "/" else ""
root_of String.[] = ""

-- `PurePosixPath(text).parts`
unfoldable pub parts : String → List String
unfolding split root_of
parts text =
    let names = filter (λ p. not (p == "" || p == ".")) (split b'/' text) in
    if root_of text == "" then names else root_of text ∷ names

join_names : List String → String
join_names [] = ""
join_names (x ∷ []) = x
join_names (x ∷ xs) = x <> "/" <> join_names xs

-- `PurePosixPath(text).as_posix()`
unfoldable pub as_posix : String → String
unfolding parts join_names
as_posix text =
    let names = filter (λ p. not (p == "" || p == ".")) (split b'/' text) in
    if root_of text == "" && (join_names names == "") then "." else root_of text <> join_names names

-- `parts[:n]`
abbrev pub take {ℓ} : {A : Type ℓ} → ℕ → List A → List A
take zero xs = []
take (suc n) [] = []
take (suc n) (x ∷ xs) = x ∷ take n xs

unfoldable pub list_eq : List String → List String → Bool
list_eq [] [] = true
list_eq (x ∷ xs) (y ∷ ys) = x == y && list_eq xs ys
list_eq _ _ = false

abbrev pub min_len : ℕ → ℕ → ℕ
min_len a b = if leb a b then a else b

-- `_paths_overlap`, `_write_paths_overlap`
unfoldable pub parts_overlap : List String → List String → Bool
unfolding list_eq
parts_overlap left right =
    let shorter = min_len (length left) (length right) in
    list_eq (take shorter left) (take shorter right)

unfoldable pub paths_overlap : String → String → Bool
unfolding parts_overlap
paths_overlap left right = parts_overlap (parts left) (parts right)
