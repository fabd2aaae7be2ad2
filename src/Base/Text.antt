-- ===== src/Base/Text.antt =====
-- Python's methods of texts, by their characters.
use Prim.Native.Char.{code, len_utf8}
use Prim.Native.Nat.{ℕ, zero, suc, ◌+◌, ◌/◌, ◌%◌}
use Prim.Native.String.{String}
use Prim.Native.String.{◌++◌ as ◌<>◌}
use mathlib.Core.List.{List, [], ◌∷◌}
use mathlib.Core.Bool.{Bool, true, false, ◌&&◌, ◌||◌}
use mathlib.Core.Option.{Option, none, some}
use c4harness.Base.Equality.{leb, ltb, if◌then◌else◌, ◌==◌, string_eq}

-- `text.split(sep, 1)[0]`, where `sep` is the character with the code `n`
unfoldable pub text_before : ℕ → String → String
text_before n String.[] = ""
text_before n (String.◌∷◌ c s) =
    let rest = text_before n s in if leb n (code c) && leb (code c) n then "" else String.◌∷◌ c rest

-- `text.split(sep, 1)[1]`, if `sep` occurs in the text
unfoldable pub text_after : ℕ → String → Option String
text_after n String.[] = none
text_after n (String.◌∷◌ c s) =
    let rest = text_after n s in if leb n (code c) && leb (code c) n then some s else rest

digit : ℕ → String
digit n =
    if leb n 0
    then "0"
    else if leb n 1
    then "1"
    else if leb n 2
    then "2"
    else if leb n 3
    then "3"
    else if leb n 4
    then "4"
    else if leb n 5
    then "5"
    else if leb n 6
    then "6"
    else if leb n 7
    then "7"
    else if leb n 8
    then "8"
    else "9"

digits : ℕ → ℕ → String
digits zero n = ""
digits (suc fuel) n =
    let front = digits fuel (n / 10) in if ltb n 10 then digit n else front <> digit (n % 10)

-- `str(n)`
unfoldable pub decimal : ℕ → String
unfolding digits digit
decimal n = digits (suc n) n

-- `text.startswith(start)`, `text.endswith(suffix)`, and `part in text`
unfoldable pub starts_with : String → String → Bool
starts_with String.[] text = true
starts_with (String.◌∷◌ c start) String.[] = false
starts_with (String.◌∷◌ c start) (String.◌∷◌ d text) =
    let rest = starts_with start text in (leb (code c) (code d) && leb (code d) (code c)) && rest

unfoldable pub ends_with : String → String → Bool
ends_with suffix String.[] = suffix == ""
ends_with suffix (String.◌∷◌ c s) =
    let rest = ends_with suffix s in suffix == String.◌∷◌ c s || rest

unfoldable pub has_text : String → String → Bool
unfolding starts_with
has_text part String.[] = starts_with part ""
has_text part (String.◌∷◌ c text) =
    let rest = has_text part text in starts_with part (String.◌∷◌ c text) || rest

-- `text.lstrip("/")` and `text.rstrip("/")`
unfoldable pub lstrip_slash : String → String
lstrip_slash String.[] = ""
lstrip_slash (String.◌∷◌ c s) =
    let rest = lstrip_slash s in if leb 47 (code c) && leb (code c) 47 then rest else String.◌∷◌ c s

unfoldable pub rstrip_slash : String → String
rstrip_slash String.[] = ""
rstrip_slash (String.◌∷◌ c s) =
    let rest = rstrip_slash s in
    if (leb 47 (code c) && leb (code c) 47) && rest == "" then "" else String.◌∷◌ c rest

-- `len(text.encode("utf-8"))`
unfoldable pub utf8_length : String → ℕ
utf8_length String.[] = 0
utf8_length (String.◌∷◌ c s) = len_utf8 c + utf8_length s

-- `text[:n]`
unfoldable pub text_take : ℕ → String → String
text_take zero s = ""
text_take (suc n) String.[] = ""
text_take (suc n) (String.◌∷◌ c s) = String.◌∷◌ c (text_take n s)

-- `text[n:]`
unfoldable pub text_drop : ℕ → String → String
text_drop zero s = s
text_drop (suc n) String.[] = ""
text_drop (suc n) (String.◌∷◌ c s) = text_drop n s

-- `text.rstrip("\r\n")`
unfoldable pub rstrip_newline : String → String
rstrip_newline String.[] = ""
rstrip_newline (String.◌∷◌ c s) =
    let rest = rstrip_newline s in
    if ((leb 10 (code c) && leb (code c) 10) || (leb 13 (code c) && leb (code c) 13)) && rest == ""
    then ""
    else String.◌∷◌ c rest

-- `"".join(lines)`
unfoldable pub concat : List String → String
concat [] = ""
concat (line ∷ lines) = line <> concat lines
