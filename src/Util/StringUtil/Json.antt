-- ===== src/Util/StringUtil/Json.antt =====
-- osrm-backend/util/string_util.hpp: escape_JSON, read back by a reader of JSON texts. The reader takes
-- what the JSON grammar allows in a string, but for the escape with `u`, which escape_JSON never writes.
use mathlib.Core.List.{append_assoc}
use maiden.Prelude.{
  ℕ, ◌&&◌, ◌||◌, leb, ltb, ◌≡◌, refl, ap, ◌∙◌, Bool, true, false, Option, none, some, List, [], ◌∷◌,
  ◌++◌, ◌==◌, if◌then◌else◌, arith,
}
use maiden.Util.StringUtil.{escape_letter, escape_json}

-- What an escaped letter of JSON stands for; any other letter is no escape.
abbrev pub meaning : ℕ → Option ℕ
meaning c =
    if c == 34
    then some 34
    else if c == b'\\'
    then some b'\\'
    else if c == b'/'
    then some b'/'
    else if c == b'b'
    then some 8
    else if c == b'f'
    then some 12
    else if c == b'n'
    then some 10
    else if c == b'r'
    then some 13
    else if c == b't'
    then some 9
    else none

abbrev pub prepend : ℕ → Option (List ℕ × List ℕ) → Option (List ℕ × List ℕ)
prepend c none = none
prepend c (some r) = some (c ∷ r.0, r.1)

abbrev prepend_meaning : Option ℕ → Option (List ℕ × List ℕ) → Option (List ℕ × List ℕ)
prepend_meaning none r = none
prepend_meaning (some c) r = prepend c r

-- The text up to the closing quote, and what follows it; the flag is set behind a backslash. There is
-- none if a control character stands in the text by itself, or a letter that is no escape behind a
-- backslash.
unfoldable pub read_string : Bool → List ℕ → Option (List ℕ × List ℕ)
read_string escaped [] = none
read_string true (c ∷ cs) = prepend_meaning (meaning c) (read_string false cs)
read_string false (c ∷ cs) =
    let rest = read_string false cs in
    let escape = read_string true cs in
    if c == 34
    then some ([], cs)
    else if c == b'\\'
    then escape
    else if ltb c 32
    then none
    else prepend c rest

-- A char that has an escape by a letter, or needs none.
abbrev pub is_short : ℕ → Bool
is_short c = leb 32 c || (c == 8) || (c == 9) || (c == 10) || (c == 12) || (c == 13)

unfoldable pub all_short : List ℕ → Bool
all_short [] = true
all_short (c ∷ cs) = is_short c && all_short cs

read_string-escape_letter :
    (c : ℕ) (cs : List ℕ)
    → read_string false (escape_letter c ++ cs)
      ≡ (if is_short c then prepend c (read_string false cs) else none)
unfolding read_string escape_letter
read_string-escape_letter c cs = ground arith

read_quote : (rest : List ℕ) → read_string false (34 ∷ rest) ≡ some ([], rest)
unfolding read_string
read_quote rest = refl

join :
    (now later : Bool) (c : ℕ) (cs rest : List ℕ) (r : Option (List ℕ × List ℕ))
    → r ≡ (if later then some (cs, rest) else none)
    → (if now then prepend c r else none) ≡ (if now && later then some (c ∷ cs, rest) else none)
join true true c cs rest r h = ap (prepend c) h
join true false c cs rest r h = ap (prepend c) h
join false later c cs rest r h = refl

-- The escaped text between quotes is read back as the text, up to the closing quote, if each control
-- character of the text is one of those that JSON escapes by a letter (backspace, tab, line feed, form
-- feed, carriage return); with any other control character it is no JSON string.
pub read_string-escape_json :
    (cs rest : List ℕ)
    → read_string false (escape_json cs ++ 34 ∷ rest)
      ≡ (if all_short cs then some (cs, rest) else none)
unfolding escape_json all_short
read_string-escape_json [] rest = read_quote rest
read_string-escape_json (c ∷ cs) rest =
    let tail = escape_json cs ++ 34 ∷ rest in
    ap (read_string false) (append_assoc (escape_letter c) (escape_json cs) (34 ∷ rest))
    ∙ read_string-escape_letter c tail
    ∙ join (is_short c) (all_short cs) c cs rest (read_string false tail)
        (read_string-escape_json cs rest)
