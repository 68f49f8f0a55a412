-- ===== src/Util/StringUtil.antt =====
-- osrm-backend/util/string_util.hpp: the escapes of JSON texts and of URIs. A char is the number 0 to
-- 255 of its byte. URIDecode is modelled for an output that is not the input.
pub mod Json
pub mod Uri
mod Tests
use maiden.Prelude.{
  ℕ, ◌+◌, ◌-◌, ◌*◌, Bool, true, false, not, ◌&&◌, ◌||◌, List, [], ◌∷◌, ◌++◌, ltb, leb, ◌==◌,
  if◌then◌else◌,
}

-- The switch of escape_JSON.
unfoldable pub escape_letter : ℕ → List ℕ
escape_letter c =
    if c == b'\\'
    then b'\\' ∷ b'\\' ∷ []
    else if c == 34
    then b'\\' ∷ 34 ∷ []
    else if c == b'/'
    then b'\\' ∷ b'/' ∷ []
    else if c == 8
    then b'\\' ∷ b'b' ∷ []
    else if c == 12
    then b'\\' ∷ b'f' ∷ []
    else if c == 10
    then b'\\' ∷ b'n' ∷ []
    else if c == 13
    then b'\\' ∷ b'r' ∷ []
    else if c == 9
    then b'\\' ∷ b't' ∷ []
    else c ∷ []

unfoldable pub escape_json : List ℕ → List ℕ
unfolding escape_letter
escape_json [] = []
escape_json (c ∷ cs) = escape_letter c ++ escape_json cs

abbrev pub is_xdigit : ℕ → Bool
is_xdigit c = (leb b'0' c && leb c b'9') || (leb b'A' c && leb c b'F') || (leb b'a' c && leb c b'f')

-- `a -= a < 58 ? 48 : a < 71 ? 55 : 87`
abbrev pub digit_value : ℕ → ℕ
digit_value a = if ltb a 58 then a - 48 else if ltb a 71 then a - 55 else a - 87

abbrev pub is_escape : ℕ → ℕ → ℕ → Bool
is_escape c a b = (c == b'%') && not (a == 0) && not (b == 0) && is_xdigit a && is_xdigit b

-- Behind the last char stands a zero, which is no digit.
unfoldable pub uri_decode : List ℕ → List ℕ
uri_decode [] = []
uri_decode (c ∷ []) = c ∷ []
uri_decode (c ∷ a ∷ []) = c ∷ uri_decode (a ∷ [])
uri_decode (c ∷ a ∷ b ∷ cs) =
    let escaped = (16 * digit_value a + digit_value b) ∷ uri_decode cs in
    let plain = c ∷ uri_decode (a ∷ b ∷ cs) in if is_escape c a b then escaped else plain
