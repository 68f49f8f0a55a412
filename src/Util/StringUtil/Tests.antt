-- ===== src/Util/StringUtil/Tests.antt =====
-- osrm-backend/util/string_util.hpp, on short texts.
use maiden.Prelude.{none, inl, inr, List, [], ℕ, ◌≡◌, refl, false, some, ◌∷◌, ◌++◌, codes, arith}
use maiden.Util.StringUtil.{escape_letter, escape_json, uri_decode}
use maiden.Util.StringUtil.Json.{read_string, all_short, read_string-escape_json}
use maiden.Util.StringUtil.Uri.{IsEncoding, uri_decode-IsEncoding}

escaped : escape_json (codes "a/b") ≡ codes "a\\/b"
unfolding escape_json escape_letter
escaped = refl

read_string-escape_json_example :
    read_string false (escape_json (codes "a\\b" ++ 10 ∷ 9 ∷ []) ++ 34 ∷ codes "}")
    ≡ some (codes "a\\b" ++ 10 ∷ 9 ∷ [], codes "}")
unfolding all_short
read_string-escape_json_example = read_string-escape_json (codes "a\\b" ++ 10 ∷ 9 ∷ []) (codes "}")

-- A bell is left as it is.
raw_control : read_string false (escape_json (7 ∷ []) ++ 34 ∷ []) ≡ none
unfolding read_string escape_json escape_letter
raw_control = refl

decoded : uri_decode (codes "a%2fb%") ≡ codes "a/b%"
unfolding uri_decode
decoded = refl

-- The text "a/%", with its slash escaped by digits in lower case.
abbrev encoded : List ℕ
encoded = codes "a%2f%25"

encoded-IsEncoding : IsEncoding (codes "a/%") encoded
unfolding IsEncoding
encoded-IsEncoding = inl (
  codes "%2f%25",
  refl,
  (λ e. absurd (omega (arith, e))),
  inr (
    b'2',
    b'f',
    codes "%25",
    refl,
    inl (omega arith, omega arith),
    inr (omega arith, omega arith, inr (omega arith)),
    inr (
      b'2',
      b'5',
      [],
      refl,
      inl (omega arith, omega arith),
      inl (omega arith, omega arith),
      refl,
    ),
  ),
)

uri_decode-IsEncoding_example : uri_decode encoded ≡ codes "a/%"
uri_decode-IsEncoding_example = uri_decode-IsEncoding (codes "a/%") encoded encoded-IsEncoding
