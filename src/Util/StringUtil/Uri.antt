-- ===== src/Util/StringUtil/Uri.antt =====
-- osrm-backend/util/string_util.hpp: URIDecode, against the encodings of a text.
use maiden.Prelude.{
  ℕ, ◌≤◌, ◌≢◌, ◌⊎◌, ◌+◌, ◌*◌, ◌/◌, ◌%◌, ◌<◌, ◌≡◌, refl, ap, ◌∙◌, true, false, List, [], ◌∷◌, ◌==◌,
  arith, inl, inr,
}
use maiden.Util.StringUtil.{is_xdigit, digit_value, is_escape, uri_decode}

-- A hexadecimal digit for a value, in either case.
abbrev pub IsHexDigit : ℕ → ℕ → Type 0
IsHexDigit x d = ((d < 10) × (x ≡ d + 48)) ⊎ ((10 ≤ d) × (d < 16) × ((x ≡ d + 55) ⊎ (x ≡ d + 87)))

-- A text as an encoder may write it: each char as it is, if it is no percent sign, or escaped by two
-- digits in any case.
unfoldable pub IsEncoding : List ℕ → List ℕ → Type 0
IsEncoding [] es = es ≡ []
IsEncoding (c ∷ cs) es =
    ((ds : List ℕ) × (es ≡ c ∷ ds) × (c ≢ b'%') × IsEncoding cs ds)
    ⊎ ((x : ℕ) × (y : ℕ) × (ds : List ℕ) × (es ≡ b'%' ∷ x ∷ y ∷ ds)
        × IsHexDigit x (c / 16)
        × IsHexDigit y (c % 16)
        × IsEncoding cs ds)

IsHexDigit-value : (x d : ℕ) → IsHexDigit x d → (is_xdigit x ≡ true) × (digit_value x ≡ d) × (x ≢ 0)
IsHexDigit-value x d h = ground arith

uri_decode-plain :
    (c : ℕ) (cs : List ℕ) → (c == b'%') ≡ false → uri_decode (c ∷ cs) ≡ c ∷ uri_decode cs
unfolding uri_decode
uri_decode-plain c [] h = refl
uri_decode-plain c (a ∷ []) h = refl
uri_decode-plain c (a ∷ b ∷ cs) h = rw (h, uri_decode) refl

uri_decode-escaped :
    (x y a b : ℕ) (cs : List ℕ)
    → IsHexDigit x a
    → IsHexDigit y b
    → uri_decode (b'%' ∷ x ∷ y ∷ cs) ≡ (16 * a + b) ∷ uri_decode cs
unfolding uri_decode
uri_decode-escaped x y a b cs h k =
    let v = IsHexDigit-value x a h in
    let w = IsHexDigit-value y b k in
    let escape : is_escape b'%' x y ≡ true = ground (arith, v.0, v.2, w.0, w.2) in
    rw (escape, v.1, w.1) refl

-- URIDecode undoes any encoding of a text in which each char but the percent sign stands as it is or
-- is escaped, and the percent sign is escaped, with hexadecimal digits in either case.
pub uri_decode-IsEncoding : (cs es : List ℕ) → IsEncoding cs es → uri_decode es ≡ cs
unfolding IsEncoding uri_decode
uri_decode-IsEncoding [] es h = rw h refl
uri_decode-IsEncoding (c ∷ cs) es h = elim h [
  | inl (ds, eq, plain, rest) ↦
      ap uri_decode eq
      ∙ uri_decode-plain c ds (ground arith)
      ∙ ap (λ t. c ∷ t) (uri_decode-IsEncoding cs ds rest)
  | inr (x, y, ds, eq, hx, hy, rest) ↦
      let value : 16 * (c / 16) + c % 16 ≡ c = omega arith in
      ap uri_decode eq
      ∙ uri_decode-escaped x y (c / 16) (c % 16) ds hx hy
      ∙ ap (λ d. d ∷ uri_decode ds) value
      ∙ ap (λ t. c ∷ t) (uri_decode-IsEncoding cs ds rest)
]
