-- ===== src/Algorithms/PolylineCompressor/RoundTrip.antt =====
-- osrm-backend/algorithms/polyline_compressor.cpp: decoding what was encoded.
use maiden.Prelude.{
  All, ℕ, zero, suc, ◌≤◌, ◌≡◌, refl, ap, ◌∙◌, some, List, [], ◌∷◌, ◌++◌, if◌then◌else◌, length,
  length-append, arith, Bool-cases, inl, inr,
}
use maiden.Prelude.Int.{ℤ, pos, negsuc, ◌+ℤ◌, ◌-ℤ◌, wrap_32, wrap_32-IsInt, IsInt}
use maiden.Algorithms.PolylineCompressor.{
  Coordinate, SegmentInformation, encode_number, encode_vector, delta_numbers, get_encoded_string,
  read_number, with_sign, decode_from, decode_string, origin,
}
use maiden.Algorithms.PolylineCompressor.Numbers.{
  IsHalf, doubled, IsQuarter, with_sign-doubled, back, length-encode_number, read-encode,
}

-- The coordinates that are kept, scaled.
unfoldable pub kept : (ℤ → ℤ) → List SegmentInformation → List Coordinate
kept scale [] = []
kept scale (s ∷ segments) =
    let rest = kept scale segments in
    if s.necessary
    then record { lat = scale s.location.lat; lon = scale s.location.lon } ∷ rest
    else rest

decode_from-read :
    (scale : ℤ → ℤ) (fuel : ℕ) (lat lng : ℤ) (cs cs1 cs2 : List ℕ) (a b : ℕ) (r : List Coordinate)
    → read_number cs 1 0 ≡ some (a, cs1)
    → read_number cs1 1 0 ≡ some (b, cs2)
    → decode_from scale fuel (wrap_32 (lat +ℤ with_sign a)) (wrap_32 (lng +ℤ with_sign b)) cs2
      ≡ some r
    → decode_from scale (suc fuel) lat lng cs
      ≡ some (
          record {
            lat = scale (wrap_32 (lat +ℤ with_sign a));
            lon = scale (wrap_32 (lng +ℤ with_sign b));
          }
          ∷ r)
unfolding decode_from read_number
decode_from-read scale fuel lat lng [] cs1 cs2 a b r e f h = absurd (cc e)
decode_from-read scale fuel lat lng (c ∷ cs) cs1 cs2 a b r e f h = rw (e, decode_from, f, h) refl

abbrev point : (ℤ → ℤ) → ℤ → ℤ → Coordinate
point scale x y = record { lat = scale x; lon = scale y }

-- A coordinate of a line: its latitude and longitude are ints of 30 bits.
abbrev pub IsPlace : Coordinate → Type 0
IsPlace c = IsQuarter c.lat × IsQuarter c.lon

abbrev difference : ℤ → ℤ → ℤ
difference x y = wrap_32 (y -ℤ x)

-- What is decoded for a difference.
step :
    (x y : ℤ)
    → IsQuarter x
    → IsQuarter y
    → (wrap_32 (x +ℤ with_sign (doubled (difference x y))) ≡ y) × IsHalf (difference x y)
step x y h k =
    let (sum, half) = back x y h k in
    let whole : wrap_32 (y -ℤ x) ≡ y -ℤ x = wrap_32-IsInt (y -ℤ x) (IsHalf-IsInt (y -ℤ x) half) in
    rw (whole, (with_sign-doubled (y -ℤ x) half).0, sum)
      (wrap_32-IsInt y (IsHalf-IsInt y (IsQuarter-IsHalf y k)), half)
  where
    IsHalf-IsInt : (z : ℤ) → IsHalf z → IsInt z
    IsHalf-IsInt (pos n) h = omega arith
    IsHalf-IsInt (negsuc n) h = omega arith

    IsQuarter-IsHalf : (z : ℤ) → IsQuarter z → IsHalf z
    IsQuarter-IsHalf (pos n) h = omega arith
    IsQuarter-IsHalf (negsuc n) h = omega arith

decode_from-step :
    (scale : ℤ → ℤ) (fuel : ℕ) (p q : Coordinate) (cs : List ℕ) (r : List Coordinate)
    → IsPlace p
    → IsPlace q
    → decode_from scale fuel q.lat q.lon cs ≡ some r
    → decode_from scale (suc fuel) p.lat p.lon (
        encode_number (doubled (difference p.lat q.lat))
        ++ (encode_number (doubled (difference p.lon q.lon)) ++ cs))
      ≡ some (point scale q.lat q.lon ∷ r)
decode_from-step scale fuel p q cs r at next h =
    let x = difference p.lat q.lat in
    let y = difference p.lon q.lon in
    let a = doubled x in
    let b = doubled y in
    let (there, x_half) = step p.lat q.lat at.0 next.0 in
    let (across, y_half) = step p.lon q.lon at.1 next.1 in
    decode_from-read scale fuel p.lat p.lon (encode_number a ++ (encode_number b ++ cs))
      (encode_number b ++ cs) cs a b r (read-encode x (encode_number b ++ cs) x_half)
      (read-encode y cs y_half)
      (ap (λ d. decode_from scale fuel d (wrap_32 (p.lon +ℤ with_sign b)) cs) there
        ∙ ap (λ d. decode_from scale fuel q.lat d cs) across
        ∙ h)
    ∙ ap (λ d. some (point scale d (wrap_32 (p.lon +ℤ with_sign b)) ∷ r)) there
    ∙ ap (λ d. some (point scale q.lat d ∷ r)) across

further :
    (scale : ℤ → ℤ) (s : SegmentInformation) (segments : List SegmentInformation) (fuel : ℕ)
    (p : Coordinate)
    → IsPlace p
    → IsPlace s.location
    → ((f : ℕ)
        → length (encode_vector (delta_numbers s.location segments)) ≤ f
        → decode_from scale f s.location.lat s.location.lon
            (encode_vector (delta_numbers s.location segments))
          ≡ some (kept scale segments))
    → length (
        encode_vector (
          difference p.lat s.location.lat
          ∷ difference p.lon s.location.lon
          ∷ delta_numbers s.location segments))
      ≤ fuel
    → decode_from scale fuel p.lat p.lon (
        encode_vector (
          difference p.lat s.location.lat
          ∷ difference p.lon s.location.lon
          ∷ delta_numbers s.location segments))
      ≡ some (point scale s.location.lat s.location.lon ∷ kept scale segments)
unfolding encode_vector
further scale s segments zero p at next ih h =
    let x = doubled (difference p.lat s.location.lat) in
    let rest =
      encode_vector (difference p.lon s.location.lon ∷ delta_numbers s.location segments) in
    absurd (omega (arith, length-append (encode_number x) rest, length-encode_number x))
further scale s segments (suc fuel) p at next ih h =
    let x = doubled (difference p.lat s.location.lat) in
    let a = encode_number x in
    let b = encode_number (doubled (difference p.lon s.location.lon)) in
    let cs = encode_vector (delta_numbers s.location segments) in
    decode_from-step scale fuel p s.location cs (kept scale segments) at next (
      ih fuel
        (omega (arith, length-append a (b ++ cs), length-append b cs, length-encode_number x)))

decode_from-encode_vector :
    (scale : ℤ → ℤ) (segments : List SegmentInformation) (fuel : ℕ) (p : Coordinate)
    → IsPlace p
    → All (λ s. IsPlace s.location) segments
    → length (encode_vector (delta_numbers p segments)) ≤ fuel
    → decode_from scale fuel p.lat p.lon (encode_vector (delta_numbers p segments))
      ≡ some (kept scale segments)
unfolding encode_vector delta_numbers kept decode_from
decode_from-encode_vector scale [] fuel p at places h = refl
decode_from-encode_vector scale (s ∷ segments) fuel p at places h = elim (Bool-cases s.necessary) [
  | inr skipped ↦
      rw (skipped, delta_numbers, kept)
        (decode_from-encode_vector scale segments fuel p at places.1 (simp skipped at h))
  | inl necessary ↦
      rw (necessary, delta_numbers, kept, encode_vector)
        (further scale s segments fuel p at places.0
          (λ f k. decode_from-encode_vector scale segments f s.location places.0 places.1 k)
          (simp necessary at h))
]

-- Decoding the text of a line, with each latitude and longitude at least -2^29 and below 2^29, gives the
-- coordinates of its necessary segments, in order, each scaled as decode_string scales what it reads.
pub decode_string-get_encoded_string :
    (scale : ℤ → ℤ) (polyline : List SegmentInformation)
    → All (λ s. IsPlace s.location) polyline
    → decode_string scale (get_encoded_string polyline) ≡ some (kept scale polyline)
unfolding decode_string get_encoded_string
decode_string-get_encoded_string scale polyline places =
    decode_from-encode_vector scale polyline (length (get_encoded_string polyline)) origin
      (omega arith, omega arith) places (omega arith)
