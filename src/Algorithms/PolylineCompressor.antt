-- ===== src/Algorithms/PolylineCompressor.antt =====
-- osrm-backend/algorithms/polyline_compressor.cpp: a line of coordinates as a text of differences.
-- The ints wrap at 32 bits; the result of a loop that decodes is the word that has its bits. A char is
-- the number 0 to 255 of its byte and is signed.
pub mod Numbers
pub mod RoundTrip
mod Tests
use maiden.Prelude.{
  ℕ, zero, suc, ◌+◌, ◌*◌, ◌/◌, ◌%◌, ◌^◌, Bool, true, false, ◌&&◌, Option, none, some, List, [], ◌∷◌,
  ◌++◌, ltb, leb, ◌==◌, if◌then◌else◌, length,
}
use maiden.Prelude.Int.{ℤ, pos, negsuc, ◌+ℤ◌, ◌-ℤ◌, complement, signed_32, shift_right, wrap_32}

pub record Coordinate : Type 0 where
  pub lat : ℤ
  pub lon : ℤ

pub record SegmentInformation : Type 0 where
  pub location : Coordinate
  pub necessary : Bool

-- encode_number's loop, on fuel.
unfoldable pub encode_loop : ℕ → ℕ → List ℕ
encode_loop zero n = (n + 63) ∷ []
encode_loop (suc fuel) n =
    let rest = encode_loop fuel (n / 32) in
    if leb 32 n then (32 + n % 32 + 63) ∷ rest else (n + 63) ∷ []

unfoldable pub encode_number : ℕ → List ℕ
unfolding encode_loop
encode_number n = encode_loop n n

-- `if (numbers[i] < 0) numbers[i] = ~(numbers[i])`
abbrev pub without_sign : ℤ → ℕ
without_sign (pos n) = n
without_sign (negsuc n) = n

unfoldable pub encode_vector : List ℤ → List ℕ
unfolding encode_number
encode_vector [] = []
encode_vector (x ∷ xs) = encode_number (without_sign (wrap_32 (x +ℤ x))) ++ encode_vector xs

unfoldable pub delta_numbers : Coordinate → List SegmentInformation → List ℤ
delta_numbers previous [] = []
delta_numbers previous (s ∷ segments) =
    let rest = delta_numbers s.location segments in
    let skipped = delta_numbers previous segments in
    if s.necessary
    then wrap_32 (s.location.lat -ℤ previous.lat) ∷ wrap_32 (s.location.lon -ℤ previous.lon) ∷ rest
    else skipped

abbrev pub origin : Coordinate
origin = record { lat = pos 0; lon = pos 0 }

unfoldable pub get_encoded_string : List SegmentInformation → List ℕ
unfolding encode_vector delta_numbers
get_encoded_string polyline = encode_vector (delta_numbers origin polyline)

-- `b >= 0x20` for b = char - 63
abbrev pub goes_on : ℕ → Bool
goes_on c = leb 95 c && ltb c 128

-- A loop of decode_string. `weight` is 1 << shift, and `b & 0x1f` is (char + 1) modulo 32; the bits
-- that are joined do not overlap. A shift by more bits than an int has, which C++ leaves undefined, joins
-- nothing. `none` is the exception of `at` behind the text.
unfoldable pub read_number : List ℕ → ℕ → ℕ → Option (ℕ × List ℕ)
read_number [] weight result = none
read_number (c ∷ cs) weight result =
    let next = (result + (c + 1) % 32 * weight) % 2 ^ 32 in
    let rest = read_number cs (weight * 32) next in if goes_on c then rest else some (next, cs)

-- `(result & 1) != 0 ? ~(result >> 1) : (result >> 1)`
abbrev pub with_sign : ℕ → ℤ
with_sign result =
    let half = shift_right (signed_32 result) in if result % 2 == 1 then complement half else half

module _ (scale : ℤ → ℤ) where
  -- decode_string's loop, on fuel; `scale` is the way down to degrees and up again in doubles.
  unfoldable pub decode_from : ℕ → ℤ → ℤ → List ℕ → Option (List Coordinate)
  unfolding read_number
  decode_from fuel lat lng [] = some []
  decode_from zero lat lng (c ∷ cs) = none
  decode_from (suc fuel) lat lng (c ∷ cs) = elim (read_number (c ∷ cs) 1 0) [
    | none ↦ none
    | some dlat ↦ elim (read_number dlat.1 1 0) [
      | none ↦ none
      | some dlng ↦
          elim (decode_from fuel (wrap_32 (lat +ℤ with_sign dlat.0))
            (wrap_32 (lng +ℤ with_sign dlng.0)) dlng.1) [
              | none ↦ none
              | some rest ↦ some (
                  record {
                    lat = scale (wrap_32 (lat +ℤ with_sign dlat.0));
                    lon = scale (wrap_32 (lng +ℤ with_sign dlng.0));
                  }
                  ∷ rest)
            ]
    ]
  ]

  unfoldable pub decode_string : List ℕ → Option (List Coordinate)
  unfolding decode_from
  decode_string geometry = decode_from (length geometry) (pos 0) (pos 0) geometry
