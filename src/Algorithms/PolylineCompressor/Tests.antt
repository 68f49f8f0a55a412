-- ===== src/Algorithms/PolylineCompressor/Tests.antt =====
-- osrm-backend/algorithms/polyline_compressor.cpp, on a line of three segments.
use maiden.Prelude.{◌≡◌, refl, arith, true, false, some, List, [], ◌∷◌, codes}
use maiden.Prelude.Int.{pos, negsuc, ◌+ℤ◌, wrap_32}
use maiden.Algorithms.PolylineCompressor.{
  SegmentInformation, get_encoded_string, decode_string, encode_vector, encode_number, encode_loop,
}
use maiden.Algorithms.PolylineCompressor.RoundTrip.{kept, decode_string-get_encoded_string}

abbrev line : List SegmentInformation
line =
    record { location = record { lat = pos 38500000; lon = negsuc 120199999 }; necessary = true }
    ∷ record { location = record { lat = pos 39000000; lon = pos 0 }; necessary = false }
    ∷ record { location = record { lat = pos 40700000; lon = negsuc 120949999 }; necessary = true }
    ∷ []

decode_string-get_encoded_string_example :
    decode_string (λ x. x) (get_encoded_string line) ≡ some (kept (λ x. x) line)
decode_string-get_encoded_string_example =
    decode_string-get_encoded_string (λ x. x) line (omega arith)

short : encode_vector (pos 1 ∷ negsuc 0 ∷ pos 16 ∷ []) ≡ codes "A@_@"
unfolding encode_vector encode_number encode_loop ◌+ℤ◌ wrap_32
short = refl
