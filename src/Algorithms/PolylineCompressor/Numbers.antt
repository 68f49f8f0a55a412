-- ===== src/Algorithms/PolylineCompressor/Numbers.antt =====
-- osrm-backend/algorithms/polyline_compressor.cpp: a single number, encoded and read again.
use native.Mathlib.Nat.{mod-eq_of_lt}
use maiden.Prelude.{
  ◌^◌, ◌<◌, ℕ, zero, suc, ◌+◌, ◌*◌, ◌/◌, ◌%◌, ◌≤◌, ◌≡◌, ap, ◌∙◌, true, false, some, List, ◌++◌, leb,
  length, arith, Bool-cases, inl, inr,
}
use maiden.Prelude.Int.{ℤ, pos, negsuc, ◌+ℤ◌, ◌-ℤ◌, wrap_32, wrap_32-IsInt, IsInt, IsWithin}
use maiden.Algorithms.PolylineCompressor.{
  encode_loop, encode_number, without_sign, goes_on, read_number, with_sign,
}

weigh : (n w : ℕ) → n % 32 * w + n / 32 * (w * 32) ≡ n * w
weigh n w =
    let whole : n ≡ n % 32 + n / 32 * 32 = omega arith in grind (arith, ap (λ m. m * w) whole)

read_number-encode_loop :
    (fuel n w acc : ℕ) (rest : List ℕ)
    → n ≤ fuel
    → acc + n * w < 2 ^ 32
    → read_number (encode_loop fuel n ++ rest) w acc ≡ some (acc + n * w, rest)
unfolding encode_loop read_number
read_number-encode_loop zero n w acc rest h fits =
    let first : (n + 63 + 1) % 32 ≡ n = omega arith in
    let stop : goes_on (n + 63) ≡ false = ground arith in
    rw (stop, read_number, first) (ap (λ m. some (m, rest)) (mod-eq_of_lt fits))
read_number-encode_loop (suc fuel) n w acc rest h fits = elim (Bool-cases (leb 32 n)) [
  | inl long ↦
      let first : (32 + n % 32 + 63 + 1) % 32 ≡ n % 32 = omega arith in
      let more : goes_on (32 + n % 32 + 63) ≡ true = ground arith in
      let sum : acc + n % 32 * w + n / 32 * (w * 32) ≡ acc + n * w = omega (arith, weigh n w) in
      let kept : (acc + n % 32 * w) % 2 ^ 32 ≡ acc + n % 32 * w =
        mod-eq_of_lt (omega (arith, sum, fits)) in
      rw (long, encode_loop, more, read_number, first, kept)
        (read_number-encode_loop fuel (n / 32) (w * 32) (acc + n % 32 * w) rest (omega arith)
            (omega (arith, sum, fits))
          ∙ ap (λ m. some (m, rest)) sum)
  | inr short ↦
      let first : (n + 63 + 1) % 32 ≡ n = ground arith in
      let stop : goes_on (n + 63) ≡ false = ground arith in
      rw (short, encode_loop, stop, read_number, first)
        (ap (λ m. some (m, rest)) (mod-eq_of_lt fits))
]

-- An int that can be doubled, and what is encoded for it.
abbrev pub IsHalf : ℤ → Type 0
IsHalf = IsWithin (2 ^ 30)

abbrev pub doubled : ℤ → ℕ
doubled x = without_sign (wrap_32 (x +ℤ x))

IsInt-twice : (x : ℤ) → IsHalf x → IsInt (x +ℤ x)
unfolding ◌+ℤ◌
IsInt-twice (pos n) h = ground arith
IsInt-twice (negsuc n) h = ground arith

with_sign-twice :
    (x : ℤ) → IsHalf x → (with_sign (without_sign (x +ℤ x)) ≡ x) × (without_sign (x +ℤ x) < 2 ^ 31)
unfolding ◌+ℤ◌
with_sign-twice (pos n) h = ground arith
with_sign-twice (negsuc n) h = ground arith

pub with_sign-doubled : (x : ℤ) → IsHalf x → (with_sign (doubled x) ≡ x) × (doubled x < 2 ^ 31)
with_sign-doubled x h = rw (wrap_32-IsInt (x +ℤ x) (IsInt-twice x h)) (with_sign-twice x h)

-- A coordinate whose differences can be doubled.
abbrev pub IsQuarter : ℤ → Type 0
IsQuarter = IsWithin (2 ^ 29)

pub back : (x y : ℤ) → IsQuarter x → IsQuarter y → (x +ℤ (y -ℤ x) ≡ y) × IsHalf (y -ℤ x)
unfolding ◌+ℤ◌ ◌-ℤ◌
back (pos m) (pos n) h k = ground arith
back (pos m) (negsuc n) h k = ground arith
back (negsuc m) (pos n) h k = ground arith
back (negsuc m) (negsuc n) h k = ground arith

pub length-encode_number : (n : ℕ) → 1 ≤ length (encode_number n)
unfolding encode_number
length-encode_number n = length-encode_loop n n
  where
    length-encode_loop : (fuel n : ℕ) → 1 ≤ length (encode_loop fuel n)
    length-encode_loop zero n = omega arith
    length-encode_loop (suc fuel) n = ground arith

pub read-encode :
    (x : ℤ) (cs : List ℕ)
    → IsHalf x
    → read_number (encode_number (doubled x) ++ cs) 1 0 ≡ some (doubled x, cs)
unfolding encode_number
read-encode x cs h =
    let n = doubled x in
    let value : 0 + n * 1 ≡ n = omega arith in
    let fits = (with_sign-doubled x h).1 in
    read_number-encode_loop n n 1 0 cs (omega arith) (omega (arith, fits))
    ∙ ap (λ m. some (m, cs)) value
