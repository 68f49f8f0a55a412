-- ===== src/Server/RequestParser/Stoi.antt =====
-- std::stoi, as the parser calls it: leading space, a sign, digits; what follows is ignored. `none`
-- stands for the exceptions invalid_argument (no digit) and out_of_range (not an int).
use maiden.Prelude.{
  ℕ, ◌+◌, ◌-◌, ◌*◌, ◌^◌, Bool, true, false, ◌||◌, ◌&&◌, Option, none, some, List, [], ◌∷◌, leb, ltb,
  ◌==◌, if◌then◌else◌,
}
use maiden.Prelude.Int.{ℤ, pos, sub_ℕ}
use maiden.Server.RequestParser.Classes.{is_digit}

is_space : ℕ → Bool
is_space c = (c == b' ') || (leb 9 c && leb c 13)

skip_space : List ℕ → List ℕ
skip_space [] = []
skip_space (c ∷ s) = if is_space c then skip_space s else c ∷ s

-- The value of the leading digits, from the value read so far.
digits_from : ℕ → List ℕ → ℕ
digits_from n [] = n
digits_from n (c ∷ s) = elim (is_digit c) [ true ↦ digits_from (n * 10 + (c - b'0')) s | false ↦ n ]

-- A number that does not fit an int is out of range.
to_int : Bool → ℕ → Option ℤ
to_int false n = if ltb n (2 ^ 31) then some (pos n) else none
to_int true n = if leb n (2 ^ 31) then some (sub_ℕ 0 n) else none

number : Bool → List ℕ → Option ℤ
number negative [] = none
number negative (c ∷ s) = if is_digit c then to_int negative (digits_from 0 (c ∷ s)) else none

sign : List ℕ → Option ℤ
sign [] = none
sign (c ∷ s) =
    if c == b'-' then number true s else if c == b'+' then number false s else number false (c ∷ s)

unfoldable pub stoi : List ℕ → Option ℤ
unfolding is_space skip_space digits_from to_int number sign
stoi s = sign (skip_space s)
