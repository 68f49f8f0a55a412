-- ===== src/Prelude/Int.antt =====
-- Signed integers over the native numbers, under the library's names (its ℤ stands on the unary ℕ).
use maiden.Prelude.{
  ℕ, suc, ◌+◌, ◌-◌, ◌%◌, ◌/◌, ◌^◌, ◌≤◌, ◌<◌, ◌≡◌, Bool, ltb, leb, if◌then◌else◌, arith,
}

-- `negsuc n` is -(n + 1).
pub data ℤ : Type 0 where
  pos : ℕ → ℤ
  negsuc : ℕ → ℤ

abbrev pub pos_part : ℤ → ℕ
pos_part (pos n) = n
pos_part (negsuc n) = 0

abbrev pub neg_part : ℤ → ℕ
neg_part (pos n) = 0
neg_part (negsuc n) = suc n

-- a - b, as an integer.
abbrev pub sub_ℕ : ℕ → ℕ → ℤ
sub_ℕ a b = if leb b a then pos (a - b) else negsuc (b - a - 1)

infixl 65 ◌+ℤ◌ ◌-ℤ◌
infix 50 ◌≤ℤ◌
unfoldable pub ◌+ℤ◌ : ℤ → ℤ → ℤ
a +ℤ b = sub_ℕ (pos_part a + pos_part b) (neg_part a + neg_part b)

unfoldable pub ◌-ℤ◌ : ℤ → ℤ → ℤ
a -ℤ b = sub_ℕ (pos_part a + neg_part b) (neg_part a + pos_part b)

abbrev pub ◌≤ℤ◌ : ℤ → ℤ → Type 0
a ≤ℤ b = pos_part a + neg_part b ≤ pos_part b + neg_part a

abbrev pub ltb_ℤ : ℤ → ℤ → Bool
ltb_ℤ a b = ltb (pos_part a + neg_part b) (pos_part b + neg_part a)

abbrev pub leb_ℤ : ℤ → ℤ → Bool
leb_ℤ a b = leb (pos_part a + neg_part b) (pos_part b + neg_part a)

-- `~x`
abbrev pub complement : ℤ → ℤ
complement (pos n) = negsuc n
complement (negsuc n) = pos n

-- The int of 32 bits that has the bits of a word, and an integer modulo 2^32 as such an int.
abbrev pub signed_32 : ℕ → ℤ
signed_32 w = if ltb w (2 ^ 31) then pos w else negsuc (2 ^ 32 - 1 - w)

unfoldable pub wrap_32 : ℤ → ℤ
wrap_32 (pos n) = signed_32 (n % 2 ^ 32)
wrap_32 (negsuc n) = complement (signed_32 (n % 2 ^ 32))

-- At least -b and below b.
abbrev pub IsWithin : ℕ → ℤ → Type 0
IsWithin b (pos n) = n < b
IsWithin b (negsuc n) = n < b

abbrev pub IsInt : ℤ → Type 0
IsInt = IsWithin (2 ^ 31)

-- `x >> 1`
abbrev pub shift_right : ℤ → ℤ
shift_right (pos n) = pos (n / 2)
shift_right (negsuc n) = negsuc (n / 2)

pub wrap_32-IsInt : (x : ℤ) → IsInt x → wrap_32 x ≡ x
unfolding wrap_32
wrap_32-IsInt (pos n) h = ground arith
wrap_32-IsInt (negsuc n) h = ground arith
