-- ===== src/Api/Int.antt =====
-- `i64`, as an integer with the range that the checked operations test.
use tinypipe.Prelude.{
  ℕ, zero, suc, ◌+◌, ◌-◌, ◌*◌, ◌/◌, ◌^◌, Bool, true, false, not, Option, none, some, ltb, leb, ◌==◌,
  ◌&&◌, if◌then◌else◌,
}

-- `negsuc n` is -(n + 1).
pub data ℤ : Type 0 where
  pos : ℕ → ℤ
  negsuc : ℕ → ℤ

abbrev pub pos_part : ℤ → ℕ
pos_part (pos n) = n
pos_part (negsuc n) = 0

abbrev pub neg_part : ℤ → ℕ
neg_part (pos n) = 0
neg_part (negsuc n) = suc n

abbrev pub sub_ℕ : ℕ → ℕ → ℤ
sub_ℕ a b = if leb b a then pos (a - b) else negsuc (b - a - 1)

infixl 65 ◌+ℤ◌
abbrev pub ◌+ℤ◌ : ℤ → ℤ → ℤ
a +ℤ b = sub_ℕ (pos_part a + pos_part b) (neg_part a + neg_part b)

abbrev pub fits_i64 : ℤ → Bool
fits_i64 (pos n) = ltb n (2 ^ 63)
fits_i64 (negsuc n) = ltb n (2 ^ 63)

-- `i64::checked_add`
unfoldable pub checked_add : ℤ → ℤ → Option ℤ
checked_add a b = let c = a +ℤ b in if fits_i64 c then some c else none

abbrev pub eq_ℤ : ℤ → ℤ → Bool
eq_ℤ a b = pos_part a == pos_part b && neg_part a == neg_part b

abbrev pub is_negative : ℤ → Bool
is_negative (pos n) = false
is_negative (negsuc n) = true

-- a sign and a magnitude
abbrev pub signed : Bool → ℕ → ℤ
signed false n = pos n
signed true zero = pos 0
signed true (suc n) = negsuc n

abbrev pub negate_ℤ : ℤ → ℤ
negate_ℤ a = signed (not (is_negative a)) (pos_part a + neg_part a)

unfoldable pub in_i64 : ℤ → Option ℤ
in_i64 c = if fits_i64 c then some c else none

-- `i64::checked_sub`, `checked_mul` and `checked_div`
unfoldable pub checked_sub : ℤ → ℤ → Option ℤ
unfolding in_i64
checked_sub a b = in_i64 (a +ℤ negate_ℤ b)

same_sign : ℤ → ℤ → Bool
same_sign a b = if is_negative a then is_negative b else not (is_negative b)

unfoldable pub product : ℤ → ℤ → ℤ
unfolding same_sign
product a b = signed (not (same_sign a b)) ((pos_part a + neg_part a) * (pos_part b + neg_part b))

-- rounded towards zero
unfoldable pub quotient : ℤ → ℤ → ℤ
unfolding same_sign
quotient a b = signed (not (same_sign a b)) ((pos_part a + neg_part a) / (pos_part b + neg_part b))

unfoldable pub checked_mul : ℤ → ℤ → Option ℤ
unfolding in_i64 product
checked_mul a b = in_i64 (product a b)

unfoldable pub checked_div : ℤ → ℤ → Option ℤ
unfolding in_i64 quotient
checked_div a b = if eq_ℤ b (pos 0) then none else in_i64 (quotient a b)
