-- ===== src/Vm/Text.antt =====
-- The text functions of the Rust library that the VM calls, and `trim_quotes` of the executor.
pub mod Numerals
use Prim.Native.Char.{code}
use Prim.Native.String.{[], ◌∷◌, slice, ◌++◌}
use tinypipe.Prelude.{
  ℕ, zero, suc, ◌+◌, ◌-◌, ◌*◌, ◌/◌, ◌%◌, ◌^◌, String, Bool, true, false, ◌&&◌, ◌||◌, Option, none,
  some, List, ltb, leb, ◌==◌, if◌then◌else◌,
}
use tinypipe.Api.Int.{ℤ, pos, negsuc}

-- Decimal digits of a number; the fuel `n + 1` is more than the number of digits.
decimal_digits : ℕ → ℕ → String
decimal_digits zero n = []
decimal_digits (suc fuel) n =
    let rest = decimal_digits fuel (n / 10) in
    let last = slice "0123456789" (n % 10) (n % 10 + 1) in if ltb n 10 then last else rest ++ last

unfoldable pub decimal : ℕ → String
unfolding decimal_digits
decimal n = decimal_digits (n + 1) n

unfoldable pub decimal_ℤ : ℤ → String
unfolding decimal
decimal_ℤ (pos n) = decimal n
decimal_ℤ (negsuc n) = "-" ++ decimal (n + 1)

unfoldable pub is_empty : String → Bool
is_empty [] = true
is_empty (c ∷ s) = false

unfoldable pub length : String → ℕ
length [] = 0
length (c ∷ s) = suc (length s)

reverse_onto : String → String → String
reverse_onto [] acc = acc
reverse_onto (c ∷ s) acc = reverse_onto s (c ∷ acc)

-- `c == '"' || c == '\\'`
is_quote : ℕ → Bool
is_quote c = c == 34 || c == 92

drop_quotes : String → String
unfolding is_quote
drop_quotes [] = []
drop_quotes (c ∷ s) = let rest = drop_quotes s in if is_quote (code c) then rest else c ∷ s

-- `trim_quotes`: `value.trim_matches(|c| c == '"' || c == '\\')`
unfoldable pub trim_quotes : String → String
unfolding drop_quotes reverse_onto
trim_quotes s = reverse_onto (drop_quotes (reverse_onto (drop_quotes s) [])) []

unfoldable pub strip_prefix : String → String → Option String
strip_prefix [] s = some s
strip_prefix (p ∷ ps) [] = none
strip_prefix (p ∷ ps) (c ∷ s) =
    let rest = strip_prefix ps s in if code p == code c then rest else none

-- `[String]::join`
unfoldable pub join : String → List String → String
join separator List.[] = ""
join separator (List.◌∷◌ s List.[]) = s
join separator (List.◌∷◌ s (List.◌∷◌ t rest)) = s ++ separator ++ join separator (List.◌∷◌ t rest)

-- `trim_start_matches`, which takes the prefix off again and again. A prefix that is not empty
-- shortens the text, so the text's length is fuel enough.
trim_start : ℕ → String → String → String
unfolding strip_prefix
trim_start zero p s = s
trim_start (suc fuel) p s = elim (strip_prefix p s) [
  | none ↦ s
  | some rest ↦ trim_start fuel p rest
]

unfoldable pub trim_start_matches : String → String → String
unfolding trim_start length
trim_start_matches p s = trim_start (length s) p s

lower : ℕ → ℕ
lower c = if leb 65 c && leb c 90 then c + 32 else c

unfoldable pub eq_ignore_ascii_case : String → String → Bool
unfolding lower
eq_ignore_ascii_case [] [] = true
eq_ignore_ascii_case [] (d ∷ t) = false
eq_ignore_ascii_case (c ∷ s) [] = false
eq_ignore_ascii_case (c ∷ s) (d ∷ t) = lower (code c) == lower (code d) && eq_ignore_ascii_case s t

is_digit : ℕ → Bool
is_digit c = leb 48 c && leb c 57

-- The value of a text of digits, after the digits read so far.
digits : ℕ → String → Option ℕ
unfolding is_digit
digits n [] = some n
digits n (c ∷ s) =
    let rest = digits (n * 10 + (code c - 48)) s in if is_digit (code c) then rest else none

digits_of : String → Option ℕ
unfolding digits
digits_of [] = none
digits_of (c ∷ s) = digits 0 (c ∷ s)

-- the sign and the rest
drop_sign : ℕ → String → Option String
drop_sign sign [] = none
drop_sign sign (c ∷ s) = if code c == sign then some s else none

in_range : ℕ → Option ℕ → Option ℕ
in_range bound none = none
in_range bound (some n) = if ltb n bound then some n else none

-- `str::parse::<u32>`
unfoldable pub parse_u32 : String → Option ℕ
unfolding digits_of drop_sign in_range
parse_u32 s = elim (drop_sign 43 s) [
  | none ↦ in_range (2 ^ 32) (digits_of s)
  | some rest ↦ in_range (2 ^ 32) (digits_of rest)
]

negate : ℕ → ℤ
negate zero = pos 0
negate (suc n) = negsuc n

positive : Option ℕ → Option ℤ
positive none = none
positive (some n) = some (pos n)

negative : Option ℕ → Option ℤ
unfolding negate
negative none = none
negative (some n) = some (negate n)

after_plus : Option String → String → String
after_plus none s = s
after_plus (some rest) s = rest

-- what stands behind a minus, if there is one, and the whole text
after_minus : Option String → String → Option ℤ
unfolding digits_of drop_sign in_range positive negative after_plus
after_minus (some rest) s = negative (in_range (2 ^ 63 + 1) (digits_of rest))
after_minus none s = positive (in_range (2 ^ 63) (digits_of (after_plus (drop_sign 43 s) s)))

-- `str::parse::<i64>`
unfoldable pub parse_i64 : String → Option ℤ
unfolding after_minus drop_sign
parse_i64 s = after_minus (drop_sign 45 s) s

-- `chars().all`
unfoldable pub all_chars : (ℕ → Bool) → String → Bool
all_chars p [] = true
all_chars p (c ∷ s) = p (code c) && all_chars p s

-- `str::parse::<u64>`
unfoldable pub parse_u64 : String → Option ℕ
unfolding digits_of drop_sign in_range after_plus
parse_u64 s = in_range (2 ^ 64) (digits_of (after_plus (drop_sign 43 s) s))
