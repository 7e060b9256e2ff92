-- ===== src/Vm/Text/Numerals.antt =====
-- The decimal form of an `i64`, which constant folding writes and the VM reads: the round trip.
use Prim.Native.Char.{Char, code}
use Prim.Native.String.{String, [], ◌∷◌, ◌++◌, slice}
use Prim.Native.String.append
use mathlib.Core.Option.{some-injective, none-ne-some}
use tinypipe.Prelude.{
  ℕ, zero, suc, ◌==◌, ◌&&◌, ◌||◌, ◌+◌, ◌-◌, ◌*◌, ◌/◌, ◌%◌, ◌^◌, ◌<◌, ◌≡◌, refl, ap, ◌∙◌, sym, subst,
  Bool, true, false, Option, none, some, ltb, leb, arith, if◌then◌else◌, Bool-cases, inl, inr,
  Option-cases,
}
use tinypipe.Vm.Text.{
  decimal_digits, decimal, decimal_ℤ, digits, digits_of, drop_sign, in_range, negate, is_digit,
  is_empty, parse_i64, positive, negative, after_plus, after_minus, all_chars,
}
use tinypipe.Api.Int.{ℤ, pos, negsuc, fits_i64}

-- the one character of a digit
last_digit :
    (d : ℕ) → d < 10 → (k : ℕ) → digits k (slice "0123456789" d (d + 1)) ≡ some (k * 10 + d)
unfolding digits is_digit
last_digit zero lt k = ap some (omega arith)
last_digit (suc zero) lt k = ap some (omega arith)
last_digit (suc (suc zero)) lt k = ap some (omega arith)
last_digit (suc (suc (suc zero))) lt k = ap some (omega arith)
last_digit (suc (suc (suc (suc zero)))) lt k = ap some (omega arith)
last_digit (suc (suc (suc (suc (suc zero))))) lt k = ap some (omega arith)
last_digit (suc (suc (suc (suc (suc (suc zero)))))) lt k = ap some (omega arith)
last_digit (suc (suc (suc (suc (suc (suc (suc zero))))))) lt k = ap some (omega arith)
last_digit (suc (suc (suc (suc (suc (suc (suc (suc zero)))))))) lt k = ap some (omega arith)
last_digit (suc (suc (suc (suc (suc (suc (suc (suc (suc zero))))))))) lt k = ap some (omega arith)
last_digit (suc (suc (suc (suc (suc (suc (suc (suc (suc (suc d)))))))))) lt k = absurd (omega arith)

-- One more digit.
digits-append :
    (k : ℕ) (s t : String) (n : ℕ) → digits k s ≡ some n → digits k (s ++ t) ≡ digits n t
unfolding digits
digits-append k [] t n h =
    ap (digits k) (append.nil t) ∙ ap (λ m. digits m t) (some-injective _ _ h)
digits-append k (c ∷ s) t n h = rw (append.cons c s t) (elim (Bool-cases (is_digit (code c))) [
  | inl e ↦ rw e (
      digits-append (k * 10 + (code c - 48)) s t n
        (subst (λ b. (if b then digits (k * 10 + (code c - 48)) s else none) ≡ some n) e h))
  | inr e ↦ absurd (
      none-ne-some n
        (subst (λ b. (if b then digits (k * 10 + (code c - 48)) s else none) ≡ some n) e h))
])

decimal_digits-digits : (fuel n : ℕ) → n < fuel → digits 0 (decimal_digits fuel n) ≡ some n
unfolding decimal_digits
decimal_digits-digits zero n lt = absurd (omega arith)
decimal_digits-digits (suc fuel) n lt = elim (Bool-cases (ltb n 10)) [
  | inl e ↦ rw e (last_digit (n % 10) (omega arith) 0 ∙ ap some (ground (arith, e)))
  | inr e ↦ rw e (
      digits-append 0 (decimal_digits fuel (n / 10)) _ (n / 10)
        (decimal_digits-digits fuel (n / 10) (ground (arith, e, lt)))
      ∙ last_digit (n % 10) (omega arith) (n / 10)
      ∙ ap some (omega arith))
]

decimal-digits : (n : ℕ) → digits 0 (decimal n) ≡ some n
unfolding decimal
decimal-digits n = decimal_digits-digits (n + 1) n (omega arith)

-- A text that is read as a number starts with a digit, if it is not empty.
data Starts : String → Type 0 where
  starts : {c : Char} {s : String} → is_digit (code c) ≡ true → Starts (c ∷ s)

digits-Starts : (s : String) (k n : ℕ) → is_empty s ≡ false → digits k s ≡ some n → Starts s
unfolding digits is_empty
digits-Starts [] k n e h = cc
digits-Starts (c ∷ s) k n e h = elim (Bool-cases (is_digit (code c))) [
  | inl d ↦ starts d
  | inr d ↦ absurd (
      none-ne-some n
        (subst (λ b. (if b then digits (k * 10 + (code c - 48)) s else none) ≡ some n) d h))
]

digits-nil : (s : String) (n : ℕ) → is_empty s ≡ true → digits 0 s ≡ some n → n ≡ 0
unfolding digits is_empty
digits-nil [] n e h = sym (some-injective _ _ h)
digits-nil (c ∷ s) n e h = cc

decimal-nonempty : (n : ℕ) → is_empty (decimal n) ≡ false
unfolding is_empty decimal decimal_digits
decimal-nonempty n = elim (Bool-cases (is_empty (decimal n))) [
  | inl e ↦
      let zero_only : is_empty (decimal 0) ≡ true =
        subst (λ m. is_empty (decimal m) ≡ true) (digits-nil (decimal n) n e (decimal-digits n))
          e in
      cc
  | inr e ↦ e
]

Starts-digits_of : {s : String} → Starts s → digits_of s ≡ digits 0 s
unfolding digits_of
Starts-digits_of (starts h) = refl

Starts-drop_sign :
    {s : String} (sign : ℕ) → Starts s → is_digit sign ≡ false → drop_sign sign s ≡ none
unfolding drop_sign is_digit
Starts-drop_sign sign (starts h) d = ground (arith, h, d)

parse_positive :
    {s : String} (n : ℕ)
    → Starts s
    → digits 0 s ≡ some n
    → ltb n (2 ^ 63) ≡ true
    → parse_i64 s ≡ some (pos n)
unfolding parse_i64 in_range after_minus after_plus positive
parse_positive n s d h =
    rw
      (
        parse_i64,
        Starts-drop_sign 45 s refl,
        after_minus,
        Starts-drop_sign 43 s refl,
        after_plus,
        Starts-digits_of s,
        d,
        in_range,
        h,
        positive,
      )
      refl

parse_negative :
    {s : String} (n : ℕ)
    → Starts s
    → digits 0 s ≡ some (n + 1)
    → ltb n (2 ^ 63) ≡ true
    → parse_i64 ("-" ++ s) ≡ some (negsuc n)
unfolding parse_i64 in_range drop_sign after_minus negative negate
parse_negative {s} n st d h =
    let fits : ltb (suc n) (2 ^ 63 + 1) ≡ true = ground (arith, h) in
    let read : digits 0 s ≡ some (suc n) = d ∙ ap some (omega arith) in
    rw
      (
        append.cons "-" [] s,
        append.nil s,
        parse_i64,
        after_minus,
        Starts-digits_of st,
        read,
        in_range,
        fits,
        negative,
      )
      refl

-- An `i64` that is printed and read again is the same number.
pub parse_i64-decimal_ℤ : (z : ℤ) → fits_i64 z ≡ true → parse_i64 (decimal_ℤ z) ≡ some z
unfolding decimal_ℤ
parse_i64-decimal_ℤ (pos n) h =
    parse_positive n (digits-Starts (decimal n) 0 n (decimal-nonempty n) (decimal-digits n))
      (decimal-digits n) h
parse_i64-decimal_ℤ (negsuc n) h =
    parse_negative n
      (digits-Starts (decimal (n + 1)) 0 (n + 1) (decimal-nonempty (n + 1))
        (decimal-digits (n + 1)))
      (decimal-digits (n + 1)) h

-- a digit or a minus
abbrev pub is_numeral : ℕ → Bool
is_numeral c = (leb 48 c && leb c 57) || c == 45

digits-all_chars : (s : String) (k n : ℕ) → digits k s ≡ some n → all_chars is_numeral s ≡ true
unfolding digits is_digit all_chars
digits-all_chars [] k n h = refl
digits-all_chars (c ∷ s) k n h = ground (arith, digits-all_chars s (k * 10 + (code c - 48)) n, h)

pub decimal_ℤ-all_chars : (z : ℤ) → all_chars is_numeral (decimal_ℤ z) ≡ true
unfolding decimal_ℤ all_chars
decimal_ℤ-all_chars (pos n) = digits-all_chars (decimal n) 0 n (decimal-digits n)
decimal_ℤ-all_chars (negsuc n) =
    rw (append.cons "-" [] (decimal (n + 1)), append.nil (decimal (n + 1)))
      (digits-all_chars (decimal (n + 1)) 0 (n + 1) (decimal-digits (n + 1)))

pub decimal_ℤ-nonempty : (z : ℤ) → is_empty (decimal_ℤ z) ≡ false
unfolding decimal_ℤ is_empty
decimal_ℤ-nonempty (pos n) = decimal-nonempty n
decimal_ℤ-nonempty (negsuc n) = rw (append.cons "-" [] (decimal (n + 1))) refl

in_range-fits : (b : ℕ) (o : Option ℕ) (n : ℕ) → in_range b o ≡ some n → ltb n b ≡ true
unfolding in_range
in_range-fits b none n h = cc
in_range-fits b (some m) n h = elim (Bool-cases (ltb m b)) [
  | inl e ↦
      subst (λ i. ltb i b ≡ true)
        (some-injective _ _ (subst (λ t. (if t then some m else none) ≡ some n) e h)) e
  | inr e ↦ absurd (none-ne-some n (subst (λ t. (if t then some m else none) ≡ some n) e h))
]

positive-fits : (o : Option ℕ) (z : ℤ) → positive (in_range (2 ^ 63) o) ≡ some z → fits_i64 z ≡ true
unfolding positive
positive-fits o z h = elim (Option-cases (in_range (2 ^ 63) o)) [
  | inl e ↦ absurd (none-ne-some z (subst (λ r. positive r ≡ some z) e h))
  | inr (n, e) ↦
      subst (λ i. fits_i64 i ≡ true) (some-injective _ _ (subst (λ r. positive r ≡ some z) e h))
        (in_range-fits (2 ^ 63) o n e)
]

negate-fits : (n : ℕ) → ltb n (2 ^ 63 + 1) ≡ true → fits_i64 (negate n) ≡ true
unfolding negate
negate-fits zero h = refl
negate-fits (suc n) h = ground (arith, h)

negative-fits :
    (o : Option ℕ) (z : ℤ) → negative (in_range (2 ^ 63 + 1) o) ≡ some z → fits_i64 z ≡ true
unfolding negative
negative-fits o z h = elim (Option-cases (in_range (2 ^ 63 + 1) o)) [
  | inl e ↦ absurd (none-ne-some z (subst (λ r. negative r ≡ some z) e h))
  | inr (n, e) ↦
      subst (λ i. fits_i64 i ≡ true) (some-injective _ _ (subst (λ r. negative r ≡ some z) e h))
        (negate-fits n (in_range-fits (2 ^ 63 + 1) o n e))
]

after_minus-fits :
    (o : Option String) (s : String) (z : ℤ) → after_minus o s ≡ some z → fits_i64 z ≡ true
unfolding after_minus
after_minus-fits none s z h = positive-fits (digits_of (after_plus (drop_sign 43 s) s)) z h
after_minus-fits (some rest) s z h = negative-fits (digits_of rest) z h

-- What is read is an `i64`.
pub parse_i64-fits : (s : String) (z : ℤ) → parse_i64 s ≡ some z → fits_i64 z ≡ true
unfolding parse_i64
parse_i64-fits s z h = after_minus-fits (drop_sign 45 s) s z h
