-- ===== src/Compiler/Optimize/Fold/Fits.antt =====
-- The numbers that `eval_simple_int_expr` of tinypipe-compiler/src/backend/optimize.rs gives fit an `i64`.
use Prim.Native.String.{String}
use mathlib.Core.Option.{some-injective, none-ne-some}
use tinypipe.Prelude.{
  ◌≡◌, subst, true, ◌||◌, Option, none, some, if◌then◌else◌, Bool-cases, inl, inr,
}
use tinypipe.Api.Int.{
  ℤ, fits_i64, in_i64, eq_ℤ, pos, quotient, product, ◌+ℤ◌, negate_ℤ, checked_add, checked_sub,
  checked_mul, checked_div,
}
use tinypipe.Vm.Text.{parse_i64, is_empty}
use tinypipe.Vm.Text.Numerals.{parse_i64-fits}
use tinypipe.Compiler.Text.{trim, split_at}
use tinypipe.Compiler.Optimize.Fold.{
  operate, apply_at, try_operator, or_else, try_operators, eval_simple_int_expr,
}

-- The operations give an `i64`, if they give a number.
abbrev IsBounded : (ℤ → ℤ → Option ℤ) → Type 0
IsBounded f = (a b z : ℤ) → f a b ≡ some z → fits_i64 z ≡ true

or_else-fits :
    (a b : Option ℤ) (z : ℤ)
    → (a ≡ some z → fits_i64 z ≡ true)
    → (b ≡ some z → fits_i64 z ≡ true)
    → or_else a b ≡ some z
    → fits_i64 z ≡ true
or_else-fits none b z ha hb h = hb h
or_else-fits (some a) b z ha hb h = ha h

operate-fits :
    (f : ℤ → ℤ → Option ℤ)
    → IsBounded f
    → (a b : Option ℤ) (z : ℤ) → operate f a b ≡ some z
    → fits_i64 z ≡ true
unfolding operate
operate-fits f hf none b z h = absurd (none-ne-some z h)
operate-fits f hf (some a) none z h = absurd (none-ne-some z h)
operate-fits f hf (some a) (some b) z h = hf a b z h

apply_at-fits :
    (f : ℤ → ℤ → Option ℤ)
    → IsBounded f
    → (parts : Option (String × String)) (z : ℤ) → apply_at f parts ≡ some z
    → fits_i64 z ≡ true
unfolding apply_at
apply_at-fits f hf none z h = absurd (none-ne-some z h)
apply_at-fits f hf (some (before, after)) z h =
    elim (Bool-cases (is_empty before || is_empty after)) [
      | inl e ↦ absurd (
          none-ne-some z (
            subst
              (λ b.
                (if b then none else operate f (parse_i64 (trim before)) (parse_i64 (trim after)))
                ≡ some z)
              e h))
      | inr e ↦ operate-fits f hf (parse_i64 (trim before)) (parse_i64 (trim after)) z (
          subst
            (λ b.
              (if b then none else operate f (parse_i64 (trim before)) (parse_i64 (trim after)))
              ≡ some z)
            e h)
    ]

in_i64-fits : (c z : ℤ) → in_i64 c ≡ some z → fits_i64 z ≡ true
unfolding in_i64
in_i64-fits c z h = elim (Bool-cases (fits_i64 c)) [
  | inl e ↦
      subst (λ i. fits_i64 i ≡ true)
        (some-injective _ _ (subst (λ b. (if b then some c else none) ≡ some z) e h)) e
  | inr e ↦ absurd (none-ne-some z (subst (λ b. (if b then some c else none) ≡ some z) e h))
]

checked_add-IsBounded : IsBounded checked_add
unfolding checked_add in_i64
checked_add-IsBounded a b z h = in_i64-fits (a +ℤ b) z h

checked_sub-IsBounded : IsBounded checked_sub
unfolding checked_sub
checked_sub-IsBounded a b z h = in_i64-fits (a +ℤ negate_ℤ b) z h

checked_mul-IsBounded : IsBounded checked_mul
unfolding checked_mul
checked_mul-IsBounded a b z h = in_i64-fits (product a b) z h

checked_div-IsBounded : IsBounded checked_div
unfolding checked_div
checked_div-IsBounded a b z h = elim (Bool-cases (eq_ℤ b (pos 0))) [
  | inl e ↦
      absurd
        (none-ne-some z (subst (λ t. (if t then none else in_i64 (quotient a b)) ≡ some z) e h))
  | inr e ↦
      in_i64-fits (quotient a b) z
        (subst (λ t. (if t then none else in_i64 (quotient a b)) ≡ some z) e h)
]

-- What is evaluated is an `i64`, if anything is.
pub eval-fits : (s : String) (z : ℤ) → eval_simple_int_expr s ≡ some z → fits_i64 z ≡ true
unfolding eval_simple_int_expr try_operators try_operator
eval-fits s z h =
    or_else-fits (parse_i64 (trim s)) (try_operators (trim s)) z (parse_i64-fits (trim s) z)
      (operators-fits (trim s)) (value h)
  where
    operators-fits : (t : String) → try_operators t ≡ some z → fits_i64 z ≡ true
    operators-fits t =
        or_else-fits _ _ z (apply_at-fits checked_add checked_add-IsBounded (split_at 43 t) z) (
          or_else-fits _ _ z (apply_at-fits checked_sub checked_sub-IsBounded (split_at 45 t) z) (
            or_else-fits _ _ z (apply_at-fits checked_mul checked_mul-IsBounded (split_at 42 t) z)
              (apply_at-fits checked_div checked_div-IsBounded (split_at 47 t) z)))

    value :
        eval_simple_int_expr s ≡ some z
        → or_else (parse_i64 (trim s)) (try_operators (trim s)) ≡ some z
    value k = elim (Bool-cases (is_empty (trim s))) [
      | inl e ↦ absurd (
          none-ne-some z (
            subst
              (λ b.
                (if b then none else or_else (parse_i64 (trim s)) (try_operators (trim s)))
                ≡ some z)
              e k))
      | inr e ↦
          subst
            (λ b.
              (if b then none else or_else (parse_i64 (trim s)) (try_operators (trim s))) ≡ some z)
            e k
    ]
