-- ===== src/Ir/EnvDeps/Templates.antt =====
-- What `extract_template_keys` of tinypipe-ir/src/env_deps.rs finds in a template.
use Prim.Native.Char.{Char, code}
use Prim.Native.String.{[], ◌∷◌, ◌++◌}
use Prim.Native.String.append
use mathlib.Core.Bool.{and-eq-true_iff}
use tinypipe.Prelude
use tinypipe.Prelude.{
  ℕ, zero, suc, ◌≤◌, ◌≡◌, refl, ap, ◌∙◌, sym, subst, String, true, false, Bool, not, ◌&&◌,
  if◌then◌else◌, Option, none, some, ◌==◌, arith, inl, inr, List, Bool-cases,
}
use tinypipe.Vm.Text.{length, all_chars}
use tinypipe.Compiler.Text.{uncons}
use tinypipe.Compiler.Text.Split.{
  split_at-append, behind_length, split_at-length, split_text-length,
}
use tinypipe.Env.Template.Steps.{is_plain}
use tinypipe.Ir.EnvDeps.{
  dep_of, starts_with_brace, tail_of, placeholder_at, rest_behind, put_dep, template_keys,
  extract_template_keys,
}

tail_of-length : (s : String) → length (tail_of (uncons s)) ≤ length s
unfolding tail_of length
tail_of-length [] = omega arith
tail_of-length (c ∷ s) = omega arith

placeholder_at-length : (c : Char) (s : String) → behind_length (placeholder_at c s) ≤ length s
unfolding placeholder_at
placeholder_at-length c s = ground (
  arith,
  tail_of-length s,
  split_text-length "}}" (tail_of (uncons s)),
  split_at-length 125 (tail_of (uncons s)),
)

rest_behind-length :
    (o : Option (String × String)) (s : String)
    → behind_length o ≤ length s
    → length (rest_behind o s) ≤ length s
rest_behind-length none s h = omega arith
rest_behind-length (some (spec, behind)) s h = h

-- A step takes a character at least.
step-length : (c : Char) (s : String) → length (rest_behind (placeholder_at c s) s) ≤ length s
step-length c s = rest_behind-length (placeholder_at c s) s (placeholder_at-length c s)

-- Fuel beyond the length of the text changes nothing.
template_keys-fuel :
    (f g : ℕ) (s : String)
    → length s ≤ f
    → length s ≤ g
    → template_keys f (uncons s) ≡ template_keys g (uncons s)
unfolding template_keys length
template_keys-fuel zero zero s h k = refl
template_keys-fuel zero (suc g) [] h k = refl
template_keys-fuel zero (suc g) (c ∷ s) h k = absurd (omega (arith, h))
template_keys-fuel (suc f) zero [] h k = refl
template_keys-fuel (suc f) zero (c ∷ s) h k = absurd (omega (arith, k))
template_keys-fuel (suc f) (suc g) [] h k = refl
template_keys-fuel (suc f) (suc g) (c ∷ s) h k =
    let shorter = step-length c s in
    ap (put_dep (placeholder_at c s)) (
      template_keys-fuel f g (rest_behind (placeholder_at c s) s) (omega (arith, shorter, h))
        (omega (arith, shorter, k)))

-- The loop, one step at a time.
extract_template_keys-cons :
    (c : Char) (s : String)
    → extract_template_keys (c ∷ s)
      ≡ put_dep (placeholder_at c s) (extract_template_keys (rest_behind (placeholder_at c s) s))
unfolding extract_template_keys template_keys length
extract_template_keys-cons c s = ap (put_dep (placeholder_at c s)) (
    template_keys-fuel (length s) (length (rest_behind (placeholder_at c s) s))
      (rest_behind (placeholder_at c s) s) (step-length c s) (omega arith))

abbrev pub has_no_close : String → Bool
has_no_close s = all_chars (λ c. not (c == 125)) s

plain_step :
    (c : Char) (s : String)
    → (not (code c == 36) && not (code c == 123)) ≡ true
    → placeholder_at c s ≡ none
unfolding placeholder_at
plain_step c s h =
    let dollar : (code c == 36) ≡ false = ground (arith, h) in
    let brace : (code c == 123) ≡ false = ground (arith, h) in rw (dollar, brace) refl

closed_step :
    (spec rest : String)
    → has_no_close spec ≡ true
    → placeholder_at "$" ("{" ∷ (spec ++ ("}" ∷ rest))) ≡ some (spec, rest)
unfolding placeholder_at starts_with_brace tail_of
closed_step spec rest h = split_at-append "}" spec rest h

-- Behind a text without `$` and `{`, the first placeholder `${…}` up to its first `}` is the first key
-- that is found, and the others are those of the rest.
pub extract_template_keys-placeholder :
    (front spec rest : String)
    → is_plain front ≡ true
    → has_no_close spec ≡ true
    → extract_template_keys (front ++ ("$" ∷ "{" ∷ (spec ++ ("}" ∷ rest))))
      ≡ Prelude.List.◌∷◌ (dep_of spec) (extract_template_keys rest)
unfolding all_chars
extract_template_keys-placeholder [] spec rest p h =
    rw
      (
        append.nil ("$" ∷ "{" ∷ (spec ++ ("}" ∷ rest))),
        extract_template_keys-cons "$" ("{" ∷ (spec ++ ("}" ∷ rest))),
        closed_step spec rest h,
      )
      refl
extract_template_keys-placeholder (c ∷ front) spec rest p h =
    let k = and-eq-true_iff (not (code c == 36) && not (code c == 123)) (is_plain front) in
    rw
      (
        append.cons c front ("$" ∷ "{" ∷ (spec ++ ("}" ∷ rest))),
        extract_template_keys-cons c (front ++ ("$" ∷ "{" ∷ (spec ++ ("}" ∷ rest)))),
        plain_step c (front ++ ("$" ∷ "{" ∷ (spec ++ ("}" ∷ rest)))) (k.0 p).0,
      )
      (extract_template_keys-placeholder front spec rest (k.0 p).1 h)
