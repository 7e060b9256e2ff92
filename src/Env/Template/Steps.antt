-- ===== src/Env/Template/Steps.antt =====
-- The single steps of `resolve` in tinypipe-env/src/template.rs.
use Prim.Native.Char.{Char, code}
use Prim.Native.String.{[], ◌∷◌, ◌++◌}
use Prim.Native.String.append
use mathlib.Core.Bool.{and-eq-true_iff}
use tinypipe.Prelude.{
  ℕ, ◌+◌, ◌-◌, ◌≤◌, ◌≡◌, refl, ap, subst, String, Bool, true, false, not, ◌&&◌, Option, none, some,
  ◌==◌, arith, Bool-cases, inl, inr, if◌then◌else◌,
}
use mathlib.Core.Option.{some-injective}
use tinypipe.Vm.Text.{length, all_chars}
use tinypipe.Compiler.Text.{starts_with}
use tinypipe.Env.Template.{put_before, find_closing, written, opened, drop_one, next_piece, rest_of}

-- no `$` and no `{`
abbrev pub is_plain : String → Bool
is_plain s = all_chars (λ c. not (c == 36) && not (c == 123)) s

-- Behind `depth` open braces, each brace that the text closes is open, and all are closed at its end.
abbrev pub is_balanced : ℕ → String → Bool
is_balanced depth [] = depth == 0
is_balanced depth (c ∷ s) =
    not (code c == 125 && depth == 0)
    && is_balanced (if code c == 123 then depth + 1 else if code c == 125 then depth - 1 else depth)
        s

pub length-drop_one : (s : String) → length (drop_one s) ≤ length s
unfolding length
length-drop_one [] = omega arith
length-drop_one (c ∷ s) = omega arith

put_before-some :
    (c : Char) (o : Option (String × String)) (before behind : String)
    → put_before c o ≡ some (before, behind)
    → (inner : String) × (o ≡ some (inner, behind))
unfolding put_before
put_before-some c none before behind h = cc
put_before-some c (some (b, r)) before behind h =
    (b, ap (λ (t : String). some (b, t)) (ap (λ (t : String × String). t.1) (some-injective _ _ h)))

-- What stands behind a closing brace is shorter.
find_closing-length :
    (s : String) (depth : ℕ) (before behind : String)
    → find_closing depth s ≡ some (before, behind)
    → length behind ≤ length s
unfolding find_closing length
find_closing-length [] depth before behind h = cc
find_closing-length (c ∷ s) depth before behind h =
    elim (Bool-cases (code c == 125 && depth == 1)) [
      | inl e ↦
          let k : s ≡ behind =
            ap (λ (t : String × String). t.1) (some-injective _ _ (chosen true e)) in
          rw k (omega arith)
      | inr e ↦
          let r = put_before-some c (find_closing _ s) before behind (chosen false e) in
          omega (arith, find_closing-length s _ r.0 behind r.1)
    ]
  where
    chosen :
        (b : Bool)
        → (code c == 125 && depth == 1) ≡ b
        → (if b
            then some ([], s)
            else put_before c (
                find_closing
                  (if code c == 123 then depth + 1 else if code c == 125 then depth - 1 else depth)
                  s))
          ≡ some (before, behind)
    chosen b e =
        subst
          (λ b.
            (if b
              then some ([], s)
              else put_before c (
                  find_closing
                    (if code c == 123
                      then depth + 1
                      else if code c == 125
                      then depth - 1
                      else depth)
                    s))
            ≡ some (before, behind))
          e h

-- A text with balanced braces goes up to the closing brace.
pub find_closing-append :
    (depth : ℕ) (spec rest : String)
    → is_balanced depth spec ≡ true
    → find_closing (depth + 1) (spec ++ ("}" ∷ rest)) ≡ some (spec, rest)
unfolding find_closing
find_closing-append depth [] rest h =
    let last : (depth + 1 == 1) ≡ true = ground (arith, h) in
    rw (append.nil ("}" ∷ rest), last) refl
find_closing-append depth (c ∷ s) rest h =
    let next = if code c == 123 then depth + 1 else if code c == 125 then depth - 1 else depth in
    let k = (and-eq-true_iff (not (code c == 125 && depth == 0)) (is_balanced next s)).0 h in
    let inner : (code c == 125 && depth + 1 == 1) ≡ false = ground (arith, k.0) in
    let deeper : (if code c == 123
          then depth + 1 + 1
          else if code c == 125
          then depth + 1 - 1
          else depth + 1)
        ≡ next + 1 =
      ground (arith, k.0) in
    rw (append.cons c s ("}" ∷ rest), inner, deeper, find_closing-append next s rest k.1) refl

pub plain_piece :
    (c : Char) (s : String)
    → (not (code c == 36) && not (code c == 123)) ≡ true
    → next_piece c s ≡ written (c ∷ []) s
unfolding next_piece
plain_piece c s h =
    let dollar : (code c == 36) ≡ false = ground (arith, h) in
    let brace : (code c == 123) ≡ false = ground (arith, h) in rw (dollar, brace) refl

opened-length :
    (skip : Bool) (c : Char) (s : String) (o : Option (String × String))
    → ((before behind : String) → o ≡ some (before, behind) → length behind ≤ length s)
    → length (rest_of (opened skip c s o)) ≤ length s
unfolding opened
opened-length skip c s none h = omega arith
opened-length true c s (some (spec, behind)) h =
    omega (arith, length-drop_one behind, h spec behind refl)
opened-length false c s (some (spec, behind)) h = h spec behind refl

-- A step takes a character at least.
pub next_piece-length : (c : Char) (s : String) → length (rest_of (next_piece c s)) ≤ length s
unfolding next_piece
next_piece-length c s =
    elim (Bool-cases (code c == 36 && starts_with 36 s && starts_with 123 (drop_one s))) [
      | inl a ↦ rw (next_piece, a) (length-drop_one s)
      | inr a ↦ elim (Bool-cases (code c == 36 && starts_with 123 s)) [
        | inl b ↦ rw (next_piece, a, b) (opened-length false c s _ closing)
        | inr b ↦ elim (Bool-cases (code c == 123 && starts_with 123 s)) [
          | inl d ↦ rw (next_piece, a, b, d) (opened-length true c s _ closing)
          | inr d ↦ rw (next_piece, a, b, d) (omega arith)
        ]
      ]
    ]
  where
    closing :
        (before behind : String)
        → find_closing 1 (drop_one s) ≡ some (before, behind)
        → length behind ≤ length s
    closing before behind h =
        omega (arith, find_closing-length (drop_one s) 1 before behind h, length-drop_one s)
