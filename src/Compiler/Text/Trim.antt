-- ===== src/Compiler/Text/Trim.antt =====
-- Texts that `trim` leaves as they are.
use Prim.Native.Char.{Char, code}
use Prim.Native.String.{[], ◌∷◌, ◌++◌}
use Prim.Native.String.append
use mathlib.Core.Bool.{and-eq-true_iff}
use tinypipe.Prelude.{◌≡◌, refl, ap, ◌∙◌, subst, String, Bool, true, false, not, arith}
use tinypipe.Vm.Text.{all_chars}
use tinypipe.Compiler.Text.{is_whitespace, trim_left, end_with, trim_right, trim}

-- no white space
abbrev pub is_solid : String → Bool
is_solid s = all_chars (λ c. not (is_whitespace c)) s

trim_left-cons :
    (c : Char) (s : String) → is_whitespace (code c) ≡ false → trim_left (c ∷ s) ≡ c ∷ s
unfolding trim_left
trim_left-cons c s h = rw h refl

end_with-cons : (c : Char) (s : String) → is_whitespace (code c) ≡ false → end_with c s ≡ c ∷ s
unfolding end_with
end_with-cons c [] h = rw h refl
end_with-cons c (d ∷ s) h = refl

trim_right-solid : (s : String) → is_solid s ≡ true → trim_right s ≡ s
unfolding trim_right all_chars
trim_right-solid [] h = refl
trim_right-solid (c ∷ s) h =
    let split = and-eq-true_iff (not (is_whitespace (code c))) (is_solid s) in
    rw (trim_right-solid s (split.0 h).1) (end_with-cons c s (ground (arith, h)))

pub trim-solid : (s : String) → is_solid s ≡ true → trim s ≡ s
unfolding trim all_chars trim_left
trim-solid [] h = ap trim_left (trim_right-solid [] h)
trim-solid (c ∷ s) h =
    ap trim_left (trim_right-solid (c ∷ s) h) ∙ trim_left-cons c s (ground (arith, h))

-- A character that is no white space ends the text.
trim_right-closed :
    (s : String) (q : Char)
    → is_whitespace (code q) ≡ false
    → trim_right (s ++ (q ∷ [])) ≡ s ++ (q ∷ [])
unfolding trim_right end_with
trim_right-closed [] q h = rw (append.nil (q ∷ [])) (end_with-cons q [] h)
trim_right-closed (c ∷ []) q h =
    rw (append.cons c [] (q ∷ []), append.nil (q ∷ [])) (ground (arith, h))
trim_right-closed (c ∷ d ∷ s) q h =
    rw (append.cons c (d ∷ s) (q ∷ []))
      (ap (end_with c) (trim_right-closed (d ∷ s) q h) ∙ rw (append.cons d s (q ∷ [])) refl)

pub trim-closed :
    (c : Char) (s : String) (q : Char)
    → is_whitespace (code c) ≡ false
    → is_whitespace (code q) ≡ false
    → trim (c ∷ (s ++ (q ∷ []))) ≡ c ∷ (s ++ (q ∷ []))
unfolding trim
trim-closed c s q h k =
    ap trim_left
      (subst (λ t. trim_right t ≡ t) (append.cons c s (q ∷ [])) (trim_right-closed (c ∷ s) q k))
    ∙ trim_left-cons c (s ++ (q ∷ [])) h
