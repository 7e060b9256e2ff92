-- ===== src/Compiler/Text/Split.antt =====
-- What stands behind the mark at which a text is split is no longer than the text.
use Prim.Native.Char.{Char, code}
use Prim.Native.String.{[], ◌∷◌, ◌++◌}
use Prim.Native.String.append
use mathlib.Core.Bool.{and-eq-true_iff}
use tinypipe.Prelude.{ℕ, ◌≤◌, ◌≡◌, refl, true, not, ◌==◌, String, Option, none, some, arith}
use tinypipe.Vm.Text.{length, strip_prefix, all_chars}
use tinypipe.Compiler.Text.{split_at, split_text, put_in_front}

abbrev pub rest_length : Option String → ℕ
rest_length none = 0
rest_length (some s) = length s

abbrev pub behind_length : Option (String × String) → ℕ
behind_length none = 0
behind_length (some (before, behind)) = length behind

strip_prefix-length : (p s : String) → rest_length (strip_prefix p s) ≤ length s
unfolding strip_prefix length
strip_prefix-length [] s = omega arith
strip_prefix-length (a ∷ p) [] = omega arith
strip_prefix-length (a ∷ p) (c ∷ s) = ground (arith, strip_prefix-length p s)

pub split_at-length : (k : ℕ) (s : String) → behind_length (split_at k s) ≤ length s
unfolding split_at length
split_at-length k [] = omega arith
split_at-length k (c ∷ s) = ground (arith, split_at-length k s)

pub split_text-length : (mark s : String) → behind_length (split_text mark s) ≤ length s
unfolding split_text length put_in_front
split_text-length mark [] = omega arith
split_text-length mark (c ∷ s) =
    ground (arith, split_text-length mark s, strip_prefix-length mark (c ∷ s))

-- The first occurrence of a character.
pub split_at-append :
    (q : Char) (before behind : String)
    → all_chars (λ c. not (c == code q)) before ≡ true
    → split_at (code q) (before ++ (q ∷ behind)) ≡ some (before, behind)
unfolding split_at all_chars
split_at-append q [] behind h = rw (append.nil (q ∷ behind)) (ground arith)
split_at-append q (c ∷ s) behind h =
    let split = and-eq-true_iff (not (code c == code q)) (all_chars (λ c. not (c == code q)) s) in
    rw (append.cons c s (q ∷ behind), split_at-append q s behind (split.0 h).1) (ground (arith, h))

-- A text without the first character of a mark does not have the mark.
pub strip_prefix-absent :
    (a : Char) (p s : String)
    → all_chars (λ c. not (c == code a)) s ≡ true
    → strip_prefix (a ∷ p) s ≡ none
unfolding strip_prefix all_chars
strip_prefix-absent a p [] h = refl
strip_prefix-absent a p (c ∷ s) h = ground (arith, h)

pub split_text-absent :
    (a : Char) (p s : String)
    → all_chars (λ c. not (c == code a)) s ≡ true
    → split_text (a ∷ p) s ≡ none
unfolding split_text put_in_front strip_prefix all_chars
split_text-absent a p [] h = refl
split_text-absent a p (c ∷ s) h = ground (arith, h, split_text-absent a p s)
