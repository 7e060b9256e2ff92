-- ===== src/Vm/Eval/Branches/Numerals.antt =====
-- The branches of `eval_expression` of tinypipe-vm/src/compiled_executor.rs for the text of a number.
use Prim.Native.String.{String, [], ◌∷◌}
use tinypipe.Prelude.{ℕ, ◌≡◌, refl, true, false, not, ◌==◌, none, some, arith, Map}
use tinypipe.Api.Int.{ℤ}
use tinypipe.Api.Value.{Value, int, Floats}
use tinypipe.Api.Context.{Context}
use tinypipe.Vm.Error.{Result, ok}
use tinypipe.Vm.Text.{all_chars, is_empty, parse_i64}
use tinypipe.Vm.Text.Numerals.{is_numeral}
use tinypipe.Compiler.Text.{starts_with, is_quoted}
use tinypipe.Compiler.Text.Split.{strip_prefix-absent, split_text-absent}
use tinypipe.Compiler.Types.Folding.{str_eq-numeral}
use tinypipe.Vm.Eval.Values.{Reading}
use tinypipe.Vm.Eval.Parts.{decode, inside_brackets, constant_branch, succeeds, integer}
use tinypipe.Vm.Eval.Branches.{
  range_branch, len_branch, dict_branch, not_branch, comparison_branch, compare_at, eval_decoded,
  eval_trimmed,
}

-- A numeral has no other character.
absent :
    (k : ℕ) (s : String)
    → is_numeral k ≡ false
    → all_chars is_numeral s ≡ true
    → all_chars (λ c. not (c == k)) s ≡ true
unfolding all_chars
absent k [] h n = refl
absent k (c ∷ s) h n = ground (arith, h, n, absent k s)

starts_with-absent :
    (k : ℕ) (s : String) → all_chars (λ c. not (c == k)) s ≡ true → starts_with k s ≡ false
unfolding starts_with all_chars
starts_with-absent k [] n = refl
starts_with-absent k (c ∷ s) n = ground (arith, n)

module _ {F : Type 0} (fl : Floats F) (r : Reading F) (ctx : Context F) (outputs : Map (Value F))
    (ev : String → Result (Value F)) (s : String) (n : all_chars is_numeral s ≡ true) where
  no_constant : constant_branch {F = F} s ≡ none
  unfolding constant_branch
  no_constant =
      rw
        (
          str_eq-numeral s "true" n (unfold all_chars in refl),
          str_eq-numeral s "True" n (unfold all_chars in refl),
          str_eq-numeral s "false" n (unfold all_chars in refl),
          str_eq-numeral s "False" n (unfold all_chars in refl),
          str_eq-numeral s "null" n (unfold all_chars in refl),
          str_eq-numeral s "None" n (unfold all_chars in refl),
        )
        refl

  no_comparison : comparison_branch fl r ctx outputs ev s ≡ none
  unfolding comparison_branch compare_at
  no_comparison =
      let more = absent 62 s refl n in
      let less = absent 60 s refl n in
      rw
        (
          split_text-absent ">" "=" s more,
          split_text-absent "<" "=" s less,
          split_text-absent "!" "=" s (absent 33 s refl n),
          split_text-absent "=" "=" s (absent 61 s refl n),
          split_text-absent ">" "" s more,
          split_text-absent "<" "" s less,
        )
        refl

  no_brackets :
      (range_branch fl r ctx outputs ev s ≡ none)
      × (len_branch fl r ctx outputs ev false s ≡ none)
      × (not_branch fl r ctx outputs ev s ≡ none)
      × (dict_branch fl r ctx outputs ev s s ≡ none)
  unfolding range_branch len_branch not_branch dict_branch inside_brackets
  no_brackets = (
    rw (range_branch, strip_prefix-absent "r" "ange(" s (absent 114 s refl n)) refl,
    rw (len_branch, strip_prefix-absent "l" "en(" s (absent 108 s refl n)) refl,
    rw
        (
          not_branch,
          strip_prefix-absent "n" "ot " s (absent 110 s refl n),
          strip_prefix-absent "!" "" s (absent 33 s refl n),
        )
        refl,
    rw (dict_branch, starts_with-absent 123 s (absent 123 s refl n)) refl,
  )

  pub eval_numeral :
      (z : ℤ)
      → r.json_text s ≡ none
      → is_empty s ≡ false
      → parse_i64 s ≡ some z
      → eval_trimmed fl r ctx outputs ev s ≡ ok (int z)
  unfolding eval_trimmed decode eval_decoded succeeds integer is_quoted
  eval_numeral z text filled number =
      rw
        (
          text,
          starts_with-absent 34 s (absent 34 s refl n),
          starts_with-absent 39 s (absent 39 s refl n),
          filled,
          no_brackets.0,
          no_brackets.1,
          no_constant,
          no_brackets.3,
          no_brackets.2,
          no_comparison,
          number,
        )
        refl
