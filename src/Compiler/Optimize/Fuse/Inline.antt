-- ===== src/Compiler/Optimize/Fuse/Inline.antt =====
-- `extract_variables` and `replace_var_in_expr` of tinypipe-compiler/src/backend/optimize.rs.
use Prim.Native.Char.{Char, code}
use Prim.Native.String.{[], ◌∷◌, ◌++◌}
use tinypipe.Prelude.{
  ℕ, zero, suc, String, Bool, false, ◌||◌, none, some, List, str_eq, if◌then◌else◌,
}
use tinypipe.Vm.Text.{strip_prefix, length}
use tinypipe.Compiler.Text.{trim, is_word}
use tinypipe.Compiler.Optimize.Fuse.Words.{no_words, push_word}

-- the words of a text, after the word that is being read
words : String → String → List String
unfolding push_word
words word [] = push_word word no_words
words word (c ∷ s) =
    let inside = is_word (code c) in
    let rest = words (if inside then word ++ c ∷ [] else []) s in
    if inside then rest else push_word word rest

unfoldable pub extract_variables : String → List String
unfolding words
extract_variables expr = words [] expr

-- What one step of the loop writes, the rest of the text, and whether a word character stands before it.
pub record Step : Type 0 where
  pub written : String
  pub rest : String
  pub in_word : Bool

starts_word : String → Bool
starts_word [] = false
starts_word (c ∷ s) = is_word (code c)

-- A match inside a word is passed over by one character, and what stands before the rest is forgotten.
step_match : String → Char → String → Bool → String → Step
unfolding starts_word
step_match replacement c s in_word after =
    if in_word || starts_word after
    then record { written = c ∷ []; rest = s; in_word = false }
    else record { written = "(" ++ replacement ++ ")"; rest = after; in_word = false }

step : String → String → Bool → Char → String → Step
unfolding step_match strip_prefix
step var replacement in_word c s = elim (strip_prefix var (c ∷ s)) [
  | none ↦ record { written = c ∷ []; rest = s; in_word = is_word (code c) }
  | some after ↦ step_match replacement c s in_word after
]

-- Each step takes a character at least, so the text's length is fuel enough.
replace_words : ℕ → String → String → Bool → String → String
unfolding step
replace_words zero var replacement in_word s = s
replace_words (suc fuel) var replacement in_word [] = []
replace_words (suc fuel) var replacement in_word (c ∷ s) =
    let st = step var replacement in_word c s in
    st.written ++ replace_words fuel var replacement st.in_word st.rest

unfoldable pub replace_var_in_expr : String → String → String → String
unfolding replace_words trim length
replace_var_in_expr expr var replacement =
    if str_eq (trim expr) var
    then "(" ++ replacement ++ ")"
    else replace_words (length expr) var replacement false expr
