-- ===== src/Compiler/Optimize/Fuse/Words.antt =====
-- The list that `extract_variables` of tinypipe-compiler/src/backend/optimize.rs pushes words to.
use tinypipe.Prelude.{String, List, [], ◌∷◌, not, ◌&&◌, if◌then◌else◌}
use tinypipe.Vm.Text.{is_empty, all_chars}
use tinypipe.Compiler.Text.{is_numeric}

abbrev pub no_words : List String
no_words = []

-- a word that is not a number
unfoldable pub push_word : String → List String → List String
unfolding is_empty all_chars
push_word word rest =
    if not (is_empty word) && not (all_chars is_numeric word) then word ∷ rest else rest
