-- ===== src/Compiler/Quotes.antt =====
-- `has_string_literal` and `strip_string_literals` of tinypipe-compiler/src/type_check.rs, which go over
-- the bytes of a text. Each byte that is kept becomes a character of its own, so the stripped text is the
-- list of the codes of its characters.
use Prim.Native.Char.{code}
use Prim.Native.String.{[] as nil, ◌∷◌ as ◌∷∷◌}
use tinypipe.Prelude.{
  ℕ, ◌+◌, ◌/◌, ◌%◌, String, Bool, false, not, ◌&&◌, ◌||◌, ◌==◌, List, [], ◌∷◌, ◌++◌, ltb,
  if◌then◌else◌,
}

-- the UTF-8 of a character
unfoldable pub utf8 : ℕ → List ℕ
utf8 c =
    if ltb c 128
    then c ∷ []
    else if ltb c 2048
    then (192 + c / 64) ∷ (128 + c % 64) ∷ []
    else if ltb c 65536
    then (224 + c / 4096) ∷ (128 + c / 64 % 64) ∷ (128 + c % 64) ∷ []
    else (240 + c / 262144) ∷ (128 + c / 4096 % 64) ∷ (128 + c / 64 % 64) ∷ (128 + c % 64) ∷ []

-- `str::as_bytes`
unfoldable pub bytes : String → List ℕ
unfolding utf8
bytes nil = []
bytes (c ∷∷ s) = utf8 (code c) ++ bytes s

abbrev pub is_quote : ℕ → Bool
is_quote b = b == 34 || b == 39

-- `escaped`: the byte before is a backslash.
unfoldable pub literal_from : Bool → List ℕ → Bool
literal_from escaped [] = false
literal_from escaped (b ∷ rest) = (is_quote b && not escaped) || literal_from (b == 92) rest

unfoldable pub has_string_literal : String → Bool
unfolding literal_from bytes
has_string_literal expr = literal_from false (bytes expr)

unfoldable pub strip_from : Bool → Bool → List ℕ → List ℕ
strip_from escaped in_str [] = []
strip_from escaped in_str (b ∷ bs) =
    let toggles = is_quote b && not escaped in
    let rest = strip_from (b == 92) (if toggles then not in_str else in_str) bs in
    if toggles || in_str then rest else b ∷ rest

unfoldable pub strip_string_literals : String → List ℕ
unfolding strip_from bytes
strip_string_literals expr = strip_from false false (bytes expr)
