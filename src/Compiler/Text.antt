-- ===== src/Compiler/Text.antt =====
-- Functions on texts of the Rust library that the compiler calls.
pub mod Split
pub mod Trim
use Prim.Native.Char.{Char, code}
use Prim.Native.String.{[], ◌∷◌, ◌++◌}
use tinypipe.Prelude.{
  ℕ, String, Bool, false, ◌&&◌, ◌||◌, Option, List, true, none, some, is_some, leb, str_eq, ◌==◌,
  if◌then◌else◌,
}
use tinypipe.Vm.Text.{strip_prefix}

-- `char::is_whitespace`
unfoldable pub is_whitespace : ℕ → Bool
is_whitespace c =
    (leb 9 c && leb c 13)
    || c == 32
    || c == 133
    || c == 160
    || c == 5760
    || (leb 8192 c && leb c 8202)
    || c == 8232
    || c == 8233
    || c == 8239
    || c == 8287
    || c == 12288

unfoldable pub trim_left : String → String
unfolding is_whitespace
trim_left [] = []
trim_left (c ∷ s) = let rest = trim_left s in if is_whitespace (code c) then rest else c ∷ s

unfoldable pub end_with : Char → String → String
unfolding is_whitespace
end_with c [] = if is_whitespace (code c) then [] else c ∷ []
end_with c (d ∷ s) = c ∷ d ∷ s

unfoldable pub trim_right : String → String
unfolding end_with
trim_right [] = []
trim_right (c ∷ s) = end_with c (trim_right s)

-- `str::trim`
unfoldable pub trim : String → String
unfolding trim_left trim_right
trim s = trim_left (trim_right s)

-- `str::starts_with` of a character
unfoldable pub starts_with : ℕ → String → Bool
starts_with k [] = false
starts_with k (c ∷ s) = code c == k

-- `str::find` of a character, with the texts before and behind its first occurrence
unfoldable pub split_at : ℕ → String → Option (String × String)
split_at k [] = none
split_at k (c ∷ s) =
    let rest : Option (String × String) = elim (split_at k s) [
      | none ↦ none
      | some (before, after) ↦ some (c ∷ before, after)
    ] in
    if code c == k then some ([], s) else rest

-- `char::is_ascii_alphabetic`, `is_ascii_digit` and `is_ascii_alphanumeric`
abbrev pub is_alphabetic : ℕ → Bool
is_alphabetic c = (leb 65 c && leb c 90) || (leb 97 c && leb c 122)

abbrev pub is_numeric : ℕ → Bool
is_numeric c = leb 48 c && leb c 57

-- `c.is_ascii_alphanumeric() || c == '_'`
abbrev pub is_word : ℕ → Bool
is_word c = is_alphabetic c || is_numeric c || c == 95

-- `str::contains`
unfoldable pub contains_text : String → String → Bool
unfolding strip_prefix
contains_text needle [] = is_some (strip_prefix needle [])
contains_text needle (c ∷ s) = is_some (strip_prefix needle (c ∷ s)) || contains_text needle s

-- `str::replace` of a character by a text
unfoldable pub replace_char : ℕ → String → String → String
replace_char k by [] = []
replace_char k by (c ∷ s) = (if code c == k then by else c ∷ []) ++ replace_char k by s

-- the first character and the rest
abbrev pub uncons : String → Option (Char × String)
uncons [] = none
uncons (c ∷ s) = some (c, s)

put_char : Char → Option String → Option String
put_char c none = none
put_char c (some s) = some (c ∷ s)

-- `str::strip_suffix`
unfoldable pub strip_suffix : String → String → Option String
unfolding put_char
strip_suffix mark [] = if str_eq [] mark then some [] else none
strip_suffix mark (c ∷ s) =
    let rest = put_char c (strip_suffix mark s) in if str_eq (c ∷ s) mark then some [] else rest

put_in_front : Char → Option (String × String) → Option (String × String)
put_in_front c none = none
put_in_front c (some (before, behind)) = some (c ∷ before, behind)

-- `str::find` of a text: what stands before and behind its first occurrence
unfoldable pub split_text : String → String → Option (String × String)
unfolding strip_prefix put_in_front
split_text mark [] = none
split_text mark (c ∷ s) =
    let rest = put_in_front c (split_text mark s) in
    elim (strip_prefix mark (c ∷ s)) [ some behind ↦ some ([], behind) | none ↦ rest ]

-- a character in front of the first line
unfoldable pub put_head : Char → List String → List String
put_head c List.[] = List.◌∷◌ (c ∷ []) List.[]
put_head c (List.◌∷◌ line rest) = List.◌∷◌ (c ∷ line) rest

unfoldable pub ends_with : ℕ → String → Bool
ends_with k [] = false
ends_with k (c ∷ []) = code c == k
ends_with k (c ∷ d ∷ s) = ends_with k (d ∷ s)

abbrev pub without_first : String → String
without_first [] = []
without_first (c ∷ s) = s

unfoldable pub without_last : String → String
without_last [] = []
without_last (c ∷ []) = []
without_last (c ∷ d ∷ s) = c ∷ without_last (d ∷ s)

-- The quote stands in front and at the end, and not only once.
unfoldable pub is_quoted : ℕ → String → Bool
unfolding starts_with ends_with
is_quoted k v = starts_with k v && ends_with k (without_first v)
