-- ===== src/Env/Template.antt =====
-- tinypipe-env/src/template.rs. `get` is `Env::get`.
pub mod Steps
pub mod Laws
use Prim.Native.Char.{Char, code}
use Prim.Native.String.{[], ◌∷◌, ◌++◌}
use tinypipe.Prelude.{
  ℕ, zero, suc, ◌+◌, ◌-◌, String, Bool, true, false, ◌&&◌, ◌||◌, Option, none, some, ◌==◌,
  if◌then◌else◌, unwrap_or,
}
use tinypipe.Compiler.Text.{split_text, starts_with}
use tinypipe.Vm.Text.{strip_prefix, length}

-- `Result<String, EnvError>`, whose only error here is `MissingRequired`
pub data Resolved : Type 0 where
  ok : String → Resolved
  missing : String → Resolved

-- a character in front of the first of two texts
unfoldable pub put_before : Char → Option (String × String) → Option (String × String)
put_before c none = none
put_before c (some (before, behind)) = some (c ∷ before, behind)

-- `find_closing` with the braces: the text before the closing brace and the text behind it
unfoldable pub find_closing : ℕ → String → Option (String × String)
unfolding put_before
find_closing depth [] = none
find_closing depth (c ∷ s) =
    let rest =
      find_closing (if code c == 123 then depth + 1 else if code c == 125 then depth - 1 else depth)
        s in
    if code c == 125 && depth == 1 then some ([], s) else put_before c rest

abbrev pub or_missing : String → Option String → Resolved
or_missing key none = missing key
or_missing key (some v) = ok v

-- the next step: a text to write, or the specification of a placeholder, and the rest
pub data Piece : Type 0 where
  written : String → String → Piece
  placeholder : String → String → Piece

abbrev pub drop_one : String → String
drop_one [] = []
drop_one (c ∷ s) = s

-- the placeholder that has been opened, if it is closed; `skip` is a second brace to skip
unfoldable pub opened : Bool → Char → String → Option (String × String) → Piece
opened skip c s none = written (c ∷ []) s
opened skip c s (some (spec, behind)) = placeholder spec (if skip then drop_one behind else behind)

-- `$${`, `${`, `{{` and any other character
unfoldable pub next_piece : Char → String → Piece
unfolding opened find_closing starts_with
next_piece c s =
    if code c == 36 && starts_with 36 s && starts_with 123 (drop_one s)
    then written "$" (drop_one s)
    else if code c == 36 && starts_with 123 s
    then opened false c s (find_closing 1 (drop_one s))
    else if code c == 123 && starts_with 123 s
    then opened true c s (find_closing 1 (drop_one s))
    else written (c ∷ []) s

abbrev pub rest_of : Piece → String
rest_of (written v rest) = rest
rest_of (placeholder spec rest) = rest

-- a text before what the rest resolves to
abbrev pub prepend : String → Resolved → Resolved
prepend v (ok rest) = ok (v ++ rest)
prepend v (missing key) = missing key

abbrev pub and_then : Resolved → Resolved → Resolved
and_then (ok v) rest = prepend v rest
and_then (missing key) rest = missing key

module _ (get : String → Option String) where
  -- `${KEY:?}`, or a key alone
  unfoldable pub with_required : Option (String × String) → String → Resolved
  with_required (some (key, behind)) spec = or_missing key (get key)
  with_required none spec = ok (unwrap_or (get spec) "")

  -- `${KEY:-default}`
  unfoldable pub with_default : Option (String × String) → String → Resolved
  unfolding with_required split_text
  with_default (some (key, default)) spec = ok (unwrap_or (get key) default)
  with_default none spec = with_required (split_text ":?" spec) spec

  unfoldable pub resolve_spec : String → Resolved
  unfolding with_default split_text
  resolve_spec spec = with_default (split_text ":-" spec) spec

  unfoldable pub piece_value : Piece → Resolved
  unfolding resolve_spec
  piece_value (written v rest) = ok v
  piece_value (placeholder spec rest) = resolve_spec spec

  -- `while i < chars.len()`; each step takes a character at least.
  unfoldable pub resolve_loop : ℕ → String → Resolved
  unfolding next_piece piece_value
  resolve_loop zero s = ok []
  resolve_loop (suc fuel) [] = ok []
  resolve_loop (suc fuel) (c ∷ s) =
      let piece = next_piece c s in and_then (piece_value piece) (resolve_loop fuel (rest_of piece))

  unfoldable pub resolve : String → Resolved
  unfolding resolve_loop length
  resolve s = resolve_loop (length s) s
