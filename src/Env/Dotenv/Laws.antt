-- ===== src/Env/Dotenv/Laws.antt =====
-- What `parse_dotenv` of tinypipe-env/src/dotenv.rs makes of a file of quoted values.
use Prim.Native.String.{[], ◌∷◌, ◌++◌}
use tinypipe.Prelude
use tinypipe.Prelude.{
  ℕ, ◌≡◌, refl, sym, ap, ◌∙◌, subst, String, Bool, true, false, not, ◌&&◌, ◌||◌, ◌==◌, Option, none,
  some, List, arith, if◌then◌else◌, put_name, get_name, get_name-put_name, str_eq, map, All,
}
use tinypipe.Env.Dotenv.{Vars, lines, insert_pair, parse_lines, parse_dotenv}
use tinypipe.Env.Layers.{or_else}
use tinypipe.Env.Dotenv.Lines.{solid-one_line, IsWritable, lines-written, parse_line-line_of}

-- a file with a line for each pair
unfoldable pub written : List (String × String) → String
written Prelude.List.[] = []
written (Prelude.List.◌∷◌ (key, value) rest) =
    key ++ ("=" ∷ "\"" ∷ (value ++ ("\"" ∷ "\n" ∷ written rest)))

-- the value of the last pair with the key
unfoldable pub last_value : String → List (String × String) → Option String
last_value key Prelude.List.[] = none
last_value key (Prelude.List.◌∷◌ (k, v) rest) =
    or_else (last_value key rest) (if str_eq k key then some v else none)

or_else-none : (o : Option String) → or_else o none ≡ o
or_else-none none = refl
or_else-none (some v) = refl

or_else-put :
    (key k v : String) (rest : List (String × String)) (out : Vars)
    → or_else (last_value key rest) (get_name key (put_name k v out))
      ≡ or_else
          (or_else (last_value key rest) (if str_eq k key then some v else none))
          (get_name key out)
or_else-put key k v rest out =
    rw (get_name-put_name k key v out) (cases (last_value key rest) (str_eq k key))
  where
    cases :
        (o : Option String) (b : Bool)
        → or_else o (if b then some v else get_name key out)
          ≡ or_else (or_else o (if b then some v else none)) (get_name key out)
    cases none true = refl
    cases none false = refl
    cases (some x) b = refl

module _ (upper : String → String) where
  parse_lines-written :
      (entries : List (String × String)) (out : Vars) (key : String)
      → All (λ e. IsWritable upper e.0 e.1) entries
      → get_name key (parse_lines upper (lines (written entries)) out)
        ≡ or_else (last_value key entries) (get_name key out)
  unfolding parse_lines lines written last_value insert_pair
  parse_lines-written Prelude.List.[] out key w = refl
  parse_lines-written (Prelude.List.◌∷◌ (k, v) rest) out key (w, ws) =
      ap (λ ls. get_name key (parse_lines upper ls out))
        (lines-written k v (written rest) (solid-one_line k w.solid).1 w.one_line)
      ∙ ap (λ p. get_name key (parse_lines upper (lines (written rest)) (insert_pair p out)))
          (parse_line-line_of upper k v w)
      ∙ parse_lines-written rest (put_name k v out) key ws
      ∙ or_else-put key k v rest out

  -- A file with a line `KEY="value"` for each pair of a list gives each key its last value in the list.
  -- The keys are in upper case and not empty, have no white space and no `=`, and do not begin with `#`;
  -- the values have no line feed, and may have quotes and ` #` in them.
  pub parse_dotenv-written :
      (entries : List (String × String)) (key : String)
      → All (λ e. IsWritable upper e.0 e.1) entries
      → get_name key (parse_dotenv upper (written entries)) ≡ last_value key entries
  unfolding parse_dotenv
  parse_dotenv-written entries key w =
      parse_lines-written entries Prelude.List.[] key w ∙ or_else-none (last_value key entries)
