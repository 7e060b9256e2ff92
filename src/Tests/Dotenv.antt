-- ===== src/Tests/Dotenv.antt =====
-- Files of variables, the cache of a file, and the other providers.
use tinypipe.Prelude.{String, Option, none, some, ◌≡◌, refl, List, [], ◌∷◌, ◌++◌, map, get_name}
use tinypipe.Vm.Text.{all_chars, is_empty}
use tinypipe.Compiler.Text.{starts_with, is_whitespace}
use tinypipe.Env.Layers.{Provider, new_env, get}
use tinypipe.Env.Dotenv.{
  parse_dotenv, loads, file_provider, static_vars, static_provider, os_provider,
}
use tinypipe.Env.Dotenv.Lines.{IsWritable}
use tinypipe.Env.Dotenv.Laws.{written, last_value, parse_dotenv-written}
use tinypipe.Env.Dotenv.Cache.{loads-first}

abbrev same : String → String
same s = s

parsed :
    parse_dotenv same
      "# first\r\nURL=local\nexport TOKEN='a b'\n\nEMPTY=\n SPACED = x y \nINLINE=v # w\nNOISE\nURL=far"
    ≡ ("URL", "far") ∷ ("TOKEN", "a b") ∷ ("EMPTY", "") ∷ ("SPACED", "x y") ∷ ("INLINE", "v") ∷ []
unfolding parse_dotenv
parsed = refl

abbrev entries : List (String × String)
entries = ("URL", "a # b") ∷ ("PORT", "80") ∷ ("URL", "say \"hi\"") ∷ []

file_of_entries : written entries ≡ "URL=\"a # b\"\nPORT=\"80\"\nURL=\"say \"hi\"\"\n"
unfolding written
file_of_entries = refl

url-IsWritable : IsWritable same "URL" "a # b"
unfolding all_chars is_empty is_whitespace starts_with
url-IsWritable = record {
  filled = refl;
  solid = refl;
  no_equals = refl;
  no_hash = refl;
  upper_case = refl;
  one_line = refl;
}

port-IsWritable : IsWritable same "PORT" "80"
unfolding all_chars is_empty is_whitespace starts_with
port-IsWritable = record {
  filled = refl;
  solid = refl;
  no_equals = refl;
  no_hash = refl;
  upper_case = refl;
  one_line = refl;
}

again-IsWritable : IsWritable same "URL" "say \"hi\""
unfolding all_chars is_empty is_whitespace starts_with
again-IsWritable = record {
  filled = refl;
  solid = refl;
  no_equals = refl;
  no_hash = refl;
  upper_case = refl;
  one_line = refl;
}

parse_dotenv-written_example :
    get_name "URL" (parse_dotenv same (written entries)) ≡ last_value "URL" entries
parse_dotenv-written_example =
    parse_dotenv-written same entries "URL"
      (url-IsWritable, (port-IsWritable, (again-IsWritable, tt)))

loads-first_example :
    loads same (none ∷ some "A=1" ∷ none ∷ some "A=2" ∷ []) none
    ≡ map (λ (file : Option String). none) (none ∷ [])
      ++ map
          (λ (file : Option String). some (parse_dotenv same "A=1"))
          (some "A=1" ∷ none ∷ some "A=2" ∷ [])
loads-first_example = loads-first same (none ∷ []) "A=1" (none ∷ some "A=2" ∷ []) (refl, tt)

-- The first provider wins; a key of a file with `-` is not found, since a lookup asks for `_`.
abbrev layers : List Provider
unfolding static_provider static_vars file_provider
layers =
    static_provider same (static_vars same (("my-key", "static") ∷ []) [])
    ∷ file_provider (some (("my-file", "file") ∷ ("URL", "file") ∷ []))
    ∷ os_provider (λ key. some "os") []
    ∷ []

found : get same (new_env layers) "my-key" ≡ some "static"
unfolding get layers
found = refl

behind : get same (new_env layers) "URL" ≡ some "file"
unfolding get layers
behind = refl

passed_over : get same (new_env layers) "my-file" ≡ some "os"
unfolding get layers
passed_over = refl
