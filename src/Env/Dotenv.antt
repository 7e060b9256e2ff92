-- ===== src/Env/Dotenv.antt =====
-- tinypipe-env/src/dotenv.rs, and the providers of static_provider.rs and os.rs beside it. `upper` is
-- `str::to_uppercase`. A quote is a single byte, so the model reads characters where `unquote` reads bytes.
pub mod Lines
pub mod Laws
pub mod Cache
use Prim.Native.Char.{Char, code}
use Prim.Native.String.{[], ◌∷◌}
use tinypipe.Prelude.{
  ℕ, String, Bool, true, false, ◌&&◌, ◌||◌, ◌==◌, Option, none, some, List, if◌then◌else◌, NameMap,
  get_name, put_name, unwrap_or,
}
use tinypipe.Prelude
use tinypipe.Vm.Text.{strip_prefix, is_empty}
use tinypipe.Compiler.Text.{
  trim, split_at, split_text, starts_with, put_head, without_first, without_last, is_quoted,
}
use tinypipe.Env.Layers.{Provider, normalize_key}

-- `str::lines`: lines end with `\n` or `\r\n`.
unfoldable pub lines : String → List String
unfolding put_head starts_with
lines [] = Prelude.List.[]
lines (c ∷ s) =
    let rest = lines s in
    if code c == 10
    then Prelude.List.◌∷◌ [] rest
    else if code c == 13 && starts_with 10 s
    then rest
    else put_head c rest

-- in front of ` #`
unfoldable pub before_comment : Option (String × String) → String → String
unfolding trim
before_comment none v = v
before_comment (some (value, comment)) v = trim value

unfoldable pub unquote_trimmed : String → String
unfolding is_quoted without_last before_comment split_text
unquote_trimmed v =
    if is_quoted 34 v || is_quoted 39 v
    then without_last (without_first v)
    else before_comment (split_text " #" v) v

unfoldable pub unquote : String → String
unfolding unquote_trimmed trim
unquote v = unquote_trimmed (trim v)

abbrev pub Vars : Type 0
Vars = NameMap String

-- the provider whose load gives this
unfoldable pub file_provider : Option Vars → Provider
file_provider none = record { get = λ key. none; list = Prelude.List.[]; is_secret = λ key. false }
file_provider (some vars) = record {
  get = λ key. get_name key vars;
  list = vars;
  is_secret = λ key. false;
}

insert_pair : Option (String × String) → Vars → Vars
insert_pair none out = out
insert_pair (some (key, value)) out = put_name key value out

module _ (upper : String → String) where
  unfoldable pub parse_pair : Option (String × String) → Option (String × String)
  unfolding trim unquote is_empty
  parse_pair none = none
  parse_pair (some (key, value)) =
      let name = upper (trim key) in
      if is_empty name then none else some (name, unquote (trim value))

  -- a line, trimmed already
  unfoldable pub parse_trimmed : String → Option (String × String)
  unfolding parse_pair starts_with is_empty strip_prefix split_at trim
  parse_trimmed line =
      if is_empty line || starts_with 35 line
      then none
      else parse_pair (split_at 61 (trim (unwrap_or (strip_prefix "export " line) line)))

  unfoldable pub parse_line : String → Option (String × String)
  unfolding parse_trimmed trim
  parse_line line = parse_trimmed (trim line)

  unfoldable pub parse_lines : List String → Vars → Vars
  unfolding parse_line insert_pair
  parse_lines Prelude.List.[] out = out
  parse_lines (Prelude.List.◌∷◌ line rest) out =
      parse_lines rest (insert_pair (parse_line line) out)

  unfoldable pub parse_dotenv : String → Vars
  unfolding parse_lines lines
  parse_dotenv content = parse_lines (lines content) Prelude.List.[]

  -- `read_to_string(…).ok()?` and the parser
  unfoldable pub fill : Option String → Option Vars
  unfolding parse_dotenv
  fill none = none
  fill (some content) = some (parse_dotenv content)

  -- `DotEnvFileProvider::load` returns what is in the cache then; `file` is what reading the file gives now.
  unfoldable pub load : Option String → Option Vars → Option Vars
  unfolding fill
  load file none = fill file
  load file (some vars) = some vars

  -- the cache after each of a series of loads
  unfoldable pub loads : List (Option String) → Option Vars → List (Option Vars)
  unfolding load
  loads Prelude.List.[] cache = Prelude.List.[]
  loads (Prelude.List.◌∷◌ file rest) cache =
      let now = load file cache in Prelude.List.◌∷◌ now (loads rest now)

  -- `StaticEnvProvider::new`
  unfoldable pub static_vars : List (String × String) → Vars → Vars
  unfolding normalize_key
  static_vars Prelude.List.[] out = out
  static_vars (Prelude.List.◌∷◌ (key, value) rest) out =
      static_vars rest (put_name (normalize_key upper key) value out)

  unfoldable pub static_provider : Vars → Provider
  unfolding normalize_key
  static_provider vars = record {
    get = λ key. get_name (normalize_key upper key) vars;
    list = vars;
    is_secret = λ key. false;
  }

-- `var` and `vars` are those of `std::env`.
abbrev pub os_provider : (String → Option String) → List (String × String) → Provider
os_provider var vars = record { get = var; list = vars; is_secret = λ key. false }
