-- ===== src/Tests/Environment.antt =====
-- Environments and templates.
use mathlib.Core.List.{Memᴰ}
use tinypipe.Prelude.{
  Option, ℕ, false, String, true, ◌≡◌, ◌↔◌, refl, none, some, [], ◌∷◌, ◌++◌, str_eq, if◌then◌else◌,
}
use tinypipe.Ir.Plan.{call}
use tinypipe.Ir.ExecutionPlan.{ExecutionPlan, Node}
use tinypipe.Ir.ExecutionPlan.Order.Count.{IsDistinct}
use tinypipe.Ir.Compile.{from_execution_plan}
use tinypipe.Ir.EnvDeps.Scan.{Needs, scan_plan_env_deps_iff}
use tinypipe.Ir.EnvDeps.Templates.{extract_template_keys-placeholder}
use tinypipe.Ir.EnvDeps.{dep_of, extract_template_keys, scan_plan_env_deps}
use tinypipe.Vm.Text.{all_chars}
use tinypipe.Env.Layers.{
  Provider, Env, new_env, normalize_key, join_scopes, or_else, lookup, scoped, get, list,
}
use tinypipe.Env.Layers.Laws.{keys, get-scoped, list-IsDistinct}
use tinypipe.Env.Template.{ok, missing, and_then, prepend, resolve_spec, resolve}
use tinypipe.Tests.Plans.{node, arg, source, json}
use tinypipe.Env.Template.Laws.{resolve_plain, resolve_placeholder, resolve_escaped, resolve-none}

-- the upper case of the keys below
abbrev upper : String → String
upper key = if str_eq key "users" then "USERS" else key

abbrev file : Provider
file = record {
  get = λ key.
      if str_eq key "USERS_URL"
      then some "users.local"
      else if str_eq key "URL"
      then some "local"
      else none;
  list = ("URL", "local") ∷ ("USERS_URL", "users.local") ∷ ("URL", "again") ∷ [];
  is_secret = λ key. true;
}

abbrev env : Env
env = new_env (file ∷ file ∷ [])

listed : list upper env ≡ ("URL", "local") ∷ ("USERS_URL", "users.local") ∷ []
unfolding list
listed = refl

in_scope : get upper (scoped upper "users" env) "URL" ≡ some "users.local"
unfolding get scoped
in_scope = refl

get-scoped_example :
    get upper (scoped upper "users" env) "PORT"
    ≡ or_else
        (lookup env (
          join_scopes
            (env.scopes ++ normalize_key upper "users" ∷ [])
            (normalize_key upper "PORT")))
        (get upper env "PORT")
get-scoped_example = get-scoped upper env "users" "PORT"

list-IsDistinct_example : IsDistinct (keys (list upper env))
list-IsDistinct_example = list-IsDistinct upper env

resolved : resolve (get upper env) "http://${URL}:${PORT:-80}/{{URL}}" ≡ ok "http://local:80/local"
unfolding resolve get
resolved = refl

unresolved : resolve (get upper env) "${URL}${PORT:?}" ≡ missing "PORT"
unfolding resolve get
unresolved = refl

resolve_plain_example : resolve (get upper env) "a } b" ≡ ok "a } b"
unfolding all_chars
resolve_plain_example = resolve_plain (get upper env) "a } b" refl

resolve_placeholder_example :
    (resolve (get upper env) "at ${PORT:-${URL}}}!"
      ≡ prepend "at "
          (and_then (resolve_spec (get upper env) "PORT:-${URL}") (resolve (get upper env) "}!")))
    × (resolve (get upper env) "at {{PORT:-${URL}}}!"
        ≡ prepend "at "
            (and_then (resolve_spec (get upper env) "PORT:-${URL}") (resolve (get upper env) "!")))
unfolding all_chars
resolve_placeholder_example =
    resolve_placeholder (get upper env) "at " "PORT:-${URL}" "}!" refl refl

resolve_escaped_example : resolve (get upper env) "$${URL}" ≡ ok "${URL}"
unfolding all_chars
resolve_escaped_example = resolve_escaped (get upper env) "URL}" refl

resolve-none_example : get upper env "PORT" ≡ none
resolve-none_example = resolve-none (get upper env) "${URL}${PORT:?}" "PORT" unresolved

template_keys_found :
    extract_template_keys "${HOST:?}:${PORT:-80}/{{USER}}$${X}"
    ≡ record { key = "HOST"; optional = false }
      ∷ record { key = "PORT"; optional = true }
      ∷ record { key = "USER"; optional = false }
      ∷ record { key = "X"; optional = false }
      ∷ []
unfolding extract_template_keys
template_keys_found = refl

-- the JSON texts that occur below
abbrev json_string : String → Option String
json_string s =
    if str_eq s "\"env.get\""
    then some "env.get"
    else if str_eq s "\"HOME\""
    then some "HOME"
    else if str_eq s "\"env.template\""
    then some "env.template"
    else if str_eq s "\"at ${HOST:-h}\""
    then some "at ${HOST:-h}"
    else none

abbrev quoted : ExecutionPlan ℕ
quoted = record source {
  nodes =
      node "p" call (arg "target" "\"env.get\"" ∷ arg "key" "\"HOME\"" ∷ [])
      ∷ node "q" call (arg "target" "\"env.template\"" ∷ arg "value" "\"at ${HOST:-h}\"" ∷ [])
      ∷ node "r" call (arg "target" "\"env.get\"" ∷ arg "key" "name" ∷ [])
      ∷ [];
}

scanned :
    scan_plan_env_deps json_string (from_execution_plan json quoted [])
    ≡ record { key = "HOME"; optional = false } ∷ record { key = "HOST"; optional = true } ∷ []
unfolding scan_plan_env_deps from_execution_plan
scanned = refl

scan_plan_env_deps_iff_example :
    Memᴰ
      (record { key = "HOST"; optional = true })
      (scan_plan_env_deps json_string (from_execution_plan json quoted []))
    ↔ ((n : Node ℕ) × Memᴰ n quoted.nodes
        × Needs json json_string n (record { key = "HOST"; optional = true }))
scan_plan_env_deps_iff_example =
    scan_plan_env_deps_iff json json_string quoted [] (record { key = "HOST"; optional = true })

extract_template_keys-placeholder_example :
    extract_template_keys "at ${HOST:?}:${PORT:-80}"
    ≡ dep_of "HOST:?" ∷ extract_template_keys ":${PORT:-80}"
unfolding all_chars
extract_template_keys-placeholder_example =
    extract_template_keys-placeholder "at " "HOST:?" ":${PORT:-80}" refl refl
