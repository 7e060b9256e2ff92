-- ===== src/Ir/EnvDeps.antt =====
-- tinypipe-ir/src/env_deps.rs. `json_string` is `serde_json::from_str` with `as_str`: the text that a JSON
-- text is the literal of.
pub mod Calls
pub mod Scan
pub mod Templates
use Prim.Native.Char.{Char, code}
use tinypipe.Prelude.{
  ℕ, zero, suc, String, Bool, true, false, ◌&&◌, Option, none, some, List, [], ◌∷◌, ◌++◌, ◌==◌, any,
  str_eq, if◌then◌else◌,
}
use tinypipe.Ir.Plan.{is_call, Plan, Node, Arg, find_arg}
use tinypipe.Vm.Text.{strip_prefix, length as text_length}
use tinypipe.Compiler.Text.{split_at, split_text, strip_suffix, uncons}

pub record EnvDep : Type 0 where
  pub key : String
  pub optional : Bool

dep_or : Option (String × String) → String → EnvDep
dep_or none spec = record { key = spec; optional = false }
dep_or (some (key, default)) spec = record { key = key; optional = true }

from_suffix : Option String → String → EnvDep
unfolding dep_or split_text
from_suffix none spec = dep_or (split_text ":-" spec) spec
from_suffix (some key) spec = record { key = key; optional = false }

-- `${KEY:?}`, `${KEY:-default}` and `${KEY}`
unfoldable pub dep_of : String → EnvDep
unfolding from_suffix strip_suffix
dep_of spec = from_suffix (strip_suffix ":?" spec) spec

starts_with_brace : Option (Char × String) → Bool
starts_with_brace none = false
starts_with_brace (some (c, s)) = code c == 123

tail_of : Option (Char × String) → String
tail_of none = ""
tail_of (some (c, s)) = s

-- What a character begins: a placeholder with its text and the rest, or nothing. `find_seq` looks for `}}`
-- behind `{{` and for `}` behind `${`.
unfoldable pub placeholder_at : Char → String → Option (String × String)
unfolding split_text split_at starts_with_brace tail_of
placeholder_at c s =
    if code c == 123 && starts_with_brace (uncons s)
    then split_text "}}" (tail_of (uncons s))
    else if code c == 36 && starts_with_brace (uncons s)
    then split_at 125 (tail_of (uncons s))
    else none

abbrev rest_behind : Option (String × String) → String → String
rest_behind none s = s
rest_behind (some (spec, behind)) s = behind

abbrev put_dep : Option (String × String) → List EnvDep → List EnvDep
put_dep none deps = deps
put_dep (some (spec, behind)) deps = dep_of spec ∷ deps

-- `while i < chars.len()`; each step takes a character at least.
unfoldable pub template_keys : ℕ → Option (Char × String) → List EnvDep
unfolding placeholder_at dep_of
template_keys zero text = []
template_keys (suc fuel) none = []
template_keys (suc fuel) (some (c, s)) =
    let found = placeholder_at c s in
    put_dep found (template_keys fuel (uncons (rest_behind found s)))

unfoldable pub extract_template_keys : String → List EnvDep
unfolding template_keys text_length
extract_template_keys s = template_keys (text_length s) (uncons s)

abbrev pub has_arg : List Arg → String → Bool
has_arg args key = any (λ (a : Arg). str_eq a.key key) args

module _ (json_string : String → Option String) where
  literal : Option String → Option String
  literal none = none
  literal (some value) = json_string value

  -- the argument of a compiled node, if it is a literal text
  unfoldable pub literal_arg : Node → String → Option String
  unfolding literal
  literal_arg n key = literal (find_arg n.args key)

  get_deps : Node → Option String → List EnvDep
  get_deps n none = []
  get_deps n (some key) = record { key = key; optional = has_arg n.args "default" } ∷ []

  unfoldable pub collect_env_get_deps : Node → List EnvDep
  unfolding get_deps literal_arg
  collect_env_get_deps n = get_deps n (literal_arg n "key")

  template_deps : Option String → List EnvDep
  unfolding extract_template_keys
  template_deps none = []
  template_deps (some value) = extract_template_keys value

  unfoldable pub collect_env_template_deps : Node → List EnvDep
  unfolding template_deps literal_arg
  collect_env_template_deps n = template_deps (literal_arg n "value")

  pub deps_for : Node → Option String → List EnvDep
  unfolding collect_env_get_deps collect_env_template_deps
  deps_for n none = []
  deps_for n (some target) =
      if str_eq target "env.get"
      then collect_env_get_deps n
      else if str_eq target "env.template"
      then collect_env_template_deps n
      else []

  -- the dependencies of one node
  unfoldable pub node_deps : Node → List EnvDep
  unfolding deps_for literal_arg
  node_deps n = if is_call n.op then deps_for n (literal_arg n "target") else []

  scan_nodes : List Node → List EnvDep
  unfolding node_deps
  scan_nodes [] = []
  scan_nodes (n ∷ ns) = node_deps n ++ scan_nodes ns

  unfoldable pub scan_plan_env_deps : Plan → List EnvDep
  unfolding scan_nodes
  scan_plan_env_deps plan = scan_nodes plan.nodes

  subgraph_name : Option String → Option String
  unfolding strip_prefix
  subgraph_name none = none
  subgraph_name (some target) = strip_prefix "subgraph:" target

  put_name : Option String → List String → List String
  put_name none names = names
  put_name (some name) names = name ∷ names

  node_targets : List Node → List String
  unfolding subgraph_name put_name literal_arg
  node_targets [] = []
  node_targets (n ∷ ns) =
      let rest = node_targets ns in
      if is_call n.op then put_name (subgraph_name (literal_arg n "target")) rest else rest

  unfoldable pub subgraph_targets : Plan → List String
  unfolding node_targets
  subgraph_targets plan = node_targets plan.nodes
