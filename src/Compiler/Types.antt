-- ===== src/Compiler/Types.antt =====
-- tinypipe-compiler/src/type_check.rs; what it does with quotes is in Compiler/Quotes. `lower` is
-- `str::to_lowercase`.
pub mod Folding
pub mod Literals
use Prim.Native.Char.{code}
use Prim.Native.String.{[], ◌∷◌, ◌++◌ as ◌<>◌}
use tinypipe.Prelude.{
  ℕ, String, Bool, true, false, not, ◌&&◌, ◌||◌, ◌==◌, Option, none, some, List, str_eq,
  if◌then◌else◌, contains, NameMap, put_name, unwrap_or,
}
use tinypipe.Prelude
use tinypipe.Ir.Plan.{
  Opcode, input, call, calc, decide, switch, act, parallel, loop, wait, merge, error,
}
use tinypipe.Ir.ExecutionPlan.{Node, text_arg}
use tinypipe.Vm.Text.{is_empty, all_chars}
use tinypipe.Compiler.Text.{trim, contains_text, is_numeric}
use tinypipe.Compiler.Quotes.{has_string_literal, strip_string_literals}

-- `Type`
pub data ValueType : Type 0 where
  string_type int_type float_type bool_type null_type any_type : ValueType

pub record TypeError : Type 0 where
  pub node_id : String
  pub message : String

-- `s.contains(c)`
abbrev pub has_char : ℕ → String → Bool
has_char k [] = false
has_char k (c ∷ s) = code c == k || has_char k s

-- digits, `-` and `.`
abbrev pub is_number : String → Bool
is_number s = all_chars (λ c. is_numeric c || c == 45 || c == 46) s

unfoldable pub has_comparison : String → Bool
unfolding contains_text
has_comparison s =
    contains_text "==" s
    || contains_text "!=" s
    || contains_text ">=" s
    || contains_text "<=" s
    || has_char 62 s
    || has_char 60 s

-- the type of a trimmed text
unfoldable pub trimmed_type : String → ValueType
unfolding has_string_literal has_comparison is_empty all_chars
trimmed_type s =
    if is_empty s
    then any_type
    else if has_string_literal s
    then string_type
    else if str_eq s "true" || str_eq s "false"
    then bool_type
    else if str_eq s "null" || str_eq s "none" || str_eq s "None"
    then null_type
    else if has_char 47 s
    then float_type
    else if is_number s
    then (if has_char 46 s then float_type else int_type)
    else if has_char 43 s || has_char 45 s || has_char 42 s
    then int_type
    else if has_comparison s
    then bool_type
    else any_type

unfoldable pub infer_expr_type : String → ValueType
unfolding trimmed_type trim
infer_expr_type expr = trimmed_type (trim expr)

-- The error of a CALC's expression, if it has one.
unfoldable pub expr_error : String → Option String
unfolding has_string_literal strip_string_literals contains_text
expr_error expr =
    let stripped = strip_string_literals expr in
    if has_string_literal expr
      && (contains stripped 47 || contains stripped 42 || contains stripped 37)
      && not (contains stripped 43)
    then some (
        "Type error in expression '" <> expr
        <> "': string and number operation is not allowed (use + for concatenation)")
    else if (contains_text "true" expr || contains_text "false" expr)
        && (contains stripped 47 || contains stripped 42 || contains stripped 45)
    then some
        ("Type error in expression '" <> expr <> "': arithmetic on boolean values is not allowed")
    else none

unfoldable pub comparison_error : String → String → Option String
unfolding has_string_literal all_chars
comparison_error source value =
    if has_string_literal source && all_chars (λ c. is_numeric c || c == 46) value
    then some (
        "Type warning in DECIDE: comparing string '" <> source <> "' with numeric value '" <> value
        <> "'")
    else none

unfoldable pub compare_texts : Option String → Option String → Option String
unfolding comparison_error
compare_texts none value = none
compare_texts (some source) none = none
compare_texts (some source) (some value) = comparison_error source value

module _ (lower : String → String) where
  type_named : String → Option ValueType
  type_named s =
      if str_eq s "string" || str_eq s "str"
      then some string_type
      else if str_eq s "int" || str_eq s "integer"
      then some int_type
      else if str_eq s "float" || str_eq s "double"
      then some float_type
      else if str_eq s "bool" || str_eq s "boolean"
      then some bool_type
      else if str_eq s "null" || str_eq s "none"
      then some null_type
      else none

  unfoldable pub parse_type_name : String → Option ValueType
  unfolding type_named trim
  parse_type_name s = type_named (lower (trim s))

  input_type : Option String → ValueType
  unfolding parse_type_name
  input_type none = any_type
  input_type (some name) = unwrap_or (parse_type_name name) any_type

calc_error : Option String → Option String
unfolding expr_error
calc_error none = none
calc_error (some expr) = expr_error expr

put_error : String → Option String → List TypeError → List TypeError
put_error id none errors = errors
put_error id (some message) errors =
    Prelude.List.◌∷◌ (record { node_id = id; message = message }) errors

module _ {F : Type 0} where
  unfoldable pub validate_calc : Node F → Option String
  unfolding calc_error text_arg
  validate_calc n = calc_error (text_arg n "expr")

  unfoldable pub validate_decide : Node F → Option String
  unfolding compare_texts text_arg
  validate_decide n = compare_texts (text_arg n "source") (text_arg n "value")

  validate_op : Opcode → Node F → Option String
  unfolding validate_calc validate_decide
  validate_op calc n = validate_calc n
  validate_op decide n = validate_decide n
  validate_op _ n = none

  -- `validate_node`, whose table of types is read nowhere; the check of a SWITCH accepts everything.
  unfoldable pub validate_node : Node F → Option String
  unfolding validate_op
  validate_node n = validate_op n.op n

  -- the second pass of `check_types`; the types of the first are read nowhere
  unfoldable pub check_types : List (Node F) → List TypeError
  unfolding validate_node put_error
  check_types Prelude.List.[] = Prelude.List.[]
  check_types (Prelude.List.◌∷◌ n ns) = put_error n.id (validate_node n) (check_types ns)

module _ (lower : String → String) {F : Type 0} where
  op_type : Opcode → Node F → ValueType
  unfolding input_type infer_expr_type text_arg
  op_type input n = input_type lower (text_arg n "type")
  op_type calc n = infer_expr_type (unwrap_or (text_arg n "expr") "")
  op_type decide n = bool_type
  op_type switch n = bool_type
  op_type error n = null_type
  op_type _ n = any_type

  unfoldable pub infer_node_type : Node F → ValueType
  unfolding op_type
  infer_node_type n = op_type n.op n
