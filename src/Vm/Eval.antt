-- ===== src/Vm/Eval.antt =====
-- `eval_expression` and `resolve_arg_value` of tinypipe-vm/src/compiled_executor.rs.
pub mod Syntax
pub mod Values
pub mod Parts
pub mod Branches
pub mod Folded
use Prim.Native.Char.{code}
use Prim.Native.String.{[], ◌∷◌, ◌++◌ as ◌<>◌}
use tinypipe.Prelude.{
  ℕ, zero, suc, ◌+◌, String, Bool, true, false, not, ◌&&◌, ◌||◌, Option, none, some, List, map,
  keep, str_eq, if◌then◌else◌, unwrap_or, ◌⊎◌, inl, inr, Map, lookup,
}
use tinypipe.Prelude
use tinypipe.Api.Int.{
  ℤ, pos, negsuc, ◌+ℤ◌, negate_ℤ, is_negative, eq_ℤ, quotient, checked_add, checked_sub,
  checked_mul, checked_div,
}
use tinypipe.Api.Value.{
  Value, null, bool, int, float, string, array, object, Fields, end, insert, Floats, as_f64,
}
use tinypipe.Api.Context
use tinypipe.Api.Context.{Context}
use tinypipe.Vm.Error.{Result, ok, err, ◌>>=◌, eval_error, out_of_fuel}
use tinypipe.Vm.Text.{is_empty, length, strip_prefix, parse_i64, parse_u32, trim_quotes}
use tinypipe.Compiler.Text.{
  trim, split_at, split_text, contains_text, starts_with, ends_with, without_first, without_last,
  is_quoted,
}
use tinypipe.Vm.Eval.Syntax.{
  Accessor, by_field, by_index, Chain, is_concat_expr, matching, split_top_level_commas,
  split_accessors,
}
use tinypipe.Vm.Eval.Values.{
  Reading, len_of, take_field, take_index, values_equal, compare_values, concat_part, range_number,
  wrapped, is_truthy,
}
use tinypipe.Vm.Machine.{Evaluator}
use tinypipe.Vm.Eval.Parts.{also, or_next, value_of}
use tinypipe.Vm.Eval.Branches.{eval_trimmed}

module _ {F : Type 0} (fl : Floats F) (r : Reading F) (ctx : Context F)
    (outputs : Map (Value F)) where
  -- The texts inside an expression are shorter, so its length is fuel enough.
  unfoldable pub eval : ℕ → String → Result (Value F)
  unfolding eval_trimmed trim
  eval zero expr = err out_of_fuel
  eval (suc fuel) expr = eval_trimmed fl r ctx outputs (eval fuel) (trim expr)

  unfoldable pub eval_expression : String → Result (Value F)
  unfolding eval length
  eval_expression expr = eval (suc (length expr)) expr

  quoted_text : String → Bool
  unfolding starts_with ends_with
  quoted_text s = starts_with 34 s && ends_with 34 s

  if_concat : String → Option (Value F)
  unfolding is_concat_expr eval_expression value_of
  if_concat s = if is_concat_expr s then value_of (eval_expression s) else none

  word : String → Option (Value F)
  word s =
      if str_eq s "true"
      then some (bool true)
      else if str_eq s "false"
      then some (bool false)
      else if str_eq s "null"
      then some null
      else none

  number : String → Option (Value F)
  unfolding parse_i64
  number s = elim (parse_i64 s) [
    | some z ↦ some (int z)
    | none ↦ elim (r.parse_f64 s) [ some f ↦ some (float f) | none ↦ none ]
  ]

  -- A text in quotes is literal, a name is looked up, and what is nothing else is a text.
  resolve_trimmed : String → Value F
  unfolding quoted_text is_concat_expr trim_quotes if_concat number word value_of eval_expression
      Context.get
  resolve_trimmed s =
      if quoted_text s && not (is_concat_expr s)
      then string (trim_quotes s)
      else or_next (Context.get ctx (trim_quotes s)) (
          or_next (if_concat s) (
            if quoted_text s
            then string (trim_quotes s)
            else or_next (number s) (
                or_next (word s) (
                  or_next (Context.get ctx s)
                    (or_next (value_of (eval_expression s)) (string s))))))

  unfoldable pub resolve_arg_value : String → Value F
  unfolding resolve_trimmed trim
  resolve_arg_value text = resolve_trimmed (trim text)

-- The evaluator that the interpreter uses; `parse_json_value` is that of the same file.
unfoldable pub evaluator : {F : Type 0} → Floats F → Reading F → (String → Value F) → Evaluator F
unfolding eval_expression resolve_arg_value
evaluator fl r parse_json_value = record {
  eval_expression = λ text ctx outputs. eval_expression fl r ctx outputs text;
  resolve_arg_value = λ text ctx outputs. resolve_arg_value fl r ctx outputs text;
  parse_json_value = parse_json_value;
  float_text = r.float_text;
}
