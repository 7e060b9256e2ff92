-- ===== src/Tests/Expressions.antt =====
-- The evaluator of expressions.
use tinypipe.Prelude.{
  ℕ, String, true, false, ◌≡◌, refl, none, some, [], ◌∷◌, if◌then◌else◌, ltb, ◌==◌,
}
use tinypipe.Api.Int.{pos, negsuc}
use tinypipe.Api.Value.{Value, int, bool, string, array, object, cons, nil, field, end}
use tinypipe.Api.Context
use tinypipe.Api.Context.{Context}
use tinypipe.Ir.Plan.{calc}
use tinypipe.Ir.ExecutionPlan.{text_arg}
use tinypipe.Vm.Error.{Result, ok, err, eval_error}
use tinypipe.Compiler.Optimize.Fold.{folded_value, fold_node}
use tinypipe.Vm.Eval.Values.{Reading}
use tinypipe.Vm.Eval.{eval_expression, resolve_arg_value}
use tinypipe.Vm.Eval.Folded.{fold_node-eval_expression}
use tinypipe.Tests.{floats}
use tinypipe.Tests.Plans.{node, arg}

-- no JSON and no floats
abbrev reading : Reading ℕ
reading = record {
  json_text = λ s. none;
  parse_f64 = λ s. none;
  float_text = λ f. "float";
  to_i64 = pos;
  close = λ a b. a == b;
  le = λ a b. if ltb b a then false else true;
}

abbrev ctx : Context ℕ
unfolding Context.set
ctx =
    Context.set
      (Context.set Context.new "items" (array (cons (int (pos 4)) (cons (int (pos 7)) nil)))) "user"
      (object (field "name" (string "ada") end))

abbrev run : String → Result (Value ℕ)
unfolding eval_expression Context.set
run expr = eval_expression floats reading ctx [] expr

negative_index : run " items[-1] + 2 " ≡ ok (int (pos 9))
unfolding eval_expression Context.set
negative_index = refl

counted : run "range(1, len(items))" ≡ ok (int (pos 1))
unfolding eval_expression Context.set
counted = refl

compared : run "not items[0] >= 5" ≡ ok (bool true)
unfolding eval_expression Context.set
compared = refl

greeting : run "'hi ' + user.name" ≡ ok (string "hi ada")
unfolding eval_expression Context.set
greeting = refl

dictionary : run "{\"a\": user.name, \"b\": [1]}" ≡ err (eval_error "cannot evaluate: [1]")
unfolding eval_expression Context.set
dictionary = refl

out_of_bounds : run "items[2]" ≡ err (eval_error "subscript: index 2 out of bounds (len 2)")
unfolding eval_expression Context.set
out_of_bounds = refl

resolved : resolve_arg_value floats reading ctx [] "user.name" ≡ string "ada"
unfolding resolve_arg_value Context.set
resolved = refl

fold_node-eval_expression_example :
    (e : String) × (text_arg (fold_node (node "a" calc (arg "expr" "2 - 7" ∷ []))) "expr" ≡ some e)
    × (eval_expression floats reading ctx [] e ≡ ok (int (negsuc 4)))
unfolding folded_value
fold_node-eval_expression_example =
    fold_node-eval_expression floats reading ctx [] (node "a" calc (arg "expr" "2 - 7" ∷ []))
      (negsuc 4) refl refl
