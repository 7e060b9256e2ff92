-- ===== src/Vm/Eval/Folded.antt =====
-- What `eval_expression` of tinypipe-vm/src/compiled_executor.rs makes of the numbers that
-- `constant_folding` of tinypipe-compiler/src/backend/optimize.rs writes.
use tinypipe.Prelude.{String, ◌≡◌, refl, ap, ◌∙◌, none, some, Map, true}
use tinypipe.Api.Int.{ℤ, fits_i64}
use tinypipe.Api.Value.{Value, int, Floats}
use tinypipe.Api.Context.{Context}
use tinypipe.Ir.ExecutionPlan.{Node, text_arg}
use tinypipe.Vm.Error.{Result, ok}
use tinypipe.Vm.Text.{decimal_ℤ, length}
use tinypipe.Vm.Text.Numerals.{decimal_ℤ-all_chars, decimal_ℤ-nonempty, parse_i64-decimal_ℤ}
use tinypipe.Compiler.Optimize.Fold.{folded_value, replace_expr, fold_node}
use tinypipe.Compiler.Optimize.Fold.Laws.{trim-decimal_ℤ, folded_value-calc}
use tinypipe.Vm.Eval.Values.{Reading}
use tinypipe.Vm.Eval.Branches.{eval_trimmed}
use tinypipe.Vm.Eval.Branches.Numerals.{eval_numeral}
use tinypipe.Vm.Eval.{eval, eval_expression}

module _ {F : Type 0} (fl : Floats F) (r : Reading F) (ctx : Context F)
    (outputs : Map (Value F)) where
  eval_expression-decimal_ℤ :
      (z : ℤ)
      → fits_i64 z ≡ true
      → r.json_text (decimal_ℤ z) ≡ none
      → eval_expression fl r ctx outputs (decimal_ℤ z) ≡ ok (int z)
  unfolding eval_expression eval
  eval_expression-decimal_ℤ z fits text =
      let ev : String → Result (Value F) = eval fl r ctx outputs (length (decimal_ℤ z)) in
      ap (eval_trimmed fl r ctx outputs ev) (trim-decimal_ℤ z)
      ∙ eval_numeral fl r ctx outputs ev (decimal_ℤ z) (decimal_ℤ-all_chars z) z text
          (decimal_ℤ-nonempty z) (parse_i64-decimal_ℤ z fits)

  -- The expression that constant folding writes into a CALC evaluates in the VM to the number of the fold,
  -- in every context and whatever the nodes before gave, if serde_json does not read its digits as a text.
  pub fold_node-eval_expression :
      (n : Node F) (z : ℤ)
      → folded_value n ≡ some z
      → r.json_text (decimal_ℤ z) ≡ none
      → (e : String) × (text_arg (fold_node n) "expr" ≡ some e)
        × (eval_expression fl r ctx outputs e ≡ ok (int z))
  unfolding fold_node replace_expr text_arg
  fold_node-eval_expression n z h text = (
    decimal_ℤ z,
    rw (fold_node, h) refl,
    eval_expression-decimal_ℤ z (folded_value-calc n z h).1 text,
  )
