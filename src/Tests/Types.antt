-- ===== src/Tests/Types.antt =====
-- The type check.
use tinypipe.Prelude.{ℕ, true, not, ◌≡◌, refl, [], ◌∷◌, ◌++◌, map, keep, is_some, if◌then◌else◌}
use tinypipe.Ir.Plan.{input, calc, decide}
use tinypipe.Ir.ExecutionPlan.{ExecutionPlan, Node}
use tinypipe.Vm.Text.{all_chars}
use tinypipe.Compiler.Optimize.Fold.{folded_value, constant_folding}
use tinypipe.Compiler.Quotes.{bytes, has_string_literal, strip_string_literals}
use tinypipe.Compiler.Types.{
  int_type, float_type, string_type, bool_type, TypeError, infer_expr_type, infer_node_type,
  check_types,
}
use tinypipe.Compiler.Types.Folding.{constant_folding-types}
use tinypipe.Compiler.Types.Literals.{strip_string_literals-literal}
use tinypipe.Tests.Plans.{node, arg, source}

-- two CALCs of which one is folded, a wrong CALC and a wrong DECIDE
abbrev typed : ExecutionPlan ℕ
typed = record source {
  nodes =
      node "a" input (arg "type" " int" ∷ [])
      ∷ node "b" calc (arg "expr" "20 / 6" ∷ [])
      ∷ node "c" calc (arg "expr" "x + 1" ∷ [])
      ∷ node "d" calc (arg "expr" "'a/b' * 2" ∷ [])
      ∷ node "e" decide (arg "source" "'x'" ∷ arg "value" "4.2" ∷ [])
      ∷ [];
}

types_of_typed :
    map (infer_node_type (λ s. s)) typed.nodes
    ≡ int_type ∷ float_type ∷ int_type ∷ string_type ∷ bool_type ∷ []
unfolding infer_node_type
types_of_typed = refl

errors_of_typed : map (λ (e : TypeError). e.node_id) (check_types typed.nodes) ≡ "d" ∷ "e" ∷ []
unfolding check_types
errors_of_typed = refl

comparison_type : infer_expr_type "a >= b" ≡ bool_type
unfolding infer_expr_type
comparison_type = refl

constant_folding-types_example :
    (map (infer_node_type (λ s. s)) (constant_folding typed).0.nodes
      ≡ map
          (λ (n : Node ℕ).
            if is_some (folded_value n) then int_type else infer_node_type (λ s. s) n)
          typed.nodes)
    × (check_types (constant_folding typed).0.nodes
        ≡ check_types (keep (λ (n : Node ℕ). not (is_some (folded_value n))) typed.nodes))
constant_folding-types_example = constant_folding-types (λ s. s) typed

stripped_bytes : strip_string_literals "é+'x'" ≡ 195 ∷ 169 ∷ 43 ∷ []
unfolding strip_string_literals
stripped_bytes = refl

strip_string_literals-literal_example :
    (has_string_literal "größe('https://api/x') + 'y'" ≡ true)
    × (strip_string_literals "größe('https://api/x') + 'y'"
        ≡ bytes "größe(" ++ strip_string_literals ") + 'y'")
unfolding all_chars
strip_string_literals-literal_example =
    strip_string_literals-literal "'" "größe(" "https://api/x" ") + 'y'" refl refl refl
