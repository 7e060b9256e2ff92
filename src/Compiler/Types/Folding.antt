-- ===== src/Compiler/Types/Folding.antt =====
-- The type check of tinypipe-compiler/src/type_check.rs after `constant_folding` of
-- tinypipe-compiler/src/backend/optimize.rs.
use Prim.Native.Char.{code}
use tinypipe.Prelude.{
  ◌≡◌, refl, ap, ◌∙◌, String, Bool, true, false, not, none, some, List, [], ◌∷◌, ◌==◌, map, keep,
  is_some, str_eq, if◌then◌else◌, arith, Bool-cases, Option-cases, inl, inr, eq_iff, is_some,
}
use tinypipe.Api.Int.{ℤ}
use tinypipe.Ir.Plan.{Opcode, calc, is_calc}
use tinypipe.Ir.ExecutionPlan.{ExecutionPlan, Node, text_arg}
use tinypipe.Vm.Text.{all_chars, decimal_ℤ, is_empty, strip_prefix}
use tinypipe.Vm.Text.Numerals.{is_numeral, decimal_ℤ-all_chars, decimal_ℤ-nonempty}
use tinypipe.Compiler.Text.{contains_text}
use tinypipe.Compiler.Optimize.Fold.{folded_value, replace_expr, fold_node, constant_folding}
use tinypipe.Compiler.Optimize.Fold.Laws.{trim-decimal_ℤ, folded_value-calc}
use tinypipe.Compiler.Quotes.{utf8, bytes, literal_from, has_string_literal}
use tinypipe.Compiler.Types.{
  int_type, has_char, is_number, trimmed_type, infer_expr_type, expr_error, calc_error,
  validate_calc, validate_op, validate_node, put_error, check_types, op_type, infer_node_type,
}

literal_from-numeral :
    (b : Bool) (s : String) → all_chars is_numeral s ≡ true → literal_from b (bytes s) ≡ false
unfolding literal_from bytes utf8 all_chars
literal_from-numeral b String.[] h = refl
literal_from-numeral b (String.◌∷◌ c s) h = ground (arith, h, literal_from-numeral (code c == 92) s)

has_char-numeral :
    (s : String) → all_chars is_numeral s ≡ true → (has_char 47 s ≡ false) × (has_char 46 s ≡ false)
unfolding all_chars
has_char-numeral String.[] h = (refl, refl)
has_char-numeral (String.◌∷◌ c s) h = ground (arith, h, has_char-numeral s)

is_number-numeral : (s : String) → all_chars is_numeral s ≡ true → is_number s ≡ true
unfolding all_chars
is_number-numeral String.[] h = refl
is_number-numeral (String.◌∷◌ c s) h = ground (arith, h, is_number-numeral s)

-- A numeral is not the text `t`, which has a character of another kind.
pub str_eq-numeral :
    (s t : String)
    → all_chars is_numeral s ≡ true
    → all_chars is_numeral t ≡ false
    → str_eq s t ≡ false
str_eq-numeral s t h k = elim (Bool-cases (str_eq s t)) [
  | inl e ↦ absurd (let same = (eq_iff s t).0 e in cc)
  | inr e ↦ e
]

contains_true-numeral :
    (s : String)
    → all_chars is_numeral s ≡ true
    → (contains_text "true" s ≡ false) × (contains_text "false" s ≡ false)
unfolding contains_text strip_prefix all_chars
contains_true-numeral String.[] h = (refl, refl)
contains_true-numeral (String.◌∷◌ c s) h = ground (arith, h, contains_true-numeral s)

trimmed_type-numeral :
    (s : String) → all_chars is_numeral s ≡ true → is_empty s ≡ false → trimmed_type s ≡ int_type
unfolding trimmed_type has_string_literal
trimmed_type-numeral s h e =
    let (slash, dot) = has_char-numeral s h in
    rw
      (
        e,
        literal_from-numeral false s h,
        str_eq-numeral s "true" h (unfold all_chars in refl),
        str_eq-numeral s "false" h (unfold all_chars in refl),
        str_eq-numeral s "null" h (unfold all_chars in refl),
        str_eq-numeral s "none" h (unfold all_chars in refl),
        str_eq-numeral s "None" h (unfold all_chars in refl),
        slash,
        is_number-numeral s h,
        dot,
      )
      refl

expr_error-numeral : (s : String) → all_chars is_numeral s ≡ true → expr_error s ≡ none
unfolding expr_error has_string_literal
expr_error-numeral s h =
    let (no_true, no_false) = contains_true-numeral s h in
    rw (literal_from-numeral false s h, no_true, no_false) refl

is_calc-calc : (op : Opcode) → is_calc op ≡ true → op ≡ calc
is_calc-calc calc h = refl
is_calc-calc op h = cc

module _ (lower : String → String) {F : Type 0} where
  -- A folded node is a CALC of a number without an error.
  folded_types :
      (n : Node F) (z : ℤ)
      → folded_value n ≡ some z
      → (infer_node_type lower (record n { args = replace_expr z n.args }) ≡ int_type)
        × (validate_node (record n { args = replace_expr z n.args }) ≡ none)
  unfolding infer_node_type validate_node op_type validate_op validate_calc calc_error text_arg
      replace_expr infer_expr_type
  folded_types n z h =
      let (c, fits) = folded_value-calc n z h in
      let op : n.op ≡ calc = is_calc-calc n.op c in
      let all = decimal_ℤ-all_chars z in
      (
        rw (op, trim-decimal_ℤ z) (trimmed_type-numeral (decimal_ℤ z) all (decimal_ℤ-nonempty z)),
        rw op (expr_error-numeral (decimal_ℤ z) all),
      )

  fold_node_types :
      (n : Node F) (rest : List (Node F))
      → (infer_node_type lower (fold_node n)
          ≡ (if is_some (folded_value n) then int_type else infer_node_type lower n))
        × (check_types (fold_node n ∷ rest) ≡ (
            if is_some (folded_value n)
            then check_types rest
            else put_error n.id (validate_node n) (check_types rest)))
  unfolding check_types fold_node
  fold_node_types n rest = elim (Option-cases (folded_value n)) [
    | inl e ↦ (rw (fold_node, e) refl, rw (fold_node, e) refl)
    | inr (z, e) ↦
        let (types, errors) = folded_types n z e in
        (
          rw (fold_node, e) types,
          rw (fold_node, e) (ap (λ m. put_error n.id m (check_types rest)) errors),
        )
  ]

  fold_all_types :
      (ns : List (Node F))
      → (map (infer_node_type lower) (map fold_node ns)
          ≡ map
              (λ (n : Node F).
                if is_some (folded_value n) then int_type else infer_node_type lower n)
              ns)
        × (check_types (map fold_node ns)
            ≡ check_types (keep (λ (n : Node F). not (is_some (folded_value n))) ns))
  unfolding check_types put_error
  fold_all_types [] = (refl, refl)
  fold_all_types (n ∷ ns) =
      let (types, errors) = fold_node_types n (map fold_node ns) in
      let (rest_types, rest_errors) = fold_all_types ns in
      (cc, errors ∙ ground (arith, rest_errors))

  -- After constant folding each folded node has the type Int, and the others have the type that they had;
  -- the type errors are those of the nodes that are not folded, in their order.
  pub constant_folding-types :
      (plan : ExecutionPlan F)
      → (map (infer_node_type lower) (constant_folding plan).0.nodes
          ≡ map
              (λ (n : Node F).
                if is_some (folded_value n) then int_type else infer_node_type lower n)
              plan.nodes)
        × (check_types (constant_folding plan).0.nodes
            ≡ check_types (keep (λ (n : Node F). not (is_some (folded_value n))) plan.nodes))
  unfolding constant_folding
  constant_folding-types plan = fold_all_types plan.nodes
