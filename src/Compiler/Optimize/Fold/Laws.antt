-- ===== src/Compiler/Optimize/Fold/Laws.antt =====
-- What `constant_folding` of tinypipe-compiler/src/backend/optimize.rs leaves behind.
use Prim.Native.Char.{code}
use Prim.Native.String.{String}
use mathlib.Core.Bool.{and-eq-true_iff}
use mathlib.Core.Option.{none-ne-some}
use tinypipe.Prelude.{
  ℕ, ◌≡◌, refl, sym, ap, ◌∙◌, subst, true, not, Option, none, some, List, ◌∷◌, [], map, keep,
  keep_idem, length, is_some, str_eq, if◌then◌else◌, arith, Bool-cases, Option-cases, inl, inr,
}
use tinypipe.Api.Int.{ℤ, fits_i64}
use tinypipe.Ir.Plan.{is_calc}
use tinypipe.Ir.ExecutionPlan.{
  ExecutionPlan, Node, Arg, ArgValue, string, int, float, bool, null, array, object, find_arg,
}
use tinypipe.Vm.Text.{decimal_ℤ, all_chars}
use tinypipe.Vm.Text.Numerals.{
  is_numeral, decimal_ℤ-all_chars, decimal_ℤ-nonempty, parse_i64-decimal_ℤ,
}
use tinypipe.Compiler.Text.Trim.{is_solid, trim-solid}
use tinypipe.Compiler.Text.{trim, is_whitespace}
use tinypipe.Compiler.Optimize.Fold.Fits.{eval-fits}
use tinypipe.Compiler.Optimize.Fold.{
  is_constant_expression, eval_simple_int_expr, fold_value, folded_value, replace_expr, fold_node,
  constant_folding,
}

numeral-constant : (s : String) → all_chars is_numeral s ≡ true → is_constant_expression s ≡ true
unfolding is_constant_expression all_chars
numeral-constant String.[] h = refl
numeral-constant (String.◌∷◌ c s) h = ground (arith, numeral-constant s, h)

numeral_code : (c : ℕ) → is_numeral c ≡ true → not (is_whitespace c) ≡ true
unfolding is_whitespace
numeral_code c h = ground (arith, h)

numeral-solid : (s : String) → all_chars is_numeral s ≡ true → is_solid s ≡ true
unfolding all_chars
numeral-solid String.[] h = refl
numeral-solid (String.◌∷◌ c s) h =
    let split = and-eq-true_iff (is_numeral (code c)) (all_chars is_numeral s) in
    (and-eq-true_iff (not (is_whitespace (code c))) (is_solid s)).1
      (numeral_code (code c) (split.0 h).0, numeral-solid s (split.0 h).1)

pub trim-decimal_ℤ : (z : ℤ) → trim (decimal_ℤ z) ≡ decimal_ℤ z
trim-decimal_ℤ z = trim-solid (decimal_ℤ z) (numeral-solid (decimal_ℤ z) (decimal_ℤ-all_chars z))

-- An `i64` that constant folding writes as an expression evaluates to itself, the smallest and the
-- largest included.
pub eval_simple_int_expr-decimal_ℤ :
    (z : ℤ) → fits_i64 z ≡ true → eval_simple_int_expr (decimal_ℤ z) ≡ some z
unfolding eval_simple_int_expr
eval_simple_int_expr-decimal_ℤ z h =
    rw (eval_simple_int_expr, trim-decimal_ℤ z, decimal_ℤ-nonempty z, parse_i64-decimal_ℤ z h) refl

module _ {F : Type 0} where
  fold_value-fits : (v : Option (ArgValue F)) (z : ℤ) → fold_value v ≡ some z → fits_i64 z ≡ true
  unfolding fold_value
  fold_value-fits none z h = absurd (none-ne-some z h)
  fold_value-fits (some (string s)) z h = elim (Bool-cases (is_constant_expression s)) [
    | inl e ↦ eval-fits s z (subst (λ b. (if b then eval_simple_int_expr s else none) ≡ some z) e h)
    | inr e ↦
        absurd
          (none-ne-some z (subst (λ b. (if b then eval_simple_int_expr s else none) ≡ some z) e h))
  ]
  fold_value-fits (some (int i)) z h = absurd (none-ne-some z h)
  fold_value-fits (some (float x)) z h = absurd (none-ne-some z h)
  fold_value-fits (some (bool b)) z h = absurd (none-ne-some z h)
  fold_value-fits (some null) z h = absurd (none-ne-some z h)
  fold_value-fits (some (array xs)) z h = absurd (none-ne-some z h)
  fold_value-fits (some (object m)) z h = absurd (none-ne-some z h)

  -- A folded node is a CALC, and its number is an `i64`.
  pub folded_value-calc :
      (n : Node F) (z : ℤ) → folded_value n ≡ some z → (is_calc n.op ≡ true) × (fits_i64 z ≡ true)
  unfolding folded_value
  folded_value-calc n z h = elim (Bool-cases (is_calc n.op)) [
    | inl e ↦ (
      e,
      fold_value-fits (find_arg n.args "expr") z
          (subst (λ b. (if b then fold_value (find_arg n.args "expr") else none) ≡ some z) e h),
    )
    | inr e ↦ absurd (
        none-ne-some z
          (subst (λ b. (if b then fold_value (find_arg n.args "expr") else none) ≡ some z) e h))
  ]

  -- The new expression folds to the same number.
  folded_value_again :
      (n : Node F) (z : ℤ)
      → folded_value n ≡ some z
      → folded_value (record n { args = replace_expr z n.args }) ≡ some z
  unfolding folded_value fold_value replace_expr
  folded_value_again n z h =
      let (calc, fits) = folded_value-calc n z h in
      rw (calc, numeral-constant (decimal_ℤ z) (decimal_ℤ-all_chars z))
        (eval_simple_int_expr-decimal_ℤ z fits)

  replace_expr_idem :
      (z : ℤ) (args : List (Arg F)) → replace_expr z (replace_expr z args) ≡ replace_expr z args
  unfolding replace_expr
  replace_expr_idem z args =
      ap (λ rest. record { key = "expr"; value = string (decimal_ℤ z) } ∷ rest)
        (keep_idem (λ (a : Arg F). not (str_eq a.key "expr")) args)

  fold_node_idem :
      (n : Node F)
      → (fold_node (fold_node n) ≡ fold_node n)
        × (is_some (folded_value (fold_node n)) ≡ is_some (folded_value n))
  unfolding fold_node
  fold_node_idem n = elim (Option-cases (folded_value n)) [
    | inl e ↦
        let same : fold_node n ≡ n = rw (fold_node, e) refl in
        (ap fold_node same, ap (λ (m : Node F). is_some (folded_value m)) same)
    | inr (z, e) ↦
        let new : Node F = record n { args = replace_expr z n.args } in
        let made : fold_node n ≡ new = rw (fold_node, e) refl in
        let again : fold_node new ≡ new =
          rw (fold_node, folded_value_again n z e)
            (ap (λ xs. record n { args = xs }) (replace_expr_idem z n.args)) in
        (
          ap fold_node made ∙ again ∙ sym made,
          ap (λ (m : Node F). is_some (folded_value m)) made
              ∙ rw (folded_value_again n z e, e) refl,
        )
  ]

  fold_all_idem :
      (ns : List (Node F))
      → (map fold_node (map fold_node ns) ≡ map fold_node ns)
        × (length (keep (λ (n : Node F). is_some (folded_value n)) (map fold_node ns))
            ≡ length (keep (λ (n : Node F). is_some (folded_value n)) ns))
  fold_all_idem [] = (refl, refl)
  fold_all_idem (n ∷ ns) =
      let (one, counted) = fold_node_idem n in
      let (all, rest) = fold_all_idem ns in (cc, ground (arith, counted, rest))

  -- Constant folding reads the numbers that it has written as the numbers that they are, so a second pass
  -- changes no node; it reports the same number of folded nodes again.
  pub constant_folding_idem :
      (plan : ExecutionPlan F) → constant_folding (constant_folding plan).0 ≡ constant_folding plan
  unfolding constant_folding
  constant_folding_idem plan =
      let (all, count) = fold_all_idem plan.nodes in λ i. (record plan { nodes = all i }, count i)
