-- ===== src/Compiler/Optimize/Fold.antt =====
-- `constant_folding` of tinypipe-compiler/src/backend/optimize.rs. The table of constant INPUTs that the
-- source fills is read nowhere, and is left out.
pub mod Fits
pub mod Laws
use Prim.Native.String.{String}
use tinypipe.Prelude.{
  ℕ, zero, suc, Bool, true, false, not, ◌&&◌, ◌||◌, Option, none, some, List, [], ◌∷◌, map, keep,
  length, is_some, str_eq, if◌then◌else◌,
}
use tinypipe.Api.Int.{ℤ, checked_add, checked_sub, checked_mul, checked_div}
use tinypipe.Ir.Plan.{is_calc}
use tinypipe.Ir.ExecutionPlan.{ExecutionPlan, Node, Arg, ArgValue, string, find_arg}
use tinypipe.Vm.Text.{parse_i64, decimal_ℤ, is_empty, all_chars}
use tinypipe.Compiler.Text.{trim, split_at, is_alphabetic}

unfoldable pub is_constant_expression : String → Bool
unfolding all_chars
is_constant_expression expr = all_chars (λ c. not (is_alphabetic c)) expr

-- both operands are numbers, and the operation does not overflow
operate : (ℤ → ℤ → Option ℤ) → Option ℤ → Option ℤ → Option ℤ
operate f none right = none
operate f (some a) none = none
operate f (some a) (some b) = f a b

-- The texts around an operator. At the start or the end of the text it is passed over.
unfoldable pub apply_at : (ℤ → ℤ → Option ℤ) → Option (String × String) → Option ℤ
unfolding operate trim parse_i64
apply_at f none = none
apply_at f (some (before, after)) =
    if is_empty before || is_empty after
    then none
    else operate f (parse_i64 (trim before)) (parse_i64 (trim after))

-- one operator, at its first occurrence
unfoldable pub try_operator : ℕ → (ℤ → ℤ → Option ℤ) → String → Option ℤ
unfolding apply_at split_at
try_operator c f expr = apply_at f (split_at c expr)

abbrev pub or_else : Option ℤ → Option ℤ → Option ℤ
or_else none b = b
or_else (some a) b = some a

-- the operators `+`, `-`, `*` and `/`
unfoldable pub try_operators : String → Option ℤ
unfolding try_operator checked_add checked_sub checked_mul checked_div
try_operators expr = or_else (try_operator 43 checked_add expr) (
    or_else (try_operator 45 checked_sub expr)
      (or_else (try_operator 42 checked_mul expr) (try_operator 47 checked_div expr)))

unfoldable pub eval_simple_int_expr : String → Option ℤ
unfolding try_operators trim parse_i64 is_empty
eval_simple_int_expr expr =
    if is_empty (trim expr)
    then none
    else or_else (parse_i64 (trim expr)) (try_operators (trim expr))

module _ {F : Type 0} where
  fold_value : Option (ArgValue F) → Option ℤ
  unfolding is_constant_expression eval_simple_int_expr
  fold_value (some (string expr)) =
      if is_constant_expression expr then eval_simple_int_expr expr else none
  fold_value other = none

  -- the number that a CALC node becomes
  unfoldable pub folded_value : Node F → Option ℤ
  unfolding fold_value
  folded_value n = if is_calc n.op then fold_value (find_arg n.args "expr") else none

  -- The new `expr` goes first, the other arguments follow it.
  unfoldable pub replace_expr : ℤ → List (Arg F) → List (Arg F)
  unfolding decimal_ℤ
  replace_expr z args =
      record { key = "expr"; value = string (decimal_ℤ z) }
      ∷ keep (λ (a : Arg F). not (str_eq a.key "expr")) args

  unfoldable pub fold_node : Node F → Node F
  unfolding folded_value replace_expr
  fold_node n = elim (folded_value n) [
    | none ↦ n
    | some z ↦ record n { args = replace_expr z n.args }
  ]

  -- The plan and the number of folded nodes.
  unfoldable pub constant_folding : ExecutionPlan F → ExecutionPlan F × ℕ
  unfolding fold_node
  constant_folding plan = (
    record plan { nodes = map fold_node plan.nodes },
    length (keep (λ (n : Node F). is_some (folded_value n)) plan.nodes),
  )
