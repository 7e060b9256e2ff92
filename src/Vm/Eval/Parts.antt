-- ===== src/Vm/Eval/Parts.antt =====
-- What the branches of `eval_expression` of tinypipe-vm/src/compiled_executor.rs compute from texts and
-- values that are evaluated already.
use Prim.Native.String.{◌++◌ as ◌<>◌}
use tinypipe.Prelude.{
  ℕ, zero, suc, ◌+◌, String, Bool, true, false, not, ◌&&◌, ◌||◌, Option, none, some, List, map,
  keep, str_eq, if◌then◌else◌, unwrap_or, ◌⊎◌, inl, inr, Map, lookup,
}
use tinypipe.Prelude
use tinypipe.Api.Int.{ℤ, pos, ◌+ℤ◌, negate_ℤ, is_negative, eq_ℤ, quotient}
use tinypipe.Api.Value.{Value, null, bool, int, float, string}
use tinypipe.Vm.Error.{Result, ok, err, eval_error}
use tinypipe.Vm.Text.{is_empty, strip_prefix, parse_i64}
use tinypipe.Compiler.Text.{trim, without_first, without_last, is_quoted}
use tinypipe.Vm.Eval.Syntax.{is_concat_expr, matching, split_top_level_commas}
use tinypipe.Vm.Eval.Values.{wrapped}

-- the next branch, where the first does not apply
abbrev pub or_next {ℓ} : {A : Type ℓ} → Option A → A → A
or_next none rest = rest
or_next (some a) rest = a

abbrev pub also {ℓ} : {A : Type ℓ} → Option A → Option A → Option A
also none rest = rest
also (some a) rest = some a

unfoldable pub cannot_evaluate {ℓ} : {A : Type ℓ} → String → Result A
cannot_evaluate expr = err (eval_error ("cannot evaluate: " <> expr))

-- What stands inside of brackets that close at the end of the text.
unfoldable pub up_to_end : Option (String × String) → Option String
unfolding is_empty
up_to_end none = none
up_to_end (some (inside, behind)) = if is_empty behind then some inside else none

unfoldable pub inside_brackets : Option String → Option String
unfolding up_to_end matching
inside_brackets none = none
inside_brackets (some rest) = up_to_end (matching 1 none rest)

unfoldable pub difference : ℤ → ℤ → ℤ
unfolding wrapped
difference stop start = wrapped (stop +ℤ negate_ℤ start)

unfoldable pub at_least_0 : ℤ → ℤ
at_least_0 z = if is_negative z then pos 0 else z

unfoldable pub is_positive : ℤ → Bool
is_positive z = not (is_negative z) && not (eq_ℤ z (pos 0))

-- the rounds of a range, where `bad_step` is the error for a step that is not positive
unfoldable pub range_of : {F : Type 0} → Result (Value F) → String → List ℤ → Result (Value F)
unfolding difference at_least_0 is_positive quotient cannot_evaluate
range_of bad_step expr (Prelude.List.◌∷◌ stop Prelude.List.[]) = ok (int stop)
range_of bad_step expr (Prelude.List.◌∷◌ start (Prelude.List.◌∷◌ stop Prelude.List.[])) =
    ok (int (difference stop start))
range_of bad_step expr
      (Prelude.List.◌∷◌ start (Prelude.List.◌∷◌ stop (Prelude.List.◌∷◌ step Prelude.List.[]))) =
    if is_positive step
    then ok (int (quotient (at_least_0 (difference stop start)) step))
    else bad_step
range_of bad_step expr args = cannot_evaluate expr

unfoldable pub cons_number : Option ℤ → Option (List ℤ) → Option (List ℤ)
cons_number (some z) (some zs) = some (Prelude.List.◌∷◌ z zs)
cons_number _ _ = none

unfoldable pub numbers : List String → Option (List ℤ)
unfolding cons_number parse_i64
numbers Prelude.List.[] = some Prelude.List.[]
numbers (Prelude.List.◌∷◌ a args) = cons_number (parse_i64 a) (numbers args)

unfoldable pub range_args : String → List String
unfolding split_top_level_commas trim is_empty
range_args inside = keep (λ a. not (is_empty a)) (map trim (split_top_level_commas inside))

-- the text without its quotes, and whether it had them
unfoldable pub decode : Option String → String → String × Bool
unfolding is_quoted is_concat_expr without_last
decode (some text) trimmed = (text, true)
decode none trimmed =
    if (is_quoted 34 trimmed || is_quoted 39 trimmed) && not (is_concat_expr trimmed)
    then (without_last (without_first trimmed), true)
    else (trimmed, false)

unfoldable pub without_dollar : String → String
unfolding strip_prefix
without_dollar expr = unwrap_or (strip_prefix "$" expr) expr

module _ {F : Type 0} where
  unfoldable pub value_of : Result (Value F) → Option (Value F)
  value_of (ok v) = some v
  value_of (err e) = none

  unfoldable pub apply_operator : (ℤ → ℤ → Option ℤ) → Option ℤ → Option ℤ → Option (Value F)
  apply_operator f (some a) (some b) = elim (f a b) [ none ↦ none | some c ↦ some (int c) ]
  apply_operator f _ _ = none

  unfoldable pub joined : Option String → Option String → Option (Value F)
  joined none none = none
  joined a b = some (string (unwrap_or a "" <> unwrap_or b ""))

  -- A quoted text that is no chain of accessors stands for itself.
  unfoldable pub quoted_fail : Bool → String → String → Result (Value F)
  quoted_fail true expr message = ok (string expr)
  quoted_fail false expr message = err (eval_error message)

  -- the rest of the chain for the value that an accessor gives
  unfoldable pub next_value :
      Bool → String → Value F ⊎ String → (Value F → Result (Value F)) → Result (Value F)
  unfolding quoted_fail
  next_value was_quoted expr (inl v) next = next v
  next_value was_quoted expr (inr message) next = quoted_fail was_quoted expr message

  unfoldable pub succeeds : Option (Value F) → Option (Result (Value F))
  succeeds none = none
  succeeds (some v) = some (ok v)

  unfoldable pub integer : Option ℤ → Option (Value F)
  integer none = none
  integer (some z) = some (int z)

  unfoldable pub decimal_number : Option F → Option (Value F)
  decimal_number none = none
  decimal_number (some f) = some (float f)

  unfoldable pub constant_branch : String → Option (Value F)
  constant_branch expr =
      if str_eq expr "true" || str_eq expr "True"
      then some (bool true)
      else if str_eq expr "false" || str_eq expr "False"
      then some (bool false)
      else if str_eq expr "null" || str_eq expr "None"
      then some null
      else none
