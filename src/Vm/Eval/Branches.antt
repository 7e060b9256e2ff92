-- ===== src/Vm/Eval/Branches.antt =====
-- The branches of `eval_expression` of tinypipe-vm/src/compiled_executor.rs. A branch that may not apply
-- is an `Option`; `ev` evaluates the texts inside an expression. Arithmetic that overflows wraps around.
pub mod Numerals
use Prim.Native.Char.{code}
use Prim.Native.String.{[], ◌∷◌, ◌++◌ as ◌<>◌}
use tinypipe.Prelude.{
  ℕ, zero, suc, ◌+◌, String, Bool, true, false, not, ◌&&◌, ◌||◌, Option, none, some, List, map,
  keep, str_eq, if◌then◌else◌, unwrap_or, ◌⊎◌, inl, inr, Map, lookup,
}
use tinypipe.Prelude
use tinypipe.Api.Int.{
  ℤ, pos, negsuc, ◌+ℤ◌, negate_ℤ, is_negative, eq_ℤ, quotient, checked_add, checked_sub,
  checked_mul, checked_div,
}
use tinypipe.Api.Value.{
  Value, null, bool, int, float, string, array, object, Fields, end, insert, Floats, as_f64,
}
use tinypipe.Api.Context
use tinypipe.Api.Context.{Context}
use tinypipe.Vm.Error.{Result, ok, err, ◌>>=◌, eval_error, out_of_fuel}
use tinypipe.Vm.Text.{is_empty, length, strip_prefix, parse_i64, parse_u32, trim_quotes}
use tinypipe.Compiler.Text.{
  trim, split_at, split_text, contains_text, starts_with, ends_with, without_first, without_last,
  is_quoted,
}
use tinypipe.Vm.Eval.Syntax.{
  Accessor, by_field, by_index, Chain, is_concat_expr, matching, split_top_level_commas,
  split_accessors,
}
use tinypipe.Vm.Eval.Values.{
  Reading, len_of, take_field, take_index, values_equal, compare_values, concat_part, range_number,
  wrapped, is_truthy,
}
use tinypipe.Vm.Eval.Parts.{
  or_next, also, cannot_evaluate, up_to_end, inside_brackets, difference, at_least_0, is_positive,
  range_of, cons_number, numbers, range_args, decode, without_dollar, value_of, apply_operator,
  joined, quoted_fail, next_value, succeeds, integer, decimal_number, constant_branch,
}

module _ {F : Type 0} (fl : Floats F) (r : Reading F) (ctx : Context F)
    (outputs : Map (Value F)) where
  module _ (ev : String → Result (Value F)) where
    range_values : List String → Result (List ℤ)
    unfolding range_number
    range_values Prelude.List.[] = ok Prelude.List.[]
    range_values (Prelude.List.◌∷◌ a args) = do
      v ← ev a
      z ← range_number fl r v
      zs ← range_values args
      ok (Prelude.List.◌∷◌ z zs)

    -- `range(…)`
    range_result : String → String → Result (Value F)
    unfolding range_of numbers range_args range_values cannot_evaluate
    range_result expr inside = elim (numbers (range_args inside)) [
      | some zs ↦ range_of (cannot_evaluate expr) expr zs
      | none ↦ range_values (range_args inside) >>= λ zs.
          range_of (err (eval_error "range() step must be a positive integer")) expr zs
    ]

    unfoldable pub range_branch : String → Option (Result (Value F))
    unfolding range_result inside_brackets strip_prefix
    range_branch expr = elim (inside_brackets (strip_prefix "range(" expr)) [
      | none ↦ none
      | some inside ↦ some (range_result expr inside)
    ]

    -- `len(…)`, which a quoted text is not
    unfoldable pub len_branch : Bool → String → Option (Result (Value F))
    unfolding inside_brackets strip_prefix trim is_empty len_of
    len_branch was_quoted expr = elim (inside_brackets (strip_prefix "len(" expr)) [
      | none ↦ none
      | some inside ↦
          if was_quoted || is_empty (trim inside) then none else some (ev (trim inside) >>= len_of)
    ]

    -- a pair of a dict literal, put into the map
    put_pair : String → Option (String × String) → Fields F → Result (Fields F)
    unfolding cannot_evaluate trim_quotes trim is_empty insert
    put_pair expr none m = cannot_evaluate expr
    put_pair expr (some (key, value)) m =
        if is_empty (trim_quotes (trim key))
        then cannot_evaluate expr
        else ev (trim value) >>= λ v. ok (insert (trim_quotes (trim key)) v m)

    put_pairs : String → List String → Fields F → Result (Fields F)
    unfolding put_pair split_at
    put_pairs expr Prelude.List.[] m = ok m
    put_pairs expr (Prelude.List.◌∷◌ pair pairs) m =
        put_pair expr (split_at 58 pair) m >>= λ m'. put_pairs expr pairs m'

    -- `{…}`; the braces are those of the text before decoding.
    unfoldable pub dict_branch : String → String → Option (Result (Value F))
    unfolding starts_with ends_with without_last trim is_empty put_pairs split_top_level_commas
    dict_branch trimmed expr =
        let inner = without_last (without_first trimmed) in
        if starts_with 123 trimmed && ends_with 125 trimmed
        then some (
            if is_empty (trim inner)
            then ok (object end)
            else put_pairs expr (split_top_level_commas inner) end >>= λ m. ok (object m))
        else none

    negated : String → Result (Value F)
    unfolding trim is_truthy
    negated rest = ev (trim rest) >>= λ v. ok (bool (not (is_truthy fl v)))

    unfoldable pub not_branch : String → Option (Result (Value F))
    unfolding negated strip_prefix
    not_branch expr =
        also (elim (strip_prefix "not " expr) [ none ↦ none | some rest ↦ some (negated rest) ])
          (elim (strip_prefix "!" expr) [ none ↦ none | some rest ↦ some (negated rest) ])

    -- one comparison, at its first occurrence, if both sides are there
    compare_at : (Value F → Value F → Bool) → Option (String × String) → Option (Result (Value F))
    unfolding trim is_empty
    compare_at test none = none
    compare_at test (some (left, right)) =
        if is_empty (trim left) || is_empty (trim right)
        then none
        else some (ev (trim left) >>= λ lv. ev (trim right) >>= λ rv. ok (bool (test lv rv)))

    unfoldable pub comparison_branch : String → Option (Result (Value F))
    unfolding compare_at split_text compare_values values_equal
    comparison_branch expr =
        also (compare_at (λ a b. compare_values fl r a b (λ p q. r.le q p)) (split_text ">=" expr))
          (also (compare_at (λ a b. compare_values fl r a b r.le) (split_text "<=" expr)) (
            also (compare_at (λ a b. not (values_equal fl r a b)) (split_text "!=" expr)) (
              also (compare_at (values_equal fl r) (split_text "==" expr)) (
                also
                  (compare_at (λ a b. compare_values fl r a b (λ p q. fl.lt q p))
                    (split_text ">" expr))
                  (compare_at (λ a b. compare_values fl r a b fl.lt) (split_text "<" expr))))))

    output_at : Option ℕ → Option (Value F)
    unfolding lookup
    output_at none = none
    output_at (some index) = lookup index outputs

    -- a variable, or the output of a node
    unfoldable pub variable_branch : String → Option (Value F)
    unfolding without_dollar output_at parse_u32 Context.get
    variable_branch expr =
        also (Context.get ctx (without_dollar expr)) (output_at (parse_u32 (without_dollar expr)))

    number_of : Option (Value F) → Option ℤ
    unfolding as_f64
    number_of none = none
    number_of (some v) = elim (as_f64 fl v) [ none ↦ none | some f ↦ some (r.to_i64 f) ]

    -- A number from a variable goes through `f64`.
    unfoldable pub resolve_numeric : String → Option ℤ
    unfolding number_of value_of contains_text parse_i64 Context.get
    resolve_numeric key = also (parse_i64 key) (
        also (number_of (Context.get ctx key)) (
          if contains_text "." key || contains_text "[" key || contains_text "(" key
          then number_of (value_of (ev key))
          else none))

    arithmetic_at : (ℤ → ℤ → Option ℤ) → Option (String × String) → Option (Value F)
    unfolding apply_operator resolve_numeric trim is_empty
    arithmetic_at f none = none
    arithmetic_at f (some (left, right)) =
        if is_empty left || is_empty right
        then none
        else apply_operator f (resolve_numeric (trim left)) (resolve_numeric (trim right))

    unfoldable pub arithmetic_branch : String → Option (Value F)
    unfolding arithmetic_at split_at checked_add checked_sub checked_mul checked_div
    arithmetic_branch expr = also (arithmetic_at checked_add (split_at 43 expr)) (
        also (arithmetic_at checked_sub (split_at 45 expr)) (
          also (arithmetic_at checked_mul (split_at 42 expr))
            (arithmetic_at checked_div (split_at 47 expr))))

    concat_results : Result (Value F) → Result (Value F) → Option (Value F)
    unfolding joined concat_part
    concat_results (ok a) (ok b) = joined (concat_part fl r a) (concat_part fl r b)
    concat_results _ _ = none

    concat_at : Option (String × String) → Option (Value F)
    unfolding concat_results trim is_empty
    concat_at none = none
    concat_at (some (left, right)) =
        if is_empty left || is_empty right
        then none
        else concat_results (ev (trim left)) (ev (trim right))

    unfoldable pub concat_branch : String → Option (Value F)
    unfolding concat_at split_at
    concat_branch expr = concat_at (split_at 43 expr)

    unfoldable pub access : Bool → String → List Accessor → Value F → Result (Value F)
    unfolding next_value take_field take_index
    access was_quoted expr Prelude.List.[] v = ok v
    access was_quoted expr (Prelude.List.◌∷◌ (by_field name) rest) v =
        next_value was_quoted expr (take_field ("cannot evaluate: " <> expr) v name)
          (access was_quoted expr rest)
    access was_quoted expr (Prelude.List.◌∷◌ (by_index key) rest) v =
        ev key >>= λ k. next_value was_quoted expr (take_index v k) (access was_quoted expr rest)

    access_from : Bool → String → List Accessor → Result (Value F) → Result (Value F)
    unfolding access quoted_fail
    access_from was_quoted expr accessors (ok v) = access was_quoted expr accessors v
    access_from was_quoted expr accessors (err e) =
        quoted_fail was_quoted expr ("cannot evaluate: " <> expr)

    unfoldable pub chain_branch : Bool → String → Option (Result (Value F))
    unfolding access_from split_accessors
    chain_branch was_quoted expr = elim (split_accessors expr) [
      | none ↦ none
      | some chain ↦ some (access_from was_quoted expr chain.accessors (ev chain.base))
    ]

    -- the decoded text, if it is not empty
    unfoldable pub eval_decoded : String → Bool → String → Result (Value F)
    unfolding range_branch len_branch constant_branch dict_branch not_branch comparison_branch
        variable_branch arithmetic_branch concat_branch chain_branch succeeds integer decimal_number
        quoted_fail parse_i64
    eval_decoded trimmed was_quoted expr = or_next (range_branch expr) (
        or_next (len_branch was_quoted expr) (
          or_next (succeeds (constant_branch expr)) (
            or_next (dict_branch trimmed expr) (
              or_next (not_branch expr) (
                or_next (comparison_branch expr) (
                  or_next (succeeds (integer (parse_i64 expr))) (
                    or_next (succeeds (decimal_number (r.parse_f64 expr))) (
                      or_next (succeeds (variable_branch expr)) (
                        or_next (succeeds (arithmetic_branch expr)) (
                          or_next (succeeds (concat_branch expr)) (
                            or_next (chain_branch was_quoted expr)
                              (quoted_fail was_quoted expr ("cannot evaluate: " <> expr)))))))))))))

    unfoldable pub eval_trimmed : String → Result (Value F)
    unfolding decode eval_decoded is_empty
    eval_trimmed trimmed =
        let (expr, was_quoted) = decode (r.json_text trimmed) trimmed in
        if is_empty expr then ok null else eval_decoded trimmed was_quoted expr
