-- ===== src/Api/Context/Merge.antt =====
-- `Context::merge_branches` and `Context::estimated_bytes` of tinypipe-api/src/types.rs.
use Prim.Native.String.{◌++◌ as str_append}
use tinypipe.Prelude.{
  ℕ, ◌+◌, String, Bool, none, some, List, [], ◌∷◌, leb, if◌then◌else◌, Map, unwrap_or,
}
use tinypipe.Api.Value
use tinypipe.Api.Value.{
  Value, Fields, Floats, null, string, array, float, field, end, as_f64, checked_add, append_items,
}
use tinypipe.Api.Context.{
  MergeStrategy, last, first, min, max, concat, sum, avg, Scope, Context, strategy_of,
}

-- `sort_by_key(|(bid, _)| *bid)`
module _ {ℓ} {V : Type ℓ} where
  unfoldable pub insert_by_key : ℕ × V → List (ℕ × V) → List (ℕ × V)
  insert_by_key x [] = x ∷ []
  insert_by_key x (y ∷ ys) = if leb x.0 y.0 then x ∷ y ∷ ys else y ∷ insert_by_key x ys

  unfoldable pub sort_by_key : List (ℕ × V) → List (ℕ × V)
  unfolding insert_by_key
  sort_by_key [] = []
  sort_by_key (x ∷ xs) = insert_by_key x (sort_by_key xs)

module _ {F : Type 0} (fl : Floats F) where
  -- `*existing = if a < b { value } else { existing }`, where both have a number
  prefer : (F → F → Bool) → Value F → Value F → Value F
  unfolding as_f64
  prefer test value existing = elim (as_f64 fl value) [
    | none ↦ existing
    | some a ↦ elim (as_f64 fl existing) [
      | none ↦ existing
      | some b ↦ if test a b then value else existing
    ]
  ]

  concat_values : Value F → Value F → Value F
  unfolding append_items
  concat_values (string a) (string b) = string (str_append a b)
  concat_values (array a) (array b) = array (append_items a b)
  concat_values existing value = value

  average : Value F → Value F → Value F
  unfolding as_f64
  average existing value = elim (as_f64 fl existing) [
    | none ↦ existing
    | some a ↦ elim (as_f64 fl value) [ none ↦ existing | some b ↦ float (fl.halve (fl.add a b)) ]
  ]

  -- the `and_modify` of each strategy: the existing value, then the value of the branch
  unfoldable pub combine : MergeStrategy → Value F → Value F → Value F
  unfolding prefer concat_values average checked_add
  combine last existing value = value
  combine first existing value = existing
  combine min existing value = prefer fl.lt value existing
  combine max existing value = prefer (λ a b. fl.lt b a) value existing
  combine concat existing value = concat_values existing value
  combine sum existing value = unwrap_or (checked_add fl existing value) existing
  combine avg existing value = average existing value

  -- `entry(key).and_modify(…).or_insert(value)`
  unfoldable pub merge_key : MergeStrategy → String → Value F → Fields F → Fields F
  unfolding combine Value.get Value.insert
  merge_key s key value variables = elim (Value.get key variables) [
    | none ↦ Value.insert key value variables
    | some existing ↦ Value.insert key (combine s existing value) variables
  ]

  unfoldable pub merge_fields : Scope F → Fields F → Fields F → Fields F
  unfolding merge_key strategy_of
  merge_fields scope end variables = variables
  merge_fields scope (field key value rest) variables =
      merge_fields scope rest
        (merge_key (strategy_of key scope.merge_strategies) key value variables)

  unfoldable pub merge_scopes : List (ℕ × Scope F) → Fields F → Fields F
  unfolding merge_fields
  merge_scopes [] variables = variables
  merge_scopes ((bid, scope) ∷ rest) variables =
      merge_scopes rest (merge_fields scope scope.variables variables)

  unfoldable pub merge_branches : Context F → Context F
  unfolding merge_scopes sort_by_key
  merge_branches c = record {
    variables = merge_scopes (sort_by_key c.branch_scopes) c.variables;
    branch_scopes = [];
    parent_scope = none;
    active_branch = none;
  }

-- `value_bytes k v` is `k.len()` and the length of the JSON text of `v`.
module _ {F : Type 0} (value_bytes : String → Value F → ℕ) where
  unfoldable pub fields_bytes : Fields F → ℕ
  fields_bytes end = 0
  fields_bytes (field k v rest) = value_bytes k v + fields_bytes rest

  unfoldable pub scopes_bytes : Map (Scope F) → ℕ
  unfolding fields_bytes
  scopes_bytes [] = 0
  scopes_bytes ((bid, scope) ∷ rest) = fields_bytes scope.variables + scopes_bytes rest

  unfoldable pub estimated_bytes : Context F → ℕ
  unfolding scopes_bytes
  estimated_bytes c = fields_bytes c.variables + scopes_bytes c.branch_scopes
