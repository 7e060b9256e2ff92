-- ===== src/Api/Context.antt =====
-- `Scope`, `MergeStrategy` and `Context` of tinypipe-api/src/types.rs. The proofs are in the children.
pub mod Laws
pub mod Merge
use tinypipe.Prelude.{
  ℕ, String, Bool, true, false, Option, none, some, List, [], ◌∷◌, str_eq, leb, ltb, if◌then◌else◌,
  Map, lookup, put, remove, unwrap_or,
}
use tinypipe.Api.Value
use tinypipe.Api.Value.{Value, Fields, Floats, null, string, array, float, field, end}

pub data MergeStrategy : Type 0 where
  last first min max concat sum avg : MergeStrategy

pub record Scope (F : Type 0) : Type 0 where
  pub variables : Fields F
  pub merge_strategies : List (String × MergeStrategy)

pub record Context (F : Type 0) : Type 0 where
  pub variables : Fields F
  pub branch_scopes : Map (Scope F)
  pub parent_scope : Option (Scope F)
  pub active_branch : Option ℕ

unfoldable pub strategy_of : String → List (String × MergeStrategy) → MergeStrategy
strategy_of k [] = last
strategy_of k ((j, s) ∷ rest) = if str_eq j k then s else strategy_of k rest

unfoldable pub put_strategy :
    String → MergeStrategy → List (String × MergeStrategy) → List (String × MergeStrategy)
put_strategy k s [] = (k, s) ∷ []
put_strategy k s ((j, t) ∷ rest) =
    if str_eq j k then (k, s) ∷ rest else (j, t) ∷ put_strategy k s rest

module _ {F : Type 0} where
  abbrev pub new_scope : Scope F
  new_scope = record { variables = end; merge_strategies = [] }

  abbrev pub new : Context F
  new = record { variables = end; branch_scopes = []; parent_scope = none; active_branch = none }

  -- the value of a key in a scope that may be absent
  unfoldable pub scope_get : Option (Scope F) → String → Option (Value F)
  unfolding Value.get
  scope_get none key = none
  scope_get (some s) key = Value.get key s.variables

  unfoldable pub branch_scope : Context F → Option (Scope F)
  unfolding lookup
  branch_scope c = elim c.active_branch [ none ↦ none | some bid ↦ lookup bid c.branch_scopes ]

  abbrev pub or_else : Option (Value F) → Option (Value F) → Option (Value F)
  or_else (some v) w = some v
  or_else none w = w

  -- `Context::get`: the active branch, then the snapshot at the PARALLEL, then the globals.
  unfoldable pub get : Context F → String → Option (Value F)
  unfolding scope_get branch_scope Value.get
  get c key =
      or_else (scope_get (branch_scope c) key)
        (or_else (scope_get c.parent_scope key) (Value.get key c.variables))

  abbrev pub scope_or_new : Option (Scope F) → Scope F
  scope_or_new o = unwrap_or o new_scope

  -- `Context::set`
  unfoldable pub set : Context F → String → Value F → Context F
  unfolding Value.insert lookup put
  set c key value = elim c.active_branch [
    | none ↦ record c { variables = Value.insert key value c.variables }
    | some bid ↦
        let scope = scope_or_new (lookup bid c.branch_scopes) in
        record c {
          branch_scopes =
              put bid (record scope { variables = Value.insert key value scope.variables })
                c.branch_scopes;
        }
  ]

  unfoldable pub enter_parallel : Context F → Context F
  enter_parallel c = record c {
    branch_scopes = [];
    parent_scope = some (record { variables = c.variables; merge_strategies = [] });
    active_branch = none;
  }

  unfoldable pub set_branch : Context F → ℕ → Context F
  unfolding lookup put
  set_branch c bid = record c {
    branch_scopes = elim (lookup bid c.branch_scopes) [
      | none ↦ put bid new_scope c.branch_scopes
      | some _ ↦ c.branch_scopes
    ];
    active_branch = some bid;
  }

  unfoldable pub clear_branch : Context F → Context F
  clear_branch c = record c { active_branch = none }

  unfoldable pub insert_branch_scope : Context F → ℕ → Scope F → Context F
  unfolding put
  insert_branch_scope c bid scope = record c { branch_scopes = put bid scope c.branch_scopes }

  -- `take_branch_scope`: the scope, and the context without it.
  unfoldable pub take_branch_scope : Context F → ℕ → Option (Scope F) × Context F
  unfolding lookup remove
  take_branch_scope c bid =
      (lookup bid c.branch_scopes, record c { branch_scopes = remove bid c.branch_scopes })

  unfoldable pub set_merge_strategy : Context F → String → MergeStrategy → Context F
  unfolding lookup put put_strategy
  set_merge_strategy c key strategy = elim c.active_branch [
    | none ↦ c
    | some bid ↦
        let scope = scope_or_new (lookup bid c.branch_scopes) in
        record c {
          branch_scopes =
              put bid
                (record scope {
                  merge_strategies = put_strategy key strategy scope.merge_strategies;
                })
                c.branch_scopes;
        }
  ]

  unfoldable pub all_variables : Context F → Fields F
  unfolding branch_scope Value.extend
  all_variables c = elim (branch_scope c) [
    | none ↦ c.variables
    | some scope ↦ Value.extend c.variables scope.variables
  ]
