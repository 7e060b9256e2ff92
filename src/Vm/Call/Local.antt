-- ===== src/Vm/Call/Local.antt =====
-- A CALL in a LOOP body changes the context and its own output only.
use text.Mathlib.Text.{starts_with}
use tinypipe.Prelude.{String, refl, true, false, ◌⊎◌, inl, inr}
use tinypipe.Api.Value.{Value, Fields, end}
use tinypipe.Ir.Plan.{Node}
use tinypipe.Vm.Error.{ok, Ensures, returns, raises, Ensures-bind, Ensures-if}
use tinypipe.Vm.Machine.{Executor, State, SubgraphResult, IsLocalTo, wrote}
use tinypipe.Vm.Call.{
  merge_subgraph, call_subgraph, settle_in_body, exec_call_in_body, call_target, call_params,
  dispatch, is_reserved_in_body,
}

module _ {F : Type 0} (x : Executor F) (node : Node) (st : State F) where
  abbrev IsLocal : State F → Type 0
  IsLocal st' = IsLocalTo node.index st st'

  merge_subgraph-IsLocal :
      (name : String) (r : SubgraphResult F ⊎ String)
      → Ensures IsLocal (merge_subgraph x node st name r)
  unfolding merge_subgraph
  merge_subgraph-IsLocal name (inl result) = returns (wrote _ _ refl)
  merge_subgraph-IsLocal name (inr message) = raises

  pub call_subgraph-IsLocal :
      (target : String) (params : Fields F)
      → Ensures IsLocal (call_subgraph x node target params st)
  unfolding call_subgraph
  call_subgraph-IsLocal target params = Ensures-if _ raises (merge_subgraph-IsLocal _ _)

  settle_in_body-IsLocal :
      (target : String) (r : Value F ⊎ String) → Ensures IsLocal (settle_in_body x node target st r)
  unfolding settle_in_body
  settle_in_body-IsLocal target (inl v) = returns (wrote _ _ refl)
  settle_in_body-IsLocal target (inr message) = raises

  pub exec_call_in_body-IsLocal : Ensures (λ r. IsLocal r.1) (exec_call_in_body x node st)
  unfolding exec_call_in_body
  exec_call_in_body-IsLocal =
      let target = call_target x node in
      let params = call_params x is_reserved_in_body node.args st end in
      Ensures-if (starts_with target "subgraph:")
        (Ensures-bind {f = λ st'. ok (true, st')} (call_subgraph-IsLocal target params)
          (λ st' h. returns h))
        (Ensures-bind {f = λ st'. ok (false, st')}
          (settle_in_body-IsLocal target (dispatch x node target params st)) (λ st' h. returns h))
