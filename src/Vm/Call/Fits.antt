-- ===== src/Vm/Call/Fits.antt =====
-- A CALL keeps the number of the control counters, and the node count.
use text.Mathlib.Text.{starts_with}
use tinypipe.Prelude.{ℕ, String, Option, none, some, ◌⊎◌, inl, inr}
use tinypipe.Api.Value.{Value, end}
use tinypipe.Ir.Plan.{Node}
use tinypipe.Vm.Error.{
  ok, err, call_failed, Ensures, returns, raises, Ensures-if, Ensures-bind, Ensures-then,
}
use tinypipe.Vm.Machine.{Executor, State}
use tinypipe.Vm.Fits.{Fits, IsLocalTo-Fits}
use tinypipe.Vm.Edges.Fits.{propagate_edges-Fits}
use tinypipe.Vm.Call.{
  call_target, call_params, check_schema, settle, dispatch, is_reserved, exec_call, error_value,
  write_result,
}
use tinypipe.Vm.Call.Local.{call_subgraph-IsLocal}

module _ {F : Type 0} (x : Executor F) (n limit : ℕ) (Serial : Type 0) where
  settle-Fits :
      (node : Node) (target : String) (st : State F) (r : Value F ⊎ String)
      → Fits n limit Serial st
      → Ensures (Fits n limit Serial) (settle x node target st r)
  unfolding settle
  settle-Fits node target st (inl v) h =
      returns (record { counters = h.counters; counted = h.counted })
  settle-Fits node target st (inr message) h = by_policy (error_value x node)
    where
      by_policy :
          (o : Option (Value F))
          → Ensures (Fits {F = F} n limit Serial) (elim o [
            | none ↦ err (call_failed target message)
            | some v ↦ ok (write_result node v st)
          ])
      by_policy none = raises
      by_policy (some v) = returns (record { counters = h.counters; counted = h.counted })

  pub exec_call-Fits :
      (node : Node) (st : State F)
      → Fits n limit Serial st
      → Ensures (Fits n limit Serial) (exec_call x node st)
  unfolding exec_call
  exec_call-Fits node st h =
      let target = call_target x node in
      let params = call_params x is_reserved node.args st end in
      Ensures-if (starts_with target "subgraph:")
        (Ensures-bind (call_subgraph-IsLocal x node st target params)
          (λ st' l. propagate_edges-Fits x n limit Serial node st' (IsLocalTo-Fits l h)))
        (Ensures-then (check_schema x node target st) (λ _.
          Ensures-bind (settle-Fits node target st (dispatch x node target params st) h)
            (propagate_edges-Fits x n limit Serial node)))
