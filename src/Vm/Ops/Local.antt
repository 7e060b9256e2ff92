-- ===== src/Vm/Ops/Local.antt =====
-- The opcodes of a LOOP body change the context and the node's own output only.
use tinypipe.Prelude.{String, refl, Option, none, some}
use tinypipe.Api.Value.{Value}
use tinypipe.Ir.Plan.{Node}
use tinypipe.Vm.Error.{Ensures, returns, Ensures-then}
use tinypipe.Vm.Machine.{Executor, State, IsLocalTo, wrote, same}
use tinypipe.Vm.Call.{text_arg}
use tinypipe.Vm.Ops.{compute, exec_input_in_body, exec_decide_in_body, decide_in_body, record_some}

module _ {F : Type 0} (x : Executor F) (node : Node) (st : State F) where
  abbrev IsLocal : State F → Type 0
  IsLocal st' = IsLocalTo node.index st st'

  pub compute-IsLocal : Ensures IsLocal (compute x node st)
  unfolding compute
  compute-IsLocal = Ensures-then _ (λ v. returns (wrote _ _ refl))

  pub record_some-IsLocal : (o : Option (Value F)) → IsLocal (record_some x node.index o st)
  unfolding record_some
  record_some-IsLocal none = same refl
  record_some-IsLocal (some v) = wrote _ _ refl

  pub exec_input_in_body-IsLocal : IsLocal (exec_input_in_body x node st)
  unfolding exec_input_in_body
  exec_input_in_body-IsLocal = record_some-IsLocal _

  decide_in_body-IsLocal : (o : Option String) → Ensures IsLocal (decide_in_body x node o st)
  unfolding decide_in_body
  decide_in_body-IsLocal none = returns (wrote _ _ refl)
  decide_in_body-IsLocal (some c) = Ensures-then _ (λ v. returns (wrote _ _ refl))

  pub exec_decide_in_body-IsLocal : Ensures IsLocal (exec_decide_in_body x node st)
  unfolding exec_decide_in_body
  exec_decide_in_body-IsLocal = decide_in_body-IsLocal (text_arg node "condition")
