-- ===== src/Vm/Budget.antt =====
-- The budget checks of tinypipe-vm/src/compiled_executor.rs, made before a node runs.
use tinypipe.Prelude.{
  ℕ, ◌*◌, ◌/◌, ◌≤◌, ◌≡◌, refl, Bool, false, Bool-cases, inl, inr, arith, none, some, [], ◌∷◌, ◌++◌,
  ltb, add_u32, if◌then◌else◌,
}
use tinypipe.Api.Context
use tinypipe.Api.Context.Merge.{estimated_bytes}
use tinypipe.Ir.Plan.{Node}
use tinypipe.Vm.Error.{
  Result, ok, err, ◌>>=◌, Ensures, returns, raises, Ensures-if, time_limit_exceeded,
  node_budget_exceeded, memory_limit_exceeded,
}
use tinypipe.Vm.Machine.{Executor, State}

module _ {F : Type 0} (x : Executor F) where
  abbrev pub time_limit_us : ℕ
  time_limit_us = x.plan.metadata.max_execution_time_ms * 1000

  abbrev pub node_budget : ℕ
  node_budget = x.plan.metadata.max_node_execution_count

  abbrev pub mem_limit : ℕ
  mem_limit = x.plan.metadata.max_context_memory_bytes

  abbrev pub counted : State F → State F
  counted st = record st { node_count = add_u32 st.node_count 1 }

  abbrev out_of_time : Node → State F → Bool
  out_of_time node st = ltb time_limit_us (x.host.elapsed_us node.index (counted st).node_count)

  abbrev over_budget : State F → Bool
  over_budget st = ltb node_budget (counted st).node_count

  -- `*node_count += 1`, then the clock, then the node budget
  unfoldable pub charge : Node → State F → Result (State F)
  charge node st =
      if out_of_time node st
      then err (time_limit_exceeded (time_limit_us / 1000))
      else if over_budget st
      then err (node_budget_exceeded (counted st).node_count node_budget)
      else ok (counted st)

  -- A charge that passes counts the node, and the count is within the budget.
  pub charge-Ensures :
      (node : Node) (st : State F)
      → Ensures (λ st'. (st' ≡ counted st) × (st'.node_count ≤ node_budget)) (charge node st)
  unfolding charge
  charge-Ensures node st = elim (Bool-cases (over_budget st)) [
    | inl e ↦ rw e (Ensures-if (out_of_time node st) raises raises)
    | inr e ↦ rw e (Ensures-if (out_of_time node st) raises (returns (refl, within e)))
  ]
    where
      within : over_budget st ≡ false → (counted st).node_count ≤ node_budget
      within e = ground arith

  unfoldable pub check_memory : State F → Result (State F)
  unfolding estimated_bytes
  check_memory st =
      let bytes = estimated_bytes x.host.value_bytes st.ctx in
      if ltb mem_limit bytes then err (memory_limit_exceeded mem_limit bytes) else ok st

  -- `execution_order.push(node.id)`, and the branch of the node becomes the active one
  unfoldable pub enter_node : Node → State F → State F
  unfolding Context.set_branch Context.clear_branch
  enter_node node st = record st {
    execution_order = st.execution_order ++ (node.id ∷ []);
    ctx = elim node.branch_id [
      | none ↦ Context.clear_branch st.ctx
      | some bid ↦ Context.set_branch st.ctx bid
    ];
  }

  -- everything that `run_node` does between the gates and the opcode
  unfoldable pub admit : Node → State F → Result (State F)
  unfolding charge check_memory enter_node
  admit node st = do st₁ ← charge node st; st₂ ← check_memory st₁; ok (enter_node node st₂)
