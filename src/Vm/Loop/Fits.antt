-- ===== src/Vm/Loop/Fits.antt =====
-- A LOOP keeps the number of the control counters, and the node count within the budget.
use tinypipe.Prelude.{
  ℕ, zero, suc, ◌+◌, ◌-◌, String, ◌≡◌, Bool, true, false, not, Option, none, some, List, [], ◌∷◌,
  drop, contains, insert, if◌then◌else◌, ◌==◌, ◌&&◌, all, length,
}
use tinypipe.Api.Value.{Value}
use tinypipe.Ir.Plan.{Node, Edge, get_node, is_data, find_arg}
use tinypipe.Vm.Error.{
  Result, ok, err, Ensures, returns, raises, Ensures-if, Ensures-bind, Ensures-map,
}
use tinypipe.Vm.Pause.{PausePolicy}
use tinypipe.Vm.Machine.{Executor, State, Frame, NodeOutcome, node_ok, node_paused}
use tinypipe.Vm.Fits.{Fits, IsLocalTo-Fits}
use tinypipe.Vm.Budget.{charge, charge-Ensures, node_budget, counted}
use tinypipe.Vm.Edges.Fits.{follow-Fits, satisfy-Fits}
use tinypipe.Vm.Gate.{branch_mismatch}
use tinypipe.Vm.Loop.{
  Flow, go, go_unchecked, leave, end_round, RoundEnd, next_round, left, paused_at, exec_in_body,
  after_node, body_step, run_body, after_round, run_rounds, begin_round, set_target, pauses,
  fill_value, fill_read, fill_reads, enable_when, enable_fed, data_preds, leave_edges, finish_loop,
  finish_outcome, skip_body, run_anchored, run_loop, body_order, max_iterations, body_of,
}
use tinypipe.Vm.Loop.Kept.{body_op-IsLocal}

module _ {F : Type 0} (x : Executor F) (n : ℕ) (Serial : Type 0) where
  abbrev Fit : State F → Type 0
  Fit = Fits n (node_budget x) Serial

  pub charge-Fits : (node : Node) (st : State F) → Fit st → Ensures Fit (charge x node st)
  charge-Fits node st h =
      Ensures-map (λ st' c. record { counters = counters_of (c.0); counted = λ s. c.1 })
        (charge-Ensures x node st)
    where
      counters_of : {st' : State F} → st' ≡ counted x st → length st'.control_satisfied ≡ n
      counters_of e = rw e (h.counters)

  set_target-Fits :
      (o : Option String) (iteration : ℕ) (st : State F) → Fit st → Fit (set_target o iteration st)
  unfolding set_target
  set_target-Fits none iteration st h = h
  set_target-Fits (some name) iteration st h = record { counters = h.counters; counted = h.counted }

  begin_round-Fits :
      (node : Node) (iteration : ℕ) (st : State F) → Fit st → Fit (begin_round node iteration st)
  unfolding begin_round
  begin_round-Fits node iteration st h = set_target-Fits _ iteration st h

  if-Fit : (b : Bool) (st st' : State F) → Fit st → Fit st' → Fit (if b then st else st')
  if-Fit true st st' h h' = h
  if-Fit false st st' h h' = h'

  module _ (frame : Frame) where
    leave_edges-Fits :
        (index : ℕ) (body : List ℕ) (es : List Edge) (st : State F)
        → Fit st
        → Fit (leave_edges x frame index body es st)
    unfolding leave_edges
    leave_edges-Fits index body [] st h = h
    leave_edges-Fits index body (e ∷ es) st h = leave_edges-Fits index body es _ (
        if-Fit ((e.from_index == index) && not (contains body e.to_index)) _ _
          (if-Fit (is_data e.kind) _ _ (follow-Fits x n (node_budget x) Serial e h)
            (satisfy-Fits x n (node_budget x) Serial e h))
          h)

    fill_value-Fits :
        (index : ℕ) (r : Result (Value F)) (st : State F)
        → Fit st
        → Fit (fill_value x frame index r st)
    unfolding fill_value
    fill_value-Fits index (ok v) st h = record { counters = h.counters; counted = h.counted }
    fill_value-Fits index (err _) st h = h

    fill_read-Fits :
        (nd : Node) (o : Option String) (st : State F) → Fit st → Fit (fill_read x frame nd o st)
    unfolding fill_read
    fill_read-Fits nd none st h = h
    fill_read-Fits nd (some expr) st h = fill_value-Fits nd.index _ st h

    fill_reads-Fits :
        (body : List ℕ) (nds : List Node) (st : State F)
        → Fit st
        → Fit (fill_reads x frame body nds st)
    unfolding fill_reads
    fill_reads-Fits body [] st h = h
    fill_reads-Fits body (nd ∷ nds) st h =
        fill_reads-Fits body nds _
          (if-Fit _ _ _ h (fill_read-Fits nd (find_arg nd.args "expr") st h))

    enable_when-Fits :
        (body : List ℕ) (index : ℕ) (ps : List ℕ) (st : State F)
        → Fit st
        → Fit (enable_when x frame body index ps st)
    unfolding enable_when
    enable_when-Fits body index [] st h = h
    enable_when-Fits body index (p ∷ ps) st h =
        if-Fit (all (contains body) (p ∷ ps)) (record st { enabled = insert index st.enabled }) st
          (record { counters = h.counters; counted = h.counted }) h

    enable_fed-Fits :
        (body : List ℕ) (nds : List Node) (st : State F)
        → Fit st
        → Fit (enable_fed x frame body nds st)
    unfolding enable_fed
    enable_fed-Fits body [] st h = h
    enable_fed-Fits body (nd ∷ nds) st h =
        enable_fed-Fits body nds _
          (if-Fit _ _ _ h (enable_when-Fits body nd.index (data_preds x frame nd.index) st h))

    finish_loop-Fits : (node : Node) (st : State F) → Fit st → Fit (finish_loop x frame node st)
    unfolding finish_loop
    finish_loop-Fits node st h =
        let body = body_of x frame node in
        let k = leave_edges-Fits node.index body x.plan.edges _ (
          if-Fit (contains st.loop_skipped node.index) _ _ h
            (enable_fed-Fits body x.plan.nodes _ (fill_reads-Fits body x.plan.nodes st h))) in
        record { counters = k.counters; counted = k.counted }

    module _ (pause : Option PausePolicy) (node : Node) where
      after_node-Fits :
          (iteration position : ℕ) (id : String) (rest : State F → Result (RoundEnd × State F))
          (r : Flow × State F)
          → ((st : State F) → Fit st → Ensures (λ t. Fit t.1) (rest st))
          → Fit r.1
          → Ensures (λ t. Fit t.1) (after_node x frame pause node iteration position id rest r)
      unfolding after_node
      after_node-Fits iteration position id rest (leave, st) hr h = returns h
      after_node-Fits iteration position id rest (end_round, st) hr h = returns h
      after_node-Fits iteration position id rest (go_unchecked, st) hr h = hr st h
      after_node-Fits iteration position id rest (go, st) hr h =
          Ensures-if (pauses x pause st.node_count id) (returns h) (hr st h)

      body_step-Fits :
          (iteration position idx : ℕ) (o : Option Node)
          (rest : State F → Result (RoundEnd × State F)) (st : State F)
          → ((st : State F) → Fit st → Ensures (λ t. Fit t.1) (rest st))
          → Fit st
          → Ensures (λ t. Fit t.1) (body_step x frame pause node iteration position idx o rest st)
      unfolding body_step exec_in_body
      body_step-Fits iteration position idx none rest st hr h = raises
      body_step-Fits iteration position idx (some nd) rest st hr h =
          Ensures-if (branch_mismatch x.plan st.node_outputs nd.op idx) (hr st h) (
            Ensures-bind (charge-Fits nd st h) λ st₁ h₁.
              Ensures-bind (body_op-IsLocal x nd.op nd st₁)
                λ r l. after_node-Fits iteration position nd.id rest r hr (IsLocalTo-Fits l h₁))

      run_body-Fits :
          (iteration position : ℕ) (nodes : List ℕ) (st : State F)
          → Fit st
          → Ensures (λ t. Fit t.1) (run_body x frame pause node iteration position nodes st)
      unfolding run_body
      run_body-Fits iteration position [] st h = returns h
      run_body-Fits iteration position (idx ∷ rest) st h =
          body_step-Fits iteration position idx (get_node x.plan idx) _ st
            (λ st₁ h₁. run_body-Fits iteration (position + 1) rest st₁ h₁) h

      after_round-Fits :
          (rest : State F → Result (NodeOutcome × State F)) (r : RoundEnd × State F)
          → ((st : State F) → Fit st → Ensures (λ t. Fit t.1) (rest st))
          → Fit r.1
          → Ensures (λ t. Fit t.1) (after_round x frame pause node rest r)
      unfolding after_round
      after_round-Fits rest (next_round, st) hr h = hr st h
      after_round-Fits rest (left, st) hr h = returns h
      after_round-Fits rest (paused_at ls, st) hr h = returns h

      run_rounds-Fits :
          (nodes : List ℕ) (left_over iteration skip : ℕ) (st : State F)
          → Fit st
          → Ensures (λ t. Fit t.1) (run_rounds x frame pause node nodes left_over iteration skip st)
      unfolding run_rounds
      run_rounds-Fits nodes zero iteration skip st h = returns h
      run_rounds-Fits nodes (suc left_over) iteration skip st h =
          Ensures-bind
            (run_body-Fits iteration skip (drop skip nodes) (begin_round node iteration st)
              (begin_round-Fits node iteration st h))
            λ r hr. after_round-Fits _ r (run_rounds-Fits nodes left_over (iteration + 1) 0) hr

      finish_outcome-Fits :
          (r : NodeOutcome × State F)
          → Fit r.1
          → Ensures (λ t. Fit t.1) (finish_outcome x frame pause node r)
      unfolding finish_outcome
      finish_outcome-Fits (node_ok, st) h = returns (finish_loop-Fits node st h)
      finish_outcome-Fits (node_paused ls, st) h = returns h

      run_anchored-Fits :
          (entries : List ℕ) (iteration skip : ℕ) (st : State F)
          → Fit st
          → Ensures (λ t. Fit t.1) (run_anchored x frame pause node entries iteration skip st)
      unfolding run_anchored skip_body
      run_anchored-Fits [] iteration skip st h = returns (finish_loop-Fits node st h)
      run_anchored-Fits (_ ∷ _) iteration skip st h =
          Ensures-bind
            (run_rounds-Fits (body_order x frame node)
              (max_iterations x node st.node_outputs - iteration) iteration skip
              (skip_body x frame pause node st)
              (record { counters = h.counters; counted = h.counted }))
            finish_outcome-Fits

      pub run_loop-Fits :
          (iteration skip : ℕ) (st : State F)
          → Fit st
          → Ensures (λ t. Fit t.1) (run_loop x frame pause node iteration skip st)
      unfolding run_loop
      run_loop-Fits iteration skip st h = run_anchored-Fits _ iteration skip st h
