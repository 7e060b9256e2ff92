-- ===== src/Vm/Ops/Fits.antt =====
-- The opcodes that run no other node keep the number of the control counters, and the node count.
use tinypipe.Prelude.{
  ℕ, String, Bool, true, false, Option, none, some, List, [], ◌∷◌, str_eq, ◌==◌, if◌then◌else◌, not,
  ◌&&◌,
}
use tinypipe.Api.Context
use tinypipe.Ir.Plan.{Node, Edge, find_arg}
use tinypipe.Vm.Error.{Ensures, returns, raises, Ensures-if, Ensures-bind}
use tinypipe.Vm.Machine.{Executor, State}
use tinypipe.Vm.Fits.{Fits, IsLocalTo-Fits}
use tinypipe.Vm.Edges.Fits.{propagate_edges-Fits, follow-Fits}
use tinypipe.Vm.Ops.{
  exec_input, exec_calc, exec_decide, exec_act, switch_on, switch_edge, switch_edges, switch_source,
  exec_switch, exec_wait, exec_merge, exec_error, input_name, input_value, action_type,
}
use tinypipe.Vm.Ops.Local.{compute-IsLocal, record_some-IsLocal}

module _ {F : Type 0} (x : Executor F) (n limit : ℕ) (Serial : Type 0) where
  abbrev Fit : State F → Type 0
  Fit = Fits n limit Serial

  pub exec_input-Fits : (node : Node) (st : State F) → Fit st → Ensures Fit (exec_input x node st)
  unfolding exec_input
  exec_input-Fits node st h = propagate_edges-Fits x n limit Serial node _ (
      IsLocalTo-Fits
        (record_some-IsLocal x node st
          (input_value x (Context.get st.ctx (input_name node)) (find_arg node.args "default")))
        h)

  pub exec_calc-Fits : (node : Node) (st : State F) → Fit st → Ensures Fit (exec_calc x node st)
  unfolding exec_calc
  exec_calc-Fits node st h =
      Ensures-bind (compute-IsLocal x node st)
        (λ st' l. propagate_edges-Fits x n limit Serial node st' (IsLocalTo-Fits l h))

  pub exec_decide-Fits : (node : Node) (st : State F) → Fit st → Ensures Fit (exec_decide x node st)
  unfolding exec_decide
  exec_decide-Fits node st h =
      propagate_edges-Fits x n limit Serial node _
        (record { counters = h.counters; counted = h.counted })

  pub exec_act-Fits : (node : Node) (st : State F) → Fit st → Ensures Fit (exec_act x node st)
  unfolding exec_act
  exec_act-Fits node st h =
      Ensures-if (str_eq (action_type node) "return")
        (propagate_edges-Fits x n limit Serial node _
          (record { counters = h.counters; counted = h.counted }))
        (propagate_edges-Fits x n limit Serial node _
          (record { counters = h.counters; counted = h.counted }))

  if-Fit : (b : Bool) (p q : Bool × State F) → Fit p.1 → Fit q.1 → Fit (if b then p else q).1
  if-Fit true p q hp hq = hp
  if-Fit false p q hp hq = hq

  switch_on-Fits :
      (o : Option String) (source : String) (e : Edge) (matched : Bool) (st : State F)
      → Fit st
      → Fit (switch_on x o source e matched st).1
  unfolding switch_on
  switch_on-Fits none source e matched st h =
      if-Fit matched _ _ h (follow-Fits x n limit Serial e h)
  switch_on-Fits (some cond) source e matched st h =
      if-Fit (str_eq cond source) _ _ (follow-Fits x n limit Serial e h)
        (if-Fit (str_eq cond "default" && not matched) _ _ (follow-Fits x n limit Serial e h) h)

  switch_edges-Fits :
      (index : ℕ) (source : String) (es : List Edge) (acc : Bool × State F)
      → Fit acc.1
      → Fit (switch_edges x index source es acc).1
  unfolding switch_edges switch_edge
  switch_edges-Fits index source [] acc h = h
  switch_edges-Fits index source (e ∷ es) (matched, st) h =
      switch_edges-Fits index source es _
        (if-Fit (e.from_index == index) _ _ (switch_on-Fits e.condition source e matched st h) h)

  pub exec_switch-Fits : (node : Node) (st : State F) → Fit st → Ensures Fit (exec_switch x node st)
  unfolding exec_switch
  exec_switch-Fits node st h =
      let k = switch_edges-Fits node.index (switch_source x node st) x.plan.edges (false, st) h in
      returns (record { counters = k.counters; counted = k.counted })

  pub exec_wait-Fits : (node : Node) (st : State F) → Fit st → Ensures Fit (exec_wait x node st)
  unfolding exec_wait
  exec_wait-Fits node st h = Ensures-if _ raises (
      propagate_edges-Fits x n limit Serial node _
        (record { counters = h.counters; counted = h.counted }))

  pub exec_merge-Fits : (node : Node) (st : State F) → Fit st → Ensures Fit (exec_merge x node st)
  unfolding exec_merge
  exec_merge-Fits node st h =
      propagate_edges-Fits x n limit Serial node _
        (record { counters = h.counters; counted = h.counted })

  pub exec_error-Fits : (node : Node) (st : State F) → Ensures Fit (exec_error x node st)
  unfolding exec_error
  exec_error-Fits node st = raises
