-- ===== src/Vm/Loop.antt =====
-- `run_loop` of tinypipe-vm/src/compiled_executor.rs: the rounds of a LOOP, its pauses and its end.
pub mod Kept
pub mod Fits
pub mod Resume
use tinypipe.Prelude.{
  ℕ, zero, suc, ◌+◌, ◌-◌, ◌%◌, ◌^◌, String, Bool, true, false, not, ◌&&◌, ◌||◌, Option, none, some,
  List, [], ◌∷◌, map, ltb, ◌==◌, str_eq, if◌then◌else◌, length, drop, keep, any, all, find?,
  unwrap_or, is_some, contains, insert, insert_all, Map, lookup, put,
}
use tinypipe.Api.Int.{ℤ, pos, negsuc}
use tinypipe.Api.Value.{Value, null, int, string}
use tinypipe.Api.Context
use tinypipe.Ir.Plan.{
  Opcode, input, calc, call, decide, act, Node, Arg, Edge, is_data, is_input, is_calc, op_at,
  find_arg, get_node,
}
use tinypipe.Vm.Error.{Result, ok, err, ◌>>=◌, node_not_found, ◌&◌}
use tinypipe.Vm.Text.{trim_quotes, parse_u32, decimal}
use tinypipe.Vm.Pause.{PausePolicy, should_pause, LoopState}
use tinypipe.Vm.Machine.{Executor, State, Frame, NodeOutcome, node_ok, node_paused}
use tinypipe.Vm.Graph.{anchors, loop_body}
use tinypipe.Vm.Gate.{op_is, branch_mismatch}
use tinypipe.Vm.Budget.{charge}
use tinypipe.Vm.Edges.{follow, satisfy}
use tinypipe.Vm.Call.{text_arg, record_output, exec_call_in_body}
use tinypipe.Vm.Ops.{
  exec_input_in_body, compute, exec_decide_in_body, action_type, return_content, pred_value,
}

-- What the body goes on with after a node: the pause check and the next node; the next node with no
-- check, as after a subgraph; the end of the loop; or the end of the round.
pub data Flow : Type 0 where
  go go_unchecked leave end_round : Flow

-- How a round ends.
pub data RoundEnd : Type 0 where
  next_round left : RoundEnd
  paused_at : LoopState → RoundEnd

-- `bound.max(0) as u32`
abbrev pub as_bound : ℤ → ℕ
as_bound (pos n) = n % 2 ^ 32
as_bound (negsuc n) = 0

module _ {F : Type 0} where
  abbrev pub int_of : Option (Value F) → Option ℤ
  int_of (some (int i)) = some i
  int_of _ = none

  set_target : Option String → ℕ → State F → State F
  unfolding Context.set
  set_target none iteration st = st
  set_target (some name) iteration st = record st {
    ctx = Context.set st.ctx name (int (pos iteration));
  }

  -- `ctx.set(target, iteration)`
  unfoldable pub begin_round : Node → ℕ → State F → State F
  unfolding set_target trim_quotes
  begin_round node iteration st = set_target (text_arg node "target") iteration st

module _ {F : Type 0} (x : Executor F) where
  static_bound : Node → ℕ
  unfolding parse_u32
  static_bound node = elim (find_arg node.args "max_iterations") [
    | none ↦ 100
    | some v ↦ unwrap_or (parse_u32 v) 100
  ]

  -- a data edge into the LOOP, not from an INPUT
  carries_bound : ℕ → Edge → Bool
  carries_bound index e =
      ((e.to_index == index) && is_data e.kind) && not (op_is is_input (op_at x.plan e.from_index))

  edge_bound : ℕ → Map (Value F) → Edge → Option ℤ
  unfolding carries_bound lookup
  edge_bound index outputs e =
      if carries_bound index e then int_of (lookup e.from_index outputs) else none

  abbrev first_of_two : Option ℤ → Option ℤ → Option ℤ
  first_of_two (some i) o = some i
  first_of_two none o = o

  -- the first such edge that carries an integer
  bound_on : ℕ → Map (Value F) → List Edge → Option ℤ
  unfolding edge_bound
  bound_on index outputs [] = none
  bound_on index outputs (e ∷ es) =
      first_of_two (edge_bound index outputs e) (bound_on index outputs es)

  -- `max_iter`
  unfoldable pub max_iterations : Node → Map (Value F) → ℕ
  unfolding static_bound bound_on
  max_iterations node outputs = elim (bound_on node.index outputs x.plan.edges) [
    | none ↦ static_bound node
    | some i ↦ as_bound i
  ]

  return_in_body : Node → State F → Value F
  unfolding return_content pred_value
  return_in_body node st = elim (return_content x node st) [
    | some v ↦ v
    | none ↦ unwrap_or (pred_value x.plan.edges node.index st.node_outputs) null
  ]

  -- `Opcode::Act` in a LOOP body: the markers of `return`, `break` and `continue`
  unfoldable pub exec_act_in_body : Node → State F → Flow × State F
  unfolding action_type return_in_body put
  exec_act_in_body node st =
      let action = action_type node in
      if str_eq action "return"
      then (leave, record_output node.index (return_in_body node st) st)
      else if str_eq action "break"
      then (leave, st)
      else if str_eq action "continue"
      then (end_round, st)
      else (go, record_output node.index (string ("[ACT:" & action & "]")) st)

  -- the `match` on the opcode of a body node
  unfoldable pub body_op : Opcode → Node → State F → Result (Flow × State F)
  unfolding compute exec_call_in_body exec_decide_in_body exec_input_in_body exec_act_in_body put
  body_op calc node st = do st' ← compute x node st; ok (go, st')
  body_op call node st =
      exec_call_in_body x node st >>= λ r. ok (if r.0 then go_unchecked else go, r.1)
  body_op decide node st = do st' ← exec_decide_in_body x node st; ok (go, st')
  body_op input node st = ok (go, exec_input_in_body x node st)
  body_op act node st = ok (exec_act_in_body node st)
  body_op _ node st = ok (go, record_output node.index null st)

  unfoldable pub exec_in_body : Node → State F → Result (Flow × State F)
  unfolding body_op
  exec_in_body node st = body_op node.op node st

  abbrev pub pauses : Option PausePolicy → ℕ → String → Bool
  pauses none count id = false
  pauses (some p) count id = should_pause p count id

  module _ (frame : Frame) where
    -- `loop_bodies.get(&node.index)`, or the empty set
    body_of : Node → List ℕ
    unfolding lookup
    body_of node = unwrap_or (lookup node.index frame.loop_bodies) []

    fill_value : ℕ → Result (Value F) → State F → State F
    unfolding put
    fill_value index (ok v) st = record_output index v st
    fill_value index (err _) st = st

    fill_read : Node → Option String → State F → State F
    unfolding fill_value
    fill_read nd none st = st
    fill_read nd (some expr) st =
        fill_value nd.index (x.evaluator.eval_expression expr st.ctx st.node_outputs) st

    -- Body calcs that only read get their value from the context, if they have none yet.
    fill_reads : List ℕ → List Node → State F → State F
    unfolding lookup fill_read
    fill_reads body [] st = st
    fill_reads body (nd ∷ nds) st = fill_reads body nds (
        if not (contains body nd.index)
          || not (is_calc nd.op)
          || any (λ (a : Arg). str_eq a.key "output") nd.args
          || is_some (lookup nd.index st.node_outputs)
        then st
        else fill_read nd (find_arg nd.args "expr") st)

    data_preds : ℕ → List ℕ
    data_preds index =
        map (λ (e : Edge). e.from_index)
          (keep (λ (e : Edge). (e.to_index == index) && is_data e.kind) x.plan.edges)

    enable_when : List ℕ → ℕ → List ℕ → State F → State F
    unfolding insert
    enable_when body index [] st = st
    enable_when body index (p ∷ ps) st =
        if all (contains body) (p ∷ ps) then record st { enabled = insert index st.enabled } else st

    -- Nodes that only the body feeds are enabled.
    enable_fed : List ℕ → List Node → State F → State F
    unfolding data_preds enable_when
    enable_fed body [] st = st
    enable_fed body (nd ∷ nds) st = enable_fed body nds (
        if contains st.enabled nd.index || contains st.loop_skipped nd.index
        then st
        else enable_when body nd.index (data_preds nd.index) st)

    -- the edges that leave the LOOP for nodes outside the body
    leave_edges : ℕ → List ℕ → List Edge → State F → State F
    unfolding follow satisfy
    leave_edges index body [] st = st
    leave_edges index body (e ∷ es) st = leave_edges index body es (
        if (e.from_index == index) && not (contains body e.to_index)
        then (if is_data e.kind then follow e st else satisfy e st)
        else st)

    -- everything that `run_loop` does after the rounds
    unfoldable pub finish_loop : Node → State F → State F
    unfolding body_of fill_reads enable_fed leave_edges put
    finish_loop node st =
        let body = body_of node in
        let fed =
          if contains st.loop_skipped node.index
          then st
          else enable_fed body x.plan.nodes (fill_reads body x.plan.nodes st) in
        record_output node.index null (leave_edges node.index body x.plan.edges fed)

    -- the body in the order of the run
    unfoldable pub body_order : Node → List ℕ
    unfolding loop_body
    body_order node = keep (contains (loop_body x.plan.edges node.index)) frame.order

    module _ (pause : Option PausePolicy) (node : Node) where
      -- What follows a body node, given what the rest of the body does.
      unfoldable pub after_node :
          ℕ
          → ℕ
          → String
          → (State F → Result (RoundEnd × State F))
          → Flow × State F
          → Result (RoundEnd × State F)
      unfolding should_pause
      after_node iteration position id rest (leave, st) = ok (left, st)
      after_node iteration position id rest (end_round, st) = ok (next_round, st)
      after_node iteration position id rest (go_unchecked, st) = rest st
      after_node iteration position id rest (go, st) =
          if pauses pause st.node_count id
          then ok (
            paused_at (record {
              loop_index = node.index;
              iteration = iteration;
              body_position = position + 1;
            }),
            st,
          )
          else rest st

      -- One body node.
      unfoldable pub body_step :
          ℕ
          → ℕ
          → ℕ
          → Option Node
          → (State F → Result (RoundEnd × State F))
          → State F
          → Result (RoundEnd × State F)
      unfolding branch_mismatch charge exec_in_body after_node decimal
      body_step iteration position idx none rest st =
          err (node_not_found ("body index " & decimal idx))
      body_step iteration position idx (some body_node) rest st =
          if branch_mismatch x.plan st.node_outputs body_node.op idx then rest st else do
            st₁ ← charge x body_node st
            r ← exec_in_body body_node st₁
            after_node iteration position body_node.id rest r

      -- The nodes of the body that are left in a round, from a position on.
      unfoldable pub run_body : ℕ → ℕ → List ℕ → State F → Result (RoundEnd × State F)
      unfolding body_step
      run_body iteration position [] st = ok (next_round, st)
      run_body iteration position (idx ∷ rest) st =
          body_step iteration position idx (get_node x.plan idx)
            (run_body iteration (position + 1) rest) st

      unfoldable pub after_round :
          (State F → Result (NodeOutcome × State F))
          → RoundEnd × State F
          → Result (NodeOutcome × State F)
      after_round rest (next_round, st) = rest st
      after_round rest (left, st) = ok (node_ok, st)
      after_round rest (paused_at ls, st) = ok (node_paused ls, st)

      -- `for iteration in start_iteration..max_iter`; the first round starts at the body position.
      unfoldable pub run_rounds : List ℕ → ℕ → ℕ → ℕ → State F → Result (NodeOutcome × State F)
      unfolding run_body begin_round after_round
      run_rounds body zero iteration skip st = ok (node_ok, st)
      run_rounds body (suc left_over) iteration skip st =
          run_body iteration skip (drop skip body) (begin_round node iteration st)
          >>= after_round (run_rounds body left_over (iteration + 1) 0)

      unfoldable pub finish_outcome : NodeOutcome × State F → Result (NodeOutcome × State F)
      unfolding finish_loop
      finish_outcome (node_ok, st) = ok (node_ok, finish_loop node st)
      finish_outcome (node_paused ls, st) = ok (node_paused ls, st)

      -- the body nodes are left out of the main pass
      unfoldable pub skip_body : State F → State F
      unfolding loop_body insert_all
      skip_body st = record st {
        loop_skipped = insert_all (loop_body x.plan.edges node.index) st.loop_skipped;
      }

      -- `run_loop` for the data anchors, with the cursor's iteration and body position (both 0
      -- without a cursor)
      unfoldable pub run_anchored : List ℕ → ℕ → ℕ → State F → Result (NodeOutcome × State F)
      unfolding max_iterations run_rounds body_order finish_outcome skip_body
      run_anchored [] iteration skip st = ok (node_ok, finish_loop node st)
      run_anchored (_ ∷ _) iteration skip st =
          run_rounds (body_order node) (max_iterations node st.node_outputs - iteration) iteration
            skip (skip_body st)
          >>= finish_outcome

      unfoldable pub run_loop : ℕ → ℕ → State F → Result (NodeOutcome × State F)
      unfolding anchors run_anchored
      run_loop iteration skip st =
          run_anchored (anchors true node.index x.plan.edges) iteration skip st
