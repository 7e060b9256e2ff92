-- ===== src/Vm/Ops.antt =====
-- The opcodes of `run_node` in tinypipe-vm/src/compiled_executor.rs that run no other node. Where a LOOP
-- body runs an opcode in the same way, the common part is a definition of its own.
pub mod Local
pub mod Fits
use Prim.Native.String.{String, ◌++◌}
use tinypipe.Prelude.{
  ℕ, suc, ◌+◌, Bool, true, false, not, ◌&&◌, ◌||◌, Option, none, some, List, [], ◌∷◌, ltb, ◌==◌,
  str_eq, if◌then◌else◌, find?, keep, unwrap_or, is_some, insert, Map, lookup, put,
}
use tinypipe.Api.Int.{ℤ, pos, negsuc}
use tinypipe.Api.Value.{Value, Fields, Floats, null, bool, string, object}
use tinypipe.Api.Context
use tinypipe.Api.Context.{Context, all_variables}
use tinypipe.Api.Context.Merge.{merge_branches}
use tinypipe.Ir.Plan.{Node, Arg, Edge, is_data, find_arg}
use tinypipe.Vm.Error.{Result, ok, err, ◌>>=◌, custom}
use tinypipe.Vm.Text.{trim_quotes, is_empty, parse_i64, decimal_ℤ}
use tinypipe.Vm.Machine.{Executor, State}
use tinypipe.Vm.Edges.{propagate_edges, follow, format_value}
use tinypipe.Vm.Eval.Values.{is_truthy}
use tinypipe.Vm.Call.{text_arg, record_output}

-- the first argument with one of two keys
abbrev pub find_either : List Arg → String → String → Option String
find_either args k l = elim (find? (λ (a : Arg). str_eq a.key k || str_eq a.key l) args) [
  | none ↦ none
  | some a ↦ some a.value
]

unfoldable pub input_name : Node → String
unfolding trim_quotes
input_name node = unwrap_or (text_arg node "name") node.id

unfoldable pub action_type : Node → String
unfolding trim_quotes
action_type node = elim (find_either node.args "type" "action_type") [
  | none ↦ ""
  | some v ↦ trim_quotes v
]

module _ {F : Type 0} where
  -- `.filter_map(|e| node_outputs.get(&e.from_index)).next_back()`
  unfoldable pub last_output : (Edge → Bool) → Map (Value F) → List Edge → Option (Value F)
  unfolding lookup
  last_output p outputs [] = none
  last_output p outputs (e ∷ es) = elim (last_output p outputs es) [
    | some v ↦ some v
    | none ↦ if p e then lookup e.from_index outputs else none
  ]

  -- The value on the incoming data edges: the last of the unconditional ones, or else the last of all.
  unfoldable pub pred_value : List Edge → ℕ → Map (Value F) → Option (Value F)
  unfolding last_output
  pred_value edges index outputs =
      elim (last_output (λ e. (e.to_index == index) && is_data e.kind && not (is_some e.condition))
        outputs edges) [
          | some v ↦ some v
          | none ↦ last_output (λ e. (e.to_index == index) && is_data e.kind) outputs edges
        ]

  -- `if !output_var.is_empty() { ctx.set(output_var, result) }`
  write_named : Option String → Value F → Context F → Context F
  unfolding Context.set is_empty
  write_named none v c = c
  write_named (some name) v c = if is_empty name then c else Context.set c name v

module _ {F : Type 0} (x : Executor F) where
  input_value : Option (Value F) → Option String → Option (Value F)
  input_value (some v) default = some v
  input_value none none = none
  input_value none (some d) = some (x.evaluator.parse_json_value d)

  pub record_some : ℕ → Option (Value F) → State F → State F
  unfolding put
  record_some index none st = st
  record_some index (some v) st = record_output index v st

  -- `Opcode::Input` of `run_node`
  unfoldable pub exec_input : Node → State F → Result (State F)
  unfolding input_name input_value record_some Context.get propagate_edges
  exec_input node st = propagate_edges x node (
      record_some node.index
        (input_value (Context.get st.ctx (input_name node)) (find_arg node.args "default")) st)

  -- In a LOOP body there is no default.
  unfoldable pub exec_input_in_body : Node → State F → State F
  unfolding input_name record_some Context.get
  exec_input_in_body node st = record_some node.index (Context.get st.ctx (input_name node)) st

  -- `Opcode::Calc` without the edges, as both `run_node` and `run_loop` have it
  unfoldable pub compute : Node → State F → Result (State F)
  unfolding write_named put trim_quotes
  compute node st = do
    result ←
        x.evaluator.eval_expression (unwrap_or (find_arg node.args "expr") node.id) st.ctx
          st.node_outputs
    ok (record st {
      node_outputs = put node.index result st.node_outputs;
      ctx = write_named (text_arg node "output") result st.ctx;
    })

  unfoldable pub exec_calc : Node → State F → Result (State F)
  unfolding compute propagate_edges
  exec_calc node st = do st' ← compute node st; propagate_edges x node st'

  truth_or_false : Result (Value F) → Bool
  unfolding is_truthy
  truth_or_false (ok v) = is_truthy x.floats v
  truth_or_false (err e) = false

  -- `Opcode::Decide` of `run_node`: a condition that fails to evaluate is false.
  unfoldable pub exec_decide : Node → State F → Result (State F)
  unfolding truth_or_false put trim_quotes propagate_edges
  exec_decide node st =
      let decision : Bool = elim (text_arg node "condition") [
        | none ↦ false
        | some c ↦ truth_or_false (x.evaluator.eval_expression c st.ctx st.node_outputs)
      ] in
      propagate_edges x node (record_output node.index (bool decision) st)

  decide_in_body : Node → Option String → State F → Result (State F)
  unfolding is_truthy put
  decide_in_body node none st = ok (record_output node.index (bool false) st)
  decide_in_body node (some c) st = x.evaluator.eval_expression c st.ctx st.node_outputs >>= λ v.
      ok (record_output node.index (bool (is_truthy x.floats v)) st)

  -- In a LOOP body the failure is passed on.
  unfoldable pub exec_decide_in_body : Node → State F → Result (State F)
  unfolding decide_in_body trim_quotes
  exec_decide_in_body node st = decide_in_body node (text_arg node "condition") st

  -- the `content` or `value` argument of a return
  unfoldable pub return_content : Node → State F → Option (Value F)
  return_content node st = elim (find_either node.args "content" "value") [
    | none ↦ none
    | some v ↦ some (x.evaluator.resolve_arg_value v st.ctx st.node_outputs)
  ]

  act_text : Node → Value F
  unfolding action_type
  act_text node = string ("[ACT:" ++ action_type node ++ "]")

  -- The value that a return leaves: its content, a predecessor's output, or all the variables. The
  -- node's own text is recorded before the predecessors are read.
  return_value : Node → State F → Value F
  unfolding return_content pred_value all_variables
  return_value node st = elim (return_content node st) [
    | some v ↦ v
    | none ↦ elim (pred_value x.plan.edges node.index st.node_outputs) [
      | some v ↦ v
      | none ↦ object (all_variables st.ctx)
    ]
  ]

  -- `Opcode::Act` of `run_node`
  unfoldable pub exec_act : Node → State F → Result (State F)
  unfolding act_text action_type return_value put propagate_edges
  exec_act node st =
      let marked = record_output node.index (act_text node) st in
      if str_eq (action_type node) "return"
      then (let v = return_value node marked in
          propagate_edges x node (record (record_output node.index v marked) { output = some v }))
      else propagate_edges x node marked

  -- One outgoing edge of a SWITCH; the flag is `matched`.
  switch_on : Option String → String → Edge → Bool → State F → Bool × State F
  unfolding follow
  switch_on none source e matched st = if matched then (matched, st) else (matched, follow e st)
  switch_on (some cond) source e matched st =
      if str_eq cond source
      then (true, follow e st)
      else if str_eq cond "default" && not matched
      then (matched, follow e st)
      else (matched, st)

  switch_edge : String → Edge → Bool × State F → Bool × State F
  unfolding switch_on
  switch_edge source e (matched, st) = switch_on e.condition source e matched st

  unfoldable pub switch_edges : ℕ → String → List Edge → Bool × State F → Bool × State F
  unfolding switch_edge
  switch_edges index source [] acc = acc
  switch_edges index source (e ∷ es) acc =
      switch_edges index source es (if e.from_index == index then switch_edge source e acc else acc)

  unfoldable pub switch_source : Node → State F → String
  unfolding format_value
  switch_source node st = format_value x (elim (find_arg node.args "source") [
    | none ↦ null
    | some v ↦ x.evaluator.resolve_arg_value v st.ctx st.node_outputs
  ])

  -- `Opcode::Switch`
  unfoldable pub exec_switch : Node → State F → Result (State F)
  unfolding switch_source switch_edges put
  exec_switch node st =
      let source = switch_source node st in
      ok (
        record_output node.index (string source)
          (switch_edges node.index source x.plan.edges (false, st)).1)

  too_long : ℤ → Bool
  too_long (pos n) = ltb 300 n
  too_long (negsuc n) = false

  -- `Opcode::Wait`: the sleep itself changes nothing but the clock.
  unfoldable pub exec_wait : Node → State F → Result (State F)
  unfolding parse_i64 too_long decimal_ℤ put propagate_edges
  exec_wait node st =
      let secs : ℤ = elim (find_arg node.args "duration_secs") [
        | none ↦ pos 0
        | some v ↦ unwrap_or (parse_i64 v) (pos 0)
      ] in
      if too_long secs
      then err (custom ("WAIT duration " ++ (decimal_ℤ secs ++ "s exceeds v1 maximum of 300s")))
      else propagate_edges x node (record_output node.index null st)

  -- `Opcode::Merge`
  unfoldable pub exec_merge : Node → State F → Result (State F)
  unfolding merge_branches put propagate_edges
  exec_merge node st =
      let merged = merge_branches x.floats st.ctx in
      propagate_edges x node
        (record_output node.index (object merged.variables) (record st { ctx = merged }))

  -- `Opcode::Error`
  unfoldable pub exec_error : Node → State F → Result (State F)
  unfolding trim_quotes
  exec_error node st = err (custom (unwrap_or (text_arg node "message") "execution error"))
