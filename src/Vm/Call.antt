-- ===== src/Vm/Call.antt =====
-- The CALL of tinypipe-vm/src/compiled_executor.rs: arguments, subgraphs, schema drift, error policy.
-- The node and the LOOP body have different code; what they share stands first.
pub mod Local
pub mod Fits
use Prim.Native.String.{String}
use text.Mathlib.Text.{starts_with}
use tinypipe.Prelude.{
  ℕ, suc, ◌+◌, Bool, true, false, not, ◌&&◌, ◌||◌, Option, none, some, List, [], ◌∷◌, leb, ltb,
  ◌==◌, str_eq, if◌then◌else◌, find?, unwrap_or, put, ◌⊎◌, inl, inr,
}
use tinypipe.Api.Value
use tinypipe.Api.Value.{Value, Fields, end, field, null}
use tinypipe.Api.Context
use tinypipe.Api.Context.{Context}
use tinypipe.Ir.Plan.{Node, Arg, ToolDep, find_arg}
use tinypipe.Vm.Error.{
  Result, ok, err, ◌>>=◌, recursion_limit_exceeded, call_failed, schema_drift_detected,
}
use tinypipe.Vm.Text.{trim_quotes, is_empty, trim_start_matches}
use tinypipe.Vm.Machine.{Executor, State, CallTarget, SubgraphResult}
use tinypipe.Vm.Edges.{propagate_edges}

abbrev pub text_arg : Node → String → Option String
text_arg node key = elim (find_arg node.args key) [ none ↦ none | some v ↦ some (trim_quotes v) ]

module _ {F : Type 0} where
  -- `node_outputs.insert(node.index, value)`
  abbrev pub record_output : ℕ → Value F → State F → State F
  record_output index v st = record st { node_outputs = put index v st.node_outputs }

  -- `if let Some(name) = output_var { ctx.set(name, value) }`
  abbrev pub write_var : Option String → Value F → Context F → Context F
  write_var none v c = c
  write_var (some name) v c = Context.set c name v

  abbrev pub write_result : Node → Value F → State F → State F
  write_result node v st = record st {
    ctx = write_var (text_arg node "output") v st.ctx;
    node_outputs = put node.index v st.node_outputs;
  }

  -- `for (k, v) in fields { ctx.set(k, v) }`
  unfoldable pub set_all : Fields F → Context F → Context F
  unfolding Context.set
  set_all end c = c
  set_all (field k v rest) c = set_all rest (Context.set c k v)

-- the arguments that are no parameters of the call
unfoldable pub is_reserved : String → Bool
is_reserved key =
    str_eq key "target"
    || str_eq key "output"
    || str_eq key "on_error"
    || str_eq key "fallback_value"

-- inside a LOOP body only two are taken out
unfoldable pub is_reserved_in_body : String → Bool
is_reserved_in_body key = str_eq key "target" || str_eq key "output"

module _ {F : Type 0} (x : Executor F) where
  call_params : (String → Bool) → List Arg → State F → Fields F → Fields F
  unfolding Value.insert
  call_params reserved [] st params = params
  call_params reserved (a ∷ rest) st params = call_params reserved rest st (
      if reserved a.key
      then params
      else Value.insert a.key (x.evaluator.resolve_arg_value a.value st.ctx st.node_outputs) params)

  merge_subgraph : Node → State F → String → SubgraphResult F ⊎ String → Result (State F)
  unfolding set_all Context.set put trim_quotes
  merge_subgraph node st name (inr message) = err (call_failed name message)
  merge_subgraph node st name (inl result) = ok (
      write_result node result.output (record st { ctx = set_all result.context.variables st.ctx }))

  -- Subgraph dispatch, up to the output of the node.
  unfoldable pub call_subgraph : Node → String → Fields F → State F → Result (State F)
  unfolding set_all trim_start_matches merge_subgraph
  call_subgraph node target params st =
      let name = trim_start_matches "subgraph:" target in
      if leb x.plan.metadata.max_recursion_depth (x.host.in_progress node.index st.node_count)
      then err (recursion_limit_exceeded name)
      else merge_subgraph node st name
          (x.host.execute_subgraph node.index st.node_count name (set_all params st.ctx))

  drift : String → Option ToolDep → Option String → Result (Unit {0})
  unfolding is_empty
  drift tool none latest = ok tt
  drift tool (some dep) none = ok tt
  drift tool (some dep) (some hash) =
      if not (is_empty hash) && not (str_eq dep.schema_hash hash)
      then err (schema_drift_detected tool dep.schema_hash hash)
      else ok tt

  -- A pinned schema hash is compared with the registry's before the dispatch.
  unfoldable pub check_schema : Node → String → State F → Result (Unit {0})
  unfolding trim_start_matches drift is_empty
  check_schema node target st =
      if starts_with target "rpc:"
      then ok tt
      else (let tool = trim_start_matches "tool:" target in
          drift tool
            (find? (λ (d : ToolDep). str_eq d.name tool && not (is_empty d.schema_hash))
              x.plan.metadata.tool_deps)
            (x.host.latest_schema_hash node.index st.node_count tool))

  -- `on_error`: the value that stands for a failed call, or none to abort.
  unfoldable pub error_value : Node → Option (Value F)
  unfolding trim_quotes
  error_value node =
      let on_error = unwrap_or (text_arg node "on_error") "abort" in
      if str_eq on_error "continue_with_null"
      then some null
      else if str_eq on_error "continue_with_fallback"
      then elim (find_arg node.args "fallback_value") [
        | none ↦ some null
        | some fallback ↦ some (x.evaluator.parse_json_value fallback)
      ]
      else none

  -- the `match` on the result of `dispatch`
  settle : Node → String → State F → Value F ⊎ String → Result (State F)
  unfolding error_value Context.set put trim_quotes
  settle node target st (inl v) = ok (write_result node v st)
  settle node target st (inr message) = elim (error_value node) [
    | none ↦ err (call_failed target message)
    | some v ↦ ok (write_result node v st)
  ]

  -- in a LOOP body every failure aborts
  settle_in_body : Node → String → State F → Value F ⊎ String → Result (State F)
  unfolding Context.set put trim_quotes
  settle_in_body node target st (inl v) = ok (write_result node v st)
  settle_in_body node target st (inr message) = err (call_failed target message)

  dispatch : Node → String → Fields F → State F → Value F ⊎ String
  dispatch node target params st =
      x.host.dispatch node.index st.node_count (record { name = target; kwargs = params }) st.ctx

  unfoldable pub call_target : Node → String
  unfolding trim_quotes
  call_target node = unwrap_or (text_arg node "target") "unknown"

  -- `Opcode::Call` of `run_node`
  unfoldable pub exec_call : Node → State F → Result (State F)
  unfolding call_target call_params is_reserved call_subgraph check_schema settle dispatch
      propagate_edges
  exec_call node st =
      let target = call_target node in
      let params = call_params is_reserved node.args st end in
      if starts_with target "subgraph:"
      then (do st' ← call_subgraph node target params st; propagate_edges x node st')
      else do
        _ ← check_schema node target st
        st' ← settle node target st (dispatch node target params st)
        propagate_edges x node st'

  -- `Opcode::Call` of `run_loop`; the flag says that the call was a subgraph.
  unfoldable pub exec_call_in_body : Node → State F → Result (Bool × State F)
  unfolding call_target call_params is_reserved_in_body call_subgraph settle_in_body dispatch
  exec_call_in_body node st =
      let target = call_target node in
      let params = call_params is_reserved_in_body node.args st end in
      if starts_with target "subgraph:"
      then (do st' ← call_subgraph node target params st; ok (true, st'))
      else (do
        st' ← settle_in_body node target st (dispatch node target params st)
        ok (false, st'))
