-- ===== src/Vm/Edges.antt =====
-- `propagate_edges` and `format_value` of tinypipe-vm/src/compiled_executor.rs.
pub mod Fits
use tinypipe.Prelude.{
  ℕ, ◌+◌, String, Bool, true, false, not, ◌||◌, Option, none, some, List, [], ◌∷◌, ltb, ◌==◌,
  str_eq, if◌then◌else◌, length, get_or, set, insert, lookup,
}
use tinypipe.Api.Int.{ℤ, pos, negsuc}
use tinypipe.Api.Value.{Value, null, bool, int, float, string, array, object}
use tinypipe.Api.Context
use tinypipe.Api.Context.{Context}
use tinypipe.Ir.Plan.{Node, Edge, is_data, is_decide, op_at, switch, loop, parallel}
use tinypipe.Vm.Error.{Result, ok, ◌>>=◌}
use tinypipe.Vm.Text.{is_empty, decimal_ℤ}
use tinypipe.Vm.Eval.Values.{is_truthy}
use tinypipe.Vm.Gate.{op_is}
use tinypipe.Vm.Machine.{Executor, State}

module _ {F : Type 0} where
  abbrev map_value : Option (Value F) → String → Context F → Context F
  map_value none to_key c = c
  map_value (some v) to_key c = Context.set c to_key v

  -- `for (from_key, to_key) in mapping`
  unfoldable pub apply_pairs : List (String × String) → Context F → Context F
  unfolding Context.get Context.set
  apply_pairs [] c = c
  apply_pairs ((from_key, to_key) ∷ rest) c =
      apply_pairs rest (map_value (Context.get c from_key) to_key c)

  unfoldable pub apply_mapping : Option (List (String × String)) → Context F → Context F
  unfolding apply_pairs
  apply_mapping none c = c
  apply_mapping (some pairs) c = apply_pairs pairs c

  -- Follow an edge: its mapping, then `enabled.insert(edge.to_index)`.
  unfoldable pub follow : Edge → State F → State F
  unfolding apply_mapping insert
  follow e st = record st {
    ctx = apply_mapping e.mapping st.ctx;
    enabled = insert e.to_index st.enabled;
  }

  -- A control edge: one more control predecessor is done, and the target is enabled.
  unfoldable pub satisfy : Edge → State F → State F
  unfolding insert
  satisfy e st = record st {
    control_satisfied =
        if ltb e.to_index (length st.control_satisfied)
        then set st.control_satisfied e.to_index (get_or st.control_satisfied e.to_index 0 + 1)
        else st.control_satisfied;
    enabled = insert e.to_index st.enabled;
  }

  unfoldable pub decision_of : Option (Value F) → Option Bool
  decision_of (some (bool b)) = some b
  decision_of _ = none

module _ {F : Type 0} (x : Executor F) where
  unfoldable pub format_value : Value F → String
  unfolding decimal_ℤ
  format_value null = "null"
  format_value (bool b) = if b then "true" else "false"
  format_value (int i) = decimal_ℤ i
  format_value (float f) = x.evaluator.float_text f
  format_value (string s) = s
  format_value (array vs) = "[...]"
  format_value (object m) = "{...}"

  eval_condition : String → State F → Result Bool
  unfolding is_truthy
  eval_condition condition st = do
    result ← x.evaluator.eval_expression condition st.ctx st.node_outputs
    ok (is_truthy x.floats result)

  -- A DECIDE's literal condition is compared with its decision; any other is evaluated.
  by_decision : Option Bool → String → State F → Result Bool
  unfolding eval_condition
  by_decision none condition st = eval_condition condition st
  by_decision (some decision) condition st =
      if str_eq condition "true" || str_eq condition "false"
      then ok (if str_eq condition "true" then decision else not decision)
      else eval_condition condition st

  -- `should_enable` of the edge that leaves the node `index`
  unfoldable pub should_enable : ℕ → Option String → State F → Result Bool
  unfolding by_decision decision_of lookup
  should_enable index none st = ok true
  should_enable index (some condition) st =
      if op_is is_decide (op_at x.plan index)
      then by_decision (decision_of (lookup index st.node_outputs)) condition st
      else by_decision none condition st

  unfoldable pub propagate_edge : ℕ → Edge → State F → Result (State F)
  unfolding should_enable follow satisfy
  propagate_edge index e st =
      if not (e.from_index == index)
      then ok st
      else if not (is_data e.kind)
      then ok (satisfy e st)
      else do enable ← should_enable index e.condition st; ok (if enable then follow e st else st)

  propagate_list : ℕ → List Edge → State F → Result (State F)
  unfolding propagate_edge
  propagate_list index [] st = ok st
  propagate_list index (e ∷ es) st = propagate_edge index e st >>= propagate_list index es

  -- SWITCH, LOOP and PARALLEL follow their edges themselves.
  unfoldable pub propagate_edges : Node → State F → Result (State F)
  unfolding propagate_list
  propagate_edges node st = elim node.op [
    | switch ↦ ok st
    | loop ↦ ok st
    | parallel ↦ ok st
    | _ ↦ propagate_list node.index x.plan.edges st
  ]
