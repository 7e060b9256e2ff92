-- ===== src/Vm/Gate.antt =====
-- When a node of tinypipe-vm/src/compiled_executor.rs may run: branch gating, dead branches, control
-- predecessors and data predecessors.
use tinypipe.Prelude.{
  ℕ, String, Bool, true, false, not, ◌&&◌, ◌||◌, Option, none, some, List, [], ◌∷◌, ltb, ◌==◌,
  if◌then◌else◌, any, length, get_or, keep, contains, is_some, Map, lookup,
}
use tinypipe.Api.Value.{Value, bool}
use tinypipe.Ir.Plan.{Plan, Edge, Opcode, is_data, is_decide, is_input, is_merge, op_at}
use tinypipe.Vm.Text.{eq_ignore_ascii_case}

abbrev pub op_is : (Opcode → Bool) → Option Opcode → Bool
op_is p none = false
op_is p (some op) = p op

-- the condition is the word "true" or "false", in any case
unfoldable pub is_branch_word : Option String → Bool
unfolding eq_ignore_ascii_case
is_branch_word none = false
is_branch_word (some c) = eq_ignore_ascii_case c "true" || eq_ignore_ascii_case c "false"

unfoldable pub wants_true : Option String → Bool
unfolding eq_ignore_ascii_case
wants_true none = false
wants_true (some c) = eq_ignore_ascii_case c "true"

abbrev pub xor : Bool → Bool → Bool
xor true b = not b
xor false b = b

module _ {F : Type 0} where
  -- the recorded decision differs from `want`; with none recorded the answer is `undecided`
  unfoldable pub differs : Bool → Bool → Option (Value F) → Bool
  differs undecided want (some (bool b)) = xor b want
  differs undecided want _ = undecided

module _ {F : Type 0} (plan : Plan) (outputs : Map (Value F)) where
  -- A conditional data edge from a DECIDE to the index.
  unfoldable pub is_branch_edge : ℕ → Edge → Bool
  unfolding is_branch_word
  is_branch_edge index e =
      (e.to_index == index)
      && is_data e.kind
      && op_is is_decide (op_at plan e.from_index)
      && is_branch_word e.condition

  unfoldable pub has_mismatch : Bool → ℕ → Bool
  unfolding is_branch_edge differs wants_true lookup
  has_mismatch undecided index =
      any
        (λ (e : Edge).
          is_branch_edge index e
          && differs undecided (wants_true e.condition) (lookup e.from_index outputs))
        plan.edges

  -- an unconditional data edge whose source has an output
  unfoldable pub has_live_input : ℕ → Bool
  unfolding lookup
  has_live_input index =
      any
        (λ (e : Edge).
          (e.to_index == index)
          && is_data e.kind
          && not (is_some e.condition)
          && is_some (lookup e.from_index outputs))
        plan.edges

  -- `branch_mismatch` of `run_node` and of `run_loop`
  unfoldable pub branch_mismatch : Opcode → ℕ → Bool
  unfolding has_live_input has_mismatch
  branch_mismatch op index =
      if is_merge op
      then not (has_live_input index) && has_mismatch true index
      else has_mismatch true index

  -- `is_branch_dead`: here a branch without a decision is not dead.
  unfoldable pub is_branch_dead : ℕ → Bool
  unfolding has_mismatch
  is_branch_dead index = has_mismatch false index

  in_some_body : ℕ → Map (List ℕ) → Bool
  in_some_body index [] = false
  in_some_body index ((_, body) ∷ rest) = contains body index || in_some_body index rest

  -- `data_pred_missing`
  unfoldable pub data_pred_missing : Map (List ℕ) → ℕ → Bool
  unfolding lookup in_some_body is_branch_dead
  data_pred_missing loop_bodies index =
      any
        (λ (e : Edge).
          (e.to_index == index)
          && is_data e.kind
          && not (is_some (lookup e.from_index outputs))
          && not (op_is is_input (op_at plan e.from_index))
          && not (in_some_body e.from_index loop_bodies)
          && not (is_branch_dead e.from_index))
        plan.edges

-- `control_pred_count`, as `with_env` counts it
unfoldable pub control_pred_count : List Edge → ℕ → ℕ
control_pred_count edges index =
    length (keep (λ (e : Edge). not (is_data e.kind) && (e.to_index == index)) edges)

-- a node with control predecessors that have not run
unfoldable pub control_pending : Plan → List ℕ → ℕ → Bool
unfolding control_pred_count
control_pending plan control_satisfied index =
    ltb index (length plan.nodes)
    && ltb (get_or control_satisfied index 0) (control_pred_count plan.edges index)
