-- ===== src/Vm/Pause.antt =====
-- tinypipe-vm/src/pause.rs: when a run pauses, and the snapshot it leaves.
use tinypipe.Prelude.{
  ℕ, String, Bool, true, false, Option, none, some, List, leb, str_eq, any, Map, if◌then◌else◌,
}
use tinypipe.Api.Value.{Value}
use tinypipe.Api.Context.{Context}

pub record PausePolicy : Type 0 where
  pub max_nodes : Option ℕ
  pub pause_at_node_ids : Option (List String)

-- `PausePolicy::default()`
abbrev pub never : PausePolicy
never = record { max_nodes = none; pause_at_node_ids = none }

unfoldable pub reached : Option ℕ → ℕ → Bool
reached none node_count = false
reached (some limit) node_count = leb limit node_count

unfoldable pub listed : Option (List String) → String → Bool
listed none node_id = false
listed (some ids) node_id = any (λ id. str_eq id node_id) ids

-- `PausePolicy::should_pause`
unfoldable pub should_pause : PausePolicy → ℕ → String → Bool
unfolding reached listed
should_pause p node_count node_id =
    if reached p.max_nodes node_count then true else listed p.pause_at_node_ids node_id

pub record LoopState : Type 0 where
  pub loop_index : ℕ
  pub iteration : ℕ
  pub body_position : ℕ

pub record Checkpoint (F : Type 0) : Type 0 where
  pub node_count : ℕ
  pub position : ℕ
  pub loop_state : Option LoopState
  pub context : Context F
  pub node_outputs : Map (Value F)
  pub enabled : List ℕ
  pub control_satisfied : List ℕ
  pub loop_skipped : List ℕ
  pub execution_order : List String
  pub output : Option (Value F)

-- `ExecutionResult` without its wall-clock fields.
pub record ExecutionResult (F : Type 0) : Type 0 where
  pub context : Context F
  pub execution_order : List String
  pub node_count : ℕ
  pub output : Option (Value F)

pub data ExecutionOutcome (F : Type 0) : Type 0 where
  completed : ExecutionResult F → ExecutionOutcome F
  paused : Checkpoint F → ExecutionOutcome F
