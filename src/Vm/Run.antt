-- ===== src/Vm/Run.antt =====
-- `execute_with`, `execute`, `resume` and `build_checkpoint` of tinypipe-vm/src/compiled_executor.rs.
-- The step observer and the wall-clock fields of the results are left out.
pub mod Resume
pub mod Fits
pub mod AtLoop
pub mod Segments
pub mod WellFormed
pub mod Compiled
pub mod Complete
use tinypipe.Prelude.{
  ℕ, zero, suc, ◌+◌, ◌-◌, String, Bool, true, false, not, ◌&&◌, Option, none, some, List, [], ◌∷◌,
  ◌++◌, ◌==◌, if◌then◌else◌, length, drop, replicate, any, insert,
}
use tinypipe.Api.Context.{Context}
use tinypipe.Ir.Plan.{Plan, Node, Edge, get_node}
use tinypipe.Vm.Error.{
  Result, ok, err, ◌>>=◌, node_not_found, check_version_compatibility, ◌&◌, custom,
}
use tinypipe.Vm.Text.{decimal}
use tinypipe.Vm.Pause.{
  PausePolicy, never, should_pause, LoopState, Checkpoint, ExecutionResult, ExecutionOutcome,
  completed, paused,
}
use tinypipe.Vm.Machine.{Executor, State, Frame, NodeOutcome, node_ok, node_paused}
use tinypipe.Vm.Graph.{topological_order, identify_loop_bodies}
use tinypipe.Vm.Loop.{run_loop}
use tinypipe.Vm.Node.{run_node}

module _ {F : Type 0} where
  -- `build_checkpoint`
  unfoldable pub build_checkpoint : State F → ℕ → Option LoopState → Checkpoint F
  build_checkpoint st position loop_state = record {
    node_count = st.node_count;
    position = position;
    loop_state = loop_state;
    context = st.ctx;
    node_outputs = st.node_outputs;
    enabled = st.enabled;
    control_satisfied = st.control_satisfied;
    loop_skipped = st.loop_skipped;
    execution_order = st.execution_order;
    output = st.output;
  }

  unfoldable pub result_of : State F → ExecutionResult F
  result_of st = record {
    context = st.ctx;
    execution_order = st.execution_order;
    node_count = st.node_count;
    output = st.output;
  }

  -- The variables of `resume`; counters that the checkpoint lacks are 0.
  unfoldable pub restore : ℕ → Checkpoint F → State F
  restore n cp = record {
    ctx = cp.context;
    node_outputs = cp.node_outputs;
    execution_order = cp.execution_order;
    enabled = cp.enabled;
    control_satisfied = cp.control_satisfied ++ replicate (n - length cp.control_satisfied) 0;
    loop_skipped = cp.loop_skipped;
    node_count = cp.node_count;
    output = cp.output;
  }

-- nodes without an incoming edge
unfoldable pub sources : Plan → List Node → List ℕ → List ℕ
unfolding insert
sources plan [] enabled = enabled
sources plan (n ∷ ns) enabled = sources plan ns (
    if any (λ (e : Edge). e.to_index == n.index) plan.edges
    then enabled
    else insert n.index enabled)

module _ {F : Type 0} (x : Executor F) where
  unfoldable pub start : Context F → State F
  unfolding sources
  start inputs = record {
    ctx = inputs;
    node_outputs = [];
    execution_order = [];
    enabled = sources x.plan x.plan.nodes [];
    control_satisfied = replicate (length x.plan.nodes) 0;
    loop_skipped = [];
    node_count = 0;
    output = none;
  }

  -- the order and the loop bodies
  unfoldable pub prepare : Result Frame
  unfolding topological_order identify_loop_bodies
  prepare = do
    order ← topological_order x.plan
    ok (record { order = order; loop_bodies = identify_loop_bodies x.plan })

  -- deeper than PARALLELs can nest
  abbrev pub depth : ℕ
  depth = length x.plan.nodes + 1

  abbrev pub is_last : List ℕ → Bool
  is_last [] = true
  is_last (_ ∷ _) = false

  -- What follows a node of the main pass: `later` is what is left of the order, `rest` runs it.
  unfoldable pub after_main :
      PausePolicy
      → ℕ
      → String
      → List ℕ
      → (State F → Result (ExecutionOutcome F))
      → NodeOutcome × State F
      → Result (ExecutionOutcome F)
  unfolding build_checkpoint should_pause
  after_main policy position id later rest (node_paused ls, st) =
      ok (paused (build_checkpoint st position (some ls)))
  after_main policy position id later rest (node_ok, st) =
      if not (is_last later) && should_pause policy st.node_count id
      then ok (paused (build_checkpoint st (position + 1) none))
      else rest st

  -- One position of the main pass.
  unfoldable pub main_step :
      Frame
      → PausePolicy
      → ℕ
      → ℕ
      → Option Node
      → List ℕ
      → (State F → Result (ExecutionOutcome F))
      → State F
      → Result (ExecutionOutcome F)
  unfolding run_node after_main decimal
  main_step frame policy position idx none later rest st =
      err (node_not_found ("index " & decimal idx))
  main_step frame policy position idx (some node) later rest st =
      run_node x frame depth (some policy) node st >>= after_main policy position node.id later rest

  -- The main pass over the rest of the order, from a position on.
  unfoldable pub main_pass :
      Frame → PausePolicy → ℕ → List ℕ → State F → Result (ExecutionOutcome F)
  unfolding main_step result_of
  main_pass frame policy position [] st = ok (completed (result_of st))
  main_pass frame policy position (idx ∷ later) st =
      main_step frame policy position idx (get_node x.plan idx) later
        (main_pass frame policy (position + 1) later) st

  unfoldable pub execute_with : Context F → PausePolicy → Result (ExecutionOutcome F)
  unfolding check_version_compatibility start prepare main_pass
  execute_with inputs policy = do
    _ ← check_version_compatibility x.plan.version
    frame ← prepare
    main_pass frame policy 0 frame.order (start inputs)

  -- `execute`; the error stands for the panic of `unreachable!`.
  unfoldable pub execute : Context F → Result (ExecutionResult F)
  unfolding execute_with
  execute inputs = execute_with inputs never >>= λ o. elim o [
    | completed r ↦ ok r
    | paused _ ↦ err (custom "default pause policy cannot pause")
  ]

  -- What follows the LOOP that went on.
  unfoldable pub after_loop :
      Frame → PausePolicy → ℕ → NodeOutcome × State F → Result (ExecutionOutcome F)
  unfolding build_checkpoint main_pass
  after_loop frame policy position (node_paused ls, st) =
      ok (paused (build_checkpoint st position (some ls)))
  after_loop frame policy position (node_ok, st) =
      main_pass frame policy (position + 1) (drop (position + 1) frame.order) st

  -- A LOOP that paused in its body goes on first.
  unfoldable pub resume_loop :
      Frame → PausePolicy → ℕ → LoopState → Option Node → State F → Result (ExecutionOutcome F)
  unfolding run_loop after_loop decimal
  resume_loop frame policy position ls none st =
      err (node_not_found ("loop " & decimal ls.loop_index))
  resume_loop frame policy position ls (some loop_node) st =
      run_loop x frame (some policy) loop_node ls.iteration ls.body_position st
      >>= after_loop frame policy position

  unfoldable pub resume_from :
      Frame → PausePolicy → ℕ → Option LoopState → State F → Result (ExecutionOutcome F)
  unfolding resume_loop main_pass
  resume_from frame policy position none st =
      main_pass frame policy position (drop position frame.order) st
  resume_from frame policy position (some ls) st =
      resume_loop frame policy position ls (get_node x.plan ls.loop_index) st

  unfoldable pub resume_in : Frame → PausePolicy → Checkpoint F → Result (ExecutionOutcome F)
  unfolding resume_from restore
  resume_in frame policy cp =
      resume_from frame policy cp.position cp.loop_state (restore (length x.plan.nodes) cp)

  unfoldable pub resume : Checkpoint F → PausePolicy → Result (ExecutionOutcome F)
  unfolding check_version_compatibility prepare resume_in
  resume cp policy = do
    _ ← check_version_compatibility x.plan.version
    frame ← prepare
    resume_in frame policy cp
