-- ===== src/Vm/Run/Fits.antt =====
-- The limits that a whole run of tinypipe-vm/src/compiled_executor.rs keeps.
use tinypipe.Prelude.{
  ℕ, zero, suc, ◌+◌, ◌-◌, ◌≤◌, ◌≡◌, refl, subst, String, not, ◌&&◌, Option, none, some, List, [],
  ◌∷◌, ◌++◌, ◌∙◌, length, replicate, arith,
}
use tinypipe.Api.Context.{Context}
use tinypipe.Ir.Plan.{Plan, Node, get_node, parallel}
use tinypipe.Vm.Error.{
  Result, ok, Ensures, returns, raises, Ensures-ok, Ensures-bind, Ensures-then, Ensures-if,
  check_version_compatibility,
}
use tinypipe.Vm.Pause.{
  PausePolicy, should_pause, LoopState, Checkpoint, ExecutionOutcome, ExecutionResult, completed,
  paused,
}
use tinypipe.Vm.Machine.{Executor, State, Frame, NodeOutcome, node_ok, node_paused}
use tinypipe.Vm.Fits.{Fits}
use tinypipe.Vm.Budget.{node_budget}
use tinypipe.Vm.Loop.Fits.{run_loop-Fits}
use tinypipe.Vm.Node.Fits.{run_node-Fits}
use tinypipe.Vm.Run.{
  build_checkpoint, result_of, prepare, start, depth, is_last, after_main, main_step, main_pass,
  execute_with, restore, after_loop, resume_loop, resume_from, resume_in, resume,
}

-- No node of the plan is a PARALLEL.
abbrev pub IsSerial : Plan → Type 0
IsSerial plan = (i : ℕ) (nd : Node) → get_node plan i ≡ some nd → nd.op ≡ parallel → ⊥

module _ {F : Type 0} (x : Executor F) where
  abbrev Fit : State F → Type 0
  Fit = Fits (length x.plan.nodes) (node_budget x) (IsSerial x.plan)

  -- What a run leaves, complete or paused.
  pub data OutcomeFits : ExecutionOutcome F → Type 0 where
    complete_fits :
        {r : ExecutionResult F}
        → (IsSerial x.plan → r.node_count ≤ node_budget x)
        → OutcomeFits (completed r)
    paused_fits :
        {cp : Checkpoint F}
        → length cp.control_satisfied ≡ length x.plan.nodes
        → (IsSerial x.plan → cp.node_count ≤ node_budget x)
        → OutcomeFits (paused cp)

  after_main-Fits :
      (policy : PausePolicy) (position : ℕ) (id : String) (later : List ℕ)
      (rest : State F → Result (ExecutionOutcome F)) (r : NodeOutcome × State F)
      → ((st : State F) → Fit st → Ensures OutcomeFits (rest st))
      → Fit r.1
      → Ensures OutcomeFits (after_main x policy position id later rest r)
  unfolding after_main build_checkpoint
  after_main-Fits policy position id later rest (node_paused ls, st) hr h =
      returns (paused_fits h.counters h.counted)
  after_main-Fits policy position id later rest (node_ok, st) hr h =
      Ensures-if (not (is_last x later) && should_pause policy st.node_count id)
        (returns (paused_fits h.counters h.counted)) (hr st h)

  main_step-Fits :
      (frame : Frame) (policy : PausePolicy) (position idx : ℕ) (o : Option Node) (later : List ℕ)
      (rest : State F → Result (ExecutionOutcome F)) (st : State F)
      → get_node x.plan idx ≡ o
      → ((st : State F) → Fit st → Ensures OutcomeFits (rest st))
      → Fit st
      → Ensures OutcomeFits (main_step x frame policy position idx o later rest st)
  unfolding main_step
  main_step-Fits frame policy position idx none later rest st e hr h = raises
  main_step-Fits frame policy position idx (some node) later rest st e hr h =
      Ensures-bind
        (run_node-Fits x frame (length x.plan.nodes) (IsSerial x.plan) (depth x) (some policy) node
          st (λ serial. serial idx node e) h)
        (λ r hr'. after_main-Fits policy position node.id later rest r hr hr')

  pub main_pass-Fits :
      (frame : Frame) (policy : PausePolicy) (position : ℕ) (order : List ℕ) (st : State F)
      → Fit st
      → Ensures OutcomeFits (main_pass x frame policy position order st)
  unfolding main_pass result_of
  main_pass-Fits frame policy position [] st h = returns (complete_fits h.counted)
  main_pass-Fits frame policy position (idx ∷ later) st h =
      main_step-Fits frame policy position idx (get_node x.plan idx) later _ st refl
        (main_pass-Fits frame policy (position + 1) later) h

  length-replicate : (n m : ℕ) → length (replicate n m) ≡ n
  length-replicate zero m = refl
  length-replicate (suc n) m = let rest = length-replicate n m in omega arith

  start-Fits : (inputs : Context F) → Fit (start x inputs)
  unfolding start
  start-Fits inputs = record { counters = length-replicate _ 0; counted = λ s. omega arith }

  pub execute_with-Fits :
      (inputs : Context F) (policy : PausePolicy)
      → Ensures OutcomeFits (execute_with x inputs policy)
  unfolding execute_with
  execute_with-Fits inputs policy = Ensures-then (check_version_compatibility x.plan.version) λ _.
      Ensures-then (prepare x)
        λ frame. main_pass-Fits frame policy 0 frame.order (start x inputs) (start-Fits inputs)

  length-append : (xs ys : List ℕ) → length (xs ++ ys) ≡ length xs + length ys
  length-append [] ys = omega arith
  length-append (a ∷ xs) ys = let rest = length-append xs ys in omega arith

  -- A checkpoint that a run has left.
  restore-Fits :
      (cp : Checkpoint F) → OutcomeFits (paused cp) → Fit (restore (length x.plan.nodes) cp)
  unfolding restore
  restore-Fits cp (paused_fits e c) = record {
    counters =
        (let padding = length-replicate (length x.plan.nodes - length cp.control_satisfied) 0 in
          length-append cp.control_satisfied _ ∙ ground (arith, padding, e));
    counted = c;
  }

  after_loop-Fits :
      (frame : Frame) (policy : PausePolicy) (position : ℕ) (r : NodeOutcome × State F)
      → Fit r.1
      → Ensures OutcomeFits (after_loop x frame policy position r)
  unfolding after_loop build_checkpoint
  after_loop-Fits frame policy position (node_paused ls, st) h =
      returns (paused_fits h.counters h.counted)
  after_loop-Fits frame policy position (node_ok, st) h =
      main_pass-Fits frame policy (position + 1) _ st h

  resume_loop-Fits :
      (frame : Frame) (policy : PausePolicy) (position : ℕ) (ls : LoopState) (o : Option Node)
      (st : State F)
      → Fit st
      → Ensures OutcomeFits (resume_loop x frame policy position ls o st)
  unfolding resume_loop
  resume_loop-Fits frame policy position ls none st h = raises
  resume_loop-Fits frame policy position ls (some nd) st h =
      Ensures-bind
        (run_loop-Fits x (length x.plan.nodes) (IsSerial x.plan) frame (some policy) nd ls.iteration
          ls.body_position st h)
        (after_loop-Fits frame policy position)

  resume_from-Fits :
      (frame : Frame) (policy : PausePolicy) (position : ℕ) (o : Option LoopState) (st : State F)
      → Fit st
      → Ensures OutcomeFits (resume_from x frame policy position o st)
  unfolding resume_from
  resume_from-Fits frame policy position none st h = main_pass-Fits frame policy position _ st h
  resume_from-Fits frame policy position (some ls) st h =
      resume_loop-Fits frame policy position ls (get_node x.plan ls.loop_index) st h

  pub resume-Fits :
      (cp : Checkpoint F) (policy : PausePolicy)
      → OutcomeFits (paused cp)
      → Ensures OutcomeFits (resume x cp policy)
  unfolding resume resume_in
  resume-Fits cp policy h = Ensures-then (check_version_compatibility x.plan.version) λ _.
      Ensures-then (prepare x)
        λ frame. resume_from-Fits frame policy cp.position cp.loop_state _ (restore-Fits cp h)

  -- If no node of the plan is a PARALLEL and a run under any policy is complete, then it has counted at
  -- most as many nodes as the node budget allows.
  pub execute_with_in_budget :
      (inputs : Context F) (policy : PausePolicy) (r : ExecutionResult F)
      → IsSerial x.plan
      → execute_with x inputs policy ≡ ok (completed r)
      → r.node_count ≤ node_budget x
  execute_with_in_budget inputs policy r serial e =
      of_complete (Ensures-ok (subst (Ensures OutcomeFits) e (execute_with-Fits inputs policy)))
    where
      of_complete : OutcomeFits (completed r) → r.node_count ≤ node_budget x
      of_complete (complete_fits h) = h serial
