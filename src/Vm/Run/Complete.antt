-- ===== src/Vm/Run/Complete.antt =====
-- A run of tinypipe-vm/src/compiled_executor.rs under the default policy: it does not pause.
use tinypipe.Prelude.{
  ℕ, zero, suc, ◌+◌, ◌-◌, String, Option, none, some, List, [], ◌∷◌, drop, length,
}
use tinypipe.Api.Context.{Context}
use tinypipe.Ir.Plan.{Node, get_node, Opcode, switch, loop, error}
use tinypipe.Vm.Error.{
  Result, ok, err, ◌>>=◌, Ensures, returns, raises, Ensures-bind, Ensures-then, Ensures-if,
  check_version_compatibility,
}
use tinypipe.Vm.Pause.{
  never, should_pause, reached, listed, LoopState, Checkpoint, ExecutionOutcome, completed, paused,
}
use tinypipe.Vm.Machine.{Executor, State, Frame, NodeOutcome, node_ok, node_paused}
use tinypipe.Vm.Budget.{charge, admit}
use tinypipe.Vm.Gate.{branch_mismatch}
use tinypipe.Vm.Loop.{
  Flow, go, go_unchecked, leave, end_round, RoundEnd, next_round, left, paused_at, exec_in_body,
  after_node, body_step, run_body, after_round, run_rounds, begin_round, finish_outcome, skip_body,
  run_anchored, run_loop, body_order, max_iterations,
}
use tinypipe.Vm.Ops.{exec_switch, exec_error}
use tinypipe.Vm.Node.{is_skipped, completes, exec_op, run_with, run_branch_node, run_node}
use tinypipe.Vm.Run.{
  prepare, start, depth, after_main, main_step, main_pass, execute_with, after_loop, resume_loop,
  resume_from, resume_in, resume, restore,
}
use tinypipe.Vm.Run.Segments.{HasEnded, complete, failed}

module _ {F : Type 0} (x : Executor F) (frame : Frame) where
  abbrev IsRoundOver : RoundEnd × State F → Type 0
  IsRoundOver (paused_at ls, st) = ⊥
  IsRoundOver _ = Unit

  abbrev IsNodeOver : NodeOutcome × State F → Type 0
  IsNodeOver (node_paused ls, st) = ⊥
  IsNodeOver (node_ok, st) = Unit

  abbrev IsRunOver : ExecutionOutcome F → Type 0
  IsRunOver (paused cp) = ⊥
  IsRunOver (completed r) = Unit

  module _ (node : Node) where
    after_node-IsRoundOver :
        (iteration position : ℕ) (id : String) (rest : State F → Result (RoundEnd × State F))
        (r : Flow × State F)
        → ((st : State F) → Ensures IsRoundOver (rest st))
        → Ensures IsRoundOver (after_node x frame (some never) node iteration position id rest r)
    unfolding after_node should_pause reached listed
    after_node-IsRoundOver iteration position id rest (leave, st) hr = returns tt
    after_node-IsRoundOver iteration position id rest (end_round, st) hr = returns tt
    after_node-IsRoundOver iteration position id rest (go_unchecked, st) hr = hr st
    after_node-IsRoundOver iteration position id rest (go, st) hr = hr st

    body_step-IsRoundOver :
        (iteration position idx : ℕ) (o : Option Node)
        (rest : State F → Result (RoundEnd × State F)) (st : State F)
        → ((st : State F) → Ensures IsRoundOver (rest st))
        → Ensures IsRoundOver (body_step x frame (some never) node iteration position idx o rest st)
    unfolding body_step
    body_step-IsRoundOver iteration position idx none rest st hr = raises
    body_step-IsRoundOver iteration position idx (some nd) rest st hr =
        Ensures-if (branch_mismatch x.plan st.node_outputs nd.op idx) (hr st) (
          Ensures-then (charge x nd st) λ st₁.
            Ensures-then (exec_in_body x nd st₁)
              λ r. after_node-IsRoundOver iteration position nd.id rest r hr)

    run_body-IsRoundOver :
        (iteration position : ℕ) (nodes : List ℕ) (st : State F)
        → Ensures IsRoundOver (run_body x frame (some never) node iteration position nodes st)
    unfolding run_body
    run_body-IsRoundOver iteration position [] st = returns tt
    run_body-IsRoundOver iteration position (idx ∷ rest) st =
        body_step-IsRoundOver iteration position idx (get_node x.plan idx) _ st
          (run_body-IsRoundOver iteration (position + 1) rest)

    after_round-IsNodeOver :
        (rest : State F → Result (NodeOutcome × State F)) (r : RoundEnd × State F)
        → ((st : State F) → Ensures IsNodeOver (rest st))
        → IsRoundOver r
        → Ensures IsNodeOver (after_round x frame (some never) node rest r)
    unfolding after_round
    after_round-IsNodeOver rest (next_round, st) hr h = hr st
    after_round-IsNodeOver rest (left, st) hr h = returns tt
    after_round-IsNodeOver rest (paused_at ls, st) hr h = absurd h

    run_rounds-IsNodeOver :
        (nodes : List ℕ) (left_over iteration skip : ℕ) (st : State F)
        → Ensures IsNodeOver
            (run_rounds x frame (some never) node nodes left_over iteration skip st)
    unfolding run_rounds
    run_rounds-IsNodeOver nodes zero iteration skip st = returns tt
    run_rounds-IsNodeOver nodes (suc left_over) iteration skip st =
        Ensures-bind
          (run_body-IsRoundOver iteration skip (drop skip nodes) (begin_round node iteration st))
          (λ r hr.
            after_round-IsNodeOver _ r (run_rounds-IsNodeOver nodes left_over (iteration + 1) 0) hr)

    finish_outcome-IsNodeOver :
        (r : NodeOutcome × State F)
        → IsNodeOver r
        → Ensures IsNodeOver (finish_outcome x frame (some never) node r)
    unfolding finish_outcome
    finish_outcome-IsNodeOver (node_ok, st) h = returns tt
    finish_outcome-IsNodeOver (node_paused ls, st) h = absurd h

    run_anchored-IsNodeOver :
        (entries : List ℕ) (iteration skip : ℕ) (st : State F)
        → Ensures IsNodeOver (run_anchored x frame (some never) node entries iteration skip st)
    unfolding run_anchored
    run_anchored-IsNodeOver [] iteration skip st = returns tt
    run_anchored-IsNodeOver (_ ∷ _) iteration skip st =
        Ensures-bind
          (run_rounds-IsNodeOver (body_order x frame node)
            (max_iterations x node st.node_outputs - iteration) iteration skip
            (skip_body x frame (some never) node st))
          finish_outcome-IsNodeOver

    run_loop-IsNodeOver :
        (iteration skip : ℕ) (st : State F)
        → Ensures IsNodeOver (run_loop x frame (some never) node iteration skip st)
    unfolding run_loop
    run_loop-IsNodeOver iteration skip st = run_anchored-IsNodeOver _ iteration skip st

    completes-IsNodeOver : (r : Result (State F)) → Ensures IsNodeOver (completes x frame r)
    completes-IsNodeOver (ok st) = returns tt
    completes-IsNodeOver (err e) = raises

    exec_op-IsNodeOver :
        (op : Opcode) (run : Node → State F → Result (State F)) (st : State F)
        → Ensures IsNodeOver (exec_op x frame op run (some never) node st)
    unfolding exec_op
    exec_op-IsNodeOver loop run st = run_loop-IsNodeOver 0 0 st
    exec_op-IsNodeOver switch run st = completes-IsNodeOver (exec_switch x node st)
    exec_op-IsNodeOver error run st = completes-IsNodeOver (exec_error x node st)
    exec_op-IsNodeOver op run st = completes-IsNodeOver _

    run_node-IsNodeOver :
        (fuel : ℕ) (st : State F) → Ensures IsNodeOver (run_node x frame fuel (some never) node st)
    unfolding run_node run_with
    run_node-IsNodeOver fuel st =
        Ensures-if (is_skipped x frame node st) (returns tt) (
          Ensures-then (admit x node st)
            (exec_op-IsNodeOver node.op (run_branch_node x frame fuel)))

  after_main-IsRunOver :
      (position : ℕ) (id : String) (later : List ℕ) (rest : State F → Result (ExecutionOutcome F))
      (r : NodeOutcome × State F)
      → ((st : State F) → Ensures IsRunOver (rest st))
      → IsNodeOver r
      → Ensures IsRunOver (after_main x never position id later rest r)
  unfolding after_main should_pause reached listed
  after_main-IsRunOver position id later rest (node_paused ls, st) hr h = absurd h
  after_main-IsRunOver position id [] rest (node_ok, st) hr h = hr st
  after_main-IsRunOver position id (_ ∷ _) rest (node_ok, st) hr h = hr st

  main_step-IsRunOver :
      (position idx : ℕ) (o : Option Node) (later : List ℕ)
      (rest : State F → Result (ExecutionOutcome F)) (st : State F)
      → ((st : State F) → Ensures IsRunOver (rest st))
      → Ensures IsRunOver (main_step x frame never position idx o later rest st)
  unfolding main_step
  main_step-IsRunOver position idx none later rest st hr = raises
  main_step-IsRunOver position idx (some node) later rest st hr =
      Ensures-bind (run_node-IsNodeOver node (depth x) st)
        (λ r h. after_main-IsRunOver position node.id later rest r hr h)

  main_pass-IsRunOver :
      (position : ℕ) (order : List ℕ) (st : State F)
      → Ensures IsRunOver (main_pass x frame never position order st)
  unfolding main_pass
  main_pass-IsRunOver position [] st = returns tt
  main_pass-IsRunOver position (idx ∷ later) st =
      main_step-IsRunOver position idx (get_node x.plan idx) later _ st
        (main_pass-IsRunOver (position + 1) later)

  after_loop-IsRunOver :
      (position : ℕ) (r : NodeOutcome × State F)
      → IsNodeOver r
      → Ensures IsRunOver (after_loop x frame never position r)
  unfolding after_loop
  after_loop-IsRunOver position (node_paused ls, st) h = absurd h
  after_loop-IsRunOver position (node_ok, st) h = main_pass-IsRunOver (position + 1) _ st

  resume_loop-IsRunOver :
      (position : ℕ) (ls : LoopState) (o : Option Node) (st : State F)
      → Ensures IsRunOver (resume_loop x frame never position ls o st)
  unfolding resume_loop
  resume_loop-IsRunOver position ls none st = raises
  resume_loop-IsRunOver position ls (some node) st =
      Ensures-bind (run_loop-IsNodeOver node ls.iteration ls.body_position st)
        (after_loop-IsRunOver position)

  resume_from-IsRunOver :
      (position : ℕ) (o : Option LoopState) (st : State F)
      → Ensures IsRunOver (resume_from x frame never position o st)
  unfolding resume_from
  resume_from-IsRunOver position none st = main_pass-IsRunOver position _ st
  resume_from-IsRunOver position (some ls) st = resume_loop-IsRunOver position ls _ st

  IsRunOver-HasEnded : (r : Result (ExecutionOutcome F)) → Ensures IsRunOver r → HasEnded r
  IsRunOver-HasEnded (ok (completed r)) h = complete r
  IsRunOver-HasEnded (ok (paused cp)) (returns h) = absurd h
  IsRunOver-HasEnded (err e) h = failed e

module _ {F : Type 0} (x : Executor F) where
  over_after :
      {A : Type 0} (m : Result A) {f : A → Result (ExecutionOutcome F)}
      → ((a : A) → HasEnded (f a))
      → HasEnded (m >>= f)
  over_after (ok a) h = h a
  over_after (err e) h = failed e

  -- Under the default policy a run of any plan on any inputs is complete or fails, and so is the
  -- resumption of any checkpoint, also of one that another plan has left: none of them pauses.
  pub never-HasEnded :
      (inputs : Context F) (cp : Checkpoint F)
      → HasEnded (execute_with x inputs never) × HasEnded (resume x cp never)
  unfolding execute_with resume resume_in
  never-HasEnded inputs cp = (
    over_after (check_version_compatibility x.plan.version) (λ _. over_after (prepare x) (λ frame.
        IsRunOver-HasEnded x frame _ (main_pass-IsRunOver x frame 0 frame.order (start x inputs)))),
    over_after (check_version_compatibility x.plan.version) (λ _. over_after (prepare x) (λ frame.
        IsRunOver-HasEnded x frame _ (
          resume_from-IsRunOver x frame cp.position cp.loop_state
            (restore (length x.plan.nodes) cp)))),
  )
