-- ===== src/Vm/Run/AtLoop.antt =====
-- Where a run of tinypipe-vm/src/compiled_executor.rs pauses inside a LOOP, the checkpoint names it.
use tinypipe.Prelude.{
  ℕ, zero, suc, ◌+◌, ◌-◌, String, ◌≡◌, refl, sym, subst, ◌∙◌, not, ◌&&◌, Option, none, some, List,
  [], ◌∷◌, drop,
}
use mathlib.Core.Option.{some-injective}
use tinypipe.Api.Context.{Context}
use tinypipe.Ir.Plan.{Node, get_node, Opcode, switch, loop, error}
use tinypipe.Vm.Error.{
  Result, ok, err, Ensures, returns, raises, Ensures-bind, Ensures-then, Ensures-if, Ensures-map,
  check_version_compatibility,
}
use tinypipe.Vm.Pause.{
  PausePolicy, should_pause, LoopState, Checkpoint, ExecutionOutcome, completed, paused,
}
use tinypipe.Vm.Machine.{Executor, State, Frame, NodeOutcome, node_ok, node_paused}
use tinypipe.Vm.Budget.{charge, admit}
use tinypipe.Vm.Gate.{branch_mismatch}
use tinypipe.Vm.Loop.{
  Flow, go, go_unchecked, leave, end_round, RoundEnd, next_round, left, paused_at, exec_in_body,
  after_node, body_step, run_body, after_round, run_rounds, begin_round, pauses, finish_outcome,
  skip_body, run_anchored, run_loop, body_order, max_iterations,
}
use tinypipe.Vm.Ops.{exec_switch, exec_error}
use tinypipe.Vm.Loop.Kept.{IsIndexed}
use tinypipe.Vm.Node.{is_skipped, completes, exec_op, run_with, run_branch_node, run_node}
use tinypipe.Vm.Run.{
  build_checkpoint, prepare, start, depth, is_last, after_main, main_step, main_pass, execute_with,
  after_loop, resume_loop, resume_from, resume_in, resume,
}
use tinypipe.Vm.Run.Resume.{IsAtLoop}

module _ {F : Type 0} (x : Executor F) where
  module _ (node : Node) where
    abbrev IsRoundAt : RoundEnd × State F → Type 0
    IsRoundAt (paused_at ls, st) = ls.loop_index ≡ node.index
    IsRoundAt _ = Unit

    abbrev IsLoopAt : NodeOutcome × State F → Type 0
    IsLoopAt (node_paused ls, st) = ls.loop_index ≡ node.index
    IsLoopAt (node_ok, st) = Unit

    -- the same, and the node is a LOOP
    abbrev IsNodeAt : Opcode → NodeOutcome × State F → Type 0
    IsNodeAt op (node_paused ls, st) = (op ≡ loop) × (ls.loop_index ≡ node.index)
    IsNodeAt op (node_ok, st) = Unit

    module _ (frame : Frame) (pause : Option PausePolicy) where
      after_node-IsRoundAt :
          (iteration position : ℕ) (id : String) (rest : State F → Result (RoundEnd × State F))
          (r : Flow × State F)
          → ((st : State F) → Ensures IsRoundAt (rest st))
          → Ensures IsRoundAt (after_node x frame pause node iteration position id rest r)
      unfolding after_node
      after_node-IsRoundAt iteration position id rest (leave, st) hr = returns tt
      after_node-IsRoundAt iteration position id rest (end_round, st) hr = returns tt
      after_node-IsRoundAt iteration position id rest (go_unchecked, st) hr = hr st
      after_node-IsRoundAt iteration position id rest (go, st) hr =
          Ensures-if (pauses x pause st.node_count id) (returns refl) (hr st)

      body_step-IsRoundAt :
          (iteration position idx : ℕ) (o : Option Node)
          (rest : State F → Result (RoundEnd × State F)) (st : State F)
          → ((st : State F) → Ensures IsRoundAt (rest st))
          → Ensures IsRoundAt (body_step x frame pause node iteration position idx o rest st)
      unfolding body_step
      body_step-IsRoundAt iteration position idx none rest st hr = raises
      body_step-IsRoundAt iteration position idx (some nd) rest st hr =
          Ensures-if (branch_mismatch x.plan st.node_outputs nd.op idx) (hr st) (
            Ensures-then (charge x nd st) λ st₁.
              Ensures-then (exec_in_body x nd st₁)
                λ r. after_node-IsRoundAt iteration position nd.id rest r hr)

      run_body-IsRoundAt :
          (iteration position : ℕ) (nodes : List ℕ) (st : State F)
          → Ensures IsRoundAt (run_body x frame pause node iteration position nodes st)
      unfolding run_body
      run_body-IsRoundAt iteration position [] st = returns tt
      run_body-IsRoundAt iteration position (idx ∷ rest) st =
          body_step-IsRoundAt iteration position idx (get_node x.plan idx) _ st
            (run_body-IsRoundAt iteration (position + 1) rest)

      after_round-IsLoopAt :
          (rest : State F → Result (NodeOutcome × State F)) (r : RoundEnd × State F)
          → ((st : State F) → Ensures IsLoopAt (rest st))
          → IsRoundAt r
          → Ensures IsLoopAt (after_round x frame pause node rest r)
      unfolding after_round
      after_round-IsLoopAt rest (next_round, st) hr h = hr st
      after_round-IsLoopAt rest (left, st) hr h = returns tt
      after_round-IsLoopAt rest (paused_at ls, st) hr h = returns h

      run_rounds-IsLoopAt :
          (nodes : List ℕ) (left_over iteration skip : ℕ) (st : State F)
          → Ensures IsLoopAt (run_rounds x frame pause node nodes left_over iteration skip st)
      unfolding run_rounds
      run_rounds-IsLoopAt nodes zero iteration skip st = returns tt
      run_rounds-IsLoopAt nodes (suc left_over) iteration skip st =
          Ensures-bind
            (run_body-IsRoundAt iteration skip (drop skip nodes) (begin_round node iteration st))
            (λ r hr.
              after_round-IsLoopAt _ r (run_rounds-IsLoopAt nodes left_over (iteration + 1) 0) hr)

      finish_outcome-IsLoopAt :
          (r : NodeOutcome × State F)
          → IsLoopAt r
          → Ensures IsLoopAt (finish_outcome x frame pause node r)
      unfolding finish_outcome
      finish_outcome-IsLoopAt (node_ok, st) h = returns tt
      finish_outcome-IsLoopAt (node_paused ls, st) h = returns h

      run_anchored-IsLoopAt :
          (entries : List ℕ) (iteration skip : ℕ) (st : State F)
          → Ensures IsLoopAt (run_anchored x frame pause node entries iteration skip st)
      unfolding run_anchored
      run_anchored-IsLoopAt [] iteration skip st = returns tt
      run_anchored-IsLoopAt (_ ∷ _) iteration skip st =
          Ensures-bind
            (run_rounds-IsLoopAt (body_order x frame node)
              (max_iterations x node st.node_outputs - iteration) iteration skip
              (skip_body x frame pause node st))
            finish_outcome-IsLoopAt

      run_loop-IsLoopAt :
          (iteration skip : ℕ) (st : State F)
          → Ensures IsLoopAt (run_loop x frame pause node iteration skip st)
      unfolding run_loop
      run_loop-IsLoopAt iteration skip st = run_anchored-IsLoopAt _ iteration skip st

      completes-IsNodeAt :
          (op : Opcode) (r : Result (State F)) → Ensures (IsNodeAt op) (completes x frame r)
      completes-IsNodeAt op (ok st) = returns tt
      completes-IsNodeAt op (err e) = raises

      at_loop_op : (r : NodeOutcome × State F) → IsLoopAt r → IsNodeAt loop r
      at_loop_op (node_paused ls, st) h = (refl, h)
      at_loop_op (node_ok, st) h = tt

      exec_op-IsNodeAt :
          (op : Opcode) (run : Node → State F → Result (State F)) (st : State F)
          → Ensures (IsNodeAt op) (exec_op x frame op run pause node st)
      unfolding exec_op
      exec_op-IsNodeAt loop run st = Ensures-map at_loop_op (run_loop-IsLoopAt 0 0 st)
      exec_op-IsNodeAt switch run st = completes-IsNodeAt switch (exec_switch x node st)
      exec_op-IsNodeAt error run st = completes-IsNodeAt error (exec_error x node st)
      exec_op-IsNodeAt op run st = completes-IsNodeAt op _

      run_node-IsNodeAt :
          (fuel : ℕ) (st : State F)
          → Ensures (IsNodeAt node.op) (run_node x frame fuel pause node st)
      unfolding run_node run_with
      run_node-IsNodeAt fuel st =
          Ensures-if (is_skipped x frame node st) (returns tt) (
            Ensures-then (admit x node st)
              (exec_op-IsNodeAt node.op (run_branch_node x frame fuel)))

  -- A checkpoint inside a LOOP names a LOOP.
  abbrev pub IsAtLoopOutcome : ExecutionOutcome F → Type 0
  IsAtLoopOutcome (paused cp) = IsAtLoop x cp.loop_state
  IsAtLoopOutcome (completed r) = Unit

  named :
      (op : Opcode) (i j : ℕ) (nd : Node)
      → get_node x.plan i ≡ some nd
      → nd.op ≡ loop
      → j ≡ i
      → (n : Node) → get_node x.plan j ≡ some n
      → n.op ≡ loop
  named op i j nd e is ji n e' =
      subst (λ (m : Node). m.op ≡ loop)
        (some-injective nd n (sym e ∙ (λ k. get_node x.plan (sym ji k)) ∙ e')) is

  module _ (ix : IsIndexed x.plan) (frame : Frame) (policy : PausePolicy) where
    after_main-IsAtLoop :
        (position idx : ℕ) (node : Node) (later : List ℕ)
        (rest : State F → Result (ExecutionOutcome F)) (r : NodeOutcome × State F)
        → get_node x.plan idx ≡ some node
        → ((st : State F) → Ensures IsAtLoopOutcome (rest st))
        → IsNodeAt node node.op r
        → Ensures IsAtLoopOutcome (after_main x policy position node.id later rest r)
    unfolding after_main build_checkpoint
    after_main-IsAtLoop position idx node later rest (node_paused ls, st) e hr (is, at) =
        returns (named node.op idx ls.loop_index node e is (at ∙ ix idx node e))
    after_main-IsAtLoop position idx node later rest (node_ok, st) e hr h =
        Ensures-if (not (is_last x later) && should_pause policy st.node_count node.id) (returns tt)
          (hr st)

    main_step-IsAtLoop :
        (position idx : ℕ) (o : Option Node) (later : List ℕ)
        (rest : State F → Result (ExecutionOutcome F)) (st : State F)
        → get_node x.plan idx ≡ o
        → ((st : State F) → Ensures IsAtLoopOutcome (rest st))
        → Ensures IsAtLoopOutcome (main_step x frame policy position idx o later rest st)
    unfolding main_step
    main_step-IsAtLoop position idx none later rest st e hr = raises
    main_step-IsAtLoop position idx (some node) later rest st e hr =
        Ensures-bind (run_node-IsNodeAt node frame (some policy) (depth x) st)
          (λ r h. after_main-IsAtLoop position idx node later rest r e hr h)

    main_pass-IsAtLoop :
        (position : ℕ) (order : List ℕ) (st : State F)
        → Ensures IsAtLoopOutcome (main_pass x frame policy position order st)
    unfolding main_pass
    main_pass-IsAtLoop position [] st = returns tt
    main_pass-IsAtLoop position (idx ∷ later) st =
        main_step-IsAtLoop position idx (get_node x.plan idx) later _ st refl
          (main_pass-IsAtLoop (position + 1) later)

    after_loop-IsAtLoop :
        (position idx : ℕ) (node : Node) (r : NodeOutcome × State F)
        → get_node x.plan idx ≡ some node
        → node.op ≡ loop
        → IsLoopAt node r
        → Ensures IsAtLoopOutcome (after_loop x frame policy position r)
    unfolding after_loop build_checkpoint
    after_loop-IsAtLoop position idx node (node_paused ls, st) e is at =
        returns (named node.op idx ls.loop_index node e is (at ∙ ix idx node e))
    after_loop-IsAtLoop position idx node (node_ok, st) e is h =
        main_pass-IsAtLoop (position + 1) _ st

    resume_loop-IsAtLoop :
        (position : ℕ) (ls : LoopState) (o : Option Node) (st : State F)
        → get_node x.plan ls.loop_index ≡ o
        → IsAtLoop x (some ls)
        → Ensures IsAtLoopOutcome (resume_loop x frame policy position ls o st)
    unfolding resume_loop
    resume_loop-IsAtLoop position ls none st e h = raises
    resume_loop-IsAtLoop position ls (some node) st e h =
        Ensures-bind (run_loop-IsLoopAt node frame (some policy) ls.iteration ls.body_position st)
          (λ r k. after_loop-IsAtLoop position ls.loop_index node r e (h node e) k)

    resume_from-IsAtLoop :
        (position : ℕ) (o : Option LoopState) (st : State F)
        → IsAtLoop x o
        → Ensures IsAtLoopOutcome (resume_from x frame policy position o st)
    unfolding resume_from
    resume_from-IsAtLoop position none st h = main_pass-IsAtLoop position _ st
    resume_from-IsAtLoop position (some ls) st h = resume_loop-IsAtLoop position ls _ st refl h

  pub execute_with-IsAtLoop :
      IsIndexed x.plan
      → (inputs : Context F) (policy : PausePolicy)
      → Ensures IsAtLoopOutcome (execute_with x inputs policy)
  unfolding execute_with
  execute_with-IsAtLoop ix inputs policy =
      Ensures-then (check_version_compatibility x.plan.version) λ _.
        Ensures-then (prepare x)
          λ frame. main_pass-IsAtLoop ix frame policy 0 frame.order (start x inputs)

  pub resume-IsAtLoop :
      IsIndexed x.plan
      → (cp : Checkpoint F) (policy : PausePolicy) → IsAtLoop x cp.loop_state
      → Ensures IsAtLoopOutcome (resume x cp policy)
  unfolding resume resume_in
  resume-IsAtLoop ix cp policy h = Ensures-then (check_version_compatibility x.plan.version) λ _.
      Ensures-then (prepare x)
        λ frame. resume_from-IsAtLoop ix frame policy cp.position cp.loop_state _ h
