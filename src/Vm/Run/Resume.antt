-- ===== src/Vm/Run/Resume.antt =====
-- A run that pauses and is resumed from its checkpoint ends as the run that never pauses.
use tinypipe.Prelude.{
  ℕ, ◌+◌, ◌-◌, ◌≡◌, refl, sym, ap, fun_ext, ◌∙◌, Bool, true, false, not, ◌&&◌, Option, none, some,
  List, [], ◌∷◌, ◌++◌, drop, drop-suc, length, replicate, if◌then◌else◌, Bool-cases, inl, inr,
}
use mathlib.Core.List.{append-nil}
use native.Mathlib.Nat.{sub_self}
use tinypipe.Ir.Plan.{Plan, Node, get_node, Opcode, switch, loop, error}
use tinypipe.Vm.Error.{Result, ok, err, ◌>>=◌}
use tinypipe.Vm.Pause.{
  PausePolicy, never, should_pause, LoopState, Checkpoint, ExecutionOutcome, completed, paused,
}
use tinypipe.Vm.Machine.{Executor, State, Frame, NodeOutcome, node_ok, node_paused}
use tinypipe.Vm.Budget.{admit}
use tinypipe.Vm.Ops.{exec_switch, exec_error}
use tinypipe.Vm.Loop.{run_loop, begin_round}
use tinypipe.Vm.Loop.Kept.{IsIndexed}
use tinypipe.Vm.Loop.Resume.{quiet, AgreesNode, IsFedOutside, run_loop_agrees}
use tinypipe.Vm.Node.{is_skipped, completes, exec_op, run_with, run_branch_node, run_node}
use tinypipe.Vm.Run.{
  build_checkpoint, restore, depth, is_last, after_main, main_step, main_pass, after_loop,
  resume_loop, resume_from, resume_in,
}

-- What the compiler's plans have: a node stands at its index, and no data edge leads from the body of
-- a LOOP back to the LOOP.
pub record IsWellFormed (plan : Plan) : Type 0 where
  pub indexed : IsIndexed plan
  pub fed :
      (i : ℕ) (n : Node) → get_node plan i ≡ some n → n.op ≡ loop → IsFedOutside plan n plan.edges

never_taken {ℓ} : {A : Type ℓ} (b : Bool) (m n : A) → (if b && false then m else n) ≡ n
never_taken true m n = refl
never_taken false m n = refl

module _ {F : Type 0} (x : Executor F) where
  -- The LOOP variable of a LOOP that paused in its body.
  abbrev pub IsVarKeptIn : Option LoopState → State F → Type 0
  IsVarKeptIn none st = Unit
  IsVarKeptIn (some ls) st =
      (n : Node) → get_node x.plan ls.loop_index ≡ some n → begin_round n ls.iteration st ≡ st

  -- The index in a loop state is that of a LOOP.
  abbrev pub IsAtLoop : Option LoopState → Type 0
  IsAtLoop none = Unit
  IsAtLoop (some ls) = (n : Node) → get_node x.plan ls.loop_index ≡ some n → n.op ≡ loop

  -- A checkpoint with a counter for each node; if it is inside a LOOP, it names the LOOP, and the
  -- variable of the LOOP still has the number of the round in the context.
  pub record IsResumable (cp : Checkpoint F) : Type 0 where
    pub counters : length cp.control_satisfied ≡ length x.plan.nodes
    pub at_loop : IsAtLoop cp.loop_state
    pub var_kept : IsVarKeptIn cp.loop_state (restore (length x.plan.nodes) cp)

  module _ (frame : Frame) (p : PausePolicy) (wf : IsWellFormed x.plan) where
    completes_agrees :
        (node : Node) (r : Result (State F))
        → AgreesNode x frame p node (completes x frame r) (completes x frame r)
    completes_agrees node (ok st) = refl
    completes_agrees node (err e) = refl

    exec_op_agrees :
        (op : Opcode) (run : Node → State F → Result (State F)) (node : Node) (st : State F)
        → (op ≡ loop → IsFedOutside x.plan node x.plan.edges)
        → AgreesNode x frame p node
            (exec_op x frame op run quiet node st)
            (exec_op x frame op run (some p) node st)
    unfolding exec_op
    exec_op_agrees loop run node st h = run_loop_agrees x frame p node wf.indexed (h refl) 0 0 st
    exec_op_agrees switch run node st h = completes_agrees node (exec_switch x node st)
    exec_op_agrees error run node st h = completes_agrees node (exec_error x node st)
    exec_op_agrees _ run node st h = completes_agrees node _

    AgreesNode-bind :
        {A : Type 0} (node : Node) (m : Result A) (f g : A → Result (NodeOutcome × State F))
        → ((a : A) → AgreesNode x frame p node (f a) (g a))
        → AgreesNode x frame p node (m >>= f) (m >>= g)
    AgreesNode-bind node (ok a) f g h = h a
    AgreesNode-bind node (err e) f g h = refl

    run_node_agrees :
        (fuel : ℕ) (node : Node) (st : State F)
        → (node.op ≡ loop → IsFedOutside x.plan node x.plan.edges)
        → AgreesNode x frame p node
            (run_node x frame fuel quiet node st)
            (run_node x frame fuel (some p) node st)
    unfolding run_node run_with
    run_node_agrees fuel node st h = elim (Bool-cases (is_skipped x frame node st)) [
      | inl e ↦ rw e refl
      | inr e ↦ rw e (
          AgreesNode-bind node (admit x node st) _ _
            λ st₁. exec_op_agrees node.op (run_branch_node x frame fuel) node st₁ h)
    ]

    -- `q` is a run without a pause; the last argument is the run under the policy.
    abbrev pub Finishes : Result (ExecutionOutcome F) → Result (ExecutionOutcome F) → Type 0
    Finishes q (err e) = q ≡ err e
    Finishes q (ok (completed r)) = q ≡ ok (completed r)
    Finishes q (ok (paused cp)) = IsResumable cp → resume_in x frame never cp ≡ q

    -- What `build_checkpoint` saves is what `resume` starts from.
    restore_build :
        (st : State F) (position : ℕ) (ls : Option LoopState)
        → length st.control_satisfied ≡ length x.plan.nodes
        → restore (length x.plan.nodes) (build_checkpoint st position ls) ≡ st
    unfolding restore build_checkpoint
    restore_build st position ls h = λ i. record st { control_satisfied = padded i }
      where
        padded :
            st.control_satisfied ++ replicate (length x.plan.nodes - length st.control_satisfied) 0
            ≡ st.control_satisfied
        padded = rw (← h, sub_self, append-nil)

    module _ (position idx : ℕ) (later : List ℕ) (here : drop (position + 1) frame.order ≡ later)
        (node : Node) (stands : get_node x.plan idx ≡ some node)
        (rest : State F → Result (ExecutionOutcome F))
        (agrees : (st : State F)
          → Finishes (main_pass x frame never (position + 1) later st) (rest st)) where
      abbrev quiet_main : State F → Result (ExecutionOutcome F)
      quiet_main = main_pass x frame never (position + 1) later

      after_loop_agrees :
          (r : NodeOutcome × State F)
          → after_loop x frame never position r
            ≡ after_main x never position node.id later quiet_main r
      unfolding after_loop after_main should_pause
      after_loop_agrees (node_paused ls, st) = refl
      after_loop_agrees (node_ok, st) = rw here (sym (never_taken (not (is_last x later)) _ _))

      paused_in_loop :
          (q : Result (NodeOutcome × State F)) (ls : LoopState) (st : State F)
          → AgreesNode x frame p node q (ok (node_paused ls, st))
          → IsResumable (build_checkpoint st position (some ls))
          → resume_in x frame never (build_checkpoint st position (some ls))
            ≡ (q >>= after_main x never position node.id later quiet_main)
      unfolding resume_in resume_from resume_loop build_checkpoint
      paused_in_loop q ls st h res =
          rw (at_loop, restored)
            (rw (h.0 var_kept) (
              ap (λ f. run_loop x frame quiet node ls.iteration ls.body_position st >>= f)
                (fun_ext after_loop_agrees)))
        where
          at_loop : get_node x.plan ls.loop_index ≡ some node
          at_loop = ap (get_node x.plan) (h.1 ∙ wf.indexed idx node stands) ∙ stands

          restored : restore (length x.plan.nodes) (build_checkpoint st position (some ls)) ≡ st
          restored = restore_build st position (some ls) res.counters

          var_kept : begin_round node ls.iteration st ≡ st
          var_kept = rw restored at (res.var_kept node at_loop)

      paused_between :
          (st : State F)
          → IsResumable (build_checkpoint st (position + 1) none)
          → resume_in x frame never (build_checkpoint st (position + 1) none) ≡ quiet_main st
      unfolding resume_in resume_from build_checkpoint
      paused_between st res = rw (restore_build st (position + 1) none res.counters, here)

      after_main_agrees :
          (q r : Result (NodeOutcome × State F))
          → AgreesNode x frame p node q r
          → Finishes
              (q >>= after_main x never position node.id later quiet_main)
              (r >>= after_main x p position node.id later rest)
      unfolding after_main should_pause
      after_main_agrees q (err e) h = rw h
      after_main_agrees q (ok (node_paused ls, st)) h = λ res. paused_in_loop q ls st h res
      after_main_agrees q (ok (node_ok, st)) h =
          rw (h, never_taken (not (is_last x later)) _ _)
            (elim (Bool-cases (not (is_last x later) && should_pause p st.node_count node.id)) [
              | inl e ↦ rw e (paused_between st)
              | inr e ↦ rw e (agrees st)
            ])

      main_step_agrees :
          (st : State F)
          → Finishes
              (main_step x frame never position idx (some node) later quiet_main st)
              (main_step x frame p position idx (some node) later rest st)
      unfolding main_step
      main_step_agrees st =
          after_main_agrees _ _ (run_node_agrees (depth x) node st (wf.fed idx node stands))

    pub main_pass_agrees :
        (position : ℕ) (later : List ℕ)
        → drop position frame.order ≡ later
        → (st : State F)
        → Finishes
            (main_pass x frame never position later st)
            (main_pass x frame p position later st)
    unfolding main_pass main_step
    main_pass_agrees position [] h st = refl
    main_pass_agrees position (idx ∷ later) h st = at_node (get_node x.plan idx) refl (λ st₁.
        main_pass_agrees (position + 1) later (drop-suc position frame.order idx later h) st₁)
      where
        at_node :
            (o : Option Node)
            → get_node x.plan idx ≡ o
            → ((st₁ : State F)
                → Finishes
                    (main_pass x frame never (position + 1) later st₁)
                    (main_pass x frame p (position + 1) later st₁))
            → Finishes
                (main_step x frame never position idx o later
                  (main_pass x frame never (position + 1) later)
                  st)
                (main_step x frame p position idx o later
                  (main_pass x frame p (position + 1) later)
                  st)
        at_node none e ih = refl
        at_node (some node) e ih =
            main_step_agrees position idx later (drop-suc position frame.order idx later h) node e
              (main_pass x frame p (position + 1) later) ih st

    module _ (position : ℕ) where
      later_agrees :
          (st : State F)
          → Finishes
              (main_pass x frame never (position + 1) (drop (position + 1) frame.order) st)
              (main_pass x frame p (position + 1) (drop (position + 1) frame.order) st)
      later_agrees = main_pass_agrees (position + 1) (drop (position + 1) frame.order) refl

      resumed_loop_agrees :
          (idx : ℕ) (node : Node) (stands : get_node x.plan idx ≡ some node)
          (q r : Result (NodeOutcome × State F))
          → AgreesNode x frame p node q r
          → Finishes (q >>= after_loop x frame never position) (r >>= after_loop x frame p position)
      unfolding after_loop
      resumed_loop_agrees idx node stands q (err e) h = rw h
      resumed_loop_agrees idx node stands q (ok (node_ok, st)) h = rw h (later_agrees st)
      resumed_loop_agrees idx node stands q (ok (node_paused ls, st)) h = λ res.
          paused_in_loop position idx (drop (position + 1) frame.order) refl node stands
            (main_pass x frame p (position + 1) (drop (position + 1) frame.order)) later_agrees q ls
            st h res
          ∙ ap (λ f. q >>= f)
              (sym (
                fun_ext (
                  after_loop_agrees position idx (drop (position + 1) frame.order) refl node stands
                    (main_pass x frame p (position + 1) (drop (position + 1) frame.order))
                    later_agrees)))

      resume_from_agrees :
          (o : Option LoopState) (st : State F)
          → IsAtLoop o
          → Finishes (resume_from x frame never position o st) (resume_from x frame p position o st)
      unfolding resume_from resume_loop
      resume_from_agrees none st h = main_pass_agrees position (drop position frame.order) refl st
      resume_from_agrees (some ls) st h = at_node (get_node x.plan ls.loop_index) refl
        where
          at_node :
              (o : Option Node)
              → get_node x.plan ls.loop_index ≡ o
              → Finishes
                  (resume_loop x frame never position ls o st)
                  (resume_loop x frame p position ls o st)
          at_node none e = refl
          at_node (some node) e = resumed_loop_agrees ls.loop_index node e _ _ (
              run_loop_agrees x frame p node wf.indexed (wf.fed ls.loop_index node e (h node e))
                ls.iteration ls.body_position st)

    pub resume_in_agrees :
        (cp : Checkpoint F)
        → IsAtLoop cp.loop_state
        → Finishes (resume_in x frame never cp) (resume_in x frame p cp)
    unfolding resume_in
    resume_in_agrees cp h = resume_from_agrees cp.position cp.loop_state _ h
