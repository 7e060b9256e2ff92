-- ===== src/Tests/Pauses.antt =====
-- A run of the plan of Tests.antt, paused in its LOOP and resumed.
use tinypipe.Prelude.{ℕ, zero, suc, ◌≤◌, ◌≡◌, refl, ap, sym, subst, ◌∙◌, none, some, length}
use mathlib.Core.Option.{some-injective}
use tinypipe.Ir.Plan.{Node, parallel, get_node}
use tinypipe.Vm.Loop.{begin_round}
use tinypipe.Vm.Error.{Result, ok, err}
use tinypipe.Vm.Pause.{
  Checkpoint, ExecutionOutcome, completed, paused, never, LoopState, ExecutionResult,
}
use tinypipe.Vm.Run.{execute_with, resume, build_checkpoint, start, restore, result_of}
use tinypipe.Vm.Run.Resume.{IsWellFormed, IsVarKeptIn}
use tinypipe.Vm.Run.Fits.{IsSerial, execute_with_in_budget}
use tinypipe.Vm.Run.WellFormed.{well_formed, well_formed_sound}
use tinypipe.Vm.Run.Segments.{
  IsVarKept, Pauses, first, later, resume-Pauses, HasEnded, complete, resume-ends,
}
use tinypipe.Tests.{executor, inputs, after_nodes, plan}

unfoldable pub cp_of : Result (ExecutionOutcome ℕ) → Checkpoint ℕ
unfolding build_checkpoint start
cp_of (ok (paused cp)) = cp
cp_of (ok (completed r)) = build_checkpoint (start executor inputs) 0 none
cp_of (err e) = build_checkpoint (start executor inputs) 0 none

result_in : Result (ExecutionOutcome ℕ) → ExecutionResult ℕ
unfolding result_of start
result_in (ok (completed r)) = r
result_in (ok (paused cp)) = result_of (start executor inputs)
result_in (err e) = result_of (start executor inputs)

-- in the LOOP, after its first body node
unfoldable pub in_loop : Checkpoint ℕ
unfolding execute_with cp_of
in_loop = cp_of (execute_with executor inputs (after_nodes 4))

-- in the second round
abbrev in_round_two : Checkpoint ℕ
unfolding resume cp_of
in_round_two = cp_of (resume executor in_loop (after_nodes 5))

wf : IsWellFormed executor.plan
wf = well_formed_sound plan (unfold well_formed in refl)

IsVarKept-in_loop :
    (cp : Checkpoint ℕ) (ls : LoopState) (m : Node)
    → cp.loop_state ≡ some ls
    → get_node executor.plan ls.loop_index ≡ some m
    → begin_round m ls.iteration (restore (length executor.plan.nodes) cp)
      ≡ restore (length executor.plan.nodes) cp
    → IsVarKept executor inputs cp
IsVarKept-in_loop cp ls m at found kept =
    subst (λ o. IsVarKeptIn executor o (restore (length executor.plan.nodes) cp)) (sym at)
      (λ n h.
        subst
          (λ k.
            begin_round k ls.iteration (restore (length executor.plan.nodes) cp)
            ≡ restore (length executor.plan.nodes) cp)
          (some-injective m n (sym found ∙ h)) kept)

in_loop-Pauses : Pauses executor inputs in_loop
unfolding execute_with in_loop restore begin_round
in_loop-Pauses = first (after_nodes 4) refl (IsVarKept-in_loop in_loop _ _ refl refl refl)

in_round_two-Pauses : Pauses executor inputs in_round_two
unfolding resume in_round_two restore begin_round in_loop
in_round_two-Pauses =
    later (after_nodes 5) in_loop-Pauses refl (IsVarKept-in_loop in_round_two _ _ refl refl refl)

resume-Pauses_example : resume executor in_round_two never ≡ execute_with executor inputs never
resume-Pauses_example = resume-Pauses executor inputs wf in_round_two in_round_two-Pauses

ended : HasEnded (resume executor in_round_two (after_nodes 100))
unfolding resume in_round_two in_loop
ended = complete _

resume-ends_example :
    execute_with executor inputs never ≡ resume executor in_round_two (after_nodes 100)
resume-ends_example =
    resume-ends executor inputs wf in_round_two in_round_two-Pauses (after_nodes 100)
      (resume executor in_round_two (after_nodes 100)) ended refl

same_op : (m nd : Node) → some m ≡ some nd → nd.op ≡ parallel → m.op ≡ parallel
same_op m nd e is = ap (λ (k : Node). k.op) (some-injective m nd e) ∙ is

IsSerial-plan : IsSerial plan
IsSerial-plan zero nd e is = cc (same_op _ nd e is)
IsSerial-plan (suc zero) nd e is = cc (same_op _ nd e is)
IsSerial-plan (suc (suc zero)) nd e is = cc (same_op _ nd e is)
IsSerial-plan (suc (suc (suc zero))) nd e is = cc (same_op _ nd e is)
IsSerial-plan (suc (suc (suc (suc zero)))) nd e is = cc (same_op _ nd e is)
IsSerial-plan (suc (suc (suc (suc (suc i))))) nd e is = cc e

-- what the whole run leaves
abbrev full : ExecutionResult ℕ
unfolding execute_with result_in
full = result_in (execute_with executor inputs never)

execute_with_in_budget_example : full.node_count ≤ 100
unfolding execute_with full
execute_with_in_budget_example =
    execute_with_in_budget executor inputs never full IsSerial-plan refl
