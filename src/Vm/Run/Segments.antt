-- ===== src/Vm/Run/Segments.antt =====
-- Any number of pauses: `execute_with` and then `resume`, each under a policy of its own.
use tinypipe.Prelude.{◌≡◌, refl, sym, subst, ◌∙◌, length}
use tinypipe.Api.Context.{Context}
use tinypipe.Vm.Error.{
  Result, ExecutionError, ok, err, ◌>>=◌, Ensures, Ensures-ok, >>=-eq-ok,
  check_version_compatibility,
}
use tinypipe.Vm.Pause.{
  PausePolicy, never, Checkpoint, ExecutionOutcome, ExecutionResult, completed, paused,
}
use tinypipe.Vm.Machine.{Executor, Frame}
use tinypipe.Vm.Run.{prepare, main_pass, execute_with, resume_in, resume, start, restore}
use tinypipe.Vm.Run.Resume.{
  IsWellFormed, IsResumable, IsVarKeptIn, IsAtLoop, Finishes, main_pass_agrees, resume_in_agrees,
}
use tinypipe.Vm.Run.Fits.{OutcomeFits, paused_fits, execute_with-Fits, resume-Fits}
use tinypipe.Vm.Run.AtLoop.{IsAtLoopOutcome, execute_with-IsAtLoop, resume-IsAtLoop}

-- The run is over: it is complete, or it failed.
pub data HasEnded {F : Type 0} : Result (ExecutionOutcome F) → Type 0 where
  complete : (r : ExecutionResult F) → HasEnded (ok (completed r))
  failed : (e : ExecutionError) → HasEnded (err e)

ends_after {ℓ} :
    {F : Type 0} {A : Type ℓ} (m : Result A) {f g : A → Result (ExecutionOutcome F)}
    → ((a : A) → HasEnded (g a) → f a ≡ g a)
    → HasEnded (m >>= g)
    → m >>= f ≡ m >>= g
ends_after (ok a) h end = h a end
ends_after (err e) h end = refl

module _ {F : Type 0} (x : Executor F) (inputs : Context F) where
  -- The variable of the LOOP that a checkpoint is in still has the number of the round.
  abbrev pub IsVarKept : Checkpoint F → Type 0
  IsVarKept cp = IsVarKeptIn x cp.loop_state (restore (length x.plan.nodes) cp)

  -- The checkpoints that a run of the inputs leaves, pause after pause.
  pub data Pauses : Checkpoint F → Type 0 where
    first :
        (p : PausePolicy) {cp : Checkpoint F}
        → execute_with x inputs p ≡ ok (paused cp)
        → IsVarKept cp
        → Pauses cp
    later :
        (p : PausePolicy) {cp cp' : Checkpoint F}
        → Pauses cp
        → resume x cp p ≡ ok (paused cp')
        → IsVarKept cp'
        → Pauses cp'

  counters_of :
      {cp : Checkpoint F}
      → OutcomeFits x (paused cp)
      → length cp.control_satisfied ≡ length x.plan.nodes
  counters_of (paused_fits e c) = e

  module _ (wf : IsWellFormed x.plan) where
    pause_once :
        (p : PausePolicy) (cp : Checkpoint F)
        → execute_with x inputs p ≡ ok (paused cp)
        → IsResumable x cp
        → resume x cp never ≡ execute_with x inputs never
    unfolding execute_with resume
    pause_once p cp e res =
        let (_, version, e₁) = >>=-eq-ok (check_version_compatibility x.plan.version) _ e in
        let (frame, prepared, e₂) = >>=-eq-ok (prepare x) _ e₁ in
        rw (version, prepared)
          (subst (Finishes x frame p wf (main_pass x frame never 0 frame.order (start x inputs))) e₂
            (main_pass_agrees x frame p wf 0 frame.order refl (start x inputs)) res)

    pause_again :
        (p : PausePolicy) (cp cp' : Checkpoint F)
        → IsResumable x cp
        → resume x cp p ≡ ok (paused cp')
        → IsResumable x cp'
        → resume x cp' never ≡ resume x cp never
    unfolding resume
    pause_again p cp cp' from e res =
        let (_, version, e₁) = >>=-eq-ok (check_version_compatibility x.plan.version) _ e in
        let (frame, prepared, e₂) = >>=-eq-ok (prepare x) _ e₁ in
        rw (version, prepared)
          (subst (Finishes x frame p wf (resume_in x frame never cp)) e₂
            (resume_in_agrees x frame p wf cp from.at_loop) res)

    Pauses-Fits : {cp : Checkpoint F} → Pauses cp → OutcomeFits x (paused cp)
    Pauses-Fits (first p e k) =
        Ensures-ok (subst (Ensures (OutcomeFits x)) e (execute_with-Fits x inputs p))
    Pauses-Fits (later p {cp = cp} c e k) =
        Ensures-ok (subst (Ensures (OutcomeFits x)) e (resume-Fits x cp p (Pauses-Fits c)))

    Pauses-IsAtLoop : {cp : Checkpoint F} → Pauses cp → IsAtLoop x cp.loop_state
    Pauses-IsAtLoop (first p e k) =
        Ensures-ok
          (subst (Ensures (IsAtLoopOutcome x)) e (execute_with-IsAtLoop x wf.indexed inputs p))
    Pauses-IsAtLoop (later p {cp = cp} c e k) = Ensures-ok (
        subst (Ensures (IsAtLoopOutcome x)) e
          (resume-IsAtLoop x wf.indexed cp p (Pauses-IsAtLoop c)))

    Pauses-IsVarKept : {cp : Checkpoint F} → Pauses cp → IsVarKept cp
    Pauses-IsVarKept (first p e k) = k
    Pauses-IsVarKept (later p c e k) = k

    Pauses-IsResumable : {cp : Checkpoint F} → Pauses cp → IsResumable x cp
    Pauses-IsResumable c = record {
      counters = counters_of (Pauses-Fits c);
      at_loop = Pauses-IsAtLoop c;
      var_kept = Pauses-IsVarKept c;
    }

    -- Let a run of a well-formed plan pause any number of times, each segment under its own policy, where
    -- a pause inside a LOOP finds the LOOP's variable as the round set it. Then resuming the last
    -- checkpoint without a policy gives the result, or the error, of the run that never pauses.
    pub resume-Pauses :
        (cp : Checkpoint F) → Pauses cp → resume x cp never ≡ execute_with x inputs never
    resume-Pauses _ (first p {cp = cp} e k) = pause_once p cp e (Pauses-IsResumable (first p e k))
    resume-Pauses _ (later p {cp = cp} {cp' = cp'} c e k) =
        pause_again p cp cp' (Pauses-IsResumable c) e (Pauses-IsResumable (later p c e k))
        ∙ resume-Pauses cp c

    Finishes-HasEnded :
        (frame : Frame) (p : PausePolicy) (q r : Result (ExecutionOutcome F))
        → Finishes x frame p wf q r
        → HasEnded r
        → q ≡ r
    Finishes-HasEnded frame p q _ h (complete r) = h
    Finishes-HasEnded frame p q _ h (failed e) = h

    finish_with :
        (p : PausePolicy) (cp : Checkpoint F) (out : Result (ExecutionOutcome F))
        → IsResumable x cp
        → HasEnded out
        → resume x cp p ≡ out
        → resume x cp never ≡ out
    unfolding resume
    finish_with p cp out from end e =
        ends_after (check_version_compatibility x.plan.version)
          (λ _. ends_after (prepare x) (λ frame.
            Finishes-HasEnded frame p _ _ (resume_in_agrees x frame p wf cp from.at_loop)))
          (subst HasEnded (sym e) end)
        ∙ e

    -- Let a run of a well-formed plan pause any number of times, as above. If resuming the last checkpoint
    -- under any policy runs to the end or fails, then the result, or the error, is that of the run that
    -- never pauses.
    pub resume-ends :
        (cp : Checkpoint F)
        → Pauses cp
        → (p : PausePolicy) (out : Result (ExecutionOutcome F)) → HasEnded out
        → resume x cp p ≡ out
        → execute_with x inputs never ≡ out
    resume-ends cp c p out end e =
        sym (resume-Pauses cp c) ∙ finish_with p cp out (Pauses-IsResumable c) end e
