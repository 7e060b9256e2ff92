-- ===== src/Scheduler/Laws.antt =====
-- What the rounds of tinypipe-scheduler/src/lib.rs count, and when they end.
use tinypipe.Prelude.{
  ℕ, zero, suc, ◌+◌, ◌≡◌, refl, ap, ◌∙◌, subst, String, Bool, true, false, not, ◌&&◌, Option, none,
  List, [], ◌∷◌, ◌⊎◌, inl, inr, length, ◌==◌, ==_iff, if◌then◌else◌, arith, Bool-cases,
}
use tinypipe.Ir.Plan.{Plan}
use tinypipe.Vm.Error.{Result, ◌&◌}
use tinypipe.Vm.Text.{join}
use tinypipe.Vm.Pause.{PausePolicy, never, ExecutionOutcome, completed, paused}
use tinypipe.Vm.Run.Segments.{HasEnded, complete, failed}
use tinypipe.Vm.Run.Complete.{never-HasEnded}
use tinypipe.Scheduler.{
  SchedulerError, storage_error, Execution, World, ResumeOutcome, was_completed, was_paused, Step,
  ◌>>=◌, next, done, reading, require, writing, resumed, run_checkpoint, store_outcome, resume_one,
  record_steps, completed_execution, checkpoint_decode, plan_decode, execution_error, is_nil,
  missing_keys,
}
use tinypipe.Scheduler.Rounds.{
  SchedulerSummary, count, empty_summary, add_round, resume_all, advance, run_once, after_round,
  rounds, run_loop,
}

-- Each processed execution is completed, paused again or failed.
abbrev pub IsBalanced : SchedulerSummary → Type 0
IsBalanced sum = sum.processed ≡ sum.completed + sum.still_paused + sum.failed

count-total :
    (r : ResumeOutcome ⊎ SchedulerError) (sum : SchedulerSummary)
    → ((count r sum).processed ≡ sum.processed)
      × ((count r sum).completed + (count r sum).still_paused + (count r sum).failed
          ≡ 1 + (sum.completed + sum.still_paused + sum.failed))
unfolding count
count-total (inl was_completed) sum = (refl, omega arith)
count-total (inl was_paused) sum = (refl, omega arith)
count-total (inr e) sum = (refl, omega arith)

module _ {F S : Type 0} (w : World F S) where
  resume_all-total :
      (policy : PausePolicy) (execs : List (Execution F)) (sum : SchedulerSummary) (s : S)
      → ((resume_all w policy execs sum s).0.processed ≡ sum.processed)
        × ((resume_all w policy execs sum s).0.completed
              + (resume_all w policy execs sum s).0.still_paused
              + (resume_all w policy execs sum s).0.failed
            ≡ length execs + (sum.completed + sum.still_paused + sum.failed))
  unfolding resume_all
  resume_all-total policy [] sum s = (refl, omega arith)
  resume_all-total policy (exec ∷ rest) sum s =
      let r = resume_one w exec policy s in
      let (same, grows) = count-total r.0 sum in
      let (kept, total) = resume_all-total policy rest (count r.0 sum) r.1 in
      (kept ∙ same, omega (arith, grows, total))

  -- Where the list of paused executions can be read, a round returns a summary, whatever happens to the
  -- single executions: it has processed each execution of the list, and each of them is counted once, as
  -- completed, as paused again or as failed.
  pub run_once-IsBalanced :
      (max_nodes : Option ℕ) (s : S) (execs : List (Execution F))
      → w.list_paused_executions s ≡ inl execs
      → (sum : SchedulerSummary) × ((run_once w max_nodes s).0 ≡ inl sum)
        × (sum.processed ≡ length execs)
        × IsBalanced sum
  unfolding run_once advance next ◌>>=◌
  run_once-IsBalanced max_nodes s execs h =
      let policy : PausePolicy = record { max_nodes = max_nodes; pause_at_node_ids = none } in
      let (kept, total) = resume_all-total policy execs (empty_summary (length execs)) s in
      (
        (resume_all w policy execs (empty_summary (length execs)) s).0,
        rw h refl,
        kept,
        omega (arith, kept, total),
      )

  -- A value that a step returns has the property.
  data Gives {A : Type 0} (P : A → Type 0) : (A ⊎ SchedulerError) × S → Type 0 where
    gives : {a : A} {s : S} → P a → Gives P (inl a, s)
    fails : {e : SchedulerError} {s : S} → Gives P (inr e, s)

  Gives-next :
      {A B : Type 0} {P : A → Type 0} {Q : B → Type 0} {f : A → Step S B}
      {r : (A ⊎ SchedulerError) × S}
      → Gives P r
      → ((a : A) (s : S) → P a → Gives Q (f a s))
      → Gives Q (next f r)
  unfolding next
  Gives-next (gives p) h = h _ _ p
  Gives-next fails h = fails

  Gives-bind :
      {A B : Type 0} {P : A → Type 0} {Q : B → Type 0} (m : Step S A) {f : A → Step S B} (s : S)
      → Gives P (m s)
      → ((a : A) (s : S) → P a → Gives Q (f a s))
      → Gives Q ((m >>= f) s)
  unfolding ◌>>=◌
  Gives-bind m s g h = Gives-next g h

  Gives-any : {A : Type 0} (r : (A ⊎ SchedulerError) × S) → Gives (λ a. Unit {0}) r
  Gives-any (inl a, s) = gives tt
  Gives-any (inr e, s) = fails

  -- the same where nothing is known of the first step
  Gives-then :
      {A B : Type 0} {Q : B → Type 0} (m : Step S A) {f : A → Step S B} (s : S)
      → ((a : A) (s : S) → Gives Q (f a s))
      → Gives Q ((m >>= f) s)
  Gives-then m s h = Gives-bind m s (Gives-any (m s)) (λ a s u. h a s)

  run_once-Gives : (max_nodes : Option ℕ) (s : S) → Gives IsBalanced (run_once w max_nodes s)
  unfolding run_once advance
  run_once-Gives max_nodes s =
      Gives-then (reading storage_error w.list_paused_executions) s (λ execs s.
        let policy : PausePolicy = record { max_nodes = max_nodes; pause_at_node_ids = none } in
        let (kept, total) = resume_all-total policy execs (empty_summary (length execs)) s in
        gives (omega (arith, kept, total)))

  after_round-Gives :
      (total : SchedulerSummary) (more : SchedulerSummary → Step S SchedulerSummary)
      → ((t : SchedulerSummary) (s : S) → IsBalanced t → Gives IsBalanced (more t s))
      → IsBalanced total
      → (round : SchedulerSummary) (s : S) → IsBalanced round
      → Gives IsBalanced (after_round w total more round s)
  unfolding after_round add_round
  after_round-Gives total more hm ht round s hr =
      choose ((round.completed == 0) && (round.still_paused == 0)) (done (add_round total round))
        (if round.still_paused == 0
          then done (add_round total round)
          else more (add_round total round))
        (gives sum)
        (choose (round.still_paused == 0) (done (add_round total round))
          (more (add_round total round)) (gives sum) (hm (add_round total round) s sum))
    where
      sum : IsBalanced (add_round total round)
      sum = omega (arith, ht, hr)

      choose :
          (b : Bool) (m n : Step S SchedulerSummary)
          → Gives IsBalanced (m s)
          → Gives IsBalanced (n s)
          → Gives IsBalanced ((if b then m else n) s)
      choose true m n hm hn = hm
      choose false m n hm hn = hn

  rounds-Gives :
      (max_nodes : Option ℕ) (n : ℕ) (total : SchedulerSummary) (s : S)
      → IsBalanced total
      → Gives IsBalanced (rounds w max_nodes n total s)
  unfolding rounds
  rounds-Gives max_nodes zero total s h = gives h
  rounds-Gives max_nodes (suc n) total s h =
      Gives-bind (run_once w max_nodes) s (run_once-Gives max_nodes s) (λ round s hr.
        after_round-Gives total (rounds w max_nodes n) (rounds-Gives max_nodes n) h round s hr)

  Gives-inl :
      {A : Type 0} {P : A → Type 0} {a : A} {s : S} {r : (A ⊎ SchedulerError) × S}
      → r ≡ (inl a, s)
      → Gives P r
      → P a
  Gives-inl {A} {P} {a} {s} e g = out (subst (Gives P) e g)
    where
      out : Gives P (inl a, s) → P a
      out (gives p) = p

  -- Whatever the storage answers, in the summary that run_loop returns over all its rounds each processed
  -- execution is counted once, as completed, as paused again or as failed.
  pub run_loop-IsBalanced :
      (max_nodes : Option ℕ) (max_rounds : ℕ) (s s' : S) (sum : SchedulerSummary)
      → run_loop w max_nodes max_rounds s ≡ (inl sum, s')
      → IsBalanced sum
  unfolding run_loop
  run_loop-IsBalanced max_nodes max_rounds s s' sum h =
      Gives-inl h (rounds-Gives max_nodes max_rounds (empty_summary 0) s refl)

  -- not paused again
  abbrev IsOver : ResumeOutcome → Type 0
  IsOver was_completed = Unit
  IsOver was_paused = ⊥

  abbrev IsComplete : ExecutionOutcome F → Type 0
  IsComplete (completed r) = Unit
  IsComplete (paused cp) = ⊥

  resumed-IsComplete :
      {r : Result (ExecutionOutcome F)} {s : S} → HasEnded r → Gives IsComplete (resumed w r, s)
  unfolding resumed
  resumed-IsComplete (complete r) = gives tt
  resumed-IsComplete (failed e) = fails

  store_outcome-IsOver :
      (exec : Execution F) (plan : Plan) (o : ExecutionOutcome F) (s : S)
      → IsComplete o
      → Gives IsOver (store_outcome w exec plan o s)
  unfolding store_outcome
  store_outcome-IsOver exec plan (completed r) s h =
      Gives-then (record_steps w exec.id plan r) s λ a s.
        Gives-then (writing (λ s. w.save_execution (completed_execution w exec r s) s)) s
          λ b s. gives {a = was_completed} tt
  store_outcome-IsOver exec plan (paused cp) s h = absurd h

  resume_one-IsOver : (exec : Execution F) (s : S) → Gives IsOver (resume_one w exec never s)
  unfolding resume_one run_checkpoint
  resume_one-IsOver exec s =
      Gives-then (reading storage_error (w.load_checkpoint exec.id)) s λ blob s.
        Gives-then
          (require (not (is_nil blob))
            (checkpoint_decode "no checkpoint stored for paused execution"))
          s
          λ a s. Gives-then (reading checkpoint_decode (λ s. w.decode_checkpoint blob)) s λ cp s.
            Gives-then
              (reading storage_error (w.load_plan_version exec.graph_id exec.graph_version)) s
              λ bytes s. Gives-then (reading plan_decode (λ s. w.decode_plan bytes)) s λ plan s.
                Gives-then
                  (reading (λ e. execution_error ("env check failed: " & e))
                    (w.validate_env exec.graph_id))
                  s
                  λ reports s.
                    Gives-then
                      (require (is_nil reports) (
                        execution_error
                          ("env check failed, missing: " & join ", " (missing_keys reports))))
                      s
                      λ b s.
                        Gives-bind (run_checkpoint w plan cp never) s
                          (resumed-IsComplete (never-HasEnded (w.executor s plan) cp.context cp).1)
                          (store_outcome-IsOver exec plan)

  count-IsOver :
      {r : (ResumeOutcome ⊎ SchedulerError) × S} (sum : SchedulerSummary)
      → Gives IsOver r
      → (count r.0 sum).still_paused ≡ sum.still_paused
  unfolding count
  count-IsOver sum (gives {a = was_completed} h) = refl
  count-IsOver sum (gives {a = was_paused} h) = absurd h
  count-IsOver sum fails = refl

  resume_all-never :
      (execs : List (Execution F)) (sum : SchedulerSummary) (s : S)
      → (resume_all w never execs sum s).0.still_paused ≡ sum.still_paused
  unfolding resume_all
  resume_all-never [] sum s = refl
  resume_all-never (exec ∷ rest) sum s =
      let r = resume_one w exec never s in
      resume_all-never rest (count r.0 sum) r.1 ∙ count-IsOver sum (resume_one-IsOver exec s)

  add_round-empty : (round : SchedulerSummary) → add_round (empty_summary 0) round ≡ round
  unfolding add_round
  add_round-empty round =
      let p : 0 + round.processed ≡ round.processed = omega arith in
      let c : 0 + round.completed ≡ round.completed = omega arith in
      let q : 0 + round.still_paused ≡ round.still_paused = omega arith in
      let f : 0 + round.failed ≡ round.failed = omega arith in
      λ i. record { processed = p i; completed = c i; still_paused = q i; failed = f i }

  stop_after :
      (more : SchedulerSummary → Step S SchedulerSummary) (round : SchedulerSummary) (s : S)
      → round.still_paused ≡ 0
      → after_round w (empty_summary 0) more round s ≡ (inl round, s)
  unfolding after_round
  stop_after more round s h =
      let z : (round.still_paused == 0) ≡ true = (==_iff round.still_paused 0).1 h in
      elim (Bool-cases (round.completed == 0)) [
        | inl e ↦ rw (e, z) (ap (λ t. (inl t, s)) (add_round-empty round))
        | inr e ↦ rw (e, z) (ap (λ t. (inl t, s)) (add_round-empty round))
      ]

  -- Without a bound on the nodes the first round of run_loop is the last: however many rounds are allowed,
  -- if one is, the result and the storage are those of one call of run_once, since no resumed execution is
  -- paused again.
  pub run_loop-none :
      (max_rounds : ℕ) (s : S) → run_loop w none (suc max_rounds) s ≡ run_once w none s
  unfolding run_loop rounds run_once advance next ◌>>=◌
  run_loop-none max_rounds s = elim (listing (w.list_paused_executions s)) [
    | inl (execs, e) ↦ rw e (
        stop_after (rounds w none max_rounds) _ _
          (resume_all-never execs (empty_summary (length execs)) s))
    | inr (text, e) ↦ rw e refl
  ]
    where
      listing :
          (r : List (Execution F) ⊎ String)
          → ((execs : List (Execution F)) × (r ≡ inl execs)) ⊎ ((text : String) × (r ≡ inr text))
      listing (inl execs) = inl (execs, refl)
      listing (inr text) = inr (text, refl)
