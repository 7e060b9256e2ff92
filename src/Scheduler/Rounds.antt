-- ===== src/Scheduler/Rounds.antt =====
-- `run_once` and `run_loop` of tinypipe-scheduler/src/lib.rs. The counters are `usize`, which no list of
-- executions fills.
use tinypipe.Prelude.{
  ℕ, zero, suc, ◌+◌, ◌&&◌, Option, none, List, [], ◌∷◌, ◌⊎◌, inl, inr, length, ◌==◌, if◌then◌else◌,
}
use tinypipe.Vm.Pause.{PausePolicy}
use tinypipe.Scheduler.{
  SchedulerError, storage_error, Execution, World, ResumeOutcome, was_completed, was_paused, Step,
  ◌>>=◌, done, reading, resume_one,
}

pub record SchedulerSummary : Type 0 where
  pub processed : ℕ
  pub completed : ℕ
  pub still_paused : ℕ
  pub failed : ℕ

-- one more outcome
unfoldable pub count : ResumeOutcome ⊎ SchedulerError → SchedulerSummary → SchedulerSummary
count (inl was_completed) sum = record sum { completed = sum.completed + 1 }
count (inl was_paused) sum = record sum { still_paused = sum.still_paused + 1 }
count (inr e) sum = record sum { failed = sum.failed + 1 }

-- `SchedulerSummary::default()` with a number of executions
abbrev pub empty_summary : ℕ → SchedulerSummary
empty_summary n = record { processed = n; completed = 0; still_paused = 0; failed = 0 }

unfoldable pub add_round : SchedulerSummary → SchedulerSummary → SchedulerSummary
add_round total round = record {
  processed = total.processed + round.processed;
  completed = total.completed + round.completed;
  still_paused = total.still_paused + round.still_paused;
  failed = total.failed + round.failed;
}

module _ {F S : Type 0} (w : World F S) where
  -- A failure is counted, and the next execution follows.
  unfoldable pub resume_all :
      PausePolicy → List (Execution F) → SchedulerSummary → S → SchedulerSummary × S
  unfolding resume_one count
  resume_all policy [] sum s = (sum, s)
  resume_all policy (exec ∷ rest) sum s =
      resume_all policy rest (count (resume_one w exec policy s).0 sum)
        (resume_one w exec policy s).1

  unfoldable pub advance : PausePolicy → List (Execution F) → Step S SchedulerSummary
  unfolding resume_all
  advance policy execs s =
      let r = resume_all policy execs (empty_summary (length execs)) s in (inl r.0, r.1)

  unfoldable pub run_once : Option ℕ → Step S SchedulerSummary
  unfolding advance ◌>>=◌
  run_once max_nodes = do
    execs ← reading storage_error w.list_paused_executions
    advance (record { max_nodes = max_nodes; pause_at_node_ids = none }) execs

  -- What follows a round.
  unfoldable pub after_round :
      SchedulerSummary
      → (SchedulerSummary → Step S SchedulerSummary)
      → SchedulerSummary
      → Step S SchedulerSummary
  unfolding add_round
  after_round total more round =
      if (round.completed == 0) && (round.still_paused == 0)
      then done (add_round total round)
      else if round.still_paused == 0
      then done (add_round total round)
      else more (add_round total round)

  -- `for _ in 0..max_rounds`
  unfoldable pub rounds : Option ℕ → ℕ → SchedulerSummary → Step S SchedulerSummary
  unfolding run_once after_round ◌>>=◌
  rounds max_nodes zero total = done total
  rounds max_nodes (suc n) total = run_once max_nodes >>= after_round total (rounds max_nodes n)

  unfoldable pub run_loop : Option ℕ → ℕ → Step S SchedulerSummary
  unfolding rounds
  run_loop max_nodes max_rounds = rounds max_nodes max_rounds (empty_summary 0)
