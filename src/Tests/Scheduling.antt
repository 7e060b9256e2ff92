-- ===== src/Tests/Scheduling.antt =====
-- A storage with two paused executions, one of which has no checkpoint.
use tinypipe.Prelude.{
  ℕ, String, ◌≡◌, refl, ◌∙◌, not, none, List, [], ◌∷◌, inl, keep, str_eq, length, if◌then◌else◌,
}
use tinypipe.Vm.Pause.{never}
use tinypipe.Vm.Run.Segments.{HasEnded}
use tinypipe.Vm.Run.Complete.{never-HasEnded}
use tinypipe.Vm.Run.{execute_with, resume}
use tinypipe.Scheduler.{Execution, World, status_paused}
use tinypipe.Scheduler.Rounds.{SchedulerSummary, run_once, run_loop}
use tinypipe.Scheduler.Laws.{IsBalanced, run_once-IsBalanced, run_loop-IsBalanced, run_loop-none}
use tinypipe.Tests.{plan, executor, inputs}
use tinypipe.Tests.Pauses.{in_loop}

abbrev waiting : String → Execution ℕ
waiting id = record {
  id = id;
  graph_id = "g";
  graph_version = 1;
  input = inputs;
  output = none;
  status = status_paused;
  error = none;
  started_at = "0";
  completed_at = none;
  duration_us = none;
  context = none;
}

-- The state is the list of paused executions.
abbrev world : World ℕ (List (Execution ℕ))
world = record {
  list_paused_executions = λ s. inl s;
  load_checkpoint = λ id s. if str_eq id "lost" then inl [] else inl (1 ∷ []);
  load_plan_version = λ id version s. inl (4 ∷ []);
  save_execution = λ e s. (none, keep (λ (d : Execution ℕ). not (str_eq d.id e.id)) s);
  save_step = λ step s. (none, s);
  save_checkpoint = λ id blob s. (none, s);
  decode_checkpoint = λ blob. inl in_loop;
  encode_checkpoint = λ cp. inl (1 ∷ []);
  decode_plan = λ bytes. inl plan;
  validate_env = λ id s. inl [];
  executor = λ s p. executor;
  node_durations = λ r. ("done", 3) ∷ [];
  run_duration = λ r. 3;
  now_micros = λ s. "1000";
  new_id = λ s. "step";
}

abbrev store : List (Execution ℕ)
store = waiting "lost" ∷ waiting "kept" ∷ []

abbrev one_round : SchedulerSummary
one_round = record { processed = 2; completed = 1; still_paused = 0; failed = 1 }

-- One execution is completed, one fails and stays in the list.
round_of_store : run_once world none store ≡ (inl one_round, waiting "lost" ∷ [])
unfolding run_once in_loop inputs
round_of_store = refl

run_once-IsBalanced_example :
    (sum : SchedulerSummary) × ((run_once world none store).0 ≡ inl sum)
    × (sum.processed ≡ length store)
    × IsBalanced sum
run_once-IsBalanced_example = run_once-IsBalanced world none store store refl

run_loop-none_example : run_loop world none 8 store ≡ run_once world none store
run_loop-none_example = run_loop-none world 7 store

never-HasEnded_example :
    HasEnded (execute_with executor inputs never) × HasEnded (resume executor in_loop never)
never-HasEnded_example = never-HasEnded executor inputs in_loop

run_loop-IsBalanced_example : IsBalanced one_round
run_loop-IsBalanced_example =
    run_loop-IsBalanced world none 8 store (waiting "lost" ∷ []) one_round
      (run_loop-none world 7 store ∙ round_of_store)
