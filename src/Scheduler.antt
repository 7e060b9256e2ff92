-- ===== src/Scheduler.antt =====
-- tinypipe-scheduler/src/lib.rs: paused executions are resumed from their checkpoints, round after round.
-- The storage is an abstract state `S` with the methods of the trait `GraphStorage` that are called; the
-- codecs, the tools' environment check, the clock and the ids of steps are functions too (`World`).
pub mod Rounds
pub mod Laws
use tinypipe.Prelude.{
  ℕ, zero, suc, ◌+◌, ◌%◌, ◌^◌, String, Bool, true, false, not, Option, none, some, List, [], ◌∷◌,
  ◌++◌, map, ◌⊎◌, inl, inr, if◌then◌else◌, NameMap, get_name, put_name,
}
use tinypipe.Api.Value.{Value}
use tinypipe.Api.Context.{Context}
use tinypipe.Ir.Plan.{
  Plan, Node, Opcode, input, call, calc, decide, switch, act, parallel, loop, wait, merge, error,
  debug_name,
}
use tinypipe.Vm.Error.{Result, ok, err, ◌&◌, error_text}
use tinypipe.Vm.Text.{decimal, join, parse_u64}
use tinypipe.Vm.Pause.{
  PausePolicy, Checkpoint, ExecutionResult, ExecutionOutcome, completed, paused,
}
use tinypipe.Vm.Machine.{Executor}
use tinypipe.Vm.Run.{resume}

pub data SchedulerError : Type 0 where
  storage_error : String → SchedulerError
  checkpoint_decode : String → SchedulerError
  plan_decode : String → SchedulerError
  execution_error : String → SchedulerError

pub data ExecutionStatus : Type 0 where
  status_running status_paused status_completed status_failed : ExecutionStatus

-- `ResumeOutcome`
pub data ResumeOutcome : Type 0 where
  was_completed was_paused : ResumeOutcome

-- `ExecutionStep`, without the fields that are always `None`
pub record ExecutionStep : Type 0 where
  pub id : String
  pub execution_id : String
  pub node_id : String
  pub node_op : String
  pub status : String
  pub started_at : String
  pub completed_at : String
  pub duration_us : ℕ

module _ (F : Type 0) where
  pub record Execution : Type 0 where
    pub id : String
    pub graph_id : String
    pub graph_version : ℕ
    pub input : Context F
    pub output : Option (Value F)
    pub status : ExecutionStatus
    pub error : Option String
    pub started_at : String
    pub completed_at : Option String
    pub duration_us : Option ℕ
    pub context : Option (Context F)

  -- A method that only reads gives a value or the text of its error; one that writes gives the next
  -- state and the text of its error, if there is one.
  pub record World (S : Type 0) : Type 0 where
    pub list_paused_executions : S → List Execution ⊎ String
    pub load_checkpoint : String → S → List ℕ ⊎ String
    pub load_plan_version : String → ℕ → S → List ℕ ⊎ String
    pub save_execution : Execution → S → Option String × S
    pub save_step : ExecutionStep → S → Option String × S
    pub save_checkpoint : String → List ℕ → S → Option String × S
    pub decode_checkpoint : List ℕ → Checkpoint F ⊎ String
    pub encode_checkpoint : Checkpoint F → List ℕ ⊎ String
    pub decode_plan : List ℕ → Plan ⊎ String
    -- the paths of graphs, each with its missing keys
    pub validate_env : String → S → List (String × List String) ⊎ String
    pub executor : S → Plan → Executor F
    pub node_durations : ExecutionResult F → List (String × ℕ)
    pub run_duration : ExecutionResult F → ℕ
    pub now_micros : S → String
    pub new_id : S → String

-- A part of the scheduler: it reads and changes the storage, and gives a value or an error.
abbrev pub Step : Type 0 → Type 0 → Type 0
Step S A = S → (A ⊎ SchedulerError) × S

module _ {S A B : Type 0} where
  unfoldable pub next : (A → Step S B) → (A ⊎ SchedulerError) × S → (B ⊎ SchedulerError) × S
  next f (inl a, s) = f a s
  next f (inr e, s) = (inr e, s)

  infixl 5 ◌>>=◌
  -- the operator `?`
  unfoldable pub ◌>>=◌ : Step S A → (A → Step S B) → Step S B
  unfolding next
  m >>= f = λ s. next f (m s)

module _ {A : Type 0} where
  -- `map_err` on what gives a value or an error's text
  abbrev pub or_error : (String → SchedulerError) → A ⊎ String → A ⊎ SchedulerError
  or_error wrap (inl a) = inl a
  or_error wrap (inr text) = inr (wrap text)

abbrev pub saved : Option String → Unit {0} ⊎ SchedulerError
saved none = inl tt
saved (some text) = inr (storage_error text)

module _ {S A : Type 0} where
  abbrev pub done : A → Step S A
  done a s = (inl a, s)

  abbrev pub reading : (String → SchedulerError) → (S → A ⊎ String) → Step S A
  reading wrap read s = (or_error wrap (read s), s)

module _ {S : Type 0} where
  abbrev pub writing : (S → Option String × S) → Step S (Unit {0})
  writing write s = (saved (write s).0, (write s).1)

  abbrev pub require : Bool → SchedulerError → Step S (Unit {0})
  require true e s = (inl tt, s)
  require false e s = (inr e, s)

-- each missing key behind the path of its graph
unfoldable pub missing_keys : List (String × List String) → List String
missing_keys [] = []
missing_keys ((path, keys) ∷ rest) = map (λ k. path & "." & k) keys ++ missing_keys rest

abbrev pub is_nil {ℓ} : {A : Type ℓ} → List A → Bool
is_nil [] = true
is_nil (_ ∷ _) = false

-- `node_by_id`
unfoldable pub ops_by_id : List Node → NameMap Opcode → NameMap Opcode
ops_by_id [] m = m
ops_by_id (n ∷ ns) m = ops_by_id ns (put_name n.id n.op m)

unfoldable pub op_name : Option Opcode → String
unfolding debug_name
op_name none = "unknown"
op_name (some op) = debug_name op

module _ {F S : Type 0} (w : World F S) where
  new_step : String → NameMap Opcode → ℕ → String → ℕ → S → ExecutionStep
  unfolding op_name decimal
  new_step execution_id ops cursor node_id duration s = record {
    id = w.new_id s;
    execution_id = execution_id;
    node_id = node_id;
    node_op = op_name (get_name node_id ops);
    status = "completed";
    started_at = decimal cursor;
    completed_at = decimal ((cursor + duration) % 2 ^ 64);
    duration_us = duration;
  }

  -- the loop of `record_steps`; the cursor is a `u64`
  unfoldable pub save_steps : String → NameMap Opcode → ℕ → List (String × ℕ) → Step S (Unit {0})
  unfolding new_step ◌>>=◌
  save_steps execution_id ops cursor [] = done tt
  save_steps execution_id ops cursor ((node_id, duration) ∷ rest) = do
    _ ← writing (λ s. w.save_step (new_step execution_id ops cursor node_id duration s) s)
    save_steps execution_id ops ((cursor + duration) % 2 ^ 64) rest

  start_cursor : Option ℕ → ℕ
  start_cursor none = 0
  start_cursor (some n) = n

  unfoldable pub record_steps : String → Plan → ExecutionResult F → Step S (Unit {0})
  unfolding save_steps ops_by_id start_cursor parse_u64
  record_steps execution_id plan result s =
      save_steps execution_id (ops_by_id plan.nodes []) (start_cursor (parse_u64 (w.now_micros s)))
        (w.node_durations result) s

  unfoldable pub completed_execution : Execution F → ExecutionResult F → S → Execution F
  completed_execution exec res s = record exec {
    status = status_completed;
    output = res.output;
    context = some res.context;
    duration_us = some (w.run_duration res);
    completed_at = some (w.now_micros s);
  }

  -- what `resume_one` stores of the outcome
  unfoldable pub store_outcome : Execution F → Plan → ExecutionOutcome F → Step S ResumeOutcome
  unfolding record_steps completed_execution ◌>>=◌
  store_outcome exec plan (completed res) = do
    _ ← record_steps exec.id plan res
    _ ← writing (λ s. w.save_execution (completed_execution exec res s) s)
    done was_completed
  store_outcome exec plan (paused cp) = do
    blob ← reading checkpoint_decode (λ s. w.encode_checkpoint cp)
    _ ← writing (w.save_checkpoint exec.id blob)
    done was_paused

  unfoldable pub resumed : Result (ExecutionOutcome F) → ExecutionOutcome F ⊎ SchedulerError
  unfolding error_text
  resumed (ok outcome) = inl outcome
  resumed (err e) = inr (execution_error (error_text e))

  unfoldable pub run_checkpoint : Plan → Checkpoint F → PausePolicy → Step S (ExecutionOutcome F)
  unfolding resumed resume
  run_checkpoint plan cp policy s = (resumed (resume (w.executor s plan) cp policy), s)

  unfoldable pub resume_one : Execution F → PausePolicy → Step S ResumeOutcome
  unfolding store_outcome run_checkpoint missing_keys join ◌>>=◌
  resume_one exec policy = do
    blob ← reading storage_error (w.load_checkpoint exec.id)
    _ ← require (not (is_nil blob)) (checkpoint_decode "no checkpoint stored for paused execution")
    checkpoint ← reading checkpoint_decode (λ s. w.decode_checkpoint blob)
    bytes ← reading storage_error (w.load_plan_version exec.graph_id exec.graph_version)
    plan ← reading plan_decode (λ s. w.decode_plan bytes)
    reports ←
        reading (λ e. execution_error ("env check failed: " & e)) (w.validate_env exec.graph_id)
    _ ←
        require (is_nil reports)
          (execution_error ("env check failed, missing: " & join ", " (missing_keys reports)))
    outcome ← run_checkpoint plan checkpoint policy
    store_outcome exec plan outcome
