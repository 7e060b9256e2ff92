-- ===== src/Vm/Loop/Resume.antt =====
-- A LOOP that pauses in its body and goes on from the cursor does what it does without a pause.
use tinypipe.Prelude.{
  ℕ, zero, suc, ◌+◌, ◌-◌, String, ◌≡◌, refl, sym, true, false, ◌&&◌, Option, none, some, List, [],
  ◌∷◌, arith, ◌==◌, All, All-keep, drop-suc, if◌then◌else◌, contains, drop, lookup, Bool-cases, inl,
  inr, insert_all, insert_all_idem,
}
use tinypipe.Ir.Plan.{Plan, Node, Edge, get_node, is_data}
use tinypipe.Vm.Error.{Result, ok, err, ◌>>=◌, Ensures, returns}
use tinypipe.Vm.Pause.{PausePolicy, never, should_pause, LoopState}
use tinypipe.Vm.Machine.{Executor, State, Frame, NodeOutcome, node_ok, node_paused}
use tinypipe.Vm.Budget.{charge}
use tinypipe.Vm.Gate.{branch_mismatch}
use tinypipe.Vm.Graph.{anchors, loop_body}
use tinypipe.Vm.Loop.{
  Flow, go, go_unchecked, leave, end_round, RoundEnd, next_round, left, paused_at, exec_in_body,
  after_node, body_step, run_body, after_round, run_rounds, begin_round, max_iterations, body_order,
  skip_body, finish_outcome, run_anchored, run_loop, bound_on, edge_bound, carries_bound,
}
use tinypipe.Vm.Loop.Kept.{IsIndexed, Kept, Kept-refl, run_rounds-Kept}

abbrev pub quiet : Option PausePolicy
quiet = some never

-- No data edge into the LOOP comes from its own body.
abbrev pub IsFedOutside : Plan → Node → List Edge → Type 0
IsFedOutside plan node = All (λ (e : Edge).
    ((e.to_index == node.index) && is_data e.kind) ≡ true
    → contains (loop_body plan.edges node.index) e.from_index ≡ false)

module _ {F : Type 0} (x : Executor F) (frame : Frame) (p : PausePolicy) (node : Node) where
  -- `q` is a round without a pause, and the last argument the same round under the policy.
  abbrev AgreesRound :
      ℕ → List ℕ → Result (RoundEnd × State F) → Result (RoundEnd × State F) → Type 0
  AgreesRound it body q (err e) = q ≡ err e
  AgreesRound it body q (ok (next_round, st)) = q ≡ ok (next_round, st)
  AgreesRound it body q (ok (left, st)) = q ≡ ok (left, st)
  AgreesRound it body q (ok (paused_at ls, st)) =
      (q ≡ run_body x frame quiet node it ls.body_position (drop ls.body_position body) st)
      × (ls.iteration ≡ it)
      × (ls.loop_index ≡ node.index)

  AgreesRound-bind {ℓ} :
      {A : Type ℓ} (it : ℕ) (body : List ℕ) (m : Result A) (f g : A → Result (RoundEnd × State F))
      → ((a : A) → AgreesRound it body (f a) (g a))
      → AgreesRound it body (m >>= f) (m >>= g)
  AgreesRound-bind it body (ok a) f g h = h a
  AgreesRound-bind it body (err e) f g h = refl

  module _ (it position : ℕ) (body later : List ℕ) (here : drop (position + 1) body ≡ later)
      (rest : State F → Result (RoundEnd × State F))
      (agrees : (st : State F)
        → AgreesRound it body
            (run_body x frame quiet node it (position + 1) later st)
            (rest st)) where
    abbrev quiet_rest : State F → Result (RoundEnd × State F)
    quiet_rest = run_body x frame quiet node it (position + 1) later

    after_node_agrees :
        (id : String) (r : Flow × State F)
        → AgreesRound it body
            (after_node x frame quiet node it position id quiet_rest r)
            (after_node x frame (some p) node it position id rest r)
    unfolding after_node should_pause
    after_node_agrees id (leave, st) = refl
    after_node_agrees id (end_round, st) = refl
    after_node_agrees id (go_unchecked, st) = agrees st
    after_node_agrees id (go, st) = elim (Bool-cases (should_pause p st.node_count id)) [
      | inl e ↦ rw e (rw here refl, refl, refl)
      | inr e ↦ rw e (agrees st)
    ]

    body_step_agrees :
        (idx : ℕ) (o : Option Node) (st : State F)
        → AgreesRound it body
            (body_step x frame quiet node it position idx o quiet_rest st)
            (body_step x frame (some p) node it position idx o rest st)
    unfolding body_step
    body_step_agrees idx none st = refl
    body_step_agrees idx (some n) st =
        elim (branch_mismatch x.plan st.node_outputs n.op idx)
          as (λ b.
            AgreesRound it body
              (if b
                then quiet_rest st
                else (charge x n st >>= λ st₁.
                    exec_in_body x n st₁
                    >>= after_node x frame quiet node it position n.id quiet_rest))
              (if b
                then rest st
                else (charge x n st >>= λ st₁.
                    exec_in_body x n st₁
                    >>= after_node x frame (some p) node it position n.id rest))) [
                      | true ↦ agrees st
                      | false ↦ AgreesRound-bind it body (charge x n st) _ _ λ st₁.
                          AgreesRound-bind it body (exec_in_body x n st₁) _ _
                            (after_node_agrees n.id)
                    ]

  -- A round that pauses goes on from the position in its cursor.
  run_body_agrees :
      (it position : ℕ) (body rest : List ℕ)
      → drop position body ≡ rest
      → (st : State F)
      → AgreesRound it body
          (run_body x frame quiet node it position rest st)
          (run_body x frame (some p) node it position rest st)
  unfolding run_body
  run_body_agrees it position body [] h st = refl
  run_body_agrees it position body (idx ∷ rest) h st =
      body_step_agrees it position body rest (drop-suc position body idx rest h)
        (run_body x frame (some p) node it (position + 1) rest)
        (λ st₁. run_body_agrees it (position + 1) body rest (drop-suc position body idx rest h) st₁)
        idx (get_node x.plan idx) st

  -- The loop variable still has the number of the round, so that setting it again changes nothing.
  abbrev pub IsVarKept : LoopState → State F → Type 0
  IsVarKept ls st = begin_round node ls.iteration st ≡ st

  -- The same for the rounds that are left of `bound`.
  abbrev AgreesRounds :
      ℕ → List ℕ → Result (NodeOutcome × State F) → Result (NodeOutcome × State F) → Type 0
  AgreesRounds bound body q (err e) = q ≡ err e
  AgreesRounds bound body q (ok (node_ok, st)) = q ≡ ok (node_ok, st)
  AgreesRounds bound body q (ok (node_paused ls, st)) =
      (IsVarKept ls st
        → q
          ≡ run_rounds x frame quiet node body (bound - ls.iteration) ls.iteration ls.body_position
              st)
      × (ls.loop_index ≡ node.index)

  module _ (bound it left_over : ℕ) (body : List ℕ) (rounds : bound - it ≡ suc left_over)
      (rest : State F → Result (NodeOutcome × State F))
      (agrees : (st : State F)
        → AgreesRounds bound body
            (run_rounds x frame quiet node body left_over (it + 1) 0 st)
            (rest st)) where
    abbrev quiet_rounds : State F → Result (NodeOutcome × State F)
    quiet_rounds = run_rounds x frame quiet node body left_over (it + 1) 0

    -- the round of the cursor, with the loop variable set already
    resumed_round :
        (ls : LoopState) (st : State F)
        → ls.iteration ≡ it
        → IsVarKept ls st
        → run_rounds x frame quiet node body (bound - ls.iteration) ls.iteration ls.body_position st
          ≡ (run_body x frame quiet node it ls.body_position (drop ls.body_position body) st
              >>= after_round x frame quiet node quiet_rounds)
    unfolding run_rounds
    resumed_round ls st e v = rw (e, rounds) (rw (rw e at v))

    after_round_agrees :
        (q r : Result (RoundEnd × State F))
        → AgreesRound it body q r
        → AgreesRounds bound body
            (q >>= after_round x frame quiet node quiet_rounds)
            (r >>= after_round x frame (some p) node rest)
    unfolding after_round
    after_round_agrees q (err e) h = rw h
    after_round_agrees q (ok (next_round, st)) h = rw h (agrees st)
    after_round_agrees q (ok (left, st)) h = rw h
    after_round_agrees q (ok (paused_at ls, st)) h =
        (λ v. rw (h.0) (sym (resumed_round ls st (h.1) v)), h.2)

  -- The rounds go on from the round and the position in the cursor.
  run_rounds_agree :
      (bound left_over it skip : ℕ) (body : List ℕ)
      → bound - it ≡ left_over
      → (st : State F)
      → AgreesRounds bound body
          (run_rounds x frame quiet node body left_over it skip st)
          (run_rounds x frame (some p) node body left_over it skip st)
  unfolding run_rounds
  run_rounds_agree bound zero it skip body h st = refl
  run_rounds_agree bound (suc n) it skip body h st =
      after_round_agrees bound it n body h (run_rounds x frame (some p) node body n (it + 1) 0)
        (λ st₁. run_rounds_agree bound n (it + 1) 0 body (omega arith) st₁) _ _
        (run_body_agrees it skip body (drop skip body) refl (begin_round node it st))

  abbrev pub AgreesNode : Result (NodeOutcome × State F) → Result (NodeOutcome × State F) → Type 0
  AgreesNode q (err e) = q ≡ err e
  AgreesNode q (ok (node_ok, st)) = q ≡ ok (node_ok, st)
  AgreesNode q (ok (node_paused ls, st)) =
      (IsVarKept ls st → q ≡ run_loop x frame quiet node ls.iteration ls.body_position st)
      × (ls.loop_index ≡ node.index)

  edge_bound_kept :
      (e : Edge) (st st' : State F)
      → (((e.to_index == node.index) && is_data e.kind) ≡ true
          → lookup e.from_index st'.node_outputs ≡ lookup e.from_index st.node_outputs)
      → edge_bound x node.index st'.node_outputs e ≡ edge_bound x node.index st.node_outputs e
  unfolding edge_bound carries_bound
  edge_bound_kept e st st' h = elim (Bool-cases ((e.to_index == node.index) && is_data e.kind)) [
    | inl b ↦ rw (h b)
    | inr b ↦ rw b
  ]

  bound_on-Kept :
      (edges : List Edge) (st st' : State F)
      → IsFedOutside x.plan node edges
      → Kept (loop_body x.plan.edges node.index) st st'
      → bound_on x node.index st'.node_outputs edges ≡ bound_on x node.index st.node_outputs edges
  unfolding bound_on
  bound_on-Kept [] st st' h k = refl
  bound_on-Kept (e ∷ es) st st' (he, hs) k =
      rw (
        edge_bound_kept e st st' (λ b. k.outputs e.from_index (he b)),
        bound_on-Kept es st st' hs k,
      )

  max_iterations-Kept :
      (st st' : State F)
      → IsFedOutside x.plan node x.plan.edges
      → Kept (loop_body x.plan.edges node.index) st st'
      → max_iterations x node st'.node_outputs ≡ max_iterations x node st.node_outputs
  unfolding max_iterations
  max_iterations-Kept st st' h k = rw (bound_on-Kept x.plan.edges st st' h k, max_iterations)

  skip_body-Kept :
      (st st' : State F)
      → Kept (loop_body x.plan.edges node.index) (skip_body x frame quiet node st) st'
      → skip_body x frame quiet node st' ≡ st'
  unfolding skip_body
  skip_body-Kept st st' k = λ i. record st' { loop_skipped = same_set i }
    where
      same_set : insert_all (loop_body x.plan.edges node.index) st'.loop_skipped ≡ st'.loop_skipped
      same_set = rw k.skipped (insert_all_idem (loop_body x.plan.edges node.index) st.loop_skipped)

  module _ (ix : IsIndexed x.plan) (fed : IsFedOutside x.plan node x.plan.edges) (a : ℕ)
      (later : List ℕ) (here : anchors true node.index x.plan.edges ≡ a ∷ later)
      (st : State F) where
    abbrev bound : ℕ
    bound = max_iterations x node st.node_outputs

    abbrev skipping : State F
    skipping = skip_body x frame quiet node st

    abbrev IsBodyKept : State F → Type 0
    IsBodyKept st' = Kept (loop_body x.plan.edges node.index) skipping st'

    -- the call of `run_loop` at the cursor, as the rounds that it runs
    resumed_loop :
        (it skip : ℕ) (st' : State F)
        → IsBodyKept st'
        → run_loop x frame quiet node it skip st' ≡ (
            run_rounds x frame quiet node (body_order x frame node) (bound - it) it skip st'
            >>= finish_outcome x frame quiet node)
    unfolding run_loop run_anchored
    resumed_loop it skip st' k =
        rw (here, run_anchored)
          (rw (skip_body-Kept st st' k, max_iterations-Kept skipping st' fed k)
            (unfold skip_body in refl))

    finish_agrees :
        (q r : Result (NodeOutcome × State F))
        → AgreesRounds bound (body_order x frame node) q r
        → Ensures (λ t. IsBodyKept t.1) r
        → AgreesNode
            (q >>= finish_outcome x frame quiet node)
            (r >>= finish_outcome x frame (some p) node)
    unfolding finish_outcome
    finish_agrees q (err e) h k = rw h
    finish_agrees q (ok (node_ok, st')) h k = rw h
    finish_agrees q (ok (node_paused ls, st')) h (returns k) =
        (λ v. rw ((h.0) v) (sym (resumed_loop ls.iteration ls.body_position st' k)), h.1)

  run_anchored_agrees :
      IsIndexed x.plan
      → IsFedOutside x.plan node x.plan.edges
      → (found : List ℕ) → anchors true node.index x.plan.edges ≡ found
      → (it skip : ℕ) (st : State F)
      → AgreesNode
          (run_anchored x frame quiet node found it skip st)
          (run_anchored x frame (some p) node found it skip st)
  unfolding run_anchored
  run_anchored_agrees ix fed [] here it skip st = refl
  run_anchored_agrees ix fed (a ∷ later) here it skip st =
      finish_agrees ix fed a later here st _ _
        (run_rounds_agree (max_iterations x node st.node_outputs) _ it skip
          (body_order x frame node) refl _)
        (run_rounds-Kept x frame (some p) node (loop_body x.plan.edges node.index) ix _ _ _ it skip
          _
          (unfold body_order in All-keep (contains (loop_body x.plan.edges node.index)) frame.order)
          (Kept-refl _ _))

  -- A LOOP under a pause policy does what it does without one; where it pauses, the call with the
  -- cursor's iteration and position does the rest.
  pub run_loop_agrees :
      IsIndexed x.plan
      → IsFedOutside x.plan node x.plan.edges
      → (it skip : ℕ) (st : State F)
      → AgreesNode
          (run_loop x frame quiet node it skip st)
          (run_loop x frame (some p) node it skip st)
  unfolding run_loop
  run_loop_agrees ix fed it skip st = run_anchored_agrees ix fed _ refl it skip st
