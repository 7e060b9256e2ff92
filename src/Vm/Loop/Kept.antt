-- ===== src/Vm/Loop/Kept.antt =====
-- What the rounds of a LOOP leave alone: the skipped set, and the outputs of nodes outside the body.
use tinypipe.Prelude.{
  ℕ, zero, suc, ◌+◌, String, ◌≡◌, refl, ◌∙◌, Bool, true, false, Option, none, some, List, [], ◌∷◌,
  ◌==◌, str_eq, All, All-drop, if◌then◌else◌, contains, drop, Map, lookup, put, lookup-put,
  Bool-cases, inl, inr, ==_iff,
}
use tinypipe.Api.Value.{Value}
use tinypipe.Ir.Plan.{Plan, Node, get_node, input, call, calc, decide, act, Opcode}
use tinypipe.Vm.Error.{Result, Ensures, returns, raises, Ensures-bind, Ensures-map, Ensures-if}
use tinypipe.Vm.Pause.{PausePolicy}
use tinypipe.Vm.Machine.{Executor, State, Frame, NodeOutcome, IsLocalTo, wrote, same}
use tinypipe.Vm.Budget.{charge, charge-Ensures}
use tinypipe.Vm.Gate.{branch_mismatch}
use tinypipe.Vm.Call.Local.{exec_call_in_body-IsLocal}
use tinypipe.Vm.Ops.{action_type}
use tinypipe.Vm.Ops.Local.{compute-IsLocal, exec_input_in_body-IsLocal, exec_decide_in_body-IsLocal}
use tinypipe.Vm.Loop.{
  Flow, go, go_unchecked, leave, end_round, RoundEnd, next_round, left, paused_at, exec_in_body,
  exec_act_in_body, body_op, after_node, body_step, run_body, after_round, run_rounds, begin_round,
  set_target, pauses,
}

-- A node stands at the position that its index names.
abbrev pub IsIndexed : Plan → Type 0
IsIndexed plan = (i : ℕ) (n : Node) → get_node plan i ≡ some n → n.index ≡ i

module _ {F : Type 0} where
  pub record Kept (body : List ℕ) (st st' : State F) : Type 0 where
    pub skipped : st'.loop_skipped ≡ st.loop_skipped
    pub outputs :
        (j : ℕ) → contains body j ≡ false → lookup j st'.node_outputs ≡ lookup j st.node_outputs

  pub Kept-refl : (body : List ℕ) (st : State F) → Kept body st st
  Kept-refl body st = record { skipped = refl; outputs = λ j h. refl }

  pub Kept-trans : {body : List ℕ} {a b c : State F} → Kept body a b → Kept body b c → Kept body a c
  Kept-trans h k = record {
    skipped = k.skipped ∙ h.skipped;
    outputs = λ j e. k.outputs j e ∙ h.outputs j e;
  }

  put_outside :
      (body : List ℕ) (i j : ℕ) (v : Value F) (m : Map (Value F))
      → contains body i ≡ true
      → contains body j ≡ false
      → lookup j (put i v m) ≡ lookup j m
  put_outside body i j v m hi hj = elim (Bool-cases (i == j)) [
    | inl e ↦ absurd (cc (hi, hj, (==_iff i j).0 e))
    | inr e ↦ rw (lookup-put, e)
  ]

  -- A node of the body, which changes its own output only.
  IsLocalTo-Kept :
      {body : List ℕ} {i : ℕ} {st st' : State F}
      → contains body i ≡ true
      → IsLocalTo i st st'
      → Kept body st st'
  IsLocalTo-Kept {body} {i} {st} h (wrote v c e) =
      rw e (record { skipped = refl; outputs = λ j k. put_outside body i j v st.node_outputs h k })
  IsLocalTo-Kept {body} {st = st} h (same e) = rw e (Kept-refl body st)

  set_target-Kept :
      (body : List ℕ) (o : Option String) (iteration : ℕ) (st : State F)
      → Kept body st (set_target o iteration st)
  unfolding set_target
  set_target-Kept body none iteration st = Kept-refl body st
  set_target-Kept body (some name) iteration st = record { skipped = refl; outputs = λ j h. refl }

  begin_round-Kept :
      (body : List ℕ) (node : Node) (iteration : ℕ) (st : State F)
      → Kept body st (begin_round node iteration st)
  unfolding begin_round
  begin_round-Kept body node iteration st = set_target-Kept body _ iteration st

module _ {F : Type 0} (x : Executor F) where
  charge-Kept :
      (body : List ℕ) (node : Node) (st : State F) → Ensures (Kept body st) (charge x node st)
  charge-Kept body node st =
      Ensures-map (λ st' h. rw (h.0) (record { skipped = refl; outputs = λ j e. refl }))
        (charge-Ensures x node st)

  if-IsLocalTo :
      (i : ℕ) (st : State F) (b : Bool) (m n : Flow × State F)
      → IsLocalTo i st m.1
      → IsLocalTo i st n.1
      → IsLocalTo i st (if b then m else n).1
  if-IsLocalTo i st true m n hm hn = hm
  if-IsLocalTo i st false m n hm hn = hn

  act-IsLocal :
      (node : Node) (st : State F) → IsLocalTo node.index st (exec_act_in_body x node st).1
  unfolding exec_act_in_body
  act-IsLocal node st =
      if-IsLocalTo node.index st (str_eq (action_type node) "return") _ _ (wrote _ _ refl) (
        if-IsLocalTo node.index st (str_eq (action_type node) "break") _ _ (same refl) (
          if-IsLocalTo node.index st (str_eq (action_type node) "continue") _ _ (same refl)
            (wrote _ _ refl)))

  abbrev LocalPair : Node → State F → Flow × State F → Type 0
  LocalPair node st r = IsLocalTo node.index st r.1

  pub body_op-IsLocal :
      (op : Opcode) (node : Node) (st : State F)
      → Ensures (LocalPair node st) (body_op x op node st)
  unfolding body_op
  body_op-IsLocal calc node st = Ensures-bind (compute-IsLocal x node st) (λ st' h. returns h)
  body_op-IsLocal call node st =
      Ensures-bind (exec_call_in_body-IsLocal x node st) (λ r h. returns h)
  body_op-IsLocal decide node st =
      Ensures-bind (exec_decide_in_body-IsLocal x node st) (λ st' h. returns h)
  body_op-IsLocal input node st = returns (exec_input_in_body-IsLocal x node st)
  body_op-IsLocal act node st = returns (act-IsLocal node st)
  body_op-IsLocal _ node st = returns (wrote _ _ refl)

  module _ (frame : Frame) (pause : Option PausePolicy) (node : Node) (body : List ℕ) where
    abbrev KeptRound : State F → RoundEnd × State F → Type 0
    KeptRound st r = Kept body st r.1

    abbrev KeptLoop : State F → NodeOutcome × State F → Type 0
    KeptLoop st r = Kept body st r.1

    after_node-Kept :
        (st₀ : State F) (iteration position : ℕ) (id : String)
        (rest : State F → Result (RoundEnd × State F)) (r : Flow × State F)
        → ((st : State F) → Kept body st₀ st → Ensures (KeptRound st₀) (rest st))
        → Kept body st₀ r.1
        → Ensures (KeptRound st₀) (after_node x frame pause node iteration position id rest r)
    unfolding after_node
    after_node-Kept st₀ iteration position id rest (leave, st) hr h = returns h
    after_node-Kept st₀ iteration position id rest (end_round, st) hr h = returns h
    after_node-Kept st₀ iteration position id rest (go_unchecked, st) hr h = hr st h
    after_node-Kept st₀ iteration position id rest (go, st) hr h =
        Ensures-if (pauses x pause st.node_count id) (returns h) (hr st h)

    body_step-Kept :
        (st₀ : State F) (iteration position idx : ℕ) (o : Option Node)
        (rest : State F → Result (RoundEnd × State F)) (st : State F)
        → ((n : Node) → o ≡ some n → contains body n.index ≡ true)
        → ((st : State F) → Kept body st₀ st → Ensures (KeptRound st₀) (rest st))
        → Kept body st₀ st
        → Ensures (KeptRound st₀) (body_step x frame pause node iteration position idx o rest st)
    unfolding body_step exec_in_body
    body_step-Kept st₀ iteration position idx none rest st hn hr h = raises
    body_step-Kept st₀ iteration position idx (some n) rest st hn hr h =
        Ensures-if (branch_mismatch x.plan st.node_outputs n.op idx) (hr st h) (
          Ensures-bind (charge-Kept body n st) λ st₁ h₁.
            Ensures-bind (body_op-IsLocal n.op n st₁) λ r h₂.
              after_node-Kept st₀ iteration position n.id rest r hr
                (Kept-trans (Kept-trans h h₁) (IsLocalTo-Kept (hn n refl) h₂)))

    run_body-Kept :
        IsIndexed x.plan
        → (st₀ : State F) (iteration position : ℕ) (nodes : List ℕ) (st : State F)
        → All (λ i. contains body i ≡ true) nodes
        → Kept body st₀ st
        → Ensures (KeptRound st₀) (run_body x frame pause node iteration position nodes st)
    unfolding run_body
    run_body-Kept ix st₀ iteration position [] st hs h = returns h
    run_body-Kept ix st₀ iteration position (idx ∷ rest) st (hi, hs) h =
        body_step-Kept st₀ iteration position idx (get_node x.plan idx) _ st
          (λ n e. rw (ix idx n e) hi)
          (λ st₁ h₁. run_body-Kept ix st₀ iteration (position + 1) rest st₁ hs h₁) h

    after_round-Kept :
        (st₀ : State F) (rest : State F → Result (NodeOutcome × State F)) (r : RoundEnd × State F)
        → ((st : State F) → Kept body st₀ st → Ensures (KeptLoop st₀) (rest st))
        → Kept body st₀ r.1
        → Ensures (KeptLoop st₀) (after_round x frame pause node rest r)
    unfolding after_round
    after_round-Kept st₀ rest (next_round, st) hr h = hr st h
    after_round-Kept st₀ rest (left, st) hr h = returns h
    after_round-Kept st₀ rest (paused_at ls, st) hr h = returns h

    -- The rounds of a LOOP write the outputs of body nodes only, and skip no further node.
    pub run_rounds-Kept :
        IsIndexed x.plan
        → (st₀ : State F) (nodes : List ℕ) (left_over iteration skip : ℕ) (st : State F)
        → All (λ i. contains body i ≡ true) nodes
        → Kept body st₀ st
        → Ensures (KeptLoop st₀) (run_rounds x frame pause node nodes left_over iteration skip st)
    unfolding run_rounds
    run_rounds-Kept ix st₀ nodes zero iteration skip st hs h = returns h
    run_rounds-Kept ix st₀ nodes (suc left_over) iteration skip st hs h =
        Ensures-bind
          (run_body-Kept ix st₀ iteration skip (drop skip nodes) (begin_round node iteration st)
            (All-drop (λ i. contains body i ≡ true) skip nodes hs)
            (Kept-trans h (begin_round-Kept body node iteration st)))
          λ r hr.
            after_round-Kept st₀ _ r
              (λ st₁ h₁. run_rounds-Kept ix st₀ nodes left_over (iteration + 1) 0 st₁ hs h₁) hr
