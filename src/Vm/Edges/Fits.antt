-- ===== src/Vm/Edges/Fits.antt =====
-- The propagation of edges keeps the number of the control counters, and the node count.
use tinypipe.Prelude.{
  ℕ, ◌≡◌, refl, ◌∙◌, Bool, true, false, not, List, [], ◌∷◌, ltb, ◌==◌, if◌then◌else◌, length,
  length-set,
}
use tinypipe.Ir.Plan.{Node, Edge, Opcode, is_data, switch, parallel, loop}
use tinypipe.Vm.Error.{Result, ok, Ensures, returns, Ensures-if, Ensures-bind, Ensures-then}
use tinypipe.Vm.Machine.{Executor, State}
use tinypipe.Vm.Fits.{Fits}
use tinypipe.Vm.Edges.{
  follow, satisfy, should_enable, propagate_edge, propagate_list, propagate_edges,
}

module _ {F : Type 0} (x : Executor F) (n limit : ℕ) (Serial : Type 0) where
  pub follow-Fits :
      (e : Edge) {st : State F} → Fits n limit Serial st → Fits n limit Serial (follow e st)
  unfolding follow
  follow-Fits e h = record { counters = h.counters; counted = h.counted }

  length-if :
      (b : Bool) (xs ys : List ℕ)
      → length xs ≡ length ys
      → length (if b then xs else ys) ≡ length ys
  length-if true xs ys h = h
  length-if false xs ys h = refl

  pub satisfy-Fits :
      (e : Edge) {st : State F} → Fits n limit Serial st → Fits n limit Serial (satisfy e st)
  unfolding satisfy
  satisfy-Fits e {st} h = record {
    counters =
        length-if (ltb e.to_index (length st.control_satisfied)) _ st.control_satisfied
          (length-set st.control_satisfied e.to_index _)
        ∙ h.counters;
    counted = h.counted;
  }

  if-Fits :
      (b : Bool) {st st' : State F}
      → Fits n limit Serial st
      → Fits n limit Serial st'
      → Fits n limit Serial (if b then st else st')
  if-Fits true h h' = h
  if-Fits false h h' = h'

  propagate_edge-Fits :
      (index : ℕ) (e : Edge) (st : State F)
      → Fits n limit Serial st
      → Ensures (Fits n limit Serial) (propagate_edge x index e st)
  unfolding propagate_edge
  propagate_edge-Fits index e st h = Ensures-if (not (e.from_index == index)) (returns h) (
      Ensures-if (not (is_data e.kind)) (returns (satisfy-Fits e h)) (
        Ensures-then (should_enable x index e.condition st)
          (λ b. returns (if-Fits b (follow-Fits e h) h))))

  propagate_list-Fits :
      (index : ℕ) (es : List Edge) (st : State F)
      → Fits n limit Serial st
      → Ensures (Fits n limit Serial) (propagate_list x index es st)
  unfolding propagate_list
  propagate_list-Fits index [] st h = returns h
  propagate_list-Fits index (e ∷ es) st h =
      Ensures-bind (propagate_edge-Fits index e st h) (propagate_list-Fits index es)

  by_op :
      (op : Opcode) (st : State F) (m : Result (State F))
      → Fits n limit Serial st
      → Ensures (Fits n limit Serial) m
      → Ensures
          (Fits n limit Serial)
          (elim op [ switch ↦ ok st | loop ↦ ok st | parallel ↦ ok st | _ ↦ m ])
  by_op switch st m h hm = returns h
  by_op loop st m h hm = returns h
  by_op parallel st m h hm = returns h
  by_op _ st m h hm = hm

  pub propagate_edges-Fits :
      (node : Node) (st : State F)
      → Fits n limit Serial st
      → Ensures (Fits n limit Serial) (propagate_edges x node st)
  unfolding propagate_edges
  propagate_edges-Fits node st h =
      by_op node.op st _ h (propagate_list-Fits node.index x.plan.edges st h)
