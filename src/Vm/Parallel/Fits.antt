-- ===== src/Vm/Parallel/Fits.antt =====
-- A PARALLEL keeps the number of the control counters.
use tinypipe.Prelude.{
  ℕ, suc, ◌≡◌, refl, ap, ◌∙◌, Bool, true, false, List, [], ◌∷◌, ◌==◌, if◌then◌else◌, length,
}
use tinypipe.Ir.Plan.{Node, Edge}
use tinypipe.Vm.Error.{Result, ok, Ensures, returns, Ensures-then}
use tinypipe.Vm.Machine.{Executor, State, Frame}
use tinypipe.Vm.Fits.{Fits}
use tinypipe.Vm.Edges.{follow}
use tinypipe.Vm.Edges.Fits.{follow-Fits}
use tinypipe.Vm.Parallel.{
  merge_control, merge_thread, merge_threads, follow_all, region_of, enter_branches, exec_parallel,
  branch_ids,
}

length-merge_control : (bs aft cs : List ℕ) → length (merge_control bs aft cs) ≡ length cs
unfolding merge_control
length-merge_control [] aft cs = refl
length-merge_control (b ∷ bs) [] cs = refl
length-merge_control (b ∷ bs) (a ∷ aft) [] = refl
length-merge_control (b ∷ bs) (a ∷ aft) (c ∷ cs) = ap suc (length-merge_control bs aft cs)

module _ {F : Type 0} (x : Executor F) (n limit : ℕ) (Serial : Type 0)
    (not_serial : Serial → ⊥) where
  abbrev Fit : State F → Type 0
  Fit = Fits n limit Serial

  fit : {st : State F} → length st.control_satisfied ≡ n → Fit st
  fit e = record { counters = e; counted = λ s. absurd (not_serial s) }

  merge_thread-Fits :
      (initial : List ℕ) (bid : ℕ) (t st : State F) → Fit st → Fit (merge_thread initial bid t st)
  unfolding merge_thread
  merge_thread-Fits initial bid t st h = fit (length-merge_control initial _ _ ∙ h.counters)

  merge_threads-Fits :
      (initial : List ℕ) (ts : List (ℕ × State F)) (st : State F)
      → Fit st
      → Fit (merge_threads initial ts st)
  unfolding merge_threads
  merge_threads-Fits initial [] st h = h
  merge_threads-Fits initial ((bid, t) ∷ rest) st h =
      merge_threads-Fits initial rest _ (merge_thread-Fits initial bid t st h)

  follow_all-Fits :
      (index : ℕ) (es : List Edge) (st : State F) → Fit st → Fit (follow_all x index es st)
  unfolding follow_all
  follow_all-Fits index [] st h = h
  follow_all-Fits index (e ∷ es) st h = follow_all-Fits index es _ (step (e.from_index == index))
    where
      step : (b : Bool) → Fit (if b then follow e st else st)
      step true = follow-Fits x n limit Serial e h
      step false = h

  enter_branches-Fits : (node : Node) (st : State F) → Fit st → Fit (enter_branches x node st)
  unfolding enter_branches
  enter_branches-Fits node st h =
      fit ((follow_all-Fits node.index x.plan.edges _ (fit h.counters)).counters)

  by_branches :
      (bids : List ℕ) (entered : State F) (f : ℕ → List ℕ → Result (State F))
      → Fit entered
      → ((bid : ℕ) (rest : List ℕ) → Ensures Fit (f bid rest))
      → Ensures Fit (elim bids [ [] ↦ ok entered | bid ∷ rest ↦ f bid rest ])
  by_branches [] entered f h k = returns h
  by_branches (bid ∷ rest) entered f h k = k bid rest

  pub exec_parallel-Fits :
      (run : Node → State F → Result (State F)) (frame : Frame) (node : Node) (st : State F)
      → Fit st
      → Ensures Fit (exec_parallel x run frame node st)
  unfolding exec_parallel
  exec_parallel-Fits run frame node st h =
      let e = enter_branches-Fits node st h in
      by_branches (branch_ids x.plan (region_of x frame node.index)) (enter_branches x node st) _ e
        (λ bid rest. Ensures-then _ (λ ts. returns (merge_threads-Fits _ ts _ (fit e.counters))))
