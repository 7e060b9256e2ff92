-- ===== src/Vm/Graph/Reach.antt =====
-- What `collect_reachable_indices` of tinypipe-vm/src/compiled_executor.rs finds.
use mathlib.Core.List.{reverse, Memᴰ}
use mathlib.Core.Bool.{and-eq-true_iff}
use tinypipe.Prelude.{
  ℕ, zero, suc, ◌+◌, ◌≡◌, refl, sym, subst, ◌∙◌, true, not, ◌&&◌, List, [], ◌∷◌, ◌==◌, ==_iff,
  length, contains, insert_all, contains-insert, contains-insert_all, contains_head,
  contains-reverse, arith, Bool-cases, inl, inr,
}
use tinypipe.Ir.Plan.{Edge}
use tinypipe.Vm.Graph.{
  Search, visit, visit_all, search_loop, search_start, collect_reachable_indices,
}

-- A start, or the target of an edge that leaves such an index.
pub data Reaches (edges : List Edge) (starts : List ℕ) : ℕ → Type 0 where
  from_start : (i : ℕ) → contains starts i ≡ true → Reaches edges starts i
  along :
      (e : Edge)
      → Memᴰ e edges
      → Reaches edges starts e.from_index
      → Reaches edges starts e.to_index

module _ (edges : List Edge) (starts : List ℕ) where
  -- What has been visited can be reached, and so can what is on the stack.
  record IsSound (s : Search) : Type 0 where
    pub found : (i : ℕ) → contains s.visited i ≡ true → Reaches edges starts i
    pub waiting : (i : ℕ) → contains s.stack i ≡ true → Reaches edges starts i

  step_to :
      (e : Edge) (idx i : ℕ)
      → Memᴰ e edges
      → Reaches edges starts idx
      → (e.from_index == idx) ≡ true
      → (e.to_index == i) ≡ true
      → Reaches edges starts i
  step_to e idx i m r from to =
      subst (Reaches edges starts) ((==_iff _ _).0 to)
        (along e m (subst (Reaches edges starts) (sym ((==_iff _ _).0 from)) r))

  visit-IsSound :
      (idx : ℕ) (e : Edge) (s : Search)
      → Memᴰ e edges
      → Reaches edges starts idx
      → IsSound s
      → IsSound (visit idx e s)
  unfolding visit
  visit-IsSound idx e s m r sound =
      elim (Bool-cases ((e.from_index == idx) && not (contains s.visited e.to_index))) [
        | inl h ↦ rw h (record {
          found = λ i c. elim (Bool-cases (e.to_index == i)) [
            | inl to ↦ step_to e idx i m r ((and-eq-true_iff _ _).0 h).0 to
            | inr to ↦ sound.found i (ground (arith, contains-insert e.to_index i s.visited, to, c))
          ];
          waiting = λ i c. elim (Bool-cases (e.to_index == i)) [
            | inl to ↦ step_to e idx i m r ((and-eq-true_iff _ _).0 h).0 to
            | inr to ↦ sound.waiting i (ground (arith, to, c))
          ];
        })
        | inr h ↦ rw h sound
      ]

  visit_all-IsSound :
      (idx : ℕ) (es : List Edge) (s : Search)
      → ((e : Edge) → Memᴰ e es → Memᴰ e edges)
      → Reaches edges starts idx
      → IsSound s
      → IsSound (visit_all idx es s)
  unfolding visit_all
  visit_all-IsSound idx [] s sub r sound = sound
  visit_all-IsSound idx (e ∷ es) s sub r sound =
      visit_all-IsSound idx es (visit idx e s) (λ d m. sub d (Memᴰ.tail m)) r
        (visit-IsSound idx e s (sub e (Memᴰ.head refl)) r sound)

  search_loop-IsSound :
      (fuel : ℕ) (visited stack : List ℕ)
      → IsSound (record { visited = visited; stack = stack })
      → IsSound (search_loop fuel edges (record { visited = visited; stack = stack }))
  unfolding search_loop
  search_loop-IsSound zero visited stack sound = sound
  search_loop-IsSound (suc fuel) visited [] sound = sound
  search_loop-IsSound (suc fuel) visited (idx ∷ rest) sound = search_loop-IsSound fuel _ _ (
      visit_all-IsSound idx edges (record { visited = visited; stack = rest }) (λ e m. m)
        (sound.waiting idx (contains_head idx rest))
        (record { found = sound.found; waiting = λ i c. sound.waiting i (ground (arith, c)) }))

  -- What is found can be reached from the starts.
  pub collect_sound :
      (i : ℕ) → contains (collect_reachable_indices edges starts) i ≡ true → Reaches edges starts i
  unfolding collect_reachable_indices search_start
  collect_sound =
      (search_loop-IsSound (length starts + length edges) (insert_all starts []) (reverse starts)
        (record {
          found = λ i c. from_start i (ground (arith, contains-insert_all starts [] i, c));
          waiting = λ i c. from_start i (sym (contains-reverse starts i) ∙ c);
        })).found
