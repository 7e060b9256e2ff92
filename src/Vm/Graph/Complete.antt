-- ===== src/Vm/Graph/Complete.antt =====
-- `collect_reachable_indices` of tinypipe-vm/src/compiled_executor.rs misses nothing, and its fuel is
-- enough.
use mathlib.Core.List.{reverse, Memᴰ}
use mathlib.Core.List.Memᴰ
use tinypipe.Prelude.{
  ℕ, zero, suc, ◌+◌, ◌≤◌, ◌≡◌, refl, sym, subst, ◌∙◌, true, false, not, ◌&&◌, List, [], ◌∷◌, ◌==◌,
  length, contains, insert, insert_all, contains-insert, contains-insert_all, contains-reverse,
  length-reverse, arith, if◌then◌else◌, Bool-cases, inl, inr, ◌↔◌,
}
use tinypipe.Ir.Plan.{Edge}
use tinypipe.Vm.Graph.{
  Search, visit, visit_all, search_loop, search_start, collect_reachable_indices,
}
use tinypipe.Vm.Graph.Reach.{Reaches, from_start, along, collect_sound}

-- the edges whose target has not been visited
unvisited : List Edge → List ℕ → ℕ
unvisited [] visited = 0
unvisited (e ∷ es) visited = (if contains visited e.to_index then 0 else 1) + unvisited es visited

unvisited-insert :
    (t : ℕ) (es : List Edge) (visited : List ℕ)
    → unvisited es (insert t visited) ≤ unvisited es visited
unfolding unvisited
unvisited-insert t [] visited = omega arith
unvisited-insert t (e ∷ es) visited =
    ground (arith, unvisited-insert t es visited, contains-insert t e.to_index visited)

unvisited-insert_lt :
    (d : Edge) (es : List Edge) (visited : List ℕ)
    → Memᴰ d es
    → contains visited d.to_index ≡ false
    → unvisited es (insert d.to_index visited) + 1 ≤ unvisited es visited
unfolding unvisited
unvisited-insert_lt d [] visited m h = absurd (Memᴰ.not-nil m)
unvisited-insert_lt d (e ∷ es) visited (Memᴰ.head p) h =
    subst
      (λ (a : Edge).
        unvisited (a ∷ es) (insert d.to_index visited) + 1 ≤ unvisited (a ∷ es) visited)
      p
      (ground (
        arith,
        unvisited-insert d.to_index es visited,
        contains-insert d.to_index d.to_index visited,
        h,
      ))
unvisited-insert_lt d (e ∷ es) visited (Memᴰ.tail m) h =
    ground
      (arith, unvisited-insert_lt d es visited m h, contains-insert d.to_index e.to_index visited)

unvisited_le : (es : List Edge) (visited : List ℕ) → unvisited es visited ≤ length es
unfolding unvisited
unvisited_le [] visited = omega arith
unvisited_le (e ∷ es) visited = ground (arith, unvisited_le es visited)

-- Where the source of an edge stands while the edges `es` of `idx` are still to be looked at.
data Settled (s : Search) (idx : ℕ) (es : List Edge) (e : Edge) : Type 0 where
  waiting : contains s.stack e.from_index ≡ true → Settled s idx es e
  seen : contains s.visited e.to_index ≡ true → Settled s idx es e
  next : (e.from_index == idx) ≡ true → Memᴰ e es → Settled s idx es e

abbrev AllSettled : List Edge → Search → ℕ → List Edge → Type 0
AllSettled edges s idx es =
    (e : Edge) → Memᴰ e edges → contains s.visited e.from_index ≡ true → Settled s idx es e

pushed-Settled :
    (idx : ℕ) (d : Edge) (es : List Edge) (s : Search) (e : Edge)
    → contains (insert d.to_index s.visited) e.from_index ≡ true
    → (contains s.visited e.from_index ≡ true → Settled s idx (d ∷ es) e)
    → Settled
        (record { visited = insert d.to_index s.visited; stack = d.to_index ∷ s.stack })
        idx
        es
        e
pushed-Settled idx d es s e c old = elim (Bool-cases (d.to_index == e.from_index)) [
  | inl h ↦ waiting (ground (arith, h))
  | inr h ↦ from_old (old (ground (arith, contains-insert d.to_index e.from_index s.visited, h, c)))
]
  where
    from_old :
        Settled s idx (d ∷ es) e
        → Settled
            (record { visited = insert d.to_index s.visited; stack = d.to_index ∷ s.stack })
            idx
            es
            e
    from_old (waiting w) = waiting (ground (arith, w))
    from_old (seen w) = seen (ground (arith, contains-insert d.to_index e.to_index s.visited, w))
    from_old (next f (Memᴰ.head p)) = seen (
        subst (λ (a : Edge). contains (insert d.to_index s.visited) a.to_index ≡ true) (sym p)
          (ground (arith, contains-insert d.to_index d.to_index s.visited)))
    from_old (next f (Memᴰ.tail m)) = next f m

skipped-Settled :
    (idx : ℕ) (d : Edge) (es : List Edge) (s : Search) (e : Edge)
    → ((d.from_index == idx) && not (contains s.visited d.to_index)) ≡ false
    → Settled s idx (d ∷ es) e
    → Settled s idx es e
skipped-Settled idx d es s e h (waiting w) = waiting w
skipped-Settled idx d es s e h (seen w) = seen w
skipped-Settled idx d es s e h (next f (Memᴰ.tail m)) = next f m
skipped-Settled idx d es s e h (next f (Memᴰ.head p)) =
    let g : (d.from_index == idx) ≡ true = subst (λ (a : Edge). (a.from_index == idx) ≡ true) p f in
    seen (subst (λ (a : Edge). contains s.visited a.to_index ≡ true) (sym p) (ground (arith, h, g)))

module _ (edges : List Edge) where
  visit-Settled :
      (idx : ℕ) (d : Edge) (es : List Edge) (s : Search)
      → AllSettled edges s idx (d ∷ es)
      → AllSettled edges (visit idx d s) idx es
  unfolding visit
  visit-Settled idx d es s old =
      elim (Bool-cases ((d.from_index == idx) && not (contains s.visited d.to_index))) [
        | inl h ↦ rw h (λ e m c. pushed-Settled idx d es s e c (old e m))
        | inr h ↦ rw h (λ e m c. skipped-Settled idx d es s e h (old e m c))
      ]

  visit_all-Settled :
      (idx : ℕ) (es : List Edge) (s : Search)
      → AllSettled edges s idx es
      → AllSettled edges (visit_all idx es s) idx []
  unfolding visit_all
  visit_all-Settled idx [] s h = h
  visit_all-Settled idx (d ∷ es) s h =
      visit_all-Settled idx es (visit idx d s) (visit-Settled idx d es s h)

  -- how many rounds a search may still take
  size : Search → ℕ
  unfolding unvisited
  size s = length s.stack + unvisited edges s.visited

  visit-size : (idx : ℕ) (d : Edge) (s : Search) → Memᴰ d edges → size (visit idx d s) ≤ size s
  unfolding visit size
  visit-size idx d s m =
      elim (Bool-cases ((d.from_index == idx) && not (contains s.visited d.to_index))) [
        | inl h ↦ rw h (pushed (unvisited-insert_lt d edges s.visited m (ground (arith, h))))
        | inr h ↦ rw h (omega arith)
      ]
    where
      pushed :
          unvisited edges (insert d.to_index s.visited) + 1 ≤ unvisited edges s.visited
          → length (d.to_index ∷ s.stack) + unvisited edges (insert d.to_index s.visited)
            ≤ length s.stack + unvisited edges s.visited
      pushed h = ground (arith, h)

  visit_all-size :
      (idx : ℕ) (es : List Edge) (s : Search)
      → ((e : Edge) → Memᴰ e es → Memᴰ e edges)
      → size (visit_all idx es s) ≤ size s
  unfolding visit_all
  visit_all-size idx [] s sub = omega arith
  visit_all-size idx (d ∷ es) s sub =
      let now = visit-size idx d s (sub d (Memᴰ.head refl)) in
      let later = visit_all-size idx es (visit idx d s) (λ e m. sub e (Memᴰ.tail m)) in omega arith

  visit_all-visited :
      (idx : ℕ) (es : List Edge) (s : Search) (i : ℕ)
      → contains s.visited i ≡ true
      → contains (visit_all idx es s).visited i ≡ true
  unfolding visit_all visit
  visit_all-visited idx [] s i h = h
  visit_all-visited idx (d ∷ es) s i h =
      visit_all-visited idx es (visit idx d s) i
        (ground (arith, h, contains-insert d.to_index i s.visited))

  search_loop-visited :
      (fuel : ℕ) (visited stack : List ℕ) (i : ℕ)
      → contains visited i ≡ true
      → contains (search_loop fuel edges (record { visited = visited; stack = stack })).visited i
        ≡ true
  unfolding search_loop
  search_loop-visited zero visited stack i h = h
  search_loop-visited (suc fuel) visited [] i h = h
  search_loop-visited (suc fuel) visited (idx ∷ rest) i h =
      search_loop-visited fuel _ _ i
        (visit_all-visited idx edges (record { visited = visited; stack = rest }) i h)

  abbrev IsClosed : List ℕ → Type 0
  IsClosed visited =
      (e : Edge)
      → Memᴰ e edges
      → contains visited e.from_index ≡ true
      → contains visited e.to_index ≡ true

  popped-Settled :
      (visited rest : List ℕ) (idx idx' : ℕ)
      → AllSettled edges (record { visited = visited; stack = idx ∷ rest }) idx' []
      → AllSettled edges (record { visited = visited; stack = rest }) idx edges
  popped-Settled visited rest idx idx' h e m c = from_old (h e m c)
    where
      from_old :
          Settled (record { visited = visited; stack = idx ∷ rest }) idx' [] e
          → Settled (record { visited = visited; stack = rest }) idx edges e
      from_old (waiting w) = elim (Bool-cases (e.from_index == idx)) [
        | inl eq ↦ next eq m
        | inr ne ↦ waiting (ground (arith, w, ne))
      ]
      from_old (seen w) = seen w
      from_old (next f n) = absurd (Memᴰ.not-nil n)

  emptied-IsClosed :
      (visited : List ℕ) (idx : ℕ)
      → AllSettled edges (record { visited = visited; stack = [] }) idx []
      → IsClosed visited
  emptied-IsClosed visited idx h e m c = from_old (h e m c)
    where
      from_old :
          Settled (record { visited = visited; stack = [] }) idx [] e
          → contains visited e.to_index ≡ true
      from_old (waiting w) = cc
      from_old (seen w) = w
      from_old (next f n) = absurd (Memᴰ.not-nil n)

  fuel_left :
      (visited xs : List ℕ) (x n fuel : ℕ)
      → n ≤ size (record { visited = visited; stack = xs })
      → size (record { visited = visited; stack = x ∷ xs }) ≤ suc fuel
      → n ≤ fuel
  unfolding size
  fuel_left visited xs x n fuel h enough = ground (arith, h, enough)

  search_loop-IsClosed :
      (fuel : ℕ) (visited stack : List ℕ) (idx : ℕ)
      → AllSettled edges (record { visited = visited; stack = stack }) idx []
      → size (record { visited = visited; stack = stack }) ≤ fuel
      → IsClosed (search_loop fuel edges (record { visited = visited; stack = stack })).visited
  unfolding search_loop size
  search_loop-IsClosed zero visited [] idx h enough = emptied-IsClosed visited idx h
  search_loop-IsClosed zero visited (x ∷ xs) idx h enough = absurd (ground (arith, enough))
  search_loop-IsClosed (suc fuel) visited [] idx h enough = emptied-IsClosed visited idx h
  search_loop-IsClosed (suc fuel) visited (x ∷ xs) idx h enough =
      search_loop-IsClosed fuel _ _ x
        (visit_all-Settled x edges (record { visited = visited; stack = xs })
          (popped-Settled visited xs x idx h))
        (fuel_left visited xs x _ fuel
          (visit_all-size x edges (record { visited = visited; stack = xs }) (λ e m. m)) enough)

  module _ (starts : List ℕ) where
    start-Settled : AllSettled edges (search_start starts) 0 []
    unfolding search_start
    start-Settled e m c = waiting (
        contains-reverse starts e.from_index
        ∙ ground (arith, contains-insert_all starts [] e.from_index, c))

    start-size : size (search_start starts) ≤ length starts + length edges
    unfolding size search_start
    start-size = ground (arith, length-reverse starts, unvisited_le edges (insert_all starts []))

    collect-IsClosed : IsClosed (collect_reachable_indices edges starts)
    unfolding collect_reachable_indices search_start
    collect-IsClosed =
        search_loop-IsClosed (length starts + length edges) (insert_all starts []) (reverse starts)
          0 start-Settled start-size

    collect_complete :
        (i : ℕ)
        → Reaches edges starts i
        → contains (collect_reachable_indices edges starts) i ≡ true
    unfolding collect_reachable_indices search_start
    collect_complete i (from_start _ h) =
        search_loop-visited (length starts + length edges) (insert_all starts []) (reverse starts) i
          (ground (arith, contains-insert_all starts [] i, h))
    collect_complete _ (along e m r) = collect-IsClosed e m (collect_complete e.from_index r)

    -- `collect_reachable_indices` finds an index if and only if it is a start or the end of a path of
    -- edges from one, for all edges and starts; so its fuel is enough.
    pub collect_iff :
        (i : ℕ)
        → (contains (collect_reachable_indices edges starts) i ≡ true) ↔ Reaches edges starts i
    collect_iff i = (collect_sound edges starts i, collect_complete i)
