-- ===== src/Vm/Graph/Sorted.antt =====
-- What `topological_order` of tinypipe-vm/src/compiled_executor.rs returns.
use mathlib.Core.List.{Memᴰ, reverse}
use tinypipe.Prelude.{
  ℕ, zero, suc, ◌+◌, ◌%◌, ◌^◌, ◌<◌, ◌≤◌, ◌≡◌, ◌≢◌, refl, ◌∙◌, subst, sym, true, ◌&&◌, ◌↔◌, some,
  List, [], ◌∷◌, ◌++◌, ◌==◌, ==_iff, ltb, length, length-replicate, get_or-replicate, contains,
  contains-reverse, contains-keep, contains-count_up, keep, count_up, replicate, keep-IsNodup,
  count_up-IsNodup, reverse-IsNodup, get_or, arith, Bool-cases, inl, inr, ◌⊎◌,
}
use tinypipe.Ir.Plan.{Plan, Edge}
use tinypipe.Vm.Error.{ok, err, cycle_detected, ok-injective, ok-ne-err}
use tinypipe.Vm.Graph.{
  Sort, count_in, release, release_all, sort_loop, sort_start, check_order, topological_order,
}
use tinypipe.Vm.Graph.Count.{
  live_in, unfinished, zero_live_in, unfinished_pos, unfinished_nil, zero_unfinished, count_in_live,
  length-count_in,
}
use tinypipe.Vm.Graph.Sorting.{IsSorted, Inv, release_all-Inv, pop-Inv, pop_left}

release_all-result :
    (n idx : ℕ) (es : List Edge) (s : Sort) → (release_all n idx es s).result ≡ s.result
unfolding release_all release
release_all-result n idx [] s = refl
release_all-result n idx (e ∷ es) s = release_all-result n idx es (release n idx e s) ∙ ground arith

module _ (edges : List Edge) (n : ℕ) where
  -- What the loop ends with.
  record Ends (result : List ℕ) : Type 0 where
    pub degrees : List ℕ
    pub last : ℕ
    pub inv : Inv edges n last [] (record { in_degree = degrees; queue = []; result = result })

  sort_loop-Ends :
      (fuel was : ℕ) (d queue r : List ℕ)
      → Inv edges n was [] (record { in_degree = d; queue = queue; result = r })
      → unfinished n r ≤ fuel
      → (result : List ℕ) × (sort_loop fuel n edges
            (record { in_degree = d; queue = queue; result = r })
          ≡ some result)
        × Ends result
  unfolding sort_loop
  sort_loop-Ends zero was d [] r inv enough =
      (r, refl, record { degrees = d; last = was; inv = inv })
  sort_loop-Ends zero was d (idx ∷ rest) r inv enough =
      absurd (omega (arith, pop_left edges n was idx rest d r inv))
  sort_loop-Ends (suc fuel) was d [] r inv enough =
      (r, refl, record { degrees = d; last = was; inv = inv })
  sort_loop-Ends (suc fuel) was d (idx ∷ rest) r inv enough =
      let popped : Sort = record { in_degree = d; queue = rest; result = r ++ idx ∷ [] } in
      sort_loop-Ends fuel idx (release_all n idx edges popped).in_degree
        (release_all n idx edges popped).queue (release_all n idx edges popped).result
        (release_all-Inv edges n idx edges popped (pop-Inv edges n was idx rest d r inv))
        (rw (release_all-result n idx edges popped)
          (omega (arith, pop_left edges n was idx rest d r inv)))

-- The order has each index of the plan once, behind the sources of its incoming edges.
pub record IsTopological (plan : Plan) (order : List ℕ) : Type 0 where
  pub size : length order ≡ length plan.nodes
  pub members : (i : ℕ) → (contains order i ≡ true) ↔ (i < length plan.nodes)
  pub sorted : IsSorted plan.edges [] order

-- Each edge into an index of the plan comes from an index of lower rank, which is in the plan.
abbrev pub IsRanked : (ℕ → ℕ) → Plan → Type 0
IsRanked rank plan =
    (e : Edge)
    → Memᴰ e plan.edges
    → e.to_index < length plan.nodes
    → (e.from_index < length plan.nodes) × (rank e.from_index < rank e.to_index)

module _ (plan : Plan) where
  abbrev n : ℕ
  n = length plan.nodes

  abbrev degrees : List ℕ
  degrees = count_in plan.edges (replicate n 0)

  module _ (few_nodes : length plan.nodes < 2 ^ 32) (few_edges : length plan.edges < 2 ^ 32) where
    degree_start : (t : ℕ) → t < n → get_or degrees t 0 ≡ live_in plan.edges [] t
    degree_start t lt = ground (
      arith,
      count_in_live plan.edges (replicate n 0) t (rw (length-replicate {A = ℕ} n 0) lt)
          (rw (get_or-replicate {A = ℕ} n t 0) (omega (arith, few_edges))),
      get_or-replicate {A = ℕ} n t 0,
    )

    all_starts : n % 2 ^ 32 ≡ n
    all_starts = omega (arith, few_nodes)

    contains-start :
        (i : ℕ)
        → contains (reverse (keep (λ j. get_or degrees j 0 == 0) (count_up n 0))) i
          ≡ (ltb i n && (get_or degrees i 0 == 0))
    contains-start i = ground (
      arith,
      contains-reverse (keep (λ j. get_or degrees j 0 == 0) (count_up n 0)) i,
      contains-keep (λ j. get_or degrees j 0 == 0) (count_up n 0) i,
      contains-count_up n 0 i,
    )

    start-Inv : Inv plan.edges n 0 [] (sort_start plan)
    unfolding sort_start
    start-Inv = rw all_starts (record {
      len = length-count_in plan.edges (replicate n 0) ∙ length-replicate n 0;
      deg = λ t lt. ground (arith, degree_start t lt);
      queued =
          λ i q. (ground (arith, contains-start i, q), ground (arith, contains-start i, q), refl);
      done = λ i q. cc;
      found = λ i lt e. ground (arith, contains-start i, lt, e);
      nodup =
          reverse-IsNodup _
            (keep-IsNodup (λ j. get_or degrees j 0 == 0) (count_up n 0) (count_up-IsNodup n 0));
      count = omega (arith, unfinished_nil n);
      sorted = tt;
    })

    enough_start : unfinished n (sort_start plan).result ≤ n
    unfolding sort_start
    enough_start = omega (arith, unfinished_nil n)

    loop_result :
        (result : List ℕ) × (sort_loop n n plan.edges (sort_start plan) ≡ some result)
        × Ends plan.edges n result
    loop_result =
        sort_loop-Ends plan.edges n n 0 (sort_start plan).in_degree (sort_start plan).queue
          (sort_start plan).result start-Inv enough_start

    module _ (result : List ℕ) (ends : Ends plan.edges n result) where
      all_done : length result ≡ n → (i : ℕ) → (i < n) → contains result i ≡ true
      all_done full i lt = elim (Bool-cases (contains result i)) [
        | inl q ↦ q
        | inr q ↦ absurd (omega (arith, ends.inv.count, unfinished_pos n result i lt q))
      ]

      full-IsTopological : length result ≡ n → IsTopological plan result
      full-IsTopological full = record {
        size = full;
        members = λ i. (λ q. (ends.inv.done i q).0, all_done full i);
        sorted = ends.inv.sorted;
      }

      module _ (rank : ℕ → ℕ) (ranked : IsRanked rank plan) where
        -- An index whose predecessors are done is done.
        next_done :
            (i : ℕ)
            → (i < n)
            → ((j : ℕ) → j < n → rank j < rank i → contains result j ≡ true)
            → contains result i ≡ true
        next_done i lt below =
            let none_left = zero_live_in plan.edges result i (λ e m p.
              let r = ranked e m (omega (arith, p, lt)) in
              below e.from_index r.0 (subst (λ (t : ℕ). rank e.from_index < rank t) p r.1)) in
            ground (arith, ends.inv.found i lt (ground (arith, ends.inv.deg i lt, none_left)))

        rank_done : (bound i : ℕ) → (rank i < bound) → (i < n) → contains result i ≡ true
        rank_done zero i b lt = absurd (omega arith)
        rank_done (suc bound) i b lt =
            next_done i lt (λ j ltj less. rank_done bound j (omega (arith, b, less)) ltj)

        ranked_full : length result ≡ n
        ranked_full = omega (
          arith,
          ends.inv.count,
          zero_unfinished n result (λ i lt. rank_done (rank i + 1) i (omega arith) lt),
        )

    order_cases :
        ((order : List ℕ) × (topological_order plan ≡ ok order)
          × (length order ≡ n)
          × Ends plan.edges n order)
        ⊎ ((order : List ℕ) × (topological_order plan ≡ err cycle_detected)
            × (length order ≢ n)
            × Ends plan.edges n order)
    unfolding topological_order check_order
    order_cases =
        let (result, run, ends) = loop_result in
        elim (Bool-cases (length result == n)) [
          | inl q ↦ inl (result, rw (run, q) refl, (==_iff (length result) n).0 q, ends)
          | inr q ↦ inr (result, rw (run, q) refl, (λ e. ground (arith, q, e)), ends)
        ]

-- In a plan with fewer than 2 ^ 32 nodes and fewer than 2 ^ 32 edges, an order that topological_order
-- returns has as many entries as the plan has nodes, has exactly the indices below that number, and has
-- each index behind the sources of all its incoming edges.
pub topological_order-IsTopological :
    (plan : Plan) (order : List ℕ)
    → length plan.nodes < 2 ^ 32
    → length plan.edges < 2 ^ 32
    → topological_order plan ≡ ok order
    → IsTopological plan order
topological_order-IsTopological plan order few_nodes few_edges h =
    elim (order_cases plan few_nodes few_edges) [
      | inl (result, run, full, ends) ↦
          subst (λ o. IsTopological plan o) (ok-injective (sym run ∙ h))
            (full-IsTopological plan few_nodes few_edges result ends full)
      | inr (result, run, short, ends) ↦ absurd (ok-ne-err (sym h ∙ run))
    ]

-- In a plan with fewer than 2 ^ 32 nodes and fewer than 2 ^ 32 edges, the loop of topological_order ends
-- within one round for each node, cycles and indices out of range included: an order or the cycle error
-- is returned.
pub topological_order-ends :
    (plan : Plan)
    → length plan.nodes < 2 ^ 32
    → length plan.edges < 2 ^ 32
    → ((order : List ℕ) × (topological_order plan ≡ ok order))
      ⊎ (topological_order plan ≡ err cycle_detected)
topological_order-ends plan few_nodes few_edges = elim (order_cases plan few_nodes few_edges) [
  | inl (result, run, full, ends) ↦ inl (result, run)
  | inr (result, run, short, ends) ↦ inr run
]

-- A plan with fewer than 2 ^ 32 nodes and fewer than 2 ^ 32 edges in which each edge into an index of the
-- plan comes from an index of the plan with a lower rank, for some rank, has an order: topological_order
-- reports a cycle only when there is no such rank.
pub topological_order_complete :
    (plan : Plan) (rank : ℕ → ℕ)
    → length plan.nodes < 2 ^ 32
    → length plan.edges < 2 ^ 32
    → IsRanked rank plan
    → (order : List ℕ) × (topological_order plan ≡ ok order)
topological_order_complete plan rank few_nodes few_edges ranked =
    elim (order_cases plan few_nodes few_edges) [
      | inl (result, run, full, ends) ↦ (result, run)
      | inr (result, run, short, ends) ↦
          absurd (short (ranked_full plan few_nodes few_edges result ends rank ranked))
    ]
