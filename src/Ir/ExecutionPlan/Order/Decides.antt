-- ===== src/Ir/ExecutionPlan/Order/Decides.antt =====
-- When the topological orders over text ids return an order (tinypipe-ir/src/plan.rs,
-- tinypipe-compiler/src/validator.rs).
use tinypipe.Prelude.{
  ℕ, zero, suc, ◌+◌, ◌<◌, ◌≤◌, ◌^◌, ◌≡◌, ◌≢◌, refl, sym, ap, ◌∙◌, String, Bool, true, false, ◌&&◌,
  ◌==◌, ==_iff, none, some, List, [], ◌∷◌, ◌++◌, has, keep, length-keep, length, str_eq, eq_iff,
  ◌↔◌, ◌⊎◌, NameMap, get_name, arith, Bool-cases, Option-cases, inl, inr,
}
use tinypipe.Ir.ExecutionPlan.{ExecutionPlan, Node, Edge, ids, edges_from}
use tinypipe.Ir.ExecutionPlan.Order.{
  Sort, SortResult, sorted, cycle, start_degrees, is_free, release, release_all, sort_loop,
  sort_start, check_order, topological_order,
}
use tinypipe.Ir.ExecutionPlan.Order.Count.{
  IsDistinct, live_in, unfinished, unfinished_nil, get_name-count_in, none-count_in,
  get_name-start_degrees, ids-append, length-ids, has-ids-reverse, reverse-IsDistinct,
  keep-IsDistinct,
}
use tinypipe.Ir.ExecutionPlan.Order.Sorting.{IsSorted, Inv, release_all-Inv, pop-Inv, pop_left}
use tinypipe.Ir.ExecutionPlan.Order.Sorted.{IsAcyclic, full-IsAcyclic, acyclic_full}

-- whether the counter of a name is there and zero
abbrev free_at : NameMap ℕ → String → Bool
free_at d i = elim (get_name i d) [ none ↦ false | some deg ↦ deg == 0 ]

module _ {F : Type 0} where
  pub cycle-ne-sorted : {order : List (Node F)} → cycle ≢ sorted order
  cycle-ne-sorted h = cc

  release-result :
      (nodes : List (Node F)) (e : Edge) (s : Sort F) → (release nodes e s).result ≡ s.result
  unfolding release
  release-result nodes e s = elim (Option-cases (get_name e.to s.in_degree)) [
    | inl h ↦ rw (release, h) refl
    | inr (deg, h) ↦ rw (release, h) refl
  ]

  release_all-result :
      (nodes : List (Node F)) (es : List Edge) (s : Sort F)
      → (release_all nodes es s).result ≡ s.result
  unfolding release_all
  release_all-result nodes [] s = refl
  release_all-result nodes (e ∷ es) s =
      release_all-result nodes es (release nodes e s) ∙ release-result nodes e s

  module _ (names : List String) (edges : List Edge) (nodes : List (Node F))
      (named : (t : String) → has names t ≡ true → has (ids nodes) t ≡ true)
      (distinct : IsDistinct names) (bound : length edges < 2 ^ 63) where
    few : (id : String) → length (edges_from edges id) < 2 ^ 63
    unfolding edges_from
    few id = omega (arith, length-keep (λ (e : Edge). str_eq e.from id) edges, bound)

    sort_loop-ends :
        (fuel : ℕ) (d : NameMap ℕ) (queue r : List (Node F))
        → Inv names edges [] d (ids queue) (ids r)
        → unfinished names (ids r) ≤ fuel
        → (result : List (Node F)) × (end : NameMap ℕ) × (sort_loop fuel nodes edges
              (record { in_degree = d; queue = queue; result = r })
            ≡ some result)
          × Inv names edges [] end [] (ids result)
    unfolding sort_loop
    sort_loop-ends zero d [] r inv enough = (r, d, refl, inv)
    sort_loop-ends zero d (n ∷ rest) r inv enough =
        absurd (omega (arith, pop_left names edges n.id d (ids rest) (ids r) inv distinct))
    sort_loop-ends (suc fuel) d [] r inv enough = (r, d, refl, inv)
    sort_loop-ends (suc fuel) d (n ∷ rest) r inv enough =
        let popped : Sort F = record { in_degree = d; queue = rest; result = r ++ n ∷ [] } in
        let after = release_all nodes (edges_from edges n.id) popped in
        let here = pop-Inv names edges n.id d (ids rest) (ids r) inv distinct in
        sort_loop-ends fuel after.in_degree after.queue after.result
          (release_all-Inv names edges nodes named bound (edges_from edges n.id) popped (few n.id)
            (rw (ids-append r (n ∷ [])) here))
          (rw (release_all-result nodes (edges_from edges n.id) popped, ids-append r (n ∷ []))
            (omega (arith, pop_left names edges n.id d (ids rest) (ids r) inv distinct, enough)))

  has-ids-keep_free :
      (d : NameMap ℕ) (ns : List (Node F)) (i : String)
      → has (ids (keep (is_free d) ns)) i ≡ (has (ids ns) i && free_at d i)
  has-ids-keep_free d [] i = refl
  has-ids-keep_free d (n ∷ ns) i = elim (Bool-cases (str_eq n.id i)) [
    | inl q ↦
        let same : is_free d n ≡ free_at d i = ap (free_at d) ((eq_iff n.id i).0 q) in
        ground (arith, has-ids-keep_free d ns i, q, same)
    | inr q ↦ ground (arith, has-ids-keep_free d ns i, q)
  ]

  module _ (plan : ExecutionPlan F) where
    start_deg :
        (t : String)
        → has (ids plan.nodes) t ≡ true
        → get_name t (sort_start plan).in_degree ≡ some (live_in plan.edges [] t)
    unfolding sort_start
    start_deg t h =
        get_name-count_in plan.edges (start_degrees plan.nodes []) t 0
          (ground (arith, get_name-start_degrees plan.nodes [] t, h))
        ∙ ap some (omega arith)

    start_stranger :
        (t : String)
        → has (ids plan.nodes) t ≡ false
        → get_name t (sort_start plan).in_degree ≡ none
    unfolding sort_start
    start_stranger t h =
        none-count_in plan.edges (start_degrees plan.nodes []) t
          (ground (arith, get_name-start_degrees plan.nodes [] t, h))

    has-start :
        (i : String)
        → has (ids (sort_start plan).queue) i
          ≡ (has (ids plan.nodes) i && free_at (sort_start plan).in_degree i)
    unfolding sort_start
    has-start i =
        has-ids-reverse (keep (is_free (sort_start plan).in_degree) plan.nodes) i
        ∙ has-ids-keep_free (sort_start plan).in_degree plan.nodes i

    free-start :
        (i : String)
        → has (ids plan.nodes) i ≡ true
        → free_at (sort_start plan).in_degree i ≡ (live_in plan.edges [] i == 0)
    free-start i h = rw (free_at, start_deg i h) refl

    start-queue-IsDistinct : IsDistinct (ids plan.nodes) → IsDistinct (ids (sort_start plan).queue)
    unfolding sort_start
    start-queue-IsDistinct distinct =
        reverse-IsDistinct _
          (keep-IsDistinct (is_free (sort_start plan).in_degree) plan.nodes distinct)

    start-Inv :
        IsDistinct (ids plan.nodes)
        → Inv
            (ids plan.nodes)
            plan.edges
            []
            (sort_start plan).in_degree
            (ids (sort_start plan).queue)
            (ids (sort_start plan).result)
    unfolding sort_start
    start-Inv distinct = record {
      deg = λ t h. start_deg t h ∙ ap some (omega arith);
      stranger = start_stranger;
      queued = λ i q.
          let h : has (ids plan.nodes) i ≡ true = ground (arith, has-start i, q) in
          (h, ground (arith, has-start i, free-start i h, q), refl);
      done = λ i q. cc;
      found = λ i h z. ground (arith, has-start i, free-start i h, h, z);
      nodup = start-queue-IsDistinct distinct;
      count = omega (arith, unfinished_nil (ids plan.nodes));
      sorted = tt;
    }

    enough :
        unfinished (ids plan.nodes) (ids (sort_start plan).result)
        ≤ length plan.nodes + length plan.edges
    unfolding sort_start
    enough = omega (arith, unfinished_nil (ids plan.nodes), length-ids plan.nodes)

    -- `nodes` is where targets are found; it has a node for each id.
    module _ (nodes : List (Node F))
        (named : (t : String) → has (ids plan.nodes) t ≡ true → has (ids nodes) t ≡ true)
        (distinct : IsDistinct (ids plan.nodes)) (bound : length plan.edges < 2 ^ 63) where
      abbrev outcome : SortResult F
      outcome =
          check_order (length plan.nodes)
            (sort_loop (length plan.nodes + length plan.edges) nodes plan.edges (sort_start plan))

      loop_end :
          (result : List (Node F)) × (end : NameMap ℕ) × (sort_loop
              (length plan.nodes + length plan.edges)
              nodes
              plan.edges
              (sort_start plan)
            ≡ some result)
          × Inv (ids plan.nodes) plan.edges [] end [] (ids result)
      loop_end =
          sort_loop-ends (ids plan.nodes) plan.edges nodes named distinct bound
            (length plan.nodes + length plan.edges) (sort_start plan).in_degree
            (sort_start plan).queue (sort_start plan).result (start-Inv distinct) enough

      -- an order of all nodes, or a cycle
      pub order_cases :
          ((order : List (Node F)) × (outcome ≡ sorted order)
            × IsSorted plan.edges [] (ids order)
            × IsAcyclic (ids plan.nodes) plan.edges)
          ⊎ ((outcome ≡ cycle) × (IsAcyclic (ids plan.nodes) plan.edges → ⊥))
      unfolding check_order
      order_cases =
          let (result, end, run, inv) = loop_end in
          elim (Bool-cases (length result == length plan.nodes)) [
            | inl q ↦ inl (
              result,
              rw (run, q) refl,
              inv.sorted,
              full-IsAcyclic (ids plan.nodes) plan.edges end (ids result) inv (
                  length-ids result
                  ∙ (==_iff (length result) (length plan.nodes)).0 q
                  ∙ sym (length-ids plan.nodes)),
            )
            | inr q ↦ inr (
              rw (run, q) refl,
              λ acyclic.
                  let full =
                    acyclic_full (ids plan.nodes) plan.edges end (ids result) inv acyclic in
                  ground (arith, q, full, length-ids result, length-ids plan.nodes),
            )
          ]

      pub order_iff :
          ((order : List (Node F)) × (outcome ≡ sorted order))
          ↔ IsAcyclic (ids plan.nodes) plan.edges
      order_iff = elim order_cases [
        | inl (order, run, _, acyclic) ↦ (λ r. acyclic, λ a. (order, run))
        | inr (run, cyclic) ↦
            (λ (order, h). absurd (cycle-ne-sorted (sym run ∙ h)), λ a. absurd (cyclic a))
      ]

module _ {F : Type 0} where
  -- Where the ids of a plan are distinct and it has fewer than 2 ^ 63 edges,
  -- ExecutionPlan::topological_order returns either an order that has each node behind the sources of its
  -- incoming edges, and then some rank rises along each edge to a node and its source is a node, or the
  -- cycle error, and then there is no such rank.
  pub topological_order-decides :
      (plan : ExecutionPlan F)
      → IsDistinct (ids plan.nodes)
      → length plan.edges < 2 ^ 63
      → ((order : List (Node F)) × (topological_order plan ≡ sorted order)
          × IsSorted plan.edges [] (ids order)
          × IsAcyclic (ids plan.nodes) plan.edges)
        ⊎ ((topological_order plan ≡ cycle) × (IsAcyclic (ids plan.nodes) plan.edges → ⊥))
  unfolding topological_order
  topological_order-decides plan distinct bound =
      order_cases plan plan.nodes (λ t h. h) distinct bound
