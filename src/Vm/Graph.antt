-- ===== src/Vm/Graph.antt =====
-- The graph algorithms of tinypipe-vm/src/compiled_executor.rs: reachable indices, loop bodies and the
-- topological order. A `Vec` that is used as a stack is a list whose head is popped next.
pub mod Reach
pub mod Complete
pub mod Count
pub mod Sorting
pub mod Sorted
use mathlib.Core.List.{reverse}
use tinypipe.Prelude.{
  ℕ, zero, suc, ◌+◌, ◌-◌, ◌%◌, ◌^◌, Bool, true, false, not, ◌&&◌, Option, none, some, List, [], ◌∷◌,
  ◌++◌, map, ltb, ◌==◌, if◌then◌else◌, length, get_or, set, replicate, keep, count_up, contains,
  insert, insert_all, is_some, Map, put,
}
use tinypipe.Ir.Plan.{Plan, Node, Edge, is_data, is_loop}
use tinypipe.Vm.Error.{Result, ok, err, cycle_detected, out_of_fuel}

-- The variables `visited` and `stack` of `collect_reachable_indices`.
pub record Search : Type 0 where
  pub visited : List ℕ
  pub stack : List ℕ

-- `if edge.from_index == idx && visited.insert(edge.to_index) { stack.push(edge.to_index) }`
unfoldable pub visit : ℕ → Edge → Search → Search
unfolding insert
visit idx e s =
    if (e.from_index == idx) && not (contains s.visited e.to_index)
    then record { visited = insert e.to_index s.visited; stack = e.to_index ∷ s.stack }
    else s

unfoldable pub visit_all : ℕ → List Edge → Search → Search
unfolding visit
visit_all idx [] s = s
visit_all idx (e ∷ es) s = visit_all idx es (visit idx e s)

-- `while let Some(idx) = stack.pop()`
unfoldable pub search_loop : ℕ → List Edge → Search → Search
unfolding visit_all
search_loop zero edges s = s
search_loop (suc fuel) edges s = elim s.stack [
  | [] ↦ s
  | idx ∷ rest ↦ search_loop fuel edges (visit_all idx edges (record s { stack = rest }))
]

unfoldable pub search_start : List ℕ → Search
unfolding insert_all
search_start starts = record { visited = insert_all starts []; stack = reverse starts }

-- `collect_reachable_indices`: each round pops one entry, and each edge pushes one at most.
unfoldable pub collect_reachable_indices : List Edge → List ℕ → List ℕ
unfolding search_loop search_start
collect_reachable_indices edges starts =
    (search_loop (length starts + length edges) edges (search_start starts)).visited

-- the targets of the unconditional edges of one kind that leave a node
unfoldable pub anchors : Bool → ℕ → List Edge → List ℕ
anchors data_edges index edges =
    map (λ (e : Edge). e.to_index)
      (keep
        (λ (e : Edge).
          (e.from_index == index)
          && not (is_some e.condition)
          && (if is_data e.kind then data_edges else not data_edges))
        edges)

-- the union of what each start reaches
unfoldable pub reach_each : List Edge → List ℕ → List ℕ → List ℕ
unfolding collect_reachable_indices insert_all
reach_each edges [] found = found
reach_each edges (to ∷ rest) found =
    reach_each edges rest (insert_all (collect_reachable_indices edges (to ∷ [])) found)

-- What the data anchors of a LOOP reach, without what its control anchors reach.
unfoldable pub loop_body : List Edge → ℕ → List ℕ
unfolding anchors reach_each
loop_body edges index =
    let body = reach_each edges (anchors true index edges) [] in
    let continuation = reach_each edges (anchors false index edges) [] in
    elim (anchors false index edges) [
      | [] ↦ body
      | _ ∷ _ ↦ keep (λ i. not (contains continuation i)) body
    ]

bodies_of : List Edge → List Node → Map (List ℕ) → Map (List ℕ)
unfolding loop_body put
bodies_of edges [] bodies = bodies
bodies_of edges (n ∷ ns) bodies =
    bodies_of edges ns
      (if is_loop n.op then put n.index (loop_body edges n.index) bodies else bodies)

-- `identify_loop_bodies`
unfoldable pub identify_loop_bodies : Plan → Map (List ℕ)
unfolding bodies_of
identify_loop_bodies plan = bodies_of plan.edges plan.nodes []

-- The variables of `topological_order`.
pub record Sort : Type 0 where
  pub in_degree : List ℕ
  pub queue : List ℕ
  pub result : List ℕ

-- The first loop over the edges: the counters are `u32` and wrap around, and a write at an index out of
-- range changes nothing.
unfoldable pub count_in : List Edge → List ℕ → List ℕ
count_in [] d = d
count_in (e ∷ es) d = count_in es (set d e.to_index ((get_or d e.to_index 0 + 1) % 2 ^ 32))

-- One edge of the popped index: `saturating_sub(1)`, and a push when no predecessor is left.
unfoldable pub release : ℕ → ℕ → Edge → Sort → Sort
release n idx e s =
    if (e.from_index == idx) && ltb e.to_index n
    then (let left = get_or s.in_degree e.to_index 0 - 1 in
        record s {
          in_degree = set s.in_degree e.to_index left;
          queue = if left == 0 then e.to_index ∷ s.queue else s.queue;
        })
    else s

unfoldable pub release_all : ℕ → ℕ → List Edge → Sort → Sort
unfolding release
release_all n idx [] s = s
release_all n idx (e ∷ es) s = release_all n idx es (release n idx e s)

-- `while let Some(idx) = queue.pop()`; `none` is out of fuel.
unfoldable pub sort_loop : ℕ → ℕ → List Edge → Sort → Option (List ℕ)
unfolding release_all
sort_loop zero n edges s = elim s.queue [ [] ↦ some s.result | _ ∷ _ ↦ none ]
sort_loop (suc fuel) n edges s = elim s.queue [
  | [] ↦ some s.result
  | idx ∷ rest ↦
      sort_loop fuel n edges
        (release_all n idx edges (record s { queue = rest; result = s.result ++ (idx ∷ []) }))
]

-- the indices of `0..n as u32` without predecessors
unfoldable pub sort_start : Plan → Sort
unfolding count_in
sort_start plan =
    let n = length plan.nodes in
    let d = count_in plan.edges (replicate n 0) in
    record {
      in_degree = d;
      queue = reverse (keep (λ i. get_or d i 0 == 0) (count_up (n % 2 ^ 32) 0));
      result = [];
    }

-- the test after the loop
unfoldable pub check_order : ℕ → Option (List ℕ) → Result (List ℕ)
check_order n none = err out_of_fuel
check_order n (some result) = if length result == n then ok result else err cycle_detected

-- `topological_order`; below 2 ^ 32 edges an index is queued when its last predecessor goes, so once, and
-- one round for each node is enough.
unfoldable pub topological_order : Plan → Result (List ℕ)
unfolding sort_loop sort_start check_order
topological_order plan =
    let n = length plan.nodes in check_order n (sort_loop n n plan.edges (sort_start plan))
