-- ===== src/Ir/ExecutionPlan/Order.antt =====
-- `ExecutionPlan::topological_order` of tinypipe-ir/src/plan.rs.
pub mod Count
pub mod Sorting
pub mod Sorted
pub mod Decides
use mathlib.Core.List.{reverse}
use tinypipe.Prelude.{
  ℕ, zero, suc, ◌+◌, ◌%◌, ◌^◌, String, Bool, false, ◌==◌, Option, none, some, List, [], ◌∷◌, ◌++◌,
  str_eq, find?, keep, length, if◌then◌else◌, NameMap, get_name, put_name,
}
use tinypipe.Ir.ExecutionPlan.{ExecutionPlan, Node, Edge, edges_from}

-- The variables of `topological_order`.
pub record Sort (F : Type 0) : Type 0 where
  pub in_degree : NameMap ℕ
  pub queue : List (Node F)
  pub result : List (Node F)

-- `cycle` is the error; `out_of_fuel` is the model's.
pub data SortResult (F : Type 0) : Type 0 where
  sorted : List (Node F) → SortResult F
  cycle : SortResult F
  out_of_fuel : SortResult F

-- the edges counted at their targets; an unknown target has no counter
unfoldable pub count_in : List Edge → NameMap ℕ → NameMap ℕ
count_in [] d = d
count_in (e ∷ es) d =
    count_in es (elim (get_name e.to d) [ none ↦ d | some deg ↦ put_name e.to (deg + 1) d ])

-- `*deg -= 1` on a `usize`, which wraps around in the release profile
abbrev pub pred_usize : ℕ → ℕ
pred_usize deg = (deg + 18446744073709551615) % 2 ^ 64

module _ {F : Type 0} where
  unfoldable pub start_degrees : List (Node F) → NameMap ℕ → NameMap ℕ
  start_degrees [] d = d
  start_degrees (n ∷ ns) d = start_degrees ns (put_name n.id 0 d)

  -- whether a counter is there and zero
  abbrev pub is_free : NameMap ℕ → Node F → Bool
  is_free d n = elim (get_name n.id d) [ none ↦ false | some deg ↦ deg == 0 ]

  push_node : Option (Node F) → List (Node F) → List (Node F)
  push_node none queue = queue
  push_node (some n) queue = n ∷ queue

  find_id : List (Node F) → String → Option (Node F)
  find_id nodes id = find? (λ (n : Node F). str_eq n.id id) nodes

  -- one edge of the popped node
  unfoldable pub release : List (Node F) → Edge → Sort F → Sort F
  unfolding push_node find_id
  release nodes e s = elim (get_name e.to s.in_degree) [
    | none ↦ s
    | some deg ↦ record s {
      in_degree = put_name e.to (pred_usize deg) s.in_degree;
      queue = if pred_usize deg == 0 then push_node (find_id nodes e.to) s.queue else s.queue;
    }
  ]

  unfoldable pub release_all : List (Node F) → List Edge → Sort F → Sort F
  unfolding release
  release_all nodes [] s = s
  release_all nodes (e ∷ es) s = release_all nodes es (release nodes e s)

  -- `while let Some(node) = queue.pop()`; `none` is out of fuel.
  unfoldable pub sort_loop : ℕ → List (Node F) → List Edge → Sort F → Option (List (Node F))
  unfolding release_all edges_from
  sort_loop zero nodes edges s = elim s.queue [ [] ↦ some s.result | _ ∷ _ ↦ none ]
  sort_loop (suc fuel) nodes edges s = elim s.queue [
    | [] ↦ some s.result
    | n ∷ rest ↦ sort_loop fuel nodes edges (
        release_all nodes (edges_from edges n.id)
          (record s { queue = rest; result = s.result ++ (n ∷ []) }))
  ]

  unfoldable pub sort_start : ExecutionPlan F → Sort F
  unfolding count_in start_degrees
  sort_start plan =
      let d = count_in plan.edges (start_degrees plan.nodes []) in
      record { in_degree = d; queue = reverse (keep (is_free d) plan.nodes); result = [] }

  unfoldable pub check_order : ℕ → Option (List (Node F)) → SortResult F
  check_order n none = out_of_fuel
  check_order n (some result) = if length result == n then sorted result else cycle

  -- `topological_order`. A node is pushed at the start, or when its counter goes to zero.
  unfoldable pub topological_order : ExecutionPlan F → SortResult F
  unfolding sort_loop sort_start check_order
  topological_order plan =
      let n = length plan.nodes in
      check_order n (sort_loop (n + length plan.edges) plan.nodes plan.edges (sort_start plan))
