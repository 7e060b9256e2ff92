-- ===== src/Compiler/Validate/Search.antt =====
-- The searches of tinypipe-compiler/src/validator.rs along the edges of a plan. A `HashSet` is a list.
pub mod Laws
use tinypipe.Prelude.{
  ℕ, zero, suc, ◌+◌, String, Bool, true, false, not, ◌&&◌, ◌||◌, Option, none, some, List, [], ◌∷◌,
  ◌++◌, has, keep, map, length, if◌then◌else◌,
}
use tinypipe.Ir.Plan.{is_data}
use tinypipe.Ir.ExecutionPlan.{Edge, edges_from}

-- the targets of the edges behind a node that a search follows
unfoldable pub targets : (Edge → Bool) → List Edge → String → List String
unfolding edges_from
targets follow edges id = map (λ (e : Edge). e.to) (keep follow (edges_from edges id))

abbrev pub all_edges : Edge → Bool
all_edges e = true

abbrev pub data_edges : Edge → Bool
data_edges e = is_data e.kind

-- `queue.push_back` of the targets, unless the node was there before
unfoldable pub enqueue :
    (Edge → Bool) → List Edge → String → List String → List String → List String
unfolding targets
enqueue follow edges id queue visited =
    if has visited id then queue else queue ++ targets follow edges id

-- `visited.insert`
unfoldable pub mark : String → List String → List String
mark id visited = if has visited id then visited else id ∷ visited

-- `while let Some(id) = queue.pop_front()`
unfoldable pub walk : ℕ → (Edge → Bool) → List Edge → List String → List String → List String
unfolding enqueue mark
walk zero follow edges queue visited = visited
walk (suc fuel) follow edges [] visited = visited
walk (suc fuel) follow edges (id ∷ queue) visited =
    walk fuel follow edges (enqueue follow edges id queue visited) (mark id visited)

-- Each round pops an entry, and each edge is pushed once at most.
unfoldable pub walk_from : (Edge → Bool) → List Edge → List String → List String → List String
unfolding walk
walk_from follow edges queue visited = walk (length queue + length edges) follow edges queue visited

unfoldable pub collect_reachable_from : List Edge → String → List String → List String
unfolding walk_from
collect_reachable_from edges start visited = walk_from data_edges edges (start ∷ []) visited

-- the loop of `can_reach_any`
unfoldable pub seek : ℕ → List Edge → List String → List String → List String → Bool
unfolding enqueue mark
seek zero edges goals queue visited = false
seek (suc fuel) edges goals [] visited = false
seek (suc fuel) edges goals (id ∷ queue) visited =
    let rest = seek fuel edges goals (enqueue all_edges edges id queue visited) (mark id visited) in
    (not (has visited id) && has goals id) || rest

unfoldable pub can_reach_any : List Edge → String → List String → Bool
unfolding seek
can_reach_any edges start goals = seek (1 + length edges) edges goals (start ∷ []) []
