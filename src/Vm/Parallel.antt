-- ===== src/Vm/Parallel.antt =====
-- `Opcode::Parallel` of tinypipe-vm/src/compiled_executor.rs: the branch groups, a thread for each, and
-- the merge of what the threads leave. The threads share no variable, so each is a function of the state
-- at the PARALLEL, and the results are merged in the order of the branch ids.
pub mod Fits
use tinypipe.Prelude.{
  ℕ, Bool, false, not, Option, none, some, List, [], ◌∷◌, ◌++◌, map, ltb, ◌==◌, if◌then◌else◌,
  add_u32, keep, contains, insert_all, Map, lookup, put,
}
use tinypipe.Api.Value.{Value, null}
use tinypipe.Api.Context
use tinypipe.Api.Context.{Context, Scope}
use tinypipe.Ir.Plan.{Plan, Node, Edge, get_node}
use tinypipe.Vm.Error.{Result, ok, err, ◌>>=◌, node_not_found, ◌&◌}
use tinypipe.Vm.Text.{decimal}
use tinypipe.Vm.Machine.{Executor, State, Frame}
use tinypipe.Vm.Graph.{collect_reachable_indices}
use tinypipe.Vm.Edges.{follow}
use tinypipe.Vm.Call.{record_output}

unfoldable pub branch_of : Plan → ℕ → Option ℕ
branch_of plan idx = elim (get_node plan idx) [ none ↦ none | some nd ↦ nd.branch_id ]

unfoldable pub has_branch : Plan → ℕ → ℕ → Bool
unfolding branch_of
has_branch plan bid idx = elim (branch_of plan idx) [ none ↦ false | some b ↦ b == bid ]

-- a sorted list without repetitions
unfoldable pub insert_sorted : ℕ → List ℕ → List ℕ
insert_sorted a [] = a ∷ []
insert_sorted a (b ∷ bs) =
    if ltb a b then a ∷ b ∷ bs else if a == b then b ∷ bs else b ∷ insert_sorted a bs

-- `groups.keys()`, sorted
unfoldable pub branch_ids : Plan → List ℕ → List ℕ
unfolding branch_of insert_sorted
branch_ids plan [] = []
branch_ids plan (idx ∷ rest) = elim (branch_of plan idx) [
  | none ↦ branch_ids plan rest
  | some bid ↦ insert_sorted bid (branch_ids plan rest)
]

-- `groups[bid]`
unfoldable pub group_of : Plan → List ℕ → ℕ → List ℕ
unfolding has_branch
group_of plan region bid = keep (has_branch plan bid) region

-- the nodes of all the groups are left to the threads
unfoldable pub skip_groups : Plan → List ℕ → List ℕ → List ℕ → List ℕ
unfolding group_of insert_all
skip_groups plan region [] skipped = skipped
skip_groups plan region (bid ∷ rest) skipped =
    skip_groups plan region rest (insert_all (group_of plan region bid) skipped)

-- One control counter: `if after > before { control_satisfied[idx].set(after) }`
unfoldable pub merge_control : List ℕ → List ℕ → List ℕ → List ℕ
merge_control (b ∷ bs) (a ∷ aft) (c ∷ cs) = (if ltb b a then a else c) ∷ merge_control bs aft cs
merge_control _ _ cs = cs

module _ {F : Type 0} where
  -- `entry(k).or_insert(v)` for each output of a thread
  unfoldable pub add_outputs : Map (Value F) → Map (Value F) → Map (Value F)
  unfolding lookup put
  add_outputs [] m = m
  add_outputs ((k, v) ∷ rest) m =
      add_outputs rest (elim (lookup k m) [ none ↦ put k v m | some _ ↦ m ])

  give_scope : ℕ → Option (Scope F) → Context F → Context F
  unfolding Context.insert_branch_scope
  give_scope bid none c = c
  give_scope bid (some scope) c = Context.insert_branch_scope c bid scope

  -- The state of one thread goes into the main state; `initial` is the counters before the threads.
  unfoldable pub merge_thread : List ℕ → ℕ → State F → State F → State F
  unfolding add_outputs insert_all merge_control give_scope Context.take_branch_scope
  merge_thread initial bid t st = record {
    ctx = give_scope bid (Context.take_branch_scope t.ctx bid).0 st.ctx;
    node_outputs = add_outputs t.node_outputs st.node_outputs;
    execution_order = st.execution_order ++ t.execution_order;
    enabled = insert_all t.enabled st.enabled;
    control_satisfied = merge_control initial t.control_satisfied st.control_satisfied;
    loop_skipped = st.loop_skipped;
    node_count = add_u32 st.node_count t.node_count;
    output = elim st.output [ none ↦ t.output | some v ↦ some v ];
  }

  unfoldable pub merge_threads : List ℕ → List (ℕ × State F) → State F → State F
  unfolding merge_thread
  merge_threads initial [] st = st
  merge_threads initial ((bid, t) ∷ rest) st =
      merge_threads initial rest (merge_thread initial bid t st)

  -- what a thread starts from
  unfoldable pub thread_start : List ℕ → List ℕ → State F → State F
  unfolding insert_all
  thread_start children group st = record {
    ctx = st.ctx;
    node_outputs = st.node_outputs;
    execution_order = [];
    enabled = insert_all (keep (contains group) children) [];
    control_satisfied = st.control_satisfied;
    loop_skipped = keep (λ i. not (contains group i)) st.loop_skipped;
    node_count = 0;
    output = none;
  }

module _ {F : Type 0} (x : Executor F) where
  unfoldable pub children_of : ℕ → List ℕ
  children_of index =
      map (λ (e : Edge). e.to_index) (keep (λ (e : Edge). e.from_index == index) x.plan.edges)

  -- all outgoing edges, whatever their kind and condition
  unfoldable pub follow_all : ℕ → List Edge → State F → State F
  unfolding follow
  follow_all index [] st = st
  follow_all index (e ∷ es) st =
      follow_all index es (if e.from_index == index then follow e st else st)

  -- the loop of a thread, where `run` is `run_node` without a pause policy
  unfoldable pub run_group :
      (Node → State F → Result (State F)) → List ℕ → State F → Result (State F)
  unfolding decimal
  run_group run [] st = ok st
  run_group run (idx ∷ rest) st = elim (get_node x.plan idx) [
    | none ↦ err (node_not_found ("region index " & decimal idx))
    | some nd ↦ run nd st >>= run_group run rest
  ]

  -- The threads' results, or the error of the first branch that has one.
  unfoldable pub run_threads :
      (Node → State F → Result (State F))
      → List ℕ
      → List ℕ
      → List ℕ
      → State F
      → Result (List (ℕ × State F))
  unfolding run_group thread_start group_of
  run_threads run children region [] st = ok []
  run_threads run children region (bid ∷ rest) st = do
    let group = group_of x.plan region bid
    t ← run_group run group (thread_start children group st)
    ts ← run_threads run children region rest st
    ok ((bid, t) ∷ ts)

  -- the region of a PARALLEL, in the order of the run
  unfoldable pub region_of : Frame → ℕ → List ℕ
  unfolding collect_reachable_indices children_of
  region_of frame index =
      keep (contains (collect_reachable_indices x.plan.edges (children_of index))) frame.order

  unfoldable pub enter_branches : Node → State F → State F
  unfolding follow_all put Context.enter_parallel
  enter_branches node st =
      record_output node.index null
        (follow_all node.index x.plan.edges (record st { ctx = Context.enter_parallel st.ctx }))

  -- `Opcode::Parallel`
  unfoldable pub exec_parallel :
      (Node → State F → Result (State F)) → Frame → Node → State F → Result (State F)
  unfolding enter_branches region_of branch_ids skip_groups run_threads merge_threads children_of
  exec_parallel run frame node st =
      let entered = enter_branches node st in
      let region = region_of frame node.index in
      let bids = branch_ids x.plan region in
      elim bids [
        | [] ↦ ok entered
        | bid ∷ rest ↦ do
          let skipping = record entered {
            loop_skipped = skip_groups x.plan region (bid ∷ rest) entered.loop_skipped;
          }
          ts ← run_threads run (children_of node.index) region (bid ∷ rest) skipping
          ok (merge_threads skipping.control_satisfied ts skipping)
      ]
