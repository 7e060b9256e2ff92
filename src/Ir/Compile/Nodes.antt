-- ===== src/Ir/Compile/Nodes.antt =====
-- The nodes and the table of ids that `CompiledPlan::from_execution_plan` of
-- tinypipe-ir/src/compiled.rs builds.
use mathlib.Core.Option.{some-injective}
use tinypipe.Prelude.{
  ℕ, zero, suc, ◌+◌, ◌<◌, ◌%◌, ◌^◌, String, ◌≡◌, refl, sym, ap, ◌∙◌, subst, false, Option, some,
  List, [], ◌∷◌, length, get_elem?, str_eq, arith, Bool-cases, inl, inr, has, eq_iff, NameMap,
  get_name, put_name, get_name-put_name,
}
use tinypipe.Ir.Plan
use tinypipe.Ir.Plan.{Plan}
use tinypipe.Ir.ExecutionPlan.{Node, ArgValue, ids}
use tinypipe.Ir.Compile.{add_group, compile_node, compile_nodes, index_ids}

module _ {F : Type 0} (json : ArgValue F → String) where
  -- A compiled node has its number and the id of the node at its position.
  pub get-compile_nodes :
      (k i : ℕ) (table : List String) (ns : List (Node F)) (c : Plan.Node)
      → get_elem? (compile_nodes json k table ns) i ≡ some c
      → (n : Node F) × (get_elem? ns i ≡ some n)
        × (c.id ≡ n.id)
        × (c.op ≡ n.op)
        × (c.index ≡ (k + i) % 2 ^ 32)
        × (i < length ns)
  unfolding compile_nodes compile_node
  get-compile_nodes k i table [] c h = cc
  get-compile_nodes k zero table (n ∷ ns) c h =
      let e : compile_node json (k % 2 ^ 32) table n ≡ c = some-injective _ _ h in
      (
        n,
        refl,
        sym (ap (λ (a : Plan.Node). a.id) e),
        sym (ap (λ (a : Plan.Node). a.op) e),
        sym (ap (λ (a : Plan.Node). a.index) e) ∙ ap (λ j. j % 2 ^ 32) (omega arith),
        omega arith,
      )
  get-compile_nodes k (suc i) table (n ∷ ns) c h =
      let (m, at, id, op, index, lt) =
        get-compile_nodes (suc k) i (add_group n.group table) ns c h in
      (m, at, id, op, index ∙ ap (λ j. j % 2 ^ 32) (omega arith), omega (arith, lt))

  pub length-compile_nodes :
      (k : ℕ) (table : List String) (ns : List (Node F))
      → length (compile_nodes json k table ns) ≡ length ns
  unfolding compile_nodes
  length-compile_nodes k table [] = refl
  length-compile_nodes k table (n ∷ ns) =
      ap suc (length-compile_nodes (suc k) (add_group n.group table) ns)

  pub some-compile_nodes :
      (k i : ℕ) (table : List String) (ns : List (Node F)) (n : Node F)
      → get_elem? ns i ≡ some n
      → (c : Plan.Node) × (get_elem? (compile_nodes json k table ns) i ≡ some c) × (c.id ≡ n.id)
  unfolding compile_nodes compile_node
  some-compile_nodes k i table [] n h = cc
  some-compile_nodes k zero table (m ∷ ns) n h = (
    compile_node json (k % 2 ^ 32) table m,
    refl,
    ap (λ (a : Node F). a.id) (some-injective _ _ h),
  )
  some-compile_nodes k (suc i) table (m ∷ ns) n h =
      some-compile_nodes (suc k) i (add_group m.group table) ns n h

module _ {F : Type 0} where
  -- Where the index of an id comes from: a node with the id, or the table before.
  pub data Found (id : String) (k : ℕ) (ns : List (Node F)) (before : Option ℕ)
      : Option ℕ → Type 0 where
    node_at :
        (i : ℕ) (n : Node F)
        → get_elem? ns i ≡ some n
        → n.id ≡ id
        → Found id k ns before (some ((k + i) % 2 ^ 32))
    unknown : has (ids ns) id ≡ false → Found id k ns before before

  Found-suc :
      {id : String} {k : ℕ} {n : Node F} {ns : List (Node F)} {before now : Option ℕ}
      → str_eq n.id id ≡ false
      → Found id (suc k) ns before now
      → Found id k (n ∷ ns) before now
  Found-suc {id} {k} {n} {ns} {before} h (node_at i m at same) =
      subst (λ j. Found id k (n ∷ ns) before (some (j % 2 ^ 32))) (omega arith)
        (node_at (suc i) m at same)
  Found-suc h (unknown u) = unknown (ground (arith, h, u))

  Found-here :
      {id : String} {k : ℕ} {n : Node F} {ns : List (Node F)} {before now : Option ℕ}
      → n.id ≡ id
      → Found id (suc k) ns (some (k % 2 ^ 32)) now
      → Found id k (n ∷ ns) before now
  Found-here {id} {k} {n} {ns} {before} h (node_at i m at same) =
      subst (λ j. Found id k (n ∷ ns) before (some (j % 2 ^ 32))) (omega arith)
        (node_at (suc i) m at same)
  Found-here {id} {k} {n} {ns} {before} h (unknown u) =
      subst (λ j. Found id k (n ∷ ns) before (some (j % 2 ^ 32))) (omega arith)
        (node_at zero n refl h)

  pub index_ids-Found :
      (k : ℕ) (ns : List (Node F)) (m : NameMap ℕ) (id : String)
      → Found id k ns (get_name id m) (get_name id (index_ids k ns m))
  unfolding index_ids
  index_ids-Found k [] m id = unknown refl
  index_ids-Found k (n ∷ ns) m id =
      let rest = index_ids-Found (suc k) ns (put_name n.id (k % 2 ^ 32) m) id in
      let put = get_name-put_name n.id id (k % 2 ^ 32) m in
      elim (Bool-cases (str_eq n.id id)) [
        | inl e ↦ Found-here ((eq_iff n.id id).0 e) (
            subst
              (λ b.
                Found id (suc k) ns b
                  (get_name id (index_ids (suc k) ns (put_name n.id (k % 2 ^ 32) m))))
              (put ∙ rw e refl) rest)
        | inr e ↦ Found-suc e (
            subst
              (λ b.
                Found id (suc k) ns b
                  (get_name id (index_ids (suc k) ns (put_name n.id (k % 2 ^ 32) m))))
              (put ∙ rw e refl) rest)
      ]
