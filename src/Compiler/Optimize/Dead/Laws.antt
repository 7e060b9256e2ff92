-- ===== src/Compiler/Optimize/Dead/Laws.antt =====
-- What `dead_node_elimination` of tinypipe-compiler/src/backend/optimize.rs keeps.
use mathlib.Core.List.{Memᴰ}
use mathlib.Core.List.Memᴰ
use tinypipe.Prelude.{
  ℕ, ◌+◌, ==_iff, str_eq, str_eq_refl, keep_all, keep_idem, length-keep, String, ◌≡◌, refl, ap, ◌∙◌,
  sym, true, List, [], ◌∷◌, keep, has, ◌==◌, length, arith, Bool-cases, inl, inr, eq_iff,
}
use tinypipe.Ir.ExecutionPlan.{ExecutionPlan, Node, Edge, ids}
use tinypipe.Compiler.Optimize.Dead.{
  referenced, joins, live, kept_nodes, removed, dead_node_elimination,
}

referenced-Memᴰ :
    (es : List Edge) (e : Edge)
    → Memᴰ e es
    → (has (referenced es) e.from ≡ true) × (has (referenced es) e.to ≡ true)
unfolding referenced
referenced-Memᴰ [] e m = absurd (Memᴰ.not-nil m)
referenced-Memᴰ (d ∷ es) e (Memᴰ.head h) =
    rw h (ground (arith, str_eq_refl d.from), ground (arith, str_eq_refl d.to))
referenced-Memᴰ (d ∷ es) e (Memᴰ.tail m) =
    let k = referenced-Memᴰ es e m in (ground (arith, k.0), ground (arith, k.1))

module _ {F : Type 0} where
  -- Each edge leads between nodes of the plan.
  abbrev pub IsClosed : ExecutionPlan F → Type 0
  IsClosed plan = (e : Edge) → Memᴰ e plan.edges → joins (ids plan.nodes) e ≡ true

  -- A name that is referenced keeps its node.
  has-ids-keep :
      (names : List String) (ns : List (Node F)) (a : String)
      → has names a ≡ true
      → has (ids ns) a ≡ true
      → has (ids (keep (live names) ns)) a ≡ true
  unfolding live
  has-ids-keep names [] a h k = k
  has-ids-keep names (n ∷ ns) a h k = elim (Bool-cases (str_eq n.id a)) [
    | inl e ↦ ground (arith, h, e, (eq_iff n.id a).0 e)
    | inr e ↦ ground (arith, has-ids-keep names ns a h, k, e)
  ]

  IsClosed-kept_nodes :
      (plan : ExecutionPlan F) → IsClosed plan → IsClosed (record plan { nodes = kept_nodes plan })
  unfolding kept_nodes
  IsClosed-kept_nodes plan closed e m =
      let used = referenced-Memᴰ plan.edges e m in
      ground (
        arith,
        closed e m,
        has-ids-keep (referenced plan.edges) plan.nodes e.from used.0,
        has-ids-keep (referenced plan.edges) plan.nodes e.to used.1,
      )

  dead_node_elimination_closed :
      (plan : ExecutionPlan F)
      → IsClosed plan
      → dead_node_elimination plan ≡ (record plan { nodes = kept_nodes plan }, removed plan)
  unfolding dead_node_elimination
  dead_node_elimination_closed plan closed = elim (Bool-cases (removed plan == 0)) [
    | inl e ↦ rw e (
        ap (λ k. (record plan { nodes = kept_nodes plan }, k))
          (sym ((==_iff (removed plan) 0).0 e)))
    | inr e ↦
        rw
          (e, keep_all (joins (ids (kept_nodes plan))) plan.edges (IsClosed-kept_nodes plan closed))
          refl
  ]

  -- Where each edge of a plan leads between nodes of the plan, dead_node_elimination drops no edge, each
  -- edge of the result leads between nodes of the result, and the nodes of the result and the number of
  -- removed nodes make up the nodes of the plan.
  pub dead_node_elimination-IsClosed :
      (plan : ExecutionPlan F)
      → IsClosed plan
      → ((dead_node_elimination plan).0.edges ≡ plan.edges)
        × IsClosed (dead_node_elimination plan).0
        × (length (dead_node_elimination plan).0.nodes + (dead_node_elimination plan).1
            ≡ length plan.nodes)
  unfolding removed kept_nodes
  dead_node_elimination-IsClosed plan closed = rw (dead_node_elimination_closed plan closed) (
    refl,
    IsClosed-kept_nodes plan closed,
    omega (arith, length-keep (live (referenced plan.edges)) plan.nodes),
  )

  kept_again :
      (plan : ExecutionPlan F)
      → Path
          (ExecutionPlan F × ℕ)
          (
            record plan { nodes = kept_nodes (record plan { nodes = kept_nodes plan }) },
            removed (record plan { nodes = kept_nodes plan }),
          )
          (record plan { nodes = kept_nodes plan }, 0)
  unfolding kept_nodes removed
  kept_again plan = rw (keep_idem (live (referenced plan.edges)) plan.nodes) (
      ap (λ k. (record plan { nodes = keep (live (referenced plan.edges)) plan.nodes }, k))
        (omega arith))

  -- Where each edge of a plan leads between nodes of the plan, one pass of dead_node_elimination is
  -- enough: a second pass returns the same plan and reports that it removed no node.
  pub dead_node_elimination_idem :
      (plan : ExecutionPlan F)
      → IsClosed plan
      → dead_node_elimination (dead_node_elimination plan).0 ≡ ((dead_node_elimination plan).0, 0)
  dead_node_elimination_idem plan closed = rw (dead_node_elimination_closed plan closed) (
      dead_node_elimination_closed (record plan { nodes = kept_nodes plan })
        (IsClosed-kept_nodes plan closed)
      ∙ kept_again plan)
