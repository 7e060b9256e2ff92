-- ===== src/Compiler/Validate/Pass/Checks.antt =====
-- What the single checks of tinypipe-compiler/src/validator.rs find.
use mathlib.Core.List.{reverse}
use tinypipe.Prelude.{
  ℕ, ◌==◌, leb→le, String, Bool, true, false, not, List, [], ◌∷◌, Option, none, some, ◌≡◌, ◌≤◌, ◌↔◌,
  refl, sym, ap, inl, inr, has, has_head, keep, keep-Memᴰ, Memᴰ-keep, length-keep, ◌^◌, ◌<◌, ◌∙◌,
  if◌then◌else◌, any, length, arith, Bool-cases, eq_iff, str_eq, str_eq_refl, subst,
}
use mathlib.Core.Option.{some-injective}
use tinypipe.Ir.ExecutionPlan.{ExecutionPlan, Node, Edge, ids, edges_from}
use tinypipe.Ir.ExecutionPlan.Order.Count.{IsDistinct, has-ids-reverse}
use tinypipe.Ir.ExecutionPlan.Order.Sorted.{IsAcyclic}
use tinypipe.Ir.ExecutionPlan.Order.Decides.{order_iff}
use tinypipe.Ir.ExecutionPlan.Order.{sorted, check_order}
use tinypipe.Vm.Text.{trim_start_matches}
use tinypipe.Compiler.Text.{contains_text}
use tinypipe.Compiler.Codegen.{is_subgraph, call_target, subgraph_dependencies}
use tinypipe.Compiler.Optimize.Dead.{joins}
use tinypipe.Compiler.Optimize.Dead.Laws.{IsClosed}
use tinypipe.Compiler.Validate.Errors.{ValidationError, each, unless_iff, append_iff, each_iff}
use tinypipe.Compiler.Validate.Branches.{Leads, edge_errors_iff}
use tinypipe.Compiler.Validate.Pass.{
  is_terminal_opcode, is_empty_list, end_errors, duplicate_errors, sort_edges, acyclic_edges,
  cycle_errors, terminal_ids, loop_ids, node_edge_errors, self_cycle_errors, subgraph_errors,
  depth_errors, index_errors,
}
use tinypipe.Compiler.Validate.Pass.Spec.{IsRanked, IsNotSelf}

end_errors_iff :
    (names : List String) (e : Edge) → (end_errors names e ≡ []) ↔ (joins names e ≡ true)
unfolding end_errors
end_errors_iff names e = (
  λ h.
      let r = (append_iff _ _).0 h in
      let from = (unless_iff (has names e.from) _).0 r.0 in
      let to = (unless_iff (has names e.to) _).0 r.1 in ground (arith, from, to),
  λ k.
      (append_iff _ _).1
        ((unless_iff _ _).1 (ground (arith, k)), (unless_iff _ _).1 (ground (arith, k))),
)

pub is_some_id_iff :
    (names : List String)
    → (not (is_empty_list names) ≡ true) ↔ ((a : String) × (has names a ≡ true))
is_some_id_iff [] = (λ h. cc, λ r. cc)
is_some_id_iff (x ∷ names) = (λ h. (x, has_head x names), λ r. refl)

only_if : (b : Bool) (es : List ValidationError) → (if b then es else []) ≡ [] → b ≡ true → es ≡ []
only_if true es h e = h
only_if false es h e = cc

self_cycle_errors_iff :
    (deps : List String) (id : String) (o : Option String)
    → (self_cycle_errors deps id o ≡ []) ↔ (
        (s : String)
        → o ≡ some s
        → is_subgraph s ≡ true
        → any (contains_text (trim_start_matches "subgraph:" s)) deps ≡ false)
unfolding self_cycle_errors
self_cycle_errors_iff deps id none = (λ h s e k. cc, λ k. refl)
self_cycle_errors_iff deps id (some t) = elim (Bool-cases (is_subgraph t)) [
  | inl e ↦ (
    λ h s q k.
        let r = only_if (is_subgraph t) _ h e in
        let z =
          (unless_iff (not (any (contains_text (trim_start_matches "subgraph:" t)) deps)) _).0 r in
        subst (λ u. any (contains_text (trim_start_matches "subgraph:" u)) deps ≡ false)
          (some-injective _ _ q) (ground (arith, z)),
    λ k. rw e ((unless_iff _ _).1 (ap not (k t refl e))),
  )
  | inr e ↦ (
    λ h s q k.
        absurd
          (ground (arith, subst (λ u. is_subgraph u ≡ true) (sym (some-injective _ _ q)) k, e)),
    λ k. rw e refl,
  )
]

module _ {F : Type 0} where
  duplicate_errors_iff :
      (seen : List String) (ns : List (Node F))
      → (duplicate_errors seen ns ≡ [])
        ↔ (IsDistinct (ids ns) × ((a : String) → has (ids ns) a ≡ true → has seen a ≡ false))
  unfolding duplicate_errors
  duplicate_errors_iff seen [] = (λ h. (tt, λ a k. cc), λ k. refl)
  duplicate_errors_iff seen (n ∷ ns) = (
    λ h.
        let r = (append_iff _ _).0 h in
        let fresh = (unless_iff (not (has seen n.id)) _).0 r.0 in
        let k = (duplicate_errors_iff (n.id ∷ seen) ns).0 r.1 in
        (
          (ground (arith, k.1 n.id, str_eq_refl n.id), k.0),
          λ a m. elim (Bool-cases (str_eq n.id a)) [
            | inl e ↦ ground (arith, fresh, (eq_iff n.id a).0 e)
            | inr e ↦ ground (arith, k.1 a (ground (arith, m, e)))
          ],
        ),
    λ k. (append_iff _ _).1 (
      (unless_iff _ _).1 (ap not (k.1 n.id (has_head n.id (ids ns)))),
      (duplicate_errors_iff (n.id ∷ seen) ns).1 (
        k.0.1,
        λ a m. elim (Bool-cases (str_eq n.id a)) [
          | inl e ↦ absurd (ground (arith, m, k.0.0, (eq_iff n.id a).0 e))
          | inr e ↦ ground (arith, k.1 a (ground (arith, m)), e)
        ],
      ),
    ),
  )

  end_check_iff :
      (plan : ExecutionPlan F)
      → (each (end_errors (ids plan.nodes)) plan.edges ≡ []) ↔ IsClosed plan
  end_check_iff plan =
      each_iff (end_errors (ids plan.nodes)) plan.edges (end_errors_iff (ids plan.nodes))

  pub index_errors_iff :
      (plan : ExecutionPlan F)
      → (index_errors plan ≡ []) ↔ (IsDistinct (ids plan.nodes) × IsClosed plan)
  unfolding index_errors
  index_errors_iff plan = (
    λ h.
        let r = (append_iff _ _).0 h in
        (((duplicate_errors_iff [] plan.nodes).0 r.0).0, (end_check_iff plan).0 r.1),
    λ k.
        (append_iff _ _).1
          ((duplicate_errors_iff [] plan.nodes).1 (k.0, λ a m. refl), (end_check_iff plan).1 k.1),
  )

  cycle_errors_iff :
      (n : ℕ) (o : Option (List (Node F)))
      → (cycle_errors n (check_order n o) ≡ [])
        ↔ ((order : List (Node F)) × (check_order n o ≡ sorted order))
  unfolding cycle_errors check_order
  cycle_errors_iff n none = (λ h. cc, λ r. cc)
  cycle_errors_iff n (some order) = elim (Bool-cases (length order == n)) [
    | inl e ↦ rw e (λ h. (order, refl), λ r. (unless_iff _ _).1 e)
    | inr e ↦ rw e (λ h. cc, λ r. cc)
  ]

  sort_errors_iff :
      (plan : ExecutionPlan F)
      → (cycle_errors (length plan.nodes) (sort_edges plan (acyclic_edges plan)) ≡ [])
        ↔ ((order : List (Node F)) × (sort_edges plan (acyclic_edges plan) ≡ sorted order))
  unfolding sort_edges
  sort_errors_iff plan = cycle_errors_iff (length plan.nodes) _

  -- The targets of the edges that are left are nodes of the plan, and no LOOPs.
  acyclic_edges-IsAcyclic :
      (plan : ExecutionPlan F)
      → IsClosed plan
      → IsAcyclic (ids plan.nodes) (acyclic_edges plan) ↔ IsRanked plan
  unfolding acyclic_edges
  acyclic_edges-IsAcyclic plan closed = (
    λ (rank, h). (
      rank,
      λ e m out. (h e (keep-Memᴰ _ plan.edges e m (ap not out)) (ground (arith, closed e m))).1,
    ),
    λ (rank, h). (
      rank,
      λ e m there.
          let k = Memᴰ-keep (λ (d : Edge). not (has (loop_ids plan) d.to)) plan.edges e m in
          (ground (arith, closed e k.0), h e k.0 (ground (arith, k.1))),
    ),
  )

  pub acyclic_iff :
      (plan : ExecutionPlan F)
      → IsDistinct (ids plan.nodes)
      → IsClosed plan
      → length plan.edges < 2 ^ 63
      → (cycle_errors (length plan.nodes) (sort_edges plan (acyclic_edges plan)) ≡ [])
        ↔ IsRanked plan
  unfolding sort_edges acyclic_edges
  acyclic_iff plan distinct closed bound =
      let edges = acyclic_edges plan in
      let orders =
        order_iff (record plan { edges = edges }) (reverse plan.nodes)
          (λ t h. has-ids-reverse plan.nodes t ∙ h) distinct
          (omega (
            arith,
            length-keep (λ (e : Edge). not (has (loop_ids plan) e.to)) plan.edges,
            bound,
          )) in
      let ranks = acyclic_edges-IsAcyclic plan closed in
      let sorts = sort_errors_iff plan in
      (λ h. ranks.0 (orders.0 (sorts.0 h)), λ r. sorts.1 (orders.1 (ranks.1 r)))

  pub node_edge_errors_iff :
      (edges : List Edge) (n : Node F)
      → (node_edge_errors edges n ≡ []) ↔ Leads n.op (edges_from edges n.id)
  unfolding node_edge_errors
  node_edge_errors_iff edges n = edge_errors_iff n.op n.id (edges_from edges n.id)

  pub subgraph_errors_iff :
      (deps : List String) (n : Node F) → (subgraph_errors deps n ≡ []) ↔ IsNotSelf deps n
  unfolding subgraph_errors
  subgraph_errors_iff deps n = self_cycle_errors_iff deps n.id (call_target n)

  pub depth_errors_iff :
      (plan : ExecutionPlan F)
      → (depth_errors plan ≡ [])
        ↔ (length (subgraph_dependencies plan.nodes) ≤ plan.metadata.max_recursion_depth)
  unfolding depth_errors
  depth_errors_iff plan =
      (λ h. leb→le _ _ ((unless_iff _ _).0 h), λ k. (unless_iff _ _).1 (ground (arith, k)))

  pub some_node :
      (plan : ExecutionPlan F) (a : String)
      → has (terminal_ids plan) a ≡ true
      → not (is_empty_list plan.nodes) ≡ true
  unfolding terminal_ids
  some_node plan a h = go plan.nodes h
    where
      go :
          (ns : List (Node F))
          → has (ids (keep (λ (n : Node F). is_terminal_opcode n.op) ns)) a ≡ true
          → not (is_empty_list ns) ≡ true
      go [] h = cc
      go (n ∷ ns) h = refl
