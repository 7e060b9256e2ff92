-- ===== src/Compiler/Validate/Pass/Stops.antt =====
-- Where the paths of a plan may stop for tinypipe-compiler/src/validator.rs.
use tinypipe.Prelude.{
  String, true, ◌||◌, List, [], ◌∷◌, ◌++◌, ◌≡◌, ◌↔◌, refl, inl, inr, has, has-append, has_head,
  arith, Bool-cases,
}
use tinypipe.Ir.ExecutionPlan.{ExecutionPlan, Node, Edge, edges_from}
use tinypipe.Compiler.Validate.Errors.{unless_iff}
use tinypipe.Compiler.Validate.Search.{can_reach_any, all_edges, data_edges, collect_reachable_from}
use tinypipe.Compiler.Validate.Search.Laws.{
  From, start, Marks, Marks-From, walk_from-Marks, walk_from_iff, can_reach_any_iff,
}
use tinypipe.Compiler.Validate.Pass.{
  is_empty_list, collect_bodies, body_starts, zero_indegree, reachable, reach_errors, terminal_ids,
  loop_ids, loop_body_ids, extended_terminals, terminal_errors,
}
use tinypipe.Compiler.Validate.Pass.Spec.{Stops, at_terminal, at_loop, in_body, Ends}

-- One search after the other marks what one search from all the starts finds.
collect_bodies-Marks :
    (edges : List Edge) (starts done left visited : List String)
    → ((a : String) → has left a ≡ true → has starts a ≡ true)
    → Marks data_edges edges starts done visited
    → Marks data_edges edges starts (done ++ left) (collect_bodies edges left visited)
unfolding collect_bodies collect_reachable_from
collect_bodies-Marks edges starts done [] visited sub k = record {
  found = k.found;
  settled = k.settled;
  begun = λ a h. k.begun a (ground (arith, h, has-append done [] a));
}
collect_bodies-Marks edges starts done (id ∷ left) visited sub k =
    let next =
      collect_bodies-Marks edges starts (done ++ (id ∷ [])) left _
        (λ a h. sub a (ground (arith, h)))
        (walk_from-Marks data_edges edges starts done (id ∷ []) visited
          (λ a h. sub a (ground (arith, h))) k) in
    record {
      found = next.found;
      settled = next.settled;
      begun = λ a h. next.begun a (
          ground (
            arith,
            h,
            has-append done (id ∷ left) a,
            has-append done (id ∷ []) a,
            has-append (done ++ (id ∷ [])) left a,
          ));
    }

empty_iff : (es : List Edge) → (is_empty_list es ≡ true) ↔ (es ≡ [])
empty_iff [] = (λ h. refl, λ k. refl)
empty_iff (e ∷ es) = (λ h. cc, λ k. cc)

module _ {F : Type 0} where
  loop_body_ids_iff :
      (plan : ExecutionPlan F) (a : String)
      → (has (loop_body_ids plan) a ≡ true)
        ↔ From data_edges plan.edges (body_starts plan.edges (loop_ids plan)) a
  unfolding loop_body_ids
  loop_body_ids_iff plan a =
      let starts = body_starts plan.edges (loop_ids plan) in
      let k =
        collect_bodies-Marks plan.edges starts [] starts [] (λ b h. h)
          (record { found = λ b h. cc; settled = λ e m f h. cc; begun = λ b h. cc }) in
      (k.found a, Marks-From data_edges plan.edges starts _ k a)

  extended_terminals_iff :
      (plan : ExecutionPlan F) (a : String)
      → (has (extended_terminals plan) a ≡ true) ↔ Stops plan a
  unfolding extended_terminals
  extended_terminals_iff plan a = (forth, back)
    where
      forth :
          has (terminal_ids plan ++ (loop_ids plan ++ loop_body_ids plan)) a ≡ true → Stops plan a
      forth h = elim (Bool-cases (has (terminal_ids plan) a)) [
        | inl e ↦ at_terminal e
        | inr e ↦ elim (Bool-cases (has (loop_ids plan) a)) [
          | inl k ↦ at_loop k
          | inr k ↦ in_body (
              (loop_body_ids_iff plan a).0 (
                ground (
                  arith,
                  h,
                  e,
                  k,
                  has-append (terminal_ids plan) (loop_ids plan ++ loop_body_ids plan) a,
                  has-append (loop_ids plan) (loop_body_ids plan) a,
                )))
        ]
      ]

      back :
          Stops plan a → has (terminal_ids plan ++ (loop_ids plan ++ loop_body_ids plan)) a ≡ true
      back (at_terminal h) =
          ground (arith, h, has-append (terminal_ids plan) (loop_ids plan ++ loop_body_ids plan) a)
      back (at_loop h) = ground (
        arith,
        h,
        has-append (terminal_ids plan) (loop_ids plan ++ loop_body_ids plan) a,
        has-append (loop_ids plan) (loop_body_ids plan) a,
      )
      back (in_body r) = ground (
        arith,
        (loop_body_ids_iff plan a).1 r,
        has-append (terminal_ids plan) (loop_ids plan ++ loop_body_ids plan) a,
        has-append (loop_ids plan) (loop_body_ids plan) a,
      )

  pub reach_errors_iff :
      (plan : ExecutionPlan F) (n : Node F)
      → (reach_errors (reachable plan) n ≡ []) ↔ From all_edges plan.edges (zero_indegree plan) n.id
  unfolding reach_errors reachable
  reach_errors_iff plan n = (
    λ h. (walk_from_iff all_edges plan.edges (zero_indegree plan) n.id).0 ((unless_iff _ _).0 h),
    λ r. (unless_iff _ _).1 ((walk_from_iff all_edges plan.edges (zero_indegree plan) n.id).1 r),
  )

  may_stop :
      (plan : ExecutionPlan F) (n : Node F)
      → Stops plan n.id
      → (a : String) × Stops plan a × From all_edges plan.edges (n.id ∷ []) a
  may_stop plan n s = (n.id, s, start n.id (has_head n.id []))

  pub terminal_errors_iff :
      (plan : ExecutionPlan F) (n : Node F) → (terminal_errors plan n ≡ []) ↔ Ends plan n
  unfolding terminal_errors
  terminal_errors_iff plan n = (
    λ h. elim (Bool-cases (has (terminal_ids plan) n.id)) [
      | inl e ↦ inr (may_stop plan n (at_terminal e))
      | inr e ↦ elim (Bool-cases (has (loop_body_ids plan) n.id)) [
        | inl k ↦ inr (may_stop plan n (in_body ((loop_body_ids_iff plan n.id).0 k)))
        | inr k ↦ elim (Bool-cases (is_empty_list (edges_from plan.edges n.id))) [
          | inl z ↦ inl ((empty_iff _).0 z)
          | inr z ↦
              let r = (can_reach_any_iff plan.edges n.id (extended_terminals plan)).0 (
                ground (
                  arith,
                  (unless_iff
                        (has (terminal_ids plan) n.id
                          || has (loop_body_ids plan) n.id
                          || is_empty_list (edges_from plan.edges n.id)
                          || can_reach_any plan.edges n.id (extended_terminals plan))
                        _).0
                      h,
                  e,
                  k,
                  z,
                )) in
              inr (r.0, (extended_terminals_iff plan r.0).0 r.1, r.2)
        ]
      ]
    ],
    λ k. (unless_iff _ _).1 (ends-test plan n k),
  )
    where
      ends-test :
          (plan : ExecutionPlan F) (n : Node F)
          → Ends plan n
          → (has (terminal_ids plan) n.id
              || has (loop_body_ids plan) n.id
              || is_empty_list (edges_from plan.edges n.id)
              || can_reach_any plan.edges n.id (extended_terminals plan))
            ≡ true
      ends-test plan n (inl z) = ground (arith, (empty_iff (edges_from plan.edges n.id)).1 z)
      ends-test plan n (inr (a, s, r)) = ground (
        arith,
        (can_reach_any_iff plan.edges n.id (extended_terminals plan)).1
            (a, (extended_terminals_iff plan a).1 s, r),
      )
