-- ===== src/Ir/ExecutionPlan/Order/Sorted.antt =====
-- Which plans the topological order over text ids sorts (tinypipe-ir/src/plan.rs,
-- tinypipe-compiler/src/validator.rs).
use mathlib.Core.List.{Memᴰ}
use tinypipe.Prelude.{
  ℕ, zero, suc, ◌+◌, ◌<◌, ◌≡◌, sym, subst, String, true, List, [], ◌∷◌, has, length, str_eq, eq_iff,
  ◌⊎◌, NameMap, arith, if◌then◌else◌, Bool-cases, inl, inr,
}
use tinypipe.Ir.ExecutionPlan.{Edge}
use tinypipe.Ir.ExecutionPlan.Order.Count.{zero_live_in, unfinished_pos, zero_unfinished}
use tinypipe.Ir.ExecutionPlan.Order.Sorting.{IsSorted, Inv}

-- where a text first stands in a list
place : List String → String → ℕ
place [] a = 0
place (x ∷ xs) a = if str_eq x a then 0 else 1 + place xs a

-- The source of an edge stands before its target, or was seen before the list.
place_lt :
    (edges : List Edge) (seen xs : List String) (e : Edge)
    → IsSorted edges seen xs
    → Memᴰ e edges
    → has xs e.to ≡ true
    → (has seen e.from ≡ true) ⊎ ((has xs e.from ≡ true) × (place xs e.from < place xs e.to))
unfolding place
place_lt edges seen [] e s m h = cc
place_lt edges seen (x ∷ xs) e s m h = elim (Bool-cases (str_eq x e.to)) [
  | inl q ↦ inl (s.0 e m (sym ((eq_iff x e.to).0 q)))
  | inr q ↦ elim (place_lt edges (x ∷ seen) xs e s.1 m (ground (arith, h, q))) [
    | inl k ↦ elim (Bool-cases (str_eq x e.from)) [
      | inl y ↦ inr (ground (arith, y), ground (arith, y, q))
      | inr y ↦ inl (ground (arith, k, y))
    ]
    | inr (k, lt) ↦ inr (ground (arith, k), ground (arith, lt, q))
  ]
]

-- For some rank, each edge to a node of the plan comes from a node of the plan with a lower rank.
abbrev pub IsAcyclic : List String → List Edge → Type 0
IsAcyclic names edges =
    (rank : String → ℕ) × ((e : Edge)
      → Memᴰ e edges
      → has names e.to ≡ true
      → (has names e.from ≡ true) × (rank e.from < rank e.to))

module _ (names : List String) (edges : List Edge) (d : NameMap ℕ) (result : List String)
    (inv : Inv names edges [] d [] result) where
  pub all_done :
      length result ≡ length names → (i : String) → has names i ≡ true → has result i ≡ true
  all_done full i h = elim (Bool-cases (has result i)) [
    | inl q ↦ q
    | inr q ↦ absurd (omega (arith, inv.count, unfinished_pos names result i h q))
  ]

  pub full-IsAcyclic : length result ≡ length names → IsAcyclic names edges
  full-IsAcyclic full = (
    place result,
    λ e m h. elim (place_lt edges [] result e inv.sorted m (all_done full e.to h)) [
      | inl k ↦ absurd (ground (arith, k))
      | inr (k, lt) ↦ ((inv.done e.from k).0, lt)
    ],
  )

  -- A node whose predecessors are done is done.
  next_done :
      (acyclic : IsAcyclic names edges) (i : String)
      → has names i ≡ true
      → ((j : String) → has names j ≡ true → acyclic.0 j < acyclic.0 i → has result j ≡ true)
      → has result i ≡ true
  next_done acyclic i h below =
      let none_left = zero_live_in edges result i (λ e m p.
        let r = acyclic.1 e m (rw p h) in
        below e.from r.0 (subst (λ (t : String). acyclic.0 e.from < acyclic.0 t) p r.1)) in
      ground (arith, inv.found i h (omega (arith, none_left)))

  rank_done :
      (acyclic : IsAcyclic names edges) (bound : ℕ) (i : String)
      → acyclic.0 i < bound
      → has names i ≡ true
      → has result i ≡ true
  rank_done acyclic zero i b h = absurd (omega arith)
  rank_done acyclic (suc bound) i b h =
      next_done acyclic i h (λ j k less. rank_done acyclic bound j (omega (arith, b, less)) k)

  pub acyclic_full : IsAcyclic names edges → length result ≡ length names
  acyclic_full acyclic = omega (
    arith,
    inv.count,
    zero_unfinished names result (λ i h. rank_done acyclic (acyclic.0 i + 1) i (omega arith) h),
  )
