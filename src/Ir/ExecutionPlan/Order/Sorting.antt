-- ===== src/Ir/ExecutionPlan/Order/Sorting.antt =====
-- The loop invariant of the topological orders over text ids (tinypipe-ir/src/plan.rs,
-- tinypipe-compiler/src/validator.rs).
use mathlib.Core.List.{Memᴰ}
use tinypipe.Prelude.{
  ℕ, ◌+◌, ◌<◌, ◌^◌, ◌≡◌, refl, ap, ◌∙◌, subst, String, true, false, ◌||◌, ◌==◌, none, some, List,
  [], ◌∷◌, ◌++◌, has, has-append, has_head, length, length-append, str_eq, eq_iff, str_eq_refl,
  NameMap, get_name, put_name, get_name-put_name, arith, Bool-cases, inl, inr,
}
use tinypipe.Ir.ExecutionPlan.{Node, Edge, ids, edges_from}
use tinypipe.Ir.ExecutionPlan.Order.{Sort, pred_usize, push_node, find_id, release, release_all}
use tinypipe.Ir.ExecutionPlan.Order.Count.{
  IsDistinct, live_in, into, unfinished, live_in_le, into_le, live_in-append, live_in_zero,
  unfinished-append,
}

-- Each node stands behind the sources of its incoming edges.
abbrev pub IsSorted : List Edge → List String → List String → Type 0
IsSorted edges seen [] = Unit
IsSorted edges seen (id ∷ rest) =
    ((e : Edge) → Memᴰ e edges → e.to ≡ id → has seen e.from ≡ true)
    × IsSorted edges (id ∷ seen) rest

IsSorted-append :
    (edges : List Edge) (seen xs : List String) (id : String)
    → IsSorted edges seen xs
    → ((e : Edge) → Memᴰ e edges → e.to ≡ id → (has seen e.from || has xs e.from) ≡ true)
    → IsSorted edges seen (xs ++ id ∷ [])
IsSorted-append edges seen [] id h k = (λ e m p. ground (arith, k e m p), tt)
IsSorted-append edges seen (x ∷ xs) id h k =
    (h.0, IsSorted-append edges (x ∷ seen) xs id h.1 (λ e m p. ground (arith, k e m p)))

pred_usize_lem : (c : ℕ) → c + 1 < 2 ^ 64 → pred_usize (c + 1) ≡ c
pred_usize_lem c k = omega arith

module _ {F : Type 0} where
  find_id-some :
      (ns : List (Node F)) (t : String)
      → has (ids ns) t ≡ true
      → (n : Node F) × (find_id ns t ≡ some n) × (n.id ≡ t)
  unfolding find_id
  find_id-some [] t h = cc
  find_id-some (n ∷ ns) t h = elim (Bool-cases (str_eq n.id t)) [
    | inl e ↦ (n, rw e refl, (eq_iff n.id t).0 e)
    | inr e ↦ let r = find_id-some ns t (ground (arith, h, e)) in (r.0, rw e r.1, r.2)
  ]

module _ (names : List String) (edges : List Edge) where
  -- While the edges `es` of the popped node are still to be looked at.
  pub record Inv (es : List Edge) (d : NameMap ℕ) (queue result : List String) : Type 0 where
    pub deg :
        (t : String) → has names t ≡ true → get_name t d ≡ some (live_in edges result t + into es t)
    pub stranger : (t : String) → has names t ≡ false → get_name t d ≡ none
    pub queued :
        (i : String)
        → has queue i ≡ true
        → (has names i ≡ true) × (live_in edges result i + into es i ≡ 0) × (has result i ≡ false)
    pub done :
        (i : String)
        → has result i ≡ true
        → (has names i ≡ true) × (live_in edges result i + into es i ≡ 0)
    pub found :
        (i : String)
        → has names i ≡ true
        → live_in edges result i + into es i ≡ 0
        → (has queue i || has result i) ≡ true
    pub nodup : IsDistinct queue
    pub count : length result + unfinished names result ≡ length names
    pub sorted : IsSorted edges [] result

  module _ (e : Edge) (es : List Edge) (d : NameMap ℕ) (queue result : List String)
      (inv : Inv (e ∷ es) d queue result) where
    abbrev t : String
    t = e.to

    -- the target is no node of the plan
    skip_edge : has names t ≡ false → Inv es d queue result
    skip_edge h = record {
      deg = λ i m. ground (arith, inv.deg i m, h, m, eq_iff t i);
      stranger = inv.stranger;
      queued = λ i q. let k = inv.queued i q in (k.0, omega (arith, k.1), k.2);
      done = λ i q. let k = inv.done i q in (k.0, omega (arith, k.1));
      found = λ i m z. inv.found i m (ground (arith, z, h, m, eq_iff t i));
      nodup = inv.nodup;
      count = inv.count;
      sorted = inv.sorted;
    }

    module _ (h : has names t ≡ true) where
      abbrev left : ℕ
      left = live_in edges result t + into es t

      old_deg : get_name t d ≡ some (left + 1)
      old_deg = ground (arith, inv.deg t h, str_eq_refl t)

      lowered : NameMap ℕ
      lowered = put_name t left d

      get_lowered :
          (i : String)
          → has names i ≡ true
          → get_name i lowered ≡ some (live_in edges result i + into es i)
      unfolding lowered
      get_lowered i m = elim (Bool-cases (str_eq t i)) [
        | inl q ↦ ground (arith, get_name-put_name t i left d, q, (eq_iff t i).0 q)
        | inr q ↦ ground (arith, get_name-put_name t i left d, q, inv.deg i m)
      ]

      lowered_stranger : (i : String) → has names i ≡ false → get_name i lowered ≡ none
      unfolding lowered
      lowered_stranger i m =
          ground (arith, get_name-put_name t i left d, inv.stranger i m, eq_iff t i, h, m)

      -- a node with nothing left is not the target
      other : (i : String) → live_in edges result i + into (e ∷ es) i ≡ 0 → str_eq t i ≡ false
      other i z = ground (arith, z)

      not_queued : has queue t ≡ false
      not_queued = elim (Bool-cases (has queue t)) [
        | inl q ↦ absurd (ground (arith, other t (inv.queued t q).1, str_eq_refl t))
        | inr q ↦ q
      ]

      not_done : has result t ≡ false
      not_done = elim (Bool-cases (has result t)) [
        | inl q ↦ absurd (ground (arith, other t (inv.done t q).1, str_eq_refl t))
        | inr q ↦ q
      ]

      -- the target has more predecessors
      keep_queue : (left == 0) ≡ false → Inv es lowered queue result
      keep_queue z = record {
        deg = get_lowered;
        stranger = lowered_stranger;
        queued = λ i q. let k = inv.queued i q in (k.0, omega (arith, k.1), k.2);
        done = λ i q. let k = inv.done i q in (k.0, omega (arith, k.1));
        found = λ i m y. elim (Bool-cases (str_eq t i)) [
          | inl q ↦ absurd (ground (arith, (eq_iff t i).0 q, y, z))
          | inr q ↦ inv.found i m (ground (arith, q, y))
        ];
        nodup = inv.nodup;
        count = inv.count;
        sorted = inv.sorted;
      }

      -- the target has no predecessor left
      push_queue : (left == 0) ≡ true → Inv es lowered (t ∷ queue) result
      push_queue z = record {
        deg = get_lowered;
        stranger = lowered_stranger;
        queued = λ i q. elim (Bool-cases (str_eq t i)) [
          | inl y ↦
              subst
                (λ j.
                  (has names j ≡ true)
                  × (live_in edges result j + into es j ≡ 0)
                  × (has result j ≡ false))
                ((eq_iff t i).0 y) (h, ground (arith, z), not_done)
          | inr y ↦ let k = inv.queued i (ground (arith, q, y)) in (k.0, omega (arith, k.1), k.2)
        ];
        done = λ i q. let k = inv.done i q in (k.0, omega (arith, k.1));
        found = λ i m y. elim (Bool-cases (str_eq t i)) [
          | inl q ↦ ground (arith, q)
          | inr q ↦ ground (arith, inv.found i m (ground (arith, q, y)))
        ];
        nodup = (not_queued, inv.nodup);
        count = inv.count;
        sorted = inv.sorted;
      }

  module _ (id : String) (d : NameMap ℕ) (rest result : List String)
      (inv : Inv [] d (id ∷ rest) result) where
    popped : (has names id ≡ true) × (live_in edges result id + 0 ≡ 0) × (has result id ≡ false)
    popped = inv.queued id (has_head id rest)

    sources_done : (e : Edge) → Memᴰ e edges → e.to ≡ id → has result e.from ≡ true
    sources_done e m p = live_in_zero edges result e m (rw p (omega (arith, popped.1)))

    moved :
        (t : String)
        → live_in edges result t
          ≡ live_in edges (result ++ id ∷ []) t + into (edges_from edges id) t
    moved t = live_in-append edges result id t popped.2

    -- The popped node goes to the result.
    pub pop-Inv : IsDistinct names → Inv (edges_from edges id) d rest (result ++ id ∷ [])
    pop-Inv distinct = record {
      deg = λ t m. inv.deg t m ∙ ap some (omega (arith, moved t));
      stranger = inv.stranger;
      queued = λ i q.
          let k = inv.queued i (ground (arith, q)) in
          (
            k.0,
            omega (arith, moved i, k.1),
            ground (arith, has-append result (id ∷ []) i, k.2, inv.nodup.0, q, eq_iff id i),
          );
      done = λ i q. elim (Bool-cases (has result i)) [
        | inl e ↦ let k = inv.done i e in (k.0, omega (arith, moved i, k.1))
        | inr e ↦
            subst
              (λ j.
                (has names j ≡ true)
                × (live_in edges (result ++ id ∷ []) j + into (edges_from edges id) j ≡ 0))
              ((eq_iff id i).0 (ground (arith, has-append result (id ∷ []) i, q, e)))
              (popped.0, omega (arith, moved id, popped.1))
      ];
      found = λ i m z.
          ground (arith, inv.found i m (omega (arith, moved i, z)), has-append result (id ∷ []) i);
      nodup = inv.nodup.1;
      count = omega (
        arith,
        inv.count,
        length-append {0} result (id ∷ []),
        unfinished-append names result id distinct popped.0 popped.2,
      );
      sorted =
          IsSorted-append edges [] result id inv.sorted
            (λ e m p. ground (arith, sources_done e m p));
    }

    -- One more node is done.
    pub pop_left :
        IsDistinct names → unfinished names result ≡ 1 + unfinished names (result ++ id ∷ [])
    pop_left distinct = unfinished-append names result id distinct popped.0 popped.2

  module _ {F : Type 0} (nodes : List (Node F))
      (named : (t : String) → has names t ≡ true → has (ids nodes) t ≡ true)
      (bound : length edges < 2 ^ 63) where
    abbrev InvOf : List Edge → Sort F → Type 0
    InvOf es s = Inv es s.in_degree (ids s.queue) (ids s.result)

    release-Inv :
        (e : Edge) (es : List Edge) (s : Sort F)
        → length es < 2 ^ 63
        → InvOf (e ∷ es) s
        → InvOf es (release nodes e s)
    unfolding release lowered push_node
    release-Inv e es s small inv = elim (Bool-cases (has names e.to)) [
      | inr h ↦
          rw (release, inv.stranger e.to h)
            (skip_edge e es s.in_degree (ids s.queue) (ids s.result) inv h)
      | inl h ↦
          let left = live_in edges (ids s.result) e.to + into es e.to in
          let small_left =
            pred_usize_lem left (
              omega (arith, live_in_le edges (ids s.result) e.to, into_le es e.to, small, bound)) in
          let (n, there, same) = find_id-some nodes e.to (named e.to h) in
          rw (release, old_deg e es s.in_degree (ids s.queue) (ids s.result) inv h, small_left)
            (elim (Bool-cases (left == 0)) [
              | inl z ↦
                  rw (z, there, same)
                    (push_queue e es s.in_degree (ids s.queue) (ids s.result) inv h z)
              | inr z ↦ rw z (keep_queue e es s.in_degree (ids s.queue) (ids s.result) inv h z)
            ])
    ]

    pub release_all-Inv :
        (es : List Edge) (s : Sort F)
        → length es < 2 ^ 63
        → InvOf es s
        → InvOf [] (release_all nodes es s)
    unfolding release_all
    release_all-Inv [] s small inv = inv
    release_all-Inv (e ∷ es) s small inv =
        release_all-Inv es (release nodes e s) (omega (arith, small))
          (release-Inv e es s (omega (arith, small)) inv)
