-- ===== src/Compiler/Validate/Search/Laws.antt =====
-- What the searches of tinypipe-compiler/src/validator.rs find.
use mathlib.Core.List.{Memᴰ}
use mathlib.Core.List.Memᴰ
use mathlib.Core.Bool.{and-eq-true_iff}
use tinypipe.Prelude.{
  ℕ, zero, suc, ◌+◌, ◌≤◌, ◌≡◌, refl, sym, subst, String, Bool, true, false, ◌&&◌, ◌||◌, List, [],
  ◌∷◌, ◌++◌, has, has-append, has_head, any, length, length-append, str_eq, eq_iff, if◌then◌else◌,
  arith, Bool-cases, inl, inr, ◌↔◌,
}
use tinypipe.Ir.ExecutionPlan.{Edge, edges_from}
use tinypipe.Compiler.Validate.Search.{
  targets, all_edges, enqueue, mark, walk, walk_from, seek, can_reach_any,
}

-- A start, or the target of an edge to follow that leaves such a node.
pub data From (follow : Edge → Bool) (edges : List Edge) (starts : List String)
    : String → Type 0 where
  start : (a : String) → has starts a ≡ true → From follow edges starts a
  along :
      (e : Edge)
      → Memᴰ e edges
      → follow e ≡ true
      → From follow edges starts e.from
      → From follow edges starts e.to

-- the edges whose source has not been visited
unvisited : List Edge → List String → ℕ
unvisited [] visited = 0
unvisited (e ∷ es) visited = (if has visited e.from then 0 else 1) + unvisited es visited

unvisited_le : (es : List Edge) (visited : List String) → unvisited es visited ≤ length es
unfolding unvisited
unvisited_le [] visited = omega arith
unvisited_le (e ∷ es) visited = ground (arith, unvisited_le es visited)

has-mark :
    (id a : String) (visited : List String)
    → has (mark id visited) a ≡ (str_eq id a || has visited a)
unfolding mark
has-mark id a visited = elim (Bool-cases (has visited id)) [
  | inl h ↦ elim (Bool-cases (str_eq id a)) [
    | inl e ↦ ground (arith, h, e, (eq_iff id a).0 e)
    | inr e ↦ ground (arith, h, e)
  ]
  | inr h ↦ ground (arith, h)
]

module _ (follow : Edge → Bool) where
  targets-has :
      (es : List Edge) (e : Edge)
      → Memᴰ e es
      → follow e ≡ true
      → has (targets follow es e.from) e.to ≡ true
  unfolding targets edges_from
  targets-has [] e m f = absurd (Memᴰ.not-nil m)
  targets-has (d ∷ es) e (Memᴰ.head p) f =
      ground (arith, p, f, (eq_iff e.from e.from).1 refl, (eq_iff e.to e.to).1 refl)
  targets-has (d ∷ es) e (Memᴰ.tail m) f = ground (arith, targets-has es e m f)

  length-targets :
      (es : List Edge) (id : String) (visited : List String)
      → has visited id ≡ false
      → length (targets follow es id) + unvisited es (id ∷ visited) ≤ unvisited es visited
  unfolding targets edges_from unvisited
  length-targets [] id visited h = omega arith
  length-targets (e ∷ es) id visited h =
      ground (arith, length-targets es id visited h, eq_iff e.from id, h, eq_iff id e.from)

  module _ (edges : List Edge) (starts : List String) where
    targets-From :
        (es : List Edge) (id a : String)
        → ((e : Edge) → Memᴰ e es → Memᴰ e edges)
        → From follow edges starts id
        → has (targets follow es id) a ≡ true
        → From follow edges starts a
    unfolding targets edges_from
    targets-From [] id a sub r h = cc
    targets-From (e ∷ es) id a sub r h =
        elim (Bool-cases (str_eq e.from id && (follow e && str_eq e.to a))) [
          | inl k ↦
              let k1 = and-eq-true_iff (str_eq e.from id) (follow e && str_eq e.to a) in
              let k2 = and-eq-true_iff (follow e) (str_eq e.to a) in
              subst (From follow edges starts) ((eq_iff _ _).0 (k2.0 (k1.0 k).1).1) (
                along e (sub e (Memᴰ.head refl)) (k2.0 (k1.0 k).1).0
                  (subst (From follow edges starts) (sym ((eq_iff e.from id).0 (k1.0 k).0)) r))
          | inr k ↦ targets-From es id a (λ d m. sub d (Memᴰ.tail m)) r (ground (arith, h, k))
        ]

    -- What has been visited, or waits, can be reached.
    record IsSound (queue visited : List String) : Type 0 where
      pub found : (a : String) → has visited a ≡ true → From follow edges starts a
      pub waiting : (a : String) → has queue a ≡ true → From follow edges starts a

    step-IsSound :
        (id : String) (queue visited : List String)
        → IsSound (id ∷ queue) visited
        → IsSound (enqueue follow edges id queue visited) (mark id visited)
    unfolding enqueue
    step-IsSound id queue visited s = record {
      found = λ a h. elim (Bool-cases (str_eq id a)) [
        | inl e ↦ s.waiting a (ground (arith, e))
        | inr e ↦ s.found a (ground (arith, h, e, has-mark id a visited))
      ];
      waiting = λ a h. elim (Bool-cases (has queue a)) [
        | inl e ↦ s.waiting a (ground (arith, e))
        | inr e ↦
            targets-From edges id a (λ d m. m) (s.waiting id (has_head id queue))
              (ground (arith, h, e, has-append queue (targets follow edges id) a))
      ];
    }

    walk-IsSound :
        (fuel : ℕ) (queue visited : List String)
        → IsSound queue visited
        → (a : String) → has (walk fuel follow edges queue visited) a ≡ true
        → From follow edges starts a
    unfolding walk
    walk-IsSound zero queue visited s = s.found
    walk-IsSound (suc fuel) [] visited s = s.found
    walk-IsSound (suc fuel) (id ∷ queue) visited s =
        walk-IsSound fuel _ _ (step-IsSound id queue visited s)

  module _ (edges : List Edge) where
    -- The target of an edge whose source has been visited has been visited, or waits.
    abbrev IsSettled : List String → List String → Type 0
    IsSettled queue visited =
        (e : Edge)
        → Memᴰ e edges
        → follow e ≡ true
        → has visited e.from ≡ true
        → (has queue e.to || has visited e.to) ≡ true

    step-IsSettled :
        (id : String) (queue visited : List String)
        → IsSettled (id ∷ queue) visited
        → IsSettled (enqueue follow edges id queue visited) (mark id visited)
    unfolding enqueue
    step-IsSettled id queue visited s e m f h = elim (Bool-cases (has visited e.from)) [
      | inl k ↦ ground (
        arith,
        s e m f k,
        has-mark id e.to visited,
        has-append queue (targets follow edges id) e.to,
      )
      | inr k ↦ ground (
        arith,
        h,
        k,
        has-mark id e.from visited,
        has-mark id e.to visited,
        eq_iff id e.from,
        has-append queue (targets follow edges id) e.to,
        targets-has edges e m f,
      )
    ]

    step-size :
        (id : String) (queue visited : List String)
        → length (enqueue follow edges id queue visited) + unvisited edges (mark id visited)
          ≤ length queue + unvisited edges visited
    unfolding enqueue mark
    step-size id queue visited = elim (Bool-cases (has visited id)) [
      | inl h ↦ rw h (omega arith)
      | inr h ↦
          rw (h, length-append queue (targets follow edges id))
            (omega (arith, length-targets edges id visited h))
    ]

    walk-IsSettled :
        (fuel : ℕ) (queue visited : List String)
        → IsSettled queue visited
        → length queue + unvisited edges visited ≤ fuel
        → IsSettled [] (walk fuel follow edges queue visited)
    unfolding walk
    walk-IsSettled zero [] visited s enough = s
    walk-IsSettled zero (id ∷ queue) visited s enough = absurd (ground (arith, enough))
    walk-IsSettled (suc fuel) [] visited s enough = s
    walk-IsSettled (suc fuel) (id ∷ queue) visited s enough =
        walk-IsSettled fuel _ _ (step-IsSettled id queue visited s)
          (omega (arith, step-size id queue visited, enough))

    step-keeps :
        (id : String) (queue visited : List String) (a : String)
        → (has (id ∷ queue) a || has visited a) ≡ true
        → (has (enqueue follow edges id queue visited) a || has (mark id visited) a) ≡ true
    unfolding enqueue
    step-keeps id queue visited a h =
        ground (arith, h, has-mark id a visited, has-append queue (targets follow edges id) a)

    -- What waits will have been visited, and so will what has been.
    walk-has :
        (fuel : ℕ) (queue visited : List String) (a : String)
        → length queue + unvisited edges visited ≤ fuel
        → (has queue a || has visited a) ≡ true
        → has (walk fuel follow edges queue visited) a ≡ true
    unfolding walk
    walk-has zero [] visited a enough h = h
    walk-has zero (id ∷ queue) visited a enough h = absurd (ground (arith, enough))
    walk-has (suc fuel) [] visited a enough h = h
    walk-has (suc fuel) (id ∷ queue) visited a enough h =
        walk-has fuel _ _ a (omega (arith, step-size id queue visited, enough))
          (step-keeps id queue visited a h)

  -- what a search knows that began at `done` and may go on from the rest of `starts`
  pub record Marks (edges : List Edge) (starts done visited : List String) : Type 0 where
    pub found : (a : String) → has visited a ≡ true → From follow edges starts a
    pub settled : IsSettled edges [] visited
    pub begun : (a : String) → has done a ≡ true → has visited a ≡ true

  pub Marks-From :
      (edges : List Edge) (starts visited : List String)
      → Marks edges starts starts visited
      → (a : String) → From follow edges starts a
      → has visited a ≡ true
  Marks-From edges starts visited k a (start _ h) = k.begun a h
  Marks-From edges starts visited k _ (along e m f r) =
      k.settled e m f (Marks-From edges starts visited k e.from r)

  pub walk_from-Marks :
      (edges : List Edge) (starts done queue visited : List String)
      → ((a : String) → has queue a ≡ true → has starts a ≡ true)
      → Marks edges starts done visited
      → Marks edges starts (done ++ queue) (walk_from follow edges queue visited)
  unfolding walk_from
  walk_from-Marks edges starts done queue visited sub k = record {
    found =
        walk-IsSound edges starts _ queue visited
          (record { found = k.found; waiting = λ a h. start a (sub a h) });
    settled =
        walk-IsSettled edges _ queue visited (λ e m f h. ground (arith, k.settled e m f h))
          (omega (arith, unvisited_le edges visited));
    begun = λ a h.
        walk-has edges _ queue visited a (omega (arith, unvisited_le edges visited))
          (elim (Bool-cases (has done a)) [
            | inl e ↦ ground (arith, k.begun a e)
            | inr e ↦ ground (arith, h, e, has-append done queue a)
          ]);
  }

  pub walk_from_iff :
      (edges : List Edge) (starts : List String) (a : String)
      → (has (walk_from follow edges starts []) a ≡ true) ↔ From follow edges starts a
  walk_from_iff edges starts a =
      let k =
        walk_from-Marks edges starts [] starts [] (λ b h. h)
          (record { found = λ b h. cc; settled = λ e m f h. cc; begun = λ b h. cc }) in
      (k.found a, Marks-From edges starts (walk_from follow edges starts []) k a)

-- `can_reach_any` looks for a target among what the search visits.
any-walk :
    (fuel : ℕ) (edges : List Edge) (goals queue visited : List String)
    → any (has goals) (walk fuel all_edges edges queue visited)
      ≡ (any (has goals) visited || seek fuel edges goals queue visited)
unfolding walk seek mark
any-walk zero edges goals queue visited = ground arith
any-walk (suc fuel) edges goals [] visited = ground arith
any-walk (suc fuel) edges goals (id ∷ queue) visited =
    let rest =
      any-walk fuel edges goals (enqueue all_edges edges id queue visited) (mark id visited) in
    ground (arith, rest)

any-has :
    (goals xs : List String)
    → any (has goals) xs ≡ true
    → (a : String) × (has goals a ≡ true) × (has xs a ≡ true)
any-has goals [] h = cc
any-has goals (x ∷ xs) h = elim (Bool-cases (has goals x)) [
  | inl e ↦ (x, e, has_head x xs)
  | inr e ↦ let r = any-has goals xs (ground (arith, h, e)) in (r.0, r.1, ground (arith, r.2))
]

has-any :
    (goals xs : List String) (a : String)
    → has goals a ≡ true
    → has xs a ≡ true
    → any (has goals) xs ≡ true
has-any goals [] a g h = cc
has-any goals (x ∷ xs) a g h = elim (Bool-cases (str_eq x a)) [
  | inl e ↦ ground (arith, g, (eq_iff x a).0 e)
  | inr e ↦ ground (arith, has-any goals xs a g, h, e)
]

-- `can_reach_any` answers true if and only if one of the targets is the start or the end of a path of
-- edges from it, for all edges, cycles included; so its fuel is enough.
pub can_reach_any_iff :
    (edges : List Edge) (first : String) (goals : List String)
    → (can_reach_any edges first goals ≡ true)
      ↔ ((a : String) × (has goals a ≡ true) × From all_edges edges (first ∷ []) a)
unfolding can_reach_any walk_from
can_reach_any_iff edges first goals =
    let walked = any-walk (1 + length edges) edges goals (first ∷ []) [] in
    (
      λ h.
          let r =
            any-has goals (walk_from all_edges edges (first ∷ []) []) (ground (arith, walked, h)) in
          (r.0, r.1, (walk_from_iff all_edges edges (first ∷ []) r.0).0 r.2),
      λ r. ground (
        arith,
        walked,
        has-any goals (walk_from all_edges edges (first ∷ []) []) r.0 r.1
            ((walk_from_iff all_edges edges (first ∷ []) r.0).1 r.2),
      ),
    )
