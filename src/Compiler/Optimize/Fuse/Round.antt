-- ===== src/Compiler/Optimize/Fuse/Round.antt =====
-- What one round of `calc_fusion` of tinypipe-compiler/src/backend/optimize.rs makes of the nodes.
use mathlib.Core.List.{Memᴰ}
use mathlib.Core.List.Memᴰ
use tinypipe.Prelude.{
  ◌≡◌, refl, sym, ap, ◌∙◌, subst, String, Bool, true, false, not, ◌||◌, List, [], ◌∷◌, has,
  keep-Memᴰ, length, eq_iff, NameMap, arith, Bool-cases, inl, inr,
}
use tinypipe.Ir.Plan.{is_calc}
use tinypipe.Ir.ExecutionPlan.{Node, Edge, ids}
use tinypipe.Ir.ExecutionPlan.Order.Count.{IsDistinct, unfinished}
use tinypipe.Compiler.Optimize.Fuse.{
  Inlining, definitions, node_inlining, with_expr, fuse_nodes, without,
}
use tinypipe.Compiler.Optimize.Fuse.Tracks.{IsCalcId, one_node-Tracks, fuse_nodes-Tracks}

module _ {F : Type 0} where
  has-Memᴰ : (ns : List (Node F)) (n : Node F) → Memᴰ n ns → has (ids ns) n.id ≡ true
  has-Memᴰ [] n m = absurd (Memᴰ.not-nil m)
  has-Memᴰ (x ∷ ns) n (Memᴰ.head e) = ground (arith, ap (λ (d : Node F). d.id) e, eq_iff x.id n.id)
  has-Memᴰ (x ∷ ns) n (Memᴰ.tail m) = ground (arith, has-Memᴰ ns n m)

  -- Where the ids are distinct, an id tells the node.
  pub same_id :
      (ns : List (Node F)) (a b : Node F)
      → IsDistinct (ids ns)
      → Memᴰ a ns
      → Memᴰ b ns
      → a.id ≡ b.id
      → a ≡ b
  same_id [] a b d m k e = absurd (Memᴰ.not-nil m)
  same_id (x ∷ ns) a b d (Memᴰ.head p) (Memᴰ.head q) e = p ∙ sym q
  same_id (x ∷ ns) a b d (Memᴰ.head p) (Memᴰ.tail k) e =
      absurd (ground (arith, d.0, has-Memᴰ ns b k, e, ap (λ (n : Node F). n.id) p))
  same_id (x ∷ ns) a b d (Memᴰ.tail m) (Memᴰ.head q) e =
      absurd (ground (arith, d.0, has-Memᴰ ns a m, e, ap (λ (n : Node F). n.id) q))
  same_id (x ∷ ns) a b d (Memᴰ.tail m) (Memᴰ.tail k) e = same_id ns a b d.1 m k e

  pub has-IsCalcId :
      (nodes : List (Node F)) (a : String) → IsCalcId nodes a → has (ids nodes) a ≡ true
  has-IsCalcId nodes a (d, m, calc, same) =
      subst (λ b. has (ids nodes) b ≡ true) same (has-Memᴰ nodes d m)

  pub length-without :
      (removed : List String) (ns : List (Node F))
      → length (without removed ns) ≡ unfinished (ids ns) removed
  unfolding without
  length-without removed [] = refl
  length-without removed (n ∷ ns) = ground (arith, length-without removed ns)

  with_expr-id : (st : Inlining) (n : Node F) → (with_expr st n).id ≡ n.id
  unfolding with_expr
  with_expr-id st n = elim (Bool-cases st.changed) [ inl e ↦ rw e refl | inr e ↦ rw e refl ]

  -- A node that is no CALC stays as it is.
  with_expr-other :
      (names : List String) (edges : List Edge) (defs : NameMap (Node F)) (n : Node F)
      (removed : List String)
      → is_calc n.op ≡ false
      → with_expr (node_inlining names edges defs n removed) n ≡ n
  unfolding with_expr node_inlining
  with_expr-other names edges defs n removed h = rw (node_inlining, h) refl

  ids-without-cons :
      (removed : List String) (a b : Node F) (xs ys : List (Node F))
      → a.id ≡ b.id
      → ids (without removed xs) ≡ ids (without removed ys)
      → ids (without removed (a ∷ xs)) ≡ ids (without removed (b ∷ ys))
  unfolding without
  ids-without-cons removed a b xs ys e h = elim (Bool-cases (has removed b.id)) [
    | inl k ↦ rw (e, k) h
    | inr k ↦ rw (e, k) (ap (λ s. b.id ∷ s) h)
  ]

  ids-without-drop :
      (removed : List String) (n : Node F) (ns : List (Node F))
      → has removed n.id ≡ true
      → ids (without removed ns) ≡ ids (without removed (n ∷ ns))
  unfolding without
  ids-without-drop removed n ns h = rw h refl

  not_dropped :
      (final : List String) (n x : Node F) (ns rest : List (Node F))
      → Memᴰ n (x ∷ ns)
      → has final x.id ≡ true
      → has final n.id ≡ false
      → (Memᴰ n ns → Memᴰ n rest)
      → Memᴰ n rest
  not_dropped final n x ns rest (Memᴰ.head p) gone out f =
      absurd (ground (arith, gone, out, ap (λ (d : Node F). has final d.id) p))
  not_dropped final n x ns rest (Memᴰ.tail m) gone out f = f m

  taken_over :
      (n x y : Node F) (ns rest : List (Node F))
      → Memᴰ n (x ∷ ns)
      → is_calc n.op ≡ false
      → (is_calc x.op ≡ false → y ≡ x)
      → (Memᴰ n ns → Memᴰ n rest)
      → Memᴰ n (y ∷ rest)
  taken_over n x y ns rest (Memᴰ.head p) h same f =
      Memᴰ.head (p ∙ sym (same (subst (λ (d : Node F). is_calc d.op ≡ false) p h)))
  taken_over n x y ns rest (Memᴰ.tail m) h same f = Memᴰ.tail (f m)

  module _ (nodes : List (Node F)) (names : List String) (edges : List Edge)
      (final : List String) where
    abbrev pub fused : List (Node F) → List String → List (Node F) × List String × Bool
    fused ns removed = fuse_nodes names edges (definitions nodes []) ns removed

    nothing : (removed : List String) → fused [] removed ≡ ([], removed, false)
    unfolding fuse_nodes
    nothing removed = refl

    skipped :
        (n : Node F) (ns : List (Node F)) (removed : List String)
        → has removed n.id ≡ true
        → fused (n ∷ ns) removed ≡ fused ns removed
    unfolding fuse_nodes
    skipped n ns removed e = rw e refl

    abbrev inlined : Node F → List String → Inlining
    inlined n removed = node_inlining names edges (definitions nodes []) n removed

    taken :
        (n : Node F) (ns : List (Node F)) (removed : List String)
        → has removed n.id ≡ false
        → fused (n ∷ ns) removed ≡ (
          with_expr (inlined n removed) n ∷ (fused ns (inlined n removed).to_remove).0,
          (fused ns (inlined n removed).to_remove).1,
          (inlined n removed).changed || (fused ns (inlined n removed).to_remove).2,
        )
    unfolding fuse_nodes
    taken n ns removed e = rw e refl

    module _ (known : (a : String) → has final a ≡ true → IsCalcId nodes a) where
      -- What is final contains what has been noted down.
      abbrev pub IsNoted : List (Node F) → List String → Type 0
      IsNoted ns removed =
          ((a : String) → has removed a ≡ true → IsCalcId nodes a)
          × IsDistinct removed
          × ((a : String) → has (fused ns removed).1 a ≡ true → has final a ≡ true)

      IsNoted-skipped :
          (n : Node F) (ns : List (Node F)) (removed : List String)
          → has removed n.id ≡ true
          → IsNoted (n ∷ ns) removed
          → IsNoted ns removed × (has final n.id ≡ true)
      IsNoted-skipped n ns removed e k = (
        (k.0, k.1, λ a m. k.2 a (rw (skipped n ns removed e) m)),
        k.2 n.id ((fuse_nodes-Tracks nodes names edges (n ∷ ns) removed k.0 k.1).grows n.id e),
      )

      IsNoted-taken :
          (n : Node F) (ns : List (Node F)) (removed : List String)
          → has removed n.id ≡ false
          → IsNoted (n ∷ ns) removed
          → IsNoted ns (inlined n removed).to_remove
      IsNoted-taken n ns removed e k =
          let here = one_node-Tracks nodes names edges n removed k.0 k.1 in
          (here.known, here.distinct, λ a m. k.2 a (rw (taken n ns removed e) m))

      -- What the round makes of the nodes has their ids, apart from those that are removed.
      pub ids-fused :
          (ns : List (Node F)) (removed : List String)
          → IsNoted ns removed
          → ids (without final (fused ns removed).0) ≡ ids (without final ns)
      ids-fused [] removed k = rw (nothing removed) refl
      ids-fused (n ∷ ns) removed k = elim (Bool-cases (has removed n.id)) [
        | inl e ↦
            let (rest, gone) = IsNoted-skipped n ns removed e k in
            rw (skipped n ns removed e)
              (ids-fused ns removed rest ∙ ids-without-drop final n ns gone)
        | inr e ↦ rw (taken n ns removed e) (
            ids-without-cons final (with_expr (inlined n removed) n) n _ ns
              (with_expr-id (inlined n removed) n)
              (ids-fused ns _ (IsNoted-taken n ns removed e k)))
      ]

      -- A node that is no CALC stays.
      pub other-fused :
          (ns : List (Node F)) (removed : List String) (n : Node F)
          → IsNoted ns removed
          → Memᴰ n ns
          → is_calc n.op ≡ false
          → has final n.id ≡ false
          → Memᴰ n (fused ns removed).0
      other-fused [] removed n k m h out = absurd (Memᴰ.not-nil m)
      other-fused (x ∷ ns) removed n k m h out = elim (Bool-cases (has removed x.id)) [
        | inl e ↦
            let (rest, gone) = IsNoted-skipped x ns removed e k in
            rw (skipped x ns removed e) (
              not_dropped final n x ns _ m gone out
                (λ there. other-fused ns removed n rest there h out))
        | inr e ↦ rw (taken x ns removed e) (
            taken_over n x (with_expr (inlined x removed) x) ns _ m h
              (with_expr-other names edges (definitions nodes []) x removed)
              (λ there. other-fused ns _ n (IsNoted-taken x ns removed e k) there h out))
      ]

  pub without-Memᴰ :
      (removed : List String) (ns : List (Node F)) (n : Node F)
      → Memᴰ n ns
      → has removed n.id ≡ false
      → Memᴰ n (without removed ns)
  unfolding without
  without-Memᴰ removed ns n m h =
      keep-Memᴰ (λ (d : Node F). not (has removed d.id)) ns n m (ap not h)
