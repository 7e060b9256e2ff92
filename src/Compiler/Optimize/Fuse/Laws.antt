-- ===== src/Compiler/Optimize/Fuse/Laws.antt =====
-- What `calc_fusion` of tinypipe-compiler/src/backend/optimize.rs leaves, and that its loop ends.
use mathlib.Core.List.{Memᴰ}
use tinypipe.Prelude.{
  ℕ, zero, suc, ◌+◌, ◌<◌, ◌≡◌, refl, ap, String, false, not, some, List, [], has, keep, Memᴰ-keep,
  length, arith, Bool-cases, inl, inr,
}
use tinypipe.Ir.Plan.{is_calc}
use tinypipe.Ir.ExecutionPlan.{ExecutionPlan, Node, Edge, ids}
use tinypipe.Ir.ExecutionPlan.Order.Count.{IsDistinct, length-ids, keep-IsDistinct}
use tinypipe.Compiler.Optimize.Dead.{joins}
use tinypipe.Compiler.Optimize.Dead.Laws.{IsClosed}
use tinypipe.Compiler.Optimize.Fuse.{fuse_round, without, fuse_loop, kept, calc_fusion}
use tinypipe.Compiler.Optimize.Fuse.Tracks.{Tracks, fuse_nodes-Tracks, unfinished-removed}
use tinypipe.Compiler.Optimize.Fuse.Round.{
  same_id, has-IsCalcId, length-without, without-Memᴰ, fused, IsNoted, ids-fused, other-fused,
}

module _ {F : Type 0} where
  -- What has become of nodes, and of the number of removed ones.
  pub record Fused (nodes : List (Node F)) (before : ℕ) (rest : List (Node F)) (after : ℕ)
      : Type 0 where
    pub distinct : IsDistinct (ids rest)
    pub count : length rest + after ≡ length nodes + before
    pub other : (n : Node F) → Memᴰ n nodes → is_calc n.op ≡ false → Memᴰ n rest

  module _ (edges : List Edge) (nodes : List (Node F)) (distinct : IsDistinct (ids nodes)) where
    abbrev removed_ids : List String
    removed_ids = (fuse_round edges nodes).1

    abbrev left : List (Node F)
    left = without removed_ids (fuse_round edges nodes).0

    round-Tracks :
        Tracks nodes []
          (record { expr = ""; changed = (fuse_round edges nodes).2; to_remove = removed_ids })
    unfolding fuse_round
    round-Tracks = fuse_nodes-Tracks nodes (ids nodes) edges nodes [] (λ a h. cc) tt

    round-IsNoted : IsNoted nodes (ids nodes) edges removed_ids round-Tracks.known nodes []
    unfolding fuse_round
    round-IsNoted = ((λ a h. cc), tt, λ a h. h)

    ids-left : ids left ≡ ids (without removed_ids nodes)
    unfolding fuse_round
    ids-left =
        ids-fused nodes (ids nodes) edges removed_ids round-Tracks.known nodes [] round-IsNoted

    without-IsDistinct : (removed : List String) → IsDistinct (ids (without removed nodes))
    unfolding without
    without-IsDistinct removed =
        keep-IsDistinct (λ (n : Node F). not (has removed n.id)) nodes distinct

    left_and_removed : length left + length removed_ids ≡ length nodes
    left_and_removed =
        let all =
          unfinished-removed (ids nodes) removed_ids distinct round-Tracks.distinct
            (λ a h. has-IsCalcId nodes a (round-Tracks.known a h)) in
        omega (
          arith,
          all,
          length-ids left,
          length-ids nodes,
          ap length ids-left,
          length-ids (without removed_ids nodes),
          length-without removed_ids nodes,
        )

    -- The ids that are removed are those of CALCs, and no other node has them.
    not_removed : (n : Node F) → Memᴰ n nodes → is_calc n.op ≡ false → has removed_ids n.id ≡ false
    not_removed n m h = elim (Bool-cases (has removed_ids n.id)) [
      | inr e ↦ e
      | inl e ↦
          let (d, mem, calc, same) = round-Tracks.known n.id e in
          absurd (
            ground (
              arith,
              h,
              calc,
              ap (λ (x : Node F). is_calc x.op) (same_id nodes d n distinct mem m same),
            ))
    ]

    round-Fused : (fused : ℕ) → Fused nodes fused left (fused + length removed_ids)
    unfolding fuse_round
    round-Fused fused = record {
      distinct = rw ids-left (without-IsDistinct removed_ids);
      count = omega (arith, left_and_removed);
      other = λ n m h.
          let out = not_removed n m h in
          without-Memᴰ removed_ids _ n
            (other-fused nodes (ids nodes) edges removed_ids round-Tracks.known nodes [] n
              round-IsNoted m h out)
            out;
    }

  module _ (edges : List Edge) where
    Fused-trans :
        (a b : List (Node F)) (i j : ℕ) (c : List (Node F)) (k : ℕ)
        → Fused a i b j
        → Fused b j c k
        → Fused a i c k
    Fused-trans a b i j c k f g = record {
      distinct = g.distinct;
      count = omega (arith, f.count, g.count);
      other = λ n m h. g.other n (f.other n m h) h;
    }

    fuse_loop-Fused :
        (fuel : ℕ) (nodes : List (Node F)) (before : ℕ)
        → IsDistinct (ids nodes)
        → length nodes < fuel
        → (rest : List (Node F)) × (after : ℕ) × (fuse_loop fuel edges nodes before
            ≡ some (rest, after))
          × Fused nodes before rest after
    unfolding fuse_loop
    fuse_loop-Fused zero nodes before distinct enough = absurd (omega (arith, enough))
    fuse_loop-Fused (suc fuel) nodes before distinct enough =
        elim (Bool-cases (fuse_round edges nodes).2) [
          | inr e ↦ (
            nodes,
            before,
            rw e refl,
            record { distinct = distinct; count = omega arith; other = λ n m h. m },
          )
          | inl e ↦
              let once = round-Fused edges nodes distinct before in
              let fewer = (round-Tracks edges nodes distinct).any_removed e in
              let all = left_and_removed edges nodes distinct in
              let (rest, after, run, fused) =
                fuse_loop-Fused fuel (left edges nodes distinct)
                  (before + length (removed_ids edges nodes distinct)) once.distinct
                  (omega (arith, all, fewer, enough)) in
              (rest, after, rw e run, Fused-trans nodes _ before _ rest after once fused)
        ]

  joined-IsClosed :
      (plan : ExecutionPlan F) (nodes : List (Node F))
      → IsClosed (record plan { nodes = nodes; edges = keep (joins (ids nodes)) plan.edges })
  joined-IsClosed plan nodes e m = (Memᴰ-keep (joins (ids nodes)) plan.edges e m).1

  -- Where the ids of a plan are distinct, calc_fusion ends: each round but the last removes a node. The
  -- ids of the result are distinct, each edge of it leads between its nodes, its nodes and the fused ones
  -- make up the nodes of the plan, and each node that is no CALC is still there, unchanged.
  pub calc_fusion-ends :
      (plan : ExecutionPlan F)
      → IsDistinct (ids plan.nodes)
      → (result : ExecutionPlan F) × (fused : ℕ) × (calc_fusion plan ≡ some (result, fused))
        × IsDistinct (ids result.nodes)
        × IsClosed result
        × (length result.nodes + fused ≡ length plan.nodes)
        × ((n : Node F) → Memᴰ n plan.nodes → is_calc n.op ≡ false → Memᴰ n result.nodes)
  unfolding calc_fusion kept
  calc_fusion-ends plan distinct =
      let (rest, after, run, fused) =
        fuse_loop-Fused plan.edges (length plan.nodes + 1) plan.nodes 0 distinct (omega arith) in
      (
        record plan { nodes = rest; edges = keep (joins (ids rest)) plan.edges },
        after,
        rw run refl,
        fused.distinct,
        joined-IsClosed plan rest,
        omega (arith, fused.count),
        fused.other,
      )
