-- ===== src/Vm/Graph/Sorting.antt =====
-- The loop invariant of `topological_order` in tinypipe-vm/src/compiled_executor.rs.
use mathlib.Core.List.{Memᴰ}
use tinypipe.Prelude.{
  ℕ, ◌+◌, ◌-◌, ◌<◌, ◌≡◌, ◌∙◌, subst, true, false, ◌&&◌, ◌||◌, List, [], ◌∷◌, ◌++◌, ◌==◌, ==_iff,
  ltb, length, length-append, contains, contains_head, contains-append, get_or, set, get_or-set,
  length-set, IsNodup, arith, if◌then◌else◌, Bool-cases, inl, inr,
}
use tinypipe.Ir.Plan.{Edge}
use tinypipe.Vm.Graph.{Sort, release, release_all}
use tinypipe.Vm.Graph.Count.{
  live_in, between, unfinished, live_in-append, live_in_zero, unfinished-append,
}

-- Each index stands behind the sources of its incoming edges.
abbrev pub IsSorted : List Edge → List ℕ → List ℕ → Type 0
IsSorted edges seen [] = Unit
IsSorted edges seen (i ∷ rest) =
    ((e : Edge) → Memᴰ e edges → e.to_index ≡ i → contains seen e.from_index ≡ true)
    × IsSorted edges (i ∷ seen) rest

IsSorted-append :
    (edges : List Edge) (seen xs : List ℕ) (idx : ℕ)
    → IsSorted edges seen xs
    → ((e : Edge)
        → Memᴰ e edges
        → e.to_index ≡ idx
        → (contains seen e.from_index || contains xs e.from_index) ≡ true)
    → IsSorted edges seen (xs ++ idx ∷ [])
IsSorted-append edges seen [] idx h k = (λ e m p. ground (arith, k e m p), tt)
IsSorted-append edges seen (x ∷ xs) idx h k =
    (h.0, IsSorted-append edges (x ∷ seen) xs idx h.1 (λ e m p. ground (arith, k e m p)))

module _ (edges : List Edge) (n : ℕ) where
  -- While the edges `es` of the index `idx` are still to be looked at.
  pub record Inv (idx : ℕ) (es : List Edge) (s : Sort) : Type 0 where
    pub len : length s.in_degree ≡ n
    pub deg : (t : ℕ) → t < n → get_or s.in_degree t 0 ≡ live_in edges s.result t + between es idx t
    pub queued :
        (i : ℕ)
        → contains s.queue i ≡ true
        → (i < n) × (get_or s.in_degree i 0 ≡ 0) × (contains s.result i ≡ false)
    pub done : (i : ℕ) → contains s.result i ≡ true → (i < n) × (get_or s.in_degree i 0 ≡ 0)
    pub found :
        (i : ℕ)
        → i < n
        → get_or s.in_degree i 0 ≡ 0
        → (contains s.queue i || contains s.result i) ≡ true
    pub nodup : IsNodup s.queue
    pub count : length s.result + unfinished n s.result ≡ n
    pub sorted : IsSorted edges [] s.result

  module _ (idx : ℕ) (d : Edge) (es : List Edge) (s : Sort) (inv : Inv idx (d ∷ es) s) where
    -- an edge of another index, or out of range
    skip_edge : ((d.from_index == idx) && ltb d.to_index n) ≡ false → Inv idx es s
    skip_edge h = record {
      len = inv.len;
      deg = λ t lt. ground (arith, inv.deg t lt, h, ==_iff d.to_index t, lt);
      queued = inv.queued;
      done = inv.done;
      found = inv.found;
      nodup = inv.nodup;
      count = inv.count;
      sorted = inv.sorted;
    }

    module _ (h : ((d.from_index == idx) && ltb d.to_index n) ≡ true) where
      abbrev t : ℕ
      t = d.to_index

      abbrev left : ℕ
      left = get_or s.in_degree t 0 - 1

      abbrev lowered : List ℕ
      lowered = set s.in_degree t left

      in_range : t < n
      in_range = ground (arith, h)

      positive : 0 < get_or s.in_degree t 0
      positive = ground (arith, inv.deg t in_range, h, ==_iff t t)

      get_or-lowered :
          (i : ℕ) → get_or lowered i 0 ≡ (if t == i then left else get_or s.in_degree i 0)
      get_or-lowered i = ground (arith, get_or-set s.in_degree t i left 0, inv.len, in_range)

      lowered-deg :
          (i : ℕ) → i < n → get_or lowered i 0 ≡ live_in edges s.result i + between es idx i
      lowered-deg i lt = elim (Bool-cases (t == i)) [
        | inl q ↦ ground (arith, get_or-lowered i, inv.deg i lt, q, h, (==_iff t i).0 q)
        | inr q ↦ ground (arith, get_or-lowered i, inv.deg i lt, q, h)
      ]

      -- an index with nothing left is not the target
      other : (i : ℕ) → get_or s.in_degree i 0 ≡ 0 → (t == i) ≡ false
      other i z = elim (Bool-cases (t == i)) [
        | inl q ↦ absurd (ground (arith, positive, (==_iff t i).0 q, z))
        | inr q ↦ q
      ]

      lowered_zero : (i : ℕ) → get_or s.in_degree i 0 ≡ 0 → get_or lowered i 0 ≡ 0
      lowered_zero i z = ground (arith, get_or-lowered i, other i z, z)

      not_queued : contains s.queue t ≡ false
      not_queued = elim (Bool-cases (contains s.queue t)) [
        | inl q ↦ absurd (ground (arith, (inv.queued t q).1, positive))
        | inr q ↦ q
      ]

      not_done : contains s.result t ≡ false
      not_done = elim (Bool-cases (contains s.result t)) [
        | inl q ↦ absurd (ground (arith, (inv.done t q).1, positive))
        | inr q ↦ q
      ]

      old_queued :
          (i : ℕ)
          → contains s.queue i ≡ true
          → (i < n) × (get_or lowered i 0 ≡ 0) × (contains s.result i ≡ false)
      old_queued i q = let k = inv.queued i q in (k.0, lowered_zero i k.1, k.2)

      lower_done : (i : ℕ) → contains s.result i ≡ true → (i < n) × (get_or lowered i 0 ≡ 0)
      lower_done i q = let k = inv.done i q in (k.0, lowered_zero i k.1)

      -- the target has more predecessors
      keep_queue : (left == 0) ≡ false → Inv idx es (record s { in_degree = lowered })
      keep_queue z = record {
        len = length-set s.in_degree t left ∙ inv.len;
        deg = lowered-deg;
        queued = old_queued;
        done = lower_done;
        found = λ i lt e. elim (Bool-cases (t == i)) [
          | inl q ↦ absurd (ground (arith, get_or-lowered i, q, e, z))
          | inr q ↦ inv.found i lt (ground (arith, get_or-lowered i, q, e))
        ];
        nodup = inv.nodup;
        count = inv.count;
        sorted = inv.sorted;
      }

      -- the target has no predecessor left
      push_queue :
          (left == 0) ≡ true → Inv idx es (record s { in_degree = lowered; queue = t ∷ s.queue })
      push_queue z = record {
        len = length-set s.in_degree t left ∙ inv.len;
        deg = lowered-deg;
        queued = λ i q. elim (Bool-cases (t == i)) [
          | inl e ↦
              subst (λ j. (j < n) × (get_or lowered j 0 ≡ 0) × (contains s.result j ≡ false))
                ((==_iff t i).0 e)
                (in_range, ground (arith, get_or-lowered t, ==_iff t t, z), not_done)
          | inr e ↦ old_queued i (ground (arith, q, e))
        ];
        done = lower_done;
        found = λ i lt e. elim (Bool-cases (t == i)) [
          | inl q ↦ ground (arith, q)
          | inr q ↦ ground (arith, inv.found i lt (ground (arith, get_or-lowered i, q, e)))
        ];
        nodup = (not_queued, inv.nodup);
        count = inv.count;
        sorted = inv.sorted;
      }

    release-Inv : Inv idx es (release n idx d s)
    unfolding release
    release-Inv = elim (Bool-cases ((d.from_index == idx) && ltb d.to_index n)) [
      | inr h ↦ rw h (skip_edge h)
      | inl h ↦ rw h (elim (Bool-cases (get_or s.in_degree d.to_index 0 - 1 == 0)) [
        | inl z ↦ rw z (push_queue h z)
        | inr z ↦ rw z (keep_queue h z)
      ])
    ]

  pub release_all-Inv :
      (idx : ℕ) (es : List Edge) (s : Sort) → Inv idx es s → Inv idx [] (release_all n idx es s)
  unfolding release_all
  release_all-Inv idx [] s inv = inv
  release_all-Inv idx (d ∷ es) s inv =
      release_all-Inv idx es (release n idx d s) (release-Inv idx d es s inv)

  module _ (was idx : ℕ) (rest : List ℕ) (d r : List ℕ)
      (inv : Inv was [] (record { in_degree = d; queue = idx ∷ rest; result = r })) where
    popped : (idx < n) × (get_or d idx 0 ≡ 0) × (contains r idx ≡ false)
    popped = inv.queued idx (contains_head idx rest)

    sources_done : (e : Edge) → Memᴰ e edges → e.to_index ≡ idx → contains r e.from_index ≡ true
    sources_done e m p =
        live_in_zero edges r e m (rw p (ground (arith, inv.deg idx popped.0, popped.1)))

    -- The popped index goes to the result.
    pub pop-Inv : Inv idx edges (record { in_degree = d; queue = rest; result = r ++ idx ∷ [] })
    pop-Inv = record {
      len = inv.len;
      deg = λ t lt. ground (arith, inv.deg t lt, live_in-append edges r idx t popped.2);
      queued = λ i q.
          let k = inv.queued i (ground (arith, q)) in
          (
            k.0,
            k.1,
            ground (arith, contains-append r (idx ∷ []) i, k.2, inv.nodup.0, q, ==_iff idx i),
          );
      done = λ i q. elim (Bool-cases (contains r i)) [
        | inl e ↦ inv.done i e
        | inr e ↦
            subst (λ j. (j < n) × (get_or d j 0 ≡ 0))
              ((==_iff idx i).0 (ground (arith, contains-append r (idx ∷ []) i, q, e)))
              (popped.0, popped.1)
      ];
      found = λ i lt e. ground (arith, inv.found i lt e, contains-append r (idx ∷ []) i);
      nodup = inv.nodup.1;
      count = ground (
        arith,
        inv.count,
        length-append {0} r (idx ∷ []),
        unfinished-append n r idx popped.2,
        popped.0,
      );
      sorted =
          IsSorted-append edges [] r idx inv.sorted (λ e m p. ground (arith, sources_done e m p));
    }

    -- One more index is done.
    pub pop_left : unfinished n r ≡ 1 + unfinished n (r ++ idx ∷ [])
    pop_left = ground (arith, unfinished-append n r idx popped.2, popped.0)
