-- ===== src/Ir/ExecutionPlan/Order/Count.antt =====
-- The numbers that the topological orders over text ids count down: the incoming edges that are left
-- (tinypipe-ir/src/plan.rs, tinypipe-compiler/src/validator.rs), and the nodes that are left.
use mathlib.Core.List.{Memᴰ, reverse, reverse_aux}
use mathlib.Core.List.Memᴰ
use tinypipe.Prelude.{
  ℕ, suc, ◌+◌, ◌<◌, ◌≤◌, ◌≡◌, refl, sym, ap, ◌∙◌, subst, String, Bool, true, false, not, ◌&&◌, ◌||◌,
  none, some, List, [], ◌∷◌, ◌++◌, has, has-append, has_head, keep, length, str_eq, str_eq_refl,
  eq_iff, NameMap, get_name, put_name, get_name-put_name, arith, if◌then◌else◌, Bool-cases,
  Option-cases, inl, inr,
}
use tinypipe.Ir.ExecutionPlan.{Node, Edge, ids, edges_from}
use tinypipe.Ir.ExecutionPlan.Order.{count_in, start_degrees}

-- no id twice
abbrev pub IsDistinct : List String → Type 0
IsDistinct [] = Unit
IsDistinct (x ∷ xs) = (has xs x ≡ false) × IsDistinct xs

-- edges to `t` whose source is not done
abbrev pub live_in : List Edge → List String → String → ℕ
live_in [] done t = 0
live_in (e ∷ es) done t =
    (if str_eq e.to t && not (has done e.from) then 1 else 0) + live_in es done t

-- edges to `t`
abbrev pub into : List Edge → String → ℕ
into [] t = 0
into (e ∷ es) t = (if str_eq e.to t then 1 else 0) + into es t

-- names that are not done
abbrev pub unfinished : List String → List String → ℕ
unfinished [] done = 0
unfinished (x ∷ xs) done = (if has done x then 0 else 1) + unfinished xs done

pub live_in_le : (es : List Edge) (done : List String) (t : String) → live_in es done t ≤ length es
live_in_le [] done t = omega arith
live_in_le (e ∷ es) done t = ground (arith, live_in_le es done t)

pub into_le : (es : List Edge) (t : String) → into es t ≤ length es
into_le [] t = omega arith
into_le (e ∷ es) t = ground (arith, into_le es t)

pub live_in-append :
    (es : List Edge) (done : List String) (id t : String)
    → has done id ≡ false
    → live_in es done t ≡ live_in es (done ++ id ∷ []) t + into (edges_from es id) t
unfolding edges_from
live_in-append [] done id t h = omega arith
live_in-append (e ∷ es) done id t h = ground (
  arith,
  live_in-append es done id t h,
  has-append done (id ∷ []) e.from,
  eq_iff e.from id,
  eq_iff id e.from,
  h,
)

-- No edge to a node is left: its sources are done.
pub live_in_zero :
    (es : List Edge) (done : List String) (e : Edge)
    → Memᴰ e es
    → live_in es done e.to ≡ 0
    → has done e.from ≡ true
live_in_zero [] done e m h = absurd (Memᴰ.not-nil m)
live_in_zero (d ∷ es) done e (Memᴰ.tail m) h = live_in_zero es done e m (omega arith)
live_in_zero (d ∷ es) done e (Memᴰ.head p) h =
    subst (λ (a : Edge). live_in (d ∷ es) done a.to ≡ 0 → has done a.from ≡ true) (sym p)
      (λ z. ground (arith, z, str_eq_refl d.to)) h

pub zero_live_in :
    (es : List Edge) (done : List String) (t : String)
    → ((e : Edge) → Memᴰ e es → e.to ≡ t → has done e.from ≡ true)
    → live_in es done t ≡ 0
zero_live_in [] done t h = refl
zero_live_in (e ∷ es) done t h = elim (Bool-cases (str_eq e.to t)) [
  | inl q ↦ ground (
    arith,
    zero_live_in es done t (λ d m. h d (Memᴰ.tail m)),
    q,
    h e (Memᴰ.head refl) ((eq_iff e.to t).0 q),
  )
  | inr q ↦ ground (arith, zero_live_in es done t (λ d m. h d (Memᴰ.tail m)), q)
]

-- A name that is not among the others is not counted there.
unfinished-other :
    (names done : List String) (id : String)
    → has names id ≡ false
    → unfinished names (done ++ id ∷ []) ≡ unfinished names done
unfinished-other [] done id h = refl
unfinished-other (x ∷ names) done id h = ground (
  arith,
  unfinished-other names done id (ground (arith, h)),
  has-append done (id ∷ []) x,
  eq_iff x id,
  eq_iff id x,
  h,
)

pub unfinished-append :
    (names done : List String) (id : String)
    → IsDistinct names
    → has names id ≡ true
    → has done id ≡ false
    → unfinished names done ≡ 1 + unfinished names (done ++ id ∷ [])
unfinished-append [] done id d h k = cc
unfinished-append (x ∷ names) done id d h k = elim (Bool-cases (str_eq x id)) [
  | inl q ↦ ground (
    arith,
    k,
    (eq_iff x id).0 q,
    d.0,
    unfinished-other names done id,
    has-append done (id ∷ []) x,
    str_eq_refl id,
  )
  | inr q ↦ ground (
    arith,
    unfinished-append names done id d.1 (ground (arith, h, q)) k,
    has-append done (id ∷ []) x,
    eq_iff x id,
    eq_iff id x,
    q,
  )
]

pub unfinished_nil : (names : List String) → unfinished names [] ≡ length names
unfinished_nil [] = refl
unfinished_nil (x ∷ names) = omega (arith, unfinished_nil names)

pub unfinished_pos :
    (names done : List String) (i : String)
    → has names i ≡ true
    → has done i ≡ false
    → 0 < unfinished names done
unfinished_pos [] done i h k = cc
unfinished_pos (x ∷ names) done i h k = elim (Bool-cases (str_eq x i)) [
  | inl q ↦ ground (arith, (eq_iff x i).0 q, k)
  | inr q ↦ ground (arith, unfinished_pos names done i (ground (arith, h, q)) k)
]

pub zero_unfinished :
    (names done : List String)
    → ((i : String) → has names i ≡ true → has done i ≡ true)
    → unfinished names done ≡ 0
zero_unfinished [] done h = refl
zero_unfinished (x ∷ names) done h =
    ground
      (arith, h x (has_head x names), zero_unfinished names done (λ i m. h i (ground (arith, m))))

-- The counters that the order starts from.
pub none-count_in :
    (es : List Edge) (d : NameMap ℕ) (t : String)
    → get_name t d ≡ none
    → get_name t (count_in es d) ≡ none
unfolding count_in
none-count_in [] d t h = h
none-count_in (e ∷ es) d t h = elim (Option-cases (get_name e.to d)) [
  | inl q ↦ rw (count_in, q) (none-count_in es d t h)
  | inr (deg, q) ↦
      rw (count_in, q)
        (none-count_in es (put_name e.to (deg + 1) d) t
          (ground (arith, get_name-put_name e.to t (deg + 1) d, h, q, eq_iff e.to t)))
]

pub get_name-count_in :
    (es : List Edge) (d : NameMap ℕ) (t : String) (deg : ℕ)
    → get_name t d ≡ some deg
    → get_name t (count_in es d) ≡ some (deg + live_in es [] t)
unfolding count_in
get_name-count_in [] d t deg h = h ∙ ap some (omega arith)
get_name-count_in (e ∷ es) d t deg h = elim (Bool-cases (str_eq e.to t)) [
  | inl q ↦
      let here : get_name e.to d ≡ some deg = rw ((eq_iff e.to t).0 q) h in
      rw (count_in, here, q)
        (get_name-count_in es (put_name e.to (deg + 1) d) t (deg + 1)
            (ground (arith, get_name-put_name e.to t (deg + 1) d, q))
          ∙ ap some (omega arith))
  | inr q ↦ elim (Option-cases (get_name e.to d)) [
    | inl k ↦ rw (count_in, k, q) (get_name-count_in es d t deg h ∙ ap some (omega arith))
    | inr (c, k) ↦
        rw (count_in, k, q)
          (get_name-count_in es (put_name e.to (c + 1) d) t deg
              (ground (arith, get_name-put_name e.to t (c + 1) d, q, h))
            ∙ ap some (omega arith))
  ]
]

module _ {F : Type 0} where
  pub get_name-start_degrees :
      (ns : List (Node F)) (d : NameMap ℕ) (t : String)
      → get_name t (start_degrees ns d) ≡ (if has (ids ns) t then some 0 else get_name t d)
  unfolding start_degrees
  get_name-start_degrees [] d t = refl
  get_name-start_degrees (n ∷ ns) d t =
      ground (arith, get_name-start_degrees ns (put_name n.id 0 d) t, get_name-put_name n.id t 0 d)

  pub ids-append : (xs ys : List (Node F)) → ids (xs ++ ys) ≡ ids xs ++ ids ys
  ids-append [] ys = refl
  ids-append (x ∷ xs) ys = ap (λ s. x.id ∷ s) (ids-append xs ys)

  pub length-ids : (xs : List (Node F)) → length (ids xs) ≡ length xs
  length-ids [] = refl
  length-ids (x ∷ xs) = ap suc (length-ids xs)

  pub has-ids-reverse_aux :
      (xs ys : List (Node F)) (a : String)
      → has (ids (reverse_aux xs ys)) a ≡ (has (ids xs) a || has (ids ys) a)
  has-ids-reverse_aux [] ys a = refl
  has-ids-reverse_aux (x ∷ xs) ys a = ground (arith, has-ids-reverse_aux xs (x ∷ ys) a)

  pub has-ids-reverse :
      (xs : List (Node F)) (a : String) → has (ids (reverse xs)) a ≡ has (ids xs) a
  has-ids-reverse xs a = ground (arith, has-ids-reverse_aux xs [] a)

  reverse_aux-IsDistinct :
      (xs ys : List (Node F))
      → IsDistinct (ids xs)
      → IsDistinct (ids ys)
      → ((a : String) → has (ids xs) a ≡ true → has (ids ys) a ≡ false)
      → IsDistinct (ids (reverse_aux xs ys))
  reverse_aux-IsDistinct [] ys hx hy h = hy
  reverse_aux-IsDistinct (x ∷ xs) ys hx hy h =
      reverse_aux-IsDistinct xs (x ∷ ys) hx.1 (h x.id (has_head x.id (ids xs)), hy)
        (λ a m. elim (Bool-cases (str_eq x.id a)) [
          | inl e ↦ absurd (ground (arith, m, hx.0, (eq_iff x.id a).0 e))
          | inr e ↦ ground (arith, h a (ground (arith, m)), e)
        ])

  pub reverse-IsDistinct :
      (xs : List (Node F)) → IsDistinct (ids xs) → IsDistinct (ids (reverse xs))
  reverse-IsDistinct xs h = reverse_aux-IsDistinct xs [] h tt (λ a m. refl)

  has-ids-keep :
      (p : Node F → Bool) (ns : List (Node F)) (a : String)
      → has (ids (keep p ns)) a ≡ true
      → has (ids ns) a ≡ true
  has-ids-keep p [] a h = h
  has-ids-keep p (n ∷ ns) a h = ground (arith, has-ids-keep p ns a, h)

  pub keep-IsDistinct :
      (p : Node F → Bool) (ns : List (Node F)) → IsDistinct (ids ns) → IsDistinct (ids (keep p ns))
  keep-IsDistinct p [] h = tt
  keep-IsDistinct p (n ∷ ns) h = elim (Bool-cases (p n)) [
    | inl e ↦ rw e (ground (arith, has-ids-keep p ns n.id, h.0), keep-IsDistinct p ns h.1)
    | inr e ↦ rw e (keep-IsDistinct p ns h.1)
  ]
