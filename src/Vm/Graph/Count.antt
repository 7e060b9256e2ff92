-- ===== src/Vm/Graph/Count.antt =====
-- The numbers that the topological order of tinypipe-vm/src/compiled_executor.rs counts down: the
-- incoming edges that are left, and the indices that are left.
use mathlib.Core.List.{Memᴰ}
use mathlib.Core.List.Memᴰ
use tinypipe.Prelude.{
  ℕ, zero, suc, ◌+◌, ◌%◌, ◌^◌, ◌<◌, ◌≡◌, refl, ◌∙◌, subst, sym, true, false, not, ◌&&◌, List, [],
  ◌∷◌, ◌++◌, ◌==◌, ==_iff, ltb, length, contains, contains-append, get_or, set, get_or-set,
  length-set, arith, if◌then◌else◌, Bool-cases, inl, inr,
}
use tinypipe.Ir.Plan.{Edge}
use tinypipe.Vm.Graph.{count_in}

-- edges into `t` whose source is not done
abbrev pub live_in : List Edge → List ℕ → ℕ → ℕ
live_in [] done t = 0
live_in (e ∷ es) done t =
    (if (e.to_index == t) && not (contains done e.from_index) then 1 else 0) + live_in es done t

-- edges from `idx` to `t`
abbrev pub between : List Edge → ℕ → ℕ → ℕ
between [] idx t = 0
between (e ∷ es) idx t =
    (if (e.from_index == idx) && (e.to_index == t) then 1 else 0) + between es idx t

-- indices below `n` that are not done
abbrev pub unfinished : ℕ → List ℕ → ℕ
unfinished zero done = 0
unfinished (suc i) done = (if contains done i then 0 else 1) + unfinished i done

pub live_in-append :
    (es : List Edge) (done : List ℕ) (idx t : ℕ)
    → contains done idx ≡ false
    → live_in es done t ≡ live_in es (done ++ idx ∷ []) t + between es idx t
live_in-append [] done idx t h = omega arith
live_in-append (e ∷ es) done idx t h = elim (Bool-cases (e.from_index == idx)) [
  | inl q ↦ ground (
    arith,
    live_in-append es done idx t h,
    contains-append done (idx ∷ []) e.from_index,
    ==_iff e.from_index idx,
    q,
  )
  | inr q ↦
      ground
        (arith, live_in-append es done idx t h, contains-append done (idx ∷ []) e.from_index, q)
]

-- No edge into `t` is left: its sources are done.
pub live_in_zero :
    (es : List Edge) (done : List ℕ) (e : Edge)
    → Memᴰ e es
    → live_in es done e.to_index ≡ 0
    → contains done e.from_index ≡ true
live_in_zero [] done e m h = absurd (Memᴰ.not-nil m)
live_in_zero (d ∷ es) done e (Memᴰ.tail m) h = live_in_zero es done e m (omega arith)
live_in_zero (d ∷ es) done e (Memᴰ.head p) h =
    subst (λ (a : Edge). live_in (d ∷ es) done a.to_index ≡ 0 → contains done a.from_index ≡ true)
      (sym p) (λ z. ground (arith, z)) h

pub zero_live_in :
    (es : List Edge) (done : List ℕ) (t : ℕ)
    → ((e : Edge) → Memᴰ e es → e.to_index ≡ t → contains done e.from_index ≡ true)
    → live_in es done t ≡ 0
zero_live_in [] done t h = refl
zero_live_in (e ∷ es) done t h = elim (Bool-cases (e.to_index == t)) [
  | inl q ↦ ground (
    arith,
    zero_live_in es done t (λ d m. h d (Memᴰ.tail m)),
    q,
    h e (Memᴰ.head refl) ((==_iff e.to_index t).0 q),
  )
  | inr q ↦ ground (arith, zero_live_in es done t (λ d m. h d (Memᴰ.tail m)), q)
]

pub unfinished-append :
    (n : ℕ) (done : List ℕ) (idx : ℕ)
    → contains done idx ≡ false
    → unfinished n done ≡ (if ltb idx n then 1 else 0) + unfinished n (done ++ idx ∷ [])
unfinished-append zero done idx h = ground arith
unfinished-append (suc n) done idx h = elim (Bool-cases (idx == n)) [
  | inl q ↦ ground (
    arith,
    unfinished-append n done idx h,
    contains-append done (idx ∷ []) n,
    q,
    h,
    (==_iff idx n).0 q,
  )
  | inr q ↦ ground (arith, unfinished-append n done idx h, contains-append done (idx ∷ []) n, q)
]

-- An index that is not done is counted.
pub unfinished_pos :
    (n : ℕ) (done : List ℕ) (i : ℕ) → i < n → contains done i ≡ false → 0 < unfinished n done
unfinished_pos zero done i lt h = absurd (omega arith)
unfinished_pos (suc n) done i lt h = elim (Bool-cases (i == n)) [
  | inl q ↦ ground (arith, (==_iff i n).0 q, h)
  | inr q ↦ ground (arith, unfinished_pos n done i (ground (arith, q, lt)) h)
]

pub unfinished_nil : (n : ℕ) → unfinished n [] ≡ n
unfinished_nil zero = refl
unfinished_nil (suc n) = omega (arith, unfinished_nil n)

pub zero_unfinished :
    (n : ℕ) (done : List ℕ) → ((i : ℕ) → i < n → contains done i ≡ true) → unfinished n done ≡ 0
zero_unfinished zero done h = refl
zero_unfinished (suc n) done h =
    ground (arith, h n (omega arith), zero_unfinished n done (λ i lt. h i (omega arith)))

-- A counter that stays below 2 ^ 32 does not wrap.
mod_small : (c k : ℕ) → c + suc k < 2 ^ 32 → (c + 1) % 2 ^ 32 ≡ c + 1
mod_small c k h = omega (arith, h)

-- The counters that `topological_order` starts from, where none of them wraps.
pub count_in_live :
    (es : List Edge) (d : List ℕ) (t : ℕ)
    → t < length d
    → get_or d t 0 + length es < 2 ^ 32
    → get_or (count_in es d) t 0 ≡ get_or d t 0 + live_in es [] t
unfolding count_in
count_in_live [] d t h small = omega arith
count_in_live (e ∷ es) d t h small =
    let next = (get_or d e.to_index 0 + 1) % 2 ^ 32 in
    let here = get_or-set d e.to_index t next 0 in
    let same_length = length-set d e.to_index next in
    elim (Bool-cases (e.to_index == t)) [
      | inl q ↦
          let p : e.to_index ≡ t = (==_iff e.to_index t).0 q in
          let grown : next ≡ get_or d t 0 + 1 = rw p (mod_small (get_or d t 0) (length es) small) in
          let now : get_or (set d e.to_index next) t 0 ≡ get_or d t 0 + 1 =
            ground (arith, here, q, grown, h, p) in
          let rest =
            count_in_live es (set d e.to_index next) t (ground (arith, same_length, h))
              (rw now (omega (arith, small))) in
          ground (arith, rest, now, q)
      | inr q ↦
          let now : get_or (set d e.to_index next) t 0 ≡ get_or d t 0 = ground (arith, here, q) in
          let rest =
            count_in_live es (set d e.to_index next) t (ground (arith, same_length, h))
              (rw now (omega (arith, small))) in
          ground (arith, rest, now, q)
    ]

pub length-count_in : (es : List Edge) (d : List ℕ) → length (count_in es d) ≡ length d
unfolding count_in
length-count_in [] d = refl
length-count_in (e ∷ es) d = length-count_in es _ ∙ length-set d e.to_index _
