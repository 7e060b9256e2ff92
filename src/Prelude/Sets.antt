-- ===== src/Prelude/Sets.antt =====
-- A hash set of `u32` as a list without repetitions: `HashSet::insert` and `contains`.
use Prim.Native.Nat.{ℕ, zero, suc, ◌+◌}
use mathlib.Core.Logic.{inl, inr}
use mathlib.Core.Path.{◌≡◌, refl}
use mathlib.Core.Bool.{Bool, true, false, ◌||◌, ◌&&◌}
use mathlib.Core.List.{List, [], ◌∷◌, ◌++◌, reverse, reverse_aux}
use native.Mathlib.Omega.{arith}
use tinypipe.Prelude.Tests.{◌==◌, ==_iff, ltb, leb, Bool-cases, if◌then◌else◌}
use tinypipe.Prelude.Lists.{All, All-weaken, keep, count_up}

abbrev pub contains : List ℕ → ℕ → Bool
contains [] a = false
contains (x ∷ xs) a = x == a || contains xs a

unfoldable pub insert : ℕ → List ℕ → List ℕ
insert a xs = if contains xs a then xs else a ∷ xs

unfoldable pub insert_all : List ℕ → List ℕ → List ℕ
insert_all [] s = s
insert_all (a ∷ rest) s = insert_all rest (insert a s)

pub contains-insert : (a b : ℕ) (s : List ℕ) → contains (insert a s) b ≡ (a == b || contains s b)
unfolding insert
contains-insert a b s = ground arith

contains_tail : (x a : ℕ) (xs : List ℕ) → contains xs a ≡ true → contains (x ∷ xs) a ≡ true
contains_tail x a xs h = ground (arith, h)

pub contains_head : (x : ℕ) (xs : List ℕ) → contains (x ∷ xs) x ≡ true
contains_head x xs = ground arith

All-members : (xs : List ℕ) → All (λ a. contains xs a ≡ true) xs
All-members [] = tt
All-members (x ∷ xs) =
    (contains_head x xs, All-weaken xs (λ a h. contains_tail x a xs h) (All-members xs))

pub contains-insert_all :
    (xs s : List ℕ) (a : ℕ) → contains (insert_all xs s) a ≡ (contains xs a || contains s a)
unfolding insert_all
contains-insert_all [] s a = refl
contains-insert_all (x ∷ xs) s a =
    ground (arith, contains-insert_all xs (insert x s) a, contains-insert x a s)

-- Elements that are there already change nothing.
pub insert_all_absorbed : (xs s : List ℕ) → All (λ a. contains s a ≡ true) xs → insert_all xs s ≡ s
unfolding insert_all insert
insert_all_absorbed [] s h = refl
insert_all_absorbed (x ∷ xs) s (hx, hs) = rw hx (insert_all_absorbed xs s hs)

pub All-contains : (xs s : List ℕ) → All (λ a. contains (insert_all xs s) a ≡ true) xs
All-contains xs s =
    All-weaken xs (λ a h. ground (arith, contains-insert_all xs s a, h)) (All-members xs)

-- `HashSet::insert` a second time changes nothing.
pub insert_all_idem : (xs s : List ℕ) → insert_all xs (insert_all xs s) ≡ insert_all xs s
insert_all_idem xs s = insert_all_absorbed xs (insert_all xs s) (All-contains xs s)

contains-reverse_aux :
    (xs ys : List ℕ) (a : ℕ) → contains (reverse_aux xs ys) a ≡ (contains xs a || contains ys a)
contains-reverse_aux [] ys a = refl
contains-reverse_aux (x ∷ xs) ys a = ground (arith, contains-reverse_aux xs (x ∷ ys) a)

pub contains-reverse : (xs : List ℕ) (a : ℕ) → contains (reverse xs) a ≡ contains xs a
contains-reverse xs a = ground (arith, contains-reverse_aux xs [] a)

pub contains-append :
    (xs ys : List ℕ) (a : ℕ) → contains (xs ++ ys) a ≡ (contains xs a || contains ys a)
contains-append [] ys a = refl
contains-append (x ∷ xs) ys a = ground (arith, contains-append xs ys a)

pub contains-keep :
    (p : ℕ → Bool) (xs : List ℕ) (a : ℕ) → contains (keep p xs) a ≡ (contains xs a && p a)
contains-keep p [] a = refl
contains-keep p (x ∷ xs) a = elim (Bool-cases (x == a)) [
  | inl e ↦ rw ((==_iff x a).0 e) (ground (arith, contains-keep p xs a))
  | inr e ↦ ground (arith, contains-keep p xs a, e)
]

pub contains-count_up : (n k a : ℕ) → contains (count_up n k) a ≡ (leb k a && ltb a (k + n))
contains-count_up zero k a = ground arith
contains-count_up (suc n) k a = ground (arith, contains-count_up n (k + 1) a)

abbrev pub IsNodup : List ℕ → Type 0
IsNodup [] = Unit
IsNodup (x ∷ xs) = (contains xs x ≡ false) × IsNodup xs

pub keep-IsNodup : (p : ℕ → Bool) (xs : List ℕ) → IsNodup xs → IsNodup (keep p xs)
keep-IsNodup p [] h = tt
keep-IsNodup p (x ∷ xs) h = elim (Bool-cases (p x)) [
  | inl e ↦ rw e (ground (arith, contains-keep p xs x, h.0), keep-IsNodup p xs h.1)
  | inr e ↦ rw e (keep-IsNodup p xs h.1)
]

pub count_up-IsNodup : (n k : ℕ) → IsNodup (count_up n k)
count_up-IsNodup zero k = tt
count_up-IsNodup (suc n) k =
    (ground (arith, contains-count_up n (k + 1) k), count_up-IsNodup n (k + 1))

reverse_aux-IsNodup :
    (xs ys : List ℕ)
    → IsNodup xs
    → IsNodup ys
    → ((a : ℕ) → contains xs a ≡ true → contains ys a ≡ false)
    → IsNodup (reverse_aux xs ys)
reverse_aux-IsNodup [] ys hx hy h = hy
reverse_aux-IsNodup (x ∷ xs) ys hx hy h =
    reverse_aux-IsNodup xs (x ∷ ys) hx.1 (h x (contains_head x xs), hy)
      (λ a m. elim (Bool-cases (x == a)) [
        | inl e ↦ ground (arith, m, hx.0, (==_iff x a).0 e)
        | inr e ↦ ground (arith, h a (contains_tail x a xs m), e)
      ])

pub reverse-IsNodup : (xs : List ℕ) → IsNodup xs → IsNodup (reverse xs)
reverse-IsNodup xs h = reverse_aux-IsNodup xs [] h tt (λ a m. refl)
