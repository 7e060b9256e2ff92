-- ===== src/Prelude/Lists.antt =====
-- Lists measured and indexed by native numbers, under the library's names.
use Prim.Native.Nat.{ℕ, zero, suc, ◌+◌, ◌<◌, ◌≤◌}
use mathlib.Core.Path.{◌≡◌, refl, ap, sym, subst}
use mathlib.Core.Bool.{and-eq-true_iff, Bool, true, false, ◌&&◌, ◌||◌}
use mathlib.Core.List.{Memᴰ, reverse, reverse_aux, map, List, [], ◌∷◌, ◌++◌}
use mathlib.Core.List.Memᴰ
use mathlib.Core.Option.{Option, none, some, some-injective}
use mathlib.Core.Logic.{◌↔◌, inl, inr}
use native.Mathlib.Numerals.{add-one}
use native.Mathlib.Omega.{arith}
use tinypipe.Prelude.Tests.{if◌then◌else◌, Bool-cases, ◌==◌, ltb}

module _ {ℓ} {A : Type ℓ} where
  abbrev pub length : List A → ℕ
  length [] = 0
  length (x ∷ xs) = suc (length xs)

  abbrev pub get_elem? : List A → ℕ → Option A
  get_elem? [] i = none
  get_elem? (x ∷ xs) zero = some x
  get_elem? (x ∷ xs) (suc i) = get_elem? xs i

  abbrev pub get_or : List A → ℕ → A → A
  get_or [] i d = d
  get_or (x ∷ xs) zero d = x
  get_or (x ∷ xs) (suc i) d = get_or xs i d

  -- A write out of bounds changes nothing.
  abbrev pub set : List A → ℕ → A → List A
  set [] i v = []
  set (x ∷ xs) zero v = v ∷ xs
  set (x ∷ xs) (suc i) v = x ∷ set xs i v

  abbrev pub drop : ℕ → List A → List A
  drop zero xs = xs
  drop (suc n) [] = []
  drop (suc n) (x ∷ xs) = drop n xs

  abbrev pub replicate : ℕ → A → List A
  replicate zero a = []
  replicate (suc n) a = a ∷ replicate n a

  -- `iter().any`, `iter().all`, `iter().find` and `filter` with Boolean tests.
  abbrev pub any : (A → Bool) → List A → Bool
  any p [] = false
  any p (x ∷ xs) = p x || any p xs

  abbrev pub all : (A → Bool) → List A → Bool
  all p [] = true
  all p (x ∷ xs) = p x && all p xs

  abbrev pub find? : (A → Bool) → List A → Option A
  find? p [] = none
  find? p (x ∷ xs) = if p x then some x else find? p xs

  abbrev pub keep : (A → Bool) → List A → List A
  keep p [] = []
  keep p (x ∷ xs) = let rest = keep p xs in if p x then x ∷ rest else rest

  abbrev pub unwrap_or : Option A → A → A
  unwrap_or none d = d
  unwrap_or (some a) d = a

  abbrev pub is_some : Option A → Bool
  is_some none = false
  is_some (some a) = true

  abbrev pub All {κ} : (A → Type κ) → List A → Type κ
  All P [] = Unit
  All P (x ∷ xs) = P x × All P xs

  pub All-weaken {κ μ} :
      {P : A → Type κ} {Q : A → Type μ} (xs : List A) → ((a : A) → P a → Q a) → All P xs → All Q xs
  All-weaken [] f h = tt
  All-weaken (x ∷ xs) f (hx, hs) = (f x hx, All-weaken xs f hs)

  pub All-drop {κ} : (P : A → Type κ) (n : ℕ) (xs : List A) → All P xs → All P (drop n xs)
  All-drop P zero xs h = h
  All-drop P (suc n) [] h = h
  All-drop P (suc n) (x ∷ xs) h = All-drop P n xs h.1

  pub All-keep : (p : A → Bool) (xs : List A) → All (λ x. p x ≡ true) (keep p xs)
  All-keep p [] = tt
  All-keep p (x ∷ xs) = elim (Bool-cases (p x)) [
    | inl e ↦ rw e (e, All-keep p xs)
    | inr e ↦ rw e (All-keep p xs)
  ]

  -- The list behind an element that `drop` leaves first.
  pub drop-suc :
      (n : ℕ) (xs : List A) (y : A) (ys : List A) → drop n xs ≡ y ∷ ys → drop (n + 1) xs ≡ ys
  drop-suc n xs y ys h = rw add-one (go n xs h)
    where
      go : (n : ℕ) (xs : List A) → drop n xs ≡ y ∷ ys → drop (suc n) xs ≡ ys
      go zero [] e = cc
      go zero (x ∷ xs) e = cc
      go (suc n) [] e = cc
      go (suc n) (x ∷ xs) e = go n xs e

  pub length-set : (xs : List A) (i : ℕ) (v : A) → length (set xs i v) ≡ length xs
  length-set [] i v = refl
  length-set (x ∷ xs) zero v = refl
  length-set (x ∷ xs) (suc i) v = ap suc (length-set xs i v)

abbrev pub count_up : ℕ → ℕ → List ℕ
count_up zero i = []
count_up (suc n) i = i ∷ count_up n (i + 1)

length-reverse_aux {ℓ} :
    {A : Type ℓ} (xs ys : List A) → length (reverse_aux xs ys) ≡ length xs + length ys
length-reverse_aux [] ys = omega arith
length-reverse_aux (x ∷ xs) ys = let rest = length-reverse_aux xs (x ∷ ys) in omega arith

pub length-reverse {ℓ} : {A : Type ℓ} (xs : List A) → length (reverse xs) ≡ length xs
length-reverse xs = let rest = length-reverse_aux xs [] in omega arith

-- A read after a write; a write out of range changes nothing.
pub get_or-set {ℓ} :
    {A : Type ℓ} (xs : List A) (i j : ℕ) (v d : A)
    → get_or (set xs i v) j d ≡ (if (i == j) && ltb i (length xs) then v else get_or xs j d)
get_or-set [] i j v d = ground arith
get_or-set (x ∷ xs) zero zero v d = ground arith
get_or-set (x ∷ xs) zero (suc j) v d = ground arith
get_or-set (x ∷ xs) (suc i) zero v d = ground arith
get_or-set (x ∷ xs) (suc i) (suc j) v d = ground (arith, get_or-set xs i j v d)

pub get_or-replicate {ℓ} : {A : Type ℓ} (n i : ℕ) (d : A) → get_or (replicate n d) i d ≡ d
get_or-replicate zero i d = refl
get_or-replicate (suc n) zero d = refl
get_or-replicate (suc n) (suc i) d = get_or-replicate n i d

pub length-replicate {ℓ} : {A : Type ℓ} (n : ℕ) (a : A) → length (replicate n a) ≡ n
length-replicate zero a = refl
length-replicate (suc n) a = ap suc (length-replicate n a)

pub length-append {ℓ} : {A : Type ℓ} (xs ys : List A) → length (xs ++ ys) ≡ length xs + length ys
length-append [] ys = omega arith
length-append (x ∷ xs) ys = let rest = length-append xs ys in omega arith

-- What `all` tests holds of each element.
pub all-Memᴰ {ℓ} :
    {A : Type ℓ} (p : A → Bool) (xs : List A) (a : A) → Memᴰ a xs → all p xs ≡ true → p a ≡ true
all-Memᴰ p [] a m h = absurd (Memᴰ.not-nil m)
all-Memᴰ p (x ∷ xs) a (Memᴰ.head e) h = rw e (((and-eq-true_iff _ _).0 h).0)
all-Memᴰ p (x ∷ xs) a (Memᴰ.tail m) h = all-Memᴰ p xs a m ((and-eq-true_iff _ _).0 h).1

pub get_elem?-lt {ℓ} :
    {A : Type ℓ} (xs : List A) (i : ℕ) (a : A) → get_elem? xs i ≡ some a → i < length xs
get_elem?-lt [] i a h = cc
get_elem?-lt (x ∷ xs) zero a h = omega arith
get_elem?-lt (x ∷ xs) (suc i) a h = omega (arith, get_elem?-lt xs i a h)

pub get_elem?-map {ℓ κ} :
    {A : Type ℓ} {B : Type κ} (f : A → B) (xs : List A) (i : ℕ) (a : A)
    → get_elem? xs i ≡ some a
    → get_elem? (map f xs) i ≡ some (f a)
get_elem?-map f [] i a h = cc
get_elem?-map f (x ∷ xs) zero a h = ap (λ b. some (f b)) (some-injective _ _ h)
get_elem?-map f (x ∷ xs) (suc i) a h = get_elem?-map f xs i a h

-- `keep` leaves a list alone whose elements all pass.
pub keep_all {ℓ} :
    {A : Type ℓ} (p : A → Bool) (xs : List A) → ((a : A) → Memᴰ a xs → p a ≡ true) → keep p xs ≡ xs
keep_all p [] h = refl
keep_all p (x ∷ xs) h =
    rw (h x (Memᴰ.head refl)) (ap (λ ys. x ∷ ys) (keep_all p xs (λ a m. h a (Memᴰ.tail m))))

pub keep_idem {ℓ} : {A : Type ℓ} (p : A → Bool) (xs : List A) → keep p (keep p xs) ≡ keep p xs
keep_idem p [] = refl
keep_idem p (x ∷ xs) = elim (Bool-cases (p x)) [
  | inl e ↦ rw e (rw e (ap (λ ys. x ∷ ys) (keep_idem p xs)))
  | inr e ↦ rw e (keep_idem p xs)
]

pub length-keep {ℓ} : {A : Type ℓ} (p : A → Bool) (xs : List A) → length (keep p xs) ≤ length xs
length-keep p [] = omega arith
length-keep p (x ∷ xs) = ground (arith, length-keep p xs)

pub any_iff {ℓ} :
    {A : Type ℓ} (p : A → Bool) (xs : List A)
    → (any p xs ≡ true) ↔ ((a : A) × Memᴰ a xs × (p a ≡ true))
any_iff {A = A} p xs = (λ h. found xs h, λ r. there xs r.0 r.1 r.2)
  where
    found : (xs : List A) → any p xs ≡ true → (a : A) × Memᴰ a xs × (p a ≡ true)
    found [] h = cc
    found (x ∷ xs) h = elim (Bool-cases (p x)) [
      | inl e ↦ (x, Memᴰ.head refl, e)
      | inr e ↦ let r = found xs (ground (arith, h, e)) in (r.0, Memᴰ.tail r.1, r.2)
    ]

    there : (xs : List A) (a : A) → Memᴰ a xs → p a ≡ true → any p xs ≡ true
    there [] a m h = absurd (Memᴰ.not-nil m)
    there (x ∷ xs) a (Memᴰ.head e) h = ground (arith, h, e)
    there (x ∷ xs) a (Memᴰ.tail m) h = ground (arith, there xs a m h)

kept_cons {ℓ} :
    {A : Type ℓ} (p : A → Bool) (x a : A) (xs ys : List A)
    → p x ≡ true
    → (Memᴰ a ys → Memᴰ a xs × (p a ≡ true))
    → Memᴰ a (x ∷ ys)
    → Memᴰ a (x ∷ xs) × (p a ≡ true)
kept_cons p x a xs ys e f (Memᴰ.head h) = (Memᴰ.head h, subst (λ y. p y ≡ true) (sym h) e)
kept_cons p x a xs ys e f (Memᴰ.tail m) = (Memᴰ.tail (f m).0, (f m).1)

pub Memᴰ-keep {ℓ} :
    {A : Type ℓ} (p : A → Bool) (xs : List A) (a : A)
    → Memᴰ a (keep p xs)
    → Memᴰ a xs × (p a ≡ true)
Memᴰ-keep p [] a m = absurd (Memᴰ.not-nil m)
Memᴰ-keep p (x ∷ xs) a m =
    let here : (b : Bool) → p x ≡ b → Memᴰ a (if b then x ∷ keep p xs else keep p xs) =
      λ b e. subst (λ b. Memᴰ a (if b then x ∷ keep p xs else keep p xs)) e m in
    elim (Bool-cases (p x)) [
      | inl e ↦ kept_cons p x a xs (keep p xs) e (Memᴰ-keep p xs a) (here true e)
      | inr e ↦ let r = Memᴰ-keep p xs a (here false e) in (Memᴰ.tail r.0, r.1)
    ]

pub keep-Memᴰ {ℓ} :
    {A : Type ℓ} (p : A → Bool) (xs : List A) (a : A) → Memᴰ a xs → p a ≡ true → Memᴰ a (keep p xs)
keep-Memᴰ p [] a m h = absurd (Memᴰ.not-nil m)
keep-Memᴰ p (x ∷ xs) a (Memᴰ.head e) h = rw (subst (λ y. p y ≡ true) e h) (Memᴰ.head e)
keep-Memᴰ p (x ∷ xs) a (Memᴰ.tail m) h = elim (Bool-cases (p x)) [
  | inl e ↦ rw e (Memᴰ.tail (keep-Memᴰ p xs a m h))
  | inr e ↦ rw e (keep-Memᴰ p xs a m h)
]
