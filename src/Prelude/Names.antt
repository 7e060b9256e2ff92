-- ===== src/Prelude/Names.antt =====
-- Sets and hash maps keyed by texts, as lists.
use mathlib.Core.Path.{◌≡◌, refl}
use mathlib.Core.Bool.{Bool, true, false, ◌||◌}
use mathlib.Core.List.{List, [], ◌∷◌, ◌++◌}
use mathlib.Core.Option.{Option, none, some}
use Prim.Native.String.{String}
use native.Mathlib.Omega.{arith}
use text.Mathlib.TextEquality.{eq_iff}
use tinypipe.Prelude.Tests.{str_eq, if◌then◌else◌}

-- `HashSet<&str>::contains` and `Vec<String>::contains`
abbrev pub has : List String → String → Bool
has [] a = false
has (x ∷ xs) a = str_eq x a || has xs a

pub has-append : (xs ys : List String) (a : String) → has (xs ++ ys) a ≡ (has xs a || has ys a)
has-append [] ys a = refl
has-append (x ∷ xs) ys a = ground (arith, has-append xs ys a)

pub str_eq_refl : (a : String) → str_eq a a ≡ true
str_eq_refl a = (eq_iff a a).1 refl

pub has_head : (x : String) (xs : List String) → has (x ∷ xs) x ≡ true
has_head x xs = ground (arith, str_eq_refl x)

abbrev pub NameMap {ℓ} : Type ℓ → Type ℓ
NameMap V = List (String × V)

module _ {ℓ} {V : Type ℓ} where
  abbrev pub get_name : String → NameMap V → Option V
  get_name k [] = none
  get_name k ((j, v) ∷ m) = if str_eq j k then some v else get_name k m

  abbrev pub put_name : String → V → NameMap V → NameMap V
  put_name k v [] = (k, v) ∷ []
  put_name k v ((j, w) ∷ m) = if str_eq j k then (k, v) ∷ m else (j, w) ∷ put_name k v m

  pub get_name-put_name :
      (k j : String) (v : V) (m : NameMap V)
      → get_name j (put_name k v m) ≡ (if str_eq k j then some v else get_name j m)
  get_name-put_name k j v [] = refl
  get_name-put_name k j v ((i, w) ∷ m) =
      ground (arith, eq_iff k j, eq_iff i k, eq_iff i j, get_name-put_name k j v m)
