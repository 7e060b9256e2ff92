-- ===== src/Api/Value.antt =====
-- `Value` of tinypipe-api/src/types.rs. `F` stands for `f64`, whose operations are `Floats F`; an
-- object's `HashMap` is a list of fields with the keys in the order of their first insertion.
use tinypipe.Prelude.{
  String, ◌≡◌, refl, Bool, Option, none, some, str_eq, if◌then◌else◌, arith, eq_iff,
}
use tinypipe.Api.Int.{ℤ, checked_add as checked_add_i64}

mutual
  pub data Value (F : Type 0) : Type 0 where
    null : Value F
    bool : Bool → Value F
    int : ℤ → Value F
    float : F → Value F
    string : String → Value F
    array : Items F → Value F
    object : Fields F → Value F

  pub data Items (F : Type 0) : Type 0 where
    nil : Items F
    cons : Value F → Items F → Items F

  pub data Fields (F : Type 0) : Type 0 where
    end : Fields F
    field : String → Value F → Fields F → Fields F

-- What the program uses of `f64`.
pub record Floats (F : Type 0) : Type 0 where
  pub of_int : ℤ → F
  pub add : F → F → F
  pub halve : F → F
  pub lt : F → F → Bool
  pub eq_zero : F → Bool

module _ {F : Type 0} where
  -- `HashMap::get`, `insert`, and `insert` for each field of another map.
  unfoldable pub get : String → Fields F → Option (Value F)
  get k end = none
  get k (field j v m) = if str_eq j k then some v else get k m

  unfoldable pub insert : String → Value F → Fields F → Fields F
  insert k v end = field k v end
  insert k v (field j w m) = if str_eq j k then field k v m else field j w (insert k v m)

  unfoldable pub extend : Fields F → Fields F → Fields F
  unfolding insert
  extend m end = m
  extend m (field k v rest) = extend (insert k v m) rest

  unfoldable pub append_items : Items F → Items F → Items F
  append_items nil ys = ys
  append_items (cons x xs) ys = cons x (append_items xs ys)

  -- `ground` is given `eq_iff` at each pair of texts that is compared.
  pub get-insert :
      (k j : String) (v : Value F) (m : Fields F)
      → get j (insert k v m) ≡ (if str_eq k j then some v else get j m)
  unfolding get insert
  get-insert k j v end = refl
  get-insert k j v (field i w m) =
      ground (arith, eq_iff k j, eq_iff i k, eq_iff i j, get-insert k j v m)

module _ {F : Type 0} (fl : Floats F) where
  -- `Value::as_f64`
  unfoldable pub as_f64 : Value F → Option F
  as_f64 (float f) = some f
  as_f64 (int i) = some (fl.of_int i)
  as_f64 _ = none

  -- `Value::checked_add`
  unfoldable pub checked_add : Value F → Value F → Option (Value F)
  unfolding checked_add_i64
  checked_add (int a) (int b) = elim (checked_add_i64 a b) [ none ↦ none | some c ↦ some (int c) ]
  checked_add (float a) (float b) = some (float (fl.add a b))
  checked_add (int a) (float b) = some (float (fl.add (fl.of_int a) b))
  checked_add (float a) (int b) = some (float (fl.add a (fl.of_int b)))
  checked_add _ _ = none
