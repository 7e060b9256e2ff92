-- ===== src/Vm/Eval/Values.antt =====
-- The values that the evaluator of tinypipe-vm/src/compiled_executor.rs compares, measures and takes apart.
use Prim.Native.String.{◌++◌ as ◌<>◌}
use tinypipe.Prelude.{
  ℕ, zero, suc, ◌+◌, ◌-◌, ◌%◌, ◌^◌, String, Bool, true, false, not, Option, none, some, ltb, ◌==◌,
  str_eq, if◌then◌else◌, ◌⊎◌, inl, inr,
}
use tinypipe.Api.Int.{ℤ, pos, negsuc, eq_ℤ, pos_part, neg_part, sub_ℕ}
use tinypipe.Api.Value.{
  Value, null, bool, int, float, string, array, object, Items, nil, cons, Fields, end, field, get,
  Floats, as_f64,
}
use tinypipe.Vm.Error.{Result, ok, err, eval_error}
use tinypipe.Vm.Text.{decimal, decimal_ℤ, is_empty, length, parse_u64}

-- What the evaluator takes from the Rust library and from serde_json.
pub record Reading (F : Type 0) : Type 0 where
  -- `serde_json::from_str::<String>`
  pub json_text : String → Option String
  -- `str::parse::<f64>`, `f64::to_string` and `as i64`
  pub parse_f64 : String → Option F
  pub float_text : F → String
  pub to_i64 : F → ℤ
  -- `(x - y).abs() < f64::EPSILON`
  pub close : F → F → Bool
  pub le : F → F → Bool

module _ {F : Type 0} where
  -- `type_name`
  unfoldable pub type_name : Value F → String
  type_name null = "null"
  type_name (bool b) = "bool"
  type_name (int i) = "int"
  type_name (float f) = "float"
  type_name (string s) = "string"
  type_name (array vs) = "array"
  type_name (object m) = "object"

  unfoldable pub count_items : Items F → ℕ
  count_items nil = 0
  count_items (cons v vs) = suc (count_items vs)

  unfoldable pub count_fields : Fields F → ℕ
  count_fields end = 0
  count_fields (field k v m) = suc (count_fields m)

  unfoldable pub item_at : Items F → ℕ → Option (Value F)
  item_at nil i = none
  item_at (cons v vs) zero = some v
  item_at (cons v vs) (suc i) = item_at vs i

  -- `len(…)`
  unfoldable pub len_of : Value F → Result (Value F)
  unfolding count_items count_fields length type_name
  len_of (array vs) = ok (int (pos (count_items vs)))
  len_of (string s) = ok (int (pos (length s)))
  len_of (object m) = ok (int (pos (count_fields m)))
  len_of v = err (eval_error ("len() requires an array, string or object, got: " <> type_name v))

  -- The element at an index of an array, or its error. A negative one counts from the end.
  unfoldable pub at_index : Items F → ℤ → Option (Value F)
  unfolding item_at count_items
  at_index vs (pos i) = item_at vs i
  at_index vs (negsuc i) =
      if ltb i (count_items vs) then item_at vs (count_items vs - suc i) else none

  or_message : String → Option (Value F) → Value F ⊎ String
  or_message message none = inr message
  or_message message (some v) = inl v

  unfoldable pub at_number : Items F → Option ℕ → Option (Value F)
  unfolding item_at
  at_number vs none = none
  at_number vs (some i) = item_at vs i

  -- `.name` of a value, or the message
  unfoldable pub take_field : String → Value F → String → Value F ⊎ String
  unfolding or_message get at_number parse_u64
  take_field message (object m) name = or_message message (get name m)
  take_field message (array vs) name = or_message message (at_number vs (parse_u64 name))
  take_field message v name = inr message

  unfoldable pub field_at : String → Fields F → Value F ⊎ String
  unfolding or_message get
  field_at k m = or_message ("subscript: key \"" <> k <> "\" not found") (get k m)

  -- `v[key]`, or the message
  unfoldable pub take_index : Value F → Value F → Value F ⊎ String
  unfolding or_message at_index field_at decimal decimal_ℤ count_items type_name
  take_index (array vs) (int i) =
      or_message
        ("subscript: index "
          <> decimal_ℤ i
          <> " out of bounds (len "
          <> decimal (count_items vs)
          <> ")")
        (at_index vs i)
  take_index (object m) (string k) = field_at k m
  take_index (object m) (int k) = field_at (decimal_ℤ k) m
  take_index (array vs) (string k) =
      inr ("subscript: array cannot be indexed by string \"" <> k <> "\"")
  take_index null key = inr "subscript: cannot subscript null"
  take_index v key = inr ("subscript: cannot subscript value of type " <> type_name v)

abbrev is_zero_ℤ : ℤ → Bool
is_zero_ℤ (pos n) = n == 0
is_zero_ℤ (negsuc n) = false

module _ {F : Type 0} (fl : Floats F) where
  unfoldable pub is_truthy : Value F → Bool
  unfolding is_empty
  is_truthy (bool b) = b
  is_truthy null = false
  is_truthy (int i) = not (is_zero_ℤ i)
  is_truthy (float f) = not (fl.eq_zero f)
  is_truthy (string s) = not (is_empty s)
  is_truthy (array vs) = true
  is_truthy (object m) = true

module _ {F : Type 0} (fl : Floats F) (r : Reading F) where
  -- `values_equal`
  unfoldable pub values_equal : Value F → Value F → Bool
  values_equal null null = true
  values_equal (bool true) (bool b) = b
  values_equal (bool false) (bool b) = not b
  values_equal (int a) (int b) = eq_ℤ a b
  values_equal (float a) (float b) = r.close a b
  values_equal (string a) (string b) = str_eq a b
  values_equal (int a) (float b) = r.close (fl.of_int a) b
  values_equal (float a) (int b) = r.close a (fl.of_int b)
  values_equal _ _ = false

  both : (F → F → Bool) → Option F → Option F → Bool
  both test (some a) (some b) = test a b
  both test _ _ = false

  -- `compare_values`
  unfoldable pub compare_values : Value F → Value F → (F → F → Bool) → Bool
  unfolding both as_f64
  compare_values a b test = both test (as_f64 fl a) (as_f64 fl b)

  -- `concat_part`
  unfoldable pub concat_part : Value F → Option String
  unfolding decimal_ℤ
  concat_part null = none
  concat_part (bool b) = some (if b then "true" else "false")
  concat_part (int i) = some (decimal_ℤ i)
  concat_part (float f) = some (r.float_text f)
  concat_part (string s) = some s
  concat_part _ = none

  -- an argument of `range(…)`
  unfoldable pub range_number : Value F → Result ℤ
  unfolding type_name
  range_number (int i) = ok i
  range_number (float f) = ok (r.to_i64 f)
  range_number v = err (eval_error ("range() arguments must be integers, got: " <> type_name v))

-- `i64` arithmetic wraps around, as in a release build.
unfoldable pub wrapped : ℤ → ℤ
wrapped z =
    let shifted = (pos_part z + 2 ^ 63 + 2 ^ 64 - neg_part z % 2 ^ 64) % 2 ^ 64 in
    sub_ℕ shifted (2 ^ 63)
