-- ===== src/Vm/Error.antt =====
-- tinypipe-vm/src/error.rs: version check, errors and the result type. `out_of_fuel` is the model's.
use Prim.Native.String.{◌++◌ as str_append}
use tinypipe.Prelude.{ℕ, String, ◌≡◌, ◌≢◌, refl, ap, Bool, true, false, ltb, if◌then◌else◌}
use tinypipe.Vm.Text.{decimal}

pub data ExecutionError : Type 0 where
  cycle_detected : ExecutionError
  node_not_found : String → ExecutionError
  variable_not_found : String → ExecutionError
  call_failed : String → String → ExecutionError
  eval_error : String → ExecutionError
  loop_limit_exceeded : ℕ → ExecutionError
  time_limit_exceeded : ℕ → ExecutionError
  memory_limit_exceeded : ℕ → ℕ → ExecutionError
  node_budget_exceeded : ℕ → ℕ → ExecutionError
  recursion_depth_exceeded : ℕ → ℕ → ExecutionError
  recursion_limit_exceeded : String → ExecutionError
  custom : String → ExecutionError
  version_mismatch : String → ExecutionError
  schema_drift_detected : String → String → String → ExecutionError
  out_of_fuel : ExecutionError

pub data Result {ℓ} (A : Type ℓ) : Type ℓ where
  ok : A → Result A
  err : ExecutionError → Result A

infixl 5 ◌>>=◌
-- the operator `?`
abbrev pub ◌>>=◌ {ℓ κ} : {B : Type ℓ} {C : Type κ} → Result B → (B → Result C) → Result C
(err failure) >>= next = err failure
(ok value) >>= next = next value

-- What succeeds did so in both steps.
pub >>=-eq-ok {ℓ κ} :
    {B : Type ℓ} {C : Type κ} (act : Result B) (next : B → Result C) {out : C}
    → act >>= next ≡ ok out
    → (value : B) × (act ≡ ok value) × (next value ≡ ok out)
>>=-eq-ok (err failure) next h = cc
>>=-eq-ok (ok value) next h = (value, refl, h)

result_or {ℓ} : {A : Type ℓ} → A → Result A → A
result_or d (ok a) = a
result_or d (err e) = d

pub ok-injective {ℓ} : {A : Type ℓ} {a b : A} → ok a ≡ ok b → a ≡ b
unfolding result_or
ok-injective {a} h = ap (result_or a) h

pub ok-ne-err {ℓ} : {A : Type ℓ} {a : A} {e : ExecutionError} → ok a ≢ err e
ok-ne-err h = cc

-- `P` holds of the value, if there is one.
pub data Ensures {ℓ} {A : Type ℓ} (P : A → Type 0) : Result A → Type ℓ where
  returns : {a : A} → P a → Ensures P (ok a)
  raises : {e : ExecutionError} → Ensures P (err e)

pub Ensures-ok {ℓ} : {A : Type ℓ} {P : A → Type 0} {a : A} → Ensures P (ok a) → P a
Ensures-ok (returns h) = h

pub Ensures-bind {ℓ κ} :
    {A : Type ℓ} {B : Type κ} {P : A → Type 0} {Q : B → Type 0} {m : Result A} {f : A → Result B}
    → Ensures P m
    → ((a : A) → P a → Ensures Q (f a))
    → Ensures Q (m >>= f)
Ensures-bind (returns h) k = k _ h
Ensures-bind raises k = raises

pub Ensures-map {ℓ} :
    {A : Type ℓ} {P Q : A → Type 0} {m : Result A}
    → ((a : A) → P a → Q a)
    → Ensures P m
    → Ensures Q m
Ensures-map k (returns h) = returns (k _ h)
Ensures-map k raises = raises

-- The same where nothing is known of the first step.
pub Ensures-then {ℓ κ} :
    {A : Type ℓ} {B : Type κ} {Q : B → Type 0} (m : Result A) {f : A → Result B}
    → ((a : A) → Ensures Q (f a))
    → Ensures Q (m >>= f)
Ensures-then (ok a) k = k a
Ensures-then (err e) k = raises

pub Ensures-if {ℓ} :
    {A : Type ℓ} {P : A → Type 0} (b : Bool) {m n : Result A}
    → Ensures P m
    → Ensures P n
    → Ensures P (if b then m else n)
Ensures-if true hm hn = hm
Ensures-if false hm hn = hn

abbrev pub min_supported_version : ℕ
min_supported_version = 2

abbrev pub max_supported_version : ℕ
max_supported_version = 4

infixl 6 ◌&◌
abbrev pub ◌&◌ : String → String → String
a & b = str_append a b

-- `check_version_compatibility`, with `map_err(ExecutionError::VersionMismatch)` of its callers.
unfoldable pub check_version_compatibility : ℕ → Result (Unit {0})
check_version_compatibility version =
    if ltb version min_supported_version
    then err (
        version_mismatch (
          "IR version "
          & decimal version
          & " is too old. Minimum supported: "
          & decimal min_supported_version
          & ". Recompile the plan."))
    else if ltb max_supported_version version
    then err (
        version_mismatch (
          "IR version "
          & decimal version
          & " is too new. Maximum supported: "
          & decimal max_supported_version
          & ". Upgrade the VM."))
    else ok tt

-- the text of an error, as `#[error(…)]` says
unfoldable pub error_text : ExecutionError → String
error_text cycle_detected = "Plan contains a cycle"
error_text (node_not_found a) = "Node '" & a & "' not found"
error_text (variable_not_found a) = "Variable '" & a & "' not found in context"
error_text (call_failed a b) = "CALL dispatch failed for '" & a & "': " & b
error_text (eval_error a) = "Expression evaluation failed: " & a
error_text (loop_limit_exceeded n) = "LOOP iteration limit (" & decimal n & ") exceeded"
error_text (time_limit_exceeded n) = "Execution time limit (" & decimal n & "ms) exceeded"
error_text (memory_limit_exceeded n m) =
    "Context memory limit (" & decimal n & " bytes) exceeded (approx " & decimal m & " bytes)"
error_text (node_budget_exceeded n m) =
    "Node execution count (" & decimal n & ") exceeded plan budget (" & decimal m & ")"
error_text (recursion_depth_exceeded n m) =
    "Subgraph recursion depth (" & decimal n & ") exceeded max (" & decimal m & ")"
error_text (recursion_limit_exceeded a) = "Subgraph recursion limit exceeded for '" & a & "'"
error_text (custom a) = a
error_text (version_mismatch a) = "IR version mismatch: " & a
error_text (schema_drift_detected a b c) =
    "Schema drift detected for tool '" & a & "': compiled hash '" & b & "' != registry hash '" & c
    & "'"
error_text out_of_fuel = "out of fuel"
