-- ===== src/Compiler/Validate/Args.antt =====
-- `validate_node_args` of tinypipe-compiler/src/validator.rs, and its check that an INPUT has a name.
use Prim.Native.String.{◌++◌ as ◌<>◌}
use tinypipe.Prelude.{
  String, List, [], ◌∷◌, ◌++◌, ◌≡◌, refl, ◌↔◌, true, All, if◌then◌else◌, Bool-cases, inl, inr,
}
use tinypipe.Ir.Plan.{
  Opcode, input, call, calc, decide, switch, act, parallel, loop, wait, merge, error, is_input,
  debug_name,
}
use tinypipe.Ir.ExecutionPlan.{Node, has_arg}
use tinypipe.Compiler.Validate.Errors.{ValidationError, error_at, unless, unless_iff, append_iff}

-- the arguments that an opcode cannot do without
abbrev pub required : Opcode → List String
required input = "name" ∷ []
required call = "type" ∷ "target" ∷ []
required decide = "condition" ∷ []
required switch = "condition" ∷ []
required act = "type" ∷ []
required loop = "max_iterations" ∷ []
required error = "message" ∷ []
required calc = []
required parallel = []
required wait = []
required merge = []

module _ {F : Type 0} where
  -- the closure `missing`
  unfoldable pub missing : Node F → String → List ValidationError
  unfolding debug_name unless
  missing n key =
      unless (has_arg n.args key)
        (error_at n.id (debug_name n.op <> " node missing required argument `" <> key <> "`"))

  args_errors : Opcode → Node F → List ValidationError
  unfolding missing
  args_errors input n = missing n "name"
  args_errors call n = missing n "type" ++ missing n "target"
  args_errors calc n = []
  args_errors decide n = missing n "condition"
  args_errors switch n = missing n "condition"
  args_errors act n = missing n "type"
  args_errors parallel n = []
  args_errors loop n = missing n "max_iterations"
  args_errors wait n = []
  args_errors merge n = []
  args_errors error n = missing n "message"

  unfoldable pub validate_node_args : Node F → List ValidationError
  unfolding args_errors
  validate_node_args n = args_errors n.op n

  -- the check 10 of `validate`
  unfoldable pub input_name_errors : Node F → List ValidationError
  unfolding unless
  input_name_errors n =
      if is_input n.op
      then unless (has_arg n.args "name")
          (error_at n.id "INPUT node missing required `name` argument")
      else []

  abbrev pub HasArgs : Node F → Type 0
  HasArgs n = All (λ key. has_arg n.args key ≡ true) (required n.op)

  missing_iff : (n : Node F) (key : String) → (missing n key ≡ []) ↔ (has_arg n.args key ≡ true)
  unfolding missing
  missing_iff n key = unless_iff (has_arg n.args key) _

  one_missing_iff :
      (n : Node F) (key : String)
      → (missing n key ≡ []) ↔ All (λ k. has_arg n.args k ≡ true) (key ∷ [])
  one_missing_iff n key = (λ h. ((missing_iff n key).0 h, tt), λ k. (missing_iff n key).1 k.0)

  args_errors_iff :
      (op : Opcode) (n : Node F)
      → (args_errors op n ≡ []) ↔ All (λ key. has_arg n.args key ≡ true) (required op)
  unfolding args_errors
  args_errors_iff input n = one_missing_iff n "name"
  args_errors_iff call n = (
    λ h. (
      (missing_iff n "type").0 ((append_iff _ _).0 h).0,
      ((missing_iff n "target").0 ((append_iff _ _).0 h).1, tt),
    ),
    λ k. (append_iff _ _).1 ((missing_iff n "type").1 k.0, (missing_iff n "target").1 k.1.0),
  )
  args_errors_iff calc n = (λ h. tt, λ k. refl)
  args_errors_iff decide n = one_missing_iff n "condition"
  args_errors_iff switch n = one_missing_iff n "condition"
  args_errors_iff act n = one_missing_iff n "type"
  args_errors_iff parallel n = (λ h. tt, λ k. refl)
  args_errors_iff loop n = one_missing_iff n "max_iterations"
  args_errors_iff wait n = (λ h. tt, λ k. refl)
  args_errors_iff merge n = (λ h. tt, λ k. refl)
  args_errors_iff error n = one_missing_iff n "message"

  pub validate_node_args_iff : (n : Node F) → (validate_node_args n ≡ []) ↔ HasArgs n
  unfolding validate_node_args
  validate_node_args_iff n = args_errors_iff n.op n

  named_input :
      (op : Opcode) (n : Node F)
      → All (λ key. has_arg n.args key ≡ true) (required op)
      → is_input op ≡ true
      → has_arg n.args "name" ≡ true
  named_input input n h e = h.0
  named_input call n h e = cc
  named_input calc n h e = cc
  named_input decide n h e = cc
  named_input switch n h e = cc
  named_input act n h e = cc
  named_input parallel n h e = cc
  named_input loop n h e = cc
  named_input wait n h e = cc
  named_input merge n h e = cc
  named_input error n h e = cc

  -- The check 10 finds nothing that `validate_node_args` has not found.
  pub input_name_errors-HasArgs : (n : Node F) → HasArgs n → input_name_errors n ≡ []
  unfolding input_name_errors
  input_name_errors-HasArgs n h = elim (Bool-cases (is_input n.op)) [
    | inl e ↦ rw e ((unless_iff _ _).1 (named_input n.op n h e))
    | inr e ↦ rw e refl
  ]
