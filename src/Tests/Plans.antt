-- ===== src/Tests/Plans.antt =====
-- A plan with text ids that several tests use.
use tinypipe.Prelude.{ℕ, String, ◌≡◌, refl, none, some, List, [], ◌∷◌}
use tinypipe.Ir.Plan.{Opcode, input, calc, act, data_kind}
use tinypipe.Ir.ExecutionPlan.{ExecutionPlan, Node, Edge, Arg, ArgValue, string, default_metadata}
use tinypipe.Ir.ExecutionPlan.Order.{topological_order, sorted}

abbrev pub node : String → Opcode → List (Arg ℕ) → Node ℕ
node id op args = record { id = id; op = op; args = args; branch_id = none; group = some "all" }

abbrev pub edge : String → String → Edge
edge a b = record {
  from = a;
  to = b;
  condition = none;
  mapping = none;
  priority = none;
  label = none;
  kind = data_kind;
}

abbrev pub arg : String → String → Arg ℕ
arg key value = record { key = key; value = string value }

-- an input, a constant CALC, a CALC that nothing uses, and a return
abbrev pub source : ExecutionPlan ℕ
source = record {
  version = 3;
  nodes =
      node "a" input (arg "name" "x" ∷ [])
      ∷ node "b" calc (arg "output" "t" ∷ arg "expr" "20 - 62" ∷ [])
      ∷ node "c" calc (arg "expr" "x" ∷ [])
      ∷ node "d" act (arg "type" "return" ∷ [])
      ∷ [];
  edges = edge "a" "b" ∷ edge "b" "d" ∷ [];
  metadata = default_metadata 4 2;
}

abbrev pub json : ArgValue ℕ → String
json v = "null"

abbrev pub order : List (Node ℕ)
order =
    node "c" calc (arg "expr" "x" ∷ [])
    ∷ node "a" input (arg "name" "x" ∷ [])
    ∷ node "b" calc (arg "output" "t" ∷ arg "expr" "20 - 62" ∷ [])
    ∷ node "d" act (arg "type" "return" ∷ [])
    ∷ []

pub order_of_source : topological_order source ≡ sorted order
unfolding topological_order
order_of_source = refl
