-- ===== src/Ir/EnvDeps/Scan.antt =====
-- What `scan_plan_env_deps` of tinypipe-ir/src/env_deps.rs finds in a plan that
-- `CompiledPlan::from_execution_plan` of tinypipe-ir/src/compiled.rs gives.
use mathlib.Core.List.{Memᴰ}
use mathlib.Core.List.Memᴰ
use tinypipe.Prelude.{
  ℕ, suc, ◌%◌, ◌^◌, String, ◌≡◌, ◌↔◌, inl, inr, refl, sym, ap, subst, true, Option, none, some,
  List, [], ◌∷◌, ◌++◌, map, Bool-cases, arith,
}
use tinypipe.Ir.Plan
use tinypipe.Ir.Plan.{is_call}
use tinypipe.Ir.ExecutionPlan
use tinypipe.Ir.ExecutionPlan.{
  ExecutionPlan, Arg, ArgValue, string, int, float, bool, null, array, object, find_arg,
}
use tinypipe.Ir.Compile.{add_group, compile_arg, compile_node, compile_nodes, from_execution_plan}
use tinypipe.Ir.EnvDeps.{
  EnvDep, literal, literal_arg, has_arg, deps_for, node_deps, scan_nodes, scan_plan_env_deps,
}
use tinypipe.Ir.EnvDeps.Calls.{Follows, deps_for_iff}

module _ {F : Type 0} (json : ArgValue F → String) (json_string : String → Option String) where
  -- How a value is written in the compiled plan.
  unfoldable pub written : ArgValue F → String
  written (string s) = s
  written v = json v

  written_value : Option (ArgValue F) → Option String
  unfolding written
  written_value none = none
  written_value (some v) = some (written v)

  -- the text that an argument of a node is the JSON literal of, if it is one
  unfoldable pub literal_at : ExecutionPlan.Node F → String → Option String
  unfolding written_value literal
  literal_at n key = literal json_string (written_value (find_arg n.args key))

  compile_arg-written : (a : Arg F) → (compile_arg json a).value ≡ written a.value
  unfolding compile_arg written
  compile_arg-written a =
      elim a.value
        as (λ v. (compile_arg json (record { key = a.key; value = v })).value ≡ written v) [
          | string s ↦ refl
          | int n ↦ refl
          | float x ↦ refl
          | bool b ↦ refl
          | null ↦ refl
          | array vs ↦ refl
          | object fs ↦ refl
        ]

  compile_arg-key : (a : Arg F) → (compile_arg json a).key ≡ a.key
  unfolding compile_arg
  compile_arg-key a = refl

  compile_arg-find :
      (args : List (Arg F)) (key : String)
      → Plan.find_arg (map (compile_arg json) args) key ≡ written_value (find_arg args key)
  unfolding written_value
  compile_arg-find [] key = refl
  compile_arg-find (a ∷ args) key =
      ground (arith, compile_arg-key a, compile_arg-written a, compile_arg-find args key)

  compile_arg-has :
      (args : List (Arg F)) (key : String)
      → has_arg (map (compile_arg json) args) key ≡ ExecutionPlan.has_arg args key
  compile_arg-has [] key = refl
  compile_arg-has (a ∷ args) key = ground (arith, compile_arg-key a, compile_arg-has args key)

  -- the dependencies of a CALL of the plan with text ids
  abbrev pub Needs : ExecutionPlan.Node F → EnvDep → Type 0
  Needs n dep =
      (is_call n.op ≡ true)
      × Follows (literal_at n "target") (literal_at n "key") (literal_at n "value")
          (ExecutionPlan.has_arg n.args "default") dep

  literal_arg-compile_node :
      (k : ℕ) (table : List String) (n : ExecutionPlan.Node F) (key : String)
      → literal_arg json_string (compile_node json k table n) key ≡ literal_at n key
  unfolding compile_node literal_arg literal_at
  literal_arg-compile_node k table n key = ap (literal json_string) (compile_arg-find n.args key)

  node_deps_iff :
      (k : ℕ) (table : List String) (n : ExecutionPlan.Node F) (dep : EnvDep)
      → Memᴰ dep (node_deps json_string (compile_node json k table n)) ↔ Needs n dep
  unfolding node_deps compile_node
  node_deps_iff k table n dep =
      let c = compile_node json k table n in
      elim (Bool-cases (is_call n.op)) [
        | inl e ↦
            let found = deps_for_iff json_string c dep (literal_arg json_string c "target") in
            let same : Memᴰ dep (deps_for json_string c (literal_arg json_string c "target"))
                ↔ Follows (literal_at n "target") (literal_at n "key") (literal_at n "value")
                    (ExecutionPlan.has_arg n.args "default") dep =
              rw
                (
                  sym (literal_arg-compile_node k table n "target"),
                  sym (literal_arg-compile_node k table n "key"),
                  sym (literal_arg-compile_node k table n "value"),
                  sym (compile_arg-has n.args "default"),
                )
                found in
            rw e (λ m. (refl, same.0 m), λ (_, s). same.1 s)
        | inr e ↦ rw e (λ m. absurd (Memᴰ.not-nil m), λ (h, _). cc)
      ]

  scan_nodes_iff :
      (k : ℕ) (table : List String) (ns : List (ExecutionPlan.Node F)) (dep : EnvDep)
      → Memᴰ dep (scan_nodes json_string (compile_nodes json k table ns))
        ↔ ((n : ExecutionPlan.Node F) × Memᴰ n ns × Needs n dep)
  unfolding scan_nodes compile_nodes
  scan_nodes_iff k table [] dep =
      (λ m. absurd (Memᴰ.not-nil m), λ (n, m, _). absurd (Memᴰ.not-nil m))
  scan_nodes_iff k table (n ∷ ns) dep =
      let here = node_deps_iff (k % 2 ^ 32) table n dep in
      let rest = scan_nodes_iff (suc k) (add_group n.group table) ns dep in
      let first = node_deps json_string (compile_node json (k % 2 ^ 32) table n) in
      (
        λ m. elim (Memᴰ.append_cases first m) [
          | inl l ↦ (n, Memᴰ.head refl, here.0 l)
          | inr r ↦ let (o, there, need) = rest.0 r in (o, Memᴰ.tail there, need)
        ],
        λ (o, there, need). back first o there need here.1 rest.1,
      )
    where
      back :
          {later : List EnvDep} (first : List EnvDep) (o : ExecutionPlan.Node F)
          → Memᴰ o (n ∷ ns)
          → Needs o dep
          → (Needs n dep → Memᴰ dep first)
          → ((o : ExecutionPlan.Node F) × Memᴰ o ns × Needs o dep → Memᴰ dep later)
          → Memᴰ dep (first ++ later)
      back first o (Memᴰ.head e) need h t = Memᴰ.append_left _ (h (subst (λ x. Needs x dep) e need))
      back first o (Memᴰ.tail m) need h t = Memᴰ.append_right first (t (o, m, need))

  -- A scan of the compiled form of a plan finds a dependency if and only if a CALL of the plan needs
  -- it: one whose target is a JSON literal of `env.get`, with a literal key, which is optional if and
  -- only if there is a default, or one whose target is a JSON literal of `env.template`, with a literal
  -- value among whose keys it is. An argument that is a text counts as it stands, others as they are
  -- written in JSON.
  pub scan_plan_env_deps_iff :
      (plan : ExecutionPlan F) (optimizations : List String) (dep : EnvDep)
      → Memᴰ dep (scan_plan_env_deps json_string (from_execution_plan json plan optimizations))
        ↔ ((n : ExecutionPlan.Node F) × Memᴰ n plan.nodes × Needs n dep)
  unfolding scan_plan_env_deps from_execution_plan
  scan_plan_env_deps_iff plan optimizations dep = scan_nodes_iff 0 [] plan.nodes dep
