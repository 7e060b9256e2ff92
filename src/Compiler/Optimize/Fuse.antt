-- ===== src/Compiler/Optimize/Fuse.antt =====
-- `calc_fusion` of tinypipe-compiler/src/backend/optimize.rs.
pub mod Words
pub mod Inline
pub mod Tracks
pub mod Round
pub mod Laws
use tinypipe.Prelude.{
  ℕ, zero, suc, ◌+◌, String, Bool, true, false, not, ◌&&◌, ◌||◌, ◌==◌, Option, none, some, List, [],
  ◌∷◌, ◌++◌, any, keep, has, length, str_eq, if◌then◌else◌, NameMap, get_name, put_name,
}
use tinypipe.Ir.Plan.{is_calc}
use tinypipe.Ir.ExecutionPlan.{
  ExecutionPlan, Node, Edge, Arg, ArgValue, string, find_arg, text_arg, ids,
}
use tinypipe.Vm.Text.{is_empty}
use tinypipe.Compiler.Optimize.Fold.{is_constant_expression}
use tinypipe.Compiler.Optimize.Dead.{joins}
use tinypipe.Compiler.Optimize.Fuse.Inline.{extract_variables, replace_var_in_expr}

-- `consumer_count` of a node: the edges that leave it, between the ids
unfoldable pub consumers : List String → List Edge → String → ℕ
consumers names edges id = length (keep (λ (e : Edge). joins names e && str_eq e.from id) edges)

-- what a node's expression becomes, and which nodes are to be removed
pub record Inlining : Type 0 where
  pub expr : String
  pub changed : Bool
  pub to_remove : List String

-- `to_remove.push`, unless the id is there
unfoldable pub push_id : String → List String → List String
push_id id names = if has names id then names else names ++ id ∷ []

module _ {F : Type 0} where
  define : Option String → Node F → NameMap (Node F) → NameMap (Node F)
  define none n m = m
  define (some name) n m = put_name name n m

  -- `var_to_node`
  unfoldable pub definitions : List (Node F) → NameMap (Node F) → NameMap (Node F)
  unfolding define text_arg
  definitions [] m = m
  definitions (n ∷ ns) m =
      definitions ns (if is_calc n.op then define (text_arg n "output") n m else m)

  -- The definition may be inlined: this node is its only consumer, and it does not refer to itself.
  unfoldable pub may_inline : List String → List Edge → String → Node F → String → String → Bool
  unfolding consumers extract_variables
  may_inline names edges id def var text =
      is_calc def.op
      && consumers names edges def.id == 1
      && any (λ (e : Edge). str_eq e.from def.id && str_eq e.to id) edges
      && not (has (extract_variables text) var)

  -- the new expression, where it is another one
  unfoldable pub take_expr : Bool → String → Node F → Inlining → Inlining
  unfolding push_id
  take_expr same expr def st =
      if same
      then st
      else record { expr = expr; changed = true; to_remove = push_id def.id st.to_remove }

  -- the replacement of one variable by the text of its definition
  unfoldable pub put_definition : String → String → Node F → Inlining → Inlining
  unfolding replace_var_in_expr take_expr
  put_definition var text def st =
      let expr = replace_var_in_expr st.expr var text in take_expr (str_eq expr st.expr) expr def st

  inline_text :
      List String → List Edge → String → String → Node F → Option String → Inlining → Inlining
  unfolding may_inline put_definition
  inline_text names edges id var def none st = st
  inline_text names edges id var def (some text) st =
      if may_inline names edges id def var text then put_definition var text def st else st

  unfoldable pub inline_definition :
      List String → List Edge → String → String → Option (Node F) → Inlining → Inlining
  unfolding inline_text text_arg
  inline_definition names edges id var none st = st
  inline_definition names edges id var (some def) st =
      inline_text names edges id var def (text_arg def "expr") st

  -- `for var in &vars`
  unfoldable pub inline_all :
      List String → List Edge → NameMap (Node F) → String → List String → Inlining → Inlining
  unfolding inline_definition
  inline_all names edges defs id [] st = st
  inline_all names edges defs id (var ∷ vars) st =
      inline_all names edges defs id vars
        (inline_definition names edges id var (get_name var defs) st)

  set_expr : String → List (Arg F) → List (Arg F)
  set_expr expr [] = []
  set_expr expr (a ∷ args) =
      let rest = set_expr expr args in
      if str_eq a.key "expr" then record a { value = string expr } ∷ args else a ∷ rest

  -- a CALC's inlining; other nodes and constant expressions have none
  calc_inlining :
      List String → List Edge → NameMap (Node F) → String → Option String → List String → Inlining
  unfolding inline_all extract_variables is_constant_expression is_empty
  calc_inlining names edges defs id none removed = record {
    expr = "";
    changed = false;
    to_remove = removed;
  }
  calc_inlining names edges defs id (some expr) removed =
      let start : Inlining = record { expr = expr; changed = false; to_remove = removed } in
      if not (is_empty expr) && not (is_constant_expression expr)
      then inline_all names edges defs id (extract_variables expr) start
      else start

  unfoldable pub node_inlining :
      List String → List Edge → NameMap (Node F) → Node F → List String → Inlining
  unfolding calc_inlining text_arg
  node_inlining names edges defs n removed =
      if is_calc n.op
      then calc_inlining names edges defs n.id (text_arg n "expr") removed
      else record { expr = ""; changed = false; to_remove = removed }

  unfoldable pub with_expr : Inlining → Node F → Node F
  unfolding set_expr
  with_expr st n = if st.changed then record n { args = set_expr st.expr n.args } else n

  -- One round over the nodes: `new_nodes`, `to_remove` and `changed`. A node that is to be removed is
  -- passed over.
  unfoldable pub fuse_nodes :
      List String
      → List Edge
      → NameMap (Node F)
      → List (Node F)
      → List String
      → List (Node F) × List String × Bool
  unfolding node_inlining with_expr
  fuse_nodes names edges defs [] removed = ([], removed, false)
  fuse_nodes names edges defs (n ∷ ns) removed =
      let here = has removed n.id in
      let st = node_inlining names edges defs n removed in
      let rest = fuse_nodes names edges defs ns (if here then removed else st.to_remove) in
      if here then rest else (with_expr st n ∷ rest.0, rest.1, st.changed || rest.2)

  unfoldable pub fuse_round : List Edge → List (Node F) → List (Node F) × List String × Bool
  unfolding fuse_nodes definitions
  fuse_round edges nodes = fuse_nodes (ids nodes) edges (definitions nodes []) nodes []

  unfoldable pub without : List String → List (Node F) → List (Node F)
  without removed nodes = keep (λ (n : Node F). not (has removed n.id)) nodes

  -- `while changed`; `none` is out of fuel.
  unfoldable pub fuse_loop : ℕ → List Edge → List (Node F) → ℕ → Option (List (Node F) × ℕ)
  unfolding fuse_round without
  fuse_loop zero edges nodes fused = none
  fuse_loop (suc fuel) edges nodes fused =
      let round = fuse_round edges nodes in
      let rest = fuse_loop fuel edges (without round.1 round.0) (fused + length round.1) in
      if round.2 then rest else some (nodes, fused)

  kept : ExecutionPlan F → Option (List (Node F) × ℕ) → Option (ExecutionPlan F × ℕ)
  kept plan none = none
  kept plan (some (nodes, fused)) =
      some (record plan { nodes = nodes; edges = keep (joins (ids nodes)) plan.edges }, fused)

  -- Each round but the last removes a node, so the nodes and one more are rounds enough.
  unfoldable pub calc_fusion : ExecutionPlan F → Option (ExecutionPlan F × ℕ)
  unfolding fuse_loop kept
  calc_fusion plan = kept plan (fuse_loop (length plan.nodes + 1) plan.edges plan.nodes 0)
