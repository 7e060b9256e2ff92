-- ===== src/Compiler/Optimize/Fuse/Tracks.antt =====
-- What `calc_fusion` of tinypipe-compiler/src/backend/optimize.rs notes down for removal.
use mathlib.Core.List.{Memᴰ}
use mathlib.Core.Option.{some-injective}
use tinypipe.Prelude.{
  ◌+◌, ◌<◌, ◌≡◌, refl, sym, ap, ◌∙◌, subst, String, Bool, true, false, not, ◌&&◌, ◌||◌, Option,
  none, some, List, [], ◌∷◌, ◌++◌, has, has-append, has_head, length, str_eq, str_eq_refl, eq_iff,
  NameMap, get_name, get_name-put_name, arith, if◌then◌else◌, Bool-cases, inl, inr, ◌⊎◌,
}
use tinypipe.Ir.Plan.{is_calc}
use tinypipe.Ir.ExecutionPlan.{Node, Edge}
use tinypipe.Ir.ExecutionPlan.Order.Count.{
  IsDistinct, unfinished, unfinished-append, unfinished_nil,
}
use tinypipe.Vm.Text.{is_empty}
use tinypipe.Compiler.Optimize.Fold.{is_constant_expression}
use tinypipe.Compiler.Optimize.Fuse.Inline.{extract_variables, replace_var_in_expr}
use tinypipe.Compiler.Optimize.Fuse.{
  Inlining, push_id, definitions, define, text_arg, may_inline, put_definition, inline_text,
  inline_definition, inline_all, take_expr, calc_inlining, node_inlining, fuse_nodes,
}

IsDistinct-append :
    (xs : List String) (a : String) → IsDistinct xs → has xs a ≡ false → IsDistinct (xs ++ a ∷ [])
IsDistinct-append [] a d h = (refl, tt)
IsDistinct-append (x ∷ xs) a d h = (
  ground (arith, has-append xs (a ∷ []) x, d.0, h, eq_iff a x, eq_iff x a),
  IsDistinct-append xs a d.1 (ground (arith, h)),
)

has-push_id :
    (id : String) (xs : List String) (a : String)
    → has (push_id id xs) a ≡ (has xs a || str_eq id a)
unfolding push_id
has-push_id id xs a = elim (Bool-cases (has xs id)) [
  | inl h ↦ ground (arith, h, eq_iff id a)
  | inr h ↦ ground (arith, h, has-append xs (id ∷ []) a)
]

push_id-IsDistinct : (id : String) (xs : List String) → IsDistinct xs → IsDistinct (push_id id xs)
unfolding push_id
push_id-IsDistinct id xs d = elim (Bool-cases (has xs id)) [
  | inl h ↦ rw h d
  | inr h ↦ rw h (IsDistinct-append xs id d h)
]

some_has : (xs : List String) (a : String) → has xs a ≡ true → 0 < length xs
some_has [] a h = cc
some_has (x ∷ xs) a h = omega arith

grown_pos :
    (xs ys : List String)
    → ((a : String) → has xs a ≡ true → has ys a ≡ true)
    → 0 < length xs
    → 0 < length ys
grown_pos [] ys h lt = absurd (omega arith)
grown_pos (x ∷ xs) ys h lt = some_has ys x (h x (has_head x xs))

-- Names that are removed, each once, are missing from what is left.
unfinished_congr :
    (names xs ys : List String)
    → ((a : String) → has xs a ≡ has ys a)
    → unfinished names xs ≡ unfinished names ys
unfinished_congr [] xs ys h = refl
unfinished_congr (x ∷ names) xs ys h = ground (arith, unfinished_congr names xs ys h, h x)

pub unfinished-removed :
    (names removed : List String)
    → IsDistinct names
    → IsDistinct removed
    → ((a : String) → has removed a ≡ true → has names a ≡ true)
    → unfinished names removed + length removed ≡ length names
unfinished-removed names [] d r h = omega (arith, unfinished_nil names)
unfinished-removed names (x ∷ removed) d r h =
    let rest = unfinished-removed names removed d r.1 (λ a m. h a (ground (arith, m))) in
    let here = unfinished-append names removed x d (h x (has_head x removed)) r.0 in
    let same =
      unfinished_congr names (removed ++ x ∷ []) (x ∷ removed)
        (λ a. ground (arith, has-append removed (x ∷ []) a)) in
    omega (arith, rest, here, same)

module _ {F : Type 0} where
  -- the id of a CALC
  abbrev pub IsCalcId : List (Node F) → String → Type 0
  IsCalcId nodes a = (d : Node F) × Memᴰ d nodes × (is_calc d.op ≡ true) × (d.id ≡ a)

  -- An entry of the table is a CALC of the nodes, or was there before.
  define-cases :
      (b : Bool) (o : Option String) (n : Node F) (m : NameMap (Node F)) (var : String) (d : Node F)
      → get_name var (if b then define o n m else m) ≡ some d
      → ((d ≡ n) × (b ≡ true)) ⊎ (get_name var m ≡ some d)
  unfolding define
  define-cases false o n m var d h = inr h
  define-cases true none n m var d h = inr h
  define-cases true (some name) n m var d h =
      let put = sym (get_name-put_name name var n m) ∙ h in
      elim (Bool-cases (str_eq name var)) [
        | inl e ↦ inl (
          sym (
              some-injective _ _
                (subst (λ b. (if b then some n else get_name var m) ≡ some d) e put)),
          refl,
        )
        | inr e ↦ inr (subst (λ b. (if b then some n else get_name var m) ≡ some d) e put)
      ]

  definitions-Memᴰ :
      (ns : List (Node F)) (m : NameMap (Node F)) (var : String) (d : Node F)
      → get_name var (definitions ns m) ≡ some d
      → (Memᴰ d ns × (is_calc d.op ≡ true)) ⊎ (get_name var m ≡ some d)
  unfolding definitions
  definitions-Memᴰ [] m var d h = inr h
  definitions-Memᴰ (n ∷ ns) m var d h = elim (definitions-Memᴰ ns _ var d h) [
    | inl (mem, calc) ↦ inl (Memᴰ.tail mem, calc)
    | inr k ↦ elim (define-cases (is_calc n.op) (text_arg n "output") n m var d k) [
      | inl (same, calc) ↦ inl (Memᴰ.head same, ap (λ (x : Node F). is_calc x.op) same ∙ calc)
      | inr old ↦ inr old
    ]
  ]

  -- What is to be removed are ids of CALCs, each once, and there is one where something has changed.
  pub record Tracks (nodes : List (Node F)) (before : List String) (st : Inlining) : Type 0 where
    pub grows : (a : String) → has before a ≡ true → has st.to_remove a ≡ true
    pub known : (a : String) → has st.to_remove a ≡ true → IsCalcId nodes a
    pub distinct : IsDistinct st.to_remove
    pub any_removed : st.changed ≡ true → 0 < length st.to_remove

  module _ (nodes : List (Node F)) (before : List String) where
    take_expr-Tracks :
        (same : Bool) (expr : String) (d : Node F) (st : Inlining)
        → Memᴰ d nodes
        → is_calc d.op ≡ true
        → Tracks nodes before st
        → Tracks nodes before (take_expr same expr d st)
    unfolding take_expr
    take_expr-Tracks true expr d st mem calc k = k
    take_expr-Tracks false expr d st mem calc k = record {
      grows = λ a h. ground (arith, k.grows a h, has-push_id d.id st.to_remove a);
      known = λ a h. elim (Bool-cases (str_eq d.id a)) [
        | inl e ↦ (d, mem, calc, (eq_iff d.id a).0 e)
        | inr e ↦ k.known a (ground (arith, h, e, has-push_id d.id st.to_remove a))
      ];
      distinct = push_id-IsDistinct d.id st.to_remove k.distinct;
      any_removed = λ c.
          some_has (push_id d.id st.to_remove) d.id
            (ground (arith, has-push_id d.id st.to_remove d.id, str_eq_refl d.id));
    }

    put_definition-Tracks :
        (var text : String) (d : Node F) (st : Inlining)
        → Memᴰ d nodes
        → is_calc d.op ≡ true
        → Tracks nodes before st
        → Tracks nodes before (put_definition var text d st)
    unfolding put_definition
    put_definition-Tracks var text d st mem calc k =
        let expr = replace_var_in_expr st.expr var text in
        take_expr-Tracks (str_eq expr st.expr) expr d st mem calc k

    inline_text-Tracks :
        (names : List String) (edges : List Edge) (id var : String) (d : Node F) (o : Option String)
        (st : Inlining)
        → Memᴰ d nodes
        → is_calc d.op ≡ true
        → Tracks nodes before st
        → Tracks nodes before (inline_text names edges id var d o st)
    unfolding inline_text
    inline_text-Tracks names edges id var d none st mem calc k = k
    inline_text-Tracks names edges id var d (some text) st mem calc k =
        elim (Bool-cases (may_inline names edges id d var text)) [
          | inl e ↦ rw (inline_text, e) (put_definition-Tracks var text d st mem calc k)
          | inr e ↦ rw (inline_text, e) k
        ]

    inline_definition-Tracks :
        (names : List String) (edges : List Edge) (id var : String) (o : Option (Node F))
        (st : Inlining)
        → ((d : Node F) → o ≡ some d → Memᴰ d nodes × (is_calc d.op ≡ true))
        → Tracks nodes before st
        → Tracks nodes before (inline_definition names edges id var o st)
    unfolding inline_definition
    inline_definition-Tracks names edges id var none st h k = k
    inline_definition-Tracks names edges id var (some d) st h k =
        let r = h d refl in inline_text-Tracks names edges id var d (text_arg d "expr") st r.0 r.1 k

    module _ (names : List String) (edges : List Edge) where
      abbrev defs : NameMap (Node F)
      defs = definitions nodes []

      defs-known :
          (var : String) (d : Node F)
          → get_name var defs ≡ some d
          → Memᴰ d nodes × (is_calc d.op ≡ true)
      defs-known var d h = elim (definitions-Memᴰ nodes [] var d h) [
        | inl r ↦ r
        | inr none_there ↦ cc
      ]

      inline_all-Tracks :
          (id : String) (vars : List String) (st : Inlining)
          → Tracks nodes before st
          → Tracks nodes before (inline_all names edges defs id vars st)
      unfolding inline_all
      inline_all-Tracks id [] st k = k
      inline_all-Tracks id (var ∷ vars) st k =
          inline_all-Tracks id vars _
            (inline_definition-Tracks names edges id var (get_name var defs) st (defs-known var) k)

      calc_inlining-Tracks :
          (id : String) (o : Option String) (removed : List String)
          → ((expr : String)
              → Tracks nodes before (record { expr = expr; changed = false; to_remove = removed }))
          → Tracks nodes before (calc_inlining names edges defs id o removed)
      unfolding calc_inlining
      calc_inlining-Tracks id none removed k = k ""
      calc_inlining-Tracks id (some expr) removed k =
          elim (Bool-cases (not (is_empty expr) && not (is_constant_expression expr))) [
            | inl e ↦
                rw (calc_inlining, e) (inline_all-Tracks id (extract_variables expr) _ (k expr))
            | inr e ↦ rw (calc_inlining, e) (k expr)
          ]

      node_inlining-Tracks :
          (n : Node F) (removed : List String)
          → ((expr : String)
              → Tracks nodes before (record { expr = expr; changed = false; to_remove = removed }))
          → Tracks nodes before (node_inlining names edges defs n removed)
      unfolding node_inlining
      node_inlining-Tracks n removed k = elim (Bool-cases (is_calc n.op)) [
        | inl e ↦ rw (node_inlining, e) (calc_inlining-Tracks n.id (text_arg n "expr") removed k)
        | inr e ↦ rw (node_inlining, e) (k "")
      ]

  module _ (nodes : List (Node F)) (names : List String) (edges : List Edge) where
    abbrev pub table : NameMap (Node F)
    table = definitions nodes []

    pub one_node-Tracks :
        (n : Node F) (removed : List String)
        → ((a : String) → has removed a ≡ true → IsCalcId nodes a)
        → IsDistinct removed
        → Tracks nodes removed (node_inlining names edges table n removed)
    one_node-Tracks n removed known distinct =
        node_inlining-Tracks nodes removed names edges n removed (λ expr. record {
          grows = λ a h. h;
          known = known;
          distinct = distinct;
          any_removed = λ c. cc;
        })

    pub fuse_nodes-Tracks :
        (ns : List (Node F)) (removed : List String)
        → ((a : String) → has removed a ≡ true → IsCalcId nodes a)
        → IsDistinct removed
        → Tracks nodes removed (record {
          expr = "";
          changed = (fuse_nodes names edges table ns removed).2;
          to_remove = (fuse_nodes names edges table ns removed).1;
        })
    unfolding fuse_nodes
    fuse_nodes-Tracks [] removed known distinct = record {
      grows = λ a h. h;
      known = known;
      distinct = distinct;
      any_removed = λ c. cc;
    }
    fuse_nodes-Tracks (n ∷ ns) removed known distinct = elim (Bool-cases (has removed n.id)) [
      | inl e ↦ rw e (fuse_nodes-Tracks ns removed known distinct)
      | inr e ↦
          let st = node_inlining names edges table n removed in
          let here = one_node-Tracks n removed known distinct in
          let rest = fuse_nodes-Tracks ns st.to_remove here.known here.distinct in
          rw e (record {
            grows = λ a h. rest.grows a (here.grows a h);
            known = rest.known;
            distinct = rest.distinct;
            any_removed = λ c. elim (Bool-cases st.changed) [
              | inl k ↦ grown_pos st.to_remove _ rest.grows (here.any_removed k)
              | inr k ↦ rest.any_removed (ground (arith, c, k))
            ];
          })
    ]
