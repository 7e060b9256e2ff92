-- ===== src/Api/Context/Laws.antt =====
-- What `Context` of tinypipe-api/src/types.rs promises: reads after writes, and isolated branches.
use tinypipe.Prelude.{
  ℕ, String, ◌≡◌, ◌≢◌, refl, sym, subst, Bool, true, false, Option, none, some, arith, ◌==◌, str_eq,
  if◌then◌else◌, lookup, lookup-put, ==_iff, ==_refl, Option-cases, inl, inr,
}
use tinypipe.Api.Value
use tinypipe.Api.Value.{Value, Fields, get-insert, end}
use tinypipe.Api.Context.{
  Scope, Context, get, set, set_branch, scope_get, branch_scope, or_else, scope_or_new,
}

module _ {F : Type 0} where
  scope_get-insert :
      (o : Option (Scope F)) (k j : String) (v : Value F)
      → scope_get
          (some
            (record (scope_or_new o) { variables = Value.insert k v (scope_or_new o).variables }))
          j
        ≡ (if str_eq k j then some v else scope_get o j)
  unfolding scope_get
  scope_get-insert none k j v = unfold Value.get Value.insert in refl
  scope_get-insert (some s) k j v = get-insert k j v s.variables

  or_else-if :
      (b : Bool) (v : Value F) (o p : Option (Value F))
      → or_else (if b then some v else o) p ≡ (if b then some v else or_else o p)
  or_else-if true v o p = refl
  or_else-if false v o p = refl

  get-set_active :
      (c : Context F) (bid : ℕ) (k j : String) (v : Value F)
      → get (set (record c { active_branch = some bid }) k v) j
        ≡ (if str_eq k j then some v else get (record c { active_branch = some bid }) j)
  unfolding get set branch_scope
  get-set_active c bid k j v =
      rw (lookup-put, ==_refl)
        (rw (scope_get-insert (lookup bid c.branch_scopes) k j v) (or_else-if (str_eq k j) v _ _))

  -- Inside a branch a read after a write gives the value written, and other keys keep theirs.
  pub get-set_in_branch :
      (c : Context F) (bid : ℕ) (k j : String) (v : Value F)
      → c.active_branch ≡ some bid
      → get (set c k v) j ≡ (if str_eq k j then some v else get c j)
  get-set_in_branch c bid k j v h =
      subst (λ (d : Context F). get (set d k v) j ≡ (if str_eq k j then some v else get d j))
        (λ i. record c { active_branch = sym h i }) (get-set_active c bid k j v)

  -- Outside of the branches a key that the snapshot of a PARALLEL holds keeps reading as in the
  -- snapshot, whatever is written to it; any other key reads as written.
  pub get-set_global :
      (c : Context F) (k j : String) (v : Value F)
      → c.active_branch ≡ none
      → get (set c k v) j
        ≡ or_else
            (scope_get c.parent_scope j)
            (if str_eq k j then some v else Value.get j c.variables)
  unfolding get set branch_scope scope_get
  get-set_global c k j v h = rw (h, get-insert)

  lookup-set_branch :
      (c : Context F) (a b : ℕ)
      → lookup b (set_branch c a).branch_scopes ≡ (
          if a == b
          then some (scope_or_new (lookup b c.branch_scopes))
          else lookup b c.branch_scopes)
  unfolding set_branch
  lookup-set_branch c a b = elim (Option-cases (lookup a c.branch_scopes)) [
    | inl e ↦ rw (e, set_branch) (rw lookup-put (ground (arith, e)))
    | inr (s, e) ↦ rw (e, set_branch) (ground (arith, e))
  ]

  get-set_branch :
      (c : Context F) (b : ℕ) (j : String)
      → get (set_branch c b) j
        ≡ or_else
            (scope_get (some (scope_or_new (lookup b c.branch_scopes))) j)
            (or_else (scope_get c.parent_scope j) (Value.get j c.variables))
  unfolding get branch_scope
  get-set_branch c b j = unfold set_branch in rw (lookup-set_branch c b b, ==_refl)

  branch_write_ne :
      (c : Context F) (a b : ℕ) (k : String) (v : Value F)
      → a ≢ b
      → lookup b (set (set_branch c a) k v).branch_scopes ≡ lookup b c.branch_scopes
  unfolding set
  branch_write_ne c a b k v h =
      unfold set_branch in rw lookup-put (ground (arith, ==_iff a b, lookup-set_branch c a b))

  -- What a branch writes is not seen in another branch.
  pub branch_isolation :
      (c : Context F) (a b : ℕ) (k j : String) (v : Value F)
      → a ≢ b
      → get (set_branch (set (set_branch c a) k v) b) j ≡ get (set_branch c b) j
  branch_isolation c a b k j v h =
      rw
        (
          get-set_branch (set (set_branch c a) k v) b j,
          get-set_branch c b j,
          branch_write_ne c a b k v h,
        )
        (unfold set set_branch in refl)
