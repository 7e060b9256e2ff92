-- ===== src/Compiler/Validate/Branches.antt =====
-- The checks 8 of tinypipe-compiler/src/validator.rs: how many edges leave a node, and under which
-- conditions.
use Prim.Native.String.{◌++◌ as ◌<>◌}
use mathlib.Core.List.{Memᴰ}
use mathlib.Core.List.Memᴰ
use tinypipe.Prelude.{
  String, Bool, true, false, not, none, some, List, [], ◌∷◌, ◌++◌, ◌≡◌, refl, ◌↔◌, ltb, any,
  any_iff, keep, Memᴰ-keep, keep-Memᴰ, sym, ap, ◌∙◌, Option-cases, is_some, length, str_eq, eq_iff,
  arith, Bool-cases, inl, inr,
}
use mathlib.Core.Option.{some-injective}
use tinypipe.Ir.Plan.{
  Opcode, input, call, calc, decide, switch, act, parallel, loop, wait, merge, error, is_data,
}
use tinypipe.Ir.ExecutionPlan.{Edge}
use tinypipe.Vm.Text.{decimal}
use tinypipe.Compiler.Validate.Errors.{
  ValidationError, error_at, concat, concat_iff, unless, each, unless_iff, append_iff, each_iff,
}

-- `e.condition.as_deref() == Some(label)`
abbrev pub is_under : String → Edge → Bool
is_under label e = elim e.condition [ none ↦ false | some c ↦ str_eq c label ]

abbrev is_empty_list : List Edge → Bool
is_empty_list [] = true
is_empty_list (e ∷ es) = false

-- an edge without a condition where one is needed
unfoldable pub need_condition : String → Edge → List ValidationError
unfolding unless
need_condition id e =
    unless (is_some e.condition) (error_at id ("branch edge to `" <> e.to <> "` missing condition"))

-- an edge with a condition where none is allowed
unfoldable pub refuse_condition : String → String → Edge → List ValidationError
unfolding unless
refuse_condition kind id e =
    unless (not (is_some e.condition))
      (error_at id (kind <> " edge to `" <> e.to <> "` should not have a condition"))

unfoldable pub branch_checks : String → List Edge → List (List ValidationError)
unfolding unless each need_condition decimal
branch_checks id out =
    unless (not (ltb (length out) 2))
      (error_at id ("branch node must have exactly 2 outgoing edges, got " <> decimal (length out)))
    ∷ unless (any (is_under "true") out) (error_at id "branch node missing `true` condition edge")
    ∷ unless (any (is_under "false") out) (error_at id "branch node missing `false` condition edge")
    ∷ each (need_condition id) out
    ∷ []

unfoldable pub branch_errors : String → List Edge → List ValidationError
unfolding concat branch_checks
branch_errors id out = concat (branch_checks id out)

unfoldable pub loop_errors : String → List Edge → List ValidationError
unfolding unless
loop_errors id out =
    unless (not (is_empty_list out)) (error_at id "LOOP node must have at least one outgoing edge")

unfoldable pub parallel_errors : String → List Edge → List ValidationError
unfolding unless each refuse_condition
parallel_errors id out =
    unless (not (is_empty_list out))
      (error_at id "PARALLEL node must have at least one outgoing edge")
    ++ each (refuse_condition "PARALLEL" id) out

-- the data edges first, then the control edges
unfoldable pub plain_errors : String → List Edge → List ValidationError
unfolding each refuse_condition
plain_errors id out =
    each (refuse_condition "non-branch data" id) (keep (λ (e : Edge). is_data e.kind) out)
    ++ each (refuse_condition "non-branch control" id)
        (keep (λ (e : Edge). not (is_data e.kind)) out)

unfoldable pub edge_errors : Opcode → String → List Edge → List ValidationError
unfolding branch_errors loop_errors parallel_errors plain_errors
edge_errors decide id out = branch_errors id out
edge_errors switch id out = branch_errors id out
edge_errors loop id out = loop_errors id out
edge_errors parallel id out = parallel_errors id out
edge_errors _ id out = plain_errors id out

-- some edge under a label
abbrev pub HasUnder : String → List Edge → Type 0
HasUnder label out = (e : Edge) × Memᴰ e out × (e.condition ≡ some label)

abbrev pub IsFree : List Edge → Type 0
IsFree out = (e : Edge) → Memᴰ e out → e.condition ≡ none

abbrev pub IsBranching : List Edge → Type 0
IsBranching out =
    HasUnder "true" out
    × HasUnder "false" out
    × ((e : Edge) → Memᴰ e out → (c : String) × (e.condition ≡ some c))

-- the edges that may leave a node
abbrev pub Leads : Opcode → List Edge → Type 0
Leads decide out = IsBranching out
Leads switch out = IsBranching out
Leads loop out = (e : Edge) × Memᴰ e out
Leads parallel out = ((e : Edge) × Memᴰ e out) × IsFree out
Leads input out = IsFree out
Leads call out = IsFree out
Leads calc out = IsFree out
Leads act out = IsFree out
Leads wait out = IsFree out
Leads merge out = IsFree out
Leads error out = IsFree out

is_under_iff : (label : String) (e : Edge) → (is_under label e ≡ true) ↔ (e.condition ≡ some label)
is_under_iff label e = elim (Option-cases e.condition) [
  | inl h ↦ rw h (λ k. cc, λ k. cc)
  | inr (c, h) ↦
      rw h (λ k. ap some ((eq_iff c label).0 k), λ k. (eq_iff c label).1 (some-injective _ _ k))
]

any-is_under_iff :
    (label : String) (out : List Edge) → (any (is_under label) out ≡ true) ↔ HasUnder label out
any-is_under_iff label out = (
  λ h. let r = (any_iff (is_under label) out).0 h in (r.0, r.1, (is_under_iff label r.0).0 r.2),
  λ r. (any_iff (is_under label) out).1 (r.0, r.1, (is_under_iff label r.0).1 r.2),
)

need_condition_iff :
    (id : String) (e : Edge) → (need_condition id e ≡ []) ↔ ((c : String) × (e.condition ≡ some c))
unfolding need_condition unless
need_condition_iff id e = elim (Option-cases e.condition) [
  | inl h ↦ rw h (λ k. cc, λ r. cc)
  | inr (c, h) ↦ (λ k. (c, h), λ r. rw h refl)
]

refuse_condition_iff :
    (kind id : String) (e : Edge) → (refuse_condition kind id e ≡ []) ↔ (e.condition ≡ none)
unfolding refuse_condition unless
refuse_condition_iff kind id e = elim (Option-cases e.condition) [
  | inl h ↦ (λ k. h, λ r. rw h refl)
  | inr (c, h) ↦ rw h (λ k. cc, λ r. cc)
]

-- One edge is not under both labels.
two_labels :
    (out : List Edge) → HasUnder "true" out → HasUnder "false" out → ltb (length out) 2 ≡ false
two_labels [] t f = absurd (Memᴰ.not-nil t.1)
two_labels (e ∷ []) t f = absurd (one t.1 f.1)
  where
    one : Memᴰ t.0 (e ∷ []) → Memᴰ f.0 (e ∷ []) → ⊥
    one (Memᴰ.head p) (Memᴰ.head q) =
        let same = sym t.2 ∙ ap (λ (d : Edge). d.condition) (p ∙ sym q) ∙ f.2 in
        let k : false ≡ true = (eq_iff "true" "false").1 (some-injective _ _ same) in cc
    one (Memᴰ.head p) (Memᴰ.tail m) = Memᴰ.not-nil m
    one (Memᴰ.tail m) n = Memᴰ.not-nil m
two_labels (e ∷ d ∷ out) t f = ground arith

branch_errors_iff : (id : String) (out : List Edge) → (branch_errors id out ≡ []) ↔ IsBranching out
unfolding branch_errors branch_checks
branch_errors_iff id out = (
  λ h.
      let r = (concat_iff (branch_checks id out)).0 h in
      (
        (any-is_under_iff "true" out).0 ((unless_iff _ _).0 r.1.0),
        (any-is_under_iff "false" out).0 ((unless_iff _ _).0 r.1.1.0),
        (each_iff (need_condition id) out (need_condition_iff id)).0 r.1.1.1.0,
      ),
  λ k. (concat_iff (branch_checks id out)).1 (
    (unless_iff _ _).1 (ap not (two_labels out k.0 k.1)),
    (
      (unless_iff _ _).1 ((any-is_under_iff "true" out).1 k.0),
      (
        (unless_iff _ _).1 ((any-is_under_iff "false" out).1 k.1),
        ((each_iff (need_condition id) out (need_condition_iff id)).1 k.2, tt),
      ),
    ),
  ),
)

nonempty_iff : (out : List Edge) → (not (is_empty_list out) ≡ true) ↔ ((e : Edge) × Memᴰ e out)
nonempty_iff [] = (λ h. cc, λ r. absurd (Memᴰ.not-nil r.1))
nonempty_iff (e ∷ out) = (λ h. (e, Memᴰ.head refl), λ r. refl)

each-refuse_condition :
    (kind id : String) (out : List Edge) → (each (refuse_condition kind id) out ≡ []) ↔ IsFree out
each-refuse_condition kind id out =
    each_iff (refuse_condition kind id) out (refuse_condition_iff kind id)

loop_errors_iff :
    (id : String) (out : List Edge) → (loop_errors id out ≡ []) ↔ ((e : Edge) × Memᴰ e out)
unfolding loop_errors
loop_errors_iff id out = (
  λ h. (nonempty_iff out).0 ((unless_iff _ _).0 h),
  λ r. (unless_iff _ _).1 ((nonempty_iff out).1 r),
)

parallel_errors_iff :
    (id : String) (out : List Edge)
    → (parallel_errors id out ≡ []) ↔ (((e : Edge) × Memᴰ e out) × IsFree out)
unfolding parallel_errors
parallel_errors_iff id out = (
  λ h.
      let r = (append_iff _ _).0 h in
      (
        (nonempty_iff out).0 ((unless_iff _ _).0 r.0),
        (each-refuse_condition "PARALLEL" id out).0 r.1,
      ),
  λ k. (append_iff _ _).1 (
    (unless_iff _ _).1 ((nonempty_iff out).1 k.0),
    (each-refuse_condition "PARALLEL" id out).1 k.1,
  ),
)

-- A list is split by a test.
IsFree-keep : (p : Edge → Bool) (out : List Edge) → IsFree out → IsFree (keep p out)
IsFree-keep p out h e m = h e (Memᴰ-keep p out e m).0

keep-IsFree :
    (p : Edge → Bool) (out : List Edge)
    → IsFree (keep p out)
    → IsFree (keep (λ e. not (p e)) out)
    → IsFree out
keep-IsFree p out h k e m = elim (Bool-cases (p e)) [
  | inl t ↦ h e (keep-Memᴰ p out e m t)
  | inr t ↦ k e (keep-Memᴰ (λ d. not (p d)) out e m (ap not t))
]

plain_errors_iff : (id : String) (out : List Edge) → (plain_errors id out ≡ []) ↔ IsFree out
unfolding plain_errors
plain_errors_iff id out = (
  λ h.
      let r = (append_iff _ _).0 h in
      keep-IsFree (λ e. is_data e.kind) out ((each-refuse_condition "non-branch data" id _).0 r.0)
        ((each-refuse_condition "non-branch control" id _).0 r.1),
  λ k. (append_iff _ _).1 (
    (each-refuse_condition "non-branch data" id _).1 (IsFree-keep _ out k),
    (each-refuse_condition "non-branch control" id _).1 (IsFree-keep _ out k),
  ),
)

pub edge_errors_iff :
    (op : Opcode) (id : String) (out : List Edge) → (edge_errors op id out ≡ []) ↔ Leads op out
unfolding edge_errors
edge_errors_iff decide id out = branch_errors_iff id out
edge_errors_iff switch id out = branch_errors_iff id out
edge_errors_iff loop id out = loop_errors_iff id out
edge_errors_iff parallel id out = parallel_errors_iff id out
edge_errors_iff input id out = plain_errors_iff id out
edge_errors_iff call id out = plain_errors_iff id out
edge_errors_iff calc id out = plain_errors_iff id out
edge_errors_iff act id out = plain_errors_iff id out
edge_errors_iff wait id out = plain_errors_iff id out
edge_errors_iff merge id out = plain_errors_iff id out
edge_errors_iff error id out = plain_errors_iff id out
