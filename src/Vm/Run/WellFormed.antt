-- ===== src/Vm/Run/WellFormed.antt =====
-- A test for `IsWellFormed`, to be run on a plan.
use tinypipe.Prelude.{
  ℕ, zero, suc, ◌+◌, ◌≡◌, sym, subst, ap, ◌∙◌, Bool, true, not, ◌&&◌, ◌||◌, some, List, [], ◌∷◌,
  arith, ◌==◌, ==_iff, get_elem?, contains, all,
}
use mathlib.Core.Bool.{and-eq-true_iff}
use mathlib.Core.Option.{some-injective}
use tinypipe.Ir.Plan.{Plan, Node, Edge, is_data, is_loop, loop}
use tinypipe.Vm.Graph.{loop_body}
use tinypipe.Vm.Loop.Resume.{IsFedOutside}
use tinypipe.Vm.Run.Resume.{IsWellFormed}

indices_from : ℕ → List Node → Bool
indices_from k [] = true
indices_from k (n ∷ ns) = (n.index == k) && indices_from (k + 1) ns

edge_fed : Plan → Node → Edge → Bool
edge_fed plan node e =
    not ((e.to_index == node.index) && is_data e.kind)
    || not (contains (loop_body plan.edges node.index) e.from_index)

node_fed : Plan → Node → Bool
unfolding edge_fed loop_body
node_fed plan node = not (is_loop node.op) || all (edge_fed plan node) plan.edges

unfoldable pub well_formed : Plan → Bool
unfolding indices_from node_fed
well_formed plan = indices_from 0 plan.nodes && all (node_fed plan) plan.nodes

indices_from_sound :
    (k : ℕ) (ns : List Node)
    → indices_from k ns ≡ true
    → (i : ℕ) (n : Node) → get_elem? ns i ≡ some n
    → n.index ≡ k + i
unfolding indices_from
indices_from_sound k [] h i n e = cc
indices_from_sound k (m ∷ ns) h zero n e =
    let p : m.index ≡ k =
      (==_iff m.index k).0 ((and-eq-true_iff (m.index == k) (indices_from (k + 1) ns)).0 h).0 in
    let q : n.index ≡ m.index = sym (ap (λ (a : Node). a.index) (some-injective _ _ e)) in
    omega arith
indices_from_sound k (m ∷ ns) h (suc i) n e =
    let p : n.index ≡ (k + 1) + i =
      indices_from_sound (k + 1) ns ((and-eq-true_iff _ _).0 h).1 i n e in
    omega arith

all_sound {ℓ} :
    {A : Type ℓ} (p : A → Bool) (xs : List A)
    → all p xs ≡ true
    → (i : ℕ) (a : A) → get_elem? xs i ≡ some a
    → p a ≡ true
all_sound p [] h i a e = cc
all_sound p (x ∷ xs) h zero a e =
    subst (λ b. p b ≡ true) (some-injective _ _ e) ((and-eq-true_iff _ _).0 h).0
all_sound p (x ∷ xs) h (suc i) a e = all_sound p xs ((and-eq-true_iff _ _).0 h).1 i a e

all_edges :
    (plan : Plan) (node : Node) (es : List Edge)
    → all (edge_fed plan node) es ≡ true
    → IsFedOutside plan node es
unfolding edge_fed
all_edges plan node [] h = tt
all_edges plan node (e ∷ es) h =
    let (he, hs) = (and-eq-true_iff (edge_fed plan node e) (all (edge_fed plan node) es)).0 h in
    (λ b. ground (arith, he, b), all_edges plan node es hs)

data_or_loop :
    (plan : Plan) (n : Node)
    → node_fed plan n ≡ true
    → n.op ≡ loop
    → all (edge_fed plan n) plan.edges ≡ true
unfolding node_fed
data_or_loop plan n h is =
    subst (λ op. (not (is_loop op) || all (edge_fed plan n) plan.edges) ≡ true) is h

-- The test implies the property.
pub well_formed_sound : (plan : Plan) → well_formed plan ≡ true → IsWellFormed plan
unfolding well_formed node_fed
well_formed_sound plan h =
    let (hi, hf) = (and-eq-true_iff _ _).0 h in
    record {
      indexed = λ i n e. indices_from_sound 0 plan.nodes hi i n e ∙ omega arith;
      fed = λ i n e is.
          all_edges plan n plan.edges
            (data_or_loop plan n (all_sound (node_fed plan) plan.nodes hf i n e) is);
    }
