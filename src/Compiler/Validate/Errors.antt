-- ===== src/Compiler/Validate/Errors.antt =====
-- The errors of tinypipe-compiler/src/validator.rs, and the lists of them that checks push.
use mathlib.Core.List.{Memᴰ}
use mathlib.Core.List.Memᴰ
use tinypipe.Prelude.{
  String, Bool, true, false, List, [], ◌∷◌, ◌++◌, ◌≡◌, refl, ◌↔◌, ◌≢◌, if◌then◌else◌, All,
}

pub record ValidationError : Type 0 where
  pub node_id : String
  pub message : String

abbrev pub error_at : String → String → ValidationError
error_at id message = record { node_id = id; message = message }

-- an error where a condition is not met
unfoldable pub unless : Bool → ValidationError → List ValidationError
unless b e = if b then [] else e ∷ []

-- the errors of each element, in order
unfoldable pub each {ℓ} : {A : Type ℓ} → (A → List ValidationError) → List A → List ValidationError
each f [] = []
each f (a ∷ xs) = f a ++ each f xs

-- the errors of one check after the other
unfoldable pub concat : List (List ValidationError) → List ValidationError
concat [] = []
concat (es ∷ rest) = es ++ concat rest

-- `Ok(())` and `Err`
pub data Verdict : Type 0 where
  accepted : Verdict
  rejected : List ValidationError → Verdict

unfoldable pub verdict : List ValidationError → Verdict
verdict [] = accepted
verdict (e ∷ es) = rejected (e ∷ es)

pub rejected-ne_accepted : (es : List ValidationError) → rejected es ≢ accepted
rejected-ne_accepted es h = cc

pub unless_iff : (b : Bool) (e : ValidationError) → (unless b e ≡ []) ↔ (b ≡ true)
unfolding unless
unless_iff true e = (λ h. refl, λ h. refl)
unless_iff false e = (λ h. cc, λ h. cc)

pub append_iff : (xs ys : List ValidationError) → (xs ++ ys ≡ []) ↔ ((xs ≡ []) × (ys ≡ []))
append_iff [] ys = (λ h. (refl, h), λ h. h.1)
append_iff (x ∷ xs) ys = (λ h. cc, λ h. cc)

pub concat_iff :
    (checks : List (List ValidationError)) → (concat checks ≡ []) ↔ All (λ es. es ≡ []) checks
unfolding concat
concat_iff [] = (λ h. tt, λ k. refl)
concat_iff (es ∷ rest) = (
  λ h. let r = (append_iff es (concat rest)).0 h in (r.0, (concat_iff rest).0 r.1),
  λ k. (append_iff es (concat rest)).1 (k.0, (concat_iff rest).1 k.1),
)

pub verdict_iff : (es : List ValidationError) → (verdict es ≡ accepted) ↔ (es ≡ [])
unfolding verdict
verdict_iff [] = (λ h. refl, λ h. refl)
verdict_iff (e ∷ es) = (λ h. absurd (rejected-ne_accepted _ h), λ h. cc)

module _ {ℓ κ} {A : Type ℓ} {P : A → Type κ} (f : A → List ValidationError) where
  all_met : (xs : List A) → ((a : A) → f a ≡ [] → P a) → each f xs ≡ [] → (a : A) → Memᴰ a xs → P a
  unfolding each
  all_met [] h e a m = absurd (Memᴰ.not-nil m)
  all_met (x ∷ xs) h e a (Memᴰ.head p) = h a (rw p ((append_iff (f x) (each f xs)).0 e).0)
  all_met (x ∷ xs) h e a (Memᴰ.tail m) = all_met xs h ((append_iff (f x) (each f xs)).0 e).1 a m

  pub no_errors :
      (xs : List A) → ((a : A) → P a → f a ≡ []) → ((a : A) → Memᴰ a xs → P a) → each f xs ≡ []
  unfolding each
  no_errors [] h k = refl
  no_errors (x ∷ xs) h k =
      (append_iff (f x) (each f xs)).1
        (h x (k x (Memᴰ.head refl)), no_errors xs h (λ a m. k a (Memᴰ.tail m)))

  pub each_iff :
      (xs : List A) → ((a : A) → (f a ≡ []) ↔ P a) → (each f xs ≡ []) ↔ ((a : A) → Memᴰ a xs → P a)
  each_iff xs h = (all_met xs (λ a. (h a).0), no_errors xs (λ a. (h a).1))
