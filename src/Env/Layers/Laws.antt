-- ===== src/Env/Layers/Laws.antt =====
-- What `Env::get` and `Env::list` of tinypipe-env/src/lib.rs answer.
use tinypipe.Prelude.{
  ℕ, zero, suc, ◌≤◌, ◌≡◌, refl, ap, ◌∙◌, String, Bool, true, false, List, [], ◌∷◌, ◌++◌, map, has,
  has-append, has_head, subst, length, str_eq, eq_iff, arith, if◌then◌else◌, Bool-cases, inl, inr,
}
use tinypipe.Ir.ExecutionPlan.Order.Count.{IsDistinct}
use tinypipe.Env.Layers.{
  Provider, Env, join_scopes, take, or_else, lookup, get_from, list_one, see_keys, list_from,
  normalize_key, scoped, get, list,
}

module _ {ℓ} {A : Type ℓ} where
  take_all : (xs : List A) → take (length xs) xs ≡ xs
  unfolding take
  take_all [] = refl
  take_all (x ∷ xs) = ap (λ ys. x ∷ ys) (take_all xs)

  take-append : (i : ℕ) (xs ys : List A) → i ≤ length xs → take i (xs ++ ys) ≡ take i xs
  unfolding take
  take-append zero xs ys h = refl
  take-append (suc i) [] ys h = absurd (omega (arith, h))
  take-append (suc i) (x ∷ xs) ys h = ap (λ zs. x ∷ zs) (take-append i xs ys (omega (arith, h)))

  length-snoc : (xs : List A) (a : A) → length (xs ++ a ∷ []) ≡ suc (length xs)
  length-snoc [] a = refl
  length-snoc (x ∷ xs) a = ap suc (length-snoc xs a)

-- A further scope changes nothing for the candidates with fewer.
get_from-scoped :
    (env : Env) (name : String) (i : ℕ) (key : String)
    → i ≤ length env.scopes
    → get_from (record env { scopes = env.scopes ++ name ∷ [] }) i key ≡ get_from env i key
unfolding get_from lookup
get_from-scoped env name zero key h = refl
get_from-scoped env name (suc i) key h = rw (take-append (suc i) env.scopes (name ∷ []) h) (
    ap (or_else (lookup env (join_scopes (take (suc i) env.scopes) key)))
      (get_from-scoped env name i key (omega (arith, h))))

-- A lookup in the scope of a module takes the variable whose key is prefixed with all scopes, the module's
-- last, and where no provider has it, it answers what the lookup outside of the module answers.
pub get-scoped :
    (upper : String → String) (env : Env) (name key : String)
    → get upper (scoped upper name env) key
      ≡ or_else
          (lookup env
            (join_scopes (env.scopes ++ normalize_key upper name ∷ []) (normalize_key upper key)))
          (get upper env key)
unfolding get scoped get_from lookup
get-scoped upper env name key =
    let scope = normalize_key upper name in
    let all = take_all (env.scopes ++ scope ∷ []) in
    let n = length-snoc env.scopes scope in
    rw n (
      ap
        (λ t.
          or_else (lookup env (join_scopes t (normalize_key upper key)))
            (get_from (scoped upper name env) (length env.scopes) (normalize_key upper key)))
        (subst (λ m. take m (env.scopes ++ scope ∷ []) ≡ env.scopes ++ scope ∷ []) n all)
      ∙ ap (or_else (lookup env (join_scopes (env.scopes ++ scope ∷ []) (normalize_key upper key))))
          (get_from-scoped env scope (length env.scopes) (normalize_key upper key) (omega arith)))

abbrev pub keys : List (String × String) → List String
keys vars = map (λ (v : String × String). v.0) vars

module _ (normalize : String → String) where
  has-see_keys :
      (vars : List (String × String)) (seen : List String) (a : String)
      → has seen a ≡ true
      → has (see_keys normalize vars seen) a ≡ true
  unfolding see_keys
  has-see_keys [] seen a h = h
  has-see_keys ((k, v) ∷ vars) seen a h =
      has-see_keys vars (normalize k ∷ seen) a (ground (arith, h))

  list_one-see_keys :
      (vars : List (String × String)) (seen : List String) (a : String)
      → has (keys (list_one normalize vars seen)) a ≡ true
      → (has seen a ≡ false) × (has (see_keys normalize vars seen) a ≡ true)
  unfolding list_one see_keys
  list_one-see_keys [] seen a h = cc
  list_one-see_keys ((k, v) ∷ vars) seen a h = elim (Bool-cases (has seen (normalize k))) [
    | inl e ↦
        let r = list_one-see_keys vars (normalize k ∷ seen) a (chosen true e) in
        (ground (arith, r.0), r.1)
    | inr e ↦ elim (Bool-cases (str_eq (normalize k) a)) [
      | inl q ↦ (
        ground (arith, e, (eq_iff (normalize k) a).0 q),
        has-see_keys vars (normalize k ∷ seen) a (ground (arith, q)),
      )
      | inr q ↦
          let r =
            list_one-see_keys vars (normalize k ∷ seen) a (ground (arith, chosen false e, q)) in
          (ground (arith, r.0), r.1)
    ]
  ]
    where
      chosen :
          (b : Bool)
          → has seen (normalize k) ≡ b
          → has
              (keys (
                if b
                then list_one normalize vars (normalize k ∷ seen)
                else (normalize k, v) ∷ list_one normalize vars (normalize k ∷ seen)))
              a
            ≡ true
      chosen b e =
          subst
            (λ c.
              has
                (keys (
                  if c
                  then list_one normalize vars (normalize k ∷ seen)
                  else (normalize k, v) ∷ list_one normalize vars (normalize k ∷ seen)))
                a
              ≡ true)
            e h

  list_one-IsDistinct :
      (vars : List (String × String)) (seen : List String)
      → IsDistinct (keys (list_one normalize vars seen))
  unfolding list_one
  list_one-IsDistinct [] seen = tt
  list_one-IsDistinct ((k, v) ∷ vars) seen = elim (Bool-cases (has seen (normalize k))) [
    | inl e ↦ rw e (list_one-IsDistinct vars (normalize k ∷ seen))
    | inr e ↦ rw e (fresh, list_one-IsDistinct vars (normalize k ∷ seen))
  ]
    where
      fresh : has (keys (list_one normalize vars (normalize k ∷ seen))) (normalize k) ≡ false
      fresh =
          elim (Bool-cases
            (has (keys (list_one normalize vars (normalize k ∷ seen))) (normalize k))) [
              | inl h ↦ absurd (
                  ground (
                    arith,
                    (list_one-see_keys vars (normalize k ∷ seen) (normalize k) h).0,
                    has_head (normalize k) seen,
                  ))
              | inr h ↦ h
            ]

  keys-append : (xs ys : List (String × String)) → keys (xs ++ ys) ≡ keys xs ++ keys ys
  keys-append [] ys = refl
  keys-append (x ∷ xs) ys = ap (λ s. x.0 ∷ s) (keys-append xs ys)

  append-IsDistinct :
      (xs ys : List String)
      → IsDistinct xs
      → IsDistinct ys
      → ((a : String) → has xs a ≡ true → has ys a ≡ false)
      → IsDistinct (xs ++ ys)
  append-IsDistinct [] ys dx dy h = dy
  append-IsDistinct (x ∷ xs) ys dx dy h = (
    ground (arith, has-append xs ys x, dx.0, h x (has_head x xs)),
    append-IsDistinct xs ys dx.1 dy (λ a m. h a (ground (arith, m))),
  )

  list_from-unseen :
      (providers : List Provider) (seen : List String) (a : String)
      → has (keys (list_from normalize providers seen)) a ≡ true
      → has seen a ≡ false
  unfolding list_from
  list_from-unseen [] seen a h = cc
  list_from-unseen (p ∷ providers) seen a h =
      elim (Bool-cases (has (keys (list_one normalize p.list seen)) a)) [
        | inl e ↦ (list_one-see_keys p.list seen a e).0
        | inr e ↦
            let rest = list_from-unseen providers (see_keys normalize p.list seen) a (later e) in
            elim (Bool-cases (has seen a)) [
              | inl q ↦ absurd (ground (arith, rest, has-see_keys p.list seen a q))
              | inr q ↦ q
            ]
      ]
    where
      later :
          has (keys (list_one normalize p.list seen)) a ≡ false
          → has (keys (list_from normalize providers (see_keys normalize p.list seen))) a ≡ true
      later e = ground (
        arith,
        e,
        ap (λ s. has s a)
            (keys-append (list_one normalize p.list seen)
              (list_from normalize providers (see_keys normalize p.list seen))),
        has-append (keys (list_one normalize p.list seen))
            (keys (list_from normalize providers (see_keys normalize p.list seen))) a,
        h,
      )

  list_from-IsDistinct :
      (providers : List Provider) (seen : List String)
      → IsDistinct (keys (list_from normalize providers seen))
  unfolding list_from
  list_from-IsDistinct [] seen = tt
  list_from-IsDistinct (p ∷ providers) seen =
      rw
        (keys-append (list_one normalize p.list seen)
          (list_from normalize providers (see_keys normalize p.list seen)))
        (append-IsDistinct _ _ (list_one-IsDistinct p.list seen)
          (list_from-IsDistinct providers (see_keys normalize p.list seen))
          (λ a m. unseen_later a (list_one-see_keys p.list seen a m).1))
    where
      unseen_later :
          (a : String)
          → has (see_keys normalize p.list seen) a ≡ true
          → has (keys (list_from normalize providers (see_keys normalize p.list seen))) a ≡ false
      unseen_later a m =
          elim (Bool-cases
            (has (keys (list_from normalize providers (see_keys normalize p.list seen))) a)) [
              | inl h ↦ absurd (
                  ground
                    (arith, m, list_from-unseen providers (see_keys normalize p.list seen) a h))
              | inr h ↦ h
            ]

-- Env::list has no key twice, also when several providers, or one provider in several spellings, have it.
pub list-IsDistinct : (upper : String → String) (env : Env) → IsDistinct (keys (list upper env))
unfolding list
list-IsDistinct upper env = list_from-IsDistinct (normalize_key upper) env.providers []
