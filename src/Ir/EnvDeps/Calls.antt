-- ===== src/Ir/EnvDeps/Calls.antt =====
-- What one CALL needs, by `scan_plan_env_deps` of tinypipe-ir/src/env_deps.rs.
use mathlib.Core.List.{Memᴰ}
use mathlib.Core.List.Memᴰ
use mathlib.Core.Option.{some-injective}
use tinypipe.Prelude.{
  ◌≡◌, ◌↔◌, ◌⊎◌, ◌≢◌, inl, inr, refl, sym, ap, ◌∙◌, subst, String, Bool, Option, none, some, [],
  ◌∷◌, str_eq, eq_iff, Bool-cases,
}
use tinypipe.Ir.Plan
use tinypipe.Ir.EnvDeps.{
  EnvDep, literal_arg, has_arg, get_deps, collect_env_get_deps, template_deps,
  collect_env_template_deps, extract_template_keys, deps_for,
}

-- How a dependency follows from the literal texts of a CALL's target, key and value: a call of `env.get`
-- needs its key, which is optional if there is a default, and one of `env.template` the keys of its value.
abbrev pub Follows : Option String → Option String → Option String → Bool → EnvDep → Type 0
Follows target key value optional dep =
    ((k : String) × (target ≡ some "env.get")
      × (key ≡ some k)
      × (dep ≡ record { key = k; optional = optional }))
    ⊎ ((text : String) × (target ≡ some "env.template")
        × (value ≡ some text)
        × Memᴰ dep (extract_template_keys text))

module _ (json_string : String → Option String) (c : Plan.Node) (dep : EnvDep) where
  get_deps_iff :
      (o : Option String)
      → Memᴰ dep (get_deps json_string c o) ↔ (
          (k : String) × (o ≡ some k)
          × (dep ≡ record { key = k; optional = has_arg c.args "default" }))
  unfolding get_deps
  get_deps_iff none = (λ m. absurd (Memᴰ.not-nil m), λ (k, e, _). cc)
  get_deps_iff (some k) = (
    λ m. (k, refl, only m),
    λ (l, e, same). Memᴰ.head (
        same
        ∙ ap (λ (x : String). record { key = x; optional = has_arg c.args "default" })
            (sym (some-injective _ _ e))),
  )
    where
      only : {x : EnvDep} → Memᴰ dep (x ∷ []) → dep ≡ x
      only (Memᴰ.head e) = e
      only (Memᴰ.tail m) = absurd (Memᴰ.not-nil m)

  template_deps_iff :
      (o : Option String)
      → Memᴰ dep (template_deps json_string o)
        ↔ ((text : String) × (o ≡ some text) × Memᴰ dep (extract_template_keys text))
  unfolding template_deps
  template_deps_iff none = (λ m. absurd (Memᴰ.not-nil m), λ (k, e, _). cc)
  template_deps_iff (some text) = (
    λ m. (text, refl, m),
    λ (t, e, m). subst (λ x. Memᴰ dep (extract_template_keys x)) (sym (some-injective _ _ e)) m,
  )

  pub deps_for_iff :
      (t : Option String)
      → Memᴰ dep (deps_for json_string c t)
        ↔ Follows t
            (literal_arg json_string c "key")
            (literal_arg json_string c "value")
            (has_arg c.args "default")
            dep
  unfolding deps_for collect_env_get_deps collect_env_template_deps
  deps_for_iff none =
      (λ m. absurd (Memᴰ.not-nil m), λ s. elim s [ inl (k, e, _, _) ↦ cc | inr (k, e, _, _) ↦ cc ])
  deps_for_iff (some target) = elim (Bool-cases (str_eq target "env.get")) [
    | inl e ↦
        let p = (eq_iff target "env.get").0 e in
        let get = get_deps_iff (literal_arg json_string c "key") in
        rw e (
          λ m. let (k, there, same) = get.0 m in inl (k, ap some p, there, same),
          λ s. elim s [
            | inl (k, _, there, same) ↦ get.1 (k, there, same)
            | inr (text, q, _, _) ↦ absurd (differ (sym (ap some p) ∙ q))
          ],
        )
    | inr e ↦ elim (Bool-cases (str_eq target "env.template")) [
      | inl f ↦
          let p = (eq_iff target "env.template").0 f in
          let template = template_deps_iff (literal_arg json_string c "value") in
          rw (e, f)
            (
              λ m. let (text, there, mem) = template.0 m in inr (text, ap some p, there, mem),
              λ s. elim s [
                | inl (k, q, _, _) ↦ absurd (differ (sym q ∙ ap some p))
                | inr (text, _, there, mem) ↦ template.1 (text, there, mem)
              ],
            )
      | inr f ↦
          rw (e, f)
            (
              λ m. absurd (Memᴰ.not-nil m),
              λ s. elim s [
                | inl (k, q, _, _) ↦
                    absurd (let r = (eq_iff target "env.get").1 (some-injective _ _ q) in cc)
                | inr (k, q, _, _) ↦
                    absurd (let r = (eq_iff target "env.template").1 (some-injective _ _ q) in cc)
              ],
            )
    ]
  ]
    where
      differ : ◌≢◌ {A = Option String} (some "env.get") (some "env.template")
      differ h = cc
