-- ===== src/Env/Template/Laws.antt =====
-- What `resolve` of tinypipe-env/src/template.rs makes of texts.
use Prim.Native.Char.{Char, code}
use Prim.Native.String.{[], ◌∷◌, ◌++◌}
use Prim.Native.String.append
use mathlib.Core.Bool.{and-eq-true_iff}
use tinypipe.Prelude.{
  ℕ, zero, suc, ◌≤◌, ◌≡◌, ◌≢◌, ◌⊎◌, refl, ap, ◌∙◌, sym, subst, String, true, false, not, ◌&&◌,
  Option, none, some, ◌==◌, arith, inl, inr,
}
use tinypipe.Vm.Text.{length, all_chars}
use tinypipe.Compiler.Text.{starts_with}
use tinypipe.Env.Template.{
  Resolved, ok, missing, Piece, written, placeholder, opened, find_closing, drop_one, next_piece,
  rest_of, or_missing, prepend, and_then, with_required, with_default, resolve_spec, piece_value,
  resolve_loop, resolve,
}
use tinypipe.Env.Template.Steps.{
  is_plain, is_balanced, find_closing-append, plain_piece, next_piece-length,
}

prepend_nil : (r : Resolved) → prepend [] r ≡ r
prepend_nil (ok v) = ap ok (append.nil v)
prepend_nil (missing key) = refl

prepend_cons :
    (c : Char) (s : String) (r : Resolved) → prepend (c ∷ []) (prepend s r) ≡ prepend (c ∷ s) r
prepend_cons c s (ok v) =
    ap ok
      (append.cons c [] (s ++ v) ∙ ap (λ t. c ∷ t) (append.nil (s ++ v)) ∙ sym (append.cons c s v))
prepend_cons c s (missing key) = refl

ok-ne-missing : (v key : String) → ok v ≢ missing key
ok-ne-missing v key h = cc

-- the key of an error
abbrev key_of : Resolved → String
key_of (ok v) = []
key_of (missing key) = key

not_a_brace : (s : String) → is_plain s ≡ true → starts_with 123 s ≡ false
unfolding starts_with all_chars
not_a_brace [] h = refl
not_a_brace (c ∷ s) h = ground (arith, h)

module _ (get : String → Option String) where
  resolve_loop-plain :
      (fuel : ℕ) (s : String) → length s ≤ fuel → is_plain s ≡ true → resolve_loop get fuel s ≡ ok s
  unfolding resolve_loop length all_chars piece_value
  resolve_loop-plain zero [] h p = refl
  resolve_loop-plain zero (c ∷ s) h p = absurd (omega (arith, h))
  resolve_loop-plain (suc fuel) [] h p = refl
  resolve_loop-plain (suc fuel) (c ∷ s) h p =
      let k = and-eq-true_iff (not (code c == 36) && not (code c == 123)) (is_plain s) in
      rw (plain_piece c s (k.0 p).0, resolve_loop-plain fuel s (omega (arith, h)) (k.0 p).1)
        (ap ok (append.cons c [] s ∙ ap (λ t. c ∷ t) (append.nil s)))

  -- A text without `$` and `{` resolves to itself.
  pub resolve_plain : (s : String) → is_plain s ≡ true → resolve get s ≡ ok s
  unfolding resolve
  resolve_plain s p = resolve_loop-plain (length s) s (omega arith) p

  -- Fuel beyond the length of the text changes nothing.
  resolve_loop-fuel :
      (f g : ℕ) (s : String)
      → length s ≤ f
      → length s ≤ g
      → resolve_loop get f s ≡ resolve_loop get g s
  unfolding resolve_loop length
  resolve_loop-fuel zero zero s h k = refl
  resolve_loop-fuel zero (suc g) [] h k = refl
  resolve_loop-fuel zero (suc g) (c ∷ s) h k = absurd (omega (arith, h))
  resolve_loop-fuel (suc f) zero [] h k = refl
  resolve_loop-fuel (suc f) zero (c ∷ s) h k = absurd (omega (arith, k))
  resolve_loop-fuel (suc f) (suc g) [] h k = refl
  resolve_loop-fuel (suc f) (suc g) (c ∷ s) h k =
      let shorter = next_piece-length c s in
      ap (and_then (piece_value get (next_piece c s))) (
        resolve_loop-fuel f g (rest_of (next_piece c s)) (omega (arith, shorter, h))
          (omega (arith, shorter, k)))

  -- The loop, one step at a time.
  resolve-cons :
      (c : Char) (s : String)
      → resolve get (c ∷ s)
        ≡ and_then (piece_value get (next_piece c s)) (resolve get (rest_of (next_piece c s)))
  unfolding resolve resolve_loop length
  resolve-cons c s = ap (and_then (piece_value get (next_piece c s))) (
      resolve_loop-fuel (length s) (length (rest_of (next_piece c s))) (rest_of (next_piece c s))
        (next_piece-length c s) (omega arith))

  -- A text without `$` and `{` is written in front of what stands behind it.
  resolve-append :
      (front s : String)
      → is_plain front ≡ true
      → resolve get (front ++ s) ≡ prepend front (resolve get s)
  unfolding piece_value all_chars
  resolve-append [] s p = rw (append.nil s) (sym (prepend_nil _))
  resolve-append (c ∷ front) s p =
      let k = and-eq-true_iff (not (code c == 36) && not (code c == 123)) (is_plain front) in
      rw
        (
          append.cons c front s,
          resolve-cons c (front ++ s),
          plain_piece c (front ++ s) (k.0 p).0,
          resolve-append front s (k.0 p).1,
        )
        (prepend_cons c front _)

  closed_piece :
      (spec rest : String)
      → is_balanced 0 spec ≡ true
      → (next_piece "$" ("{" ∷ (spec ++ ("}" ∷ rest))) ≡ placeholder spec rest)
        × (next_piece "{" ("{" ∷ (spec ++ ("}" ∷ rest))) ≡ placeholder spec (drop_one rest))
  unfolding next_piece opened starts_with
  closed_piece spec rest h =
      let closing : find_closing 1 (spec ++ ("}" ∷ rest)) ≡ some (spec, rest) =
        find_closing-append 0 spec rest h in
      (rw closing refl, rw closing refl)

  -- Behind a text without `$` and `{`, a placeholder `${…}` or `{{…}` whose specification has balanced
  -- braces, as one with a placeholder in its default has, is replaced by what the specification resolves to,
  -- and what stands behind it is resolved on its own, for `{{…}` from the second character on; an error of
  -- the placeholder is the error of the whole.
  pub resolve_placeholder :
      (front spec rest : String)
      → is_plain front ≡ true
      → is_balanced 0 spec ≡ true
      → (resolve get (front ++ ("$" ∷ "{" ∷ (spec ++ ("}" ∷ rest))))
          ≡ prepend front (and_then (resolve_spec get spec) (resolve get rest)))
        × (resolve get (front ++ ("{" ∷ "{" ∷ (spec ++ ("}" ∷ rest))))
            ≡ prepend front (and_then (resolve_spec get spec) (resolve get (drop_one rest))))
  unfolding piece_value
  resolve_placeholder front spec rest p h =
      let (dollar, braces) = closed_piece spec rest h in
      let behind = "{" ∷ (spec ++ ("}" ∷ rest)) in
      (
        rw (resolve-append front ("$" ∷ behind) p, resolve-cons "$" behind, dollar) refl,
        rw (resolve-append front ("{" ∷ behind) p, resolve-cons "{" behind, braces) refl,
      )

  -- `$${` stands for `${`: a text that begins with it and goes on without `$` and `{` loses one `$`, and
  -- nothing is looked up.
  pub resolve_escaped :
      (s : String) → is_plain s ≡ true → resolve get ("$" ∷ "$" ∷ "{" ∷ s) ≡ ok ("$" ∷ "{" ∷ s)
  unfolding piece_value next_piece starts_with
  resolve_escaped s p =
      rw (resolve-cons "$" ("$" ∷ "{" ∷ s), resolve-cons "{" s, not_a_brace s p, resolve_plain s p)
        (ap ok (
          append.cons "$" [] ("{" ++ s)
          ∙ ap (λ t. "$" ∷ t)
              (append.nil ("{" ++ s) ∙ (append.cons "{" [] s ∙ ap (λ t. "{" ∷ t) (append.nil s)))))

  or_missing-none :
      (k key : String) (o : Option String)
      → get k ≡ o
      → or_missing k o ≡ missing key
      → get key ≡ none
  or_missing-none k key none e h = subst (λ t. get t ≡ none) (ap key_of h) e
  or_missing-none k key (some v) e h = absurd (ok-ne-missing v key h)

  with_required-none :
      (o : Option (String × String)) (spec key : String)
      → with_required get o spec ≡ missing key
      → get key ≡ none
  unfolding with_required
  with_required-none none spec key h = absurd (ok-ne-missing _ key h)
  with_required-none (some (k, behind)) spec key h = or_missing-none k key (get k) refl h

  with_default-none :
      (o : Option (String × String)) (spec key : String)
      → with_default get o spec ≡ missing key
      → get key ≡ none
  unfolding with_default
  with_default-none none spec key h = with_required-none _ spec key h
  with_default-none (some (k, default)) spec key h = absurd (ok-ne-missing _ key h)

  piece_value-none :
      (piece : Piece) (key : String) → piece_value get piece ≡ missing key → get key ≡ none
  unfolding piece_value resolve_spec
  piece_value-none (written v rest) key h = absurd (ok-ne-missing v key h)
  piece_value-none (placeholder spec rest) key h = with_default-none _ spec key h

  and_then-cases :
      (a b : Resolved) (key : String)
      → and_then a b ≡ missing key
      → (a ≡ missing key) ⊎ (b ≡ missing key)
  and_then-cases (missing k) b key h = inl h
  and_then-cases (ok v) (missing k) key h = inr h
  and_then-cases (ok v) (ok w) key h = absurd (ok-ne-missing _ key h)

  resolve_loop-none :
      (fuel : ℕ) (s key : String) → resolve_loop get fuel s ≡ missing key → get key ≡ none
  unfolding resolve_loop
  resolve_loop-none zero s key h = absurd (ok-ne-missing _ key h)
  resolve_loop-none (suc fuel) [] key h = absurd (ok-ne-missing _ key h)
  resolve_loop-none (suc fuel) (c ∷ s) key h = elim (and_then-cases _ _ key h) [
    | inl now ↦ piece_value-none (next_piece c s) key now
    | inr later ↦ resolve_loop-none fuel (rest_of (next_piece c s)) key later
  ]

  -- An error of resolve names a variable that the environment does not have.
  pub resolve-none : (s key : String) → resolve get s ≡ missing key → get key ≡ none
  unfolding resolve
  resolve-none s key h = resolve_loop-none (length s) s key h
