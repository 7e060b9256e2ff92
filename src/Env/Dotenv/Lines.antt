-- ===== src/Env/Dotenv/Lines.antt =====
-- How `parse_dotenv` of tinypipe-env/src/dotenv.rs reads a line with a quoted value.
use Prim.Native.Char.{Char, code}
use Prim.Native.String.{[], ◌∷◌, ◌++◌}
use Prim.Native.String.append
use mathlib.Core.Bool.{and-eq-true_iff}
use text.Mathlib.TextLemmas.{append_assoc}
use tinypipe.Prelude
use tinypipe.Prelude.{
  ℕ, ◌≡◌, refl, sym, ap, ◌∙◌, subst, String, Bool, true, false, not, ◌&&◌, ◌||◌, ◌==◌, Option, none,
  some, List, arith, if◌then◌else◌, put_name, get_name, get_name-put_name, str_eq, map, All,
}
use tinypipe.Vm.Text.{all_chars, strip_prefix, is_empty}
use tinypipe.Compiler.Text.{
  put_head, ends_with, without_last, is_quoted, starts_with, is_whitespace, trim,
}
use tinypipe.Compiler.Text.Split.{split_at-append}
use tinypipe.Compiler.Text.Trim.{is_solid, trim-solid, trim-closed}
use tinypipe.Compiler.Types.{has_char}
use tinypipe.Env.Dotenv.{lines, unquote_trimmed, unquote, parse_pair, parse_trimmed, parse_line}

-- no line feed
abbrev pub is_one_line : String → Bool
is_one_line s = all_chars (λ c. not (c == 10)) s

-- A line that ends with a quote is a line of its own.
starts_with-one_line :
    (s rest : String) → is_one_line s ≡ true → starts_with 10 (s ++ ("\"" ∷ rest)) ≡ false
unfolding starts_with all_chars
starts_with-one_line [] rest h = rw (append.nil ("\"" ∷ rest)) refl
starts_with-one_line (c ∷ s) rest h = rw (append.cons c s ("\"" ∷ rest)) (ground (arith, h))

pub lines-cons :
    (s rest : String)
    → is_one_line s ≡ true
    → lines (s ++ ("\"" ∷ "\n" ∷ rest)) ≡ Prelude.List.◌∷◌ (s ++ ("\"" ∷ [])) (lines rest)
unfolding lines all_chars put_head starts_with
lines-cons [] rest h = rw (append.nil ("\"" ∷ "\n" ∷ rest), append.nil ("\"" ∷ [])) refl
lines-cons (c ∷ s) rest h =
    let split = and-eq-true_iff (not (code c == 10)) (is_one_line s) in
    rw (append.cons c s ("\"" ∷ "\n" ∷ rest), append.cons c s ("\"" ∷ []))
      (ground (
        arith,
        h,
        starts_with-one_line s ("\n" ∷ rest) (split.0 h).1,
        lines-cons s rest (split.0 h).1,
      ))

ends_with-append : (q : Char) (s : String) → ends_with (code q) (s ++ (q ∷ [])) ≡ true
unfolding ends_with
ends_with-append q [] = rw (append.nil (q ∷ [])) (ground arith)
ends_with-append q (c ∷ []) = rw (append.cons c [] (q ∷ []), append.nil (q ∷ [])) (ground arith)
ends_with-append q (c ∷ d ∷ s) =
    rw (append.cons c (d ∷ s) (q ∷ []), append.cons d s (q ∷ []))
      (subst (λ t. ends_with (code q) t ≡ true) (append.cons d s (q ∷ []))
        (ends_with-append q (d ∷ s)))

without_last-append : (q : Char) (s : String) → without_last (s ++ (q ∷ [])) ≡ s
unfolding without_last
without_last-append q [] = rw (append.nil (q ∷ [])) refl
without_last-append q (c ∷ []) = rw (append.cons c [] (q ∷ []), append.nil (q ∷ [])) refl
without_last-append q (c ∷ d ∷ s) =
    rw (append.cons c (d ∷ s) (q ∷ []), append.cons d s (q ∷ []))
      (ap (λ t. c ∷ t)
        (subst (λ t. without_last t ≡ d ∷ s) (append.cons d s (q ∷ []))
          (without_last-append q (d ∷ s))))

unquote-quoted : (v : String) → unquote ("\"" ∷ (v ++ ("\"" ∷ []))) ≡ v
unfolding unquote unquote_trimmed is_quoted starts_with
unquote-quoted v =
    rw (trim-closed "\"" v "\"" (unfold is_whitespace in refl) (unfold is_whitespace in refl))
      (rw (ends_with-append "\"" v) (without_last-append "\"" v))

-- A prefix with a blank is no prefix of a text without blanks up to `=`.
strip_prefix-blank :
    (p key rest : String)
    → all_chars (λ c. not (c == 61)) p ≡ true
    → has_char 32 p ≡ true
    → has_char 32 key ≡ false
    → strip_prefix p (key ++ ("=" ∷ rest)) ≡ none
unfolding strip_prefix all_chars
strip_prefix-blank [] key rest e b k = cc
strip_prefix-blank (a ∷ p) [] rest e b k = rw (append.nil ("=" ∷ rest)) (ground (arith, e))
strip_prefix-blank (a ∷ p) (c ∷ key) rest e b k =
    rw (append.cons c key ("=" ∷ rest)) (ground (arith, e, b, k, strip_prefix-blank p key rest))

-- What is no white space is no blank and no line feed.
solid_code : (c : ℕ) → is_whitespace c ≡ false → (c == 32 ≡ false) × (c == 10 ≡ false)
unfolding is_whitespace
solid_code c h = ground (arith, h)

pub solid-one_line :
    (s : String) → is_solid s ≡ true → (has_char 32 s ≡ false) × (is_one_line s ≡ true)
unfolding all_chars
solid-one_line [] h = (refl, refl)
solid-one_line (c ∷ s) h = ground (arith, h, solid_code (code c), solid-one_line s)

pub is_one_line-append :
    (s t : String) → is_one_line s ≡ true → is_one_line t ≡ true → is_one_line (s ++ t) ≡ true
unfolding all_chars
is_one_line-append [] t h k = rw (append.nil t) k
is_one_line-append (c ∷ s) t h k =
    rw (append.cons c s t) (ground (arith, h, is_one_line-append s t))

-- `KEY="value"`
abbrev pub line_of : String → String → String
line_of key value = key ++ ("=" ∷ "\"" ∷ (value ++ ("\"" ∷ [])))

pub line_of-closed :
    (key value rest : String)
    → key ++ ("=" ∷ "\"" ∷ (value ++ ("\"" ∷ rest)))
      ≡ (key ++ ("=" ∷ "\"" ∷ value)) ++ ("\"" ∷ rest)
line_of-closed key value rest = sym (
    append_assoc key ("=" ∷ "\"" ∷ value) ("\"" ∷ rest)
    ∙ ap (λ t. key ++ t)
        (append.cons "=" ("\"" ∷ value) ("\"" ∷ rest)
          ∙ ap (λ t. "=" ∷ t) (append.cons "\"" value ("\"" ∷ rest))))

-- What can be written as a line: a key that is not empty, is in upper case, has no white space and no `=`
-- and does not begin with `#`, and a value on one line.
pub record IsWritable (upper : String → String) (key value : String) : Type 0 where
  pub filled : is_empty key ≡ false
  pub solid : is_solid key ≡ true
  pub no_equals : all_chars (λ c. not (c == 61)) key ≡ true
  pub no_hash : starts_with 35 key ≡ false
  pub upper_case : upper key ≡ key
  pub one_line : is_one_line value ≡ true

trim-line_of :
    (key value : String)
    → is_empty key ≡ false
    → is_solid key ≡ true
    → trim (line_of key value) ≡ line_of key value
unfolding is_empty all_chars
trim-line_of [] value e h = cc
trim-line_of (c ∷ key) value e h =
    subst (λ t. trim t ≡ t)
      (sym (
        line_of-closed (c ∷ key) value []
        ∙ ap (λ t. t ++ ("\"" ∷ [])) (append.cons c key ("=" ∷ "\"" ∷ value))
        ∙ append.cons c (key ++ ("=" ∷ "\"" ∷ value)) ("\"" ∷ [])))
      (trim-closed c (key ++ ("=" ∷ "\"" ∷ value)) "\"" (ground (arith, h))
        (unfold is_whitespace in refl))

head_of-line_of :
    (key value : String)
    → is_empty key ≡ false
    → starts_with 35 key ≡ false
    → (is_empty (line_of key value) ≡ false) × (starts_with 35 (line_of key value) ≡ false)
unfolding is_empty starts_with
head_of-line_of [] value e h = cc
head_of-line_of (c ∷ key) value e h =
    rw (append.cons c key ("=" ∷ "\"" ∷ (value ++ ("\"" ∷ [])))) (refl, h)

pub lines-written :
    (key value rest : String)
    → is_one_line key ≡ true
    → is_one_line value ≡ true
    → lines (key ++ ("=" ∷ "\"" ∷ (value ++ ("\"" ∷ "\n" ∷ rest))))
      ≡ Prelude.List.◌∷◌ (line_of key value) (lines rest)
unfolding all_chars
lines-written key value rest h k =
    ap lines (line_of-closed key value ("\n" ∷ rest))
    ∙ lines-cons (key ++ ("=" ∷ "\"" ∷ value)) rest
        (is_one_line-append key ("=" ∷ "\"" ∷ value) h k)
    ∙ ap (λ t. Prelude.List.◌∷◌ t (lines rest)) (sym (line_of-closed key value []))

module _ (upper : String → String) where
  pub parse_line-line_of :
      (key value : String)
      → IsWritable upper key value
      → parse_line upper (line_of key value) ≡ some (key, value)
  unfolding parse_line parse_trimmed parse_pair all_chars
  parse_line-line_of key value w =
      let trimmed = trim-line_of key value w.filled w.solid in
      let (filled, no_hash) = head_of-line_of key value w.filled w.no_hash in
      let whole : String = "\"" ∷ (value ++ ("\"" ∷ [])) in
      rw
        (
          trimmed,
          filled,
          no_hash,
          strip_prefix-blank "export " key whole refl refl (solid-one_line key w.solid).0,
          trimmed,
          split_at-append "=" key whole w.no_equals,
          trim-solid key w.solid,
          w.upper_case,
          w.filled,
          trim-closed "\"" value "\"" (unfold is_whitespace in refl) (unfold is_whitespace in refl),
          unquote-quoted value,
        )
        refl
