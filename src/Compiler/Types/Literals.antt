-- ===== src/Compiler/Types/Literals.antt =====
-- What `strip_string_literals` of tinypipe-compiler/src/type_check.rs takes off.
use Prim.Native.Char.{Char, code}
use Prim.Native.String.{[] as nil, ◌∷◌ as ◌∷∷◌, ◌++◌ as ◌<>◌}
use Prim.Native.String.append
use mathlib.Core.Bool.{and-eq-true_iff}
use tinypipe.Prelude.{
  ℕ, ◌≡◌, refl, ap, ◌∙◌, sym, String, Bool, true, false, not, ◌&&◌, ◌==◌, List, [], ◌∷◌, ◌++◌, all,
  ltb, arith, if◌then◌else◌,
}
use tinypipe.Vm.Text.{all_chars}
use tinypipe.Compiler.Quotes.{
  utf8, bytes, is_quote, literal_from, has_string_literal, strip_from, strip_string_literals,
}

-- no quote and no backslash
abbrev is_ordinary : ℕ → Bool
is_ordinary b = not (is_quote b) && not (b == 92)

-- no quote and no backslash
abbrev pub is_unquoted : String → Bool
is_unquoted s = all_chars is_ordinary s

append_assoc : (xs ys zs : List ℕ) → (xs ++ ys) ++ zs ≡ xs ++ (ys ++ zs)
append_assoc [] ys zs = refl
append_assoc (x ∷ xs) ys zs = ap (λ r. x ∷ r) (append_assoc xs ys zs)

all-append :
    (p : ℕ → Bool) (xs ys : List ℕ) → all p xs ≡ true → all p ys ≡ true → all p (xs ++ ys) ≡ true
all-append p [] ys h k = k
all-append p (x ∷ xs) ys h k =
    let split = (and-eq-true_iff (p x) (all p xs)).0 h in
    rw (split.0, all-append p xs ys split.1 k) refl

bytes-append : (s t : String) → bytes (s <> t) ≡ bytes s ++ bytes t
unfolding bytes
bytes-append nil t = rw (append.nil t) refl
bytes-append (c ∷∷ s) t =
    rw (append.cons c s t, bytes-append s t)
      (sym (append_assoc (utf8 (code c)) (bytes s) (bytes t)))

-- The bytes of a character beyond ASCII are beyond ASCII.
utf8-is_ordinary : (c : ℕ) → is_ordinary c ≡ true → all is_ordinary (utf8 c) ≡ true
unfolding utf8
utf8-is_ordinary c h = ground (arith, h)

bytes-is_ordinary : (s : String) → is_unquoted s ≡ true → all is_ordinary (bytes s) ≡ true
unfolding bytes all_chars
bytes-is_ordinary nil h = refl
bytes-is_ordinary (c ∷∷ s) h =
    let split = (and-eq-true_iff (is_ordinary (code c)) (is_unquoted s)).0 h in
    all-append is_ordinary (utf8 (code c)) (bytes s) (utf8-is_ordinary (code c) split.0)
      (bytes-is_ordinary s split.1)

utf8-quote : (q : ℕ) → is_quote q ≡ true → utf8 q ≡ q ∷ []
unfolding utf8
utf8-quote q h = let ascii : ltb q 128 ≡ true = ground (arith, h) in rw ascii refl

-- The bytes in a literal are taken off, those outside stay.
strip_from-ordinary :
    (in_str : Bool) (bs rest : List ℕ)
    → all is_ordinary bs ≡ true
    → strip_from false in_str (bs ++ rest)
      ≡ (if in_str then [] else bs) ++ strip_from false in_str rest
unfolding strip_from
strip_from-ordinary true [] rest h = refl
strip_from-ordinary false [] rest h = refl
strip_from-ordinary true (b ∷ bs) rest h =
    let split = (and-eq-true_iff (is_ordinary b) (all is_ordinary bs)).0 h in
    let ih = strip_from-ordinary true bs rest split.1 in ground (arith, split.0, ih)
strip_from-ordinary false (b ∷ bs) rest h =
    let split = (and-eq-true_iff (is_ordinary b) (all is_ordinary bs)).0 h in
    let ih = strip_from-ordinary false bs rest split.1 in ground (arith, split.0, ih)

-- A quote that is not escaped opens a literal or closes one.
strip_from-quote :
    (in_str : Bool) (q : ℕ) (rest : List ℕ)
    → is_quote q ≡ true
    → strip_from false in_str (q ∷ rest) ≡ strip_from false (not in_str) rest
unfolding strip_from
strip_from-quote in_str q rest h = ground (arith, h)

literal_from-ordinary :
    (bs rest : List ℕ)
    → all is_ordinary bs ≡ true
    → literal_from false (bs ++ rest) ≡ literal_from false rest
unfolding literal_from
literal_from-ordinary [] rest h = refl
literal_from-ordinary (b ∷ bs) rest h =
    let split = (and-eq-true_iff (is_ordinary b) (all is_ordinary bs)).0 h in
    let ih = literal_from-ordinary bs rest split.1 in ground (arith, split.0, ih)

bytes-quoted :
    (q : Char) (s rest : String)
    → is_quote (code q) ≡ true
    → bytes (s <> (q ∷∷ rest)) ≡ bytes s ++ code q ∷ bytes rest
unfolding bytes
bytes-quoted q s rest h = rw (bytes-append s (q ∷∷ rest), utf8-quote (code q) h) refl

-- Behind a text without quotes and backslashes, a literal that has none inside is found, and is taken off
-- with its quotes and all operators in it; what stands behind it is read as a text of its own. What is
-- kept are the bytes of the text, which the code makes one character each.
pub strip_string_literals-literal :
    (q : Char) (front body rest : String)
    → is_quote (code q) ≡ true
    → is_unquoted front ≡ true
    → is_unquoted body ≡ true
    → (has_string_literal (front <> (q ∷∷ (body <> (q ∷∷ rest)))) ≡ true)
      × (strip_string_literals (front <> (q ∷∷ (body <> (q ∷∷ rest))))
          ≡ bytes front ++ strip_string_literals rest)
unfolding has_string_literal strip_string_literals
strip_string_literals-literal q front body rest h f k =
    let b = code q in
    let behind = bytes body ++ b ∷ bytes rest in
    let whole : bytes (front <> (q ∷∷ (body <> (q ∷∷ rest)))) ≡ bytes front ++ b ∷ behind =
      bytes-quoted q front (body <> (q ∷∷ rest)) h
      ∙ ap (λ r. bytes front ++ b ∷ r) (bytes-quoted q body rest h) in
    (
      rw (whole, literal_from-ordinary (bytes front) (b ∷ behind) (bytes-is_ordinary front f))
          (unfold literal_from in ground (arith, h)),
      rw
          (
            whole,
            strip_from-ordinary false (bytes front) (b ∷ behind) (bytes-is_ordinary front f),
            strip_from-quote false b behind h,
            strip_from-ordinary true (bytes body) (b ∷ bytes rest) (bytes-is_ordinary body k),
            strip_from-quote true b (bytes rest) h,
          )
          refl,
    )
