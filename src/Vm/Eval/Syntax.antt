-- ===== src/Vm/Eval/Syntax.antt =====
-- How the evaluator of tinypipe-vm/src/compiled_executor.rs takes expressions apart: brackets, commas and
-- chains of accessors. What the source marks by positions is here the text before and behind.
use Prim.Native.Char.{Char, code}
use Prim.Native.String.{[], ◌∷◌}
use tinypipe.Prelude.{
  ℕ, zero, suc, ◌+◌, ◌-◌, String, Bool, true, false, not, ◌&&◌, ◌||◌, ◌==◌, Option, none, some,
  List, if◌then◌else◌,
}
use tinypipe.Prelude
use tinypipe.Api.Int.{ℤ, pos, negsuc, ◌+ℤ◌, eq_ℤ}
use tinypipe.Vm.Text.{is_empty, length}
use tinypipe.Compiler.Text.{trim, contains_text, put_head}

pub data Accessor : Type 0 where
  by_field : String → Accessor
  by_index : String → Accessor

abbrev pub is_quote : ℕ → Bool
is_quote c = c == 34 || c == 39

abbrev pub opens : ℕ → Bool
opens c = c == 40 || c == 91 || c == 123

abbrev pub closes : ℕ → Bool
closes c = c == 41 || c == 93 || c == 125

-- `is_concat_expr`
unfoldable pub is_concat_expr : String → Bool
unfolding contains_text
is_concat_expr s = contains_text "\" +" s || contains_text "' +" s

put_inside : Char → Option (String × String) → Option (String × String)
put_inside c none = none
put_inside c (some (inside, behind)) = some (c ∷ inside, behind)

-- the quote that is open behind a character
unfoldable pub after_quote : Option ℕ → ℕ → Option ℕ
after_quote none c = if is_quote c then some c else none
after_quote (some q) c = if c == q then none else some q

-- `find_matching_bracket` from behind the bracket on: the text inside and the text behind the closing one.
unfoldable pub matching : ℕ → Option ℕ → String → Option (String × String)
unfolding put_inside after_quote
matching depth quote [] = none
matching depth none (c ∷ s) =
    let k = code c in
    let rest =
      matching (if opens k then depth + 1 else if closes k then depth - 1 else depth)
        (after_quote none k) s in
    if closes k && depth == 1 then some ([], s) else put_inside c rest
matching depth (some q) (c ∷ s) =
    let rest = matching depth (after_quote (some q) (code c)) s in put_inside c rest

-- the depth behind a character, where brackets may close that were not opened
unfoldable pub after_bracket : ℤ → ℕ → ℤ
after_bracket depth c =
    if opens c then depth +ℤ pos 1 else if closes c then depth +ℤ negsuc 0 else depth

pieces : ℤ → Option ℕ → String → List String
unfolding after_bracket after_quote put_head
pieces depth quote [] = Prelude.List.◌∷◌ [] Prelude.List.[]
pieces depth none (c ∷ s) =
    let rest = pieces (after_bracket depth (code c)) (after_quote none (code c)) s in
    if code c == 44 && eq_ℤ depth (pos 0) then Prelude.List.◌∷◌ [] rest else put_head c rest
pieces depth (some q) (c ∷ s) =
    let rest = pieces depth (after_quote (some q) (code c)) s in put_head c rest

-- A last part of white space is dropped.
without_blank_end : List String → List String
unfolding trim is_empty
without_blank_end Prelude.List.[] = Prelude.List.[]
without_blank_end (Prelude.List.◌∷◌ p Prelude.List.[]) =
    if is_empty (trim p) then Prelude.List.[] else Prelude.List.◌∷◌ p Prelude.List.[]
without_blank_end (Prelude.List.◌∷◌ p (Prelude.List.◌∷◌ q ps)) =
    Prelude.List.◌∷◌ p (without_blank_end (Prelude.List.◌∷◌ q ps))

unfoldable pub split_top_level_commas : String → List String
unfolding pieces without_blank_end
split_top_level_commas s = without_blank_end (pieces (pos 0) none s)

-- up to the next `.` or `[`
unfoldable pub field_of : String → String × String
field_of [] = ([], [])
field_of (c ∷ s) =
    let rest = field_of s in
    if code c == 46 || code c == 91 then ([], c ∷ s) else (c ∷ rest.0, rest.1)

-- a text, accessors that follow it, and what stands behind the last of them
pub record Chain : Type 0 where
  pub base : String
  pub accessors : List Accessor
  pub tail : String

unfoldable pub put_base : Char → Option Chain → Option Chain
put_base c none = none
put_base c (some chain) = some (record chain { base = c ∷ chain.base })

-- What stood between two accessors is forgotten.
unfoldable pub add_accessor : Accessor → Option Chain → Option Chain
add_accessor a none = none
add_accessor a (some chain) = some (record {
  base = [];
  accessors = Prelude.List.◌∷◌ a chain.accessors;
  tail = elim chain.accessors [ Prelude.List.[] ↦ chain.base | _ ↦ chain.tail ];
})

unfoldable pub add_index : Option (String × String) → (String → Option Chain) → Option Chain
unfolding trim is_empty add_accessor
add_index none next = none
add_index (some (key, behind)) next =
    if is_empty (trim key) then none else add_accessor (by_index key) (next behind)

unfoldable pub add_field : String × String → (String → Option Chain) → Option Chain
unfolding trim is_empty add_accessor
add_field (name, behind) next =
    if is_empty (trim name) then none else add_accessor (by_field (trim name)) (next behind)

-- `while i < n` of `split_accessors`; each step takes a character at least. `first` holds at the start.
unfoldable pub scan : ℕ → Bool → ℤ → Option ℕ → String → Option Chain
unfolding put_base add_index add_field after_quote after_bracket matching field_of is_empty
scan zero first depth quote s = none
scan (suc fuel) first depth quote [] =
    some (record { base = []; accessors = Prelude.List.[]; tail = [] })
scan (suc fuel) first depth (some q) (c ∷ s) =
    put_base c (scan fuel false depth (after_quote (some q) (code c)) s)
scan (suc fuel) first depth none (c ∷ s) =
    let k = code c in
    let next = scan fuel false depth none in
    let plain = put_base c (scan fuel false (after_bracket depth k) (after_quote none k) s) in
    if k == 91 && eq_ℤ depth (pos 0) && not first
    then add_index (matching 1 none s) next
    else if k == 46 && eq_ℤ depth (pos 0) && not first && not (is_empty s)
    then add_field (field_of s) next
    else plain

-- `split_accessors`
unfoldable pub whole_chain : Option Chain → Option Chain
unfolding trim is_empty
whole_chain none = none
whole_chain (some chain) =
    if elim chain.accessors [ Prelude.List.[] ↦ true | _ ↦ false ]
      || not (is_empty (trim chain.tail))
      || is_empty (trim chain.base)
    then none
    else some (record chain { base = trim chain.base })

unfoldable pub split_accessors : String → Option Chain
unfolding scan whole_chain length
split_accessors expr = whole_chain (scan (suc (length expr)) true (pos 0) none expr)
