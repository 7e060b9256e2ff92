-- ===== src/Env/Layers.antt =====
-- tinypipe-env/src/lib.rs: keys, scopes and the layers of providers. `upper` is `str::to_uppercase`; a
-- provider is what its methods answer.
pub mod Laws
use Prim.Native.Char.{code}
use Prim.Native.String.{◌++◌ as ◌<>◌}
use tinypipe.Prelude.{
  ℕ, zero, suc, ◌+◌, String, Bool, true, false, ◌||◌, Option, none, some, List, [], ◌∷◌, ◌++◌, any,
  has, length, if◌then◌else◌,
}
use tinypipe.Vm.Text.{join}
use tinypipe.Compiler.Text.{trim, replace_char}

-- `EnvProvider`
pub record Provider : Type 0 where
  pub get : String → Option String
  pub list : List (String × String)
  pub is_secret : String → Bool

pub record Env : Type 0 where
  pub providers : List Provider
  pub scopes : List String

-- `Env::new`
abbrev pub new_env : List Provider → Env
new_env providers = record { providers = providers; scopes = [] }

unfoldable pub join_scopes : List String → String → String
unfolding join
join_scopes [] key = key
join_scopes (s ∷ scopes) key = join "_" (s ∷ scopes) <> "_" <> key

-- `&scopes[..i]`
unfoldable pub take {ℓ} : {A : Type ℓ} → ℕ → List A → List A
take zero xs = []
take (suc i) [] = []
take (suc i) (x ∷ xs) = x ∷ take i xs

abbrev pub or_else : Option String → Option String → Option String
or_else (some v) rest = some v
or_else none rest = rest

-- `Env::lookup`: the first provider that has the key
unfoldable pub lookup_in : List Provider → String → Option String
lookup_in [] key = none
lookup_in (p ∷ providers) key = or_else (p.get key) (lookup_in providers key)

unfoldable pub lookup : Env → String → Option String
unfolding lookup_in
lookup env key = lookup_in env.providers key

-- the candidates with the first `i` scopes, then those with fewer
unfoldable pub get_from : Env → ℕ → String → Option String
unfolding lookup join_scopes take
get_from env zero key = lookup env key
get_from env (suc i) key =
    or_else (lookup env (join_scopes (take (suc i) env.scopes) key)) (get_from env i key)

-- one provider's variables, unless their keys are there already
list_one : (String → String) → List (String × String) → List String → List (String × String)
list_one normalize [] seen = []
list_one normalize ((k, v) ∷ vars) seen =
    let rest = list_one normalize vars (normalize k ∷ seen) in
    if has seen (normalize k) then rest else (normalize k, v) ∷ rest

-- the keys of the variables of a provider, behind those that were seen
see_keys : (String → String) → List (String × String) → List String → List String
see_keys normalize [] seen = seen
see_keys normalize ((k, v) ∷ vars) seen = see_keys normalize vars (normalize k ∷ seen)

list_from : (String → String) → List Provider → List String → List (String × String)
unfolding list_one see_keys
list_from normalize [] seen = []
list_from normalize (p ∷ providers) seen =
    list_one normalize p.list seen ++ list_from normalize providers (see_keys normalize p.list seen)

module _ (upper : String → String) where
  unfoldable pub normalize_key : String → String
  unfolding trim replace_char
  normalize_key key =
      replace_char 32 "_" (replace_char 46 "_" (replace_char 45 "_" (upper (trim key))))

  -- `Env::scoped`
  unfoldable pub scoped : String → Env → Env
  unfolding normalize_key
  scoped module_name env = record env { scopes = env.scopes ++ normalize_key module_name ∷ [] }

  -- `Env::get`
  unfoldable pub get : Env → String → Option String
  unfolding get_from normalize_key
  get env key = get_from env (length env.scopes) (normalize_key key)

  -- `Env::list`
  unfoldable pub list : Env → List (String × String)
  unfolding list_from normalize_key
  list env = list_from normalize_key env.providers []

  -- `Env::is_secret`
  unfoldable pub is_secret : Env → String → Bool
  unfolding normalize_key
  is_secret env key = any (λ (p : Provider). p.is_secret (normalize_key key)) env.providers
