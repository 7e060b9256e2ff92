-- ===== src/Env/Dotenv/Cache.antt =====
-- What `DotEnvFileProvider::load` of tinypipe-env/src/dotenv.rs keeps.
use tinypipe.Prelude.{◌≡◌, refl, ap, String, Option, none, some, List, [], ◌∷◌, ◌++◌, map, All}
use tinypipe.Env.Dotenv.{Vars, parse_dotenv, fill, load, loads}

module _ (upper : String → String) where
  loads-kept :
      (files : List (Option String)) (vars : Vars)
      → loads upper files (some vars) ≡ map (λ file. some vars) files
  unfolding loads load
  loads-kept [] vars = refl
  loads-kept (file ∷ files) vars = ap (λ t. some vars ∷ t) (loads-kept files vars)

  -- A file that cannot be read leaves nothing behind; from the first time that it can be read, every load
  -- gives what the file held then, whatever it holds later.
  pub loads-first :
      (before : List (Option String)) (content : String) (after : List (Option String))
      → All (λ file. file ≡ none) before
      → loads upper (before ++ some content ∷ after) none
        ≡ map (λ file. none) before
          ++ map (λ file. some (parse_dotenv upper content)) (some content ∷ after)
  unfolding loads load fill
  loads-first [] content after h =
      ap (λ t. some (parse_dotenv upper content) ∷ t)
        (loads-kept after (parse_dotenv upper content))
  loads-first (file ∷ before) content after (h, hs) =
      rw h (ap (λ t. none ∷ t) (loads-first before content after hs))
