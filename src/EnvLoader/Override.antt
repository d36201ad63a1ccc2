-- ===== src/EnvLoader/Override.antt =====
-- The environment takes precedence over the properties file.
use release_tests_ginkgo.Prelude.{some, List, [], ◌∷◌, ◌≡◌, ◌≢◌, refl, arith}
use release_tests_ginkgo.Prelude.{inl, inr, sym, ◌∙◌, ◌==◌, text_eq, if◌then◌else◌, Option-cases}
use release_tests_ginkgo.Prelude.Texts.{Text}
use release_tests_ginkgo.EnvLoader.{
  Variables, getenv, assign, setenv, parse_line, load_line, load_lines,
}

getenv-assign :
    (key k value : Text) (env : Variables)
    → getenv key (assign k value env) ≡ (if k == key then value else getenv key env)
unfolding getenv assign
getenv-assign key k value [] = refl
getenv-assign key k value ((j, w) ∷ env) = ground (arith, getenv-assign key k value env)

load_line-getenv :
    (key text : Text) (env env' : Variables)
    → getenv key env ≢ []
    → load_line text env ≡ some env'
    → getenv key env' ≡ getenv key env
unfolding load_line setenv
load_line-getenv key text env env' set h = elim (Option-cases (parse_line text)) [
  | inl skipped ↦ ground arith
  | inr ((k, value), parsed) ↦ ground (arith, getenv-assign key k value env)
]

-- A variable that has a value before keeps it, whatever the file says of it, and also where the
-- loop ends with an error.
pub load_lines-getenv :
    (key : Text) (texts : List Text) (env : Variables)
    → getenv key env ≢ []
    → getenv key (load_lines texts env).1 ≡ getenv key env
unfolding load_lines
load_lines-getenv key [] env set = refl
load_lines-getenv key (text ∷ texts) env set = elim (Option-cases (load_line text env)) [
  | inl refused ↦ rw (refused, load_lines) refl
  | inr (env', loaded) ↦
      let same = load_line-getenv key text env env' set loaded in
      rw (loaded, load_lines) (load_lines-getenv key texts env' (λ e. set (sym same ∙ e)) ∙ same)
]
