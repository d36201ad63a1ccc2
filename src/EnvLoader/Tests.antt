-- ===== src/EnvLoader/Tests.antt =====
-- A variable that the environment has and the file sets again.
use release_tests_ginkgo.Prelude.{List, [], ◌∷◌, ◌≡◌, ◌≢◌, text_eq, arith, refl}
use release_tests_ginkgo.Prelude.Texts.{Text, codes}
use release_tests_ginkgo.EnvLoader.{Variables, getenv, load_lines}
use release_tests_ginkgo.EnvLoader.Override.{load_lines-getenv}

abbrev env : Variables
env = (codes "CHANNEL", codes "latest") ∷ []

abbrev texts : List Text
texts = codes "# operator" ∷ codes "CHANNEL = pipelines-1.19" ∷ codes "PROXY=" ∷ []

channel_set : getenv (codes "CHANNEL") env ≡ codes "latest"
unfolding getenv text_eq native.Mathlib.Decide.ℕ_discrete
channel_set = refl

channel_there : getenv (codes "CHANNEL") env ≢ []
channel_there = ground (arith, channel_set)

load_lines-getenv_example :
    getenv (codes "CHANNEL") (load_lines texts env).1 ≡ getenv (codes "CHANNEL") env
load_lines-getenv_example = load_lines-getenv (codes "CHANNEL") texts env channel_there
