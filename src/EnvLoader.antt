-- ===== src/EnvLoader.antt =====
-- pkg/config/envloader.go: the environment variables of a properties file.
-- The lines are what bufio.Scanner gives of the file, by their runes.
pub mod Override
mod Tests
use release_tests_ginkgo.Prelude.{Bool, true, false, ◌||◌, Option, none, some, List, [], ◌∷◌}
use release_tests_ginkgo.Prelude.{◌==◌, text_eq, if◌then◌else◌}
use release_tests_ginkgo.Prelude.Texts.{Text, eqb, null, has_prefix, codes}
use release_tests_ginkgo.ApprovalGate.GroupName.{is_space, trim}

abbrev pub Variables : Type 0
Variables = List (Text × Text)

-- `os.Getenv`: empty where the variable is not set.
unfoldable pub getenv : Text → Variables → Text
getenv key [] = []
getenv key ((k, v) ∷ env) = if k == key then v else getenv key env

abbrev has_nul : Text → Bool
has_nul [] = false
has_nul (c ∷ s) = eqb c 0 || has_nul s

unfoldable pub assign : Text → Text → Variables → Variables
assign key value [] = (key, value) ∷ []
assign key value ((k, v) ∷ env) =
    if k == key then (key, value) ∷ env else (k, v) ∷ assign key value env

-- `os.Setenv`: an error for an empty name or a zero byte. No name has an equals sign here.
unfoldable pub setenv : Text → Text → Variables → Option Variables
setenv key value env =
    if null key || (has_nul key || has_nul value) then none else some (assign key value env)

-- `strings.SplitN(line, "=", 2)`: the two parts, if there is an equals sign.
unfoldable pub split : Text → Option (Text × Text)
split [] = none
split (c ∷ s) =
    let rest = split s in
    if eqb c b'='
    then some ([], s)
    else (elim rest [ none ↦ none | some (key, value) ↦ some (c ∷ key, value) ])

-- The name and the value of a line.
unfoldable pub parse_line : Text → Option (Text × Text)
parse_line text =
    let line = trim is_space text in
    if null line || has_prefix line (codes "#") then none else (elim (split line) [
      | none ↦ none
      | some (key, value) ↦ some (trim is_space key, trim is_space value)
    ])

-- The body of the loop; `none` is the error of `os.Setenv`.
unfoldable pub load_line : Text → Variables → Option Variables
load_line text env = elim (parse_line text) [
  | none ↦ some env
  | some (key, value) ↦ if null (getenv key env) then setenv key value env else some env
]

-- The loop: whether it ended without an error, and the environment that it leaves.
unfoldable pub load_lines : List Text → Variables → Bool × Variables
load_lines [] env = (true, env)
load_lines (text ∷ texts) env = elim (load_line text env) [
  | none ↦ (false, env)
  | some env' ↦ load_lines texts env'
]
