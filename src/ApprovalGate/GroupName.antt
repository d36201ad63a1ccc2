-- ===== src/ApprovalGate/GroupName.antt =====
-- `MAGGroupName`: the name of an OpenShift Group for an alias.
-- A text is given by its runes here. Outside ASCII all runes are replaced alike, so of
-- `strings.ToLower` only what it does to the letters A to Z and the two runes outside ASCII with a
-- lower case in it, U+0130 and U+212A, is written out.
use release_tests_ginkgo.Prelude.{ℕ, ◌+◌, Bool, true, false, ◌&&◌, ◌||◌, [], ◌∷◌, ◌++◌}
use release_tests_ginkgo.Prelude.{if◌then◌else◌}
use release_tests_ginkgo.Prelude.Texts.{Text, codes, leb, eqb, null, contains}

abbrev between : ℕ → ℕ → ℕ → Bool
between lo hi c = leb lo c && leb c hi

-- `unicode.IsSpace`
abbrev pub is_space : ℕ → Bool
is_space c =
    between 9 13 c
    || (eqb c 32
        || (eqb c 133
            || (eqb c 160
                || (eqb c 5760
                    || (between 8192 8202 c
                        || (between 8232 8233 c || (eqb c 8239 || (eqb c 8287 || eqb c 12288))))))))

abbrev pub is_dash : ℕ → Bool
is_dash c = eqb c b'-'

unfoldable pub trim_left : (ℕ → Bool) → Text → Text
trim_left cut [] = []
trim_left cut (c ∷ s) = let rest = trim_left cut s in if cut c then rest else c ∷ s

unfoldable pub trim_right : (ℕ → Bool) → Text → Text
trim_right cut [] = []
trim_right cut (c ∷ s) = let rest = trim_right cut s in if null rest && cut c then [] else c ∷ rest

-- `strings.TrimSpace`, and `strings.Trim(s, "-")`.
unfoldable pub trim : (ℕ → Bool) → Text → Text
trim cut s = trim_right cut (trim_left cut s)

abbrev pub to_lower : ℕ → ℕ
to_lower c =
    if between b'A' b'Z' c
    then c + 32
    else if eqb c 304
    then b'i'
    else if eqb c 8490
    then b'k'
    else c

-- `strings.ReplaceAll` of a text of one rune by "-".
abbrev pub replace : ℕ → ℕ → ℕ
replace old c = if eqb c old then b'-' else c

abbrev pub is_alnum : ℕ → Bool
is_alnum c = between b'a' b'z' c || between b'0' b'9' c

-- The loop over the runes, with `lastDash`.
unfoldable pub slug : Bool → Text → Text
slug last_dash [] = []
slug last_dash (r ∷ rs) =
    let after_dash = slug true rs in
    let after_alnum = slug false rs in
    if is_alnum r
    then r ∷ after_alnum
    else if is_dash r
    then (if last_dash then after_dash else b'-' ∷ after_dash)
    else if last_dash
    then after_dash
    else b'-' ∷ after_dash

-- What stands before the loop.
unfoldable pub fold_case : Text → Text
fold_case [] = []
fold_case (c ∷ s) = replace b' ' (replace b'_' (to_lower c)) ∷ fold_case s

abbrev pub group_prefix : Text → Text
group_prefix namespace = codes "mag-" ++ (namespace ++ codes "-")

unfoldable pub mag_group_name : Text → Text → Text
mag_group_name namespace alias =
    let a = trim is_space alias in
    if null a
    then []
    else if contains a (codes ":")
    then a
    else let safe_alias = trim is_dash (slug false (fold_case a)) in
      group_prefix namespace ++ (if null safe_alias then codes "group" else safe_alias)
