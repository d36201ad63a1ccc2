-- ===== src/ApprovalGate/Labels.antt =====
-- The names that `MAGGroupName` makes are labels, and it keeps an alias that is one.
use release_tests_ginkgo.Prelude.{ℕ, Bool, true, false, [], ◌∷◌, ◌++◌, ◌≡◌, ◌≢◌, ◌⊎◌}
use release_tests_ginkgo.Prelude.{inl, inr, refl, arith, Bool-cases}
use release_tests_ginkgo.Prelude.Texts.{Text, codes, null, contains}
use release_tests_ginkgo.ApprovalGate.GroupName.{
  is_space, is_dash, is_alnum, trim_left, trim_right, trim,
}
use release_tests_ginkgo.ApprovalGate.GroupName.{slug, fold_case, group_prefix, mag_group_name}

-- Lower-case letters, digits and single dashes; no dash stands first if one has come before.
abbrev pub Loose : Bool → Text → Type 0
Loose last [] = Unit
Loose last (c ∷ s) =
    (is_alnum c ≡ true) × Loose false s ⊎ (c ≡ b'-') × (last ≡ false) × Loose true s

-- The same, and no dash stands last.
abbrev pub Tight : Bool → Text → Type 0
Tight last [] = Unit
Tight last (c ∷ s) =
    (is_alnum c ≡ true) × Tight false s ⊎ (c ≡ b'-') × (last ≡ false) × (s ≢ []) × Tight true s

-- A label: words of lower-case letters and digits, joined by single dashes.
abbrev pub IsLabel : Text → Type 0
IsLabel s = (s ≢ []) × Tight true s

alnum-ne-dash : (c : ℕ) → is_alnum c ≡ true → is_dash c ≡ false
alnum-ne-dash c h = ground arith

slug-Loose : (last : Bool) (rs : Text) → Loose last (slug last rs)
unfolding slug
slug-Loose last [] = tt
slug-Loose true (r ∷ rs) = ground (arith, slug-Loose true rs, slug-Loose false rs)
slug-Loose false (r ∷ rs) = ground (arith, slug-Loose true rs, slug-Loose false rs)

trim_left-Loose : (last : Bool) (s : Text) → Loose last s → Loose true (trim_left is_dash s)
unfolding trim_left
trim_left-Loose last [] h = tt
trim_left-Loose last (c ∷ s) (inl (word, h)) = rw (alnum-ne-dash c word) (inl (word, h))
trim_left-Loose last (c ∷ s) (inr (dash, _, h)) = rw dash (trim_left-Loose true s h)

trim_right-Tight : (last : Bool) (s : Text) → Loose last s → Tight last (trim_right is_dash s)
unfolding trim_right
trim_right-Tight last [] h = tt
trim_right-Tight last (c ∷ s) (inl (word, h)) =
    let rest = trim_right-Tight false s h in ground (arith, alnum-ne-dash c word)
trim_right-Tight last (c ∷ s) (inr (dash, fresh, h)) =
    let rest = trim_right-Tight true s h in ground arith

-- A label is kept by each step.
Tight-slug : (last : Bool) (s : Text) → Tight last s → slug last s ≡ s
unfolding slug
Tight-slug last [] h = refl
Tight-slug last (c ∷ s) (inl (word, h)) = rw word (rw (Tight-slug false s h))
Tight-slug last (c ∷ s) (inr (dash, fresh, _, h)) = ground (arith, Tight-slug true s h)

Tight-fresh : (s : Text) → Tight true s → Tight false s
Tight-fresh [] h = tt
Tight-fresh (c ∷ s) (inl h) = inl h
Tight-fresh (c ∷ s) (inr (_, fresh, _, _)) = absurd (ground arith)

Tight-fold_case : (last : Bool) (s : Text) → Tight last s → fold_case s ≡ s
unfolding fold_case
Tight-fold_case last [] h = refl
Tight-fold_case last (c ∷ s) (inl (word, h)) = ground (arith, Tight-fold_case false s h)
Tight-fold_case last (c ∷ s) (inr (dash, _, _, h)) = ground (arith, Tight-fold_case true s h)

Tight-contains : (last : Bool) (s : Text) → Tight last s → contains s (codes ":") ≡ false
Tight-contains last [] h = refl
Tight-contains last (c ∷ s) (inl (word, h)) = ground (arith, Tight-contains false s h)
Tight-contains last (c ∷ s) (inr (dash, _, _, h)) = ground (arith, Tight-contains true s h)

module _ (cut : ℕ → Bool) (words : (c : ℕ) → is_alnum c ≡ true → cut c ≡ false) where
  Tight-trim_right : (last : Bool) (s : Text) → Tight last s → trim_right cut s ≡ s
  unfolding trim_right
  Tight-trim_right last [] h = refl
  Tight-trim_right last (c ∷ s) (inl (word, h)) =
      rw (Tight-trim_right false s h) (rw (words c word) (ground arith))
  Tight-trim_right last (c ∷ s) (inr (dash, _, there, h)) =
      ground (arith, Tight-trim_right true s h)

  label-trim : (s : Text) → Tight true s → trim cut s ≡ s
  unfolding trim trim_left
  label-trim [] h = Tight-trim_right true [] tt
  label-trim (c ∷ s) (inl (word, h)) =
      rw (words c word) (Tight-trim_right true (c ∷ s) (inl (word, h)))
  label-trim (c ∷ s) (inr (_, fresh, _, _)) = absurd (ground arith)

alnum-ne-space : (c : ℕ) → is_alnum c ≡ true → is_space c ≡ false
alnum-ne-space c h = ground arith

trim-Tight : (s : Text) → Loose false s → Tight true (trim is_dash s)
unfolding trim
trim-Tight s h = trim_right-Tight true (trim_left is_dash s) (trim_left-Loose false s h)

group_IsLabel : IsLabel (codes "group")
group_IsLabel = (ground arith, inl (refl, inl (refl, inl (refl, inl (refl, inl (refl, tt))))))

-- The name for an alias that is not blank and has no colon is "mag-", the namespace, "-" and a
-- label: words of lower-case letters and digits, joined by single dashes.
pub mag_group_name-IsLabel :
    (namespace alias : Text)
    → trim is_space alias ≢ []
    → contains (trim is_space alias) (codes ":") ≡ false
    → (label : Text) × (mag_group_name namespace alias ≡ group_prefix namespace ++ label)
      × IsLabel label
unfolding mag_group_name
mag_group_name-IsLabel namespace alias there plain =
    let safe = trim is_dash (slug false (fold_case (trim is_space alias))) in
    let tight : Tight true safe =
      trim-Tight _ (slug-Loose false (fold_case (trim is_space alias))) in
    elim (Bool-cases (null safe)) [
      | inl blank ↦ (codes "group", ground arith, group_IsLabel)
      | inr kept ↦ (safe, ground arith, (ground arith, tight))
    ]

-- An alias that is a label is kept: its name is "mag-", the namespace, "-" and the alias itself.
pub mag_group_name-label :
    (namespace label : Text)
    → IsLabel label
    → mag_group_name namespace label ≡ group_prefix namespace ++ label
unfolding mag_group_name
mag_group_name-label namespace [] (there, tight) = absurd (there refl)
mag_group_name-label namespace (c ∷ s) (there, tight) =
    rw (label-trim is_space alnum-ne-space (c ∷ s) tight) (
      rw (Tight-contains true (c ∷ s) tight) (
        rw (Tight-fold_case true (c ∷ s) tight) (
          rw (Tight-slug false (c ∷ s) (Tight-fresh (c ∷ s) tight))
            (rw (label-trim is_dash alnum-ne-dash (c ∷ s) tight)))))
