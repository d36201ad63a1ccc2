-- ===== src/TlsScanner/Search.antt =====
-- What `findIPResultByPodPrefix` and `findTLSServingPort` of pkg/tlsscanner/results.go find: the
-- first item that passes a test.
use mathlib.Core.Path.{subst}
use release_tests_ginkgo.Prelude.{Bool, true, false, Option, none, some, List, [], ◌∷◌, ◌++◌}
use release_tests_ginkgo.Prelude.{◌≡◌, ◌↔◌, inl, inr, refl, sym, ap, ◌∙◌, arith, ◌==◌, string_eq}
use release_tests_ginkgo.Prelude.{if◌then◌else◌, Bool-cases}
use release_tests_ginkgo.Prelude.Texts.{Text, has_prefix}
use release_tests_ginkgo.Prelude.Lists.{All}
use release_tests_ginkgo.TlsScanner.Results.{PortResult, IpResult}
use release_tests_ginkgo.TlsScanner.Results.{find_ip_result_by_pod_prefix, find_tls_serving_port}

module _ {A : Type 0} (test : A → Bool) where
  -- The item passes the test, and none that stands before it does.
  abbrev pub First : List A → A → Type 0
  First xs r =
      (before : List A) × (after : List A) × (xs ≡ before ++ (r ∷ after))
      × All (λ x. test x ≡ false) before
      × (test r ≡ true)

  -- The loops of the two lookups, at any test.
  abbrev find : List A → Option A
  find [] = none
  find (x ∷ xs) = if test x then some x else find xs

  find-First : (xs : List A) (r : A) → find xs ≡ some r → First xs r
  find-First [] r h = absurd (ground arith)
  find-First (x ∷ xs) r h = elim (Bool-cases (test x)) [
    | inl t ↦
        let same : x ≡ r = ground arith in
        ([], xs, ap (λ y. y ∷ xs) same, tt, subst (λ y. test y ≡ true) same t)
    | inr f ↦
        let (before, after, split, none_before, passes) = find-First xs r (ground arith) in
        (x ∷ before, after, ap (λ ys. x ∷ ys) split, (f, none_before), passes)
  ]

  First-find :
      (before after : List A) (r : A)
      → All (λ x. test x ≡ false) before
      → test r ≡ true
      → find (before ++ (r ∷ after)) ≡ some r
  First-find [] after r h t = rw t
  First-find (x ∷ before) after r (f, h) t = rw f (First-find before after r h t)

  find_iff : (xs : List A) (r : A) → (find xs ≡ some r) ↔ First xs r
  find_iff xs r = (
    find-First xs r,
    λ (before, after, split, h, t). ap find split ∙ First-find before after r h t,
  )

abbrev pub named : Text → IpResult → Bool
named deployment_name r = has_prefix r.pod deployment_name

abbrev pub serves_tls : PortResult → Bool
serves_tls p = p.status == "OK"

find_ip-find :
    (rs : List IpResult) (deployment_name : Text)
    → find_ip_result_by_pod_prefix rs deployment_name ≡ find (named deployment_name) rs
unfolding find_ip_result_by_pod_prefix
find_ip-find [] deployment_name = refl
find_ip-find (r ∷ rs) deployment_name = rw (find_ip-find rs deployment_name)

find_port-find : (ps : List PortResult) → find_tls_serving_port ps ≡ find serves_tls ps
unfolding find_tls_serving_port
find_port-find [] = refl
find_port-find (p ∷ ps) = rw (find_port-find ps)

pub find_ip_iff :
    (rs : List IpResult) (deployment_name : Text) (r : IpResult)
    → (find_ip_result_by_pod_prefix rs deployment_name ≡ some r)
      ↔ First (named deployment_name) rs r
find_ip_iff rs deployment_name r =
    let (go, back) = find_iff (named deployment_name) rs r in
    (
      λ h. go (sym (find_ip-find rs deployment_name) ∙ h),
      λ first. find_ip-find rs deployment_name ∙ back first,
    )

pub find_port_iff :
    (ps : List PortResult) (p : PortResult)
    → (find_tls_serving_port ps ≡ some p) ↔ First serves_tls ps p
find_port_iff ps p =
    let (go, back) = find_iff serves_tls ps p in
    (λ h. go (sym (find_port-find ps) ∙ h), λ first. find_port-find ps ∙ back first)
