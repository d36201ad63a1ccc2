-- ===== src/Monitoring/Accepted.antt =====
-- What the checks of pkg/monitoring/mtls.go on pods and installer sets accept.
use mathlib.Core.Option.{some-ne-none, some-injective}
use mathlib.Core.Path.{subst}
use release_tests_ginkgo.Prelude.{
  Bool, true, false, ◌≡◌, ◌≢◌, ◌↔◌, refl, sym, ap, ◌∙◌, Option, none, some, List, [], ◌∷◌, inl, inr,
  Bool-cases, Option-cases, arith, if◌then◌else◌, ◌==◌, text_eq,
}
use release_tests_ginkgo.Prelude.Texts.{Text, codes, has_prefix}
use release_tests_ginkgo.Prelude.Lists.{All, Any}
use release_tests_ginkgo.Kube.{reply}
use release_tests_ginkgo.ApprovalGate.GroupName.{is_space, trim}
use release_tests_ginkgo.EnvLoader.{split}
use release_tests_ginkgo.Monitoring.{
  Volume, Container, Pod, MtlsError, no_pods, no_env, unexpected_env, stuck_sets,
}
use release_tests_ginkgo.Monitoring.Pods.{
  PodsFound, found, failed, tls_env, is_cert_volume, is_ca_volume, any_volume, check_volumes,
  check_enabled_pod, check_disabled_pod, first_error, check_pods, check_pod_mtls_enabled,
  check_pod_mtls_disabled, split_lines, stuck_line, collect_stuck, stuck_error,
  check_no_stuck_installer_sets,
}

-- The name of a variable for the keys of the metrics.
abbrev pub ForTls : Text → Type 0
ForTls name = has_prefix name (codes "METRICS_PROMETHEUS_TLS_") ≡ true

tls_env-some : (env : List Text) (name : Text) → tls_env env ≡ some name → Any ForTls env
unfolding tls_env
tls_env-some [] name h = absurd (some-ne-none name (sym h))
tls_env-some (n ∷ env) name h =
    let read : (if has_prefix n (codes "METRICS_PROMETHEUS_TLS_") then some n else tls_env env)
        ≡ some name =
      h in
    elim (Bool-cases (has_prefix n (codes "METRICS_PROMETHEUS_TLS_"))) [
      | inl here ↦ inl here
      | inr other ↦ inr (tls_env-some env name (rw other at read))
    ]

apart : true ≢ false
apart e = ground arith

tls_env-none : (env : List Text) → tls_env env ≡ none → ¬ (Any ForTls env)
unfolding tls_env
tls_env-none [] h m = m
tls_env-none (n ∷ env) h m =
    let read : (if has_prefix n (codes "METRICS_PROMETHEUS_TLS_") then some n else tls_env env)
        ≡ none =
      h in
    elim (Bool-cases (has_prefix n (codes "METRICS_PROMETHEUS_TLS_"))) [
      | inl here ↦ some-ne-none n (rw here at read)
      | inr other ↦ elim m [
        | inl here ↦ apart (sym here ∙ other)
        | inr later ↦ tls_env-none env (rw other at read) later
      ]
    ]

any_volume_iff :
    (test : Volume → Bool) (vs : List Volume)
    → (any_volume test vs ≡ true) ↔ Any (λ v. test v ≡ true) vs
unfolding any_volume
any_volume_iff test [] = ground arith
any_volume_iff test (v ∷ vs) = let (out, into) = any_volume_iff test vs in ground arith

-- A pod with a container: this one has a variable for the keys, and the volumes are there.
abbrev pub Equipped : List Container → List Volume → Type 0
Equipped [] vs = Unit
Equipped (c ∷ cs) vs =
    Any ForTls c.env × Any (λ v. is_cert_volume v ≡ true) vs × Any (λ v. is_ca_volume v ≡ true) vs

abbrev pub Plain : List Container → Type 0
Plain [] = Unit
Plain (c ∷ cs) = ¬ (Any ForTls c.env)

check_volumes_iff :
    (vs : List Volume)
    → (check_volumes vs ≡ none)
      ↔ ((any_volume is_cert_volume vs ≡ true) × (any_volume is_ca_volume vs ≡ true))
unfolding check_volumes
check_volumes_iff vs = ground arith

check_enabled_pod_iff :
    (pod : Pod) (cs : List Container) → (check_enabled_pod pod cs ≡ none) ↔ Equipped cs pod.volumes
unfolding check_enabled_pod
check_enabled_pod_iff pod [] = (λ h. tt, λ h. refl)
check_enabled_pod_iff pod (c ∷ cs) = elim (Option-cases (tls_env c.env)) [
  | inl absent ↦
      rw (absent, check_enabled_pod)
        (λ h. absurd (some-ne-none no_env h), λ (m, x, y). absurd (tls_env-none c.env absent m))
  | inr (name, there) ↦
      let (out, into) = check_volumes_iff pod.volumes in
      let (cert, cert') = any_volume_iff is_cert_volume pod.volumes in
      let (ca, ca') = any_volume_iff is_ca_volume pod.volumes in
      rw (there, check_enabled_pod)
        (
          λ h. (tls_env-some c.env name there, cert (out h).0, ca (out h).1),
          λ (m, x, y). into (cert' x, ca' y),
        )
]

check_disabled_pod_iff : (cs : List Container) → (check_disabled_pod cs ≡ none) ↔ Plain cs
unfolding check_disabled_pod
check_disabled_pod_iff [] = (λ h. tt, λ h. refl)
check_disabled_pod_iff (c ∷ cs) = elim (Option-cases (tls_env c.env)) [
  | inl absent ↦ rw (absent, check_disabled_pod) (λ h. tls_env-none c.env absent, λ h. refl)
  | inr (name, there) ↦
      rw (there, check_disabled_pod)
        (
          λ h. absurd (some-ne-none (unexpected_env name) h),
          λ h. absurd (h (tls_env-some c.env name there)),
        )
]

first_error_iff :
    (check : Pod → Option MtlsError) (P : Pod → Type 0) (pods : List Pod)
    → ((p : Pod) → (check p ≡ none) ↔ P p)
    → (first_error check pods ≡ none) ↔ All P pods
unfolding first_error
first_error_iff check P [] each = (λ h. tt, λ h. refl)
first_error_iff check P (p ∷ ps) each =
    let (out, into) = first_error_iff check P ps each in
    elim (Option-cases (check p)) [
      | inl fine ↦ rw (fine, first_error) (λ h. ((each p).0 fine, out h), λ (x, xs). into xs)
      | inr (e, bad) ↦
          rw (bad, first_error)
            (
              λ h. absurd (some-ne-none e h),
              λ (x, xs). absurd (some-ne-none e (sym bad ∙ (each p).1 x)),
            )
    ]

-- There are pods that run, and each is as the check asks.
abbrev pub AllPods : (Pod → Type 0) → PodsFound → Type 0
AllPods P x = (p : Pod) × (ps : List Pod) × (x ≡ found (p ∷ ps)) × All P (p ∷ ps)

cons-nil : {A : Type 0} (a : A) (rest : List A) → a ∷ rest ≢ []
cons-nil a rest h = ground arith

failed-found : (e : MtlsError) (pods : List Pod) → failed e ≢ found pods
failed-found e pods h = ground arith

empty-found : (p : Pod) (ps : List Pod) → found [] ≢ found (p ∷ ps)
empty-found p ps h = ground arith

found-injective : {a b : List Pod} → found a ≡ found b → a ≡ b
found-injective h = cc

check_pods_iff :
    (check : Pod → Option MtlsError) (P : Pod → Type 0) (x : PodsFound)
    → ((p : Pod) → (check p ≡ none) ↔ P p)
    → (check_pods check x ≡ none) ↔ AllPods P x
unfolding check_pods
check_pods_iff check P (failed e) each =
    (λ h. absurd (some-ne-none e h), λ (p, ps, same, all). absurd (failed-found e (p ∷ ps) same))
check_pods_iff check P (found []) each =
    (λ h. absurd (some-ne-none no_pods h), λ (p, ps, same, all). absurd (empty-found p ps same))
check_pods_iff check P (found (p ∷ ps)) each =
    let (out, into) = first_error_iff check P (p ∷ ps) each in
    (
      λ h. (p, ps, refl, out h),
      λ (q, qs, same, all). into (subst (All P) (sym (found-injective same)) all),
    )

-- `AssertPodMTLSEnabled` and `AssertPodMTLSDisabled`, in one evaluation: the first accepts exactly if
-- there are pods that run and each that has a container has, in the first one, a variable for the
-- keys, and a volume for the certificate and one for the CA; the second exactly if there are such pods
-- and no first container has such a variable.
pub check_pod_mtls_iff :
    (x : PodsFound)
    → ((check_pod_mtls_enabled x ≡ none) ↔ AllPods (λ p. Equipped p.containers p.volumes) x)
      × ((check_pod_mtls_disabled x ≡ none) ↔ AllPods (λ p. Plain p.containers) x)
unfolding check_pod_mtls_enabled check_pod_mtls_disabled
check_pod_mtls_iff x = (
  check_pods_iff (λ p. check_enabled_pod p p.containers) (λ p. Equipped p.containers p.volumes) x
      (λ p. check_enabled_pod_iff p p.containers),
  check_pods_iff (λ p. check_disabled_pod p.containers) (λ p. Plain p.containers) x
      (λ p. check_disabled_pod_iff p.containers),
)

-- A line with an equals sign says `True` after it.
abbrev pub Ready : Text → Type 0
Ready line = (name status : Text) → split line ≡ some (name, status) → status ≡ codes "True"

stuck_line_iff :
    (x : Option (Text × Text)) (stuck : List (Text × Text))
    → (stuck_line x stuck ≡ [])
      ↔ (((name status : Text) → x ≡ some (name, status) → status ≡ codes "True") × (stuck ≡ []))
unfolding stuck_line
stuck_line_iff none stuck = (λ h. (λ n s e. absurd (some-ne-none _ (sym e)), h), λ h. h.1)
stuck_line_iff (some (name, status)) stuck = elim (text_eq.dec status (codes "True")) [
  | yes same ↦
      let ready : (status == codes "True") ≡ true = ground arith in
      rw ready (
        λ h. (λ n s e. sym (ap (λ x. x.1) (some-injective (name, status) (n, s) e)) ∙ same, h),
        λ h. h.1,
      )
  | no differ ↦
      let stuck_one : (status == codes "True") ≡ false = ground arith in
      rw stuck_one
        (λ h. absurd (cons-nil (name, status) stuck h), λ h. absurd (differ (h.0 name status refl)))
]

stuck_error_iff : (stuck : List (Text × Text)) → (stuck_error stuck ≡ none) ↔ (stuck ≡ [])
unfolding stuck_error
stuck_error_iff [] = (λ h. refl, λ h. refl)
stuck_error_iff (s ∷ ss) =
    (λ h. absurd (some-ne-none (stuck_sets (s ∷ ss)) h), λ h. absurd (cons-nil s ss h))

collect_stuck_iff : (lines : List Text) → (collect_stuck lines ≡ []) ↔ All Ready lines
unfolding collect_stuck
collect_stuck_iff [] = (λ h. tt, λ h. refl)
collect_stuck_iff (line ∷ lines) =
    let (out, into) = collect_stuck_iff lines in
    let (first, first') = stuck_line_iff (split line) (collect_stuck lines) in
    (λ h. ((first h).0, out (first h).1), λ (r, rs). first' (r, into rs))

-- `AssertNoStuckInstallerSets`, in one evaluation: a listing is accepted exactly if every line of it
-- that has an equals sign has `True` after the first one.
pub check_no_stuck_installer_sets_iff :
    (out : Text)
    → (check_no_stuck_installer_sets (reply out) ≡ none)
      ↔ All Ready (split_lines (trim is_space out))
unfolding check_no_stuck_installer_sets
check_no_stuck_installer_sets_iff out =
    let lines = split_lines (trim is_space out) in
    let (ready, ready') = collect_stuck_iff lines in
    let (stuck, stuck') = stuck_error_iff (collect_stuck lines) in
    (λ h. ready (stuck h), λ h. stuck' (ready' h))
