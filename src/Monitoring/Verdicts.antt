-- ===== src/Monitoring/Verdicts.antt =====
-- The checks of pkg/monitoring/mtls.go for mutual TLS and against it do not both pass on the same
-- answers, and what `pollUntilNoError` returns was the verdict of an evaluation.
use mathlib.Core.Option.{some-ne-none, some-injective}
use release_tests_ginkgo.Prelude.{
  Bool, true, false, ◌≡◌, ◌≢◌, ◌⊎◌, refl, sym, ap, ◌∙◌, Option, none, some, arith, inl, inr,
  Bool-cases, ◌==◌, text_eq, ℕ,
}
use release_tests_ginkgo.Prelude.Texts.{Text, codes}
use release_tests_ginkgo.Poll.{
  Outcome, success, stopped, timed_out, Poller, Polls, finish, fail, expire, again, Pending, start,
  Pending-prepend, Polls-success,
}
use release_tests_ginkgo.Kube.{Reply, reply, refused, Value}
use release_tests_ginkgo.Kueue.Resources.Scope.{value_at, text_of}
use release_tests_ginkgo.Monitoring.{
  Component, Service, api, no_port, no_annotation, annotated, bad_path, bad_scheme,
  no_error_verdict, no_error_condition, after_no_error, poll_until_no_error,
  serving_cert_annotation, has_port, annotation, named, check_annotated, check_service_mtls_enabled,
  check_unannotated, check_service_mtls_disabled, service_monitor_first_endpoint,
  check_enabled_endpoint, check_service_monitor_mtls_enabled, check_disabled_endpoint,
  check_service_monitor_mtls_disabled,
}

false-true : false ≢ true
false-true h = ground arith

annotated-exclusive :
    (secrets : Text → Reply ℕ) (x : Option Text)
    → check_annotated secrets x ≡ none
    → check_unannotated x ≢ none
unfolding check_annotated check_unannotated
annotated-exclusive secrets none h g = some-ne-none no_annotation h
annotated-exclusive secrets (some name) h g = some-ne-none (annotated name) g

-- The checks of a service: mutual TLS is not found both enabled and disabled.
service-exclusive :
    (cfg : Component) (secrets : Text → Reply ℕ) (svc : Reply Service)
    → check_service_mtls_enabled cfg secrets svc ≡ none
    → check_service_mtls_disabled cfg svc ≢ none
unfolding check_service_mtls_enabled check_service_mtls_disabled
service-exclusive cfg secrets (refused e) h g = some-ne-none (api e) h
service-exclusive cfg secrets (reply svc) h g =
    elim (Bool-cases (has_port cfg.https_port_name svc.ports)) [
      | inr absent ↦ some-ne-none no_port (rw absent at h)
      | inl https ↦ elim (Bool-cases (has_port cfg.http_port_name svc.ports)) [
        | inr absent ↦ some-ne-none no_port (rw absent at g)
        | inl http ↦
            annotated-exclusive secrets (named (annotation serving_cert_annotation svc.annotations))
              (rw https at h) (rw http at g)
      ]
    ]

endpoint-exclusive :
    (cfg : Component) (ep : Option Value)
    → check_enabled_endpoint cfg ep ≡ none
    → check_disabled_endpoint ep ≢ none
unfolding check_enabled_endpoint check_disabled_endpoint
endpoint-exclusive cfg none h g = some-ne-none bad_path h
endpoint-exclusive cfg (some ep) h g =
    let scheme = text_of (value_at "scheme" ep) in
    elim (Bool-cases (scheme == codes "https")) [
      | inr other ↦ some-ne-none (bad_scheme scheme) (rw other at h)
      | inl https ↦ some-ne-none (bad_scheme scheme) (rw https at g)
    ]

-- On the same answers, the checks of the service and of its monitor do not find mutual TLS both
-- enabled and disabled.
pub check_service-exclusive :
    (cfg : Component) (secrets : Text → Reply ℕ) (svc : Reply Service) (sm : Reply Value)
    → (check_service_mtls_enabled cfg secrets svc ≡ none
        → check_service_mtls_disabled cfg svc ≢ none)
      × (check_service_monitor_mtls_enabled cfg sm ≡ none
          → check_service_monitor_mtls_disabled sm ≢ none)
unfolding check_service_monitor_mtls_enabled check_service_monitor_mtls_disabled
check_service-exclusive cfg secrets svc sm =
    (service-exclusive cfg secrets svc, endpoint-exclusive cfg (service_monitor_first_endpoint sm))

module _ {W E : Type 0} (fn : W → Option E × W) where
  -- An evaluation in which `fn` returned the error, in a state that the poll reached.
  abbrev pub Failed : W × Option E → E → Type 0
  Failed s e = (t : W × Option E) × Pending (no_error_condition fn) s t × ((fn t.0).0 ≡ some e)

  -- An evaluation in which it returned none.
  abbrev pub Passed : W × Option E → Type 0
  Passed s = (t : W × Option E) × Pending (no_error_condition fn) s t × ((fn t.0).0 ≡ none)

  verdict-true :
      (x : Option E × W) (last : Option E) (s : W × Option E)
      → no_error_verdict x last ≡ ((true, none), s)
      → (x.0 ≡ none) × (last ≡ s.1)
  unfolding no_error_verdict
  verdict-true (none, w) last s h = (refl, ap (λ r. r.1.1) h)
  verdict-true (some e, w) last s h = absurd (false-true (ap (λ r. r.0.0) h))

  verdict-false :
      (x : Option E × W) (last : Option E) (s : W × Option E)
      → no_error_verdict x last ≡ ((false, none), s)
      → x.0 ≡ s.1
  unfolding no_error_verdict
  verdict-false (none, w) last s h = absurd (false-true (sym (ap (λ r. r.0.0) h)))
  verdict-false (some e, w) last s h = ap (λ r. r.1.1) h

  verdict-error :
      (x : Option E × W) (last : Option E) (s : W × Option E) (done : Bool) (e : E)
      → no_error_verdict x last ≢ ((done, some e), s)
  unfolding no_error_verdict
  verdict-error (none, w) last s done e h = some-ne-none e (sym (ap (λ r. r.0.1) h))
  verdict-error (some x, w) last s done e h = some-ne-none e (sym (ap (λ r. r.0.1) h))

  Failed-prepend :
      (s t : W × Option E) (e : E)
      → no_error_condition fn s ≡ ((false, none), t)
      → Failed t e
      → Failed s e
  Failed-prepend s t e step (u, reached, bad) = (u, Pending-prepend step reached, bad)

  -- The last error was there before, or an evaluation gave it.
  last-Failed :
      {s t : W × Option E} {o : Outcome E} (e : E)
      → Polls (no_error_condition fn) s o t
      → t.1 ≡ some e
      → (s.1 ≡ some e) ⊎ Failed s e
  unfolding no_error_condition
  last-Failed e (finish {s} {t} h) g = inl ((verdict-true (fn s.0) s.1 t h).1 ∙ g)
  last-Failed e (fail {s} {t} {done} {e = x} h) g = absurd (verdict-error (fn s.0) s.1 t done x h)
  last-Failed e (expire {s} {t} h) g = inr (s, start, verdict-false (fn s.0) s.1 t h ∙ g)
  last-Failed e (again {s} {t} h rest) g = elim (last-Failed e rest g) [
    | inl here ↦ inr (s, start, verdict-false (fn s.0) s.1 t h ∙ here)
    | inr later ↦ inr (Failed-prepend s t e h later)
  ]

  never-stopped : {s t : W × Option E} {e : E} → ¬ (Polls (no_error_condition fn) s (stopped e) t)
  unfolding no_error_condition
  never-stopped (fail {s} {t} {done} {e = x} h) = verdict-error (fn s.0) s.1 t done x h
  never-stopped (again h rest) = never-stopped rest

  judge :
      (expired : E) (w : W) (o : Outcome E) (t : W × Option E)
      → Polls (no_error_condition fn) (w, none) o t
      → (after_no_error expired (o, t) ≡ none → Passed (w, none))
        × ((e : E) → after_no_error expired (o, t) ≡ some e → (e ≡ expired) ⊎ Failed (w, none) e)
  unfolding after_no_error
  judge expired w success t run =
      let (u, reached, verdict) = Polls-success run in
      (
        λ h. (u, reached, (verdict-true (fn u.0) u.1 t (unfold no_error_condition in verdict)).0),
        λ e h. absurd (some-ne-none e (sym h)),
      )
  judge expired w (stopped x) t run = absurd (never-stopped run)
  judge expired w timed_out (v, none) run =
      (λ h. absurd (some-ne-none expired h), λ e h. inl (sym (some-injective expired e h)))
  judge expired w timed_out (v, some x) run = (
    λ h. absurd (some-ne-none x h),
    λ e h. elim (last-Failed e run h) [
      | inl before ↦ absurd (some-ne-none e (sym before))
      | inr failed ↦ inr failed
    ],
  )

  -- If `pollUntilNoError` returns nil, `fn` returned nil in an evaluation. If it returns an error, it
  -- is that of the context or one that `fn` returned in an evaluation.
  pub poll_until_no_error-Failed :
      (poller : Poller (W × Option E) E) (expired : E) (w : W)
      → let x = poll_until_no_error fn poller expired w in
        (x ≡ none → Passed (w, none)) × ((e : E) → x ≡ some e → (e ≡ expired) ⊎ Failed (w, none) e)
  unfolding poll_until_no_error
  poll_until_no_error-Failed poller expired w =
      judge expired w (poller.poll (no_error_condition fn) (w, none)).0
        (poller.poll (no_error_condition fn) (w, none)).1
        (poller.poll_polls (no_error_condition fn) (w, none))
