-- ===== src/Kueue/Resources/Credential.antt =====
-- What `verifyWorkerCredentialScope` of pkg/tektonkueue/resources.go has seen when it accepts a
-- kubeconfig.
use mathlib.Core.Path.{subst}
use mathlib.Core.Option.{some-ne-none}
use release_tests_ginkgo.Prelude.{
  String, Bool, true, false, ◌≡◌, refl, ap, Option, none, inl, inr, Bool-cases, arith,
}
use release_tests_ginkgo.Prelude.Texts.{Text, codes}
use release_tests_ginkgo.Poll.{
  Outcome, success, stopped, timed_out, Poller, Polls, Polls-success, Pending,
}
use release_tests_ginkgo.Kube.{ApiError, Reply, reply, refused, Server}
use release_tests_ginkgo.Kueue.Resources.{Failure, api, rejected, expired}
use release_tests_ginkgo.Kueue.Resources.Scope.{
  Access, create_runs, get_secrets, must_not, allowed_verdict, scope_condition, scope_excess,
  after_scope, verify_worker_credential_scope,
}

allowed_verdict-true : (x : Reply Bool) → allowed_verdict x ≡ (true, none) → x ≡ reply true
allowed_verdict-true x e = ground arith

must_not-none :
    (message : String) (x : Reply Bool) (next : Option Failure)
    → must_not message x next ≡ none
    → (x ≡ reply false) × (next ≡ none)
must_not-none message (refused e) next h = absurd (some-ne-none (api e) h)
must_not-none message (reply true) next h = absurd (some-ne-none (rejected message) h)
must_not-none message (reply false) next h = (refl, h)

module _ {W : Type 0} {server : Server W} (access : Access server) where
  -- The credential may do what the worker needs, and neither of the two things that it must not.
  pub record Scoped (kubeconfig namespace : Text) (v w : W) : Type 0 where
    pub connects : access.connect kubeconfig ≡ true
    pub creates : access.review kubeconfig (create_runs namespace) v ≡ reply true
    pub confined : access.review kubeconfig (create_runs (codes "default")) w ≡ reply false
    pub blind : access.review kubeconfig (get_secrets namespace) w ≡ reply false

  module _ (kubeconfig namespace : Text) where
    after_scope-none :
        (x : Outcome ApiError × W) (w : W)
        → after_scope server access kubeconfig namespace x ≡ (none, w)
        → (x ≡ (success, w)) × (scope_excess server access kubeconfig namespace w ≡ none)
    unfolding after_scope
    after_scope-none (success, v) w h =
        let same : v ≡ w = ap (λ r. r.1) h in
        (
          λ i. (success, same i),
          subst (λ u. scope_excess server access kubeconfig namespace u ≡ none) same
              (ap (λ r. r.0) h),
        )
    after_scope-none (stopped e, v) w h = absurd (some-ne-none (api e) (ap (λ r. r.0) h))
    after_scope-none (timed_out, v) w h = absurd (some-ne-none expired (ap (λ r. r.0) h))

    -- What the poll has seen when it returns nil.
    created :
        (poller : Poller W ApiError) (u w : W)
        → poller.poll (scope_condition server access kubeconfig namespace) u ≡ (success, w)
        → (v : W) × Pending (scope_condition server access kubeconfig namespace) u v
          × (access.review kubeconfig (create_runs namespace) v ≡ reply true)
          × (server.pause v ≡ w)
    unfolding scope_condition
    created poller u w h =
        let c = scope_condition server access kubeconfig namespace in
        let run : Polls c u success w = subst (λ r. Polls c u r.0 r.1) h (poller.poll_polls c u) in
        let (v, reached, verdict) = Polls-success run in
        (v, reached, allowed_verdict-true _ (ap (λ r. r.0) verdict), ap (λ r. r.1) verdict)

    -- If the scope of a kubeconfig is accepted, the kubeconfig could create PipelineRuns in the test
    -- namespace in the state of the clusters in which the poll ended, and could after it neither
    -- create them in the namespace `default` nor read Secrets in the test namespace.
    pub verify_worker_credential_scope-Scoped :
        (poller : Poller W ApiError) (u w : W)
        → verify_worker_credential_scope server access poller kubeconfig namespace u ≡ (none, w)
        → (v : W) × Pending (scope_condition server access kubeconfig namespace) u v
          × (server.pause v ≡ w)
          × Scoped kubeconfig namespace v w
    unfolding verify_worker_credential_scope scope_excess
    verify_worker_credential_scope-Scoped poller u w h =
        elim (Bool-cases (access.connect kubeconfig)) [
          | inr bad ↦ absurd (
              some-ne-none (rejected "parse scoped worker credential")
                (ap (λ r. r.0) (rw bad at h)))
          | inl ok ↦
              let (polled, excess) =
                after_scope-none
                  (poller.poll (scope_condition server access kubeconfig namespace) u) w
                  (rw ok at h) in
              let (v, reached, creates, next) = created poller u w polled in
              let (confined, rest) = must_not-none _ _ _ excess in
              let (blind, _) = must_not-none _ _ _ rest in
              (
                v,
                reached,
                next,
                record { connects = ok; creates = creates; confined = confined; blind = blind },
              )
        ]
