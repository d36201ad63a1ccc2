-- ===== src/TlsProfile/Accepted.antt =====
-- What the assertions of pkg/operator/tlsprofile.go accept.
use mathlib.Core.Path.{subst}
use release_tests_ginkgo.Prelude.{
  Bool, true, false, ◌≡◌, ◌≢◌, ◌↔◌, ◌⊎◌, refl, ap, Option, none, some, List, [], ◌∷◌, inl, inr,
  Bool-cases, arith, ◌==◌, ◌&&◌, string_eq, text_eq,
}
use release_tests_ginkgo.Prelude.Texts.{Text, codes, contains}
use release_tests_ginkgo.Prelude.Lists.{All, Any}
use release_tests_ginkgo.Poll.{success, Poller, Polls, Pending, Polls-success, Polls-at_once}
use release_tests_ginkgo.TlsProfile.{
  Variable, has_variable, containers_ready, required_protocols, all_found, any_value, if_read,
  env_condition, assert_deployment_has_env_var, nginx_condition,
  assert_nginx_config_map_has_tls_profile,
}

false-true : false ≢ true
false-true h = ground arith

and-split : (a b : Bool) → (a && b) ≡ true → (a ≡ true) × (b ≡ true)
and-split true b h = (refl, h)
and-split false b h = absurd (false-true h)

-- A variable of the name has the value, and no variable of the name has another.
abbrev pub Carries : Text → Text → List Variable → Type 0
Carries name expected env =
    Any (λ x. (x.0 ≡ name) × (x.1 ≡ expected)) env × All (λ x. x.0 ≡ name → x.1 ≡ expected) env

has_variable_iff :
    (name expected : Text) (found : Bool) (env : List Variable)
    → (has_variable name expected found env ≡ true) ↔ (
        ((found ≡ true) ⊎ Any (λ x. (x.0 ≡ name) × (x.1 ≡ expected)) env)
        × All (λ x. x.0 ≡ name → x.1 ≡ expected) env)
unfolding has_variable
has_variable_iff name expected found [] =
    (λ h. (inl h, tt), λ (h, t). elim h [ inl e ↦ e | inr m ↦ absurd m ])
has_variable_iff name expected found ((n, v) ∷ env) = elim (text_eq.dec n name) [
  | yes same ↦
      let named : (n == name) ≡ true = ground arith in
      elim (text_eq.dec v expected) [
        | yes right ↦
            let valued : (v == expected) ≡ true = ground arith in
            let (out, into) = has_variable_iff name expected true env in
            rw (named, valued)
              (
                λ h. (inr (inl (same, right)), (λ e. right, (out h).1)),
                λ (h, (t, ts)). into (inl refl, ts),
              )
        | no wrong ↦
            let valued : (v == expected) ≡ false = ground arith in
            rw (named, valued) (λ h. absurd (false-true h), λ (h, (t, ts)). absurd (wrong (t same)))
      ]
  | no differ ↦
      let named : (n == name) ≡ false = ground arith in
      let (out, into) = has_variable_iff name expected found env in
      rw named (
        λ h.
            let (m, ts) = out h in
            (elim m [ inl e ↦ inl e | inr a ↦ inr (inr a) ], (λ e. absurd (differ e), ts)),
        λ (h, (t, ts)). into (
          elim h [ inl e ↦ inl e | inr (inl a) ↦ absurd (differ a.0) | inr (inr a) ↦ inr a ],
          ts,
        ),
      )
]

containers_ready_iff :
    (name expected : Text) (envs : List (List Variable))
    → (containers_ready name expected envs ≡ true) ↔ All (Carries name expected) envs
unfolding containers_ready
containers_ready_iff name expected [] = (λ h. tt, λ h. refl)
containers_ready_iff name expected (env ∷ envs) =
    let (out, into) = has_variable_iff name expected false env in
    let (outs, intos) = containers_ready_iff name expected envs in
    (
      λ h.
          let (a, b) =
            and-split (has_variable name expected false env) (containers_ready name expected envs)
              h in
          let (m, ts) = out a in
          ((elim m [ inl e ↦ absurd (false-true e) | inr x ↦ x ], ts), outs b),
      λ ((m, ts), rest). rw (into (inr m, ts), intos rest) refl,
    )

any_value_mono :
    (ps qs : List Text)
    → ((v : Text) → all_found qs v ≡ true → all_found ps v ≡ true)
    → (data_of : List (Text × Text)) → any_value qs data_of ≡ true
    → any_value ps data_of ≡ true
unfolding any_value
any_value_mono ps qs f [] h = h
any_value_mono ps qs f ((k, v) ∷ rest) h = elim (Bool-cases (all_found qs v)) [
  | inl here ↦ rw (f v here) refl
  | inr later ↦
      let rest_found = any_value_mono ps qs f rest (rw later at h) in
      elim (Bool-cases (all_found ps v)) [ inl both ↦ rw both refl | inr only ↦ rw only rest_found ]
]

weaker :
    (v : Text)
    → all_found (required_protocols "Intermediate") v ≡ true
    → all_found (required_protocols "Modern") v ≡ true
unfolding all_found required_protocols string_eq
weaker v h = (and-split (contains v (codes "TLSv1.2")) (contains v (codes "TLSv1.3") && true) h).1

if_read_mono :
    {A : Type 0} (f g : A → Bool) (x : Option A)
    → ((a : A) → f a ≡ true → g a ≡ true)
    → if_read f x ≡ true
    → if_read g x ≡ true
unfolding if_read
if_read_mono f g none m h = h
if_read_mono f g (some a) m h = m a h

read-some :
    {A : Type 0} (f : A → Bool) (x : Option A)
    → if_read f x ≡ true
    → (a : A) × (x ≡ some a) × (f a ≡ true)
unfolding if_read
read-some f none h = absurd (false-true h)
read-some f (some a) h = (a, refl, h)

module _ {W E : Type 0} (pause : W → W) (poller : Poller W E) where
  -- If the assertion for the profile Intermediate passes, it ends in an evaluation at a state at which
  -- the assertion for the profile Modern passes too.
  pub assert_nginx-Modern :
      (config_map : W → Option (List (Text × Text))) (w : W)
      → (assert_nginx_config_map_has_tls_profile pause poller config_map "Intermediate" w).0
        ≡ success
      → (t : W) × Pending (nginx_condition pause poller config_map "Intermediate") w t
        × ((assert_nginx_config_map_has_tls_profile pause poller config_map "Modern" t).0 ≡ success)
  unfolding assert_nginx_config_map_has_tls_profile
  assert_nginx-Modern config_map w h =
      let c = nginx_condition pause poller config_map "Intermediate" in
      let d = nginx_condition pause poller config_map "Modern" in
      let run = subst (λ o. Polls c w o (poller.poll c w).1) h (poller.poll_polls c w) in
      let (t, reached, verdict) = Polls-success run in
      let seen : if_read (any_value (required_protocols "Intermediate")) (config_map t) ≡ true =
        unfold nginx_condition in ap (λ r. r.0.0) verdict in
      let modern : if_read (any_value (required_protocols "Modern")) (config_map t) ≡ true =
        if_read_mono (any_value (required_protocols "Intermediate"))
          (any_value (required_protocols "Modern")) (config_map t)
          (any_value_mono (required_protocols "Modern") (required_protocols "Intermediate") weaker)
          seen in
      let first : d t ≡ ((true, none), pause t) =
        unfold nginx_condition in λ i. ((modern i, none), pause t) in
      (t, reached, Polls-at_once (poller.poll_polls d t) first)

  -- If `AssertDeploymentHasEnvVar` passes, the Deployment was read at a state that the poll reached,
  -- and each of its containers had the variable with the value and not with another one; if at the
  -- start the Deployment can be read and is so, the assertion passes.
  pub assert_deployment_has_env_var_iff :
      (deployment : W → Option (List (List Variable))) (name expected : Text) (w : W)
      → ((assert_deployment_has_env_var pause poller deployment name expected w).0 ≡ success
          → (t : W) × Pending (env_condition pause poller deployment name expected) w t
            × (envs : List (List Variable)) × (deployment t ≡ some envs)
            × All (Carries name expected) envs)
        × ((envs : List (List Variable))
            → deployment w ≡ some envs
            → All (Carries name expected) envs
            → (assert_deployment_has_env_var pause poller deployment name expected w).0 ≡ success)
  unfolding assert_deployment_has_env_var
  assert_deployment_has_env_var_iff deployment name expected w =
      let c = env_condition pause poller deployment name expected in
      (
        λ h.
            let run = subst (λ o. Polls c w o (poller.poll c w).1) h (poller.poll_polls c w) in
            let (t, reached, verdict) = Polls-success run in
            let (envs, there, ready) =
              read-some (containers_ready name expected) (deployment t)
                (unfold env_condition in ap (λ r. r.0.0) verdict) in
            (t, reached, envs, there, (containers_ready_iff name expected envs).0 ready),
        λ envs there h.
            let ready : if_read (containers_ready name expected) (deployment w) ≡ true =
              unfold if_read in rw there ((containers_ready_iff name expected envs).1 h) in
            let first : c w ≡ ((true, none), pause w) =
              unfold env_condition in λ i. ((ready i, none), pause w) in
            Polls-at_once (poller.poll_polls c w) first,
      )
