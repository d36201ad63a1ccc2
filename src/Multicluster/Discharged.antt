-- ===== src/Multicluster/Discharged.antt =====
-- What the set-up of the worker of a Hub-mode test run of pkg/multicluster created is deleted by
-- `deleteOwnedResources`, or an error names it.
use mathlib.Core.Path.{subst}
use release_tests_ginkgo.Prelude.{
  true, false, ◌≡◌, ◌≢◌, refl, sym, none, List, [], ◌∷◌, ◌++◌, inl, inr, ◌⊎◌,
}
use release_tests_ginkgo.Prelude.Texts.{Text, codes}
use release_tests_ginkgo.Prelude.Lists.{All, Any, Any-append_left, Any-append_right}
use release_tests_ginkgo.Kube.{Key, key, key_eq, Server, Gone}
use release_tests_ginkgo.Kueue.Resources.Scope.{Access}
use release_tests_ginkgo.Multicluster.{
  Problem, Environment, Target, rbac_targets, worker_targets, delete_owned_rbac,
  delete_owned_worker, delete_owned_resources,
}
use release_tests_ginkgo.Multicluster.Deleted.{
  Names, Done, delete_each-Erased, delete_owned_resources-Done,
}
use release_tests_ginkgo.Multicluster.Ensure.{Run}
use release_tests_ginkgo.Multicluster.Register.{Watch, kueue_key, set_up_worker}
use release_tests_ginkgo.Multicluster.Stable.{Stable, Same, made_keys}
use release_tests_ginkgo.Multicluster.Steps.{set_up_worker-Spared}

find : (k : Key) (js : List Key) → (Any (λ j. k ≡ j) js) ⊎ All (λ j. k ≢ j) js
find k [] = inr tt
find k (j ∷ js) = elim (key_eq.dec k j) [
  | yes same ↦ inl (inl same)
  | no differ ↦ elim (find k js) [ inl there ↦ inl (inr there) | inr none' ↦ inr (differ, none') ]
]

clash : (k : Key) (js : List Key) → Any (λ j. k ≡ j) js → All (λ j. k ≢ j) js → ⊥
clash k [] m h = m
clash k (j ∷ js) (inl same) (differ, h) = differ same
clash k (j ∷ js) (inr m) (differ, h) = clash k js m h

-- An object that the run does not create stays away.
Gone-Stable :
    {W : Type 0} (server : Server W) (start : Environment) (k : Key)
    → server.provided k ≡ false
    → All (λ j. k ≢ j) (made_keys start)
    → Stable server (λ w. Gone (server.stored k w)) start
Gone-Stable server start k ours apart = record {
  created = λ j m w made h.
      subst Gone
        (sym (
          server.create_elsewhere j k m w (λ same.
            clash k (made_keys start)
              (subst (λ i. Any (λ x. i ≡ x) (made_keys start)) (sym same) made) apart)))
        h;
  updated = λ j c d w got own h. elim (key_eq.dec k j) [
    | yes same ↦
        subst (λ i. Gone (server.stored i (server.update j d w).1)) (sym same)
          (server.update_gone j d w (subst (λ i. Gone (server.stored i w)) same h))
    | no differ ↦ subst Gone (sym (server.update_elsewhere j k d w differ)) h
  ];
  paused = λ w h. server.pause_gone k w ours h;
  token = λ v w f h. subst Gone (sym (f k)) h;
}

-- What the run creates is a target, the Kueue resource where the run owns it.
made_targets :
    (e : Environment) (k : Key)
    → (k ≡ kueue_key → e.kueue_owned ≡ true)
    → Any (λ j. k ≡ j) (made_keys e)
    → Any (λ t. k ≡ t.at) (worker_targets e ++ rbac_targets e)
unfolding worker_targets rbac_targets
made_targets e k own (inl same) =
    Any-append_left (λ t. k ≡ t.at) (worker_targets e) (rbac_targets e)
      (inr (inr (rw (own same) (inl same))))
made_targets e k own (inr m) = elim m [
  | inl same ↦ roles (inr (inr (inr (inr (inr (inl same))))))
  | inr (inl same) ↦ roles (inr (inr (inr (inr (inl same)))))
  | inr (inr (inl same)) ↦ roles (inr (inr (inl same)))
  | inr (inr (inr (inl same))) ↦ roles (inl same)
  | inr (inr (inr (inr (inl same)))) ↦ roles (inr (inr (inr (inl same))))
  | inr (inr (inr (inr (inr (inl same))))) ↦ roles (inr (inl same))
  | inr (inr (inr (inr (inr (inr (inl same)))))) ↦ worker (inl same)
  | inr (inr (inr (inr (inr (inr (inr (inl same))))))) ↦ worker (inr (inl same))
  | inr (inr (inr (inr (inr (inr (inr (inr empty))))))) ↦ absurd empty
]
  where
    roles :
        Any (λ t. k ≡ t.at) (rbac_targets e)
        → Any (λ t. k ≡ t.at) (worker_targets e ++ rbac_targets e)
    roles = Any-append_right (λ t. k ≡ t.at) (worker_targets e) (rbac_targets e)

    worker :
        Any (λ t. k ≡ t.at) (worker_targets e)
        → Any (λ t. k ≡ t.at) (worker_targets e ++ rbac_targets e)
    worker = Any-append_left (λ t. k ≡ t.at) (worker_targets e) (rbac_targets e)

made_keys-Same :
    (start e : Environment) (k : Key)
    → Same start e
    → Any (λ j. k ≡ j) (made_keys start)
    → Any (λ j. k ≡ j) (made_keys e)
made_keys-Same start e k (p, name, ns) m =
    subst (λ js. Any (λ j. k ≡ j) js)
      (λ i.
        key "" "kueues" [] (codes "cluster")
        ∷ key "" "namespaces" [] (sym name i)
        ∷ key "" "serviceaccounts" (sym name i) (sym name i)
        ∷ key "" "clusterroles" [] (sym name i)
        ∷ key "" "clusterrolebindings" [] (sym name i)
        ∷ key "" "roles" (sym name i) (sym name i)
        ∷ key "" "rolebindings" (sym name i) (sym name i)
        ∷ key "" "secrets" (sym ns i) (sym name i)
        ∷ key "" "multikueueclusters" [] (sym name i)
        ∷ [])
      m

-- The object is not there, or its deletion has been accepted, or one of the errors names it.
abbrev pub Discharged : {W : Type 0} → Server W → Key → List Problem × W → Type 0
Discharged server k (errs, w) = (Gone (server.stored k w)) ⊎ (Any (Names k) errs)

target-Discharged :
    {W : Type 0} (server : Server W) (prefix : Text) (k : Key) (x : List Problem × W)
    (ts : List Target)
    → All (Done server prefix x.0 x.1) ts
    → Any (λ t. k ≡ t.at) ts
    → Discharged server k x
target-Discharged server prefix k x [] h m = absurd m
target-Discharged server prefix k x (t ∷ ts) (h, hs) (inl same) =
    subst (λ i. Discharged server i x) (sym same) h
target-Discharged server prefix k x (t ∷ ts) (h, hs) (inr m) =
    target-Discharged server prefix k x ts hs m

-- Let an object that was not there before the worker of the run was set up, and that the cluster does
-- not make by itself, be another one than the Kueue resource, or let the run have recorded that it
-- created that. At whichever step the set-up stopped, and whichever deletions then fail: after
-- `deleteOwnedResources` the object is not there, or its deletion has been accepted, or one of the
-- errors that are returned names it.
pub set_up_worker-Discharged :
    {W : Type 0} (server : Server W) (watch : Watch W) (access : Access server) (r : Run W)
    (k : Key)
    → server.provided k ≡ false
    → server.stored k r.world ≡ none
    → let s = (set_up_worker server watch access r).1 in
      (k ≡ kueue_key → s.env.kueue_owned ≡ true)
      → Discharged server k (delete_owned_resources server s.env s.world)
set_up_worker-Discharged server watch access r k ours absent own =
    let s = (set_up_worker server watch access r).1 in
    elim (find k (made_keys r.env)) [
      | inl made ↦
          let (h, same) =
            set_up_worker-Spared server (λ w. Unit) r.env
              (record {
                created = λ j m w i h. tt;
                updated = λ j c d w i p h. tt;
                paused = λ w h. tt;
                token = λ v w f h. tt;
              })
              watch access r (tt, (refl, refl, refl)) in
          target-Discharged server s.env.prefix k (delete_owned_resources server s.env s.world)
            (worker_targets s.env ++ rbac_targets s.env)
            (delete_owned_resources-Done server s.env s.world)
            (made_targets s.env k own (made_keys-Same r.env s.env k same made))
      | inr apart ↦
          let (gone, same) =
            set_up_worker-Spared server (λ w. Gone (server.stored k w)) r.env
              (Gone-Stable server r.env k ours apart) watch access r
              (subst Gone (sym absent) tt, (refl, refl, refl)) in
          inl (
            unfold delete_owned_resources delete_owned_worker delete_owned_rbac in
            delete_each-Erased server s.env.prefix k (rbac_targets s.env) _
              (delete_each-Erased server s.env.prefix k (worker_targets s.env) s.world gone))
    ]
