-- ===== src/Multicluster/Worker.antt =====
-- The worker of a Hub-mode test run of pkg/multicluster is set up and deleted without harm to the
-- objects of others.
use mathlib.Core.Path.{subst}
use release_tests_ginkgo.Prelude.{◌≡◌, refl, sym, some}
use release_tests_ginkgo.Kube.{Key, Object, Server}
use release_tests_ginkgo.Kueue.Resources.Scope.{Access}
use release_tests_ginkgo.Multicluster.{
  rbac_targets, worker_targets, delete_owned_rbac, delete_owned_worker, delete_owned_resources,
  delete_each,
}
use release_tests_ginkgo.Multicluster.Ensure.{Run}
use release_tests_ginkgo.Multicluster.Register.{Watch, set_up_worker}
use release_tests_ginkgo.Multicluster.Spared.{Alien, Abroad, Safe, Safe-Stable, delete_each-Safe}
use release_tests_ginkgo.Multicluster.Steps.{set_up_worker-Spared}

-- An object that has not the labels of the run and that nobody deletes, and that lies in no namespace
-- or in one that has not the labels either and that nobody deletes, is, after the worker of the run
-- was set up, at whichever step this stopped, as it was before, and it is so after
-- `deleteOwnedResources`.
pub set_up_worker-delete_owned_resources :
    {W : Type 0} (server : Server W) (watch : Watch W) (access : Access server) (r : Run W)
    (k : Key) (o : Object) (alien : Alien r.env.prefix o) (home : Abroad r.env.prefix k)
    → Safe server r.env.prefix k o alien home r.world
    → let s = (set_up_worker server watch access r).1 in
      (server.stored k s.world ≡ some o)
      × (server.stored k (delete_owned_resources server s.env s.world).1 ≡ some o)
unfolding delete_owned_resources delete_owned_worker delete_owned_rbac
set_up_worker-delete_owned_resources server watch access r k o alien home h =
    let s = (set_up_worker server watch access r).1 in
    let I = Safe server r.env.prefix k o alien home in
    let (there, p) =
      set_up_worker-Spared server I r.env (Safe-Stable server r.env k o alien home) watch access r
        (h, (refl, refl, refl)) in
    let worker =
      delete_each-Safe server r.env.prefix k o alien home (worker_targets s.env) s.world there in
    let all = delete_each-Safe server r.env.prefix k o alien home (rbac_targets s.env) _ worker in
    (
      there.0,
      subst
          (λ q.
            server.stored k
              (delete_each server q (rbac_targets s.env)
                (delete_each server q (worker_targets s.env) s.world).1).1
            ≡ some o)
          (sym p.0) all.0,
    )
