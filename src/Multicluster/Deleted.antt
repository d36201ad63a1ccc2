-- ===== src/Multicluster/Deleted.antt =====
-- What `deleteOwnedResources` of pkg/multicluster/multicluster.go leaves of its targets: each is gone,
-- or an error names it.
use mathlib.Core.Path.{subst}
use release_tests_ginkgo.Prelude.{
  not, ◌&&◌, ◌≡◌, refl, sym, Option, none, some, List, [], ◌∷◌, ◌++◌, inl, inr, ◌⊎◌, Bool-cases,
  ◌==◌, text_eq,
}
use release_tests_ginkgo.Prelude.Texts.{Text, null}
use release_tests_ginkgo.Prelude.Lists.{
  All, All-append, All-map, Any, Any-append_left, Any-append_right,
}
use release_tests_ginkgo.Kube.{
  Key, key_eq, Object, ApiError, not_found, already_exists, conflict, other, Reply, reply, refused,
  Server, Gone,
}
use release_tests_ginkgo.Kueue.Resources.{ignore_not_found}
use release_tests_ginkgo.Multicluster.{
  Problem, unread, not_ours, replacement, undeleted, Environment, owns, Target, delete_found,
  after_delete, delete_owned, joined, delete_each, rbac_targets, worker_targets, delete_owned_rbac,
  delete_owned_worker, delete_owned_resources,
}

-- The error is about the object at `k`.
abbrev pub Names : Key → Problem → Type 0
Names k (unread j e) = j ≡ k
Names k (not_ours j) = j ≡ k
Names k (replacement j) = j ≡ k
Names k (undeleted j e) = j ≡ k

module _ {W : Type 0} (server : Server W) (prefix : Text) where
  abbrev pub Erased : Key → W → Type 0
  Erased k w = Gone (server.stored k w)

  -- What was deleted stays deleted.
  delete_found-Erased :
      (k : Key) (t : Target) (x : Reply Object) (w : W)
      → Erased k w
      → Erased k (delete_found server prefix t x w).1
  unfolding delete_found
  delete_found-Erased k t (refused not_found) w h = h
  delete_found-Erased k t (refused already_exists) w h = h
  delete_found-Erased k t (refused conflict) w h = h
  delete_found-Erased k t (refused (other s)) w h = h
  delete_found-Erased k t (reply c) w h = elim (Bool-cases (owns prefix c.labels)) [
    | inr foreign ↦ rw foreign h
    | inl ours ↦ elim (Bool-cases (not (null t.uid) && not (c.uid == t.uid))) [
      | inl replaced ↦ rw (ours, replaced) h
      | inr same ↦ rw (ours, same) (server.delete_gone t.at k w h)
    ]
  ]

  -- The target is gone, or there is an error that names it.
  abbrev Settled : Key → Option Problem → W → Type 0
  Settled k none w = Erased k w
  Settled k (some e) w = Names k e

  deleted-Settled :
      (k : Key) (w : W) (e : Option ApiError)
      → (server.delete k w).0 ≡ e
      → Settled k (after_delete k (ignore_not_found e)) (server.delete k w).1
  unfolding ignore_not_found
  deleted-Settled k w none h = server.delete_accepted k w h
  deleted-Settled k w (some not_found) h = server.delete_missing k w h
  deleted-Settled k w (some already_exists) h = refl
  deleted-Settled k w (some conflict) h = refl
  deleted-Settled k w (some (other s)) h = refl

  delete_found-Settled :
      (t : Target) (x : Reply Object) (w : W)
      → server.get t.at w ≡ x
      → let (e, v) = delete_found server prefix t x w in Settled t.at e v
  unfolding delete_found
  delete_found-Settled t (refused not_found) w h = subst Gone (sym (server.get_missing t.at w h)) tt
  delete_found-Settled t (refused already_exists) w h = refl
  delete_found-Settled t (refused conflict) w h = refl
  delete_found-Settled t (refused (other s)) w h = refl
  delete_found-Settled t (reply c) w h = elim (Bool-cases (owns prefix c.labels)) [
    | inr foreign ↦ rw foreign refl
    | inl ours ↦ elim (Bool-cases (not (null t.uid) && not (c.uid == t.uid))) [
      | inl replaced ↦ rw (ours, replaced) refl
      | inr same ↦ rw (ours, same) (deleted-Settled t.at w (server.delete t.at w).0 refl)
    ]
  ]

  pub delete_each-Erased :
      (k : Key) (ts : List Target) (w : W)
      → Erased k w
      → Erased k (delete_each server prefix ts w).1
  unfolding delete_each delete_owned
  delete_each-Erased k [] w h = h
  delete_each-Erased k (t ∷ ts) w h =
      delete_each-Erased k ts (delete_owned server prefix t w).1
        (delete_found-Erased k t (server.get t.at w) w h)

  abbrev pub Done : List Problem → W → Target → Type 0
  Done errs w t = (Erased t.at w) ⊎ (Any (Names t.at) errs)

  joined-Done :
      (e : Option Problem) (errs : List Problem) (w : W) (ts : List Target)
      → All (Done errs w) ts
      → All (Done (joined e errs) w) ts
  joined-Done none errs w ts h = h
  joined-Done (some e) errs w [] h = tt
  joined-Done (some e) errs w (t ∷ ts) (inl g, h) = (inl g, joined-Done (some e) errs w ts h)
  joined-Done (some e) errs w (t ∷ ts) (inr g, h) = (inr (inr g), joined-Done (some e) errs w ts h)

  first-Done :
      (k : Key) (e : Option Problem) (errs : List Problem) (v u : W)
      → Settled k e v
      → (Erased k v → Erased k u)
      → (Erased k u) ⊎ (Any (Names k) (joined e errs))
  first-Done k none errs v u h keep = inl (keep h)
  first-Done k (some e) errs v u h keep = inr (inl h)

  delete_each-Done :
      (ts : List Target) (w : W)
      → let (errs, u) = delete_each server prefix ts w in All (Done errs u) ts
  unfolding delete_each delete_owned
  delete_each-Done [] w = tt
  delete_each-Done (t ∷ ts) w =
      let (e, v) = delete_owned server prefix t w in
      let (errs, u) = delete_each server prefix ts v in
      (
        first-Done t.at e errs v u (delete_found-Settled t (server.get t.at w) w refl)
            (delete_each-Erased t.at ts v),
        joined-Done e errs u ts (delete_each-Done ts v),
      )

-- After `deleteOwnedResources`, whichever of its deletions fail, each of its targets is gone, or its
-- deletion has been accepted, or one of the errors that are returned names it.
pub delete_owned_resources-Done :
    {W : Type 0} (server : Server W) (e : Environment) (w : W)
    → let (errs, u) = delete_owned_resources server e w in
      All (Done server e.prefix errs u) (worker_targets e ++ rbac_targets e)
unfolding delete_owned_resources delete_owned_worker delete_owned_rbac
delete_owned_resources-Done server e w =
    let (errs, v) = delete_each server e.prefix (worker_targets e) w in
    let (more, u) = delete_each server e.prefix (rbac_targets e) v in
    All-append (Done server e.prefix (errs ++ more) u) (worker_targets e) (rbac_targets e)
      (All-map (Done server e.prefix errs v) (Done server e.prefix (errs ++ more) u)
        (worker_targets e)
        (λ t h. elim h [
          | inl g ↦ inl (delete_each-Erased server e.prefix t.at (rbac_targets e) v g)
          | inr g ↦ inr (Any-append_left (Names t.at) errs more g)
        ])
        (delete_each-Done server e.prefix (worker_targets e) w))
      (All-map (Done server e.prefix more u) (Done server e.prefix (errs ++ more) u)
        (rbac_targets e)
        (λ t h. elim h [ inl g ↦ inl g | inr g ↦ inr (Any-append_right (Names t.at) errs more g) ])
        (delete_each-Done server e.prefix (rbac_targets e) v))
