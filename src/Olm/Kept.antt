-- ===== src/Olm/Kept.antt =====
-- The installation of operators in pkg/olm/cluster_bootstrap.go changes no object that is there.
use release_tests_ginkgo.Prelude.{
  ℕ, zero, suc, String, Bool, true, false, ◌≡◌, refl, sym, sym, Option, none, some, List, [], ◌∷◌,
  inl, inr, Bool-cases, ◌==◌, option_eq, text_eq,
}
use release_tests_ginkgo.Prelude.Texts.{Text}
use release_tests_ginkgo.Poll.{Condition, Polls-keeps}
use release_tests_ginkgo.Kube.{
  Key, key, Manifest, Object, not_found, already_exists, conflict, other, Reply, reply, refused,
  Server, empty,
}
use mathlib.Core.Path.{subst}
use release_tests_ginkgo.Kube.Laws.{Home, Present, pause-Present, create-Present}
use release_tests_ginkgo.Kueue.Resources.{Failure, after}
use release_tests_ginkgo.Olm.{
  Listed, Catalog, Prerequisite, unlabelled, subscription_key, subscription_body, unless_exists,
  matching, if_missing, by_count, ensure_namespace, ensure_operator_group, operator_condition,
  wait_for_operator, reuse_existing, after_subscribe, subscribe, choose, with_list, ensure_operator,
  api_condition, wait_for_api, wait_if, ensure_prerequisites,
}

module _ {W : Type 0} (server : Server W) (catalog : Catalog W) (k : Key) (o : Object)
    (alive : o.deleting ≡ false) (home : Home (λ p. Unit) k) where
  abbrev Safe : W → Type 0
  Safe = Present server k o home

  abbrev Keeps : (W → Option Failure × W) → Type 0
  Keeps f = (w : W) → Safe w → Safe (f w).1

  after-Safe :
      (x : Option Failure × W) (f : W → Option Failure × W)
      → Safe x.1
      → Keeps f
      → Safe (after x f).1
  after-Safe (some e, w) f h s = h
  after-Safe (none, w) f h s = s w h

  unless_exists-Safe : (x : Reply Object × W) → Safe x.1 → Safe (unless_exists x).1
  unfolding unless_exists
  unless_exists-Safe (reply c, w) h = h
  unless_exists-Safe (refused already_exists, w) h = h
  unless_exists-Safe (refused not_found, w) h = h
  unless_exists-Safe (refused conflict, w) h = h
  unless_exists-Safe (refused (other s), w) h = h

  if_missing-Safe :
      (x : Reply Object) (f : W → Option Failure × W) → Keeps f → Keeps (if_missing x f)
  unfolding if_missing
  if_missing-Safe (reply c) f s w h = h
  if_missing-Safe (refused not_found) f s w h = s w h
  if_missing-Safe (refused already_exists) f s w h = h
  if_missing-Safe (refused conflict) f s w h = h
  if_missing-Safe (refused (other e)) f s w h = h

  by_count-Safe : (x : Reply ℕ) (f : W → Option Failure × W) → Keeps f → Keeps (by_count x f)
  unfolding by_count
  by_count-Safe (refused e) f s w h = h
  by_count-Safe (reply zero) f s w h = s w h
  by_count-Safe (reply (suc zero)) f s w h = h
  by_count-Safe (reply (suc (suc n))) f s w h = h

  make-Safe : (j : Key) (m : Manifest) → Keeps (λ v. unless_exists (server.create j m v))
  make-Safe j m v g =
      unless_exists-Safe (server.create j m v) (create-Present server k o home j m v g)

  ensure_operator_group-Safe :
      (namespace : Text) → Keeps (ensure_operator_group server catalog namespace)
  unfolding ensure_operator_group ensure_namespace
  ensure_operator_group-Safe namespace w h =
      let scope = key "" "namespaces" [] namespace in
      let group = key "" "operatorgroups" namespace namespace in
      after-Safe (ensure_namespace server catalog namespace w)
        (λ v.
          by_count (catalog.count_operator_groups namespace v)
            (λ u. unless_exists (server.create group (unlabelled empty) u)) v)
        (if_missing-Safe (server.get scope w)
          (λ v. unless_exists (server.create scope (unlabelled empty) v))
          (make-Safe scope (unlabelled empty)) w h)
        (λ v.
          by_count-Safe (catalog.count_operator_groups namespace v)
            (λ u. unless_exists (server.create group (unlabelled empty) u))
            (make-Safe group (unlabelled empty)) v)

  poll-Safe :
      (c : Condition W Failure) (w : W)
      → ((v : W) → (c v).1 ≡ server.pause v)
      → Safe w
      → Safe (catalog.poller.poll c w).1
  poll-Safe c w step h =
      Polls-keeps {c = c} Safe
        (λ v g. subst Safe (sym (step v)) (pause-Present server k o home v alive g))
        (catalog.poller.poll_polls c w) h

  wait_for_operator-Safe :
      (namespace name : Text) → Keeps (wait_for_operator server catalog namespace name)
  unfolding wait_for_operator
  wait_for_operator-Safe namespace name w h =
      poll-Safe (operator_condition server catalog namespace name) w
        (λ v. unfold operator_condition in refl) h

  reuse_existing-Safe :
      (p : Prerequisite) (x : Reply Object) → Keeps (reuse_existing server catalog p x)
  unfolding reuse_existing
  reuse_existing-Safe p (refused e) w h = h
  reuse_existing-Safe p (reply s) w h =
      elim (Bool-cases ((catalog.subscription_of s).package_name == some p.package_name)) [
        | inl same ↦ rw same (wait_for_operator-Safe p.namespace p.package_name w h)
        | inr differ ↦ rw differ h
      ]

  after_subscribe-Safe :
      (p : Prerequisite) (x : Reply Object × W)
      → Safe x.1
      → Safe (after_subscribe server catalog p x).1
  unfolding after_subscribe
  after_subscribe-Safe p (reply s, w) h = wait_for_operator-Safe p.namespace p.package_name w h
  after_subscribe-Safe p (refused already_exists, w) h =
      reuse_existing-Safe p (server.get (subscription_key p.namespace p.package_name) w) w h
  after_subscribe-Safe p (refused not_found, w) h = h
  after_subscribe-Safe p (refused conflict, w) h = h
  after_subscribe-Safe p (refused (other s), w) h = h

  subscribe-Safe : (p : Prerequisite) → Keeps (subscribe server catalog p)
  unfolding subscribe
  subscribe-Safe p w h =
      let j = subscription_key p.namespace p.package_name in
      let m = unlabelled (subscription_body p) in
      after-Safe (ensure_operator_group server catalog p.namespace w)
        (λ v. after_subscribe server catalog p (server.create j m v))
        (ensure_operator_group-Safe p.namespace w h)
        (λ v g.
          after_subscribe-Safe p (server.create j m v) (create-Present server k o home j m v g))

  choose-Safe : (p : Prerequisite) (ss : List Listed) → Keeps (choose server catalog p ss)
  unfolding choose
  choose-Safe p [] w h = subscribe-Safe p w h
  choose-Safe p (s ∷ []) w h = wait_for_operator-Safe s.namespace s.name w h
  choose-Safe p (s ∷ t ∷ rest) w h = h

  with_list-Safe :
      (p : Prerequisite) (x : Reply (List Listed)) → Keeps (with_list server catalog p x)
  unfolding with_list
  with_list-Safe p (refused e) w h = h
  with_list-Safe p (reply ss) w h = choose-Safe p (matching p.package_name ss) w h

  wait_if-Safe :
      (discover : Bool) (group_version : String)
      → Keeps (wait_if server catalog discover group_version)
  unfolding wait_if wait_for_api
  wait_if-Safe false group_version w h = h
  wait_if-Safe true group_version w h =
      poll-Safe (api_condition server catalog group_version) w (λ v. unfold api_condition in refl) h

  -- `EnsurePrerequisites`, whether it returns an error or not, leaves every object that was there and
  -- that nobody deletes as it was, where it lies in no namespace or in one that is there and that
  -- nobody deletes, and that namespace too: a subscription that exists keeps its channel and its
  -- catalog.
  pub ensure_prerequisites-Safe :
      (discover : Bool) (ps : List Prerequisite) (w : W)
      → Present server k o home w
      → Present server k o home (ensure_prerequisites server catalog discover ps w).1
  unfolding ensure_prerequisites ensure_operator
  ensure_prerequisites-Safe discover [] w h = h
  ensure_prerequisites-Safe discover (p ∷ ps) w h =
      after-Safe (ensure_operator server catalog p w)
        (λ v.
          after (wait_if server catalog discover p.group_version v)
            (ensure_prerequisites server catalog discover ps))
        (with_list-Safe p (catalog.list_subscriptions w) w h)
        (λ v g.
          after-Safe (wait_if server catalog discover p.group_version v)
            (ensure_prerequisites server catalog discover ps)
            (wait_if-Safe discover p.group_version v g) (ensure_prerequisites-Safe discover ps))
