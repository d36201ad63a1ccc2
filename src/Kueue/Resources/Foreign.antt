-- ===== src/Kueue/Resources/Foreign.antt =====
-- What the cleanups of pkg/tektonkueue/resources.go do to an object without the labels of the
-- environment: nothing.
use mathlib.Core.Path.{subst}
use mathlib.Core.Option.{some-injective}
use release_tests_ginkgo.Prelude.{
  true, false, ◌≡◌, refl, sym, ◌∙◌, Option, none, some, inl, inr, Bool-cases, arith, ◌⊎◌,
}
use release_tests_ginkgo.Prelude.Texts.{Text}
use release_tests_ginkgo.Poll.{Poller, Polls-keeps}
use release_tests_ginkgo.Kube.{
  Key, key_eq, Manifest, Object, ApiError, not_found, already_exists, conflict, other, Reply, reply,
  refused, Server,
}
use release_tests_ginkgo.Kube.Laws.{
  Home, Present, Apart, apart, pause-Present, create-Present, update-Present, delete-Present,
}
use release_tests_ginkgo.Kube.Retry.{Retrier, Retries-keeps}
use release_tests_ginkgo.Kueue.Cleanup.{CleanupFunc}
use release_tests_ginkgo.Kueue.Resources.{
  Failure, is_conflict, owns, is_foreign, if_owned, delete_object, gone_condition,
  wait_for_not_found, after, delete_owned, remove_owned, delete_updated, unbind_once, unbind,
  without_subjects,
}

-- An object of others: it has not the labels, and nobody deletes it.
pub record Alien (prefix : Text) (o : Object) : Type 0 where
  pub unowned : owns prefix o.labels ≡ false
  pub alive : o.deleting ≡ false

-- The object is cluster-wide, or in a namespace of others.
abbrev pub Abroad : Text → Key → Type 0
Abroad prefix = Home (Alien prefix)

module _ {W : Type 0} (server : Server W) (prefix : Text) (k : Key) (o : Object)
    (alien : Alien prefix o) (home : Abroad prefix k) where
  -- The object is there, and its namespace too.
  abbrev pub Safe : W → Type 0
  Safe = Present server k o home

  abbrev Other : Key → Type 0
  Other = Apart server k o home

  -- A cleanup that leaves the object as it is.
  abbrev pub Spares : CleanupFunc W Failure → Type 0
  Spares f = (w : W) → Safe w → Safe (f w).1

  pub pause-Spares : (w : W) → Safe w → Safe (server.pause w)
  pause-Spares w h = pause-Present server k o home w alien.alive h

  is_foreign-alien :
      (uid : Text) (q : Object) → (q ≡ o) ⊎ Alien prefix q → is_foreign prefix uid q ≡ true
  unfolding is_foreign
  is_foreign-alien uid q (inl same) = rw (same, alien.unowned) refl
  is_foreign-alien uid q (inr strange) = rw strange.unowned refl

  -- The object that the server returns and that is not foreign is another one.
  mine-Other :
      (j : Key) (uid : Text) (c : Object) (w : W)
      → server.get j w ≡ reply c
      → is_foreign prefix uid c ≡ false
      → Safe w
      → Other j
  mine-Other j uid c w e mine h =
      apart server k o home j w
        (λ i q strange there same.
          let found : some c ≡ some q =
            sym (server.get_reply j w c e) ∙ subst (λ x. server.stored x w ≡ some q) same there in
          let foreign : is_foreign prefix uid c ≡ true =
            subst (λ x. is_foreign prefix uid x ≡ true) (sym (some-injective c q found))
              (is_foreign-alien uid q strange) in
          let both : true ≡ false = sym foreign ∙ mine in ground arith)
        h

  if_owned-Spares :
      (j : Key) (uid : Text) (act : Object → CleanupFunc W Failure)
      → ((c : Object) → Other j → Spares (act c))
      → Spares (λ w. if_owned prefix j uid act (server.get j w) w)
  unfolding if_owned
  if_owned-Spares j uid act spares w h = judge (server.get j w) refl
    where
      judge : (x : Reply Object) → server.get j w ≡ x → Safe (if_owned prefix j uid act x w).1
      judge (refused not_found) e = h
      judge (refused already_exists) e = h
      judge (refused conflict) e = h
      judge (refused (other s)) e = h
      judge (reply c) e = elim (Bool-cases (is_foreign prefix uid c)) [
        | inl foreign ↦ rw foreign h
        | inr mine ↦ rw mine (spares c (mine-Other j uid c w e mine h) w h)
      ]

  delete_object-Spares : (j : Key) → Other j → Spares (delete_object server j)
  unfolding delete_object
  delete_object-Spares j differ w h = delete-Present server k o home j w differ h

  wait-Spares : (poller : Poller W ApiError) (j : Key) → Spares (wait_for_not_found server poller j)
  unfolding wait_for_not_found
  wait-Spares poller j w h =
      Polls-keeps {c = gone_condition server j} Safe
        (λ v g. unfold gone_condition in pause-Spares v g)
        (poller.poll_polls (gone_condition server j) w) h

  after-Spares :
      (x : Option Failure × W) (f : CleanupFunc W Failure)
      → Safe x.1
      → Spares f
      → Safe (after x f).1
  after-Spares (some e, w) f h s = h
  after-Spares (none, w) f h s = s w h

  pub delete_owned-Spares : (j : Key) (uid : Text) → Spares (delete_owned server prefix j uid)
  unfolding delete_owned
  delete_owned-Spares j uid =
      if_owned-Spares j uid (λ c. delete_object server j) (λ c. delete_object-Spares j)

  pub remove_owned-Spares :
      (poller : Poller W ApiError) (j : Key) (uid : Text)
      → Spares (remove_owned server poller prefix j uid)
  unfolding remove_owned
  remove_owned-Spares poller j uid =
      if_owned-Spares j uid
        (λ c v. after (delete_object server j v) (wait_for_not_found server poller j))
        (λ c differ v h.
          after-Spares (delete_object server j v) (wait_for_not_found server poller j)
            (delete_object-Spares j differ v h) (wait-Spares poller j))

  delete_updated-Spares :
      (j : Key) (x : Reply Object × W) → Other j → Safe x.1 → Safe (delete_updated server j x).1
  unfolding delete_updated
  delete_updated-Spares j (refused e, w) differ h = h
  delete_updated-Spares j (reply c, w) differ h = delete_object-Spares j differ w h

  unbind_once-Spares : (j : Key) (uid : Text) → Spares (unbind_once server prefix j uid)
  unfolding unbind_once
  unbind_once-Spares j uid =
      if_owned-Spares j uid
        (λ c v. delete_updated server j (server.update j (without_subjects c) v))
        (λ c differ v h.
          delete_updated-Spares j _ differ
            (update-Present server k o home j (without_subjects c) v differ h))

  pub unbind-Spares :
      (retrier : Retrier server.pause is_conflict) (j : Key) (uid : Text)
      → Spares (unbind server retrier prefix j uid)
  unfolding unbind
  unbind-Spares retrier j uid w h =
      Retries-keeps server.pause is_conflict Safe pause-Spares (unbind_once server prefix j uid)
        (unbind_once-Spares j uid) (retrier.retry_retries (unbind_once server prefix j uid) w) h

  pub create-Safe : (j : Key) (m : Manifest) (w : W) → Safe w → Safe (server.create j m w).1
  create-Safe j m w h = create-Present server k o home j m w h
