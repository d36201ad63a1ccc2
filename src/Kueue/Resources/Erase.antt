-- ===== src/Kueue/Resources/Erase.antt =====
-- What the cleanups of pkg/tektonkueue/resources.go do to the object that they are for: where one
-- succeeds, the object is gone or its deletion has been accepted. None brings an object back.
use mathlib.Core.Path.{subst}
use mathlib.Core.Option.{some-ne-none}
use release_tests_ginkgo.Prelude.{
  false, ◌≡◌, ◌≢◌, refl, sym, ap, ◌∙◌, Option, none, some, inl, inr, Bool-cases, arith, ◌⊎◌,
  Option-cases,
}
use release_tests_ginkgo.Prelude.Texts.{Text}
use release_tests_ginkgo.Poll.{Poller, Polls-keeps}
use release_tests_ginkgo.Kube.{
  Key, key_eq, Manifest, Object, ApiError, not_found, already_exists, conflict, other, Reply, reply,
  refused, Server, Gone,
}
use release_tests_ginkgo.Kube.Retry.{Retrier, Retries-keeps, Retries-none}
use release_tests_ginkgo.Kueue.Cleanup.{CleanupFunc}
use release_tests_ginkgo.Kueue.Cleanup.Invariant.{Respects, Establishes}
use release_tests_ginkgo.Kueue.Resources.{
  Failure, api, replaced, is_conflict, is_foreign, if_owned, ignore_not_found, as_failure,
  delete_object, gone_condition, wait_for_not_found, after, delete_owned, remove_owned,
  delete_updated, unbind_once, unbind, without_subjects,
}

-- A cleanup that does nothing, refuses, or acts keeps what acting keeps.
if_owned-Respects :
    {W : Type 0} (I : W → Type 0) (prefix : Text) (j : Key) (uid : Text)
    (act : Object → CleanupFunc W Failure) (x : Reply Object)
    → ((c : Object) → Respects I (act c))
    → Respects I (if_owned prefix j uid act x)
unfolding if_owned
if_owned-Respects I prefix j uid act (refused not_found) keep w h = h
if_owned-Respects I prefix j uid act (refused already_exists) keep w h = h
if_owned-Respects I prefix j uid act (refused conflict) keep w h = h
if_owned-Respects I prefix j uid act (refused (other s)) keep w h = h
if_owned-Respects I prefix j uid act (reply c) keep w h =
    elim (Bool-cases (is_foreign prefix uid c)) [
      | inl foreign ↦ rw foreign h
      | inr mine ↦ rw mine (keep c w h)
    ]

-- If it succeeds, there was nothing, or the action succeeded.
if_owned-none :
    {W : Type 0} (prefix : Text) (j : Key) (uid : Text) (act : Object → CleanupFunc W Failure)
    (x : Reply Object) (w : W)
    → (if_owned prefix j uid act x w).0 ≡ none
    → ((x ≡ refused not_found) × (if_owned prefix j uid act x w ≡ (none, w)))
      ⊎ ((c : Object) × ((act c w).0 ≡ none) × (if_owned prefix j uid act x w ≡ act c w))
unfolding if_owned
if_owned-none prefix j uid act (refused not_found) w h = inl (refl, refl)
if_owned-none prefix j uid act (refused already_exists) w h = absurd (ground arith)
if_owned-none prefix j uid act (refused conflict) w h = absurd (ground arith)
if_owned-none prefix j uid act (refused (other s)) w h = absurd (ground arith)
if_owned-none prefix j uid act (reply c) w h = elim (Bool-cases (is_foreign prefix uid c)) [
  | inl foreign ↦ absurd (some-ne-none (replaced j) (rw foreign at h))
  | inr mine ↦ inr (c, rw mine at h, rw mine refl)
]

only_not_found : (x : ApiError) → as_failure (ignore_not_found (some x)) ≡ none → x ≡ not_found
unfolding ignore_not_found
only_not_found not_found h = refl
only_not_found already_exists h = absurd (ground arith)
only_not_found conflict h = absurd (ground arith)
only_not_found (other s) h = absurd (ground arith)

module _ {W : Type 0} (server : Server W) (prefix : Text) (k : Key)
    (ours : server.provided k ≡ false) where
  abbrev pub Erased : W → Type 0
  Erased w = Gone (server.stored k w)

  pub pause-Erased : (w : W) → Erased w → Erased (server.pause w)
  pause-Erased w = server.pause_gone k w ours

  elsewhere : (w v : W) → server.stored k v ≡ server.stored k w → Erased w → Erased v
  elsewhere w v same h = subst Gone (sym same) h

  delete_object-Respects : (j : Key) → Respects Erased (delete_object server j)
  unfolding delete_object
  delete_object-Respects j w h = server.delete_gone j k w h

  update-Erased : (j : Key) (o : Object) (w : W) → Erased w → Erased (server.update j o w).1
  update-Erased j o w h = elim (key_eq.dec k j) [
    | yes same ↦
        subst (λ i. Gone (server.stored i (server.update j o w).1)) (sym same)
          (server.update_gone j o w (subst (λ i. Gone (server.stored i w)) same h))
    | no differ ↦ elsewhere w (server.update j o w).1 (server.update_elsewhere j k o w differ) h
  ]

  wait-Respects :
      (poller : Poller W ApiError) (j : Key) → Respects Erased (wait_for_not_found server poller j)
  unfolding wait_for_not_found
  wait-Respects poller j w h =
      Polls-keeps {c = gone_condition server j} Erased
        (λ v g. unfold gone_condition in pause-Erased v g)
        (poller.poll_polls (gone_condition server j) w) h

  after-Respects :
      (x : Option Failure × W) (f : CleanupFunc W Failure)
      → Erased x.1
      → Respects Erased f
      → Erased (after x f).1
  after-Respects (some e, w) f h s = h
  after-Respects (none, w) f h s = s w h

  pub delete_owned-Respects :
      (j : Key) (uid : Text) → Respects Erased (delete_owned server prefix j uid)
  unfolding delete_owned
  delete_owned-Respects j uid w =
      if_owned-Respects Erased prefix j uid (λ c. delete_object server j) (server.get j w)
        (λ c. delete_object-Respects j) w

  removal : Poller W ApiError → Key → Object → CleanupFunc W Failure
  removal poller j c v = after (delete_object server j v) (wait_for_not_found server poller j)

  pub remove_owned-Respects :
      (poller : Poller W ApiError) (j : Key) (uid : Text)
      → Respects Erased (remove_owned server poller prefix j uid)
  unfolding remove_owned removal
  remove_owned-Respects poller j uid w =
      if_owned-Respects Erased prefix j uid (removal poller j) (server.get j w)
        (λ c v h.
          after-Respects (delete_object server j v) (wait_for_not_found server poller j)
            (delete_object-Respects j v h) (wait-Respects poller j))
        w

  unbinding : Key → Object → CleanupFunc W Failure
  unbinding j c v = delete_updated server j (server.update j (without_subjects c) v)

  delete_updated-Respects :
      (j : Key) (x : Reply Object × W) → Erased x.1 → Erased (delete_updated server j x).1
  unfolding delete_updated
  delete_updated-Respects j (refused e, w) h = h
  delete_updated-Respects j (reply c, w) h = delete_object-Respects j w h

  unbind_once-Respects : (j : Key) (uid : Text) → Respects Erased (unbind_once server prefix j uid)
  unfolding unbind_once unbinding
  unbind_once-Respects j uid w =
      if_owned-Respects Erased prefix j uid (unbinding j) (server.get j w)
        (λ c v h. delete_updated-Respects j _ (update-Erased j (without_subjects c) v h)) w

  pub unbind-Respects :
      (retrier : Retrier server.pause is_conflict) (j : Key) (uid : Text)
      → Respects Erased (unbind server retrier prefix j uid)
  unfolding unbind
  unbind-Respects retrier j uid w h =
      Retries-keeps server.pause is_conflict Erased pause-Erased (unbind_once server prefix j uid)
        (unbind_once-Respects j uid) (retrier.retry_retries (unbind_once server prefix j uid) w) h

  -- A deletion that succeeds, also one that finds nothing to delete.
  delete_object-Establishes : Establishes Erased (delete_object server k)
  unfolding delete_object
  delete_object-Establishes w h = elim (Option-cases (server.delete k w).0) [
    | inl accepted ↦ server.delete_accepted k w accepted
    | inr (x, failed) ↦
        let ignored : as_failure (ignore_not_found (some x)) ≡ none =
          subst (λ y. as_failure (ignore_not_found y) ≡ none) failed h in
        server.delete_missing k w (failed ∙ ap some (only_not_found x ignored))
  ]

  if_owned-Establishes :
      (uid : Text) (act : Object → CleanupFunc W Failure)
      → ((c : Object) → Establishes Erased (act c))
      → Establishes Erased (λ w. if_owned prefix k uid act (server.get k w) w)
  if_owned-Establishes uid act done w h =
      elim (if_owned-none prefix k uid act (server.get k w) w h) [
        | inl (absent, same) ↦
            subst (λ r. Erased r.1) (sym same) (subst Gone (sym (server.get_missing k w absent)) tt)
        | inr (c, ok, same) ↦ subst (λ r. Erased r.1) (sym same) (done c w ok)
      ]

  pub delete_owned-Establishes :
      (uid : Text) → Establishes Erased (delete_owned server prefix k uid)
  unfolding delete_owned
  delete_owned-Establishes uid =
      if_owned-Establishes uid (λ c. delete_object server k) (λ c. delete_object-Establishes)

  after-Establishes :
      (x : Option Failure × W) (f : CleanupFunc W Failure)
      → (x.0 ≡ none → Erased x.1)
      → Respects Erased f
      → (after x f).0 ≡ none
      → Erased (after x f).1
  after-Establishes (some e, w) f done keep h = absurd (some-ne-none e h)
  after-Establishes (none, w) f done keep h = keep w (done refl)

  pub remove_owned-Establishes :
      (poller : Poller W ApiError) (uid : Text)
      → Establishes Erased (remove_owned server poller prefix k uid)
  unfolding remove_owned removal
  remove_owned-Establishes poller uid = if_owned-Establishes uid (removal poller k) λ c v.
      after-Establishes (delete_object server k v) (wait_for_not_found server poller k)
        (delete_object-Establishes v) (wait-Respects poller k)

  delete_updated-Establishes :
      (x : Reply Object × W)
      → (delete_updated server k x).0 ≡ none
      → Erased (delete_updated server k x).1
  unfolding delete_updated
  delete_updated-Establishes (refused e, w) h = absurd (some-ne-none (api e) h)
  delete_updated-Establishes (reply c, w) h = delete_object-Establishes w h

  unbind_once-Establishes : (uid : Text) → Establishes Erased (unbind_once server prefix k uid)
  unfolding unbind_once unbinding
  unbind_once-Establishes uid =
      if_owned-Establishes uid (unbinding k)
        λ c v. delete_updated-Establishes (server.update k (without_subjects c) v)

  pub unbind-Establishes :
      (retrier : Retrier server.pause is_conflict) (uid : Text)
      → Establishes Erased (unbind server retrier prefix k uid)
  unfolding unbind
  unbind-Establishes retrier uid w =
      Retries-none server.pause is_conflict Erased (unbind_once server prefix k uid)
        (unbind_once-Establishes uid) (retrier.retry_retries (unbind_once server prefix k uid) w)

  -- The creation of another object leaves this one as it is.
  pub create-Erased :
      (j : Key) (m : Manifest) (w : W) → k ≢ j → Erased w → Erased (server.create j m w).1
  create-Erased j m w differ h =
      elsewhere w (server.create j m w).1 (server.create_elsewhere j k m w differ) h
