-- ===== src/Multicluster/Spared.antt =====
-- What the deletions of a Hub-mode test run of pkg/multicluster leave as it is: the objects of others.
use mathlib.Core.Path.{subst}
use mathlib.Core.Option.{some-injective}
use release_tests_ginkgo.Prelude.{
  true, false, not, ◌&&◌, ◌≡◌, refl, sym, ◌∙◌, some, List, [], ◌∷◌, inl, inr, ◌⊎◌, Bool-cases,
  arith, ◌==◌, text_eq,
}
use release_tests_ginkgo.Prelude.Texts.{Text, null}
use release_tests_ginkgo.Kube.{
  Key, Object, not_found, already_exists, conflict, other, Reply, reply, refused, Server,
}
use release_tests_ginkgo.Kube.Laws.{
  Home, Present, Apart, apart, pause-Present, create-Present, update-Present, delete-Present,
  stored-Present,
}
use release_tests_ginkgo.Multicluster.{
  Environment, owns, Target, delete_found, delete_owned, delete_each,
}
use release_tests_ginkgo.Multicluster.Stable.{Stable}

-- An object without the labels of the run, which nobody deletes.
pub record Alien (prefix : Text) (o : Object) : Type 0 where
  pub unowned : owns prefix o.labels ≡ false
  pub alive : o.deleting ≡ false

-- The object is cluster-wide, or in a namespace of others.
abbrev pub Abroad : Text → Key → Type 0
Abroad prefix = Home (Alien prefix)

module _ {W : Type 0} (server : Server W) (prefix : Text) (k : Key) (o : Object)
    (alien : Alien prefix o) (home : Abroad prefix k) where
  abbrev pub Safe : W → Type 0
  Safe = Present server k o home

  owns-alien : (q : Object) → (q ≡ o) ⊎ Alien prefix q → owns prefix q.labels ≡ false
  owns-alien q (inl same) = subst (λ x. owns prefix x.labels ≡ false) (sym same) alien.unowned
  owns-alien q (inr strange) = strange.unowned

  -- The object that a server returns for an owned key is not the other's.
  owned-other :
      (j : Key) (c : Object) (w : W)
      → server.get j w ≡ reply c
      → owns prefix c.labels ≡ true
      → Safe w
      → Apart server k o home j
  owned-other j c w got ours h =
      apart server k o home j w
        (λ i q strange there same.
          let found : some c ≡ some q =
            sym (server.get_reply j w c got) ∙ subst (λ x. server.stored x w ≡ some q) same there in
          let mine : owns prefix q.labels ≡ true =
            subst (λ x. owns prefix x.labels ≡ true) (some-injective c q found) ours in
          let both : true ≡ false = sym mine ∙ owns-alien q strange in ground arith)
        h

  pub delete_found-Safe :
      (t : Target) (x : Reply Object) (w : W)
      → server.get t.at w ≡ x
      → Safe w
      → Safe (delete_found server prefix t x w).1
  unfolding delete_found
  delete_found-Safe t (refused not_found) w e h = h
  delete_found-Safe t (refused already_exists) w e h = h
  delete_found-Safe t (refused conflict) w e h = h
  delete_found-Safe t (refused (other s)) w e h = h
  delete_found-Safe t (reply c) w e h = elim (Bool-cases (owns prefix c.labels)) [
    | inr foreign ↦ rw foreign h
    | inl ours ↦ elim (Bool-cases (not (null t.uid) && not (c.uid == t.uid))) [
      | inl replaced ↦ rw (ours, replaced) h
      | inr same ↦
          rw (ours, same) (delete-Present server k o home t.at w (owned-other t.at c w e ours h) h)
    ]
  ]

  pub delete_each-Safe :
      (ts : List Target) (w : W) → Safe w → Safe (delete_each server prefix ts w).1
  unfolding delete_each delete_owned
  delete_each-Safe [] w h = h
  delete_each-Safe (t ∷ ts) w h =
      delete_each-Safe ts (delete_owned server prefix t w).1
        (delete_found-Safe t (server.get t.at w) w refl h)

-- The calls of the set-up leave the object as it is.
pub Safe-Stable :
    {W : Type 0} (server : Server W) (start : Environment) (k : Key) (o : Object)
    (alien : Alien start.prefix o) (home : Abroad start.prefix k)
    → Stable server (Safe server start.prefix k o alien home) start
Safe-Stable server start k o alien home = record {
  created = λ j m w made. create-Present server k o home j m w;
  updated = λ j c d w got ours h.
      update-Present server k o home j d w
        (owned-other server start.prefix k o alien home j c w got ours h) h;
  paused = λ w. pause-Present server k o home w alien.alive;
  token = stored-Present server k o home;
}
