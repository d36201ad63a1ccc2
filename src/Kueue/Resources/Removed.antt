-- ===== src/Kueue/Resources/Removed.antt =====
-- After a `Cleanup` that succeeds, what the creations of pkg/tektonkueue made is gone or its deletion
-- has been accepted, whichever step of the creations failed. The exceptions are the service account,
-- the role and the role binding of a worker, which have no cleanup and go with their namespace.
use mathlib.Core.Path.{subst}
use release_tests_ginkgo.Prelude.{
  true, false, ◌≡◌, ◌≢◌, sym, ◌∙◌, none, some, List, [], ◌∷◌, ◌++◌, inl, inr, arith, ◌⊎◌,
}
use release_tests_ginkgo.Prelude.Texts.{Text}
use release_tests_ginkgo.Prelude.Lists.{All, All-append, Any, Any-append_left, Any-append_right}
use release_tests_ginkgo.Kube.{
  Key, key_eq, namespace_of, Manifest, Object, Reply, reply, refused, Server, Gone,
}
use release_tests_ginkgo.Kueue.Validation.{Cluster}
use release_tests_ginkgo.Kueue.Cleanup.{CleanupFunc, add_cleanup, cleanup}
use release_tests_ginkgo.Kueue.Cleanup.Invariant.{Respects, Establishes, cleanup-establishes}
use release_tests_ginkgo.Kueue.Resources.{Failure, delete_owned, remove_owned, unbind}
use release_tests_ginkgo.Kueue.Resources.Create.{
  Run, Session, create_tracked, create_plain, track, go_on,
}
use release_tests_ginkgo.Kueue.Resources.Scope.{Access}
use release_tests_ginkgo.Kueue.Resources.Peers.{Net}
use release_tests_ginkgo.Kueue.Resources.Hub.{create_resources}
use release_tests_ginkgo.Kueue.Resources.Preserved.{create_resources-Keeps}
use release_tests_ginkgo.Kueue.Resources.Stable.{Stable, goes_with_namespace}
use release_tests_ginkgo.Kueue.Resources.Erase.{
  Erased, delete_owned-Respects, remove_owned-Respects, unbind-Respects, delete_owned-Establishes,
  remove_owned-Establishes, unbind-Establishes, create-Erased,
}

module _ {W : Type 0} {server : Server W} (e : Session W server) (access : Access server) (k : Key)
    (lasting : goes_with_namespace k ≡ false) (ours : server.provided k ≡ false) where
  abbrev GoneHere : W → Type 0
  GoneHere = Erased server e.prefix k ours

  -- The object is gone or has a cleanup, and no cleanup brings it back.
  abbrev Tracked : Run W → Type 0
  Tracked r =
      ((GoneHere r.world) ⊎ (Any (Establishes GoneHere) r.cleanups))
      × All (Respects GoneHere) r.cleanups

  listed :
      (g : CleanupFunc W Failure) (j : Key) (cs : List (CleanupFunc W Failure)) (w : W)
      → (k ≡ j → Establishes GoneHere g)
      → (k ≡ j) ⊎ (GoneHere w ⊎ (Any (Establishes GoneHere) cs))
      → (GoneHere w) ⊎ (Any (Establishes GoneHere) (cs ++ (g ∷ [])))
  listed g j cs w est (inl same) =
      inr (Any-append_right (Establishes GoneHere) cs (g ∷ []) (inl (est same)))
  listed g j cs w est (inr (inl h)) = inl h
  listed g j cs w est (inr (inr h)) = inr (Any-append_left (Establishes GoneHere) cs (g ∷ []) h)

  -- The cleanup that is added is for the object `j`.
  track-Tracked :
      (f : Text → CleanupFunc W Failure) (j : Key) (cs : List (CleanupFunc W Failure))
      (x : Reply Object × W)
      → ((uid : Text) → Respects GoneHere (f uid))
      → ((uid : Text) → k ≡ j → Establishes GoneHere (f uid))
      → All (Respects GoneHere) cs
      → (k ≡ j) ⊎ (GoneHere x.1 ⊎ (Any (Establishes GoneHere) cs))
      → Tracked (track f cs x).1
  unfolding track add_cleanup
  track-Tracked f j cs (reply c, w) keep done hs h = (
    listed (f c.uid) j cs w (done c.uid) h,
    All-append (Respects GoneHere) cs (f c.uid ∷ []) hs (keep c.uid, tt),
  )
  track-Tracked f j cs (refused x, w) keep done hs h = (
    listed (f []) j cs w (done []) h,
    All-append (Respects GoneHere) cs (f [] ∷ []) hs (keep [], tt),
  )

  created :
      (j : Key) (m : Manifest) (r : Run W)
      → k ≢ j
      → (GoneHere r.world) ⊎ (Any (Establishes GoneHere) r.cleanups)
      → (GoneHere (server.create j m r.world).1) ⊎ (Any (Establishes GoneHere) r.cleanups)
  created j m r differ (inl h) = inl (create-Erased server e.prefix k ours j m r.world differ h)
  created j m r differ (inr h) = inr h

  create_tracked-Tracked :
      (f : Text → CleanupFunc W Failure) (j : Key) (m : Manifest) (r : Run W)
      → ((uid : Text) → Respects GoneHere (f uid))
      → ((uid : Text) → k ≡ j → Establishes GoneHere (f uid))
      → Tracked r
      → Tracked (create_tracked server f j m r).1
  unfolding create_tracked
  create_tracked-Tracked f j m r keep done (h, hs) =
      track-Tracked f j r.cleanups (server.create j m r.world) keep done hs
        (elim (key_eq.dec k j) [ yes same ↦ inl same | no differ ↦ inr (created j m r differ h) ])

  go_on-Tracked :
      (cs : List (CleanupFunc W Failure)) (x : Reply Object × W)
      → All (Respects GoneHere) cs
      → (GoneHere x.1) ⊎ (Any (Establishes GoneHere) cs)
      → Tracked (go_on cs x).1
  unfolding go_on
  go_on-Tracked cs (reply c, w) hs h = (h, hs)
  go_on-Tracked cs (refused x, w) hs h = (h, hs)

  -- An object that goes with its namespace is another one.
  lasting-other : (j : Key) → goes_with_namespace j ≡ true → k ≢ j
  lasting-other j goes same =
      let apart : goes_with_namespace j ≡ false =
        subst (λ i. goes_with_namespace i ≡ false) same lasting in
      let both : true ≡ false = sym goes ∙ apart in ground arith

  moved :
      (w v : W) (cs : List (CleanupFunc W Failure))
      → (GoneHere w → GoneHere v)
      → (GoneHere w) ⊎ (Any (Establishes GoneHere) cs)
      → (GoneHere v) ⊎ (Any (Establishes GoneHere) cs)
  moved w v cs f (inl h) = inl (f h)
  moved w v cs f (inr h) = inr h

  Tracked-Stable : Stable e access Tracked
  unfolding create_plain
  Tracked-Stable = record {
    removed = λ j m r l.
        create_tracked-Tracked (remove_owned server e.poller e.prefix j) j m r
          (remove_owned-Respects server e.prefix k ours e.poller j)
          (λ uid same.
            subst (λ i. Establishes GoneHere (remove_owned server e.poller e.prefix i uid)) same
              (remove_owned-Establishes server e.prefix k ours e.poller uid));
    deleted = λ j m r l.
        create_tracked-Tracked (delete_owned server e.prefix j) j m r
          (delete_owned-Respects server e.prefix k ours j)
          (λ uid same.
            subst (λ i. Establishes GoneHere (delete_owned server e.prefix i uid)) same
              (delete_owned-Establishes server e.prefix k ours uid));
    unbound = λ j m r l.
        create_tracked-Tracked (unbind server e.retrier e.prefix j) j m r
          (unbind-Respects server e.prefix k ours e.retrier j)
          (λ uid same.
            subst (λ i. Establishes GoneHere (unbind server e.retrier e.prefix i uid)) same
              (unbind-Establishes server e.prefix k ours e.retrier uid));
    plain = λ j m r goes (h, hs).
        go_on-Tracked r.cleanups (server.create j m r.world) hs
          (created j m r (lasting-other j goes) h);
    paused =
        λ r w (h, hs). (moved w (server.pause w) r.cleanups (server.pause_gone k w ours) h, hs);
    token = λ r cluster namespace name (h, hs). (
      moved r.world (access.create_token cluster namespace name r.world).1 r.cleanups
          (subst Gone (sym (access.token_stored cluster namespace name k r.world))) h,
      hs,
    );
  }

-- The object is not there, or its deletion has been accepted, or so it is for its namespace.
abbrev pub Leaves : {W : Type 0} → Server W → Key → W → Type 0
Leaves server k w =
    (Gone (server.stored k w)) ⊎ ((n : Key) × (namespace_of k ≡ some n) × Gone (server.stored n w))

-- Let `n` be an object, other than a service account, a role and a role binding, that was not there
-- before the part of `Setup` that creates objects, and that the cluster does not make by itself. After
-- this part, at whichever step it stops, and a `Cleanup` that follows and returns nil, if the cleanups
-- of before do not bring the object back, it is not there or its deletion has been accepted. So each
-- object in a new namespace, service accounts, roles and role bindings included, is not there or is
-- being deleted, or its namespace is.
pub create_resources-removed :
    {W : Type 0} {server : Server W} (e : Session W server) (access : Access server) (net : Net)
    (hub : Cluster) (spokes : List Cluster) (k n : Key) (r : Run W)
    (kept : List (CleanupFunc W Failure)) (w : W)
    → (k ≡ n) ⊎ (namespace_of k ≡ some n)
    → goes_with_namespace n ≡ false
    → server.provided n ≡ false
    → server.stored n r.world ≡ none
    → All (Respects (λ v. Gone (server.stored n v))) r.cleanups
    → let s = (create_resources e access net hub spokes r).1 in
      cleanup s.cleanups s.world ≡ (none, kept, w) → (Gone (server.stored n w)) × Leaves server k w
create_resources-removed {server = server} e access net hub spokes k n r kept w part lasting ours
      absent hs done =
    let (tracked, respect) =
      create_resources-Keeps e access (Tracked e access n lasting ours)
        (Tracked-Stable e access n lasting ours) net hub spokes r
        (inl (subst Gone (sym absent) tt), hs) in
    let s = (create_resources e access net hub spokes r).1 in
    let gone =
      cleanup-establishes (λ v. Gone (server.stored n v)) s.cleanups kept s.world w respect tracked
        done in
    (
      gone,
      elim part [
        | inl same ↦ inl (subst (λ i. Gone (server.stored i w)) (sym same) gone)
        | inr inside ↦ inr (n, inside, gone)
      ],
    )
