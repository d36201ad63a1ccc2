-- ===== src/Kueue/Resources/Unharmed.antt =====
-- The creations of pkg/tektonkueue leave the objects of others as they are, and so does `Cleanup`
-- after them, at whichever step either stops.
use release_tests_ginkgo.Prelude.{◌≡◌, some, List, [], ◌∷◌}
use release_tests_ginkgo.Prelude.Texts.{Text}
use release_tests_ginkgo.Prelude.Lists.{All, All-append}
use release_tests_ginkgo.Kube.{Key, Manifest, Object, Reply, reply, refused, Server}
use release_tests_ginkgo.Kube.Laws.{stored-Present}
use release_tests_ginkgo.Kueue.Validation.{Cluster}
use release_tests_ginkgo.Kueue.Cleanup.{CleanupFunc, add_cleanup, cleanup}
use release_tests_ginkgo.Kueue.Cleanup.Invariant.{cleanup-keeps}
use release_tests_ginkgo.Kueue.Resources.{Failure, delete_owned, remove_owned, unbind}
use release_tests_ginkgo.Kueue.Resources.Create.{
  Run, Session, create_tracked, create_plain, track, go_on,
}
use release_tests_ginkgo.Kueue.Resources.Scope.{Access}
use release_tests_ginkgo.Kueue.Resources.Peers.{Net}
use release_tests_ginkgo.Kueue.Resources.Hub.{create_resources}
use release_tests_ginkgo.Kueue.Resources.Preserved.{create_resources-Keeps}
use release_tests_ginkgo.Kueue.Resources.Stable.{Stable}
use release_tests_ginkgo.Kueue.Resources.Foreign.{
  Alien, Abroad, Safe, Spares, delete_owned-Spares, remove_owned-Spares, unbind-Spares, create-Safe,
  pause-Spares,
}

module _ {W : Type 0} {server : Server W} (e : Session W server) (access : Access server) (k : Key)
    (o : Object) (alien : Alien e.prefix o) (home : Abroad e.prefix k) where
  -- The object is there, and no cleanup harms it.
  abbrev Unharmed : Run W → Type 0
  Unharmed r =
      (Safe server e.prefix k o alien home r.world)
      × All (Spares server e.prefix k o alien home) r.cleanups

  track-Unharmed :
      (f : Text → CleanupFunc W Failure) (cs : List (CleanupFunc W Failure)) (x : Reply Object × W)
      → ((uid : Text) → Spares server e.prefix k o alien home (f uid))
      → All (Spares server e.prefix k o alien home) cs
      → Safe server e.prefix k o alien home x.1
      → Unharmed (track f cs x).1
  unfolding track add_cleanup
  track-Unharmed f cs (reply c, w) spares hs h = (
    h,
    All-append (Spares server e.prefix k o alien home) cs (f c.uid ∷ []) hs (spares c.uid, tt),
  )
  track-Unharmed f cs (refused x, w) spares hs h =
      (h, All-append (Spares server e.prefix k o alien home) cs (f [] ∷ []) hs (spares [], tt))

  create_tracked-Unharmed :
      (f : Text → CleanupFunc W Failure) (j : Key) (m : Manifest) (r : Run W)
      → ((uid : Text) → Spares server e.prefix k o alien home (f uid))
      → Unharmed r
      → Unharmed (create_tracked server f j m r).1
  unfolding create_tracked
  create_tracked-Unharmed f j m r spares (h, hs) =
      track-Unharmed f r.cleanups (server.create j m r.world) spares hs
        (create-Safe server e.prefix k o alien home j m r.world h)

  go_on-Unharmed :
      (cs : List (CleanupFunc W Failure)) (x : Reply Object × W)
      → All (Spares server e.prefix k o alien home) cs
      → Safe server e.prefix k o alien home x.1
      → Unharmed (go_on cs x).1
  unfolding go_on
  go_on-Unharmed cs (reply c, w) hs h = (h, hs)
  go_on-Unharmed cs (refused x, w) hs h = (h, hs)

  Unharmed-Stable : Stable e access Unharmed
  unfolding create_plain
  Unharmed-Stable = record {
    removed = λ j m r l.
        create_tracked-Unharmed (remove_owned server e.poller e.prefix j) j m r
          (remove_owned-Spares server e.prefix k o alien home e.poller j);
    deleted = λ j m r l.
        create_tracked-Unharmed (delete_owned server e.prefix j) j m r
          (delete_owned-Spares server e.prefix k o alien home j);
    unbound = λ j m r l.
        create_tracked-Unharmed (unbind server e.retrier e.prefix j) j m r
          (unbind-Spares server e.prefix k o alien home e.retrier j);
    plain = λ j m r p (h, hs).
        go_on-Unharmed r.cleanups (server.create j m r.world) hs
          (create-Safe server e.prefix k o alien home j m r.world h);
    paused = λ r w (h, hs). (pause-Spares server e.prefix k o alien home w h, hs);
    token = λ r cluster namespace name (h, hs). (
      stored-Present server k o home (access.create_token cluster namespace name r.world).1 r.world
          (λ i. access.token_stored cluster namespace name i r.world) h,
      hs,
    );
  }

-- An object that has not the labels of the environment and that nobody deletes, and that lies in no
-- namespace or in one that has not the labels either and that nobody deletes, is, after the part of
-- `Setup` that creates objects, at whichever step this stops, as it was before, and it is so after a
-- `Cleanup` that follows, also one that fails, if it is for the cleanups of before; and again for
-- the cleanups that are left.
pub create_resources-cleanup :
    {W : Type 0} {server : Server W} (e : Session W server) (access : Access server) (net : Net)
    (hub : Cluster) (spokes : List Cluster) (k : Key) (o : Object) (alien : Alien e.prefix o)
    (home : Abroad e.prefix k) (r : Run W)
    → Safe server e.prefix k o alien home r.world
    → All (Spares server e.prefix k o alien home) r.cleanups
    → let s = (create_resources e access net hub spokes r).1 in
      let (err, kept, w) = cleanup s.cleanups s.world in
      (server.stored k s.world ≡ some o)
      × (server.stored k w ≡ some o)
      × All (Spares server e.prefix k o alien home) kept
create_resources-cleanup {server = server} e access net hub spokes k o alien home r h hs =
    let (there, spared) =
      create_resources-Keeps e access (Unharmed e access k o alien home)
        (Unharmed-Stable e access k o alien home) net hub spokes r (h, hs) in
    let s = (create_resources e access net hub spokes r).1 in
    let (after, left) =
      cleanup-keeps (Safe server e.prefix k o alien home) s.cleanups s.world spared there in
    (there.0, after.0, left)
