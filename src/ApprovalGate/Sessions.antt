-- ===== src/ApprovalGate/Sessions.antt =====
-- A user who is logged in, loses a group and logs in again.
use release_tests_ginkgo.Prelude.{refl, Bool, true, some, List, [], ◌∷◌, arith}
use release_tests_ginkgo.Prelude.Texts.{Text, codes}
use release_tests_ginkgo.ApprovalGate.Logins.{
  Logins, Effect, lookup, create, succeeds, mark_users_auth_dirty, ensure_user_kubeconfig,
}
use release_tests_ginkgo.ApprovalGate.Current.{
  Event, changes, logins, IsFresh, IsKept, mark_users_auth_dirty-IsFresh,
}
use release_tests_ginkgo.ApprovalGate.Current.{ensure_user_kubeconfig-IsKept}

abbrev start : Logins
start = record { kubeconfigs = []; dirty = [] }

start-IsFresh : IsFresh start []
unfolding lookup
start-IsFresh user v cached clean = absurd (ground arith)

abbrev server : Text
server = codes "https://api:6443"

abbrev accepts : Text → Text → Bool
accepts user path = true

abbrev temp : Text
temp = codes "/tmp/mag-1"

abbrev user : Text
user = codes "user1"

-- The first login, with an empty cache.
abbrev first : Effect
first = ensure_user_kubeconfig (some server) accepts temp user start

first-Kept : IsKept user first []
first-Kept = ensure_user_kubeconfig-IsKept (some server) accepts temp user start [] start-IsFresh

-- The user loses a group, which makes the user dirty.
abbrev dirty : Logins
dirty = mark_users_auth_dirty (user ∷ []) first.0

abbrev history : List Event
history = changes (user ∷ []) (logins first.1 [])

dirty-IsFresh : IsFresh dirty history
unfolding ensure_user_kubeconfig create succeeds lookup
dirty-IsFresh =
    mark_users_auth_dirty-IsFresh (user ∷ []) first.0 (logins first.1 []) (first-Kept temp refl).0

-- The user is in the cache, and logs in again.
ensure_user_kubeconfig-IsKept_example :
    IsKept user
      (ensure_user_kubeconfig (some server) accepts (codes "/tmp/mag-2") user dirty)
      history
ensure_user_kubeconfig-IsKept_example =
    ensure_user_kubeconfig-IsKept (some server) accepts (codes "/tmp/mag-2") user dirty history
      dirty-IsFresh
