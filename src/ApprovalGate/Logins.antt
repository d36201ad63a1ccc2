-- ===== src/ApprovalGate/Logins.antt =====
-- The kubeconfigs of the test users: `markUsersAuthDirty`, `popUserAuthDirty`,
-- `ensureUserKubeconfig` and `CleanupUserKubeconfigs`. The two maps are guarded by locks; of
-- `magUserAuthDirty`, the names that are mapped to true are kept. The address of the API server,
-- which `ensureMAGAPIServer` finds once, the name of the temporary file and the result of
-- `oc login` come from outside.
use release_tests_ginkgo.Prelude.{Bool, false, Option, none, some, List, [], ◌∷◌}
use release_tests_ginkgo.Prelude.{◌==◌, elem, text_eq, if◌then◌else◌}
use release_tests_ginkgo.Prelude.Texts.{Text, null}
use release_tests_ginkgo.ApprovalGate.GroupName.{is_space, trim}

pub record Logins : Type 0 where
  pub kubeconfigs : List (Text × Text)
  pub dirty : List Text

-- `oc login` of a user with a kubeconfig.
abbrev pub Login : Type 0
Login = Text × Text

-- What happened: the state, the logins that succeeded, and the path that is returned, if the spec
-- goes on.
abbrev pub Effect : Type 0
Effect = Logins × List Login × Option Text

unfoldable pub lookup : Text → List (Text × Text) → Option Text
lookup user [] = none
lookup user ((u, path) ∷ m) = if u == user then some path else lookup user m

unfoldable pub assign : Text → Text → List (Text × Text) → List (Text × Text)
assign user path [] = (user, path) ∷ []
assign user path ((u, p) ∷ m) = if u == user then (user, path) ∷ m else (u, p) ∷ assign user path m

unfoldable pub remove : Text → List Text → List Text
remove user [] = []
remove user (u ∷ us) = let rest = remove user us in if u == user then rest else u ∷ rest

unfoldable pub mark_users_auth_dirty : List Text → Logins → Logins
mark_users_auth_dirty [] s = s
mark_users_auth_dirty (u ∷ us) s =
    let name = trim is_space u in
    mark_users_auth_dirty us
      (if null name then s else record { kubeconfigs = s.kubeconfigs; dirty = name ∷ s.dirty })

unfoldable pub pop_user_auth_dirty : Text → Logins → Bool × Logins
pop_user_auth_dirty user s =
    (elem user s.dirty, record { kubeconfigs = s.kubeconfigs; dirty = remove user s.dirty })

module _ (api_server : Option Text) (login : Text → Text → Bool) where
  -- `ensureMAGAPIServer` and the `oc login` after it, which end the spec where they fail.
  unfoldable pub succeeds : Text → Text → Bool
  succeeds user path = elim api_server [ none ↦ false | some server ↦ login user path ]

  -- The cached path: a dirty user logs in again.
  unfoldable pub reuse : Text → Text → Logins → Effect
  reuse user v s =
      let (was_dirty, s') = pop_user_auth_dirty user s in
      if was_dirty
      then (if succeeds user v then (s', (user, v) ∷ [], some v) else (s', [], none))
      else (s', [], some v)

  -- A new temporary file.
  unfoldable pub create : Text → Text → Logins → Effect
  create user path s =
      let stored : Logins = record {
        kubeconfigs = assign user path s.kubeconfigs;
        dirty = s.dirty;
      } in
      let (was_dirty, s') = pop_user_auth_dirty user stored in
      if succeeds user path then (s', (user, path) ∷ [], some path) else (s, [], none)

  unfoldable pub ensure_user_kubeconfig : Text → Text → Logins → Effect
  ensure_user_kubeconfig temp user s = elim (lookup user s.kubeconfigs) [
    | none ↦ create user temp s
    | some v ↦ if null (trim is_space v) then create user temp s else reuse user v s
  ]

unfoldable pub cleanup_user_kubeconfigs : Logins → Logins
cleanup_user_kubeconfigs s = record { kubeconfigs = []; dirty = [] }
