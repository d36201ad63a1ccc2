-- ===== src/ApprovalGate/Current.antt =====
-- A kubeconfig that is handed out belongs to a login after the last change of the user's groups.
use mathlib.Core.Path.{subst}
use release_tests_ginkgo.Prelude.{
  Bool, true, false, Option, none, some, List, [], ◌∷◌, ◌≡◌, ◌≢◌, ◌⊎◌,
}
use release_tests_ginkgo.Prelude.{
  inl, inr, refl, sym, ◌∙◌, arith, ◌==◌, elem, text_eq, if◌then◌else◌,
}
use release_tests_ginkgo.Prelude.{Bool-cases, Option-cases}
use release_tests_ginkgo.Prelude.Texts.{Text, null}
use release_tests_ginkgo.ApprovalGate.GroupName.{is_space, trim}
use release_tests_ginkgo.ApprovalGate.Logins.{Logins, Login, Effect, lookup, assign, remove}
use release_tests_ginkgo.ApprovalGate.Logins.{
  mark_users_auth_dirty, pop_user_auth_dirty, succeeds, reuse,
}
use release_tests_ginkgo.ApprovalGate.Logins.{create, ensure_user_kubeconfig}

-- What has happened, the last event first.
pub data Event : Type 0 where
  changed : Text → Event
  logged_in : Text → Text → Event

-- Of the events of the user, the last one is a login with that kubeconfig.
abbrev pub Current : Text → Text → List Event → Type 0
Current user v [] = ⊥
Current user v (changed u ∷ h) = (u ≢ user) × Current user v h
Current user v (logged_in u w ∷ h) = (u ≡ user) × (w ≡ v) ⊎ (u ≢ user) × Current user v h

-- The changes that `markUsersAuthDirty` is told of, and the logins of `ensureUserKubeconfig`.
abbrev pub changes : List Text → List Event → List Event
changes [] h = h
changes (u ∷ us) h =
    changes us (if null (trim is_space u) then h else changed (trim is_space u) ∷ h)

abbrev pub logins : List Login → List Event → List Event
logins [] h = h
logins ((user, v) ∷ ls) h = logins ls (logged_in user v ∷ h)

-- A cached kubeconfig is current unless its user is dirty.
abbrev pub IsFresh : Logins → List Event → Type 0
IsFresh s h =
    (user v : Text)
    → lookup user s.kubeconfigs ≡ some v
    → elem user s.dirty ≡ false
    → Current user v h

choose-IsFresh :
    (b : Bool) (s s' : Logins) (h h' : List Event)
    → IsFresh s h
    → IsFresh s' h'
    → IsFresh (if b then s else s') (if b then h else h')
choose-IsFresh true s s' h h' f f' = f
choose-IsFresh false s s' h h' f f' = f'

-- Marking the users whose groups change keeps every cached kubeconfig current or its user dirty.
pub mark_users_auth_dirty-IsFresh :
    (users : List Text) (s : Logins) (h : List Event)
    → IsFresh s h
    → IsFresh (mark_users_auth_dirty users s) (changes users h)
unfolding mark_users_auth_dirty
mark_users_auth_dirty-IsFresh [] s h fresh = fresh
mark_users_auth_dirty-IsFresh (u ∷ us) s h fresh =
    let name = trim is_space u in
    mark_users_auth_dirty-IsFresh us _ _ (
      choose-IsFresh (null name) s (record { kubeconfigs = s.kubeconfigs; dirty = name ∷ s.dirty })
        h (changed name ∷ h) fresh
        (λ user v cached clean. (ground arith, fresh user v cached (ground arith))))

lookup-assign :
    (user u path : Text) (m : List (Text × Text))
    → lookup user (assign u path m) ≡ (if u == user then some path else lookup user m)
unfolding lookup assign
lookup-assign user u path [] = refl
lookup-assign user u path ((j, w) ∷ m) = ground (arith, lookup-assign user u path m)

elem-remove : (user u : Text) (us : List Text) → u ≢ user → elem user (remove u us) ≡ elem user us
unfolding remove
elem-remove user u [] n = refl
elem-remove user u (x ∷ us) n = ground (arith, elem-remove user u us n)

-- The user is no longer dirty.
abbrev popped : Text → Logins → Logins
popped user s = record { kubeconfigs = s.kubeconfigs; dirty = remove user s.dirty }

popped-clean :
    (user : Text) (s : Logins) (h : List Event)
    → IsFresh s h
    → elem user s.dirty ≡ false
    → IsFresh (popped user s) h
popped-clean user s h fresh clean u v cached undirty = elim (text_eq.dec user u) [
  | yes e ↦ fresh u v cached (subst (λ x. elem x s.dirty ≡ false) e clean)
  | no n ↦ fresh u v cached (sym (elem-remove u user s.dirty n) ∙ undirty)
]

popped-logged_in :
    (user v : Text) (s : Logins) (h : List Event)
    → IsFresh s h
    → lookup user s.kubeconfigs ≡ some v
    → IsFresh (popped user s) (logged_in user v ∷ h)
popped-logged_in user v s h fresh there u w cached undirty = elim (text_eq.dec user u) [
  | yes e ↦ inl (e, ground arith)
  | no n ↦ inr (n, fresh u w cached (sym (elem-remove u user s.dirty n) ∙ undirty))
]

assigned-logged_in :
    (user v : Text) (s : Logins) (h : List Event)
    → IsFresh s h
    → IsFresh
        (popped user (record { kubeconfigs = assign user v s.kubeconfigs; dirty = s.dirty }))
        (logged_in user v ∷ h)
assigned-logged_in user v s h fresh u w cached undirty = elim (text_eq.dec user u) [
  | yes e ↦ inl (e, ground (arith, lookup-assign u user v s.kubeconfigs))
  | no n ↦ inr (
    n,
    fresh u w (ground (arith, lookup-assign u user v s.kubeconfigs))
        (sym (elem-remove u user s.dirty n) ∙ undirty),
  )
]

-- If a path is returned, it is current, and so is the cache.
abbrev pub IsKept : Text → Effect → List Event → Type 0
IsKept user (s, ls, path) h =
    (v : Text) → path ≡ some v → IsFresh s (logins ls h) × Current user v (logins ls h)

module _ (api_server : Option Text) (login : Text → Text → Bool) where
  reuse-IsKept :
      (user v : Text) (s : Logins) (h : List Event)
      → IsFresh s h
      → lookup user s.kubeconfigs ≡ some v
      → IsKept user (reuse api_server login user v s) h
  unfolding reuse pop_user_auth_dirty
  reuse-IsKept user v s h fresh there = elim (Bool-cases (elem user s.dirty)) [
    | inr clean ↦
        let same : reuse api_server login user v s ≡ (popped user s, [], some v) = rw clean refl in
        subst (λ e. IsKept user e h) (sym same)
          (λ w done. (popped-clean user s h fresh clean, fresh user w (there ∙ done) clean))
    | inl stale ↦ elim (Bool-cases (succeeds api_server login user v)) [
      | inl ok ↦
          let same : reuse api_server login user v s ≡ (popped user s, (user, v) ∷ [], some v) =
            rw stale (rw ok refl) in
          subst (λ e. IsKept user e h) (sym same)
            (λ w done. (popped-logged_in user v s h fresh there, inl (refl, ground arith)))
      | inr fails ↦
          let same : reuse api_server login user v s ≡ (popped user s, [], none) =
            rw stale (rw fails refl) in
          subst (λ e. IsKept user e h) (sym same) (λ w done. absurd (ground arith))
    ]
  ]

  create-IsKept :
      (user path : Text) (s : Logins) (h : List Event)
      → IsFresh s h
      → IsKept user (create api_server login user path s) h
  unfolding create pop_user_auth_dirty
  create-IsKept user path s h fresh = elim (Bool-cases (succeeds api_server login user path)) [
    | inl ok ↦
        let stored : Logins = record {
          kubeconfigs = assign user path s.kubeconfigs;
          dirty = s.dirty;
        } in
        let same : create api_server login user path s
            ≡ (popped user stored, (user, path) ∷ [], some path) =
          rw ok refl in
        subst (λ e. IsKept user e h) (sym same)
          (λ w done. (assigned-logged_in user path s h fresh, inl (refl, ground arith)))
    | inr fails ↦
        let same : create api_server login user path s ≡ (s, [], none) = rw fails refl in
        subst (λ e. IsKept user e h) (sym same) (λ w done. absurd (ground arith))
  ]

  -- A path that `ensureUserKubeconfig` returns belongs to a login of the user after which no
  -- change of the user's groups was reported, if the cache was current but for the dirty users;
  -- and then the cache stays so.
  pub ensure_user_kubeconfig-IsKept :
      (temp user : Text) (s : Logins) (h : List Event)
      → IsFresh s h
      → IsKept user (ensure_user_kubeconfig api_server login temp user s) h
  unfolding ensure_user_kubeconfig
  ensure_user_kubeconfig-IsKept temp user s h fresh =
      elim (Option-cases (lookup user s.kubeconfigs)) [
        | inl absent ↦
            let same : ensure_user_kubeconfig api_server login temp user s
                ≡ create api_server login user temp s =
              rw (absent, ensure_user_kubeconfig) refl in
            subst (λ e. IsKept user e h) (sym same) (create-IsKept user temp s h fresh)
        | inr (v, there) ↦ elim (Bool-cases (null (trim is_space v))) [
          | inl blank ↦
              let same : ensure_user_kubeconfig api_server login temp user s
                  ≡ create api_server login user temp s =
                rw (there, ensure_user_kubeconfig) (rw blank refl) in
              subst (λ e. IsKept user e h) (sym same) (create-IsKept user temp s h fresh)
          | inr named ↦
              let same : ensure_user_kubeconfig api_server login temp user s
                  ≡ reuse api_server login user v s =
                rw (there, ensure_user_kubeconfig) (rw named refl) in
              subst (λ e. IsKept user e h) (sym same) (reuse-IsKept user v s h fresh there)
        ]
      ]
