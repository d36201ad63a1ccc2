-- ===== src/Multicluster/Restore.antt =====
-- What the restoration of the TektonConfig in pkg/multicluster/multicluster.go gives back, and what
-- it does not.
use mathlib.Core.Path.{subst}
use mathlib.Core.Option.{some-ne-none}
use release_tests_ginkgo.Prelude.{
  arith, String, Bool, true, false, ◌≡◌, refl, sym, ap, ◌∙◌, Option, none, some, string_eq,
}
use release_tests_ginkgo.Kube.{
  Reply, reply, refused, Value, text, number, negative, flag, empty, item, field,
}
use release_tests_ginkgo.Kube.Retry.{Retries-none}
use release_tests_ginkgo.Kueue.Resources.{Failure, is_conflict, api, rejected, after, after-none}
use release_tests_ginkgo.Kueue.Resources.Scope.{value_at}
use release_tests_ginkgo.Multicluster.Config.{
  Tekton, Snapshot, nonempty, updated, snapshot_of, snapshot_tekton_config, put_latest, put_once,
  put_scheduler, network_policy_json, done, disabling, restore_network_policy_json, restore_gate,
  restore_tekton_config, remove_custom_policy_and_restore,
}

reply-injective : {A : Type 0} {a b : A} → reply a ≡ reply b → a ≡ b
reply-injective h = cc

module _ {W : Type 0} where
  done-none :
      (message : String) (x : Bool × W)
      → (done message x).0 ≡ none
      → (x.0 ≡ true) × ((done message x).1 ≡ x.1)
  done-none message (true, w) h = (refl, refl)
  done-none message (false, w) h = absurd (some-ne-none (rejected message) h)

  done-world : (message : String) (x : Bool × W) → (done message x).1 ≡ x.1
  done-world message (true, w) = refl
  done-world message (false, w) = refl

nonempty-flag :
    (k : String) (b : Bool) (p : Value) → value_at k p ≡ some (flag b) → nonempty (some p) ≡ some p
unfolding nonempty value_at
nonempty-flag k b empty h = absurd (some-ne-none (flag b) (sym h))
nonempty-flag k b (text t) h = refl
nonempty-flag k b (number n) h = refl
nonempty-flag k b (negative n) h = refl
nonempty-flag k b (flag c) h = refl
nonempty-flag k b (item v w) h = refl
nonempty-flag k b (field j v w) h = refl

module _ {W C S : Type 0} (tekton : Tekton W C S) where
  put_latest-stored :
      (s : S) (x : Reply C) (w : W)
      → (put_latest tekton s x w).0 ≡ none
      → tekton.stored_scheduler (put_latest tekton s x w).1 ≡ s
  unfolding put_latest
  put_latest-stored s (refused e) w h = absurd (some-ne-none (api e) h)
  put_latest-stored s (reply c) w h =
      judge (tekton.update_config (tekton.set_scheduler s c) w).0 refl h
    where
      judge :
          (y : Reply C)
          → (tekton.update_config (tekton.set_scheduler s c) w).0 ≡ y
          → (updated (y, (tekton.update_config (tekton.set_scheduler s c) w).1)).0 ≡ none
          → tekton.stored_scheduler (updated (tekton.update_config (tekton.set_scheduler s c) w)).1
            ≡ s
      judge (refused e) same g = absurd (some-ne-none (api e) g)
      judge (reply d) same g =
          ap
            (λ y.
              tekton.stored_scheduler
                (updated (y, (tekton.update_config (tekton.set_scheduler s c) w).1)).1)
            same
          ∙ tekton.update_stored (tekton.set_scheduler s c) d w same
          ∙ tekton.set_read s c

  put_scheduler-stored :
      (s : S) (w : W)
      → (put_scheduler tekton s w).0 ≡ none
      → tekton.stored_scheduler (put_scheduler tekton s w).1 ≡ s
  unfolding put_scheduler put_once
  put_scheduler-stored s w =
      Retries-none tekton.pause is_conflict (λ v. tekton.stored_scheduler v ≡ s) (put_once tekton s)
        (λ v. put_latest-stored s (tekton.get_config v) v)
        (tekton.retrier.retry_retries (put_once tekton s) w)

  -- What a snapshot says of the state that it was taken in.
  snapshot_of-stored :
      (s : Snapshot S) (x : Reply C) (w : W)
      → tekton.get_config w ≡ x
      → (y : Reply (Option Value)) → tekton.policy w ≡ y
      → snapshot_of tekton x
          (elim y [ reply p ↦ reply (nonempty p) | refused e ↦ refused e ])
          (tekton.gate w)
        ≡ reply s
      → (s.scheduler ≡ tekton.stored_scheduler w) × (s.policy ≡ nonempty (tekton.stored_policy w))
  unfolding snapshot_of
  snapshot_of-stored s (refused e) w got y read h = absurd (ground arith)
  snapshot_of-stored s (reply c) w got (refused e) read h = absurd (ground arith)
  snapshot_of-stored s (reply c) w got (reply p) read h =
      let same = reply-injective h in
      (
        ap (λ t. t.scheduler) (sym same) ∙ sym (tekton.config_stored w c got),
        ap (λ t. t.policy) (sym same) ∙ ap nonempty (sym (tekton.policy_stored w p read)),
      )

  restore-scheduler :
      (p : Option Value) (w : W)
      → tekton.stored_scheduler (restore_network_policy_json tekton p w).1
        ≡ tekton.stored_scheduler w
  unfolding restore_network_policy_json
  restore-scheduler none w =
      ap tekton.stored_scheduler (done-world _ (tekton.remove w)) ∙ tekton.remove_scheduler w
  restore-scheduler (some v) w =
      ap tekton.stored_scheduler (done-world _ (tekton.patch v w)) ∙ tekton.patch_scheduler v w

  restore-absent :
      (w : W)
      → (restore_network_policy_json tekton none w).0 ≡ none
      → tekton.stored_policy (restore_network_policy_json tekton none w).1 ≡ none
  unfolding restore_network_policy_json
  restore-absent w h =
      let (ok, same) = done-none _ (tekton.remove w) h in
      ap tekton.stored_policy same ∙ tekton.remove_policy w ok

  gate-scheduler :
      (t : Option _) (w : W)
      → tekton.stored_scheduler (restore_gate tekton t w).1 ≡ tekton.stored_scheduler w
  unfolding restore_gate
  gate-scheduler none w = refl
  gate-scheduler (some t) w =
      ap tekton.stored_scheduler (done-world _ (tekton.patch_gate _ w)) ∙ tekton.gate_scheduler _ w

  gate-policy :
      (t : Option _) (w : W)
      → tekton.stored_policy (restore_gate tekton t w).1 ≡ tekton.stored_policy w
  unfolding restore_gate
  gate-policy none w = refl
  gate-policy (some t) w =
      ap tekton.stored_policy (done-world _ (tekton.patch_gate _ w)) ∙ tekton.gate_policy _ w

  -- The policy has a flag.
  abbrev pub Flagged : String → Bool → W → Type 0
  Flagged k b w = (p : Value) × (tekton.stored_policy w ≡ some p) × (value_at k p ≡ some (flag b))

  Flagged-same :
      (k : String) (b : Bool) (w v : W)
      → tekton.stored_policy v ≡ tekton.stored_policy w
      → Flagged k b w
      → Flagged k b v
  Flagged-same k b w v same (p, stored, set) = (p, same ∙ stored, set)

  restore-Flagged :
      (k : String) (b : Bool) (v : Value) (w : W)
      → value_at k v ≡ some (flag b)
      → (restore_network_policy_json tekton (some v) w).0 ≡ none
      → Flagged k b (restore_network_policy_json tekton (some v) w).1
  unfolding restore_network_policy_json
  restore-Flagged k b v w set h =
      let (ok, same) = done-none _ (tekton.patch v w) h in
      Flagged-same k b _ _ (ap tekton.stored_policy same) (tekton.patch_sets v w k b ok set)

  -- What `restoreTektonConfig` goes through where it returns nil: the state after the scheduler was
  -- put, where the policy is restored next; the rest changes neither.
  restore_tekton_config-steps :
      (s : Snapshot S) (w : W)
      → (restore_tekton_config tekton (some s) w).0 ≡ none
      → (v : W) × (tekton.stored_scheduler v ≡ s.scheduler)
        × ((restore_network_policy_json tekton s.policy v).0 ≡ none)
        × (tekton.stored_scheduler (restore_tekton_config tekton (some s) w).1
            ≡ tekton.stored_scheduler v)
        × (tekton.stored_policy (restore_tekton_config tekton (some s) w).1
            ≡ tekton.stored_policy (restore_network_policy_json tekton s.policy v).1)
  unfolding restore_tekton_config
  restore_tekton_config-steps s w h =
      let x1 = put_scheduler tekton s.scheduler w in
      let rest : W → Option Failure × W = λ v.
        after (restore_network_policy_json tekton s.policy v)
          λ u. restore_gate tekton s.gate (tekton.settle u) in
      let (put, same1) = after-none x1 rest h in
      let h2 : (rest x1.1).0 ≡ none = ap (λ r. r.0) (sym same1) ∙ h in
      let x2 = restore_network_policy_json tekton s.policy x1.1 in
      let (back, same2) = after-none x2 (λ u. restore_gate tekton s.gate (tekton.settle u)) h2 in
      let end = ap (λ r. r.1) same1 ∙ ap (λ r. r.1) same2 in
      (
        x1.1,
        put_scheduler-stored s.scheduler w put,
        back,
        ap tekton.stored_scheduler end
            ∙ gate-scheduler s.gate (tekton.settle x2.1)
            ∙ tekton.settle_scheduler x2.1
            ∙ restore-scheduler s.policy x1.1,
        ap tekton.stored_policy end
            ∙ gate-policy s.gate (tekton.settle x2.1)
            ∙ tekton.settle_policy x2.1,
      )

  -- Let `snapshotTektonConfig` have recorded a snapshot in the state `u`. Whatever happened since, if
  -- `restoreTektonConfig` returns nil, the scheduler is what it was in `u`; where there was no
  -- `spec.networkPolicy` in `u`, or an empty one, there is none, and each flag of the one in `u` is
  -- set as it was.
  pub snapshot_tekton_config-restore_tekton_config :
      (u w : W) (s : Snapshot S)
      → snapshot_tekton_config tekton u ≡ reply s
      → let x = restore_tekton_config tekton (some s) w in
        x.0 ≡ none
        → (tekton.stored_scheduler x.1 ≡ tekton.stored_scheduler u)
          × (nonempty (tekton.stored_policy u) ≡ none → tekton.stored_policy x.1 ≡ none)
          × ((k : String) (b : Bool) → Flagged k b u → Flagged k b x.1)
  unfolding snapshot_tekton_config network_policy_json
  snapshot_tekton_config-restore_tekton_config u w s taken h =
      let (scheduler, policy) =
        snapshot_of-stored s (tekton.get_config u) u refl (tekton.policy u) refl taken in
      let (v, put, back, same, same') = restore_tekton_config-steps s w h in
      (
        same ∙ put ∙ scheduler,
        λ absent.
            same'
            ∙ subst
                (λ p.
                  (restore_network_policy_json tekton p v).0 ≡ none
                  → tekton.stored_policy (restore_network_policy_json tekton p v).1 ≡ none)
                (sym (policy ∙ absent)) (restore-absent v) back,
        λ k b (p, stored, set).
            let recorded : s.policy ≡ some p =
              policy ∙ ap nonempty stored ∙ nonempty-flag k b p set in
            Flagged-same k b _ _ same' (
              subst
                (λ q.
                  (restore_network_policy_json tekton q v).0 ≡ none
                  → Flagged k b (restore_network_policy_json tekton q v).1)
                (sym recorded) (restore-Flagged k b p v set) back),
      )

  -- The policy is there, and it is disabled.
  abbrev pub Disabled : W → Type 0
  Disabled w =
      (p : Value) × (tekton.stored_policy w ≡ some p) × (value_at "disabled" p ≡ some (flag true))

  Disabled-same :
      (w v : W) → tekton.stored_policy v ≡ tekton.stored_policy w → Disabled w → Disabled v
  Disabled-same w v same (p, stored, disabled) = (p, same ∙ stored, disabled)

  disabling-Disabled :
      (w : W)
      → (done "disable NetworkPolicy" (tekton.patch disabling w)).0 ≡ none
      → Disabled (done "disable NetworkPolicy" (tekton.patch disabling w)).1
  disabling-Disabled w h =
      let (ok, same) = done-none _ (tekton.patch disabling w) h in
      Disabled-same _ _ (ap tekton.stored_policy same)
        (tekton.patch_sets disabling w "disabled" true ok (unfold value_at string_eq in refl))

  restore-Disabled :
      (v : Value) (w : W)
      → value_at "disabled" v ≡ none
      → Disabled w
      → (restore_network_policy_json tekton (some v) w).0 ≡ none
      → Disabled (restore_network_policy_json tekton (some v) w).1
  unfolding restore_network_policy_json
  restore-Disabled v w unset (p, stored, disabled) h =
      let (ok, same) = done-none _ (tekton.patch v w) h in
      let (q, stored', value) = tekton.patch_leaves v p w "disabled" ok unset stored in
      (q, ap tekton.stored_policy same ∙ stored', value ∙ disabled)

  -- Where the original `spec.networkPolicy` is there and does not say whether it is disabled, it is
  -- disabled after `RemoveCustomPolicyAndRestore` has returned nil: the merge of the original leaves
  -- the value that the function had set before. The check of the absence only reads.
  pub remove_custom_policy_and_restore-Disabled :
      (absent : W → Option Failure × W) (v : Value) (w : W)
      → ((u : W) → tekton.stored_policy (absent u).1 ≡ tekton.stored_policy u)
      → value_at "disabled" v ≡ none
      → let x = remove_custom_policy_and_restore tekton absent (some v) w in
        x.0 ≡ none → Disabled x.1
  unfolding remove_custom_policy_and_restore
  remove_custom_policy_and_restore-Disabled absent v w reads unset h =
      let x1 = done "disable NetworkPolicy" (tekton.patch disabling w) in
      let f3 : W → Option Failure × W = λ u. absent (tekton.settle u) in
      let f2 : W → Option Failure × W =
        λ u. after (restore_network_policy_json tekton (some v) u) f3 in
      let f1 : W → Option Failure × W = λ u. after (absent (tekton.settle u)) f2 in
      let (ok1, same1) = after-none x1 f1 h in
      let h1 : (f1 x1.1).0 ≡ none = ap (λ r. r.0) (sym same1) ∙ h in
      let x2 = absent (tekton.settle x1.1) in
      let (ok2, same2) = after-none x2 f2 h1 in
      let h2 : (f2 x2.1).0 ≡ none = ap (λ r. r.0) (sym same2) ∙ h1 in
      let x3 = restore_network_policy_json tekton (some v) x2.1 in
      let (ok3, same3) = after-none x3 f3 h2 in
      let d1 : Disabled x1.1 = disabling-Disabled w ok1 in
      let d2 : Disabled x2.1 =
        Disabled-same x1.1 x2.1 (reads (tekton.settle x1.1) ∙ tekton.settle_policy x1.1) d1 in
      let d3 : Disabled x3.1 = restore-Disabled v x2.1 unset d2 ok3 in
      let d4 : Disabled (f3 x3.1).1 =
        Disabled-same x3.1 (f3 x3.1).1 (reads (tekton.settle x3.1) ∙ tekton.settle_policy x3.1)
          d3 in
      subst Disabled (sym (ap (λ r. r.1) same1 ∙ ap (λ r. r.1) same2 ∙ ap (λ r. r.1) same3)) d4
