-- ===== src/Multicluster/Config.antt =====
-- The TektonConfig in pkg/multicluster/multicluster.go: `networkPolicyJSON`, `snapshotTektonConfig`,
-- `restoreNetworkPolicyJSON`, `restoreTektonConfig`, `EnsureCustomPolicy` and
-- `RemoveCustomPolicyAndRestore`. The texts of error messages are not kept.
use release_tests_ginkgo.Prelude.{
  String, Bool, true, false, ◌≡◌, Option, none, some, [], ◌∷◌, if◌then◌else◌,
}
use release_tests_ginkgo.Prelude.Texts.{Text, codes, null}
use release_tests_ginkgo.Kube.{Reply, reply, refused, Value, empty, flag}
use release_tests_ginkgo.Kube.Retry.{Retrier}
use release_tests_ginkgo.Kueue.Resources.{Failure, is_conflict, api, rejected, after}
use release_tests_ginkgo.Kueue.Resources.Bodies.{fields}
use release_tests_ginkgo.Kueue.Resources.Scope.{value_at}

-- The calls of the operator's client and of `oc` on the TektonConfig `config`, for a type `C` of
-- TektonConfigs and a type `S` of scheduler objects. `patch` is `oc patch --type=merge` of `spec.networkPolicy`; it follows RFC 7386,
-- so that it leaves what the patch does not name.
pub record Tekton (W C S : Type 0) : Type 0 where
  pub get_config : W → Reply C
  pub update_config : C → W → Reply C × W
  -- the field `Spec.Scheduler`, and an assignment to it
  pub scheduler_of : C → S
  pub set_scheduler : S → C → C
  pub pause : W → W
  pub retrier : Retrier pause is_conflict
  pub policy : W → Reply (Option Value)
  pub patch : Value → W → Bool × W
  -- `oc patch --type=json` that removes `spec.networkPolicy`
  pub remove : W → Bool × W
  -- `EnsureTektonConfigStatusInstalled`
  pub settle : W → W
  -- `spec.networkPolicy.disabled` of the ManualApprovalGate, where `oc get` succeeds
  pub gate : W → Option Text
  pub patch_gate : Text → W → Bool × W
  pub stored_scheduler : W → S
  pub stored_policy : W → Option Value
  pub policy_stored : (w : W) (p : Option Value) → policy w ≡ reply p → stored_policy w ≡ p
  pub config_stored : (w : W) (c : C) → get_config w ≡ reply c → stored_scheduler w ≡ scheduler_of c
  -- an update that is accepted stores what it sends
  pub update_stored :
      (c d : C) (w : W)
      → (update_config c w).0 ≡ reply d
      → stored_scheduler (update_config c w).1 ≡ scheduler_of c
  pub set_read : (s : S) (c : C) → scheduler_of (set_scheduler s c) ≡ s
  pub patch_scheduler : (v : Value) (w : W) → stored_scheduler (patch v w).1 ≡ stored_scheduler w
  pub remove_scheduler : (w : W) → stored_scheduler (remove w).1 ≡ stored_scheduler w
  pub settle_scheduler : (w : W) → stored_scheduler (settle w) ≡ stored_scheduler w
  pub gate_scheduler : (t : Text) (w : W) → stored_scheduler (patch_gate t w).1 ≡ stored_scheduler w
  pub remove_policy : (w : W) → (remove w).0 ≡ true → stored_policy (remove w).1 ≡ none
  pub settle_policy : (w : W) → stored_policy (settle w) ≡ stored_policy w
  pub gate_policy : (t : Text) (w : W) → stored_policy (patch_gate t w).1 ≡ stored_policy w
  -- a patch that is accepted sets the plain values that it names
  pub patch_sets :
      (v : Value) (w : W) (k : String) (b : Bool)
      → (patch v w).0 ≡ true
      → value_at k v ≡ some (flag b)
      → (p : Value) × (stored_policy (patch v w).1 ≡ some p) × (value_at k p ≡ some (flag b))
  -- and leaves the keys that it does not name
  pub patch_leaves :
      (v p : Value) (w : W) (k : String)
      → (patch v w).0 ≡ true
      → value_at k v ≡ none
      → stored_policy w ≡ some p
      → (q : Value) × (stored_policy (patch v w).1 ≡ some q) × (value_at k q ≡ value_at k p)

-- `!found || len(np) == 0`
unfoldable pub nonempty : Option Value → Option Value
nonempty none = none
nonempty (some empty) = none
nonempty (some v) = some v

-- What `snapshotTektonConfig` records.
pub record Snapshot (S : Type 0) : Type 0 where
  pub scheduler : S
  pub policy : Option Value
  pub gate : Option Text

abbrev pub done : {W : Type 0} → String → Bool × W → Option Failure × W
done message (true, w) = (none, w)
done message (false, w) = (some (rejected message), w)

-- `{"disabled":true}`
abbrev pub disabling : Value
disabling = fields (("disabled", flag true) ∷ [])

abbrev pub updated : {W C : Type 0} → Reply C × W → Option Failure × W
updated (reply c, w) = (none, w)
updated (refused e, w) = (some (api e), w)

module _ {W C S : Type 0} (tekton : Tekton W C S) where
  unfoldable pub network_policy_json : W → Reply (Option Value)
  network_policy_json w = elim (tekton.policy w) [
    | reply p ↦ reply (nonempty p)
    | refused e ↦ refused e
  ]

  unfoldable pub snapshot_of : Reply C → Reply (Option Value) → Option Text → Reply (Snapshot S)
  snapshot_of (refused e) p gate = refused e
  snapshot_of (reply c) (refused e) gate = refused e
  snapshot_of (reply c) (reply p) gate =
      reply (record { scheduler = tekton.scheduler_of c; policy = p; gate = gate })

  unfoldable pub snapshot_tekton_config : W → Reply (Snapshot S)
  snapshot_tekton_config w =
      snapshot_of (tekton.get_config w) (network_policy_json w) (tekton.gate w)

  -- The closure that `restoreTektonConfig` retries, from the answer of `Get` on.
  unfoldable pub put_latest : S → Reply C → W → Option Failure × W
  put_latest s (refused e) w = (some (api e), w)
  put_latest s (reply latest) w = updated (tekton.update_config (tekton.set_scheduler s latest) w)

  unfoldable pub put_once : S → W → Option Failure × W
  put_once s w = put_latest s (tekton.get_config w) w

  unfoldable pub put_scheduler : S → W → Option Failure × W
  put_scheduler s = tekton.retrier.retry (put_once s)

  -- An empty snapshot means that the field was absent.
  unfoldable pub restore_network_policy_json : Option Value → W → Option Failure × W
  restore_network_policy_json none w = done "remove spec.networkPolicy" (tekton.remove w)
  restore_network_policy_json (some v) w = done "restore spec.networkPolicy" (tekton.patch v w)

  unfoldable pub restore_gate : Option Text → W → Option Failure × W
  restore_gate none w = (none, w)
  restore_gate (some disabled) w =
      let value = if null disabled then codes "false" else disabled in
      done "restore ManualApprovalGate networkPolicy" (tekton.patch_gate value w)

  -- `origScheduler == nil` stands for a run without a snapshot.
  unfoldable pub restore_tekton_config : Option (Snapshot S) → W → Option Failure × W
  restore_tekton_config none w = (some (rejected "no TektonConfig snapshot to restore"), w)
  restore_tekton_config (some s) w = after (put_scheduler s.scheduler w) λ w1.
      after (restore_network_policy_json s.policy w1) λ w2. restore_gate s.gate (tekton.settle w2)

  -- `absent` is `AssertCustomPolicyAbsent` for the name of the policy.
  unfoldable pub remove_custom_policy_and_restore :
      (W → Option Failure × W) → Option Value → W → Option Failure × W
  remove_custom_policy_and_restore absent orig w =
      after (done "disable NetworkPolicy" (tekton.patch disabling w)) λ w1.
        after (absent (tekton.settle w1))
          λ w2. after (restore_network_policy_json orig w2) λ w3. absent (tekton.settle w3)
