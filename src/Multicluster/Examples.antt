-- ===== src/Multicluster/Examples.antt =====
-- A TektonConfig in memory: its scheduler is a number, and a patch goes over what is there.
use mathlib.Core.Option.{some-ne-none}
use release_tests_ginkgo.Prelude.{
  Bool, false, ℕ, String, true, ◌≡◌, refl, Option, none, some, ap, arith, ◌==◌, string_eq, inl, inr,
  Bool-cases, if◌then◌else◌, ◌∙◌,
}
use release_tests_ginkgo.Kube.{reply, Value, text, number, negative, flag, empty, item, field}
use release_tests_ginkgo.Kube.Retry.{bounded_retry, retry_bounded}
use release_tests_ginkgo.Kueue.Resources.{Failure, is_conflict}
use release_tests_ginkgo.Kueue.Resources.Scope.{value_at}
use release_tests_ginkgo.Multicluster.Config.{
  Tekton, Snapshot, nonempty, snapshot_of, snapshot_tekton_config, network_policy_json, put_latest,
  put_once, put_scheduler, restore_network_policy_json, restore_gate, restore_tekton_config,
  remove_custom_policy_and_restore,
}
use release_tests_ginkgo.Multicluster.Restore.{
  Disabled, Flagged, snapshot_tekton_config-restore_tekton_config,
  remove_custom_policy_and_restore-Disabled,
}

unfoldable over : Value → Value → Value
over (field k v rest) p = field k v (over rest p)
over v p = p

over-sets : (k : String) (v p x : Value) → value_at k v ≡ some x → value_at k (over v p) ≡ some x
unfolding over value_at
over-sets k (field j v rest) p x h =
    let read : (if j == k then some v else value_at k rest) ≡ some x = h in
    elim (Bool-cases (j == k)) [
      | inl same ↦ rw same (rw same at read)
      | inr differ ↦ rw differ (over-sets k rest p x (rw differ at read))
    ]
over-sets k (text t) p x h = absurd (ground arith)
over-sets k (number n) p x h = absurd (ground arith)
over-sets k (negative n) p x h = absurd (ground arith)
over-sets k (flag b) p x h = absurd (ground arith)
over-sets k empty p x h = absurd (ground arith)
over-sets k (item v w) p x h = absurd (ground arith)

over-leaves :
    (k : String) (v p : Value) → value_at k v ≡ none → value_at k (over v p) ≡ value_at k p
unfolding over value_at
over-leaves k (field j v rest) p h =
    let read : (if j == k then some v else value_at k rest) ≡ none = h in
    elim (Bool-cases (j == k)) [
      | inl same ↦ absurd (some-ne-none v (rw same at read))
      | inr differ ↦ rw differ (over-leaves k rest p (rw differ at read))
    ]
over-leaves k (text t) p h = refl
over-leaves k (number n) p h = refl
over-leaves k (negative n) p h = refl
over-leaves k (flag b) p h = refl
over-leaves k empty p h = refl
over-leaves k (item v w) p h = refl

abbrev State : Type 0
State = ℕ × Option Value

abbrev fields_of : Option Value → Value
fields_of none = empty
fields_of (some v) = v

abbrev patched : Value → State → State
patched v (s, p) = (s, some (over v (fields_of p)))

reply-injective : {A : Type 0} {a b : A} → reply a ≡ reply b → a ≡ b
reply-injective h = cc

abbrev tekton : Tekton State ℕ ℕ
tekton = record {
  get_config = λ w. reply w.0;
  update_config = λ c w. (reply c, (c, w.1));
  scheduler_of = λ c. c;
  set_scheduler = λ s c. s;
  pause = λ w. w;
  retrier = bounded_retry (λ w. w) is_conflict 3;
  policy = λ w. reply w.1;
  patch = λ v w. (true, patched v w);
  remove = λ w. (true, (w.0, none));
  settle = λ w. w;
  gate = λ w. none;
  patch_gate = λ t w. (true, w);
  stored_scheduler = λ w. w.0;
  stored_policy = λ w. w.1;
  policy_stored = λ w p. reply-injective;
  config_stored = λ w c. reply-injective;
  update_stored = λ c d w h. refl;
  set_read = λ s c. refl;
  patch_scheduler = λ v w. refl;
  remove_scheduler = λ w. refl;
  settle_scheduler = λ w. refl;
  gate_scheduler = λ t w. refl;
  remove_policy = λ w h. refl;
  settle_policy = λ w. refl;
  gate_policy = λ t w. refl;
  patch_sets =
      λ v w k b h e. (over v (fields_of w.1), refl, over-sets k v (fields_of w.1) (flag b) e);
  patch_leaves = λ v p w k h e stored. (
    over v (fields_of w.1),
    refl,
    over-leaves k v (fields_of w.1) e ∙ ap (λ x. value_at k (fields_of x)) stored,
  );
}

abbrev original : Value
original = field "policies" (field "mine" empty empty) empty

abbrev flagged : Value
flagged = field "disabled" (flag false) empty

abbrev recorded : Snapshot ℕ
recorded = record { scheduler = 7; policy = some flagged; gate = none }

-- The scheduler was changed and the policy disabled since the snapshot.
snapshot_tekton_config-restore_tekton_config_example :
    let x =
      restore_tekton_config tekton (some recorded) (0, some (field "disabled" (flag true) empty)) in
    (x.1.0 ≡ 7)
    × (nonempty (some flagged) ≡ none → x.1.1 ≡ none)
    × ((k : String) (b : Bool) → Flagged tekton k b (7, some flagged) → Flagged tekton k b x.1)
snapshot_tekton_config-restore_tekton_config_example =
    snapshot_tekton_config-restore_tekton_config tekton (7, some flagged)
      (0, some (field "disabled" (flag true) empty)) recorded
      (unfold snapshot_tekton_config snapshot_of network_policy_json nonempty in refl)
      (unfold restore_tekton_config put_scheduler put_once put_latest restore_network_policy_json
          restore_gate retry_bounded in
        refl)

abbrev is_absent : State → Option Failure × State
is_absent w = (none, w)

remove_custom_policy_and_restore-Disabled_example :
    Disabled tekton
      (remove_custom_policy_and_restore tekton is_absent (some original) (7, some original)).1
remove_custom_policy_and_restore-Disabled_example =
    remove_custom_policy_and_restore-Disabled tekton is_absent original (7, some original)
      (λ u. refl) (unfold value_at string_eq in refl)
      (unfold remove_custom_policy_and_restore restore_network_policy_json in refl)
