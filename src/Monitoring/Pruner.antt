-- ===== src/Monitoring/Pruner.antt =====
-- The switches of the TektonConfig in pkg/monitoring/mtls.go: `SetEnableMetricsMTLS`,
-- `GetEnableMetricsMTLS`, `SetTektonPrunerEnabled`, `GetTektonPrunerEnabled` and
-- `RestoreOriginalPrunerState`.
use mathlib.Core.Option.{some-injective, some-ne-none}
use release_tests_ginkgo.Prelude.{
  Bool, true, false, not, ◌≡◌, refl, sym, ap, ◌∙◌, Option, none, some, ◌↔◌,
}

-- The fields of the TektonConfig; nothing where one is not set.
pub record Switches : Type 0 where
  pub enable_metrics_mtls : Option Bool
  pub tektonpruner_disabled : Option Bool
  pub pruner_disabled : Option Bool

-- A merge patch succeeds or fails as a whole; the Boolean says which. The result is `err == nil`.
unfoldable pub set_enable_metrics_mtls : Bool → Bool → Switches → Bool × Switches
set_enable_metrics_mtls false enabled s = (false, s)
set_enable_metrics_mtls true enabled s = (
  true,
  record {
    enable_metrics_mtls = some enabled;
    tektonpruner_disabled = s.tektonpruner_disabled;
    pruner_disabled = s.pruner_disabled;
  },
)

-- `oc get` answers or fails.
unfoldable pub get_enable_metrics_mtls : Bool → Switches → Option Bool
get_enable_metrics_mtls false s = none
get_enable_metrics_mtls true s = s.enable_metrics_mtls

unfoldable pub set_tekton_pruner_enabled : Bool → Bool → Switches → Bool × Switches
set_tekton_pruner_enabled false enabled s = (false, s)
set_tekton_pruner_enabled true enabled s = (
  true,
  record {
    enable_metrics_mtls = s.enable_metrics_mtls;
    tektonpruner_disabled = some (not enabled);
    pruner_disabled = some enabled;
  },
)

unfoldable pub enabled_of : Option Bool → Option Bool
enabled_of none = none
enabled_of (some disabled) = some (not disabled)

unfoldable pub get_tekton_pruner_enabled : Bool → Switches → Option Bool
get_tekton_pruner_enabled false s = none
get_tekton_pruner_enabled true s = enabled_of s.tektonpruner_disabled

unfoldable pub or_false : Option Bool → Bool
or_false none = false
or_false (some b) = b

unfoldable pub restore_original_pruner_state : Bool → Option Bool → Switches → Bool × Switches
restore_original_pruner_state accepted original =
    set_tekton_pruner_enabled accepted (or_false original)

-- What the restoration, from the value that was read before, makes of the two fields after any
-- switch of the pruner in between.
abbrev pub restored : Switches → Bool → Switches
restored s enabled =
    (restore_original_pruner_state true (get_tekton_pruner_enabled true s)
      (set_tekton_pruner_enabled true enabled s).1).1

-- Exactly one of the two pruners is active.
abbrev pub Exclusive : Switches → Type 0
Exclusive s = (d : Bool) × (s.tektonpruner_disabled ≡ some d) × (s.pruner_disabled ≡ some (not d))

both_iff :
    (t p : Option Bool)
    → ((some (not (or_false (enabled_of t))) ≡ t) × (some (or_false (enabled_of t)) ≡ p))
      ↔ ((d : Bool) × (t ≡ some d) × (p ≡ some (not d)))
unfolding or_false enabled_of
both_iff none p =
    (λ h. absurd (some-ne-none _ h.0), λ (d, same, other). absurd (some-ne-none d (sym same)))
both_iff (some true) p = (
  λ h. (true, refl, sym h.1),
  λ (d, same, other). (refl, ap (λ b. some (not b)) (some-injective true d same) ∙ sym other),
)
both_iff (some false) p = (
  λ h. (false, refl, sym h.1),
  λ (d, same, other). (refl, ap (λ b. some (not b)) (some-injective false d same) ∙ sym other),
)

not-not : (b : Bool) → b ≡ not (not b)
not-not true = refl
not-not false = refl

-- `RestoreOriginalPrunerState` with the value that `GetTektonPrunerEnabled` gave before a switch of
-- the pruner: both fields have their values of before exactly where one of the two pruners was active
-- then and both fields were set; in any case one of the two is active.
pub restored_iff :
    (s : Switches) (enabled : Bool)
    → let t = restored s enabled in
      (((t.tektonpruner_disabled ≡ s.tektonpruner_disabled)
          × (t.pruner_disabled ≡ s.pruner_disabled))
        ↔ Exclusive s)
      × Exclusive t
unfolding set_tekton_pruner_enabled get_tekton_pruner_enabled restore_original_pruner_state
restored_iff s enabled =
    let was = or_false (enabled_of s.tektonpruner_disabled) in
    (both_iff s.tektonpruner_disabled s.pruner_disabled, (not was, refl, ap some (not-not was)))
