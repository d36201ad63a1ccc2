-- ===== src/Monitoring.antt =====
-- The checks of mutual TLS on metrics in pkg/monitoring/mtls.go. The API and `oc` are seen through
-- their answers. The texts of error messages are not kept.
pub mod Pods
pub mod Pruner
pub mod Verdicts
pub mod Accepted
mod Tests
use release_tests_ginkgo.Prelude.{
  ℕ, zero, suc, String, Bool, true, false, ◌&&◌, ◌||◌, Option, none, some, List, [], ◌∷◌, ◌++◌,
  ◌==◌, string_eq, text_eq, if◌then◌else◌,
}
use release_tests_ginkgo.Prelude.Texts.{Text, codes, null, eqb, has_prefix, contains, leb}
use release_tests_ginkgo.Prelude.Lists.{length}
use release_tests_ginkgo.Poll.{Verdict, Condition, Outcome, success, stopped, timed_out, Poller}
use release_tests_ginkgo.Kube.{ApiError, Reply, reply, refused, Value, item, field, empty, text}
use release_tests_ginkgo.Kueue.Resources.Scope.{value_at, text_of}

-- `MTLSComponentConfig`, less the names that only go into messages.
pub record Component : Type 0 where
  pub service_name : Text
  pub namespace : Text
  pub http_port_name : String
  pub https_port_name : String

pub record Port : Type 0 where
  pub name : String
  pub port : ℕ

pub record Service : Type 0 where
  pub ports : List Port
  pub annotations : List (String × Text)
  pub selector : List (String × Text)

pub data Volume : Type 0 where
  secret : Text → Volume
  config_map : Text → Volume
  other_volume : Volume

pub record Container : Type 0 where
  pub env : List Text

pub record Pod : Type 0 where
  pub running : Bool
  pub containers : List Container
  pub volumes : List Volume

pub data MtlsError : Type 0 where
  api : ApiError → MtlsError
  no_port : MtlsError
  no_annotation : MtlsError
  annotated : Text → MtlsError
  no_data : MtlsError
  no_selector : MtlsError
  no_pods : MtlsError
  no_env : MtlsError
  unexpected_env : Text → MtlsError
  no_cert_volume : MtlsError
  no_ca_volume : MtlsError
  bad_path : MtlsError
  bad_scheme : Text → MtlsError
  bad_server_name : Text → MtlsError
  stale_tls : MtlsError
  stuck_sets : List (Text × Text) → MtlsError

-- `pollUntilNoError`: the closure, over the state of the clusters and `lastErr`.
module _ {W E : Type 0} where
  unfoldable pub no_error_verdict : Option E × W → Option E → Verdict E × (W × Option E)
  no_error_verdict (none, w) last = ((true, none), (w, last))
  no_error_verdict (some e, w) last = ((false, none), (w, some e))

  unfoldable pub no_error_condition : (W → Option E × W) → Condition (W × Option E) E
  no_error_condition fn (w, last) = no_error_verdict (fn w) last

  -- `expired` is the error of the context, which is returned where there is no other.
  unfoldable pub after_no_error : E → Outcome E × (W × Option E) → Option E
  after_no_error expired (success, s) = none
  after_no_error expired (outcome, (w, some e)) = some e
  after_no_error expired (stopped e, (w, none)) = some e
  after_no_error expired (timed_out, (w, none)) = some expired

  unfoldable pub poll_until_no_error :
      (W → Option E × W) → Poller (W × Option E) E → E → W → Option E
  poll_until_no_error fn poller expired w =
      after_no_error expired (poller.poll (no_error_condition fn) (w, none))

unfoldable pub serving_cert_annotation : String
serving_cert_annotation = "service.beta.openshift.io/serving-cert-secret-name"

unfoldable pub has_port : String → List Port → Bool
has_port name [] = false
has_port name (p ∷ ps) = p.name == name || has_port name ps

unfoldable pub annotation : String → List (String × Text) → Option Text
annotation k [] = none
annotation k ((j, v) ∷ rest) = let others = annotation k rest in if j == k then some v else others

-- The Secret that the annotation names must have data.
unfoldable pub check_secret : Reply ℕ → Option MtlsError
check_secret (refused e) = some (api e)
check_secret (reply zero) = some no_data
check_secret (reply (suc n)) = none

-- `!ok || secretName == ""`
unfoldable pub named : Option Text → Option Text
named none = none
named (some s) = if null s then none else some s

unfoldable pub check_annotated : (Text → Reply ℕ) → Option Text → Option MtlsError
check_annotated secrets none = some no_annotation
check_annotated secrets (some name) = check_secret (secrets name)

unfoldable pub check_service_mtls_enabled :
    Component → (Text → Reply ℕ) → Reply Service → Option MtlsError
check_service_mtls_enabled cfg secrets (refused e) = some (api e)
check_service_mtls_enabled cfg secrets (reply svc) =
    if has_port cfg.https_port_name svc.ports
    then check_annotated secrets (named (annotation serving_cert_annotation svc.annotations))
    else some no_port

unfoldable pub check_unannotated : Option Text → Option MtlsError
check_unannotated none = none
check_unannotated (some name) = some (annotated name)

unfoldable pub check_service_mtls_disabled : Component → Reply Service → Option MtlsError
check_service_mtls_disabled cfg (refused e) = some (api e)
check_service_mtls_disabled cfg (reply svc) =
    if has_port cfg.http_port_name svc.ports
    then check_unannotated (named (annotation serving_cert_annotation svc.annotations))
    else some no_port

-- `jsonPath`
unfoldable pub json_path : Value → List String → Option Value
json_path v [] = some v
json_path v (k ∷ ks) = elim (value_at k v) [ some u ↦ json_path u ks | none ↦ none ]

-- The first item, if it is a map; an empty list, which has the same value as an empty map, is read
-- as one.
unfoldable pub first_endpoint : Option Value → Option Value
first_endpoint (some (item (field k v rest) others)) = some (field k v rest)
first_endpoint (some (item empty others)) = some empty
first_endpoint v = none

-- `getServiceMonitorFirstEndpoint`, on the decoded ServiceMonitor.
unfoldable pub service_monitor_first_endpoint : Reply Value → Option Value
service_monitor_first_endpoint (refused e) = none
service_monitor_first_endpoint (reply sm) =
    first_endpoint (json_path sm ("spec" ∷ "endpoints" ∷ []))

unfoldable pub check_tls_config : Component → Option Value → Option MtlsError
check_tls_config cfg none = some bad_path
check_tls_config cfg (some tls) =
    let expected = cfg.service_name ++ (codes "." ++ (cfg.namespace ++ codes ".svc")) in
    let server_name = text_of (value_at "serverName" tls) in
    if server_name == expected then none else some (bad_server_name server_name)

unfoldable pub check_enabled_endpoint : Component → Option Value → Option MtlsError
check_enabled_endpoint cfg none = some bad_path
check_enabled_endpoint cfg (some ep) =
    let scheme = text_of (value_at "scheme" ep) in
    if scheme == codes "https"
    then check_tls_config cfg (value_at "tlsConfig" ep)
    else some (bad_scheme scheme)

unfoldable pub check_service_monitor_mtls_enabled : Component → Reply Value → Option MtlsError
check_service_monitor_mtls_enabled cfg sm =
    check_enabled_endpoint cfg (service_monitor_first_endpoint sm)

unfoldable pub check_disabled_endpoint : Option Value → Option MtlsError
check_disabled_endpoint none = some bad_path
check_disabled_endpoint (some ep) =
    let scheme = text_of (value_at "scheme" ep) in
    if scheme == codes "https"
    then some (bad_scheme scheme)
    else elim (value_at "tlsConfig" ep) [ some tls ↦ some stale_tls | none ↦ none ]

unfoldable pub check_service_monitor_mtls_disabled : Reply Value → Option MtlsError
check_service_monitor_mtls_disabled sm = check_disabled_endpoint (service_monitor_first_endpoint sm)
