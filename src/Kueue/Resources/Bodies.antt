-- ===== src/Kueue/Resources/Bodies.antt =====
-- The bodies of the objects that pkg/tektonkueue/resources.go creates.
use release_tests_ginkgo.Prelude.{
  String, Bool, Option, none, some, List, [], ◌∷◌, ◌++◌, map, if◌then◌else◌,
}
use release_tests_ginkgo.Prelude.Texts.{Text, codes, null}
use release_tests_ginkgo.Kube.{Value, text, number, empty, item, field}

abbrev pub fields : List (String × Value) → Value
fields [] = empty
fields ((k, v) ∷ rest) = field k v (fields rest)

abbrev pub items : List Value → Value
items [] = empty
items (v ∷ vs) = item v (items vs)

abbrev pub word : String → Value
word s = text (codes s)

abbrev pub words : List String → Value
words ss = items (map word ss)

abbrev pub rule : String → List String → List String → Value
rule group resources verbs = fields (
    ("apiGroups", words (group ∷ []))
    ∷ ("resources", words resources)
    ∷ ("verbs", words verbs)
    ∷ [])

abbrev read_verbs : List String
read_verbs = "get" ∷ "list" ∷ "watch" ∷ []

abbrev all_verbs : List String
all_verbs = "create" ∷ "delete" ∷ "get" ∷ "list" ∷ "patch" ∷ "update" ∷ "watch" ∷ []

abbrev status_verbs : List String
status_verbs = "get" ∷ "patch" ∷ "update" ∷ []

unfoldable pub controller_role : Value
controller_role = fields (
    (
      "rules",
      items (rule "tekton.dev" ("pipelineruns" ∷ "pipelineruns/status" ∷ []) all_verbs ∷ []),
    )
    ∷ [])

unfoldable pub worker_read_cluster_role : Value
worker_read_cluster_role = fields (
    (
      "rules",
      items (
          rule "kueue.x-k8s.io" ("workloads" ∷ []) read_verbs
          ∷ rule "tekton.dev" ("pipelineruns" ∷ []) read_verbs
          ∷ []),
    )
    ∷ [])

unfoldable pub worker_write_role : Value
worker_write_role = fields (
    (
      "rules",
      items (
          rule "kueue.x-k8s.io" ("workloads" ∷ []) all_verbs
          ∷ rule "kueue.x-k8s.io" ("workloads/status" ∷ []) status_verbs
          ∷ rule "tekton.dev" ("pipelineruns" ∷ []) all_verbs
          ∷ rule "tekton.dev" ("pipelineruns/status" ∷ []) status_verbs
          ∷ []),
    )
    ∷ [])

-- `RoleRef` and `Subjects` of a binding of the role `name` to the service account.
unfoldable pub binding : String → Text → Text → Text → Value
binding kind name account namespace = fields (
    (
      "roleRef",
      fields (
          ("apiGroup", word "rbac.authorization.k8s.io")
          ∷ ("kind", word kind)
          ∷ ("name", text name)
          ∷ []),
    )
    ∷ (
      "subjects",
      items (
          fields (
            ("kind", word "ServiceAccount")
            ∷ ("name", text account)
            ∷ ("namespace", text namespace)
            ∷ [])
          ∷ []),
    )
    ∷ [])

-- `object` of the source: the fields of an object of Kueue.
unfoldable pub object : String → Text → Text → Option Value → Value
object kind name namespace spec =
    let metadata =
      if null namespace
      then fields (("name", text name) ∷ [])
      else fields (("name", text name) ∷ ("namespace", text namespace) ∷ []) in
    let value =
      ("apiVersion", word "kueue.x-k8s.io/v1beta2")
      ∷ ("kind", word kind)
      ∷ ("metadata", metadata)
      ∷ [] in
    elim spec [ some s ↦ fields (value ++ (("spec", s) ∷ [])) | none ↦ fields value ]

-- One execution needs two quota units on a worker.
unfoldable pub cluster_queue_spec : Text → Bool → Value
cluster_queue_spec prefix hub =
    let quota = if hub then 1 else 2 in
    let groups = items (
      fields (
        ("coveredResources", words ("tekton.dev/pipelineruns" ∷ []))
        ∷ (
          "flavors",
          items (
              fields (
                ("name", text prefix)
                ∷ (
                  "resources",
                  items (
                      fields (
                        ("name", word "tekton.dev/pipelineruns")
                        ∷ ("nominalQuota", number quota)
                        ∷ [])
                      ∷ []),
                )
                ∷ [])
              ∷ []),
        )
        ∷ [])
      ∷ []) in
    let spec = ("namespaceSelector", empty) ∷ ("resourceGroups", groups) ∷ [] in
    let checks =
      fields (("admissionChecks", items (fields (("name", text prefix) ∷ []) ∷ [])) ∷ []) in
    if hub then fields (spec ++ (("admissionChecksStrategy", checks) ∷ [])) else fields spec

unfoldable pub multi_kueue_cluster_spec : Text → Value
multi_kueue_cluster_spec name = fields (
    (
      "clusterSource",
      fields (
          ("kubeConfig", fields (("locationType", word "Secret") ∷ ("location", text name) ∷ []))
          ∷ []),
    )
    ∷ [])

unfoldable pub admission_check_spec : Text → Value
admission_check_spec prefix = fields (
    ("controllerName", word "kueue.x-k8s.io/multikueue")
    ∷ (
      "parameters",
      fields (
          ("apiGroup", word "kueue.x-k8s.io")
          ∷ ("kind", word "MultiKueueConfig")
          ∷ ("name", text prefix)
          ∷ []),
    )
    ∷ [])
