-- ===== src/Store/Tests.antt =====
-- A scenario that stores its namespace twice.
use release_tests_ginkgo.Prelude.{List, [], ◌∷◌, ◌≡◌}
use release_tests_ginkgo.Store.Data.{Kinds, other, Stores, lookup, as_string}
use release_tests_ginkgo.Store.Data.{get_scenario_data, namespace}
use release_tests_ginkgo.Store.Writes.{Write, namespace_write, slice_write, suite_write, write_all}
use release_tests_ginkgo.Store.Writes.{scenario_value, last_value}
use release_tests_ginkgo.Store.Writes.{get_scenario_data-write_all}

abbrev kinds : Kinds
kinds = record {
  Clients = Unit;
  ResourceNames = Unit;
  HttpResponse = Unit;
  Cmd = Unit;
  Other = Unit;
  no_names = tt;
}

abbrev empty : Stores kinds
empty = record { scenario = []; suite = [] }

abbrev writes : List (Write kinds)
writes =
    namespace_write "ns-1"
    ∷ slice_write "pods" ("a" ∷ [])
    ∷ suite_write "opc" (other tt)
    ∷ namespace_write "ns-2"
    ∷ []

get_scenario_data-write_all_example :
    (get_scenario_data kinds "pods" (write_all kinds writes empty)
      ≡ as_string kinds
          (last_value kinds (scenario_value kinds "pods") writes (lookup kinds "pods" [])))
    × (namespace kinds (write_all kinds writes empty)
        ≡ as_string kinds (
            last_value kinds
              (scenario_value kinds "namespace")
              writes
              (lookup kinds "namespace" [])))
get_scenario_data-write_all_example = get_scenario_data-write_all kinds "pods" writes empty
