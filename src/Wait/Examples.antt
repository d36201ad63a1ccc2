-- ===== src/Wait/Examples.antt =====
-- Statuses, listeners and answers of the API for the condition functions of pkg/wait/wait.go.
use release_tests_ginkgo.Prelude.{String, none, some, List, [], ◌∷◌, Option}
use release_tests_ginkgo.Prelude.{◌==◌, string_eq, if◌then◌else◌, ℕ}
use release_tests_ginkgo.Prelude.Texts.{codes}
use release_tests_ginkgo.Wait.State.{Condition, Accessor, ApiError, not_found}

abbrev status : Accessor
status type =
    some (record { type = type; status = "False"; reason = "TimedOut"; message = codes "took 5m" })

abbrev first_of_type : List Condition → String → Option Condition
first_of_type [] type = none
first_of_type (c ∷ cs) type = if c.type == type then some c else first_of_type cs type

abbrev listener : List Condition
listener = record { type = "Available"; status = "True"; reason = ""; message = [] } ∷ []

abbrev phases : List String
phases = "Running" ∷ "Pending" ∷ []

abbrev no_error : Option ApiError
no_error = none

abbrev unknown : Option ℕ
unknown = none

abbrev gone : Option ApiError
gone = some not_found
