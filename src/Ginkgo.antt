-- ===== src/Ginkgo.antt =====
-- How the body of a Ginkgo spec, or a helper that it calls, ends: it returns, `Skip` ends it, or a
-- Gomega assertion that does not hold or `Fail` ends it. The text of a failure is not kept, only
-- what was found.
use release_tests_ginkgo.Prelude.{Bool, if◌then◌else◌}

pub data Outcome (E : Type 0) : Type 0 where
  passed : Outcome E
  skipped : Outcome E
  failed : E → Outcome E

-- `Expect(…).To(…)`: nothing that follows is run where it does not hold.
abbrev pub expect : {E : Type 0} → Bool → E → Outcome E → Outcome E
expect holds e rest = if holds then rest else failed e
