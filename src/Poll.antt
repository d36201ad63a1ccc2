-- ===== src/Poll.antt =====
-- The polling of k8s.io/apimachinery/pkg/util/wait, which the repository calls and does not
-- contain: `PollUntilContextTimeout(ctx, interval, timeout, true, condition)`.
-- It is a parameter, `Poller`; what is relied on is the relation `Polls`.
pub mod Bounded
use mathlib.Core.Path.{subst}
use release_tests_ginkgo.Prelude.{◌≡◌, refl, ap, Bool, true, false, Option, none, some}

-- The `(bool, error)` that a condition returns.
abbrev pub Verdict : Type 0 → Type 0
Verdict E = Bool × Option E

-- What the poll returns: `nil`, the condition's error, or that the context expired.
pub data Outcome (E : Type 0) : Type 0 where
  success : Outcome E
  stopped : E → Outcome E
  timed_out : Outcome E

-- A condition reads and writes the variables `S` that its closure captures.
abbrev pub Condition : Type 0 → Type 0 → Type 0
Condition S E = S → Verdict E × S

-- The runs that the documentation of the package allows: the condition is evaluated at once, an
-- error or `true` ends the poll, and the context may expire after an evaluation that did neither.
pub data Polls {S E : Type 0} (c : Condition S E) : S → Outcome E → S → Type 0 where
  finish : {s t : S} → c s ≡ ((true, none), t) → Polls c s success t
  fail : {s t : S} {done : Bool} {e : E} → c s ≡ ((done, some e), t) → Polls c s (stopped e) t
  expire : {s t : S} → c s ≡ ((false, none), t) → Polls c s timed_out t
  again : {s t u : S} {o : Outcome E} → c s ≡ ((false, none), t) → Polls c t o u → Polls c s o u

-- The library function at one type of variables and errors.
pub record Poller (S E : Type 0) : Type 0 where
  pub poll : Condition S E → S → Outcome E × S
  pub poll_polls : (c : Condition S E) (s : S) → Polls c s (poll c s).0 (poll c s).1

-- The states in which the condition is evaluated, as far as each evaluation asks for another.
pub data Pending {S E : Type 0} (c : Condition S E) (s : S) : S → Type 0 where
  start : Pending c s s
  step : {t u : S} → Pending c s t → c t ≡ ((false, none), u) → Pending c s u

module _ {S E : Type 0} {c : Condition S E} where
  pub Pending-prepend : {s t u : S} → c s ≡ ((false, none), t) → Pending c t u → Pending c s u
  Pending-prepend e start = step start e
  Pending-prepend e (step p q) = step (Pending-prepend e p) q

  -- A poll that returns nil ends in an evaluation that returned `true`.
  pub Polls-success :
      {s u : S} → Polls c s success u → (t : S) × Pending c s t × (c t ≡ ((true, none), u))
  Polls-success (finish {s} e) = (s, start, e)
  Polls-success (again e p) = let (t, r, d) = Polls-success p in (t, Pending-prepend e r, d)

  -- A poll that returns an error other than the context's ends in an evaluation with that error.
  pub Polls-stopped :
      {s u : S} {e : E}
      → Polls c s (stopped e) u
      → (t : S) × Pending c s t × (done : Bool) × (c t ≡ ((done, some e), u))
  Polls-stopped (fail {s} {done} q) = (s, start, done, q)
  Polls-stopped (again q p) =
      let (t, r, done, d) = Polls-stopped p in (t, Pending-prepend q r, done, d)

  -- What every evaluation keeps holds of the variables after the poll.
  pub Polls-keeps :
      (P : S → Type 0)
      → ((s : S) → P s → P (c s).1)
      → {s u : S} {o : Outcome E} → Polls c s o u
      → P s
      → P u
  Polls-keeps P keep (finish {s} e) h = subst P (ap (λ r. r.1) e) (keep s h)
  Polls-keeps P keep (fail {s} e) h = subst P (ap (λ r. r.1) e) (keep s h)
  Polls-keeps P keep (expire {s} e) h = subst P (ap (λ r. r.1) e) (keep s h)
  Polls-keeps P keep (again {s} e p) h = Polls-keeps P keep p (subst P (ap (λ r. r.1) e) (keep s h))

  pub Pending-keeps :
      (P : S → Type 0)
      → ((s u : S) → c s ≡ ((false, none), u) → P s → P u)
      → {s u : S} → Pending c s u
      → P s
      → P u
  Pending-keeps P keep start h = h
  Pending-keeps P keep (step {t} {u} p e) h = keep t u e (Pending-keeps P keep p h)

  -- The first evaluation happens at once, so a verdict that it reaches is the poll's.
  pub Polls-at_once :
      {s t u : S} {o : Outcome E} → Polls c s o u → c s ≡ ((true, none), t) → o ≡ success
  Polls-at_once (finish e) d = refl
  Polls-at_once (fail e) d = cc
  Polls-at_once (expire e) d = cc
  Polls-at_once (again e p) d = cc
