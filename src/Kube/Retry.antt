-- ===== src/Kube/Retry.antt =====
-- `RetryOnConflict` of k8s.io/client-go/util/retry, which the repository calls and does not contain.
-- It is a parameter, `Retrier`; what is relied on is the relation `Retries`.
use release_tests_ginkgo.Prelude.{
  ℕ, zero, suc, ◌≡◌, refl, Bool, true, Option, none, some, ap, inl, inr, Bool-cases,
}
use mathlib.Core.Path.{subst}
use release_tests_ginkgo.Prelude.{if◌then◌else◌}

module _ {W E : Type 0} (pause : W → W) (is_conflict : E → Bool) where
  -- The runs that the documentation allows: the result is that of an attempt, and another attempt
  -- is made, after a pause, only where one failed with a conflict.
  pub data Retries (f : W → Option E × W) : W → Option E × W → Type 0 where
    last : {w : W} → Retries f w (f w)
    again :
        {w v : W} {e : E} {r : Option E × W}
        → f w ≡ (some e, v)
        → is_conflict e ≡ true
        → Retries f (pause v) r
        → Retries f w r

  pub record Retrier : Type 0 where
    pub retry : (W → Option E × W) → W → Option E × W
    pub retry_retries : (f : W → Option E × W) (w : W) → Retries f w (retry f w)

  -- What every attempt and the pauses keep holds after the retries.
  pub Retries-keeps :
      (P : W → Type 0)
      → ((w : W) → P w → P (pause w))
      → (f : W → Option E × W) → ((w : W) → P w → P (f w).1)
      → {w : W} {r : Option E × W} → Retries f w r
      → P w
      → P r.1
  Retries-keeps P keep_pause f keep (last {w}) h = keep w h
  Retries-keeps P keep_pause f keep (again {w} {v} e c rest) h =
      Retries-keeps P keep_pause f keep rest (keep_pause v (subst P (ap (λ r. r.1) e) (keep w h)))

  -- What holds after every attempt that succeeds holds if the retries succeed.
  pub Retries-none :
      (P : W → Type 0) (f : W → Option E × W)
      → ((w : W) → (f w).0 ≡ none → P (f w).1)
      → {w : W} {r : Option E × W} → Retries f w r
      → r.0 ≡ none
      → P r.1
  Retries-none P f done (last {w}) h = done w h
  Retries-none P f done (again e c rest) h = Retries-none P f done rest h

  -- The result of an attempt, where the next ones would give `rest`.
  after : Option E × W → Option E × W → Option E × W
  after (none, v) rest = (none, v)
  after (some e, v) rest = if is_conflict e then rest else (some e, v)

  after-Retries :
      (f : W → Option E × W) (w : W) (x rest : Option E × W)
      → f w ≡ x
      → Retries f (pause x.1) rest
      → Retries f w (after x rest)
  unfolding after
  after-Retries f w (none, v) rest e h = subst (Retries f w) e last
  after-Retries f w (some x, v) rest e h = elim (Bool-cases (is_conflict x)) [
    | inl c ↦ rw c (again e c h)
    | inr c ↦ rw c (subst (Retries f w) e last)
  ]

  unfoldable pub retry_bounded : ℕ → (W → Option E × W) → W → Option E × W
  unfolding after
  retry_bounded zero f w = f w
  retry_bounded (suc n) f w = let rest = retry_bounded n f (pause (f w).1) in after (f w) rest

  pub retry_bounded-Retries :
      (n : ℕ) (f : W → Option E × W) (w : W) → Retries f w (retry_bounded n f w)
  unfolding retry_bounded
  retry_bounded-Retries zero f w = last
  retry_bounded-Retries (suc n) f w =
      after-Retries f w (f w) (retry_bounded n f (pause (f w).1)) refl
        (retry_bounded-Retries n f (pause (f w).1))

  -- A retrier that makes a bounded number of attempts: what `Retrier` assumes can hold.
  abbrev pub bounded_retry : ℕ → Retrier
  bounded_retry n = record { retry = retry_bounded n; retry_retries = retry_bounded-Retries n }
