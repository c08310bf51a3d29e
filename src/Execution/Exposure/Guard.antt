-- ===== src/Execution/Exposure/Guard.antt =====
-- What the exposure guards of src/execution/live-hot-path.ts answer.
use pok_poly_kalshi.Prelude.{
  false, ◌≡◌, refl, ◌↔◌, Option, none, some, List, [], ◌∷◌, arith, inl, inr,
}
use pok_poly_kalshi.Prelude.Tests.{Bool-cases}
use pok_poly_kalshi.Prelude.Lists.{length, All, All-imp}
use pok_poly_kalshi.Prelude.Int.{pos, ◌≤ℤ◌, +ℤ_parts}
use pok_poly_kalshi.Types.{Number, finite, not_finite}
use pok_poly_kalshi.Execution.Exposure.{
  DashboardSignal, has_exact_exposure_problem, exact_exposure_reason, counted_exposure,
  risk_quarantine_exposure, total_exposure, quarantined, quarantine_status,
}

reason-none :
    (ss : List DashboardSignal)
    → exact_exposure_reason ss ≡ none
    → All (λ s. has_exact_exposure_problem s ≡ false) ss
unfolding exact_exposure_reason
reason-none [] e = tt
reason-none (s ∷ ss) e = elim (Bool-cases (has_exact_exposure_problem s)) [
  | inl p ↦ absurd (ground (arith, e, p))
  | inr p ↦ (p, reason-none ss (ground (arith, e, p)))
]

none-reason :
    (ss : List DashboardSignal)
    → All (λ s. has_exact_exposure_problem s ≡ false) ss
    → exact_exposure_reason ss ≡ none
unfolding exact_exposure_reason
none-reason [] a = refl
none-reason (s ∷ ss) (p, a) = ground (arith, p, none-reason ss a)

-- The exact exposure guard lets trading go on exactly when no signal has a problem.
pub exact_exposure_reason-none_iff :
    (ss : List DashboardSignal)
    → (exact_exposure_reason ss ≡ none) ↔ All (λ s. has_exact_exposure_problem s ≡ false) ss
exact_exposure_reason-none_iff ss = (reason-none ss, none-reason ss)

counted-ge : (o : Option Number) → pos 0 ≤ℤ counted_exposure o
counted-ge none = omega arith
counted-ge (some not_finite) = omega arith
counted-ge (some (finite e)) = ground arith

exposure-ge : (s : DashboardSignal) → pos 0 ≤ℤ risk_quarantine_exposure s
unfolding risk_quarantine_exposure
exposure-ge s = counted-ge s.risk_quarantine_exposure_dollars

total-ge : (ss : List DashboardSignal) → pos 0 ≤ℤ total_exposure ss
unfolding total_exposure
total-ge [] = omega arith
total-ge (s ∷ ss) =
    omega
      (arith, exposure-ge s, total-ge ss, +ℤ_parts (risk_quarantine_exposure s) (total_exposure ss))

none-total : (ss : List DashboardSignal) → length ss ≡ 0 → total_exposure ss ≡ pos 0
unfolding total_exposure
none-total [] e = refl
none-total (s ∷ ss) e = absurd (omega (arith, e))

total-covers :
    (ss : List DashboardSignal) → All (λ s. risk_quarantine_exposure s ≤ℤ total_exposure ss) ss
unfolding total_exposure
total-covers [] = tt
total-covers (s ∷ ss) =
    let sum = +ℤ_parts (risk_quarantine_exposure s) (total_exposure ss) in
    (
      omega (arith, sum, total-ge ss),
      All-imp ss (λ t h. omega (arith, sum, h, exposure-ge s)) (total-covers ss),
    )

-- The quarantined total is never negative, and it covers the exposure of every signal that counts: the
-- positive exposure of a live, quarantined signal is at most the total. Without such a signal it is 0.
pub quarantine_status-covers :
    (ss : List DashboardSignal)
    → let (total, count) = quarantine_status ss in
      (pos 0 ≤ℤ total)
      × All (λ s. risk_quarantine_exposure s ≤ℤ total) (quarantined ss)
      × (count ≡ 0 → total ≡ pos 0)
unfolding quarantine_status
quarantine_status-covers ss =
    (total-ge (quarantined ss), total-covers (quarantined ss), none-total (quarantined ss))
