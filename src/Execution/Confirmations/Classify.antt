-- ===== src/Execution/Confirmations/Classify.antt =====
-- Which events confirm an order in src/execution/venue-confirmations.ts.
use pok_poly_kalshi.Prelude.{
  String, Bool, true, false, ◌≡◌, ◌↔◌, Option, none, some, arith, ◌⊎◌, inl, inr,
}
use pok_poly_kalshi.Prelude.Tests.{or_default}
use pok_poly_kalshi.Prelude.Int.{ℤ, pos, ◌+ℤ◌, ◌≤ℤ◌, ◌<ℤ◌, max_ℤ, +ℤ_parts, -ℤ_parts}
use pok_poly_kalshi.Execution.Confirmations.{
  epsilon, is_failure_status, is_confirming_status, is_mismatch, confirmation_status, confirmed,
  failed,
}

-- The fill is unknown, or the expected size up to the band over it, give or take the tolerance.
abbrev pub IsInBand : Option ℤ → ℤ → ℤ → Type 0
IsInBand none expected band = Unit
IsInBand (some n) expected band =
    (expected ≤ℤ n +ℤ epsilon) × (n ≤ℤ expected +ℤ max_ℤ (pos 0) band +ℤ epsilon)

pub is_mismatch_iff :
    (fill : Option ℤ) (expected band : ℤ)
    → (is_mismatch fill expected band ≡ false) ↔ IsInBand fill expected band
unfolding is_mismatch
is_mismatch_iff none expected band = ground arith
is_mismatch_iff (some n) expected band =
    ground (arith, +ℤ_parts n epsilon, -ℤ_parts expected epsilon)

-- An event confirms an order exactly when its status is no failure, its fill lies in the band, and its
-- status is a confirming one or, where the option is on, its fill is positive. It fails the order
-- exactly when its status is a failure.
pub confirmation_status_iff :
    (status : String) (fill : Option ℤ) (expected band : ℤ) (tolerant : Bool)
    → let result = confirmation_status status fill expected band tolerant in
      ((result ≡ confirmed) ↔ (
        (is_failure_status status ≡ false)
        × IsInBand fill expected band
        × ((is_confirming_status status ≡ true)
            ⊎ ((tolerant ≡ true) × (pos 0 <ℤ or_default fill (pos 0))))))
      × ((result ≡ failed) ↔ (is_failure_status status ≡ true))
unfolding confirmation_status
confirmation_status_iff status fill expected band tolerant =
    ground (arith, is_mismatch_iff fill expected band)

IsInBand-mono :
    (fill : Option ℤ) (expected narrow wide : ℤ)
    → narrow ≤ℤ wide
    → IsInBand fill expected narrow
    → IsInBand fill expected wide
IsInBand-mono none expected narrow wide h i = tt
IsInBand-mono (some n) expected narrow wide h i = (
  i.0,
  ground (
    arith,
    +ℤ_parts expected (max_ℤ (pos 0) narrow),
    +ℤ_parts expected (max_ℤ (pos 0) wide),
    +ℤ_parts (expected +ℤ max_ℤ (pos 0) narrow) epsilon,
    +ℤ_parts (expected +ℤ max_ℤ (pos 0) wide) epsilon,
  ),
)

-- A wider band and the status option only ever turn a mismatch into a confirmation: what was confirmed
-- stays confirmed, and what failed still fails.
pub confirmation_status_mono :
    (status : String) (fill : Option ℤ) (expected narrow wide : ℤ) (tolerant : Bool)
    → narrow ≤ℤ wide
    → (confirmation_status status fill expected narrow false ≡ confirmed
        → confirmation_status status fill expected wide tolerant ≡ confirmed)
      × (confirmation_status status fill expected narrow false ≡ failed
          → confirmation_status status fill expected wide tolerant ≡ failed)
confirmation_status_mono status fill expected narrow wide tolerant h =
    let before = confirmation_status_iff status fill expected narrow false in
    let after = confirmation_status_iff status fill expected wide tolerant in
    (
      λ e.
          let (sound, inside, shown) = before.0.0 e in
          after.0.1 (
            sound,
            IsInBand-mono fill expected narrow wide h inside,
            elim shown [ inl c ↦ inl c | inr t ↦ cc (t.0) ],
          ),
      λ e. after.1.1 (before.1.0 e),
    )
