-- ===== src/Execution/Unwind/Residual.antt =====
-- What `attemptResidualUnwind` of src/execution/executor.ts asks for and reports.
use pok_poly_kalshi.Prelude.{true, ◌≡◌, none, List, [], ◌∷◌, ◌⊎◌}
use pok_poly_kalshi.Prelude.Tests.{or_default}
use pok_poly_kalshi.Prelude.Int.{ℤ, pos, ◌+ℤ◌, ◌≤ℤ◌}
use pok_poly_kalshi.Types.{Venue}
use pok_poly_kalshi.Execution.Confirmations.{epsilon}
use pok_poly_kalshi.Execution.Unwind.{
  VenueUnwindOutcome, VenueUnwindRequest, UnwindCall, remembered, asked, UnwindAttempt,
}

abbrev pub unwound : VenueUnwindOutcome → ℤ
unwound o = or_default o.unwound_shares (pos 0)

-- The credit is within the residual, and what is reported flat is flat.
pub record Credited (residual : ℤ) (o : VenueUnwindOutcome) : Type 0 where
  pub nonneg : pos 0 ≤ℤ unwound o
  pub within : unwound o ≤ℤ residual
  pub flat : o.flattened ≡ true → residual ≤ℤ (unwound o +ℤ epsilon)

-- Nothing was called, or the sale was registered before it was asked for, and it is for the residual,
-- which leaves the hedged shares.
abbrev pub AsksResidual : ℤ → List UnwindCall → Type 0
AsksResidual residual calls =
    (calls ≡ [])
    ⊎ ((venue : Venue) × (r : VenueUnwindRequest) × (rest : List UnwindCall) × (calls
          ≡ remembered venue residual none none ∷ asked r ∷ rest)
        × (r.fill_count ≡ residual)
        × (r.hedged_count +ℤ residual ≡ r.total_filled))

abbrev Good : ℤ → UnwindAttempt → Type 0
Good residual a = Credited residual a.outcome × AsksResidual residual a.calls
