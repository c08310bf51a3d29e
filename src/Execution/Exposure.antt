-- ===== src/Execution/Exposure.antt =====
-- src/execution/live-hot-path.ts: what the exposure cache reads off the stored signals. The text of a
-- reason is the data that it prints.
pub mod Guard
use pok_poly_kalshi.Prelude.{
  ℕ, String, Bool, true, false, Option, none, some, List, [], ◌∷◌, ◌&&◌, ◌||◌, not,
}
use pok_poly_kalshi.Prelude.Tests.{if◌then◌else◌, or_default, is_some, ◌==◌, text_key}
use pok_poly_kalshi.Prelude.Lists.{length, keep, find}
use pok_poly_kalshi.Prelude.Int.{ℤ, pos, ◌+ℤ◌, ◌-ℤ◌, ltb_ℤ, abs}
use pok_poly_kalshi.Types.{Number, finite, not_finite, ArbLeg}

pub data SignalAction : Type 0 where
  filled skipped attempt_failed : SignalAction

-- The fields of a `DashboardSignal` that are read here: the confirmation of a venue is its status, and
-- the time of creation is missing when it is no date.
pub record DashboardSignal : Type 0 where
  pub id : ℕ
  pub action : SignalAction
  pub execution_group_id : Option String
  pub reconciliation_resolved_at : Option ℕ
  pub partial_fill : Bool
  pub kalshi_fill_count : Option ℤ
  pub polymarket_fill_count : Option ℤ
  pub kalshi_status : Option String
  pub polymarket_status : Option String
  pub risk_quarantined_at : Option ℕ
  pub risk_quarantine_exposure_dollars : Option Number
  pub expiry_ms : ℕ
  pub created_at : Option ℕ
  pub lower : ArbLeg
  pub higher : ArbLeg
  pub kalshi_contract_id : String
  pub polymarket_contract_id : String
  pub kalshi_confirmation : Option String
  pub polymarket_confirmation : Option String

abbrev is_filled : SignalAction → Bool
is_filled filled = true
is_filled _ = false

abbrev is_skipped : SignalAction → Bool
is_skipped skipped = true
is_skipped _ = false

-- `Boolean(signal.executionGroupId)`.
abbrev has_group : Option String → Bool
has_group none = false
has_group (some g) = not (g == "")

abbrev pub is_unresolved_status : Option String → Bool
is_unresolved_status none = false
is_unresolved_status (some s) = s == "unknown" || s == "unexpected_fill_count"

unfoldable pub has_live_exposure : DashboardSignal → Bool
has_live_exposure s =
    has_group s.execution_group_id
    && (not (is_some s.reconciliation_resolved_at)
        && (is_filled s.action
            || (s.partial_fill
                || (ltb_ℤ (pos 0) (or_default s.kalshi_fill_count (pos 0))
                    || (ltb_ℤ (pos 0) (or_default s.polymarket_fill_count (pos 0))
                        || (is_unresolved_status s.kalshi_status
                            || is_unresolved_status s.polymarket_status))))))

unfoldable pub is_submitted_live_attempt : DashboardSignal → Bool
is_submitted_live_attempt s = has_group s.execution_group_id && not (is_skipped s.action)

unfoldable pub risk_quarantined : DashboardSignal → Bool
risk_quarantined s = is_some s.risk_quarantined_at

-- A positive, finite exposure counts, any other is nothing.
abbrev pub counted_exposure : Option Number → ℤ
counted_exposure none = pos 0
counted_exposure (some not_finite) = pos 0
counted_exposure (some (finite e)) = if ltb_ℤ (pos 0) e then e else pos 0

unfoldable pub risk_quarantine_exposure : DashboardSignal → ℤ
risk_quarantine_exposure s = counted_exposure s.risk_quarantine_exposure_dollars

-- The counts differ by more than a millionth of a share.
unfoldable pub has_fill_mismatch : DashboardSignal → Bool
has_fill_mismatch s =
    ltb_ℤ (pos 1000)
      (abs (or_default s.kalshi_fill_count (pos 0) -ℤ or_default s.polymarket_fill_count (pos 0)))

unfoldable pub has_exact_exposure_problem : DashboardSignal → Bool
has_exact_exposure_problem s =
    if not (has_group s.execution_group_id) || is_some s.reconciliation_resolved_at
    then false
    else risk_quarantined s
      || (s.partial_fill
          || (has_fill_mismatch s
              || (is_unresolved_status s.kalshi_status
                  || is_unresolved_status s.polymarket_status)))

pub data ExposureReason : Type 0 where
  unresolved_quarantine marked_partial unresolved_venue_status : ℕ → ExposureReason
  fill_mismatch : ℕ → ℤ → ℤ → ExposureReason

unfoldable pub reason_of : DashboardSignal → ExposureReason
reason_of s =
    if risk_quarantined s
    then unresolved_quarantine s.id
    else if s.partial_fill
    then marked_partial s.id
    else if has_fill_mismatch s
    then fill_mismatch s.id (or_default s.kalshi_fill_count (pos 0))
        (or_default s.polymarket_fill_count (pos 0))
    else unresolved_venue_status s.id

abbrev reason_if_found : Option DashboardSignal → Option ExposureReason
reason_if_found none = none
reason_if_found (some s) = some (reason_of s)

unfoldable pub exact_exposure_reason : List DashboardSignal → Option ExposureReason
exact_exposure_reason signals = reason_if_found (find has_exact_exposure_problem signals)

unfoldable pub total_exposure : List DashboardSignal → ℤ
total_exposure [] = pos 0
total_exposure (s ∷ ss) = risk_quarantine_exposure s +ℤ total_exposure ss

abbrev pub quarantined : List DashboardSignal → List DashboardSignal
quarantined signals = keep (λ s. has_live_exposure s && risk_quarantined s) signals

-- The total exposure and the number of the live, quarantined signals.
unfoldable pub quarantine_status : List DashboardSignal → ℤ × ℕ
quarantine_status signals = (total_exposure (quarantined signals), length (quarantined signals))
