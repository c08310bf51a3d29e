-- ===== src/Execution/Fills.antt =====
-- src/execution/executor.ts: what the results of the two orders say: whether a leg has provably not filled,
-- has filled for the size of the order, or is out of step with the other, and the profit that was realized.
use pok_poly_kalshi.Prelude.{
  ◌*◌, String, Bool, true, false, Option, none, some, List, [], ◌∷◌, ◌&&◌, ◌||◌, not,
}
use pok_poly_kalshi.Prelude.Tests.{if◌then◌else◌, or_default, text_key, ◌==◌}
use pok_poly_kalshi.Prelude.Int.{ℤ, pos, negsuc, ◌+ℤ◌, ◌-ℤ◌, scale, ltb_ℤ, leb_ℤ, min_ℤ, max_ℤ, abs}
use pok_poly_kalshi.Prelude.Money.{dollar, money_tick, floor_div, round_dollars}
use pok_poly_kalshi.Prelude.Text.{lower, is_one_of}
use pok_poly_kalshi.Types.{polymarket, same_venue}
use pok_poly_kalshi.Execution.Confirmations.{VenueOrderResult, epsilon}
use pok_poly_kalshi.Execution.Unwind.{filled}

-- The settings of `AppConfig` that the verdict reads.
pub record VerdictConfig : Type 0 where
  pub order_size : ℤ
  pub confirmation_overfill_tolerant : Bool
  pub overfill_slack : ℤ
  pub hedge_max_loss_dollars : ℤ
  pub timeout_recovery_resolves_no_fill : Bool
  pub flat_miss_non_blocking : Bool
  pub accept_rest_evidence : Bool
  pub quarantine_mode : Bool
  pub max_unresolved_exposure_dollars : ℤ

-- A result with the metadata of its order that is read; a text that is none is missing.
pub record OrderOutcome : Type 0 where
  pub result : VenueOrderResult
  pub cancel_status : String
  pub open_order_count : ℤ
  pub open_orders_error : Option String
  pub final_fetch_error : Option String
  pub kalshi_timeout_recovery : Option String
  pub polymarket_timeout_recovery : Option String
  pub polymarket_order_type : Option String

abbrev pub truthy : Option String → Bool
truthy none = false
truthy (some t) = not (t == "")

abbrev pub is_text : String → Option String → Bool
is_text t none = false
is_text t (some s) = s == t

abbrev pub no_fill_statuses : List String
no_fill_statuses =
    "failed" ∷ "rejected" ∷ "canceled" ∷ "cancelled" ∷ "unfilled" ∷ "not_submitted" ∷ "skipped" ∷ []

unfoldable pub is_definitive_no_fill : VenueOrderResult → Bool
is_definitive_no_fill r =
    if ltb_ℤ (pos 0) (filled r) then false else is_one_of no_fill_statuses (lower r.status)

unfoldable pub is_verified_no_fill : VerdictConfig → OrderOutcome → Bool
is_verified_no_fill o x =
    o.timeout_recovery_resolves_no_fill
    && (same_venue x.result.venue polymarket
        && (not (ltb_ℤ (pos 0) (filled x.result))
            && (is_text "not_found" x.polymarket_timeout_recovery
                && is_text "FAK" x.polymarket_order_type)))

abbrev pub is_flat : VerdictConfig → OrderOutcome → Bool
is_flat o x = is_definitive_no_fill x.result || is_verified_no_fill o x

unfoldable pub provably_no_exposure : VerdictConfig → OrderOutcome → OrderOutcome → Bool
provably_no_exposure o k p =
    (is_flat o k && is_flat o p)
    && (o.flat_miss_non_blocking || o.timeout_recovery_resolves_no_fill)

unfoldable pub overfill_band : VerdictConfig → ℤ
overfill_band o = if o.confirmation_overfill_tolerant then max_ℤ (pos 0) o.overfill_slack else pos 0

unfoldable pub is_exact_venue_fill : VerdictConfig → VenueOrderResult → Bool
is_exact_venue_fill o r =
    not (truthy r.error)
    && (leb_ℤ o.order_size (filled r)
        && leb_ℤ (filled r -ℤ o.order_size) (overfill_band o +ℤ epsilon))

abbrev pub has_fill : VenueOrderResult → Bool
has_fill r = ltb_ℤ (pos 0) (filled r)

-- `a !== b` on Booleans.
abbrev pub differ : Bool → Bool → Bool
differ true b = not b
differ false b = b

unfoldable pub fill_count_mismatch : VerdictConfig → VenueOrderResult → VenueOrderResult → Bool
fill_count_mismatch o k p =
    has_fill k && (has_fill p && ltb_ℤ (overfill_band o +ℤ epsilon) (abs (filled k -ℤ filled p)))

unfoldable pub partial_fill : VerdictConfig → VenueOrderResult → VenueOrderResult → Bool
partial_fill o k p =
    differ (is_exact_venue_fill o k) (is_exact_venue_fill o p)
    || ((has_fill k && not (is_exact_venue_fill o k))
        || ((has_fill p && not (is_exact_venue_fill o p)) || fill_count_mismatch o k p))

-- `roundPrice(1 - (k + p + fees / size))`; without fees or fills there is nothing to divide.
unfoldable pub profit_after_fees : ℤ → ℤ → ℤ → ℤ
profit_after_fees left fees (negsuc n) = round_dollars left
profit_after_fees left fees (pos size) =
    if ltb_ℤ (pos 0) fees && ltb_ℤ (pos 0) (pos size)
    then scale money_tick (
        floor_div (scale size left -ℤ scale 1_000_000_000 fees +ℤ pos (50_000 * size))
          (money_tick * size))
    else round_dollars left

abbrev pub profit_of : Option ℤ → Option ℤ → ℤ → ℤ → Option ℤ
profit_of none p fees size = none
profit_of (some k) none fees size = none
profit_of (some k) (some p) fees size = some (profit_after_fees (dollar -ℤ (k +ℤ p)) fees size)

unfoldable pub realized_guaranteed_profit : VenueOrderResult → VenueOrderResult → Option ℤ
realized_guaranteed_profit k p =
    profit_of k.fill_price p.fill_price (or_default k.fee (pos 0) +ℤ or_default p.fee (pos 0))
      (min_ℤ (filled k) (filled p))
