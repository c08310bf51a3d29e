-- ===== src/Execution/Verdict.antt =====
-- src/execution/executor.ts: how `resultFromVenueOrders` judges the results of the two orders: the lock
-- reason, and whether the exposure that is left is quarantined in its place. Lock reasons are
-- constructors; only the text of a failed hedge is read. The sale of a residual is an argument.
pub mod Safety
pub mod Cap
use pok_poly_kalshi.Prelude.{
  ℕ, ◌*◌, String, Bool, true, false, Option, none, some, List, [], ◌∷◌, ◌&&◌, ◌||◌, not,
}
use pok_poly_kalshi.Prelude.Tests.{if◌then◌else◌, or_default, or_else, is_some, text_key, ◌==◌}
use pok_poly_kalshi.Prelude.Int.{
  ℤ, pos, negsuc, pos_part, ◌+ℤ◌, ◌-ℤ◌, scale, neg, ltb_ℤ, leb_ℤ, min_ℤ, max_ℤ, abs,
}
use pok_poly_kalshi.Prelude.Money.{dollar, money_tick, floor_div, round_dollars}
use pok_poly_kalshi.Prelude.Text.{◌+++◌, lower, codes, includes, is_one_of}
use pok_poly_kalshi.Types.{Venue, kalshi, polymarket, same_venue}
use pok_poly_kalshi.Execution.Confirmations.{VenueOrderResult, epsilon}
use pok_poly_kalshi.Execution.Unwind.{filled, is_timeout_or_unknown, round_product}
use pok_poly_kalshi.Execution.Fills.{
  VerdictConfig, OrderOutcome, truthy, is_text, no_fill_statuses, is_definitive_no_fill,
  is_verified_no_fill, is_flat, provably_no_exposure, overfill_band, is_exact_venue_fill, has_fill,
  differ, fill_count_mismatch, partial_fill, profit_after_fees, profit_of,
  realized_guaranteed_profit,
}

pub data LockReason : Type 0 where
  stream_confirmation : Venue → LockReason
  unknown_response fill_mismatch missing_prices below_loss_cap : LockReason
  hedge_failed : String → LockReason

abbrev pub locks_on : Bool → Venue → String → Option LockReason
locks_on excused venue status =
    if excused && status == "timeout"
    then none
    else if is_one_of ("timeout" ∷ "mismatch" ∷ "failed" ∷ []) (codes status)
    then some (stream_confirmation venue)
    else none

-- The status that the private stream of a venue has reported, if it has.
abbrev pub venue_lock : VerdictConfig → Venue → VenueOrderResult → Option String → Option LockReason
venue_lock o venue r none = none
venue_lock o venue r (some status) =
    locks_on (o.accept_rest_evidence && (not (is_some r.error) && has_fill r)) venue status

unfoldable pub confirmation_lock_reason :
    VerdictConfig
    → VenueOrderResult
    → VenueOrderResult
    → Option String
    → Option String
    → Option LockReason
confirmation_lock_reason o k p kalshi_status polymarket_status =
    or_else (venue_lock o kalshi k kalshi_status) (venue_lock o polymarket p polymarket_status)

abbrev pub loss_lock : VerdictConfig → Bool → Option ℤ → Option LockReason
loss_lock o risk_hedge none = some missing_prices
loss_lock o risk_hedge (some profit) =
    if risk_hedge && ltb_ℤ (profit +ℤ pos 1) (neg (max_ℤ (pos 0) o.hedge_max_loss_dollars))
    then some below_loss_cap
    else none

abbrev pub mismatch_lock : Bool → Option String → LockReason
mismatch_lock risk_hedge none = fill_mismatch
mismatch_lock risk_hedge (some reason) =
    if risk_hedge && not (reason == "") then hedge_failed reason else fill_mismatch

unfoldable pub live_lock_reason :
    VerdictConfig → VenueOrderResult → VenueOrderResult → Bool → Option String → Option LockReason
live_lock_reason o k p risk_hedge hedge_failure =
    if is_timeout_or_unknown k || is_timeout_or_unknown p
    then some unknown_response
    else if not (has_fill k || has_fill p)
    then none
    else if partial_fill o k p
    then some (mismatch_lock risk_hedge hedge_failure)
    else loss_lock o risk_hedge (realized_guaranteed_profit k p)

-- Whether the text of the reason has one of the four phrases.
abbrev is_quarantinable_text : String → Bool
is_quarantinable_text t =
    includes (codes "private stream confirmation") (lower t)
    || (includes (codes "fill mismatch") (lower t)
        || (includes (codes "unexpected fill count") (lower t)
            || includes (codes "timeout/unknown") (lower t)))

unfoldable pub is_risk_quarantinable : LockReason → Bool
is_risk_quarantinable (stream_confirmation venue) = true
is_risk_quarantinable unknown_response = true
is_risk_quarantinable fill_mismatch = true
is_risk_quarantinable missing_prices = false
is_risk_quarantinable below_loss_cap = false
is_risk_quarantinable (hedge_failed reason) =
    is_quarantinable_text ("live safety lock engaged: " +++ reason)

-- Whether an order may still be open, or its fill is not known.
unfoldable pub open_order_risk : OrderOutcome → Bool
open_order_risk x =
    let r = x.result in
    let unknown = r.status == "unknown" in
    if is_one_of ("live" ∷ "open" ∷ "resting" ∷ "delayed" ∷ []) (lower r.status)
    then true
    else if same_venue r.venue kalshi
        && (unknown
            && (not (has_fill r || ltb_ℤ (filled r) (pos 0))
                && is_text "not_found" x.kalshi_timeout_recovery))
    then false
    else ltb_ℤ (pos 0) x.open_order_count
      || (truthy x.open_orders_error
          || ((truthy x.final_fetch_error && unknown)
              || ((is_one_of ("cancel_failed" ∷ "cancel_unavailable" ∷ "skipped_no_order_id" ∷ [])
                      (codes x.cancel_status)
                    && unknown)
                  || (unknown && not (has_fill r)))))

-- The Polymarket count without the shares that were sold again.
unfoldable pub net_polymarket : ℤ → ℤ → ℤ → ℤ
net_polymarket k p unwound =
    if ltb_ℤ (pos 0) unwound && ltb_ℤ k p then max_ℤ k (p -ℤ unwound) else p

abbrev priced : ℤ → Option ℤ → Option ℤ
priced count none = none
priced count (some price) = some (round_product (scale (pos_part count) price))

abbrev pub exposure_between : ℤ → ℤ → Option ℤ → Option ℤ → Option ℤ
exposure_between k p kalshi_price polymarket_price =
    if ltb_ℤ k (pos 0) || ltb_ℤ p (pos 0)
    then none
    else if leb_ℤ (abs (k -ℤ p)) epsilon
    then some (pos 0)
    else if ltb_ℤ p k
    then priced (k -ℤ p) kalshi_price
    else priced (p -ℤ k) polymarket_price

unfoldable pub unresolved_exposure : VenueOrderResult → VenueOrderResult → ℤ → Option ℤ
unresolved_exposure k p unwound =
    exposure_between (filled k) (net_polymarket (filled k) (filled p) unwound) k.fill_price
      p.fill_price

-- `existing` is the quarantined exposure that the store reports, `none` when it cannot be read.
abbrev pub within_cap : VerdictConfig → Option ℤ → Option ℤ → Option ℤ
within_cap o none exposure = none
within_cap o (some existing) none = none
within_cap o (some existing) (some exposure) =
    if ltb_ℤ (o.max_unresolved_exposure_dollars +ℤ pos 1) (existing +ℤ exposure)
    then none
    else some exposure

unfoldable pub risk_quarantine_decision :
    VerdictConfig → Option LockReason → OrderOutcome → OrderOutcome → ℤ → Option ℤ → Option ℤ
risk_quarantine_decision o none k p unwound existing = none
risk_quarantine_decision o (some reason) k p unwound existing =
    if not o.quarantine_mode || not (is_risk_quarantinable reason)
    then none
    else if open_order_risk k || open_order_risk p
    then none
    else within_cap o existing (unresolved_exposure k.result p.result unwound)

-- What the sale of the residual has reached, and what the streams have reported.
pub record Context : Type 0 where
  pub flattened : Bool
  pub unwound_shares : ℤ
  pub kalshi_stream : Option String
  pub polymarket_stream : Option String
  pub risk_hedge : Bool
  pub hedge_failure : Option String
  pub existing_exposure : Option ℤ

pub record Verdict : Type 0 where
  pub lock : Option LockReason
  pub quarantine : Option ℤ

unfoldable pub initial_lock_reason :
    VerdictConfig → Context → OrderOutcome → OrderOutcome → Option LockReason
initial_lock_reason o c k p =
    if c.flattened || provably_no_exposure o k p
    then none
    else or_else (confirmation_lock_reason o k.result p.result c.kalshi_stream c.polymarket_stream)
        (live_lock_reason o k.result p.result c.risk_hedge c.hedge_failure)

unfoldable pub verdict : VerdictConfig → Context → OrderOutcome → OrderOutcome → Verdict
verdict o c k p =
    let initial = initial_lock_reason o c k p in
    let quarantine =
      if c.flattened || provably_no_exposure o k p
      then none
      else risk_quarantine_decision o initial k p c.unwound_shares c.existing_exposure in
    record { lock = if is_some quarantine then none else initial; quarantine = quarantine }
