-- ===== src/Examples/Verdicts.antt =====
-- Concrete inputs for the end of an execution in src/execution/executor.ts.
use pok_poly_kalshi.Prelude.{String, true, false, ◌≡◌, refl, none, some, ◌⊎◌, arith}
use pok_poly_kalshi.Prelude.Int.{ℤ, pos, ◌-ℤ◌}
use pok_poly_kalshi.Prelude.Int.{◌+ℤ◌, scale}
use pok_poly_kalshi.Prelude.Money.{round_dollars, floor_div}
use pok_poly_kalshi.Prelude.Text.{lower, to_lower, is_one_of, same_codes, includes, has_prefix}
use pok_poly_kalshi.Types.{Venue, kalshi, polymarket}
use pok_poly_kalshi.Execution.Confirmations.{VenueOrderResult}
use pok_poly_kalshi.Execution.Unwind.{
  UnwindConfig, Sale, VenueUnwindRequest, VenueUnwindOutcome, verified_unwound_shares,
  is_timeout_or_unknown, round_product,
}
use pok_poly_kalshi.Execution.Unwind.Credit.{Proven, verified_unwound_shares-Proven}
use pok_poly_kalshi.Execution.Fills.{
  VerdictConfig, OrderOutcome, is_definitive_no_fill, is_verified_no_fill, provably_no_exposure,
  overfill_band, is_exact_venue_fill, fill_count_mismatch, partial_fill, profit_after_fees,
  realized_guaranteed_profit,
}
use pok_poly_kalshi.Execution.Verdict.{
  Context, confirmation_lock_reason, live_lock_reason, is_risk_quarantinable, open_order_risk,
  net_polymarket, unresolved_exposure, risk_quarantine_decision, initial_lock_reason, verdict,
}
use pok_poly_kalshi.Execution.Verdict.Safety.{Accounted, verdict-Accounted}
use pok_poly_kalshi.Execution.Verdict.Cap.{Capped, verdict-Capped}

abbrev config : VerdictConfig
config = record {
  order_size = pos 8_000_000_000;
  confirmation_overfill_tolerant = true;
  overfill_slack = pos 1_000_000_000;
  hedge_max_loss_dollars = pos 0;
  timeout_recovery_resolves_no_fill = false;
  flat_miss_non_blocking = true;
  accept_rest_evidence = true;
  quarantine_mode = true;
  max_unresolved_exposure_dollars = pos 5_000_000_000;
}

abbrev result : Venue → String → ℤ → ℤ → VenueOrderResult
result venue status count price = record {
  venue = venue;
  client_order_id = some "c";
  order_id = some "o";
  status = status;
  fill_count = some count;
  fill_price = some price;
  fee = none;
  exchange_timestamp_ms = none;
  error = none;
}

abbrev outcome : VenueOrderResult → OrderOutcome
outcome r = record {
  result = r;
  cancel_status = "";
  open_order_count = pos 0;
  open_orders_error = none;
  final_fetch_error = none;
  kalshi_timeout_recovery = none;
  polymarket_timeout_recovery = none;
  polymarket_order_type = some "FAK";
}

abbrev context : Context
context = record {
  flattened = false;
  unwound_shares = pos 0;
  kalshi_stream = some "confirmed";
  polymarket_stream = some "timeout";
  risk_hedge = false;
  hedge_failure = none;
  existing_exposure = some (pos 1_000_000_000);
}

abbrev on_kalshi : OrderOutcome
on_kalshi = outcome (result kalshi "executed" (pos 8_000_000_000) (pos 550_000_000))

abbrev on_polymarket : OrderOutcome
on_polymarket = outcome (result polymarket "matched" (pos 8_500_000_000) (pos 400_000_000))

pair-unlocked : (verdict config context on_kalshi on_polymarket).lock ≡ none
unfolding is_definitive_no_fill is_verified_no_fill provably_no_exposure overfill_band
    is_exact_venue_fill fill_count_mismatch partial_fill profit_after_fees
    realized_guaranteed_profit confirmation_lock_reason live_lock_reason is_risk_quarantinable
    open_order_risk net_polymarket unresolved_exposure risk_quarantine_decision initial_lock_reason
    verdict is_timeout_or_unknown round_product lower to_lower is_one_of same_codes includes
    has_prefix ◌+ℤ◌ ◌-ℤ◌ scale round_dollars floor_div
pair-unlocked = refl

pair-unquarantined : (verdict config context on_kalshi on_polymarket).quarantine ≡ none
unfolding is_definitive_no_fill is_verified_no_fill provably_no_exposure overfill_band
    is_exact_venue_fill fill_count_mismatch partial_fill profit_after_fees
    realized_guaranteed_profit confirmation_lock_reason live_lock_reason is_risk_quarantinable
    open_order_risk net_polymarket unresolved_exposure risk_quarantine_decision initial_lock_reason
    verdict is_timeout_or_unknown round_product lower to_lower is_one_of same_codes includes
    has_prefix ◌+ℤ◌ ◌-ℤ◌ scale round_dollars floor_div
pair-unquarantined = refl

verdict-Accounted_example :
    (context.flattened ≡ true)
    ⊎ ((provably_no_exposure config on_kalshi on_polymarket ≡ true)
        ⊎ Accounted config context on_kalshi.result on_polymarket.result)
verdict-Accounted_example =
    verdict-Accounted config context on_kalshi on_polymarket pair-unlocked pair-unquarantined

-- Polymarket has filled without its hedge.
abbrev unhedged : OrderOutcome
unhedged = outcome (result kalshi "canceled" (pos 0) (pos 550_000_000))

one_leg-quarantined :
    (verdict config context unhedged on_polymarket).quarantine ≡ some (pos 3_400_000_000)
unfolding is_definitive_no_fill is_verified_no_fill provably_no_exposure overfill_band
    is_exact_venue_fill fill_count_mismatch partial_fill profit_after_fees
    realized_guaranteed_profit confirmation_lock_reason live_lock_reason is_risk_quarantinable
    open_order_risk net_polymarket unresolved_exposure risk_quarantine_decision initial_lock_reason
    verdict is_timeout_or_unknown round_product lower to_lower is_one_of same_codes includes
    has_prefix ◌+ℤ◌ ◌-ℤ◌ scale round_dollars floor_div
one_leg-quarantined = refl

verdict-Capped_example :
    Capped config context unhedged on_polymarket (pos 3_400_000_000)
    × ((verdict config context unhedged on_polymarket).lock ≡ none)
verdict-Capped_example =
    verdict-Capped config context unhedged on_polymarket (pos 3_400_000_000) one_leg-quarantined

abbrev sale : Sale
sale = record {
  order_id = some "s";
  fill_count = some (pos 9_000_000_000);
  market_sell = false;
  limit_price = some (pos 380_000_000);
}

verified_unwound_shares-Proven_example :
    let c =
      verified_unwound_shares
        (some sale)
        (pos 8_500_000_000)
        (some (pos 400_000_000))
        (pos 340_000_000_000_000_000) in
    (c ≡ pos 0)
    ⊎ Proven sale (pos 8_500_000_000) (some (pos 400_000_000)) (pos 340_000_000_000_000_000) c
verified_unwound_shares-Proven_example =
    verified_unwound_shares-Proven sale (pos 8_500_000_000) (some (pos 400_000_000))
      (pos 340_000_000_000_000_000) (omega arith)

abbrev unwinding : UnwindConfig
unwinding = record {
  require_terminal_counter_leg = true;
  max_loss_cents_per_share = pos 40_000_000;
}

-- The adapter reports a sale of whatever was asked.
abbrev sold : VenueUnwindRequest → VenueUnwindOutcome
sold r = record {
  flattened = true;
  sale = some (record sale { fill_count = some r.fill_count });
  loss_dollars = none;
  unwound_shares = none;
  naked_token_id = none;
  naked_residual_shares = none;
  naked_retained_shares = none;
}
