-- ===== src/Examples/Orders.antt =====
-- Concrete inputs for src/execution.
use pok_poly_kalshi.Prelude.{
  ◌+◌, ◌≤◌, true, false, ◌≡◌, refl, ◌≢◌, ◌↔◌, none, some, [], ◌∷◌, arith, inl,
}
use pok_poly_kalshi.Prelude.Lists.{length, keep, All}
use pok_poly_kalshi.Prelude.Int.{ℤ, pos, ◌+ℤ◌, ◌-ℤ◌, ◌≤ℤ◌}
use pok_poly_kalshi.Prelude.Text.{lower, to_lower, is_one_of, same_codes}
use pok_poly_kalshi.Prelude.Money.{dollar}
use pok_poly_kalshi.Types.{kalshi, polymarket, ArbLeg, yes_leg, no_leg, finite}
use pok_poly_kalshi.Execution.Confirmations.{
  VenueOrderResult, VenueOrderEvent, is_failure_status, is_confirming_status, confirmation_status,
  is_mismatch, confirmed,
}
use pok_poly_kalshi.Execution.Confirmations.Coordinator.{
  Options, client, Coordinator, confirmation_band, prior_for, remember_known_order, is_unsafe,
  matches, handle_event,
}
use pok_poly_kalshi.Execution.Confirmations.Lock.{confirmed-safe}
use pok_poly_kalshi.Execution.Confirmations.Known.{Covers, remember_monotone}
use pok_poly_kalshi.Execution.Confirmations.Handling.{IsIn, handle_event-answers}
use pok_poly_kalshi.Execution.EconomicPrices.{
  economic_fill_price_for_leg, bounded_binary_price, normalized,
}
use pok_poly_kalshi.Execution.EconomicPrices.Choice.{Booked, economic_price-Booked}
use pok_poly_kalshi.Execution.Exposure.{DashboardSignal, attempt_failed}
use pok_poly_kalshi.Execution.LockCache.{
  Lock, EngageInput, critical, create_cache, get_active_lock, engage_lock, refresh_done,
}
use pok_poly_kalshi.Execution.LockCache.Blocking.{
  IsServed, handle_all, refreshed, refresh_failed, asked, get_active_lock-none_iff, engaged-blocks,
  engaged_meanwhile, late_refresh-unlocks,
}

abbrev ten : ℤ
ten = pos 10_000_000_000

abbrev options : Options
options = record {
  enabled = true;
  auto_hardlocks_enabled = none;
  flat_miss_non_blocking = true;
  overfill_tolerance_shares = pos 1_000_000_000;
  confirmation_overfill_tolerant = true;
  confirmation_status_tolerant = true;
}

ten-confirmed :
    confirmation_status "filled" (some ten) ten (confirmation_band options) true ≡ confirmed
unfolding confirmation_status is_failure_status is_confirming_status is_mismatch confirmation_band
    lower to_lower is_one_of same_codes ◌+ℤ◌ ◌-ℤ◌
ten-confirmed = refl

confirmed-safe_example : is_unsafe options "filled" ten ten (pos 0) ≡ false
confirmed-safe_example =
    confirmed-safe options "filled" (some ten) ten (pos 0) true refl ten-confirmed

abbrev the_leg : ArbLeg
the_leg = record {
  venue = polymarket;
  contract_id = "pm";
  direction = yes_leg;
  strike = pos 100_000_000_000_000;
  ask = pos 400_000_000;
  token_id = some "token";
}

abbrev unknown_result : VenueOrderResult
unknown_result = record {
  venue = polymarket;
  client_order_id = some "c1";
  order_id = none;
  status = "unknown";
  fill_count = some (pos 2_000_000_000);
  fill_price = none;
  fee = none;
  exchange_timestamp_ms = none;
  error = none;
}

abbrev event : VenueOrderEvent
event = record {
  venue = polymarket;
  event_type = none;
  client_order_id = some "c1";
  venue_order_id = some "v1";
  asset_id = none;
  market_id = none;
  status = "matched";
  fill_count = some ten;
  fill_price = none;
  fee = none;
  exchange_timestamp_ms = none;
  received_at_ms = some 1000;
}

abbrev coordinator : Coordinator
coordinator = record {
  options = options;
  pending =
      record {
        id = 1;
        result = unknown_result;
        execution_group_id = "g";
        expected_size = ten;
        leg = the_leg;
        submitted_at_ms = 900;
      }
      ∷ [];
  recent_events = [];
  known_orders = [];
  resolutions = [];
  locks = [];
}

remember_monotone_example :
    let after = remember_known_order [] unknown_result "g" ten in
    Covers
      (prior_for [] "g" (some (client polymarket "c1")))
      (prior_for after "g" (some (client polymarket "c1")))
    × Covers (some (pos 2_000_000_000)) (prior_for after "g" (some (client polymarket "c1")))
remember_monotone_example =
    remember_monotone [] unknown_result "g" ten (client polymarket "c1") (inl refl)

handle_event-answers_example :
    let d = handle_event coordinator event in
    (length d.resolutions
      ≡ length coordinator.resolutions + length (keep (matches event) coordinator.pending))
    × All (λ q. IsIn q coordinator.pending × (matches event q ≡ false)) d.pending
    × (length d.recent_events ≤ 500)
handle_event-answers_example = handle_event-answers coordinator event

get_active_lock-none_iff_example :
    ((get_active_lock (create_cache 2000 500) 7).1 ≡ none)
    ↔ (IsServed (create_cache 2000 500) 7 × ((create_cache 2000 500).cached ≡ none))
get_active_lock-none_iff_example = get_active_lock-none_iff (create_cache 2000 500) 7

abbrev request : EngageInput
request = record {
  reason = "overfill";
  severity = none;
  source_signal_id = some 7;
  execution_group_id = none;
  details = none;
}

engaged-blocks_example :
    (get_active_lock
      (handle_all
        (engage_lock (create_cache 2000 500) request 10).0
        (refreshed ∷ asked 5000 ∷ refresh_failed ∷ []))
      20).1
    ≢ none
engaged-blocks_example =
    engaged-blocks (create_cache 2000 500) request 10 (refreshed ∷ asked 5000 ∷ refresh_failed ∷ [])
      20

abbrev kept_lock : Lock
kept_lock = record {
  id = pos 12;
  created_at = 10;
  reason = "overfill";
  severity = critical;
  source_signal_id = some 7;
  execution_group_id = none;
  details = [];
  cleared_at = none;
  clear_reason = none;
}

late_refresh-unlocks_example :
    let d = engaged_meanwhile (create_cache 2000 500) request kept_lock 10 15 in
    (d.refresh_in_flight ≡ true)
    × (d.queries ≡ 0 + 1)
    × (d.engaged ≡ request ∷ [])
    × ((get_active_lock d 15).1 ≡ some kept_lock)
    × ((get_active_lock (refresh_done d (some none) 16) 20).1 ≡ none)
late_refresh-unlocks_example =
    late_refresh-unlocks (create_cache 2000 500) request kept_lock 10 15 15 16 20 refl refl
      (omega arith) (omega arith)

-- A NO of Kalshi reported at 70 cents, while the ask was 31 cents.
economic_price-Booked_example :
    let bounded = bounded_binary_price (normalized (pos 700_000_000)) in
    (p : ℤ) × (economic_fill_price_for_leg kalshi no_leg
        (some (finite (pos 700_000_000)))
        (some (finite (pos 310_000_000)))
      ≡ some p)
    × (pos 0 ≤ℤ p)
    × (p ≤ℤ dollar)
    × Booked kalshi no_leg bounded (some (finite (pos 310_000_000))) p
economic_price-Booked_example =
    economic_price-Booked kalshi no_leg (pos 700_000_000) (some (finite (pos 310_000_000)))

-- A failed attempt whose Polymarket leg filled alone, with three dollars in quarantine.
abbrev pub one_sided : DashboardSignal
one_sided = record {
  id = 7;
  action = attempt_failed;
  execution_group_id = some "g";
  reconciliation_resolved_at = none;
  partial_fill = true;
  kalshi_fill_count = some (pos 0);
  polymarket_fill_count = some ten;
  kalshi_status = some "canceled";
  polymarket_status = some "matched";
  risk_quarantined_at = some 1000;
  risk_quarantine_exposure_dollars = some (finite (pos 3_000_000_000));
  expiry_ms = 1_700_000_000_000;
  created_at = some 1_699_999_000_000;
  lower = the_leg;
  higher = record the_leg { venue = kalshi; contract_id = "k"; direction = no_leg };
  kalshi_contract_id = "k";
  polymarket_contract_id = "pm";
  kalshi_confirmation = none;
  polymarket_confirmation = none;
}
