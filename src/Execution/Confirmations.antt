-- ===== src/Execution/Confirmations.antt =====
-- src/execution/venue-confirmations.ts: what an order of the executor and an event of a private stream
-- say about each other. The coordinator that joins them is in the child `Coordinator`.
pub mod Coordinator
pub mod Classify
pub mod Lock
pub mod Known
pub mod Handling
use pok_poly_kalshi.Prelude.{
  ℕ, ◌+◌, ◌≤◌, String, Bool, true, false, Option, none, some, List, [], ◌∷◌, ◌&&◌, ◌||◌, not,
}
use pok_poly_kalshi.Prelude.Tests.{
  if◌then◌else◌, is_some, or_default, or_else, ltb, leb, ◌==◌, text_key,
}
use pok_poly_kalshi.Prelude.Int.{ℤ, pos, ◌+ℤ◌, ◌-ℤ◌, ltb_ℤ, leb_ℤ, max_ℤ, abs}
use pok_poly_kalshi.Prelude.Text.{codes, lower, includes, is_one_of}
use pok_poly_kalshi.Types.{Venue, kalshi, polymarket, same_venue, ArbLeg}

pub record VenueOrderResult : Type 0 where
  pub venue : Venue
  pub client_order_id : Option String
  pub order_id : Option String
  pub status : String
  pub fill_count : Option ℤ
  pub fill_price : Option ℤ
  pub fee : Option ℤ
  pub exchange_timestamp_ms : Option ℕ
  pub error : Option String

pub record VenueOrderEvent : Type 0 where
  pub venue : Venue
  pub event_type : Option String
  pub client_order_id : Option String
  pub venue_order_id : Option String
  pub asset_id : Option String
  pub market_id : Option String
  pub status : String
  pub fill_count : Option ℤ
  pub fill_price : Option ℤ
  pub fee : Option ℤ
  pub exchange_timestamp_ms : Option ℕ
  pub received_at_ms : Option ℕ

pub data ConfirmationStatus : Type 0 where
  confirmed timeout mismatch failed not_required : ConfirmationStatus

pub record VenueConfirmationResult : Type 0 where
  pub venue : Venue
  pub status : ConfirmationStatus
  pub client_order_id : Option String
  pub venue_order_id : Option String
  pub fill_count : Option ℤ
  pub fill_price : Option ℤ
  pub fee : Option ℤ
  pub exchange_timestamp_ms : Option ℕ
  pub received_at_ms : Option ℕ
  pub event_type : Option String

-- 0.000001 shares.
abbrev pub epsilon : ℤ
epsilon = pos 1000

unfoldable pub is_confirming_status : String → Bool
is_confirming_status status =
    is_one_of ("confirmed" ∷ "filled" ∷ "matched" ∷ "executed" ∷ []) (lower status)

unfoldable pub is_failure_status : String → Bool
is_failure_status status =
    is_one_of ("failed" ∷ "rejected" ∷ "error" ∷ "canceled" ∷ "cancelled" ∷ []) (lower status)

abbrev mentions_timeout : Option String → Bool
mentions_timeout none = false
mentions_timeout (some text) = includes (codes "timeout") (lower text)

unfoldable pub result_needs_confirmation : VenueOrderResult → Bool
result_needs_confirmation r =
    r.status == "unknown"
    || (mentions_timeout r.error
        || (not (is_some r.error) && ltb_ℤ (pos 0) (or_default r.fill_count (pos 0))))

-- `a && b === a`: a text that is there, is not empty and is the same.
abbrev pub same_text : Option String → Option String → Bool
same_text none b = false
same_text (some a) none = false
same_text (some a) (some b) = not (a == "") && a == b

abbrev is_rest : Option String → Bool
is_rest none = false
is_rest (some t) = t == "rest_response"

abbrev is_polymarket : Venue → Bool
is_polymarket kalshi = false
is_polymarket polymarket = true

unfoldable pub event_matches_expected : VenueOrderEvent → VenueOrderResult → ArbLeg → ℕ → Bool
event_matches_expected e r leg submitted_at =
    if not (same_venue e.venue r.venue) || is_rest e.event_type
    then false
    else if same_text r.client_order_id e.client_order_id || same_text r.order_id e.venue_order_id
    then true
    else if ltb (or_default e.received_at_ms 0 + 1000) submitted_at
    then false
    else is_polymarket r.venue && same_text leg.token_id e.asset_id
      || same_text e.market_id (some leg.contract_id)

-- An underfill, or an overfill beyond the band.
unfoldable pub is_mismatch : Option ℤ → ℤ → ℤ → Bool
is_mismatch none expected band = false
is_mismatch (some n) expected band =
    ltb_ℤ n (expected -ℤ epsilon) || ltb_ℤ (expected +ℤ max_ℤ (pos 0) band +ℤ epsilon) n

unfoldable pub confirmation_status : String → Option ℤ → ℤ → ℤ → Bool → ConfirmationStatus
confirmation_status status fill_count expected band tolerant =
    let confirming =
      is_confirming_status status || (tolerant && ltb_ℤ (pos 0) (or_default fill_count (pos 0))) in
    if is_failure_status status
    then failed
    else if is_mismatch fill_count expected band
    then mismatch
    else if confirming
    then confirmed
    else mismatch

unfoldable pub confirmation_from_event :
    VenueOrderEvent → VenueOrderResult → ℤ → ℤ → Bool → VenueConfirmationResult
confirmation_from_event e r expected band tolerant = record {
  venue = r.venue;
  status = confirmation_status e.status e.fill_count expected band tolerant;
  client_order_id = or_else e.client_order_id r.client_order_id;
  venue_order_id = or_else e.venue_order_id r.order_id;
  fill_count = e.fill_count;
  fill_price = e.fill_price;
  fee = e.fee;
  exchange_timestamp_ms = e.exchange_timestamp_ms;
  received_at_ms = e.received_at_ms;
  event_type = e.event_type;
}

unfoldable pub timeout_confirmation : VenueOrderResult → VenueConfirmationResult
timeout_confirmation r = record {
  venue = r.venue;
  status = timeout;
  client_order_id = r.client_order_id;
  venue_order_id = r.order_id;
  fill_count = none;
  fill_price = none;
  fee = none;
  exchange_timestamp_ms = none;
  received_at_ms = none;
  event_type = none;
}

-- The answer when no confirmation is waited for.
unfoldable pub rest_confirmation : VenueOrderResult → VenueConfirmationResult
rest_confirmation r = record {
  venue = r.venue;
  status = not_required;
  client_order_id = r.client_order_id;
  venue_order_id = r.order_id;
  fill_count = r.fill_count;
  fill_price = r.fill_price;
  fee = r.fee;
  exchange_timestamp_ms = r.exchange_timestamp_ms;
  received_at_ms = none;
  event_type = some "rest_response";
}
