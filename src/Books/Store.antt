-- ===== src/Books/Store.antt =====
-- src/books/book-store.ts: the class `BookStore`. `recorded` keeps what the history was given, newest
-- first; the statistics that it derives are not modelled.
pub mod Discovery
pub mod Snapshots
use pok_poly_kalshi.Prelude.{
  ℕ, ◌+◌, max, String, Bool, true, false, Option, none, some, List, [], ◌∷◌, map, not,
}
use pok_poly_kalshi.Prelude.Tests.{if◌then◌else◌, or_else, is_some, leb, text_key, ◌==◌}
use pok_poly_kalshi.Prelude.Lists.{keep}
use pok_poly_kalshi.Prelude.JsMap.{JsMap, get, set, keys, values}
use pok_poly_kalshi.Prelude.JsSet.{has}
use pok_poly_kalshi.Prelude.Int.{ℤ}
use pok_poly_kalshi.Types.{LegDirection, yes_leg, no_leg, is_yes, BookLevel, BinaryContract}

pub record TokenMapping : Type 0 where
  pub contract_id : String
  pub side : LegDirection

-- An argument of `history.record`.
pub record Recorded : Type 0 where
  pub contract : BinaryContract
  pub direction : LegDirection
  pub timestamp : ℕ

pub record BookStore : Type 0 where
  pub kalshi : JsMap String BinaryContract
  pub polymarket : JsMap String BinaryContract
  pub poly_token_to_contract : JsMap String TokenMapping
  pub freshness_from_ws_only : Bool
  pub recorded : List Recorded

pub record KalshiTickerSnapshot : Type 0 where
  pub market_ticker : String
  pub yes_bid : Option ℤ
  pub yes_ask : Option ℤ
  pub no_bid : Option ℤ
  pub no_ask : Option ℤ
  pub yes_bid_levels : Option (List BookLevel)
  pub yes_ask_levels : Option (List BookLevel)
  pub no_bid_levels : Option (List BookLevel)
  pub no_ask_levels : Option (List BookLevel)
  pub sequence : Option ℕ
  pub book_hash : Option String
  pub tick_size : Option ℤ
  pub tick_size_changed_at : Option ℕ
  pub timestamp : ℕ

pub record TokenBookSnapshot : Type 0 where
  pub token_id : String
  pub best_bid : Option ℤ
  pub best_ask : Option ℤ
  pub bid_levels : List BookLevel
  pub ask_levels : List BookLevel
  pub hash : Option String
  pub tick_size : Option ℤ
  pub tick_size_changed_at : Option ℕ
  pub timestamp : ℕ

-- `{ ...incoming, ...this.keepQuotes(existing, incoming) }`.
unfoldable pub keep_quotes : Bool → Option BinaryContract → BinaryContract → BinaryContract
keep_quotes ws_only none incoming = incoming
keep_quotes ws_only (some existing) incoming = record incoming {
  yes_ask = or_else incoming.yes_ask existing.yes_ask;
  no_ask = or_else incoming.no_ask existing.no_ask;
  yes_bid = or_else incoming.yes_bid existing.yes_bid;
  no_bid = or_else incoming.no_bid existing.no_bid;
  yes_ask_levels = or_else incoming.yes_ask_levels existing.yes_ask_levels;
  no_ask_levels = or_else incoming.no_ask_levels existing.no_ask_levels;
  yes_bid_levels = or_else incoming.yes_bid_levels existing.yes_bid_levels;
  no_bid_levels = or_else incoming.no_bid_levels existing.no_bid_levels;
  sequence = or_else incoming.sequence existing.sequence;
  book_hash = or_else incoming.book_hash existing.book_hash;
  tick_size = or_else incoming.tick_size existing.tick_size;
  tick_size_changed_at = or_else incoming.tick_size_changed_at existing.tick_size_changed_at;
  updated_at = if ws_only then existing.updated_at else max incoming.updated_at existing.updated_at;
}

abbrev pub ids_of : List BinaryContract → List String
ids_of [] = []
ids_of (c ∷ cs) = c.contract_id ∷ ids_of cs

-- The entries whose key is one of the ids: the others are deleted.
unfoldable pub retain : List String → JsMap String BinaryContract → JsMap String BinaryContract
retain ids [] = []
retain ids ((id, c) ∷ m) = if has ids id then (id, c) ∷ retain ids m else retain ids m

unfoldable pub merge_all :
    Bool → JsMap String BinaryContract → List BinaryContract → JsMap String BinaryContract
merge_all ws_only m [] = m
merge_all ws_only m (c ∷ cs) =
    merge_all ws_only (set m c.contract_id (keep_quotes ws_only (get m c.contract_id) c)) cs

-- What `setKalshiContracts` and `setPolymarketContracts` both do to their map.
unfoldable pub merge_contracts :
    Bool → JsMap String BinaryContract → List BinaryContract → JsMap String BinaryContract
merge_contracts ws_only m contracts = merge_all ws_only (retain (ids_of contracts) m) contracts

unfoldable pub set_kalshi_contracts : BookStore → List BinaryContract → BookStore
set_kalshi_contracts s contracts = record s {
  kalshi = merge_contracts s.freshness_from_ws_only s.kalshi contracts;
}

-- A token that is missing or empty is not mapped.
abbrev map_token :
    JsMap String TokenMapping → Option String → String → LegDirection → JsMap String TokenMapping
map_token m none id side = m
map_token m (some token) id side =
    if token == "" then m else set m token (record { contract_id = id; side = side })

unfoldable pub map_tokens :
    JsMap String TokenMapping → List BinaryContract → JsMap String TokenMapping
map_tokens m [] = m
map_tokens m (c ∷ cs) =
    map_tokens
      (map_token (map_token m c.yes_token_id c.contract_id yes_leg) c.no_token_id c.contract_id
        no_leg)
      cs

unfoldable pub set_polymarket_contracts : BookStore → List BinaryContract → BookStore
set_polymarket_contracts s contracts = record s {
  polymarket = merge_contracts s.freshness_from_ws_only s.polymarket contracts;
  poly_token_to_contract = map_tokens [] contracts;
}

unfoldable pub kalshi_update : BinaryContract → KalshiTickerSnapshot → BinaryContract
kalshi_update c snapshot = record c {
  yes_ask = snapshot.yes_ask;
  no_ask = snapshot.no_ask;
  yes_bid = snapshot.yes_bid;
  no_bid = snapshot.no_bid;
  yes_ask_levels = snapshot.yes_ask_levels;
  no_ask_levels = snapshot.no_ask_levels;
  yes_bid_levels = snapshot.yes_bid_levels;
  no_bid_levels = snapshot.no_bid_levels;
  sequence = snapshot.sequence;
  book_hash = snapshot.book_hash;
  tick_size = snapshot.tick_size;
  tick_size_changed_at = snapshot.tick_size_changed_at;
  updated_at = snapshot.timestamp;
}

abbrev pub noted : BinaryContract → LegDirection → ℕ → Recorded
noted c direction timestamp = record { contract = c; direction = direction; timestamp = timestamp }

unfoldable pub kalshi_applied : BookStore → KalshiTickerSnapshot → Option BinaryContract → BookStore
kalshi_applied s snapshot none = s
kalshi_applied s snapshot (some c) =
    let updated = kalshi_update c snapshot in
    record s {
      kalshi = set s.kalshi snapshot.market_ticker updated;
      recorded =
          noted updated no_leg snapshot.timestamp
          ∷ noted updated yes_leg snapshot.timestamp
          ∷ s.recorded;
    }

unfoldable pub apply_kalshi_snapshot : BookStore → KalshiTickerSnapshot → BookStore
apply_kalshi_snapshot s snapshot = kalshi_applied s snapshot (get s.kalshi snapshot.market_ticker)

unfoldable pub polymarket_update :
    BinaryContract → LegDirection → TokenBookSnapshot → BinaryContract
polymarket_update c side snapshot =
    let yes = is_yes side in
    record c {
      yes_ask = if yes then snapshot.best_ask else c.yes_ask;
      no_ask = if yes then c.no_ask else snapshot.best_ask;
      yes_bid = if yes then snapshot.best_bid else c.yes_bid;
      no_bid = if yes then c.no_bid else snapshot.best_bid;
      yes_ask_levels = if yes then some snapshot.ask_levels else c.yes_ask_levels;
      no_ask_levels = if yes then c.no_ask_levels else some snapshot.ask_levels;
      yes_bid_levels = if yes then some snapshot.bid_levels else c.yes_bid_levels;
      no_bid_levels = if yes then c.no_bid_levels else some snapshot.bid_levels;
      book_hash = or_else snapshot.hash c.book_hash;
      tick_size = or_else snapshot.tick_size c.tick_size;
      tick_size_changed_at = or_else snapshot.tick_size_changed_at c.tick_size_changed_at;
      updated_at = snapshot.timestamp;
    }

unfoldable pub polymarket_applied :
    BookStore → TokenBookSnapshot → TokenMapping → Option BinaryContract → BookStore
polymarket_applied s snapshot m none = s
polymarket_applied s snapshot m (some c) =
    let updated = polymarket_update c m.side snapshot in
    record s {
      polymarket = set s.polymarket m.contract_id updated;
      recorded = noted updated m.side snapshot.timestamp ∷ s.recorded;
    }

unfoldable pub polymarket_mapped : BookStore → TokenBookSnapshot → Option TokenMapping → BookStore
polymarket_mapped s snapshot none = s
polymarket_mapped s snapshot (some m) =
    polymarket_applied s snapshot m (get s.polymarket m.contract_id)

unfoldable pub apply_polymarket_snapshot : BookStore → TokenBookSnapshot → BookStore
apply_polymarket_snapshot s snapshot =
    polymarket_mapped s snapshot (get s.poly_token_to_contract snapshot.token_id)

abbrev is_fresh : ℕ → ℕ → BinaryContract → Bool
is_fresh stale_book_ms now c = leb now (c.updated_at + stale_book_ms)

unfoldable pub get_kalshi_contracts : BookStore → ℕ → ℕ → List BinaryContract
get_kalshi_contracts s stale_book_ms now = keep (is_fresh stale_book_ms now) (values s.kalshi)

unfoldable pub get_polymarket_contracts : BookStore → ℕ → ℕ → List BinaryContract
get_polymarket_contracts s stale_book_ms now =
    keep (is_fresh stale_book_ms now) (values s.polymarket)

unfoldable pub get_polymarket_token_ids : BookStore → List String
get_polymarket_token_ids s = keys s.poly_token_to_contract

unfoldable pub get_polymarket_condition_ids : BookStore → List String
get_polymarket_condition_ids s = keys s.polymarket

unfoldable pub get_kalshi_tickers : BookStore → List String
get_kalshi_tickers s = keys s.kalshi
