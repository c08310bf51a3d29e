-- ===== src/Examples/Feeds.antt =====
-- Concrete inputs for the order books of src/polymarket/client.ts and the store of src/books.
use pok_poly_kalshi.Prelude.{ℕ, String, true, false, ◌≡◌, refl, none, some, List, [], ◌∷◌}
use pok_poly_kalshi.Prelude.Tests.{text_key, ◌==◌}
use pok_poly_kalshi.Prelude.JsMap.{JsMap, get}
use pok_poly_kalshi.Prelude.JsSet.{has}
use pok_poly_kalshi.Prelude.Int.{ℤ, pos}
use pok_poly_kalshi.Types.{finite, not_finite, yes_leg, BinaryContract}
use pok_poly_kalshi.Books.Store.{
  BookStore, TokenMapping, TokenBookSnapshot, set_kalshi_contracts, set_polymarket_contracts,
  apply_polymarket_snapshot, ids_of, noted,
}
use pok_poly_kalshi.Books.Store.Discovery.{updated, set_contracts-updated}
use pok_poly_kalshi.Books.Store.Snapshots.{Shows, apply_polymarket_snapshot-Shows}
use pok_poly_kalshi.Books.Levels.{best_bid, best_ask, sorted_levels, higher_price, lower_price}
use pok_poly_kalshi.Books.Levels.Best.{front, best-front}
use pok_poly_kalshi.Books.Token.{PriceLevel, BookMessage, Parser, empty_book, apply, apply_message}
use pok_poly_kalshi.Books.Token.Ordered.{IsGood, apply-IsGood}
use pok_poly_kalshi.Books.Token.Resync.{ShowsMessage, book-ShowsMessage}
use pok_poly_kalshi.Examples.Scan.{low, high}

abbrev store : BookStore
store = record {
  kalshi = (high.contract_id, high) ∷ [];
  polymarket = (low.contract_id, low) ∷ [];
  poly_token_to_contract = ("yes-token", record { contract_id = "pm-low"; side = yes_leg }) ∷ [];
  freshness_from_ws_only = true;
  recorded = [];
}

abbrev found : List BinaryContract
found = record low { updated_at = 900 } ∷ []

found-low : has (ids_of found) "pm-low" ≡ true
unfolding has
found-low = refl

set_contracts-updated_example :
    (updated (get store.kalshi "pm-low") ≡ some 0
      → updated (get (set_kalshi_contracts store found).kalshi "pm-low") ≡ some 0)
    × (updated (get store.polymarket "pm-low") ≡ some 0
        → updated (get (set_polymarket_contracts store found).polymarket "pm-low") ≡ some 0)
set_contracts-updated_example = set_contracts-updated store found "pm-low" 0 refl found-low

abbrev tick : TokenBookSnapshot
tick = record {
  token_id = "yes-token";
  best_bid = some (pos 390_000_000);
  best_ask = some (pos 410_000_000);
  bid_levels = [];
  ask_levels = [];
  hash = none;
  tick_size = none;
  tick_size_changed_at = none;
  timestamp = 950;
}

abbrev mapping : TokenMapping
mapping = record { contract_id = "pm-low"; side = yes_leg }

tick-mapped : get store.poly_token_to_contract "yes-token" ≡ some mapping
unfolding get
tick-mapped = refl

low-there : get store.polymarket "pm-low" ≡ some low
unfolding get
low-there = refl

apply_polymarket_snapshot-Shows_example :
    let t = apply_polymarket_snapshot store tick in
    ((d : BinaryContract) × (get t.polymarket "pm-low" ≡ some d)
      × Shows tick yes_leg low d
      × (t.recorded ≡ noted d yes_leg tick.timestamp ∷ store.recorded))
    × ((id : String) → ("pm-low" == id) ≡ false → get t.polymarket id ≡ get store.polymarket id)
    × (t.kalshi ≡ store.kalshi)
    × (t.poly_token_to_contract ≡ store.poly_token_to_contract)
apply_polymarket_snapshot-Shows_example =
    apply_polymarket_snapshot-Shows store tick mapping low tick-mapped low-there

abbrev ladder : JsMap ℤ ℤ
ladder = (pos 410_000_000, pos 5) ∷ (pos 400_000_000, pos 7) ∷ (pos 390_000_000, pos 0) ∷ []

best-front_example :
    (best_bid ladder ≡ front (sorted_levels higher_price ladder))
    × (best_ask ladder ≡ front (sorted_levels lower_price ladder))
best-front_example = best-front ladder

abbrev level : ℕ → ℕ → PriceLevel
level price size = record { price = finite (pos price); size = finite (pos size) }

abbrev full_book : BookMessage
full_book = record {
  event_type = some "book";
  asset_id = some "yes-token";
  best_bid = none;
  best_ask = none;
  hash = some "h1";
  tick_size = some (finite (pos 10_000_000));
  bids = some (level 390_000_000 5 ∷ level 395_000_000 2 ∷ []);
  asks = some (level 410_000_000 5 ∷ level 405_000_000 9 ∷ []);
  changes = none;
  price_changes = none;
}

-- An ask is taken away, and a bid has no number.
abbrev changed : BookMessage
changed = record full_book {
  event_type = some "price_change";
  price_changes = some (
      record {
        asset_id = "yes-token";
        side = some "SELL";
        price = some (finite (pos 405_000_000));
        size = some (finite (pos 0));
        best_bid = none;
        best_ask = none;
      }
      ∷ record {
        asset_id = "yes-token";
        side = some "BUY";
        price = some not_finite;
        size = some (finite (pos 3));
        best_bid = none;
        best_ask = some (finite (pos 410_000_000));
      }
      ∷ []);
}

apply-IsGood_example : IsGood (apply [] (some full_book ∷ none ∷ some changed ∷ []) 950)
apply-IsGood_example = apply-IsGood [] (some full_book ∷ none ∷ some changed ∷ []) 950 tt

abbrev crossed : Parser
crossed = ("yes-token", record empty_book { best_ask_override = some (pos 380_000_000) }) ∷ []

book-ShowsMessage_example :
    (s : TokenBookSnapshot) × ((apply_message crossed full_book 950).1 ≡ s ∷ [])
    × (s.token_id ≡ "yes-token")
    × ShowsMessage full_book s
book-ShowsMessage_example = book-ShowsMessage crossed full_book "yes-token" 950 refl refl refl
