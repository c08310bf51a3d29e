-- ===== src/Books/Token/Resync.antt =====
-- A `book` event of src/polymarket/client.ts brings the parser back in step.
use pok_poly_kalshi.Prelude.{ℕ, String, false, ◌≡◌, refl, Option, none, some, [], ◌∷◌, map}
use pok_poly_kalshi.Prelude.Tests.{or_default, text_key, ◌==◌}
use pok_poly_kalshi.Types.{Number, finite, not_finite}
use pok_poly_kalshi.Books.Store.{TokenBookSnapshot}
use pok_poly_kalshi.Books.Levels.{sorted_levels, higher_price, lower_price, as_level}
use pok_poly_kalshi.Books.Levels.Best.{front, best-front}
use pok_poly_kalshi.Books.Token.{
  BookLevels, BookMessage, Parser, book_of, set_levels, snapshot, book_event, apply_message,
  apply_metadata,
}

-- What a tick leaves of a book.
record SameLevels (a b : BookLevels) : Type 0 where
  bids : a.bids ≡ b.bids
  asks : a.asks ≡ b.asks
  best_bid_override : a.best_bid_override ≡ b.best_bid_override
  best_ask_override : a.best_ask_override ≡ b.best_ask_override

apply_metadata-SameLevels :
    (b : BookLevels) (hash : Option String) (tick : Option Number) (timestamp : ℕ)
    → SameLevels (apply_metadata b hash tick timestamp) b
unfolding apply_metadata
apply_metadata-SameLevels b hash none timestamp = record {
  bids = refl;
  asks = refl;
  best_bid_override = refl;
  best_ask_override = refl;
}
apply_metadata-SameLevels b hash (some not_finite) timestamp = record {
  bids = refl;
  asks = refl;
  best_bid_override = refl;
  best_ask_override = refl;
}
apply_metadata-SameLevels b hash (some (finite t)) timestamp = record {
  bids = refl;
  asks = refl;
  best_bid_override = refl;
  best_ask_override = refl;
}

-- The snapshot of a `book` event shows the levels of the message alone.
pub record ShowsMessage (m : BookMessage) (s : TokenBookSnapshot) : Type 0 where
  pub bid_levels :
      s.bid_levels
      ≡ map as_level (sorted_levels higher_price (set_levels [] (or_default m.bids [])))
  pub ask_levels :
      s.ask_levels ≡ map as_level (sorted_levels lower_price (set_levels [] (or_default m.asks [])))
  pub first_bid :
      s.best_bid ≡ front (sorted_levels higher_price (set_levels [] (or_default m.bids [])))
  pub first_ask :
      s.best_ask ≡ front (sorted_levels lower_price (set_levels [] (or_default m.asks [])))

book_event-ShowsMessage :
    (token : String) (b : BookLevels) (m : BookMessage) (timestamp : ℕ)
    → ShowsMessage m (snapshot token (book_event b m timestamp) timestamp)
unfolding book_event snapshot
book_event-ShowsMessage token b m timestamp =
    let cleared : BookLevels = record b {
      bids = [];
      asks = [];
      best_bid_override = none;
      best_ask_override = none;
    } in
    let same = apply_metadata-SameLevels cleared m.hash m.tick_size timestamp in
    let bids = best-front (set_levels [] (or_default m.bids [])) in
    let asks = best-front (set_levels [] (or_default m.asks [])) in
    record {
      bid_levels = rw (same.bids) refl;
      ask_levels = rw (same.asks) refl;
      first_bid = rw (same.bids, same.best_bid_override) bids.0;
      first_ask = rw (same.asks, same.best_ask_override) asks.1;
    }

-- A `book` message for a token pushes one snapshot, whatever the parser kept before: its levels are those
-- of the message, and its best bid and ask are the first of them.
pub book-ShowsMessage :
    (books : Parser) (m : BookMessage) (token : String) (timestamp : ℕ)
    → m.event_type ≡ some "book"
    → m.asset_id ≡ some token
    → (token == "") ≡ false
    → (s : TokenBookSnapshot) × ((apply_message books m timestamp).1 ≡ s ∷ [])
      × (s.token_id ≡ token)
      × ShowsMessage m s
unfolding apply_message snapshot
book-ShowsMessage books m token timestamp is_book for_token named =
    let b = book_event (book_of books token) m timestamp in
    let s = snapshot token b timestamp in
    (
      s,
      rw (is_book, for_token, named) refl,
      refl,
      book_event-ShowsMessage token (book_of books token) m timestamp,
    )
