-- ===== src/Books/Token.antt =====
-- src/polymarket/client.ts: the class `PolymarketBookParser`. A message is what the schema has let through,
-- `none` what it has refused; a number or a text for a number is `not_finite` when it is no number.
pub mod Ordered
pub mod Resync
use pok_poly_kalshi.Prelude.{
  ℕ, String, Bool, true, false, Option, none, some, List, [], ◌∷◌, ◌++◌, map, ◌&&◌, ◌||◌, not,
}
use pok_poly_kalshi.Prelude.Tests.{if◌then◌else◌, or_default, or_else, is_some, text_key, ◌==◌}
use pok_poly_kalshi.Prelude.JsMap.{JsMap, get, set}
use pok_poly_kalshi.Prelude.Int.{ℤ, same_ℤ}
use pok_poly_kalshi.Prelude.Text.{lower, is_one_of}
use pok_poly_kalshi.Types.{Number, finite, not_finite, BookLevel}
use pok_poly_kalshi.Books.Store.{TokenBookSnapshot}
use pok_poly_kalshi.Books.Levels.{
  set_level, best_bid, best_ask, sorted_levels, higher_price, lower_price, as_level,
}

pub record BookLevels : Type 0 where
  pub bids : JsMap ℤ ℤ
  pub asks : JsMap ℤ ℤ
  pub best_bid_override : Option ℤ
  pub best_ask_override : Option ℤ
  pub hash : Option String
  pub tick_size : Option ℤ
  pub tick_size_changed_at : Option ℕ

pub record PriceLevel : Type 0 where
  pub price : Number
  pub size : Number

pub record PriceChange : Type 0 where
  pub asset_id : String
  pub side : Option String
  pub price : Option Number
  pub size : Option Number
  pub best_bid : Option Number
  pub best_ask : Option Number

pub record BookMessage : Type 0 where
  pub event_type : Option String
  pub asset_id : Option String
  pub best_bid : Option Number
  pub best_ask : Option Number
  pub hash : Option String
  pub tick_size : Option Number
  pub bids : Option (List PriceLevel)
  pub asks : Option (List PriceLevel)
  pub changes : Option (List PriceChange)
  pub price_changes : Option (List PriceChange)

abbrev pub Parser : Type 0
Parser = JsMap String BookLevels

abbrev to_number : Number → Option ℤ
to_number (finite n) = some n
to_number not_finite = none

abbrev pub empty_book : BookLevels
empty_book = record {
  bids = [];
  asks = [];
  best_bid_override = none;
  best_ask_override = none;
  hash = none;
  tick_size = none;
  tick_size_changed_at = none;
}

-- The book that `getBook` returns; the writes of the callers put it into the map.
abbrev pub book_of : Parser → String → BookLevels
book_of books token = or_default (get books token) empty_book

abbrev hash_of : Option String → Option String → Option String
hash_of none old = old
hash_of (some h) old = if h == "" then old else some h

abbrev differs : Option ℤ → ℤ → Bool
differs none tick = false
differs (some old) tick = not (same_ℤ old tick)

abbrev with_tick : BookLevels → Option ℤ → ℕ → BookLevels
with_tick b none timestamp = b
with_tick b (some tick) timestamp = record b {
  tick_size = some tick;
  tick_size_changed_at =
      if differs b.tick_size tick then some timestamp else b.tick_size_changed_at;
}

abbrev tick_of : Option Number → Option ℤ
tick_of none = none
tick_of (some n) = to_number n

unfoldable pub apply_metadata : BookLevels → Option String → Option Number → ℕ → BookLevels
apply_metadata b hash tick timestamp =
    with_tick (record b { hash = hash_of hash b.hash }) (tick_of tick) timestamp

unfoldable pub set_levels : JsMap ℤ ℤ → List PriceLevel → JsMap ℤ ℤ
set_levels m [] = m
set_levels m (l ∷ ls) = set_levels (set_level m l.price l.size) ls

unfoldable pub snapshot : String → BookLevels → ℕ → TokenBookSnapshot
snapshot token b timestamp = record {
  token_id = token;
  best_bid = or_else b.best_bid_override (best_bid b.bids);
  best_ask = or_else b.best_ask_override (best_ask b.asks);
  bid_levels = map as_level (sorted_levels higher_price b.bids);
  ask_levels = map as_level (sorted_levels lower_price b.asks);
  hash = b.hash;
  tick_size = b.tick_size;
  tick_size_changed_at = b.tick_size_changed_at;
  timestamp = timestamp;
}

-- The `book` event on the book of its token.
unfoldable pub book_event : BookLevels → BookMessage → ℕ → BookLevels
book_event b m timestamp =
    let cleared = record b {
      bids = [];
      asks = [];
      best_bid_override = none;
      best_ask_override = none;
    } in
    let marked = apply_metadata cleared m.hash m.tick_size timestamp in
    record marked {
      bids = set_levels marked.bids (or_default m.bids []);
      asks = set_levels marked.asks (or_default m.asks []);
    }

-- Sides are compared without regard to case.
abbrev is_buy : String → Bool
is_buy side = is_one_of ("buy" ∷ "bid" ∷ []) (lower side)

abbrev is_sell : String → Bool
is_sell side = is_one_of ("sell" ∷ "ask" ∷ []) (lower side)

abbrev level_change : Bool → JsMap ℤ ℤ → Option Number → Option Number → JsMap ℤ ℤ
level_change touches m none size = m
level_change touches m (some price) none = m
level_change touches m (some price) (some size) = if touches then set_level m price size else m

abbrev override_change : Bool → Option ℤ → Option Number → Option ℤ
override_change touches old none = if touches then none else old
override_change touches old (some best) = to_number best

-- One change of a `price_change` event.
unfoldable pub price_change : BookLevels → PriceChange → BookLevels
price_change b c =
    let side = or_default c.side "" in
    record b {
      bids = level_change (is_buy side) b.bids c.price c.size;
      asks = level_change (is_sell side) b.asks c.price c.size;
      best_bid_override = override_change (is_buy side) b.best_bid_override c.best_bid;
      best_ask_override = override_change (is_sell side) b.best_ask_override c.best_ask;
    }

abbrev new_override : Option ℤ → Option Number → Option ℤ
new_override old none = old
new_override old (some best) = to_number best

-- The `best_bid_ask` event.
unfoldable pub best_event : BookLevels → BookMessage → ℕ → BookLevels
best_event b m timestamp =
    let marked = apply_metadata b m.hash m.tick_size timestamp in
    record marked {
      best_bid_override = new_override marked.best_bid_override m.best_bid;
      best_ask_override = new_override marked.best_ask_override m.best_ask;
    }

-- The parser and the snapshots that a message adds.
abbrev pub Output : Type 0
Output = Parser × List TokenBookSnapshot

-- The changed book is stored, and its snapshot pushed.
abbrev pub stored : Parser → String → BookLevels → ℕ → Output
stored books token b timestamp = (set books token b, snapshot token b timestamp ∷ [])

abbrev pub after_push : List TokenBookSnapshot → Output → Output
after_push pushed (books, more) = (books, pushed ++ more)

unfoldable pub price_changes : Parser → List PriceChange → ℕ → Output
price_changes books [] timestamp = (books, [])
price_changes books (c ∷ cs) timestamp =
    let (next, pushed) =
      stored books c.asset_id (price_change (book_of books c.asset_id) c) timestamp in
    after_push pushed (price_changes next cs timestamp)

-- An event that needs a token, which may be missing or empty.
abbrev on_token : (BookLevels → BookLevels) → Parser → Option String → ℕ → Output
on_token change books none timestamp = (books, [])
on_token change books (some token) timestamp =
    if token == "" then (books, []) else stored books token (change (book_of books token)) timestamp

unfoldable pub apply_message : Parser → BookMessage → ℕ → Output
apply_message books m timestamp =
    let event = or_default m.event_type "" in
    if event == "book"
    then on_token (λ b. book_event b m timestamp) books m.asset_id timestamp
    else if event == "price_change"
    then price_changes books (or_default (or_else m.price_changes m.changes) []) timestamp
    else if event == "best_bid_ask"
    then on_token (λ b. best_event b m timestamp) books m.asset_id timestamp
    else (books, [])

abbrev pub apply_parsed : Parser → Option BookMessage → ℕ → Output
apply_parsed books none timestamp = (books, [])
apply_parsed books (some m) timestamp = apply_message books m timestamp

unfoldable pub apply : Parser → List (Option BookMessage) → ℕ → Output
apply books [] timestamp = (books, [])
apply books (m ∷ ms) timestamp =
    let (next, pushed) = apply_parsed books m timestamp in
    after_push pushed (apply next ms timestamp)
