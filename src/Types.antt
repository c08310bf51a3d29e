-- ===== src/Types.antt =====
-- src/types.ts: the records that the scanner, the book store and the execution path share. Strikes,
-- asks and sizes are integers, in billionths; times are whole milliseconds.
use pok_poly_kalshi.Prelude.{ℕ, String, Bool, true, false, Option, List}
use pok_poly_kalshi.Prelude.Int.{ℤ}

pub data Venue : Type 0 where
  kalshi polymarket : Venue

pub data LegDirection : Type 0 where
  yes_leg no_leg : LegDirection

abbrev pub same_venue : Venue → Venue → Bool
same_venue kalshi kalshi = true
same_venue polymarket polymarket = true
same_venue kalshi polymarket = false
same_venue polymarket kalshi = false

abbrev pub is_yes : LegDirection → Bool
is_yes yes_leg = true
is_yes no_leg = false

-- A number that the source tests with `Number.isFinite`.
pub data Number : Type 0 where
  finite : ℤ → Number
  not_finite : Number

pub record BookLevel : Type 0 where
  pub price : Number
  pub size : Number

-- The asset is a constant of the type, "BTC"; the title and the slug are not modelled.
pub record BinaryContract : Type 0 where
  pub venue : Venue
  pub contract_id : String
  pub expiry_ms : ℕ
  pub strike : ℤ
  pub yes_ask : Option ℤ
  pub no_ask : Option ℤ
  pub yes_bid : Option ℤ
  pub no_bid : Option ℤ
  pub yes_ask_levels : Option (List BookLevel)
  pub no_ask_levels : Option (List BookLevel)
  pub yes_bid_levels : Option (List BookLevel)
  pub no_bid_levels : Option (List BookLevel)
  pub sequence : Option ℕ
  pub book_hash : Option String
  pub tick_size : Option ℤ
  pub tick_size_changed_at : Option ℕ
  pub yes_token_id : Option String
  pub no_token_id : Option String
  pub updated_at : ℕ

pub record ArbLeg : Type 0 where
  pub venue : Venue
  pub contract_id : String
  pub direction : LegDirection
  pub strike : ℤ
  pub ask : ℤ
  pub token_id : Option String

-- How the two print.
abbrev pub venue_text : Venue → String
venue_text kalshi = "kalshi"
venue_text polymarket = "polymarket"

abbrev pub direction_text : LegDirection → String
direction_text yes_leg = "yes"
direction_text no_leg = "no"
