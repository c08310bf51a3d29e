-- ===== src/Execution/LegQuote.antt =====
-- src/execution/quote-quality.ts: the quote of one leg, `quoteLeg`. Settings in cents count a ten-millionth of a cent, so
-- that a hundredth of one is a billionth of a dollar. Reasons are constructors; sequence, hash and tick
-- of the snapshot of a leg are only copied, and left out.
pub mod Accepted
pub mod Fill
use pok_poly_kalshi.Prelude.{
  ℕ, ◌+◌, ◌-◌, ◌*◌, ◌/◌, String, Bool, false, Option, none, some, List, [], ◌∷◌, ◌&&◌,
}
use pok_poly_kalshi.Prelude.Tests.{if◌then◌else◌, or_default, or_else, leb, ltb, text_key, ◌==◌}
use pok_poly_kalshi.Prelude.Lists.{find}
use pok_poly_kalshi.Prelude.Int.{ℤ, pos, negsuc, ◌+ℤ◌, ◌-ℤ◌, scale, sub_ℕ, ltb_ℤ, min_ℤ, max_ℤ}
use pok_poly_kalshi.Prelude.Money.{dollar, money_tick, round_dollars}
use pok_poly_kalshi.Types.{
  Venue, kalshi, polymarket, LegDirection, Number, finite, not_finite, BookLevel, BinaryContract,
  ArbLeg, same_venue, is_yes,
}
use pok_poly_kalshi.Scanner.Candidate.{ArbCandidate}
use pok_poly_kalshi.Execution.Depth.{
  DepthVwapResult, depth_weighted_ask, executable_liquidity_within_band,
}

-- The settings of `AppConfig` that the gate reads.
pub record QuoteConfig : Type 0 where
  pub order_size : ℤ
  pub min_book_depth_shares : ℤ
  pub quote_max_age_ms : ℕ
  pub polymarket_quote_max_age_ms : Option ℕ
  pub quote_sync_max_skew_ms : ℕ
  pub quote_skew_both_fresh_enabled : Bool
  pub taker_price_cushion_cents : ℤ
  pub fee_aware_gate_enabled : Bool
  pub min_executable_liquidity_shares : ℤ
  pub max_executable_ask_slippage_cents : ℤ
  pub min_profit_dollars : ℤ
  pub dynamic_sizing_enabled : Bool
  pub min_order_size : ℤ
  pub max_order_size : ℤ
  pub dynamic_sizing_max_kalshi_slippage_cents : ℤ
  pub collateral_buffer_dollars : ℤ

pub record LiveQuoteBooks : Type 0 where
  pub kalshi_books : List BinaryContract
  pub polymarket_books : List BinaryContract

pub data QuoteReason : Type 0 where
  no_leg contract_missing quote_stale ask_unavailable depth_below liquidity_below : QuoteReason
  slippage_above tick_changed skew_above edge_below : QuoteReason

pub record QuoteSnapshotLeg : Type 0 where
  pub venue : Venue
  pub contract_id : String
  pub direction : LegDirection
  pub top_ask : Option ℤ
  pub worst_ask : Option ℤ
  pub vwap : Option ℤ
  pub leg_max_buy_price : Option ℤ
  pub depth : ℤ
  pub depth_required : ℤ
  pub levels_consumed : List (ℤ × ℤ)
  pub spread : Option ℤ
  pub quote_age_ms : ℤ
  pub updated_at : ℕ
  pub executable_liquidity_shares : Option ℤ
  pub executable_ask_slippage_cents : Option ℤ

-- What `quoteLeg` returns.
pub record LegQuote : Type 0 where
  pub snapshot : Option QuoteSnapshotLeg
  pub reason : Option QuoteReason
  pub max_buy_price : Option ℤ
  pub adjusted_leg : Option ArbLeg

unfoldable pub leg_for_venue : ArbCandidate → Venue → Option ArbLeg
leg_for_venue c venue =
    if same_venue c.lower.venue venue
    then some c.lower
    else if same_venue c.higher.venue venue
    then some c.higher
    else none

abbrev pub ask_for : BinaryContract → LegDirection → Option ℤ
ask_for c direction = if is_yes direction then c.yes_ask else c.no_ask

abbrev pub bid_for : BinaryContract → LegDirection → Option ℤ
bid_for c direction = if is_yes direction then c.yes_bid else c.no_bid

abbrev pub levels_for : BinaryContract → LegDirection → List BookLevel
levels_for c direction =
    or_default (if is_yes direction then c.yes_ask_levels else c.no_ask_levels) []

-- An operation on two amounts that may be missing.
abbrev pub both : (ℤ → ℤ → ℤ) → Option ℤ → Option ℤ → Option ℤ
both f none b = none
both f (some a) none = none
both f (some a) (some b) = some (f a b)

unfoldable pub spread_for : BinaryContract → LegDirection → Option ℤ
spread_for c direction =
    both (λ ask bid. round_dollars (max_ℤ (pos 0) (ask -ℤ bid))) (ask_for c direction)
      (bid_for c direction)

-- The fee in units of a hundredth of a billionth of a billionth, for a price between nought and one.
abbrev pub fee_of : ℤ → ℕ
fee_of (negsuc n) = 0
fee_of (pos p) = if leb 1_000_000_000 p then 0 else 7 * (p * (1_000_000_000 - p))

-- `roundPrice(expectedKalshiFeePerShare(price))`.
unfoldable pub expected_kalshi_fee : Option ℤ → ℤ
expected_kalshi_fee none = pos 0
expected_kalshi_fee (some price) =
    pos (money_tick * ((fee_of price + 5_000_000_000_000_000) / 10_000_000_000_000_000))

abbrev pub books_of : LiveQuoteBooks → Venue → List BinaryContract
books_of b kalshi = b.kalshi_books
books_of b polymarket = b.polymarket_books

unfoldable pub find_contract : LiveQuoteBooks → Option ArbLeg → Option BinaryContract
find_contract b none = none
find_contract b (some leg) = find (λ c. c.contract_id == leg.contract_id) (books_of b leg.venue)

abbrev pub finite_part : Number → ℤ
finite_part (finite n) = n
finite_part not_finite = pos 0

unfoldable pub total_size : List BookLevel → ℤ
total_size [] = pos 0
total_size (l ∷ ls) = finite_part l.size +ℤ total_size ls

abbrev pub worst_of : Option DepthVwapResult → Option ℤ
worst_of none = none
worst_of (some d) = some d.worst_ask

abbrev vwap_of : Option DepthVwapResult → Option ℤ
vwap_of none = none
vwap_of (some d) = some d.vwap

abbrev depth_of : Option DepthVwapResult → Option ℤ
depth_of none = none
depth_of (some d) = some d.depth

abbrev consumed_of : Option DepthVwapResult → List (ℤ × ℤ)
consumed_of none = []
consumed_of (some d) = d.levels_consumed

abbrev pub depth_required : QuoteConfig → ℤ → ℤ
depth_required o size = max_ℤ size o.min_book_depth_shares

abbrev pub liquidity_guard_on : QuoteConfig → Bool
liquidity_guard_on o = ltb_ℤ (pos 0) o.min_executable_liquidity_shares

abbrev pub slippage_guard_on : QuoteConfig → Bool
slippage_guard_on o = ltb_ℤ (pos 0) o.max_executable_ask_slippage_cents

abbrev pub liquidity_band : QuoteConfig → ℤ
liquidity_band o =
    if slippage_guard_on o then o.max_executable_ask_slippage_cents else o.taker_price_cushion_cents

abbrev pub liquidity_at : QuoteConfig → List BookLevel → Option ℤ → Option ℤ
liquidity_at o levels none = none
liquidity_at o levels (some top) =
    if liquidity_guard_on o
    then some (executable_liquidity_within_band levels top (liquidity_band o))
    else none

-- In billionths of a cent.
abbrev pub slippage : ℤ → ℤ → ℤ
slippage worst top = round_dollars (scale 100 (worst -ℤ top))

-- The snapshot that `quoteLeg` takes before its tests.
unfoldable pub leg_snapshot : QuoteConfig → ℕ → ArbLeg → BinaryContract → ℤ → QuoteSnapshotLeg
leg_snapshot o now leg c size =
    let levels = levels_for c leg.direction in
    let top = ask_for c leg.direction in
    let execution = depth_weighted_ask levels size in
    let required = depth_weighted_ask levels (depth_required o size) in
    record {
      venue = leg.venue;
      contract_id = leg.contract_id;
      direction = leg.direction;
      top_ask = top;
      worst_ask = worst_of execution;
      vwap = vwap_of execution;
      leg_max_buy_price = none;
      depth = or_default (or_else (depth_of required) (depth_of execution)) (total_size levels);
      depth_required = depth_required o size;
      levels_consumed = consumed_of execution;
      spread = spread_for c leg.direction;
      quote_age_ms = sub_ℕ now c.updated_at;
      updated_at = c.updated_at;
      executable_liquidity_shares = liquidity_at o levels top;
      executable_ask_slippage_cents =
          if slippage_guard_on o then both slippage (worst_of execution) top else none;
    }

abbrev pub refused : Option QuoteSnapshotLeg → QuoteReason → LegQuote
refused snapshot reason = record {
  snapshot = snapshot;
  reason = some reason;
  max_buy_price = none;
  adjusted_leg = none;
}

-- The offset over the worst ask, in dollars.
abbrev pub marketable_offset : QuoteConfig → ℤ → ℤ
marketable_offset o extra = max_ℤ (max_ℤ (pos 0) o.taker_price_cushion_cents) (max_ℤ (pos 0) extra)

abbrev pub buy_limit : QuoteConfig → ℤ → ℤ → ℤ
buy_limit o extra worst = round_dollars (min_ℤ dollar (worst +ℤ marketable_offset o extra))

abbrev pub tick_changed_recently : QuoteConfig → ℕ → Option ℕ → Bool
tick_changed_recently o now none = false
tick_changed_recently o now (some at) = leb now (at + o.quote_max_age_ms)

abbrev pub accepted : QuoteConfig → ℤ → ArbLeg → QuoteSnapshotLeg → ℤ → ℤ → LegQuote
accepted o extra leg snapshot top worst = record {
  snapshot = some (record snapshot { leg_max_buy_price = some (buy_limit o extra worst) });
  reason = none;
  max_buy_price = some (buy_limit o extra worst);
  adjusted_leg = some (record leg { ask = top });
}

-- `quoteLeg` past the test of the age: the ask, the depths, the guards and the tick.
unfoldable pub price_leg :
    QuoteConfig
    → ℕ
    → ArbLeg
    → BinaryContract
    → ℤ
    → QuoteSnapshotLeg
    → Option ℤ
    → Option DepthVwapResult
    → Option DepthVwapResult
    → LegQuote
price_leg o now leg c extra s none execution required = refused (some s) ask_unavailable
price_leg o now leg c extra s (some top) none required = refused (some s) depth_below
price_leg o now leg c extra s (some top) (some execution) none = refused (some s) depth_below
price_leg o now leg c extra s (some top) (some execution) (some required) =
    if liquidity_guard_on o
      && ltb_ℤ (or_default s.executable_liquidity_shares (pos 0) +ℤ pos 1)
          o.min_executable_liquidity_shares
    then refused (some s) liquidity_below
    else if slippage_guard_on o
        && ltb_ℤ (scale 100 o.max_executable_ask_slippage_cents +ℤ pos 1)
            (slippage execution.worst_ask top)
    then refused (some s) slippage_above
    else if tick_changed_recently o now c.tick_size_changed_at
    then refused (some s) tick_changed
    else accepted o extra leg s top execution.worst_ask

-- `quoteLeg`: the extra offset, the age and the size are its last three parameters.
unfoldable pub quote_leg :
    QuoteConfig → ℕ → Option ArbLeg → Option BinaryContract → ℤ → ℕ → ℤ → LegQuote
quote_leg o now none contract extra max_age size = refused none no_leg
quote_leg o now (some leg) none extra max_age size = refused none contract_missing
quote_leg o now (some leg) (some c) extra max_age size =
    let s = leg_snapshot o now leg c size in
    if ltb (c.updated_at + max_age) now
    then refused (some s) quote_stale
    else price_leg o now leg c extra s (ask_for c leg.direction)
        (depth_weighted_ask (levels_for c leg.direction) size)
        (depth_weighted_ask (levels_for c leg.direction) (depth_required o size))
