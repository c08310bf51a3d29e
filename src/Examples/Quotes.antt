-- ===== src/Examples/Quotes.antt =====
-- Concrete inputs for the quote gate of src/execution/quote-quality.ts.
use pok_poly_kalshi.Prelude.{ℕ, ◌≤◌, ◌<◌, true, false, ◌≡◌, refl, some, [], ◌∷◌, arith, ◌⊎◌}
use pok_poly_kalshi.Prelude.Tests.{or_default}
use pok_poly_kalshi.Prelude.Int.{ℤ, pos, ◌+ℤ◌, ◌≤ℤ◌}
use pok_poly_kalshi.Prelude.Money.{dollar}
use pok_poly_kalshi.Types.{kalshi, polymarket, finite, BookLevel}
use pok_poly_kalshi.Prelude.Sort.{sort_by, insert_by}
use pok_poly_kalshi.Prelude.Money.{round_dollars, floor_div}
use pok_poly_kalshi.Prelude.Int.{◌-ℤ◌, scale}
use pok_poly_kalshi.Scanner.Candidate.{leg, protected_candidate, candidate_from_legs}
use pok_poly_kalshi.Execution.Depth.{
  usable, usable_levels, take_level, walk, walked, full_walk, round_ratio, depth_weighted_ask,
  size_up_to, executable_liquidity_within_band,
}
use pok_poly_kalshi.Execution.LegQuote.{
  QuoteConfig, LiveQuoteBooks, leg_for_venue, find_contract, quote_leg, price_leg, leg_snapshot,
  total_size, spread_for, expected_kalshi_fee,
}
use pok_poly_kalshi.Execution.LegQuote.Fill.{Fillable}
use pok_poly_kalshi.Execution.QuoteQuality.{
  evaluation, evaluation_reason, evaluate_live_quote_quality, polymarket_max_age,
}
use pok_poly_kalshi.Execution.QuoteQuality.Admits.{ok-profitable, ok-Fillable}
use pok_poly_kalshi.Execution.QuoteQuality.Size.{
  size_clears, select_executable_size, min_size, max_size, shares, select-largest,
}
use pok_poly_kalshi.Examples.Scan.{low, high, two_cents, spread}

abbrev config : QuoteConfig
config = record {
  order_size = shares 8;
  min_book_depth_shares = shares 10;
  quote_max_age_ms = 750;
  polymarket_quote_max_age_ms = some 500;
  quote_sync_max_skew_ms = 250;
  quote_skew_both_fresh_enabled = true;
  taker_price_cushion_cents = pos 10_000_000;
  fee_aware_gate_enabled = false;
  min_executable_liquidity_shares = pos 0;
  max_executable_ask_slippage_cents = pos 0;
  min_profit_dollars = two_cents;
  dynamic_sizing_enabled = true;
  min_order_size = shares 8;
  max_order_size = shares 12;
  dynamic_sizing_max_kalshi_slippage_cents = pos 100_000_000;
  collateral_buffer_dollars = pos 250_000_000;
}

abbrev offered : ℤ → ℕ → BookLevel
offered price size = record { price = finite price; size = finite (shares size) }

abbrev books : LiveQuoteBooks
books = record {
  kalshi_books =
      record high { no_ask_levels = some (offered (pos 550_000_000) 20 ∷ []); updated_at = 10_000 }
      ∷ [];
  polymarket_books =
      record low {
        yes_ask_levels = some (offered (pos 405_000_000) 9 ∷ offered (pos 400_000_000) 5 ∷ []);
        updated_at = 10_100;
      }
      ∷ [];
}

spread-admitted :
    (evaluate_live_quote_quality spread books config 10_200 (pos 0) (shares 8)).ok ≡ true
unfolding evaluate_live_quote_quality evaluation evaluation_reason quote_leg price_leg leg_snapshot
    total_size find_contract leg_for_venue spread_for expected_kalshi_fee usable usable_levels
    take_level walk walked full_walk round_ratio depth_weighted_ask size_up_to
    executable_liquidity_within_band protected_candidate candidate_from_legs leg round_dollars
    floor_div ◌+ℤ◌ ◌-ℤ◌ scale sort_by insert_by
spread-admitted = refl

ok-profitable_example :
    let e = evaluate_live_quote_quality spread books config 10_200 (pos 0) (shares 8) in
    (k : ℤ) × (p : ℤ) × (e.kalshi_max_buy_price ≡ some k)
    × (e.polymarket_max_buy_price ≡ some p)
    × ((k
          +ℤ p
          +ℤ or_default e.snapshot.expected_kalshi_fee_per_share (pos 0)
          +ℤ config.min_profit_dollars)
        ≤ℤ (dollar +ℤ pos 1))
ok-profitable_example = ok-profitable spread books config 10_200 (pos 0) (shares 8) spread-admitted

ok-Fillable_example :
    let e = evaluate_live_quote_quality spread books config 10_200 (pos 0) (shares 8) in
    let k = leg_for_venue spread kalshi in
    let p = leg_for_venue spread polymarket in
    Fillable 10_200 k
      (find_contract books k)
      config.quote_max_age_ms
      (shares 8)
      e.kalshi_max_buy_price
    × Fillable 10_200 p
        (find_contract books p)
        (polymarket_max_age config)
        (shares 8)
        e.polymarket_max_buy_price
ok-Fillable_example = ok-Fillable spread books config 10_200 (pos 0) (shares 8) spread-admitted

select-largest_example :
    let passes = size_clears spread books config (some (shares 7)) 10_200 (pos 0) in
    let size = select_executable_size spread books config (some (shares 7)) 10_200 (pos 0) in
    ((n : ℕ) × (min_size config ≤ n)
      × (n ≤ max_size config)
      × (passes n ≡ true)
      × ((m : ℕ) → n < m → m ≤ max_size config → passes m ≡ false)
      × (size ≡ shares n))
    ⊎ (((m : ℕ) → min_size config ≤ m → m ≤ max_size config → passes m ≡ false)
        × (size ≡ config.order_size))
select-largest_example =
    select-largest spread books config (some (shares 7)) 10_200 (pos 0) refl (omega arith)
