-- ===== src/Examples/Accounts.antt =====
-- Concrete inputs for src/trading.
use pok_poly_kalshi.Prelude.{
  ℕ, String, true, false, ◌≡◌, refl, Option, none, some, List, [], ◌∷◌, arith, ◌⊎◌,
}
use pok_poly_kalshi.Prelude.JsMap.{JsMap}
use pok_poly_kalshi.Prelude.Int.{ℤ, pos, ◌+ℤ◌, ◌<ℤ◌}
use pok_poly_kalshi.Trading.Activity
use pok_poly_kalshi.Trading.Activity.{
  TradingPlatformActivity, TradingActivitySnapshot, TradingPosition, live, reconnecting,
  venue_account_value, summed_positions, kalshi_positions_value,
}
use pok_poly_kalshi.Trading.PortfolioFloor
use pok_poly_kalshi.Trading.PortfolioFloor.{
  PortfolioFloorMonitor, authoritative_total, is_authoritative, reading_at, block_reason, clear,
  record_status, observe, judge, count_breach, latch_if_confirmed, is_enabled,
}
use pok_poly_kalshi.Trading.PortfolioFloor.Latch.{tick-trips, run-latched}
use pok_poly_kalshi.Trading.PortfolioFloor.Streak.{create-latches}
use pok_poly_kalshi.Trading.NakedFlattener
use pok_poly_kalshi.Trading.NakedFlattener.{
  Venue, SellOutcome, answered, NakedResidualRow, Flattener, Reads, read, flatten_one,
}
use pok_poly_kalshi.Trading.NakedFlattener.Plan.{
  IsReady, Acted, held_of, hedge_of, flatten_one-Acted,
}
use pok_poly_kalshi.Trading.NakedFlattener.Safety.{ProvesHedge, tick_guarded}
use pok_poly_kalshi.Trading.NakedFlattener.Cooldown.{Spaced, run-Spaced}

-- An account with cash alone.
abbrev cash_account : Activity.TradingPlatform → ℤ → ℕ → TradingPlatformActivity
cash_account platform cash at = record {
  platform = platform;
  connection_status = live;
  last_updated_at = some at;
  portfolio = record { portfolio_value = none; cash_value = some cash; stale = none };
  positions = [];
}

-- 60 dollars on the two venues together.
abbrev poor : ℕ → TradingActivitySnapshot
poor at = record {
  kalshi_activity = cash_account Activity.kalshi (pos 20_000_000_000) at;
  polymarket_activity = cash_account Activity.polymarket (pos 40_000_000_000) at;
}

abbrev floor : ℤ
floor = pos 100_000_000_000

poor_total : (at : ℕ) → authoritative_total (poor at) ≡ some (pos 60_000_000_000)
unfolding authoritative_total is_authoritative venue_account_value summed_positions
    kalshi_positions_value ◌+ℤ◌
poor_total at = refl

poor_reading : (reading_at (poor 500) 7 ≡ 500) × (reading_at (poor 600) 8 ≡ 600)
unfolding reading_at
poor_reading = (refl, refl)

poor_again : reading_at (poor 500) 9 ≡ 500
unfolding reading_at
poor_again = refl

abbrev two_ticks : List (ℕ × Option TradingActivitySnapshot)
two_ticks = (7, some (poor 500)) ∷ (8, some (poor 600)) ∷ []

create-latches_example :
    (PortfolioFloor.run (PortfolioFloor.create floor 2) two_ticks).latched ≡ true
create-latches_example =
    create-latches floor 2 two_ticks (omega arith) (omega arith) (omega arith) (
      (pos 60_000_000_000, poor_total 500, omega arith),
      rw poor_reading.0 (omega arith),
      (
        (pos 60_000_000_000, poor_total 600, omega arith),
        rw (poor_reading.0, poor_reading.1) (omega arith),
        tt,
      ),
    )

abbrev tripped : PortfolioFloorMonitor
tripped = PortfolioFloor.tick (PortfolioFloor.create floor 1) (some (poor 500)) 7

trips : tripped.latched ≡ true
unfolding PortfolioFloor.tick PortfolioFloor.run
trips =
    create-latches floor 1 ((7, some (poor 500)) ∷ []) (omega arith) (omega arith) (omega arith)
      ((pos 60_000_000_000, poor_total 500, omega arith), rw poor_reading.0 (omega arith), tt)

tick-trips_example :
    (snapshot : TradingActivitySnapshot) × (total : ℤ) × (some (poor 500) ≡ some snapshot)
    × (authoritative_total snapshot ≡ some total)
    × (total <ℤ floor)
    × (tripped.latch_reason ≡ some (record { total = total; floor_dollars = floor }))
unfolding PortfolioFloor.create
tick-trips_example = tick-trips (PortfolioFloor.create floor 1) (some (poor 500)) 7 refl trips

run-latched_example :
    (block_reason (PortfolioFloor.run tripped two_ticks) ≡ block_reason tripped)
    × (block_reason (clear (PortfolioFloor.run tripped two_ticks)) ≡ none)
run-latched_example = run-latched tripped two_ticks trips

abbrev row : NakedResidualRow
row = record {
  id = 3;
  expiry_ms = some 900_000;
  naked_token_id = "token";
  naked_residual_shares = pos 4_000_000_000;
  kalshi_contract_id = some "ticker";
}

-- Every sale is filled, and the store always answers.
abbrev venue : Venue
venue = record { sell = λ now r shares. answered shares none; resolve_error = λ now r. none }

abbrev flattener : Flattener
flattener = record (NakedFlattener.create true) {
  held_by_token = ("token", pos 10_000_000_000) ∷ [];
}

abbrev hedges : JsMap String ℤ
hedges = ("ticker", pos 6_000_000_000) ∷ []

flatten_one-Acted_example :
    let calls = (flatten_one venue flattener row hedges true 1000).calls in
    (calls ≡ flattener.calls)
    ⊎ ((ticker : String) × IsReady flattener row true 1000 ticker
        × Acted venue flattener row 1000 (held_of flattener row) (hedge_of hedges ticker) calls)
flatten_one-Acted_example = flatten_one-Acted venue flattener row hedges true 1000

abbrev position : String → String → String → ℤ → TradingPosition
position id market outcome shares = record {
  id = id;
  market = market;
  outcome = outcome;
  shares = shares;
  value = none;
}

-- Ten shares against a hedge of six.
abbrev holding : TradingActivitySnapshot
holding = record {
  kalshi_activity = record (cash_account Activity.kalshi (pos 0) 1) {
    positions = position "k" "ticker" "no" (pos 6_000_000_000) ∷ [];
  };
  polymarket_activity = record (cash_account Activity.polymarket (pos 0) 1) {
    positions = position "token" "m" "yes" (pos 10_000_000_000) ∷ [];
  };
}

run-Spaced_example :
    Spaced
      (NakedFlattener.run venue
        (NakedFlattener.create true)
        ((1000, read (row ∷ []) holding) ∷ (2000, read (row ∷ []) holding) ∷ [])).calls
run-Spaced_example =
    run-Spaced venue true ((1000, read (row ∷ []) holding) ∷ (2000, read (row ∷ []) holding) ∷ [])
      (omega arith, (omega arith, tt))

tick_guarded_example :
    let f = NakedFlattener.create true in
    let g = NakedFlattener.tick venue f (read (row ∷ []) holding) 1000 in
    (f.enabled ≡ false → g ≡ f)
    × (f.running ≡ true → g ≡ f)
    × (g.running ≡ f.running)
    × (¬ ProvesHedge (read (row ∷ []) holding) → g.calls ≡ f.calls)
tick_guarded_example =
    tick_guarded venue (NakedFlattener.create true) (read (row ∷ []) holding) 1000
