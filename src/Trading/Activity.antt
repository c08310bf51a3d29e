-- ===== src/Trading/Activity.antt =====
-- types/trading.ts: the account snapshot of a venue, with the fields that the monitors read, and
-- src/trading/equity-sampler.ts: the account value of a venue. Dollars and shares are integers, in
-- billionths.
use pok_poly_kalshi.Prelude.{
  ℕ, String, Bool, true, false, Option, none, some, List, [], ◌∷◌, not, ◌&&◌,
}
use pok_poly_kalshi.Prelude.Tests.{if◌then◌else◌, or_default, is_some}
use pok_poly_kalshi.Prelude.Int.{ℤ, pos, ◌+ℤ◌, ◌-ℤ◌, ltb_ℤ, abs}

pub data TradingPlatform : Type 0 where
  kalshi polymarket : TradingPlatform

pub data TradingConnectionState : Type 0 where
  live reconnecting : TradingConnectionState

pub record TradingPortfolioSummary : Type 0 where
  pub portfolio_value : Option ℤ
  pub cash_value : Option ℤ
  pub stale : Option Bool

pub record TradingPosition : Type 0 where
  pub id : String
  pub market : String
  pub outcome : String
  pub shares : ℤ
  pub value : Option ℤ

pub record TradingPlatformActivity : Type 0 where
  pub platform : TradingPlatform
  pub connection_status : TradingConnectionState
  pub last_updated_at : Option ℕ
  pub portfolio : TradingPortfolioSummary
  pub positions : List TradingPosition

pub record TradingActivitySnapshot : Type 0 where
  pub kalshi_activity : TradingPlatformActivity
  pub polymarket_activity : TradingPlatformActivity

-- `connectionStatus === "live"`.
abbrev pub is_live : TradingConnectionState → Bool
is_live live = true
is_live reconnecting = false

-- `portfolio?.stale === true`.
abbrev pub is_stale : Option Bool → Bool
is_stale (some true) = true
is_stale _ = false

unfoldable pub summed_positions : List TradingPosition → ℤ
summed_positions [] = pos 0
summed_positions (p ∷ ps) = or_default p.value (pos 0) +ℤ summed_positions ps

-- Half a cent, 0.005.
abbrev pub half_cent : ℤ
half_cent = pos 5_000_000

-- The Kalshi part of `venueAccountValue`: a reported value close to the cash is not a position value.
unfoldable pub kalshi_positions_value : Option ℤ → ℤ → ℤ → ℤ
kalshi_positions_value none cash summed = summed
kalshi_positions_value (some reported) cash summed =
    if ltb_ℤ half_cent (abs (reported -ℤ cash)) then reported else summed

abbrev pub no_positions : List TradingPosition → Bool
no_positions [] = true
no_positions (p ∷ ps) = false

abbrev pub platform_value : TradingPlatform → Option ℤ → ℤ → ℤ → ℤ
platform_value polymarket reported cash summed = or_default reported (cash +ℤ summed)
platform_value kalshi reported cash summed = cash +ℤ kalshi_positions_value reported cash summed

unfoldable pub venue_account_value : TradingPlatformActivity → Option ℤ
unfolding summed_positions kalshi_positions_value
venue_account_value a =
    let cash = a.portfolio.cash_value in
    let reported = a.portfolio.portfolio_value in
    if not (is_some cash) && (not (is_some reported) && no_positions a.positions)
    then none
    else some (
        platform_value a.platform reported (or_default cash (pos 0)) (summed_positions a.positions))

pub record PortfolioEquitySample : Type 0 where
  pub sampled_at_ms : ℕ
  pub kalshi_value : Option ℤ
  pub polymarket_value : Option ℤ
  pub combined_value : ℤ
  pub kalshi_cash : Option ℤ
  pub polymarket_cash : Option ℤ

-- The sample of the two venues, none if neither reported a value.
unfoldable pub build_equity_sample : TradingActivitySnapshot → ℕ → Option PortfolioEquitySample
build_equity_sample s now =
    let kalshi_value = venue_account_value s.kalshi_activity in
    let polymarket_value = venue_account_value s.polymarket_activity in
    if not (is_some kalshi_value) && not (is_some polymarket_value)
    then none
    else some (record {
      sampled_at_ms = now;
      kalshi_value = kalshi_value;
      polymarket_value = polymarket_value;
      combined_value = or_default kalshi_value (pos 0) +ℤ or_default polymarket_value (pos 0);
      kalshi_cash = s.kalshi_activity.portfolio.cash_value;
      polymarket_cash = s.polymarket_activity.portfolio.cash_value;
    })
