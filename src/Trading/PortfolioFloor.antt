-- ===== src/Trading/PortfolioFloor.antt =====
-- src/trading/portfolio-floor.ts: the capital-floor circuit breaker. `tick` is given what `getSnapshot`
-- returned, `none` when it threw. The text of the latch reason is the pair of numbers that it prints.
pub mod Latch
pub mod Streak
use pok_poly_kalshi.Prelude.{
  ℕ, suc, max, Bool, true, false, Option, none, some, List, [], ◌∷◌, ◌&&◌, ◌||◌, not,
}
use pok_poly_kalshi.Prelude.Tests.{if◌then◌else◌, or_default, is_some, ltb, leb, nat_beq}
use pok_poly_kalshi.Prelude.Int.{ℤ, pos, ◌+ℤ◌, ltb_ℤ, leb_ℤ}
use pok_poly_kalshi.Trading.Activity.{
  TradingPlatformActivity, TradingActivitySnapshot, is_live, is_stale, venue_account_value,
}

-- What the breach message prints: the total and the floor.
pub record Breach : Type 0 where
  pub total : ℤ
  pub floor_dollars : ℤ

pub record PortfolioFloorStatus : Type 0 where
  pub total : Option ℤ
  pub kalshi_value : Option ℤ
  pub polymarket_value : Option ℤ
  pub authoritative : Bool
  pub kalshi_live : Bool
  pub polymarket_live : Bool
  pub breached : Bool
  pub reason : Option Breach
  pub consecutive_breaches : ℕ
  pub last_reading_at_ms : Option ℕ

pub record PortfolioFloorMonitor : Type 0 where
  pub floor_dollars : ℤ
  pub confirmations : ℕ
  pub latched : Bool
  pub latch_reason : Option Breach
  pub consecutive_breaches : ℕ
  pub last_counted_reading_at_ms : ℕ
  pub last_status : PortfolioFloorStatus

abbrev empty_status : PortfolioFloorStatus
empty_status = record {
  total = none;
  kalshi_value = none;
  polymarket_value = none;
  authoritative = false;
  kalshi_live = false;
  polymarket_live = false;
  breached = false;
  reason = none;
  consecutive_breaches = 0;
  last_reading_at_ms = none;
}

-- The constructor.
unfoldable pub create : ℤ → ℕ → PortfolioFloorMonitor
create floor confirmations = record {
  floor_dollars = floor;
  confirmations = confirmations;
  latched = false;
  latch_reason = none;
  consecutive_breaches = 0;
  last_counted_reading_at_ms = 0;
  last_status = empty_status;
}

unfoldable pub is_enabled : PortfolioFloorMonitor → Bool
is_enabled m = ltb_ℤ (pos 0) m.floor_dollars

unfoldable pub block_reason : PortfolioFloorMonitor → Option Breach
block_reason m = if is_enabled m then (if m.latched then m.latch_reason else none) else none

unfoldable pub status : PortfolioFloorMonitor → PortfolioFloorStatus
status m = record m.last_status {
  breached = m.latched;
  reason = m.latch_reason;
  consecutive_breaches = m.consecutive_breaches;
}

unfoldable pub clear : PortfolioFloorMonitor → PortfolioFloorMonitor
clear m = record m {
  latched = false;
  latch_reason = none;
  consecutive_breaches = 0;
  last_counted_reading_at_ms = 0;
}

unfoldable pub is_authoritative : TradingPlatformActivity → Option ℤ → Bool
is_authoritative a value =
    is_live a.connection_status && (not (is_stale a.portfolio.stale) && is_some value)

-- Both venues confirmed: the sum of the two account values.
unfoldable pub authoritative_total : TradingActivitySnapshot → Option ℤ
unfolding is_authoritative
authoritative_total s =
    let kalshi_value = venue_account_value s.kalshi_activity in
    let polymarket_value = venue_account_value s.polymarket_activity in
    if is_authoritative s.kalshi_activity kalshi_value
      && is_authoritative s.polymarket_activity polymarket_value
    then some (or_default kalshi_value (pos 0) +ℤ or_default polymarket_value (pos 0))
    else none

-- `Math.max(a ?? 0, b ?? 0) || now`.
unfoldable pub reading_at : TradingActivitySnapshot → ℕ → ℕ
reading_at s now =
    let newest =
      max (or_default s.kalshi_activity.last_updated_at 0)
        (or_default s.polymarket_activity.last_updated_at 0) in
    if nat_beq newest 0 then now else newest

-- `this.lastStatus = { … }` at the head of a tick.
unfoldable pub record_status :
    PortfolioFloorMonitor → TradingActivitySnapshot → ℕ → PortfolioFloorMonitor
record_status m s now =
    let kalshi_value = venue_account_value s.kalshi_activity in
    let polymarket_value = venue_account_value s.polymarket_activity in
    let kalshi_ok = is_authoritative s.kalshi_activity kalshi_value in
    let polymarket_ok = is_authoritative s.polymarket_activity polymarket_value in
    record m {
      last_status = record {
        total = authoritative_total s;
        kalshi_value = kalshi_value;
        polymarket_value = polymarket_value;
        authoritative = kalshi_ok && polymarket_ok;
        kalshi_live = kalshi_ok;
        polymarket_live = polymarket_ok;
        breached = m.latched;
        reason = m.latch_reason;
        consecutive_breaches = m.consecutive_breaches;
        last_reading_at_ms = some now;
      };
    }

-- An authoritative reading below the floor: counted once for each distinct timestamp.
unfoldable pub count_breach : PortfolioFloorMonitor → ℕ → PortfolioFloorMonitor
count_breach m at =
    if ltb m.last_counted_reading_at_ms at || nat_beq m.consecutive_breaches 0
    then record m {
      consecutive_breaches = suc m.consecutive_breaches;
      last_counted_reading_at_ms = at;
    }
    else m

unfoldable pub latch_if_confirmed : PortfolioFloorMonitor → ℤ → PortfolioFloorMonitor
latch_if_confirmed m total =
    let reason : Option Breach = some (record { total = total; floor_dollars = m.floor_dollars }) in
    if leb m.confirmations m.consecutive_breaches
    then record m {
      latched = true;
      latch_reason = reason;
      last_status = record m.last_status { breached = true; reason = reason };
    }
    else m

abbrev reset_streak : PortfolioFloorMonitor → PortfolioFloorMonitor
reset_streak m = record m { consecutive_breaches = 0 }

-- The tail of `tick` once the total is known.
unfoldable pub judge : PortfolioFloorMonitor → Option ℤ → ℕ → PortfolioFloorMonitor
unfolding count_breach latch_if_confirmed
judge m none at = reset_streak m
judge m (some total) at =
    if leb_ℤ m.floor_dollars total
    then reset_streak m
    else latch_if_confirmed (count_breach m at) total

unfoldable pub observe : PortfolioFloorMonitor → TradingActivitySnapshot → ℕ → PortfolioFloorMonitor
observe m s now =
    let m' = record_status m s now in
    if m.latched then m' else judge m' (authoritative_total s) (reading_at s now)

unfoldable pub tick :
    PortfolioFloorMonitor → Option TradingActivitySnapshot → ℕ → PortfolioFloorMonitor
tick m none now = m
tick m (some s) now = if is_enabled m then observe m s now else m

-- One tick after another, the clock and the snapshot of each given.
unfoldable pub run :
    PortfolioFloorMonitor → List (ℕ × Option TradingActivitySnapshot) → PortfolioFloorMonitor
run m [] = m
run m ((now, s) ∷ ticks) = run (tick m s now) ticks
