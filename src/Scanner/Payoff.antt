-- ===== src/Scanner/Payoff.antt =====
-- src/scanner/payoff.ts: the payoff of a two-legged spread and of the regions between its strikes. The
-- printed label of a region is not modelled.
pub mod Floor
use pok_poly_kalshi.Prelude.{
  ℕ, ◌*◌, ◌+◌, String, Bool, true, false, Option, none, some, List, [], ◌∷◌, map, ◌&&◌,
}
use pok_poly_kalshi.Prelude.Tests.{if◌then◌else◌, is_some, leb, nat_beq}
use pok_poly_kalshi.Prelude.Lists.{find}
use pok_poly_kalshi.Prelude.Int.{
  ℤ, pos, negsuc, pos_part, neg_part, ◌+ℤ◌, ◌-ℤ◌, scale, neg, abs, ltb_ℤ, leb_ℤ, min_ℤ, max_ℤ,
}
use pok_poly_kalshi.Prelude.Money.{dollar, money_tick, floor_div, round_dollars}
use pok_poly_kalshi.Types.{
  Venue, kalshi, polymarket, LegDirection, yes_leg, no_leg, is_yes, same_venue, BinaryContract,
  ArbLeg,
}

pub data PayoffRegionKey : Type 0 where
  below_lower between_strikes above_higher : PayoffRegionKey

pub data SyntheticStructureType : Type 0 where
  long_up_below_down_above long_up_above_down_below : SyntheticStructureType

pub data Classification : Type 0 where
  true_arbitrage guaranteed_below_threshold probabilistic_bet : Classification

unfoldable pub binary_leg_payoff : LegDirection → ℤ → ℤ → ℤ
binary_leg_payoff yes_leg strike settlement = if leb_ℤ strike settlement then dollar else pos 0
binary_leg_payoff no_leg strike settlement = if ltb_ℤ settlement strike then dollar else pos 0

unfoldable pub spread_payoff : ArbLeg → ArbLeg → ℤ → ℤ
spread_payoff lower higher settlement =
    binary_leg_payoff lower.direction lower.strike settlement
    +ℤ binary_leg_payoff higher.direction higher.strike settlement

unfoldable pub spread_profit : ArbLeg → ArbLeg → ℤ → ℤ
spread_profit lower higher settlement =
    round_dollars (spread_payoff lower higher settlement -ℤ lower.ask -ℤ higher.ask)

-- `value / base * 100` to four decimals, 0 for a base below a millionth.
unfoldable pub percent_of : ℤ → ℤ → ℤ
percent_of value base =
    let size = pos_part base + neg_part base in
    let signed = if ltb_ℤ base (pos 0) then neg value else value in
    if ltb_ℤ (abs base) (pos 1000)
    then pos 0
    else scale money_tick (floor_div (scale 2_000_000 signed +ℤ pos size) (2 * size))

-- The settlement price that stands for a region. Half a unit of the mid point is dropped, which no
-- comparison with a strike can see.
unfoldable pub region_settlement_price : PayoffRegionKey → ℤ → ℤ → ℤ
region_settlement_price below_lower lower higher =
    let gap = higher -ℤ lower in
    let step = if ltb_ℤ (abs gap) (pos 1) then dollar else gap in lower -ℤ max_ℤ dollar step
region_settlement_price between_strikes lower higher = floor_div (lower +ℤ higher) 2
region_settlement_price above_higher lower higher = higher

pub record PayoffRegion : Type 0 where
  pub region : PayoffRegionKey
  pub from_strike : Option ℤ
  pub to_strike : Option ℤ
  pub width : Option ℤ
  pub payoff : ℤ
  pub profit : ℤ
  pub is_max_loss : Bool

abbrev pub lower_strike : ArbLeg → ArbLeg → ℤ
lower_strike l h = min_ℤ l.strike h.strike

abbrev pub higher_strike : ArbLeg → ArbLeg → ℤ
higher_strike l h = max_ℤ l.strike h.strike

abbrev region_from : PayoffRegionKey → ℤ → ℤ → Option ℤ
region_from below_lower lo hi = none
region_from between_strikes lo hi = some lo
region_from above_higher lo hi = some hi

abbrev region_to : PayoffRegionKey → ℤ → ℤ → Option ℤ
region_to below_lower lo hi = some lo
region_to between_strikes lo hi = some hi
region_to above_higher lo hi = none

abbrev region_width : PayoffRegionKey → ℤ → ℤ → Option ℤ
region_width between_strikes lo hi = some (round_dollars (hi -ℤ lo))
region_width _ lo hi = none

unfoldable pub payoff_region : PayoffRegionKey → ArbLeg → ArbLeg → ℤ → PayoffRegion
payoff_region region lower higher premium =
    let lo = lower_strike lower higher in
    let hi = higher_strike lower higher in
    let payoff = spread_payoff lower higher (region_settlement_price region lo hi) in
    record {
      region = region;
      from_strike = region_from region lo hi;
      to_strike = region_to region lo hi;
      width = region_width region lo hi;
      payoff = payoff;
      profit = round_dollars (payoff -ℤ premium);
      is_max_loss = false;
    }

unfoldable pub structure_type_for_legs : ArbLeg → ArbLeg → SyntheticStructureType
structure_type_for_legs lower higher =
    if is_yes lower.direction
    then (if is_yes higher.direction then long_up_above_down_below else long_up_below_down_above)
    else long_up_above_down_below
