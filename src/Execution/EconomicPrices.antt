-- ===== src/Execution/EconomicPrices.antt =====
-- src/execution/economic-prices.ts: the price at which a fill is booked. A price between two billionths,
-- which a division by 100 leaves, is an integer in hundredths of a billionth until it is rounded.
pub mod Choice
use pok_poly_kalshi.Prelude.{ℕ, Bool, true, false, Option, none, some, ◌||◌, not}
use pok_poly_kalshi.Prelude.Tests.{if◌then◌else◌}
use pok_poly_kalshi.Prelude.Int.{ℤ, pos, ◌+ℤ◌, ◌-ℤ◌, scale, ltb_ℤ, leb_ℤ, min_ℤ, max_ℤ, abs}
use pok_poly_kalshi.Prelude.Money.{dollar, floor_div}
use pok_poly_kalshi.Types.{
  Venue, kalshi, LegDirection, yes_leg, Number, finite, not_finite, same_venue, is_yes, ArbLeg,
}

-- `Math.round(value * 1_000_000_000) / 1_000_000_000`.
unfoldable pub round_price : ℤ → ℤ
round_price fine = floor_div (fine +ℤ pos 50) 100

unfoldable pub bounded_binary_price : ℤ → ℤ
bounded_binary_price fine = max_ℤ (pos 0) (min_ℤ (scale 100 dollar) fine)

-- A price above one is in cents.
unfoldable pub normalized : ℤ → ℤ
normalized price = if ltb_ℤ dollar price then price else scale 100 price

-- The inverted price if it is closer to the reference ask by more than a billionth.
abbrev pub closer : ℤ → ℤ → Option Number → ℤ
closer inverted direct none = direct
closer inverted direct (some not_finite) = direct
closer inverted direct (some (finite ask)) =
    if ltb_ℤ (abs (inverted -ℤ ask) +ℤ pos 1) (abs (direct -ℤ ask)) then inverted else direct

abbrev pub half_dollar : ℤ
half_dollar = pos 50_000_000_000

unfoldable pub economic_price : Venue → LegDirection → ℤ → Option Number → ℤ
economic_price venue direction bounded reference_ask =
    let direct = round_price bounded in
    let inverted = round_price (bounded_binary_price (scale 100 dollar -ℤ bounded)) in
    if not (same_venue venue kalshi) || (is_yes direction || leb_ℤ bounded half_dollar)
    then direct
    else closer inverted direct reference_ask

unfoldable pub economic_fill_price_for_leg :
    Venue → LegDirection → Option Number → Option Number → Option ℤ
economic_fill_price_for_leg venue direction none reference_ask = none
economic_fill_price_for_leg venue direction (some not_finite) reference_ask = none
economic_fill_price_for_leg venue direction (some (finite price)) reference_ask =
    some (economic_price venue direction (bounded_binary_price (normalized price)) reference_ask)

-- The leg of a signal on the venue decides, the lower one first.
unfoldable pub economic_fill_price_for_signal_venue :
    ArbLeg → ArbLeg → Venue → Option Number → Option ℤ
economic_fill_price_for_signal_venue lower higher venue price =
    if same_venue lower.venue venue
    then economic_fill_price_for_leg venue lower.direction price (some (finite lower.ask))
    else if same_venue higher.venue venue
    then economic_fill_price_for_leg venue higher.direction price (some (finite higher.ask))
    else economic_fill_price_for_leg venue yes_leg price none
