-- ===== src/Scanner/Risk.antt =====
-- src/scanner/payoff.ts: the risk structure of a spread.
pub mod Agreement
use pok_poly_kalshi.Prelude.{Bool, true, false, Option, none, some, List, [], ◌∷◌, map, ◌&&◌}
use pok_poly_kalshi.Prelude.Tests.{if◌then◌else◌, is_some}
use pok_poly_kalshi.Prelude.Lists.{find}
use pok_poly_kalshi.Prelude.Int.{ℤ, pos, ◌+ℤ◌, ◌-ℤ◌, ltb_ℤ, leb_ℤ, min_ℤ, max_ℤ}
use pok_poly_kalshi.Prelude.Money.{floor_div, round_dollars}
use pok_poly_kalshi.Types.{ArbLeg}
use pok_poly_kalshi.Scanner.Payoff.{
  PayoffRegionKey, SyntheticStructureType, Classification, percent_of, PayoffRegion, lower_strike,
  higher_strike, payoff_region, below_lower, between_strikes, above_higher,
  long_up_below_down_above, long_up_above_down_below, true_arbitrage, guaranteed_below_threshold,
  probabilistic_bet,
}

pub record StructureRisk : Type 0 where
  pub structure_type : SyntheticStructureType
  pub classification : Classification
  pub strike_gap : ℤ
  pub mid_strike : ℤ
  pub strike_gap_pct_of_mid : ℤ
  pub loss_window_width : ℤ
  pub loss_window_pct_of_strike_gap : ℤ
  pub loss_window_pct_of_mid : ℤ
  pub overlap_window_width : ℤ
  pub overlap_window_pct_of_strike_gap : ℤ
  pub premium : ℤ
  pub worst_case_profit : ℤ
  pub best_case_profit : ℤ
  pub guaranteed_edge : Option ℤ
  pub conditional_edge : ℤ
  pub max_loss_region : Option PayoffRegion
  pub payoff_profile : List PayoffRegion

-- `region.width != null && region.width > 0`.
abbrev has_width : Option ℤ → Bool
has_width none = false
has_width (some w) = ltb_ℤ (pos 0) w

abbrev same_region : PayoffRegionKey → PayoffRegionKey → Bool
same_region below_lower below_lower = true
same_region between_strikes between_strikes = true
same_region above_higher above_higher = true
same_region _ _ = false

-- Two amounts are equal.
abbrev pub beq_ℤ : ℤ → ℤ → Bool
beq_ℤ a b = leb_ℤ a b && leb_ℤ b a

abbrev is_max_loss_region : ℤ → PayoffRegion → Bool
is_max_loss_region worst r = has_width r.width && (beq_ℤ r.profit worst && ltb_ℤ r.profit (pos 0))

abbrev is_the : Option PayoffRegion → PayoffRegionKey → Bool
is_the none key = false
is_the (some r) key = same_region key r.region

abbrev is_protected_type : SyntheticStructureType → Bool
is_protected_type long_up_below_down_above = true
is_protected_type long_up_above_down_below = false

abbrev width_of : Option PayoffRegion → ℤ
width_of none = pos 0
width_of (some r) = elim r.width [ none ↦ pos 0 | some w ↦ w ]

unfoldable pub classify : Option PayoffRegion → ℤ → ℤ → Classification
classify (some r) worst threshold = probabilistic_bet
classify none worst threshold =
    if leb_ℤ threshold worst then true_arbitrage else guaranteed_below_threshold

-- The three regions, before the region of the greatest loss is marked.
unfoldable pub raw_profile : ArbLeg → ArbLeg → List PayoffRegion
raw_profile lower higher =
    let premium = round_dollars (lower.ask +ℤ higher.ask) in
    map (λ key. payoff_region key lower higher premium)
      (below_lower ∷ between_strikes ∷ above_higher ∷ [])

-- `Math.min(...profits)` and `Math.max(...profits)`.
unfoldable pub least_profit : PayoffRegion → List PayoffRegion → ℤ
least_profit r [] = r.profit
least_profit r (s ∷ rest) = min_ℤ r.profit (least_profit s rest)

unfoldable pub greatest_profit : PayoffRegion → List PayoffRegion → ℤ
greatest_profit r [] = r.profit
greatest_profit r (s ∷ rest) = max_ℤ r.profit (greatest_profit s rest)

unfoldable pub worst_case : ArbLeg → ArbLeg → ℤ
unfolding raw_profile least_profit
worst_case lower higher = elim (raw_profile lower higher) [
  | [] ↦ pos 0
  | r ∷ rs ↦ round_dollars (least_profit r rs)
]

unfoldable pub best_case : ArbLeg → ArbLeg → ℤ
unfolding raw_profile greatest_profit
best_case lower higher = elim (raw_profile lower higher) [
  | [] ↦ pos 0
  | r ∷ rs ↦ round_dollars (greatest_profit r rs)
]

unfoldable pub max_loss_region_of : ArbLeg → ArbLeg → Option PayoffRegion
max_loss_region_of lower higher =
    find (is_max_loss_region (worst_case lower higher)) (raw_profile lower higher)

unfoldable pub build_structure_risk : ArbLeg → ArbLeg → ℤ → SyntheticStructureType → StructureRisk
build_structure_risk lower higher threshold structure_type =
    let premium = round_dollars (lower.ask +ℤ higher.ask) in
    let lo = lower_strike lower higher in
    let hi = higher_strike lower higher in
    let strike_gap = round_dollars (hi -ℤ lo) in
    let mid_strike = round_dollars (floor_div (hi +ℤ lo) 2) in
    let worst = worst_case lower higher in
    let best = best_case lower higher in
    let lost = max_loss_region_of lower higher in
    let marked : Option PayoffRegion = elim lost [
      | none ↦ none
      | some r ↦ some (record r { is_max_loss = true })
    ] in
    let loss_window = width_of lost in
    let overlap = if is_protected_type structure_type then strike_gap else pos 0 in
    record {
      structure_type = structure_type;
      classification = classify lost worst threshold;
      strike_gap = strike_gap;
      mid_strike = mid_strike;
      strike_gap_pct_of_mid = percent_of strike_gap mid_strike;
      loss_window_width = loss_window;
      loss_window_pct_of_strike_gap = percent_of loss_window strike_gap;
      loss_window_pct_of_mid = percent_of loss_window mid_strike;
      overlap_window_width = overlap;
      overlap_window_pct_of_strike_gap = percent_of overlap strike_gap;
      premium = premium;
      worst_case_profit = worst;
      best_case_profit = best;
      guaranteed_edge = if is_some lost then none else some worst;
      conditional_edge = best;
      max_loss_region = marked;
      payoff_profile =
          map (λ (r : PayoffRegion). record r { is_max_loss = is_the lost r.region })
            (raw_profile lower higher);
    }
