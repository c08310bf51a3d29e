-- ===== src/Scanner/Risk/Agreement.antt =====
-- The risk structure of src/scanner/payoff.ts for a protected spread.
use pok_poly_kalshi.Prelude.{false, ◌≡◌, refl, sym, ap, ◌∙◌, ◌↔◌, none, some, arith}
use pok_poly_kalshi.Prelude.Int.{ℤ, ◌+ℤ◌, ◌-ℤ◌, ◌≤ℤ◌, ◌<ℤ◌, min_ℤ, +ℤ_parts, -ℤ_parts}
use pok_poly_kalshi.Prelude.Money.{dollar, round_dollars, round_dollars_idem, round_dollars_parts}
use pok_poly_kalshi.Types.{ArbLeg, yes_leg, no_leg}
use pok_poly_kalshi.Scanner.Payoff.{
  SyntheticStructureType, PayoffRegionKey, below_lower, between_strikes, above_higher,
  payoff_region, true_arbitrage, guaranteed_below_threshold,
}
use pok_poly_kalshi.Scanner.Payoff.Floor.{pays, payoff_region-protected}
use pok_poly_kalshi.Scanner.Risk.{
  worst_case, raw_profile, is_max_loss_region, max_loss_region_of, classify, build_structure_risk,
}

module _ (lower higher : ArbLeg) (y : lower.direction ≡ yes_leg) (n : higher.direction ≡ no_leg)
    (h : lower.strike <ℤ higher.strike) where
  -- The profit in the region that a dollar is paid, and between the strikes.
  abbrev premium : ℤ
  premium = round_dollars (lower.ask +ℤ higher.ask)

  abbrev outer : ℤ
  outer = round_dollars (dollar -ℤ premium)

  abbrev inner : ℤ
  inner = round_dollars (dollar +ℤ dollar -ℤ premium)

  profit_at :
      (key : PayoffRegionKey)
      → (payoff_region key lower higher premium).profit ≡ round_dollars (pays key -ℤ premium)
  profit_at key = payoff_region-protected key lower higher premium y n h

  outer-lt-inner : outer <ℤ inner
  outer-lt-inner = omega (
    arith,
    -ℤ_parts dollar premium,
    -ℤ_parts (dollar +ℤ dollar) premium,
    +ℤ_parts dollar dollar,
    round_dollars_parts (dollar -ℤ premium),
    round_dollars_parts (dollar +ℤ dollar -ℤ premium),
  )

  least : min_ℤ outer (min_ℤ inner outer) ≡ outer
  least = ground (arith, outer-lt-inner)

  pub worst_case-protected : worst_case lower higher ≡ outer
  unfolding worst_case
  worst_case-protected =
      rw (profit_at below_lower, profit_at between_strikes, profit_at above_higher)
        (ap round_dollars least ∙ round_dollars_idem (dollar -ℤ premium))

  width_below : (payoff_region below_lower lower higher premium).width ≡ none
  unfolding payoff_region
  width_below = refl

  width_above : (payoff_region above_higher lower higher premium).width ≡ none
  unfolding payoff_region
  width_above = refl

  middle_is_best :
      is_max_loss_region outer (payoff_region between_strikes lower higher premium) ≡ false
  middle_is_best = ground (arith, profit_at between_strikes, outer-lt-inner)

  no_loss : max_loss_region_of lower higher ≡ none
  unfolding max_loss_region_of raw_profile
  no_loss = rw worst_case-protected (ground (arith, width_below, width_above, middle_is_best))

  best_between : outer <ℤ (payoff_region between_strikes lower higher premium).profit
  best_between = rw (profit_at between_strikes) outer-lt-inner

  -- A protected spread whose strikes are in strict order is never classified as a bet. Its worst case,
  -- which is also its guaranteed edge, is the profit below both strikes and above both, the profit
  -- between them is more, and no window of loss between the strikes is marked. It is a true arbitrage
  -- exactly when the worst case reaches the threshold, and below the threshold otherwise.
  pub risk_agrees :
      (threshold : ℤ) (type : SyntheticStructureType)
      → let r = build_structure_risk lower higher threshold type in
        let profit = λ (key : PayoffRegionKey). (payoff_region key lower higher premium).profit in
        (r.worst_case_profit ≡ profit below_lower)
        × (r.worst_case_profit ≡ profit above_higher)
        × (r.worst_case_profit <ℤ profit between_strikes)
        × (r.worst_case_profit ≡ outer)
        × (r.guaranteed_edge ≡ some outer)
        × (r.max_loss_region ≡ none)
        × ((r.classification ≡ true_arbitrage) ↔ (threshold ≤ℤ outer))
        × ((r.classification ≡ guaranteed_below_threshold) ↔ (outer <ℤ threshold))
  unfolding build_structure_risk classify
  risk_agrees threshold type = (
    worst_case-protected ∙ sym (profit_at below_lower),
    worst_case-protected ∙ sym (profit_at above_higher),
    rw worst_case-protected best_between,
    worst_case-protected,
    ground (arith, no_loss, worst_case-protected),
    ground (arith, no_loss, worst_case-protected),
    ground (arith, no_loss, worst_case-protected),
    ground (arith, no_loss, worst_case-protected),
  )
