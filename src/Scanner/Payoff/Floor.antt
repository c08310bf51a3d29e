-- ===== src/Scanner/Payoff/Floor.antt =====
-- The floor under a protected spread of src/scanner/payoff.ts.
use pok_poly_kalshi.Prelude.{◌≡◌, ap, arith, ◌⊎◌, inl, inr}
use pok_poly_kalshi.Prelude.Tests.{if◌then◌else◌}
use pok_poly_kalshi.Prelude.Int.{
  ℤ, pos, ◌+ℤ◌, ◌-ℤ◌, ◌≤ℤ◌, ◌<ℤ◌, ltb_ℤ, min_ℤ, max_ℤ, abs, +ℤ_parts, -ℤ_parts,
}
use pok_poly_kalshi.Prelude.Money.{dollar, round_dollars, round_dollars_parts, floor_half_parts}
use pok_poly_kalshi.Types.{ArbLeg, yes_leg, no_leg}
use pok_poly_kalshi.Scanner.Payoff.{
  binary_leg_payoff, spread_payoff, PayoffRegionKey, below_lower, between_strikes, above_higher,
  region_settlement_price, payoff_region,
}

-- A YES on the lower strike with a NO on the higher one pays two dollars if the price settles from the
-- lower strike up to below the higher one, and exactly one dollar anywhere else.
pub protected_payoff :
    (lower higher : ArbLeg) (s : ℤ)
    → lower.direction ≡ yes_leg
    → higher.direction ≡ no_leg
    → lower.strike ≤ℤ higher.strike
    → ((lower.strike ≤ℤ s) × (s <ℤ higher.strike) → spread_payoff lower higher s ≡ dollar +ℤ dollar)
      × ((s <ℤ lower.strike) ⊎ (higher.strike ≤ℤ s) → spread_payoff lower higher s ≡ dollar)
unfolding spread_payoff binary_leg_payoff ◌+ℤ◌
protected_payoff lower higher s y n h = rw (y, n) (λ inside. ground arith, λ outside. ground arith)

-- The flipped spread, NO below and YES above, pays nothing between the strikes.
pub flipped_payoff :
    (lower higher : ArbLeg) (s : ℤ)
    → lower.direction ≡ no_leg
    → higher.direction ≡ yes_leg
    → lower.strike ≤ℤ s
    → s <ℤ higher.strike
    → spread_payoff lower higher s ≡ pos 0
unfolding spread_payoff binary_leg_payoff ◌+ℤ◌
flipped_payoff lower higher s n y h k = rw (n, y) (ground arith)

-- Rounding the premium first never promises more than rounding the profit.
pub round-profit-le :
    (payoff a b : ℤ)
    → dollar ≤ℤ payoff
    → round_dollars (dollar -ℤ round_dollars (a +ℤ b)) ≤ℤ round_dollars (payoff -ℤ a -ℤ b)
round-profit-le payoff a b h = omega (
  arith,
  +ℤ_parts a b,
  -ℤ_parts payoff a,
  -ℤ_parts (payoff -ℤ a) b,
  -ℤ_parts dollar (round_dollars (a +ℤ b)),
  round_dollars_parts (a +ℤ b),
  round_dollars_parts (dollar -ℤ round_dollars (a +ℤ b)),
  round_dollars_parts (payoff -ℤ a -ℤ b),
)

settles_below : (lo hi : ℤ) → lo <ℤ hi → region_settlement_price below_lower lo hi <ℤ lo
unfolding region_settlement_price
settles_below lo hi h =
    let gap = hi -ℤ lo in
    let step = if ltb_ℤ (abs gap) (pos 1) then dollar else gap in
    ground (arith, -ℤ_parts lo (max_ℤ dollar step))

settles_above : (lo hi : ℤ) → hi ≤ℤ region_settlement_price above_higher lo hi
unfolding region_settlement_price
settles_above lo hi = omega arith

settles_between :
    (lo hi : ℤ)
    → lo <ℤ hi
    → (lo ≤ℤ region_settlement_price between_strikes lo hi)
      × (region_settlement_price between_strikes lo hi <ℤ hi)
unfolding region_settlement_price
settles_between lo hi h = omega (arith, floor_half_parts (lo +ℤ hi), +ℤ_parts lo hi)

-- What the three regions of a protected spread pay, whose strikes are in strict order.
abbrev pub pays : PayoffRegionKey → ℤ
pays below_lower = dollar
pays between_strikes = dollar +ℤ dollar
pays above_higher = dollar

pub payoff_region-protected :
    (key : PayoffRegionKey) (lower higher : ArbLeg) (premium : ℤ)
    → lower.direction ≡ yes_leg
    → higher.direction ≡ no_leg
    → lower.strike <ℤ higher.strike
    → (payoff_region key lower higher premium).profit ≡ round_dollars (pays key -ℤ premium)
unfolding payoff_region
payoff_region-protected key lower higher premium y n h =
    let lo : min_ℤ lower.strike higher.strike ≡ lower.strike = ground arith in
    let hi : max_ℤ lower.strike higher.strike ≡ higher.strike = ground arith in
    rw (lo, hi) (ap (λ (p : ℤ). round_dollars (p -ℤ premium)) (go key))
  where
    go :
        (key : PayoffRegionKey)
        → spread_payoff lower higher (region_settlement_price key lower.strike higher.strike)
          ≡ pays key
    go below_lower =
        (protected_payoff lower higher _ y n (omega arith)).1
          (inl (settles_below lower.strike higher.strike h))
    go between_strikes =
        (protected_payoff lower higher _ y n (omega arith)).0
          (settles_between lower.strike higher.strike h)
    go above_higher =
        (protected_payoff lower higher _ y n (omega arith)).1
          (inr (settles_above lower.strike higher.strike))
