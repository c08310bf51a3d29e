-- ===== src/Scanner/Candidate/Protected.antt =====
-- What a candidate of src/scanner/payoff.ts promises.
use mathlib.Core.Path.{subst}
use mathlib.Core.Option.{some-injective}
use pok_poly_kalshi.Prelude.{true, ◌≡◌, refl, sym, some, arith, inl, inr}
use pok_poly_kalshi.Prelude.Tests.{Option-cases}
use pok_poly_kalshi.Prelude.Int.{ℤ, ◌+ℤ◌, ◌-ℤ◌, ◌≤ℤ◌}
use pok_poly_kalshi.Prelude.Money.{dollar, round_dollars, round_dollars_idem}
use pok_poly_kalshi.Types.{BinaryContract, ArbLeg, yes_leg, no_leg}
use pok_poly_kalshi.Scanner.Payoff.{binary_leg_payoff, spread_payoff, spread_profit}
use pok_poly_kalshi.Scanner.Payoff.Floor.{round-profit-le}
use pok_poly_kalshi.Scanner.Candidate.{
  ArbCandidate, leg, protected_candidate, candidate_from_legs, guaranteed_spread_candidate,
}

-- The payoff of a protected spread is never below a dollar.
dollar-le-payoff :
    (lower higher : ArbLeg) (s : ℤ)
    → lower.direction ≡ yes_leg
    → higher.direction ≡ no_leg
    → lower.strike ≤ℤ higher.strike
    → dollar ≤ℤ spread_payoff lower higher s
unfolding spread_payoff binary_leg_payoff ◌+ℤ◌
dollar-le-payoff lower higher s y n h = rw (y, n) (ground arith)

-- Both asks are there, and the candidate is the protected one.
pub candidate-asks :
    (lower higher : BinaryContract) (threshold : ℤ) {c : ArbCandidate}
    → guaranteed_spread_candidate lower higher threshold ≡ some c
    → (a : ℤ) × (b : ℤ) × (c ≡ protected_candidate lower higher threshold a b)
unfolding guaranteed_spread_candidate protected_candidate leg
candidate-asks lower higher threshold e = elim (Option-cases lower.yes_ask) [
  | inl x ↦ cc (rw x at e)
  | inr (a, x) ↦ elim (Option-cases higher.no_ask) [
    | inl y ↦ cc (rw (x, y) at e)
    | inr (b, y) ↦ (a, b, some-injective _ _ (sym (rw (x, y) at e)))
  ]
]

protected_profit :
    (lower higher : BinaryContract) (threshold s a b : ℤ)
    → lower.strike ≤ℤ higher.strike
    → let c = protected_candidate lower higher threshold a b in
      c.executable ≡ true
      → (threshold ≤ℤ c.guaranteed_profit)
        × (c.guaranteed_profit ≤ℤ spread_profit c.lower c.higher s)
unfolding protected_candidate candidate_from_legs spread_profit leg
protected_profit lower higher threshold s a b h x =
    let l = leg lower yes_leg a in
    let u = leg higher no_leg b in
    let promised = dollar -ℤ round_dollars (a +ℤ b) in
    rw (round_dollars_idem promised)
      (ground arith, round-profit-le (spread_payoff l u s) a b (dollar-le-payoff l u s refl refl h))

-- Wherever the price settles, an executable candidate of two contracts in strike order earns at least
-- its guaranteed profit per spread, and that is at least the threshold.
pub executable_profit :
    (lower higher : BinaryContract) (threshold s : ℤ) (c : ArbCandidate)
    → lower.strike ≤ℤ higher.strike
    → guaranteed_spread_candidate lower higher threshold ≡ some c
    → c.executable ≡ true
    → (threshold ≤ℤ c.guaranteed_profit) × (c.guaranteed_profit ≤ℤ spread_profit c.lower c.higher s)
executable_profit lower higher threshold s c h e x =
    let (a, b, same) = candidate-asks lower higher threshold e in
    subst
      (λ k.
        k.executable ≡ true
        → (threshold ≤ℤ k.guaranteed_profit)
          × (k.guaranteed_profit ≤ℤ spread_profit k.lower k.higher s))
      (sym same) (protected_profit lower higher threshold s a b h) x
