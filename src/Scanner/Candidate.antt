-- ===== src/Scanner/Candidate.antt =====
-- src/scanner/payoff.ts: the candidates of a pair of contracts. A pair key is the record of the parts
-- that the source joins with ":".
pub mod Protected
use pok_poly_kalshi.Prelude.{
  ℕ, ◌*◌, ◌+◌, String, Bool, true, false, Option, none, some, List, [], ◌∷◌, map, ◌&&◌,
}
use pok_poly_kalshi.Prelude.Tests.{if◌then◌else◌, is_some, leb, nat_beq}
use pok_poly_kalshi.Prelude.Lists.{find}
use pok_poly_kalshi.Prelude.Int.{
  ℤ, pos, negsuc, pos_part, neg_part, ◌+ℤ◌, ◌-ℤ◌, scale, neg, abs, ltb_ℤ, leb_ℤ, min_ℤ, max_ℤ,
}
use pok_poly_kalshi.Prelude.Money.{dollar, money_tick, floor_div, round_dollars}
use pok_poly_kalshi.Types.{
  Venue, kalshi, polymarket, LegDirection, yes_leg, no_leg, is_yes, same_venue, BinaryContract,
  ArbLeg,
}
use pok_poly_kalshi.Scanner.Payoff.{
  PayoffRegionKey, SyntheticStructureType, Classification, binary_leg_payoff, spread_payoff,
  spread_profit, percent_of, region_settlement_price, PayoffRegion, lower_strike, higher_strike,
  payoff_region, structure_type_for_legs, below_lower, between_strikes, above_higher,
  long_up_below_down_above, long_up_above_down_below, true_arbitrage, guaranteed_below_threshold,
  probabilistic_bet,
}
use pok_poly_kalshi.Scanner.Risk.{StructureRisk, build_structure_risk}

-- What the pair key joins.
pub record PairKey : Type 0 where
  pub expiry_ms : ℕ
  pub lower_venue : Venue
  pub lower_contract : String
  pub lower_direction : LegDirection
  pub higher_venue : Venue
  pub higher_contract : String
  pub higher_direction : LegDirection

unfoldable pub pair_key : ArbLeg → ArbLeg → ℕ → PairKey
pair_key lower higher expiry = record {
  expiry_ms = expiry;
  lower_venue = lower.venue;
  lower_contract = lower.contract_id;
  lower_direction = lower.direction;
  higher_venue = higher.venue;
  higher_contract = higher.contract_id;
  higher_direction = higher.direction;
}

pub record ArbCandidate : Type 0 where
  pub pair_key : PairKey
  pub expiry_ms : ℕ
  pub lower : ArbLeg
  pub higher : ArbLeg
  pub kalshi_contract_id : String
  pub polymarket_contract_id : String
  pub premium : ℤ
  pub guaranteed_profit : ℤ
  pub overlap_profit : ℤ
  pub threshold : ℤ
  pub executable : Bool
  pub reason : Option String
  pub risk : Option StructureRisk

unfoldable pub leg : BinaryContract → LegDirection → ℤ → ArbLeg
leg c direction ask = record {
  venue = c.venue;
  contract_id = c.contract_id;
  direction = direction;
  strike = c.strike;
  ask = ask;
  token_id = if is_yes direction then c.yes_token_id else c.no_token_id;
}

unfoldable pub candidate_from_legs :
    ArbLeg → ArbLeg → ℕ → ℤ → ℤ → ℤ → Bool → Option String → SyntheticStructureType → ArbCandidate
candidate_from_legs lower higher expiry threshold guaranteed overlap executable reason type =
    record {
      pair_key = pair_key lower higher expiry;
      expiry_ms = expiry;
      lower = lower;
      higher = higher;
      kalshi_contract_id =
          if same_venue lower.venue kalshi then lower.contract_id else higher.contract_id;
      polymarket_contract_id =
          if same_venue lower.venue polymarket then lower.contract_id else higher.contract_id;
      premium = round_dollars (lower.ask +ℤ higher.ask);
      guaranteed_profit = round_dollars guaranteed;
      overlap_profit = round_dollars overlap;
      threshold = threshold;
      executable = executable;
      reason = reason;
      risk = some (build_structure_risk lower higher threshold type);
    }

-- The candidate once both asks are there.
unfoldable pub protected_candidate : BinaryContract → BinaryContract → ℤ → ℤ → ℤ → ArbCandidate
protected_candidate lower_contract higher_contract threshold yes_ask no_ask =
    let lower = leg lower_contract yes_leg yes_ask in
    let higher = leg higher_contract no_leg no_ask in
    let premium = round_dollars (yes_ask +ℤ no_ask) in
    let guaranteed = round_dollars (dollar -ℤ premium) in
    candidate_from_legs lower higher lower_contract.expiry_ms threshold guaranteed
      (dollar +ℤ dollar -ℤ premium) (leb_ℤ threshold guaranteed)
      (if leb_ℤ threshold guaranteed then none else some "below_threshold") long_up_below_down_above

unfoldable pub guaranteed_spread_candidate :
    BinaryContract → BinaryContract → ℤ → Option ArbCandidate
guaranteed_spread_candidate lower higher threshold = elim lower.yes_ask [
  | none ↦ none
  | some yes_ask ↦ elim higher.no_ask [
    | none ↦ none
    | some no_ask ↦ some (protected_candidate lower higher threshold yes_ask no_ask)
  ]
]

unfoldable pub flipped_candidate : BinaryContract → BinaryContract → ℤ → ℤ → ℤ → ArbCandidate
flipped_candidate lower higher threshold no_ask yes_ask =
    let loss = neg (round_dollars (no_ask +ℤ yes_ask)) in
    candidate_from_legs (leg lower no_leg no_ask) (leg higher yes_leg yes_ask) lower.expiry_ms
      threshold loss loss false (some "dead_zone_configuration") long_up_above_down_below

unfoldable pub dead_zone_candidate : BinaryContract → BinaryContract → ℤ → Option ArbCandidate
dead_zone_candidate lower higher threshold = elim lower.no_ask [
  | none ↦ none
  | some no_ask ↦ elim higher.yes_ask [
    | none ↦ none
    | some yes_ask ↦ some (flipped_candidate lower higher threshold no_ask yes_ask)
  ]
]
