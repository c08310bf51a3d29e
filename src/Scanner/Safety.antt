-- ===== src/Scanner/Safety.antt =====
-- src/scanner/safety.ts: the last check of a candidate before it is traded.
use pok_poly_kalshi.Prelude.{Bool, true, false, Option, none, some}
use pok_poly_kalshi.Prelude.Tests.{if◌then◌else◌}
use pok_poly_kalshi.Prelude.Int.{ℤ, ltb_ℤ}
use pok_poly_kalshi.Types.{is_yes}
use pok_poly_kalshi.Scanner.Payoff.{long_up_below_down_above, long_up_above_down_below}
use pok_poly_kalshi.Scanner.Risk.{StructureRisk}
use pok_poly_kalshi.Scanner.Candidate.{ArbCandidate}

pub data BlockReason : Type 0 where
  non_protected_structure lower_leg_not_yes higher_leg_not_no : BlockReason
  lower_strike_not_below_higher candidate_not_executable : BlockReason
  guaranteed_profit_below_threshold : BlockReason

-- `candidate.risk?.structureType === "long_up_below_down_above"`.
abbrev is_protected_structure : Option StructureRisk → Bool
is_protected_structure none = false
is_protected_structure (some r) = elim r.structure_type [
  | long_up_below_down_above ↦ true
  | long_up_above_down_below ↦ false
]

unfoldable pub protected_candidate_block_reason : ArbCandidate → ℤ → Option BlockReason
protected_candidate_block_reason c min_profit =
    if is_protected_structure c.risk
    then (if is_yes c.lower.direction
        then (if is_yes c.higher.direction
            then some higher_leg_not_no
            else if ltb_ℤ c.lower.strike c.higher.strike
            then (if c.executable
                then (if ltb_ℤ c.guaranteed_profit min_profit
                    then some guaranteed_profit_below_threshold
                    else none)
                else some candidate_not_executable)
            else some lower_strike_not_below_higher)
        else some lower_leg_not_yes)
    else some non_protected_structure

unfoldable pub is_protected_executable_candidate : ArbCandidate → ℤ → Bool
unfolding protected_candidate_block_reason
is_protected_executable_candidate c min_profit =
    elim (protected_candidate_block_reason c min_profit) [ none ↦ true | some r ↦ false ]
