-- ===== src/Scanner/Pairing/Sound.antt =====
-- What src/scanner/pairing.ts hands to the trader.
use mathlib.Core.Path.{subst}
use pok_poly_kalshi.Prelude.{
  true, ◌≡◌, refl, sym, Option, none, some, List, [], ◌∷◌, arith, inl, inr,
}
use pok_poly_kalshi.Prelude.Tests.{Bool-cases}
use pok_poly_kalshi.Prelude.Lists.{All, All-append}
use pok_poly_kalshi.Prelude.Int.{ℤ, pos, ◌≤ℤ◌, ◌<ℤ◌}
use pok_poly_kalshi.Types.{BinaryContract}
use pok_poly_kalshi.Scanner.Payoff.{spread_profit}
use pok_poly_kalshi.Scanner.Candidate.{
  ArbCandidate, guaranteed_spread_candidate, dead_zone_candidate, protected_candidate,
  candidate_from_legs, leg,
}
use pok_poly_kalshi.Scanner.Risk.{build_structure_risk}
use pok_poly_kalshi.Scanner.Candidate.Protected.{executable_profit, candidate-asks}
use pok_poly_kalshi.Scanner.Safety.{protected_candidate_block_reason, lower_strike_not_below_higher}
use pok_poly_kalshi.Scanner.Pairing.{
  Candidates, push_guaranteed, push_rejected, same_contract_window, order_by_strike, add_pair,
  add_row, add_rows, enumerate_candidates,
}

order_by_strike-le :
    (p k : BinaryContract) → (order_by_strike p k).0.strike ≤ℤ (order_by_strike p k).1.strike
unfolding order_by_strike
order_by_strike-le p k = ground arith

-- The candidate earns at least the threshold wherever the price settles, and the safety check lets it
-- pass unless its two strikes are equal.
pub record IsSound (threshold : ℤ) (c : ArbCandidate) : Type 0 where
  pub profitable : (s : ℤ) → threshold ≤ℤ spread_profit c.lower c.higher s
  pub safe : c.lower.strike <ℤ c.higher.strike → protected_candidate_block_reason c threshold ≡ none
  pub unsafe :
      ¬ (c.lower.strike <ℤ c.higher.strike)
      → protected_candidate_block_reason c threshold ≡ some lower_strike_not_below_higher

protected-reason :
    (lower higher : BinaryContract) (threshold a b : ℤ)
    → let c = protected_candidate lower higher threshold a b in
      c.executable ≡ true
      → threshold ≤ℤ c.guaranteed_profit
      → (c.lower.strike <ℤ c.higher.strike → protected_candidate_block_reason c threshold ≡ none)
        × (¬ (c.lower.strike <ℤ c.higher.strike)
            → protected_candidate_block_reason c threshold ≡ some lower_strike_not_below_higher)
unfolding protected_candidate candidate_from_legs leg build_structure_risk
    protected_candidate_block_reason
protected-reason lower higher threshold a b x g = (λ h. rw x (ground arith), λ h. ground arith)

candidate-IsSound :
    (lower higher : BinaryContract) (threshold : ℤ) (c : ArbCandidate)
    → lower.strike ≤ℤ higher.strike
    → guaranteed_spread_candidate lower higher threshold ≡ some c
    → c.executable ≡ true
    → IsSound threshold c
candidate-IsSound lower higher threshold c h e x =
    let (a, b, same) = candidate-asks lower higher threshold e in
    let reasons =
      subst
        (λ k.
          k.executable ≡ true
          → threshold ≤ℤ k.guaranteed_profit
          → (k.lower.strike <ℤ k.higher.strike
              → protected_candidate_block_reason k threshold ≡ none)
            × (¬ (k.lower.strike <ℤ k.higher.strike)
                → protected_candidate_block_reason k threshold
                  ≡ some lower_strike_not_below_higher))
        (sym same) (protected-reason lower higher threshold a b) x
        (executable_profit lower higher threshold (pos 0) c h e x).0 in
    record {
      profitable = λ s.
          let (enough, kept) = executable_profit lower higher threshold s c h e x in omega arith;
      safe = reasons.0;
      unsafe = reasons.1;
    }

push_rejected-executable :
    (acc : Candidates) (d : Option ArbCandidate) → (push_rejected acc d).executable ≡ acc.executable
push_rejected-executable acc none = refl
push_rejected-executable acc (some d) = refl

push_guaranteed-All :
    (threshold : ℤ) (acc : Candidates) (g : Option ArbCandidate)
    → ((c : ArbCandidate) → g ≡ some c → c.executable ≡ true → IsSound threshold c)
    → All (IsSound threshold) acc.executable
    → All (IsSound threshold) (push_guaranteed acc g).executable
push_guaranteed-All threshold acc none sound a = a
push_guaranteed-All threshold acc (some g) sound a = elim (Bool-cases g.executable) [
  | inl x ↦ simp x (All-append (IsSound threshold) acc.executable (g ∷ []) a (sound g refl x, tt))
  | inr x ↦ simp x a
]

-- Only the protected candidate can become executable.
push-All :
    (threshold : ℤ) (acc : Candidates) (g d : Option ArbCandidate)
    → ((c : ArbCandidate) → g ≡ some c → c.executable ≡ true → IsSound threshold c)
    → All (IsSound threshold) acc.executable
    → All (IsSound threshold) (push_rejected (push_guaranteed acc g) d).executable
push-All threshold acc g d sound a =
    rw (push_rejected-executable (push_guaranteed acc g) d)
      (push_guaranteed-All threshold acc g sound a)

add_pair-All :
    (threshold : ℤ) (acc : Candidates) (p k : BinaryContract)
    → All (IsSound threshold) acc.executable
    → All (IsSound threshold) (add_pair threshold acc p k).executable
unfolding add_pair
add_pair-All threshold acc p k a = elim (Bool-cases (same_contract_window p k)) [
  | inr w ↦ rw w a
  | inl w ↦
      let (lower, higher) = order_by_strike p k in
      rw w (
        push-All threshold acc (guaranteed_spread_candidate lower higher threshold)
          (dead_zone_candidate lower higher threshold)
          (λ c e x. candidate-IsSound lower higher threshold c (order_by_strike-le p k) e x) a)
]

add_row-All :
    (threshold : ℤ) (acc : Candidates) (p : BinaryContract) (ks : List BinaryContract)
    → All (IsSound threshold) acc.executable
    → All (IsSound threshold) (add_row threshold acc p ks).executable
unfolding add_row
add_row-All threshold acc p [] a = a
add_row-All threshold acc p (k ∷ ks) a =
    add_row-All threshold (add_pair threshold acc p k) p ks (add_pair-All threshold acc p k a)

add_rows-All :
    (threshold : ℤ) (acc : Candidates) (ps ks : List BinaryContract)
    → All (IsSound threshold) acc.executable
    → All (IsSound threshold) (add_rows threshold acc ps ks).executable
unfolding add_rows
add_rows-All threshold acc [] ks a = a
add_rows-All threshold acc (p ∷ ps) ks a =
    add_rows-All threshold (add_row threshold acc p ks) ps ks (add_row-All threshold acc p ks a)

-- Every executable candidate, of any contracts, earns at least the threshold wherever the price
-- settles. The safety check passes it if its strikes differ, and blocks it if they are equal.
pub enumerate-IsSound :
    (ps ks : List BinaryContract) (threshold : ℤ)
    → All (IsSound threshold) (enumerate_candidates ps ks threshold).executable
unfolding enumerate_candidates
enumerate-IsSound ps ks threshold = add_rows-All threshold _ ps ks tt
