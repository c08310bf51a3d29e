-- ===== src/Execution/LegQuote/Fill.antt =====
-- At the limit that `quoteLeg` of src/execution/quote-quality.ts sets, its order can fill.
use mathlib.Core.Path.{subst}
use pok_poly_kalshi.Prelude.{ℕ, ◌+◌, ◌≤◌, ◌≡◌, refl, Option, some, arith}
use pok_poly_kalshi.Prelude.Int.{scale, ℤ, pos, ◌+ℤ◌, ◌≤ℤ◌, min_ℤ, +ℤ_parts}
use pok_poly_kalshi.Prelude.Money.{
  floor_div, dollar, round_dollars, round_dollars_mono, round_dollars_idem, round_dollars_near,
}
use pok_poly_kalshi.Types.{BinaryContract, ArbLeg}
use pok_poly_kalshi.Execution.Depth.{usable_levels, size_up_to}
use pok_poly_kalshi.Execution.Depth.Cover.{depth_weighted_ask-Covers, size_up_to_mono}
use pok_poly_kalshi.Execution.LegQuote.{
  QuoteConfig, LegQuote, levels_for, buy_limit, marketable_offset,
}
use pok_poly_kalshi.Execution.LegQuote.Accepted.{Accepted}

-- The leg stands in the book, its quote is not older than allowed, and the asks up to half a money tick
-- above the limit cover the size, up to a billionth.
pub record Fillable (now : ℕ) (leg : Option ArbLeg) (found : Option BinaryContract) (max_age : ℕ)
    (size : ℤ) (limit : Option ℤ) : Type 0 where
  pub the_leg : ArbLeg
  pub contract : BinaryContract
  pub price : ℤ
  pub leg_eq : leg ≡ some the_leg
  pub contract_eq : found ≡ some contract
  pub fresh : now ≤ contract.updated_at + max_age
  pub limit_eq : limit ≡ some price
  pub covered :
      size
      ≤ℤ pos (
          size_up_to (price +ℤ pos 50_000) (usable_levels (levels_for contract the_leg.direction))
          + 1)

min-above : (r a b : ℤ) → r ≤ℤ a → r ≤ℤ b → r ≤ℤ min_ℤ a b
min-above r a b ha hb = ground (arith, ha, hb)

offset-nonneg : (o : QuoteConfig) (extra : ℤ) → pos 0 ≤ℤ marketable_offset o extra
offset-nonneg o extra = ground arith

dollar_exact : round_dollars dollar ≡ dollar
unfolding round_dollars floor_div ◌+ℤ◌ scale
dollar_exact = refl

limit-reaches :
    (o : QuoteConfig) (extra : ℤ) (worst : ℕ)
    → worst ≤ 1_000_000_000
    → pos worst ≤ℤ (buy_limit o extra (round_dollars (pos worst)) +ℤ pos 50_000)
limit-reaches o extra worst h =
    let r = round_dollars (pos worst) in
    let t = r +ℤ marketable_offset o extra in
    let below : r ≤ℤ dollar =
      subst (λ d. r ≤ℤ d) dollar_exact (round_dollars_mono (pos worst) dollar (omega (arith, h))) in
    let up : r ≤ℤ t =
      omega (arith, offset-nonneg o extra, +ℤ_parts r (marketable_offset o extra)) in
    let m = min_ℤ dollar t in
    let kept : r ≤ℤ round_dollars m =
      subst (λ x. x ≤ℤ round_dollars m) (round_dollars_idem (pos worst))
        (round_dollars_mono r m (min-above r dollar t below up)) in
    omega (arith, kept, round_dollars_near (pos worst), +ℤ_parts (round_dollars m) (pos 50_000))

-- An accepted quote can be filled at its limit.
pub Accepted-Fillable :
    (o : QuoteConfig) (now : ℕ) (leg : Option ArbLeg) (found : Option BinaryContract) (extra : ℤ)
    (max_age : ℕ) (size : ℤ) (q : LegQuote)
    → Accepted o now leg found extra max_age size q
    → Fillable now leg found max_age size q.max_buy_price
Accepted-Fillable o now leg found extra max_age size q a =
    let levels = levels_for a.contract a.the_leg.direction in
    let c = depth_weighted_ask-Covers levels size a.execution a.execution_eq in
    let price = buy_limit o extra a.execution.worst_ask in
    let near : pos c.worst ≤ℤ (price +ℤ pos 50_000) =
      rw c.worst_eq (limit-reaches o extra c.worst c.at_most_one) in
    record {
      the_leg = a.the_leg;
      contract = a.contract;
      price = price;
      leg_eq = a.leg_eq;
      contract_eq = a.contract_eq;
      fresh = a.fresh;
      limit_eq = a.limit_eq;
      covered = omega (
        arith,
        c.covered,
        size_up_to_mono (pos c.worst) (price +ℤ pos 50_000) (usable_levels levels) near,
      );
    }
