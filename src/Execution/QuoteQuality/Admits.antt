-- ===== src/Execution/QuoteQuality/Admits.antt =====
-- What the gate of src/execution/quote-quality.ts guarantees of the candidates that it admits.
use mathlib.Core.Path.{subst}
use pok_poly_kalshi.Prelude.{ℕ, true, false, ◌≡◌, refl, Option, none, some, not}
use pok_poly_kalshi.Prelude.Tests.{or_default, is_some}
use pok_poly_kalshi.Prelude.Int.{ℤ, pos, ◌+ℤ◌, ◌≤ℤ◌}
use pok_poly_kalshi.Prelude.Money.{dollar}
use pok_poly_kalshi.Types.{kalshi, polymarket}
use pok_poly_kalshi.Scanner.Candidate.{ArbCandidate}
use pok_poly_kalshi.Execution.LegQuote.{
  QuoteConfig, LiveQuoteBooks, QuoteReason, leg_for_venue, find_contract, both, buy_limit,
}
use pok_poly_kalshi.Execution.LegQuote.Accepted.{Accepted, quote_leg-Accepted}
use pok_poly_kalshi.Execution.LegQuote.Fill.{Fillable, Accepted-Fillable}
use pok_poly_kalshi.Execution.QuoteQuality.{
  evaluation, evaluate_live_quote_quality, kalshi_quote, polymarket_quote, polymarket_max_age,
  rounded_sum, rest_of_dollar, less_fee, fee_at, thin_edge,
}
use pok_poly_kalshi.Execution.QuoteQuality.Edge.{
  round-OnTick, fee_at-OnTick, edge-exact, evaluation_reason-none,
}

ok-none : (r : Option QuoteReason) → not (is_some r) ≡ true → r ≡ none
ok-none none h = refl
ok-none (some r) h = absurd (cc)

-- What an admitted candidate has found on both legs, and its edge.
pub record Admitted (candidate : ArbCandidate) (books : LiveQuoteBooks) (o : QuoteConfig) (now : ℕ)
    (cross size : ℤ) : Type 0 where
  pub kalshi_found :
      let leg = leg_for_venue candidate kalshi in
      Accepted o now leg
        (find_contract books leg)
        (pos 0)
        o.quote_max_age_ms
        size
        (kalshi_quote candidate books o now size)
  pub polymarket_found :
      let leg = leg_for_venue candidate polymarket in
      Accepted o now leg
        (find_contract books leg)
        cross
        (polymarket_max_age o)
        size
        (polymarket_quote candidate books o now cross size)
  pub edge_kept :
      let k = kalshi_quote candidate books o now size in
      let p = polymarket_quote candidate books o now cross size in
      thin_edge o.min_profit_dollars
        (less_fee (rest_of_dollar (both rounded_sum k.max_buy_price p.max_buy_price)) (fee_at o k))
      ≡ false

pub ok-Admitted :
    (candidate : ArbCandidate) (books : LiveQuoteBooks) (o : QuoteConfig) (now : ℕ) (cross size : ℤ)
    → (evaluate_live_quote_quality candidate books o now cross size).ok ≡ true
    → Admitted candidate books o now cross size
unfolding evaluate_live_quote_quality evaluation
ok-Admitted candidate books o now cross size h =
    let k = kalshi_quote candidate books o now size in
    let p = polymarket_quote candidate books o now cross size in
    let edge =
      less_fee (rest_of_dollar (both rounded_sum k.max_buy_price p.max_buy_price)) (fee_at o k) in
    let (ek, ep, skew, thin) = evaluation_reason-none o now k p edge (ok-none _ h) in
    let kalshi_leg = leg_for_venue candidate kalshi in
    let polymarket_leg = leg_for_venue candidate polymarket in
    record {
      kalshi_found =
          quote_leg-Accepted o now kalshi_leg (find_contract books kalshi_leg) (pos 0)
            o.quote_max_age_ms size ek;
      polymarket_found =
          quote_leg-Accepted o now polymarket_leg (find_contract books polymarket_leg) cross
            (polymarket_max_age o) size ep;
      edge_kept = thin;
    }

-- When the gate admits a candidate, both legs have a limit, and buying both at their limits and paying
-- the fee that the gate expects leaves the minimum profit of each dollar, up to a billionth.
pub ok-profitable :
    (candidate : ArbCandidate) (books : LiveQuoteBooks) (o : QuoteConfig) (now : ℕ) (cross size : ℤ)
    → (evaluate_live_quote_quality candidate books o now cross size).ok ≡ true
    → let e = evaluate_live_quote_quality candidate books o now cross size in
      (k : ℤ) × (p : ℤ) × (e.kalshi_max_buy_price ≡ some k)
      × (e.polymarket_max_buy_price ≡ some p)
      × ((k
            +ℤ p
            +ℤ or_default e.snapshot.expected_kalshi_fee_per_share (pos 0)
            +ℤ o.min_profit_dollars)
          ≤ℤ (dollar +ℤ pos 1))
unfolding evaluate_live_quote_quality evaluation
ok-profitable candidate books o now cross size h =
    let a = ok-Admitted candidate books o now cross size h in
    let kq = kalshi_quote candidate books o now size in
    let k = buy_limit o (pos 0) a.kalshi_found.execution.worst_ask in
    let p = buy_limit o cross a.polymarket_found.execution.worst_ask in
    let fee = fee_at o kq in
    let edge =
      subst
        (λ b.
          thin_edge o.min_profit_dollars
            (less_fee (rest_of_dollar (both rounded_sum b (some p))) fee)
          ≡ false)
        a.kalshi_found.limit_eq
        (subst
          (λ b.
            thin_edge o.min_profit_dollars
              (less_fee (rest_of_dollar (both rounded_sum kq.max_buy_price b)) fee)
            ≡ false)
          a.polymarket_found.limit_eq a.edge_kept) in
    (
      k,
      p,
      a.kalshi_found.limit_eq,
      a.polymarket_found.limit_eq,
      edge-exact o.min_profit_dollars k p fee (round-OnTick _) (round-OnTick _) (fee_at-OnTick o kq)
          edge,
    )

-- When the gate admits a candidate for a size, each leg is in the books of its venue, its quote is no
-- older than allowed there, and the asks of that book up to half a money tick above the limit of the leg
-- add up to the size, up to a billionth of a share.
pub ok-Fillable :
    (candidate : ArbCandidate) (books : LiveQuoteBooks) (o : QuoteConfig) (now : ℕ) (cross size : ℤ)
    → (evaluate_live_quote_quality candidate books o now cross size).ok ≡ true
    → let e = evaluate_live_quote_quality candidate books o now cross size in
      let k = leg_for_venue candidate kalshi in
      let p = leg_for_venue candidate polymarket in
      Fillable now k (find_contract books k) o.quote_max_age_ms size e.kalshi_max_buy_price
      × Fillable now p
          (find_contract books p)
          (polymarket_max_age o)
          size
          e.polymarket_max_buy_price
unfolding evaluate_live_quote_quality evaluation
ok-Fillable candidate books o now cross size h =
    let a = ok-Admitted candidate books o now cross size h in
    (
      Accepted-Fillable o now _ _ (pos 0) o.quote_max_age_ms size _ a.kalshi_found,
      Accepted-Fillable o now _ _ cross (polymarket_max_age o) size _ a.polymarket_found,
    )
