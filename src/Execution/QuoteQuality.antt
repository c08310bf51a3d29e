-- ===== src/Execution/QuoteQuality.antt =====
-- src/execution/quote-quality.ts: the gate on the live quotes of a candidate, `evaluateLiveQuoteQuality`.
pub mod Edge
pub mod Admits
pub mod Size
use pok_poly_kalshi.Prelude.{
  ℕ, ◌+◌, ◌-◌, min, max, Bool, false, Option, none, some, ◌&&◌, ◌||◌, not,
}
use pok_poly_kalshi.Prelude.Tests.{if◌then◌else◌, or_default, or_else, is_some, leb, ltb, text_key}
use pok_poly_kalshi.Prelude.Int.{ℤ, pos, ◌+ℤ◌, ◌-ℤ◌, ltb_ℤ}
use pok_poly_kalshi.Prelude.Money.{dollar, round_dollars}
use pok_poly_kalshi.Types.{kalshi, polymarket, ArbLeg}
use pok_poly_kalshi.Scanner.Candidate.{ArbCandidate}
use pok_poly_kalshi.Execution.LegQuote.{
  QuoteConfig, LiveQuoteBooks, QuoteReason, skew_above, edge_below, QuoteSnapshotLeg, LegQuote,
  leg_for_venue, both, expected_kalshi_fee, find_contract, quote_leg,
}

pub record QuoteSnapshot : Type 0 where
  pub captured_at : ℕ
  pub quote_skew_ms : Option ℕ
  pub kalshi_snapshot : Option QuoteSnapshotLeg
  pub polymarket_snapshot : Option QuoteSnapshotLeg
  pub projected_premium : Option ℤ
  pub projected_edge : Option ℤ
  pub projected_premium_at_limit : Option ℤ
  pub projected_edge_at_limit : Option ℤ
  pub projected_edge_after_fees : Option ℤ
  pub expected_kalshi_fee_per_share : Option ℤ
  pub min_profit_dollars : ℤ

pub record LiveQuoteEvaluation : Type 0 where
  pub ok : Bool
  pub reason : Option QuoteReason
  pub snapshot : QuoteSnapshot
  pub kalshi_leg : Option ArbLeg
  pub polymarket_leg : Option ArbLeg
  pub kalshi_max_buy_price : Option ℤ
  pub polymarket_max_buy_price : Option ℤ

abbrev pub skew_of : Option QuoteSnapshotLeg → Option QuoteSnapshotLeg → Option ℕ
skew_of none p = none
skew_of (some k) none = none
skew_of (some k) (some p) = some (max k.updated_at p.updated_at - min k.updated_at p.updated_at)

abbrev pub both_fresh : QuoteConfig → ℕ → Option QuoteSnapshotLeg → Option QuoteSnapshotLeg → Bool
both_fresh o now none p = false
both_fresh o now (some k) none = false
both_fresh o now (some k) (some p) = leb now (min k.updated_at p.updated_at + o.quote_max_age_ms)

abbrev pub skewed : QuoteConfig → Option ℕ → Bool → Bool
skewed o none fresh = false
skewed o (some skew) fresh =
    ltb o.quote_sync_max_skew_ms skew && (not o.quote_skew_both_fresh_enabled || not fresh)

abbrev pub snapshot_vwap : Option QuoteSnapshotLeg → Option ℤ
snapshot_vwap none = none
snapshot_vwap (some s) = s.vwap

abbrev pub rounded_sum : ℤ → ℤ → ℤ
rounded_sum a b = round_dollars (a +ℤ b)

abbrev pub rest_of_dollar : Option ℤ → Option ℤ
rest_of_dollar none = none
rest_of_dollar (some premium) = some (round_dollars (dollar -ℤ premium))

abbrev pub less_fee : Option ℤ → Option ℤ → Option ℤ
less_fee none fee = none
less_fee (some edge) fee = some (round_dollars (edge -ℤ or_default fee (pos 0)))

abbrev pub thin_edge : ℤ → Option ℤ → Bool
thin_edge threshold none = false
thin_edge threshold (some edge) = ltb_ℤ (edge +ℤ pos 1) threshold

-- What is wrong: a leg, then the skew of the two quotes, then the edge at the limits.
unfoldable pub evaluation_reason :
    QuoteConfig → ℕ → LegQuote → LegQuote → Option ℤ → Option QuoteReason
evaluation_reason o now k p edge = or_else (or_else k.reason p.reason) (
    if skewed o (skew_of k.snapshot p.snapshot) (both_fresh o now k.snapshot p.snapshot)
    then some skew_above
    else if thin_edge o.min_profit_dollars edge
    then some edge_below
    else none)

abbrev pub fee_at : QuoteConfig → LegQuote → Option ℤ
fee_at o k =
    if o.fee_aware_gate_enabled then some (expected_kalshi_fee (snapshot_vwap k.snapshot)) else none

-- `evaluateLiveQuoteQuality` once both legs are quoted.
unfoldable pub evaluation : QuoteConfig → ℕ → LegQuote → LegQuote → LiveQuoteEvaluation
evaluation o now k p =
    let premium = both rounded_sum (snapshot_vwap k.snapshot) (snapshot_vwap p.snapshot) in
    let at_limit = both rounded_sum k.max_buy_price p.max_buy_price in
    let after_fees = less_fee (rest_of_dollar at_limit) (fee_at o k) in
    let reason = evaluation_reason o now k p after_fees in
    record {
      ok = not (is_some reason);
      reason = reason;
      snapshot = record {
        captured_at = now;
        quote_skew_ms = skew_of k.snapshot p.snapshot;
        kalshi_snapshot = k.snapshot;
        polymarket_snapshot = p.snapshot;
        projected_premium = premium;
        projected_edge = rest_of_dollar premium;
        projected_premium_at_limit = at_limit;
        projected_edge_at_limit = rest_of_dollar at_limit;
        projected_edge_after_fees = after_fees;
        expected_kalshi_fee_per_share = fee_at o k;
        min_profit_dollars = o.min_profit_dollars;
      };
      kalshi_leg = k.adjusted_leg;
      polymarket_leg = p.adjusted_leg;
      kalshi_max_buy_price = k.max_buy_price;
      polymarket_max_buy_price = p.max_buy_price;
    }

abbrev pub kalshi_quote : ArbCandidate → LiveQuoteBooks → QuoteConfig → ℕ → ℤ → LegQuote
kalshi_quote candidate books o now size =
    let leg = leg_for_venue candidate kalshi in
    quote_leg o now leg (find_contract books leg) (pos 0) o.quote_max_age_ms size

abbrev pub polymarket_max_age : QuoteConfig → ℕ
polymarket_max_age o = or_default o.polymarket_quote_max_age_ms o.quote_max_age_ms

abbrev pub polymarket_quote : ArbCandidate → LiveQuoteBooks → QuoteConfig → ℕ → ℤ → ℤ → LegQuote
polymarket_quote candidate books o now cross size =
    let leg = leg_for_venue candidate polymarket in
    quote_leg o now leg (find_contract books leg) cross (polymarket_max_age o) size

-- `cross` is the extra offset of the Polymarket leg.
unfoldable pub evaluate_live_quote_quality :
    ArbCandidate → LiveQuoteBooks → QuoteConfig → ℕ → ℤ → ℤ → LiveQuoteEvaluation
evaluate_live_quote_quality candidate books o now cross size =
    evaluation o now (kalshi_quote candidate books o now size)
      (polymarket_quote candidate books o now cross size)
