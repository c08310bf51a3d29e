-- ===== src/Execution/LegQuote/Accepted.antt =====
-- What `quoteLeg` of src/execution/quote-quality.ts has found when it gives no reason.
use mathlib.Core.Path.{subst}
use pok_poly_kalshi.Prelude.{
  ℕ, ◌+◌, ◌≤◌, false, ◌≡◌, refl, Option, none, some, inl, inr, arith, ◌&&◌,
}
use pok_poly_kalshi.Prelude.Tests.{if◌then◌else◌, Bool-cases, ltb, or_default}
use pok_poly_kalshi.Prelude.Int.{ℤ, pos, ltb_ℤ, ◌+ℤ◌, scale}
use pok_poly_kalshi.Types.{BinaryContract, ArbLeg}
use pok_poly_kalshi.Execution.Depth.{DepthVwapResult, depth_weighted_ask}
use pok_poly_kalshi.Execution.LegQuote.{
  QuoteConfig, QuoteSnapshotLeg, LegQuote, ask_for, levels_for, depth_required, buy_limit,
  leg_snapshot, price_leg, quote_leg, refused, quote_stale, liquidity_guard_on, slippage_guard_on,
  slippage, tick_changed_recently,
}

pub record Accepted (o : QuoteConfig) (now : ℕ) (leg : Option ArbLeg)
    (found : Option BinaryContract) (extra : ℤ) (max_age : ℕ) (size : ℤ) (q : LegQuote)
    : Type 0 where
  pub the_leg : ArbLeg
  pub contract : BinaryContract
  pub top : ℤ
  pub execution : DepthVwapResult
  pub leg_eq : leg ≡ some the_leg
  pub contract_eq : found ≡ some contract
  pub fresh : now ≤ contract.updated_at + max_age
  pub top_eq : ask_for contract the_leg.direction ≡ some top
  pub execution_eq :
      depth_weighted_ask (levels_for contract the_leg.direction) size ≡ some execution
  pub limit_eq : q.max_buy_price ≡ some (buy_limit o extra execution.worst_ask)
  pub steady : tick_changed_recently o now contract.tick_size_changed_at ≡ false

price_leg-Accepted :
    (o : QuoteConfig) (now : ℕ) (leg : ArbLeg) (c : BinaryContract) (extra : ℤ)
    (s : QuoteSnapshotLeg) (top : Option ℤ) (execution required : Option DepthVwapResult)
    → (price_leg o now leg c extra s top execution required).reason ≡ none
    → (t : ℤ) × (d : DepthVwapResult) × (top ≡ some t)
      × (execution ≡ some d)
      × ((price_leg o now leg c extra s top execution required).max_buy_price
          ≡ some (buy_limit o extra d.worst_ask))
      × (tick_changed_recently o now c.tick_size_changed_at ≡ false)
unfolding price_leg
price_leg-Accepted o now leg c extra s none execution required h = absurd (cc)
price_leg-Accepted o now leg c extra s (some t) none required h = absurd (cc)
price_leg-Accepted o now leg c extra s (some t) (some d) none h = absurd (cc)
price_leg-Accepted o now leg c extra s (some t) (some d) (some r) h =
    let thin =
      liquidity_guard_on o
      && ltb_ℤ (or_default s.executable_liquidity_shares (pos 0) +ℤ pos 1)
          o.min_executable_liquidity_shares in
    let slips =
      slippage_guard_on o
      && ltb_ℤ (scale 100 o.max_executable_ask_slippage_cents +ℤ pos 1) (slippage d.worst_ask t) in
    let moved = tick_changed_recently o now c.tick_size_changed_at in
    elim (Bool-cases thin) [
      | inl e ↦ absurd (ground (arith, h, e))
      | inr e ↦ elim (Bool-cases slips) [
        | inl e' ↦ absurd (ground (arith, h, e, e'))
        | inr e' ↦ elim (Bool-cases moved) [
          | inl m ↦ absurd (ground (arith, h, e, e', m))
          | inr m ↦ rw (e, e', m) (t, d, refl, refl, refl, refl)
        ]
      ]
    ]

-- Without a reason the leg is on its venue and in the book, its quote is fresh, its asks cover the size,
-- and the limit is the worst of those asks and the offset.
pub quote_leg-Accepted :
    (o : QuoteConfig) (now : ℕ) (leg : Option ArbLeg) (found : Option BinaryContract) (extra : ℤ)
    (max_age : ℕ) (size : ℤ)
    → (quote_leg o now leg found extra max_age size).reason ≡ none
    → Accepted o now leg found extra max_age size (quote_leg o now leg found extra max_age size)
unfolding quote_leg
quote_leg-Accepted o now none found extra max_age size h = absurd (cc)
quote_leg-Accepted o now (some leg) none extra max_age size h = absurd (cc)
quote_leg-Accepted o now (some leg) (some c) extra max_age size h =
    elim (Bool-cases (ltb (c.updated_at + max_age) now)) [
      | inl e ↦ absurd (ground (arith, h, e))
      | inr e ↦
          let levels = levels_for c leg.direction in
          let s = leg_snapshot o now leg c size in
          let top = ask_for c leg.direction in
          let execution = depth_weighted_ask levels size in
          let required = depth_weighted_ask levels (depth_required o size) in
          let priced = price_leg o now leg c extra s top execution required in
          let (t, d, top_eq, execution_eq, limit_eq, steady) =
            price_leg-Accepted o now leg c extra s top execution required (
              subst (λ b. (if b then refused (some s) quote_stale else priced).reason ≡ none) e
                h) in
          rw e (record {
            the_leg = leg;
            contract = c;
            top = t;
            execution = d;
            leg_eq = refl;
            contract_eq = refl;
            fresh = ground (arith, e);
            top_eq = top_eq;
            execution_eq = execution_eq;
            limit_eq = limit_eq;
            steady = steady;
          })
    ]
