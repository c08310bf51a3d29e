-- ===== src/Execution/QuoteQuality/Edge.antt =====
-- The edge that the gate of src/execution/quote-quality.ts leaves after limits and fees.
use pok_poly_kalshi.Prelude.{ℕ, ◌+◌, ◌*◌, false, ◌≡◌, refl, ap, Option, none, some, inl, inr, arith}
use pok_poly_kalshi.Prelude.Tests.{if◌then◌else◌, Bool-cases, or_default, or_else}
use pok_poly_kalshi.Prelude.Int.{
  ℤ, pos, pos_part, neg_part, ◌+ℤ◌, ◌-ℤ◌, ltb_ℤ, ◌≤ℤ◌, +ℤ_parts, -ℤ_parts, eq_of_parts,
}
use pok_poly_kalshi.Prelude.Money.{
  dollar, money_tick, round_dollars, round_dollars_parts, floor_div,
}
use pok_poly_kalshi.Execution.LegQuote.{
  QuoteConfig, LegQuote, QuoteReason, skew_above, edge_below, expected_kalshi_fee,
}
use pok_poly_kalshi.Execution.QuoteQuality.{
  evaluation_reason, rounded_sum, rest_of_dollar, less_fee, fee_at, thin_edge, skewed, skew_of,
  both_fresh, snapshot_vwap,
}

-- A whole number of ticks.
abbrev pub OnTick : ℤ → Type 0
OnTick v = (a : ℕ) × (b : ℕ) × (pos_part v ≡ money_tick * a) × (neg_part v ≡ money_tick * b)

pub round-OnTick : (v : ℤ) → OnTick (round_dollars v)
round-OnTick v =
    let q = floor_div (v +ℤ pos 50_000) money_tick in
    (pos_part q, neg_part q, (round_dollars_parts v).0, (round_dollars_parts v).1)

pub round_exact :
    (v : ℤ) (a b : ℕ)
    → pos_part v + money_tick * b ≡ neg_part v + money_tick * a
    → round_dollars v ≡ v
round_exact v a b h = eq_of_parts _ _ (omega (arith, h, round_dollars_parts v))

pub round-add : (x y : ℤ) → OnTick x → OnTick y → round_dollars (x +ℤ y) ≡ x +ℤ y
round-add x y (a, b, ea, eb) (c, d, ec, ed) =
    round_exact (x +ℤ y) (a + c) (b + d) (omega (arith, +ℤ_parts x y))

pub round-sub : (x y : ℤ) → OnTick x → OnTick y → round_dollars (x -ℤ y) ≡ x -ℤ y
round-sub x y (a, b, ea, eb) (c, d, ec, ed) =
    round_exact (x -ℤ y) (a + d) (b + c) (omega (arith, -ℤ_parts x y))

dollar-OnTick : OnTick dollar
dollar-OnTick = (10_000, 0, refl, refl)

fee-OnTick : (price : Option ℤ) → OnTick (expected_kalshi_fee price)
unfolding expected_kalshi_fee
fee-OnTick none = (0, 0, refl, refl)
fee-OnTick (some price) = (_, 0, refl, refl)

pub fee_at-OnTick : (o : QuoteConfig) (k : LegQuote) → OnTick (or_default (fee_at o k) (pos 0))
fee_at-OnTick o k = elim (Bool-cases o.fee_aware_gate_enabled) [
  | inl e ↦ rw e (fee-OnTick (snapshot_vwap k.snapshot))
  | inr e ↦ rw e (0, 0, refl, refl)
]

leb_of_thin : (a b : ℤ) → ltb_ℤ a b ≡ false → b ≤ℤ a
leb_of_thin a b h = ground (arith, h)

-- On whole ticks no rounding of the edge loses anything.
pub edge-exact :
    (threshold x y : ℤ) (fee : Option ℤ)
    → OnTick x
    → OnTick y
    → OnTick (or_default fee (pos 0))
    → thin_edge threshold (less_fee (rest_of_dollar (some (rounded_sum x y))) fee) ≡ false
    → (x +ℤ y +ℤ or_default fee (pos 0) +ℤ threshold) ≤ℤ (dollar +ℤ pos 1)
edge-exact threshold x y fee tx ty tf h =
    let f = or_default fee (pos 0) in
    let sum = round_dollars (x +ℤ y) in
    let edge = round_dollars (dollar -ℤ sum) in
    let left = round_dollars (edge -ℤ f) in
    omega (
      arith,
      leb_of_thin (left +ℤ pos 1) threshold h,
      ap pos_part (round-add x y tx ty),
      ap neg_part (round-add x y tx ty),
      ap pos_part (round-sub dollar sum dollar-OnTick (round-OnTick (x +ℤ y))),
      ap neg_part (round-sub dollar sum dollar-OnTick (round-OnTick (x +ℤ y))),
      ap pos_part (round-sub edge f (round-OnTick (dollar -ℤ sum)) tf),
      ap neg_part (round-sub edge f (round-OnTick (dollar -ℤ sum)) tf),
      +ℤ_parts x y,
      +ℤ_parts (x +ℤ y) f,
      +ℤ_parts (x +ℤ y +ℤ f) threshold,
      -ℤ_parts dollar sum,
      -ℤ_parts edge f,
      +ℤ_parts left (pos 1),
      +ℤ_parts dollar (pos 1),
    )

or_else-none : (a b : Option QuoteReason) → or_else a b ≡ none → (a ≡ none) × (b ≡ none)
or_else-none none b h = (refl, h)
or_else-none (some r) b h = absurd (cc)

-- No reason: both legs are quoted, the quotes are not skewed, and the edge is not thin.
pub evaluation_reason-none :
    (o : QuoteConfig) (now : ℕ) (k p : LegQuote) (edge : Option ℤ)
    → evaluation_reason o now k p edge ≡ none
    → (k.reason ≡ none)
      × (p.reason ≡ none)
      × (skewed o (skew_of k.snapshot p.snapshot) (both_fresh o now k.snapshot p.snapshot) ≡ false)
      × (thin_edge o.min_profit_dollars edge ≡ false)
unfolding evaluation_reason
evaluation_reason-none o now k p edge h =
    let skew = skewed o (skew_of k.snapshot p.snapshot) (both_fresh o now k.snapshot p.snapshot) in
    let thin = thin_edge o.min_profit_dollars edge in
    let late = if skew then some skew_above else if thin then some edge_below else none in
    let (legs, rest) = or_else-none (or_else k.reason p.reason) late h in
    let (ek, ep) = or_else-none k.reason p.reason legs in
    elim (Bool-cases skew) [
      | inl e ↦ absurd (ground (arith, rest, e))
      | inr e ↦ elim (Bool-cases thin) [
        | inl e' ↦ absurd (ground (arith, rest, e, e'))
        | inr e' ↦ (ek, ep, e, e')
      ]
    ]
