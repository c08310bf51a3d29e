-- ===== src/Execution/Unwind/Credit.antt =====
-- What `verifiedUnwoundShares` of src/execution/executor.ts credits.
use mathlib.Core.Path.{subst}
use pok_poly_kalshi.Prelude.{
  ◌+◌, ◌*◌, ◌<◌, Bool, true, false, ◌≡◌, refl, sym, Option, none, some, ◌⊎◌, inl, inr, arith,
}
use pok_poly_kalshi.Prelude.Tests.{if◌then◌else◌, Bool-cases, or_default}
use pok_poly_kalshi.Prelude.Int.{
  ℤ, pos, negsuc, pos_part, neg_part, ◌+ℤ◌, ◌-ℤ◌, scale, ◌≤ℤ◌, ◌<ℤ◌, ltb_ℤ, min_ℤ, +ℤ_parts,
  scale_parts,
}
use pok_poly_kalshi.Prelude.Money.{floor_div, money_tick}
use pok_poly_kalshi.Execution.Unwind.{
  Sale, over_loss, round_product, credit_at, verified_unwound_shares,
}

abbrev pub half_tick : ℤ
half_tick = pos 50_000_000_000_000

-- The sale was at the market, or what the credited shares can lose at its limit is less than the sum of
-- the cap, half a ten-thousandth of a dollar and a billionth of a dollar.
abbrev pub WithinCap : Sale → Option ℤ → ℤ → ℤ → Type 0
WithinCap sale price max_loss credit =
    (sale.market_sell ≡ true)
    ⊎ ((p : ℤ) × (l : ℤ) × (price ≡ some p)
        × (sale.limit_price ≡ some l)
        × (scale (pos_part credit) (p -ℤ l) <ℤ max_loss +ℤ pos 1_000_000_000 +ℤ half_tick))

-- A credit that is not nought.
pub record Proven (sale : Sale) (delta : ℤ) (price : Option ℤ) (max_loss credit : ℤ) : Type 0 where
  pub positive : pos 0 <ℤ credit
  pub within_sold : credit ≤ℤ or_default sale.fill_count (pos 0)
  pub within_delta : credit ≤ℤ delta
  pub capped : WithinCap sale price max_loss credit

floor_div_parts :
    (a : ℤ)
    → let q = floor_div a 100_000_000_000_000 in
      pos_part a + 100_000_000_000_000 * neg_part q
      < 100_000_000_000_000 * pos_part q + neg_part a + 100_000_000_000_000
unfolding floor_div
floor_div_parts (pos n) = omega arith
floor_div_parts (negsuc n) = omega arith

-- A loss whose rounded value passes the test is below the cap, the slack and half a tick.
kept-below :
    (max_loss v : ℤ)
    → over_loss max_loss (round_product v) ≡ false
    → v <ℤ max_loss +ℤ pos 1_000_000_000 +ℤ half_tick
unfolding round_product
kept-below max_loss v h =
    let q = floor_div (v +ℤ half_tick) 100_000_000_000_000 in
    let loss = scale money_tick q in
    let kept : scale 1_000_000_000 loss ≤ℤ max_loss +ℤ pos 1_000_000_000 = ground (arith, h) in
    omega (
      arith,
      kept,
      +ℤ_parts (max_loss +ℤ pos 1_000_000_000) half_tick,
      +ℤ_parts v half_tick,
      floor_div_parts (v +ℤ half_tick),
      scale_parts money_tick q,
      scale_parts 1_000_000_000 loss,
    )

min-bounds :
    (a b : ℤ) → pos 0 <ℤ a → pos 0 <ℤ b → (pos 0 <ℤ min_ℤ a b) × (min_ℤ a b ≤ℤ a) × (min_ℤ a b ≤ℤ b)
min-bounds a b ha hb = ground (arith, ha, hb)

credit-Proven :
    (sale : Sale) (delta : ℤ) (price limit : Option ℤ) (max_loss : ℤ)
    → pos 0 <ℤ delta
    → pos 0 <ℤ or_default sale.fill_count (pos 0)
    → sale.limit_price ≡ limit
    → let c = credit_at price limit (min_ℤ (or_default sale.fill_count (pos 0)) delta) max_loss in
      (c ≡ pos 0) ⊎ Proven sale delta price max_loss c
credit-Proven sale delta none limit max_loss d s e = inl refl
credit-Proven sale delta (some p) none max_loss d s e = inl refl
credit-Proven sale delta (some p) (some l) max_loss d s e =
    let c = min_ℤ (or_default sale.fill_count (pos 0)) delta in
    let (above, sold, within) = min-bounds (or_default sale.fill_count (pos 0)) delta s d in
    elim (Bool-cases (over_loss max_loss (round_product (scale (pos_part c) (p -ℤ l))))) [
      | inl h ↦ rw h (inl refl)
      | inr h ↦ rw h (
          inr (record {
            positive = above;
            within_sold = sold;
            within_delta = within;
            capped = inr (p, l, refl, e, kept-below max_loss (scale (pos_part c) (p -ℤ l)) h);
          }))
    ]

chosen-Proven :
    (sale : Sale) (delta : ℤ) (price : Option ℤ) (max_loss : ℤ) (at_market : Bool)
    → pos 0 <ℤ delta
    → pos 0 <ℤ or_default sale.fill_count (pos 0)
    → sale.market_sell ≡ at_market
    → let least = min_ℤ (or_default sale.fill_count (pos 0)) delta in
      let c = if at_market then least else credit_at price sale.limit_price least max_loss in
      (c ≡ pos 0) ⊎ Proven sale delta price max_loss c
chosen-Proven sale delta price max_loss true d s m =
    let (above, sold, within) = min-bounds (or_default sale.fill_count (pos 0)) delta s d in
    inr (record { positive = above; within_sold = sold; within_delta = within; capped = inl m })
chosen-Proven sale delta price max_loss false d s m =
    credit-Proven sale delta price sale.limit_price max_loss d s refl

-- Of a residual above nought, what is credited is nothing, or it is at most what was sold and at most the
-- residual, and unless the sale was at the market, selling it at the limit loses less than the sum of the
-- cap, half a ten-thousandth of a dollar and a billionth of a dollar. That half is what the rounding of
-- the loss can hide.
pub verified_unwound_shares-Proven :
    (sale : Sale) (delta : ℤ) (price : Option ℤ) (max_loss : ℤ)
    → pos 0 <ℤ delta
    → let c = verified_unwound_shares (some sale) delta price max_loss in
      (c ≡ pos 0) ⊎ Proven sale delta price max_loss c
unfolding verified_unwound_shares
verified_unwound_shares-Proven sale delta price max_loss d =
    let sold = or_default sale.fill_count (pos 0) in
    elim (Bool-cases (ltb_ℤ (pos 0) sold)) [
      | inr e ↦ rw e (inl refl)
      | inl e ↦
          let s : pos 0 <ℤ sold = ground (arith, e) in
          rw e (chosen-Proven sale delta price max_loss sale.market_sell d s refl)
    ]

pub verified_unwound_shares-bounds :
    (sale : Option Sale) (delta : ℤ) (price : Option ℤ) (max_loss : ℤ)
    → pos 0 <ℤ delta
    → let c = verified_unwound_shares sale delta price max_loss in (pos 0 ≤ℤ c) × (c ≤ℤ delta)
unfolding verified_unwound_shares
verified_unwound_shares-bounds none delta price max_loss d = (omega arith, omega (arith, d))
verified_unwound_shares-bounds (some sale) delta price max_loss d =
    elim (verified_unwound_shares-Proven sale delta price max_loss d) [
      | inl e ↦ subst (λ c. (pos 0 ≤ℤ c) × (c ≤ℤ delta)) (sym e) (omega arith, omega (arith, d))
      | inr p ↦ (omega (arith, p.positive), p.within_delta)
    ]
