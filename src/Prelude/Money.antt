-- ===== src/Prelude/Money.antt =====
-- Dollars, shares and strikes as integers, in billionths, and the rounding of src/execution/num-utils.ts
-- and src/scanner/payoff.ts on them.
use Prim.Native.Nat.{ℕ, ◌+◌, ◌*◌, ◌/◌, ◌≤◌, ◌<◌}
use mathlib.Core.Path.{◌≡◌}
use native.Mathlib.Omega.{arith}
use pok_poly_kalshi.Prelude.Int.{
  ℤ, pos, negsuc, pos_part, neg_part, ◌+ℤ◌, scale, ◌≤ℤ◌, +ℤ_parts, scale_parts, eq_of_parts,
}

-- `Math.floor(a / d)` for a positive divisor.
unfoldable pub floor_div : ℤ → ℕ → ℤ
floor_div (pos n) d = pos (n / d)
floor_div (negsuc n) d = negsuc (n / d)

abbrev pub dollar : ℤ
dollar = pos 1_000_000_000

-- One ten-thousandth of a dollar.
abbrev pub money_tick : ℕ
money_tick = 100_000

-- `Math.round(value * 10_000) / 10_000`, where a half goes up.
unfoldable pub round_dollars : ℤ → ℤ
round_dollars v = scale money_tick (floor_div (v +ℤ pos 50_000) money_tick)

floor_div_parts :
    (a : ℤ)
    → let q = floor_div a money_tick in
      (money_tick * pos_part q + neg_part a ≤ pos_part a + money_tick * neg_part q)
      × (pos_part a + money_tick * neg_part q < money_tick * pos_part q + neg_part a + money_tick)
unfolding floor_div
floor_div_parts (pos n) = omega arith
floor_div_parts (negsuc n) = omega arith

-- All that a proof needs of `round_dollars v`: it is a multiple of the tick, near `v`.
pub round_dollars_parts :
    (v : ℤ)
    → let q = floor_div (v +ℤ pos 50_000) money_tick in
      (pos_part (round_dollars v) ≡ money_tick * pos_part q)
      × (neg_part (round_dollars v) ≡ money_tick * neg_part q)
      × (money_tick * pos_part q + neg_part v ≤ pos_part v + 50_000 + money_tick * neg_part q)
      × (pos_part v + money_tick * neg_part q < money_tick * pos_part q + neg_part v + 50_000)
unfolding round_dollars
round_dollars_parts v =
    let w = v +ℤ pos 50_000 in
    omega (
      arith,
      +ℤ_parts v (pos 50_000),
      floor_div_parts w,
      scale_parts money_tick (floor_div w money_tick),
    )

-- The rounded value is the multiple of the tick within half a tick; a half goes up.
pub round_dollars_near :
    (v : ℤ)
    → (pos_part (round_dollars v) + neg_part v ≤ pos_part v + 50_000 + neg_part (round_dollars v))
      × (pos_part v + neg_part (round_dollars v) < pos_part (round_dollars v) + neg_part v + 50_000)
round_dollars_near v = omega (arith, round_dollars_parts v)

pub round_dollars_mono : (a b : ℤ) → a ≤ℤ b → round_dollars a ≤ℤ round_dollars b
round_dollars_mono a b h = omega (arith, round_dollars_parts a, round_dollars_parts b)

pub round_dollars_idem : (v : ℤ) → round_dollars (round_dollars v) ≡ round_dollars v
round_dollars_idem v =
    eq_of_parts _ _ (omega (arith, round_dollars_parts v, round_dollars_parts (round_dollars v)))

pub floor_half_parts :
    (a : ℤ)
    → let q = floor_div a 2 in
      (2 * pos_part q + neg_part a ≤ pos_part a + 2 * neg_part q)
      × (pos_part a + 2 * neg_part q < 2 * pos_part q + neg_part a + 2)
unfolding floor_div
floor_half_parts (pos n) = omega arith
floor_half_parts (negsuc n) = omega arith
