-- ===== src/Execution/EconomicPrices/Choice.antt =====
-- Which price src/execution/economic-prices.ts books, and its bounds.
use mathlib.Core.Path.{subst}
use pok_poly_kalshi.Prelude.{
  ℕ, ◌+◌, ◌≤◌, ◌/◌, min, ap, false, ◌≡◌, refl, Option, none, some, arith, inl, inr,
}
use pok_poly_kalshi.Prelude.Tests.{Bool-cases}
use pok_poly_kalshi.Prelude.Int.{
  ℤ, pos, negsuc, ◌+ℤ◌, ◌-ℤ◌, scale, ◌≤ℤ◌, ◌<ℤ◌, ltb_ℤ, leb_ℤ, abs, +ℤ_parts, eq_of_parts,
}
use pok_poly_kalshi.Prelude.Money.{dollar, floor_div}
use pok_poly_kalshi.Types.{
  Venue, kalshi, polymarket, LegDirection, yes_leg, no_leg, Number, finite, not_finite,
}
use pok_poly_kalshi.Execution.EconomicPrices.{
  round_price, bounded_binary_price, normalized, closer, half_dollar, economic_price,
  economic_fill_price_for_leg,
}

round_price-pos : (n : ℕ) → round_price (pos n) ≡ pos ((n + 50) / 100)
unfolding round_price floor_div
round_price-pos n =
    let sum : pos n +ℤ pos 50 ≡ pos (n + 50) =
      eq_of_parts (pos n +ℤ pos 50) (pos (n + 50)) (omega (arith, +ℤ_parts (pos n) (pos 50))) in
    ap (λ x. floor_div x 100) sum

-- Rounding keeps a price from nothing to a dollar within these bounds.
round_price-bounds :
    (n : ℕ) → n ≤ 100_000_000_000 → (pos 0 ≤ℤ round_price (pos n)) × (round_price (pos n) ≤ℤ dollar)
round_price-bounds n h = rw (round_price-pos n) (omega arith, omega arith)

bounded-pos : (x : ℤ) → (n : ℕ) × (bounded_binary_price x ≡ pos n) × (n ≤ 100_000_000_000)
unfolding bounded_binary_price scale
bounded-pos (pos n) = (min n 100_000_000_000, ground arith, omega arith)
bounded-pos (negsuc n) = (0, ground arith, omega arith)

bounded_price-bounds :
    (x : ℤ)
    → (pos 0 ≤ℤ round_price (bounded_binary_price x))
      × (round_price (bounded_binary_price x) ≤ℤ dollar)
bounded_price-bounds x = let (n, e, h) = bounded-pos x in rw e (round_price-bounds n h)

-- The rounded complement of a bounded price.
abbrev pub complement : ℤ → ℤ
complement bounded = round_price (bounded_binary_price (scale 100 dollar -ℤ bounded))

-- A NO on Kalshi above half a dollar, whose complement is closer to the known ask by more than a
-- billionth.
pub record Inverts (venue : Venue) (direction : LegDirection) (bounded : ℤ) (ask : Option Number)
    : Type 0 where
  pub on_kalshi : venue ≡ kalshi
  pub on_no : direction ≡ no_leg
  pub above_half : half_dollar <ℤ bounded
  pub reference : ℤ
  pub known : ask ≡ some (finite reference)
  pub nearer :
      abs (complement bounded -ℤ reference) +ℤ pos 1 <ℤ abs (round_price bounded -ℤ reference)

-- What is booked for a bounded price: its complement if it inverts, and the price itself if not.
pub data Booked (venue : Venue) (direction : LegDirection) (bounded : ℤ) (ask : Option Number)
    (p : ℤ) : Type 0 where
  direct :
      ¬ Inverts venue direction bounded ask
      → p ≡ round_price bounded
      → Booked venue direction bounded ask p
  inverted :
      Inverts venue direction bounded ask
      → p ≡ complement bounded
      → Booked venue direction bounded ask p

not-near :
    (other price : ℤ) (ask : Option Number) (r k : ℤ)
    → ask ≡ some (finite r)
    → ask ≡ some (finite k)
    → ltb_ℤ (abs (other -ℤ r) +ℤ pos 1) (abs (price -ℤ r)) ≡ false
    → ¬ (abs (other -ℤ k) +ℤ pos 1 <ℤ abs (price -ℤ k))
not-near other price ask r k e f far near =
    let same : r ≡ k = cc (e, f) in
    let far_too =
      subst (λ x. ltb_ℤ (abs (other -ℤ x) +ℤ pos 1) (abs (price -ℤ x)) ≡ false) same far in
    ground (arith, far_too, near)

closer-Booked :
    (bounded : ℤ) (ask : Option Number)
    → half_dollar <ℤ bounded
    → Booked kalshi no_leg bounded ask (closer (complement bounded) (round_price bounded) ask)
closer-Booked bounded none h = Booked.direct (λ i. absurd (cc (i.known))) refl
closer-Booked bounded (some not_finite) h = Booked.direct (λ i. absurd (cc (i.known))) refl
closer-Booked bounded (some (finite r)) h =
    let other = complement bounded in
    let direct = round_price bounded in
    elim (Bool-cases (ltb_ℤ (abs (other -ℤ r) +ℤ pos 1) (abs (direct -ℤ r)))) [
      | inl e ↦ rw e (
          Booked.inverted
            (record {
              on_kalshi = refl;
              on_no = refl;
              above_half = h;
              reference = r;
              known = refl;
              nearer = ground (arith, e);
            })
            refl)
      | inr e ↦ rw e (
          Booked.direct
            (λ i. not-near other direct (some (finite r)) r i.reference refl i.known e i.nearer)
            refl)
    ]

Booked-bounds :
    (venue : Venue) (direction : LegDirection) (x : ℤ) (ask : Option Number) {p : ℤ}
    → Booked venue direction (bounded_binary_price x) ask p
    → (pos 0 ≤ℤ p) × (p ≤ℤ dollar)
Booked-bounds venue direction x ask (direct _ e) = rw e (bounded_price-bounds x)
Booked-bounds venue direction x ask (inverted _ e) =
    rw e (bounded_price-bounds (scale 100 dollar -ℤ bounded_binary_price x))

economic_price-cases :
    (venue : Venue) (direction : LegDirection) (bounded : ℤ) (ask : Option Number)
    → Booked venue direction bounded ask (economic_price venue direction bounded ask)
unfolding economic_price
economic_price-cases polymarket direction bounded ask =
    Booked.direct (λ i. absurd (cc (i.on_kalshi))) refl
economic_price-cases kalshi yes_leg bounded ask = Booked.direct (λ i. absurd (cc (i.on_no))) refl
economic_price-cases kalshi no_leg bounded ask = elim (Bool-cases (leb_ℤ bounded half_dollar)) [
  | inl e ↦ rw e (Booked.direct (λ i. ground (arith, e, i.above_half)) refl)
  | inr e ↦ rw e (closer-Booked bounded ask (ground (arith, e)))
]

-- Every finite fill price is booked at a price between nothing and a dollar. It is the price itself in
-- dollars, bounded and rounded, but for a NO on Kalshi above half a dollar whose complement is closer to
-- the known ask by more than a billionth: that one is booked at the complement.
pub economic_price-Booked :
    (venue : Venue) (direction : LegDirection) (price : ℤ) (ask : Option Number)
    → let bounded = bounded_binary_price (normalized price) in
      (p : ℤ) × (economic_fill_price_for_leg venue direction (some (finite price)) ask ≡ some p)
      × (pos 0 ≤ℤ p)
      × (p ≤ℤ dollar)
      × Booked venue direction bounded ask p
unfolding economic_fill_price_for_leg
economic_price-Booked venue direction price ask =
    let bounded = bounded_binary_price (normalized price) in
    let booked = economic_price-cases venue direction bounded ask in
    let (low, high) = Booked-bounds venue direction (normalized price) ask booked in
    (economic_price venue direction bounded ask, refl, low, high, booked)
