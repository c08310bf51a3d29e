-- ===== src/Execution/Depth.antt =====
-- src/execution/quote-quality.ts: the depth of a book, `depthWeightedAsk` and
-- `executableLiquidityWithinBand`. Prices and sizes are integers in billionths, so 1e-9 is one, and a
-- notional is in billionths of billionths. What the filter lets through has natural numbers.
pub mod Cover
use pok_poly_kalshi.Prelude.{
  ℕ, ◌+◌, ◌-◌, ◌*◌, ◌/◌, min, Bool, Option, none, some, List, [], ◌∷◌, ◌++◌, ◌&&◌,
}
use pok_poly_kalshi.Prelude.Tests.{if◌then◌else◌, leb, ltb}
use pok_poly_kalshi.Prelude.Int.{ℤ, pos, negsuc, ◌+ℤ◌, leb_ℤ, max_ℤ}
use pok_poly_kalshi.Prelude.Money.{money_tick, round_dollars}
use pok_poly_kalshi.Prelude.Sort.{sort_by}
use pok_poly_kalshi.Types.{Number, finite, not_finite, BookLevel}

-- A level that passes the filter.
pub record Ask : Type 0 where
  pub price : ℕ
  pub size : ℕ

-- The test of the filter on a price and a size.
unfoldable pub usable : Number → Number → Option Ask
usable (finite (pos price)) (finite (pos size)) =
    if leb price 1_000_000_000 && ltb 0 size
    then some (record { price = price; size = size })
    else none
usable _ _ = none

abbrev pub keep_usable : Option Ask → List Ask → List Ask
keep_usable none rest = rest
keep_usable (some ask) rest = ask ∷ rest

unfoldable pub usable_levels : List BookLevel → List Ask
usable_levels [] = []
usable_levels (l ∷ ls) = keep_usable (usable l.price l.size) (usable_levels ls)

abbrev pub dearer : Ask → Ask → Bool
dearer a b = ltb b.price a.price

pub record Walk : Type 0 where
  pub remaining : ℕ
  pub notional : ℕ
  pub depth : ℕ
  pub worst_ask : ℕ
  pub levels_consumed : List (ℤ × ℤ)

unfoldable pub take_level : Walk → Ask → Walk
take_level w l =
    let take = min l.size w.remaining in
    record {
      remaining = w.remaining - take;
      notional = w.notional + take * l.price;
      depth = w.depth + take;
      worst_ask = l.price;
      levels_consumed =
          w.levels_consumed ++ (round_dollars (pos l.price), round_dollars (pos take)) ∷ [];
    }

unfoldable pub walk : Walk → List Ask → Walk
walk w [] = w
walk w (l ∷ ls) = if leb w.remaining 1 then w else walk (take_level w l) ls

abbrev pub begin_walk : ℕ → Walk
begin_walk size = record {
  remaining = size;
  notional = 0;
  depth = 0;
  worst_ask = 0;
  levels_consumed = [];
}

pub record DepthVwapResult : Type 0 where
  pub vwap : ℤ
  pub worst_ask : ℤ
  pub depth : ℤ
  pub levels_consumed : List (ℤ × ℤ)

-- `roundPrice(notional / size)`, on exact fractions.
unfoldable pub round_ratio : ℕ → ℕ → ℤ
round_ratio notional size = pos (money_tick * ((notional + 50_000 * size) / (money_tick * size)))

unfoldable pub walked : Walk → ℕ → Option DepthVwapResult
walked w size =
    if ltb (w.depth + 1) size
    then none
    else some (record {
      vwap = round_ratio w.notional size;
      worst_ask = round_dollars (pos w.worst_ask);
      depth = round_dollars (pos w.depth);
      levels_consumed = w.levels_consumed;
    })

unfoldable pub full_walk : List BookLevel → ℕ → Walk
full_walk levels size = walk (begin_walk size) (sort_by dearer (usable_levels levels))

unfoldable pub depth_weighted_ask : List BookLevel → ℤ → Option DepthVwapResult
depth_weighted_ask levels (negsuc n) = none
depth_weighted_ask levels (pos size) =
    if leb size 0 then none else walked (full_walk levels size) size

-- The size of the asks of at most a price.
unfoldable pub size_up_to : ℤ → List Ask → ℕ
size_up_to limit [] = 0
size_up_to limit (l ∷ ls) =
    let rest = size_up_to limit ls in if leb_ℤ (pos l.price) limit then l.size + rest else rest

-- `band` is in dollars: a hundredth of the cents.
unfoldable pub executable_liquidity_within_band : List BookLevel → ℤ → ℤ → ℤ
executable_liquidity_within_band levels top_ask band =
    let limit = top_ask +ℤ max_ℤ (pos 0) band +ℤ pos 1 in
    round_dollars (pos (size_up_to limit (usable_levels levels)))
