-- ===== src/Books/Levels.antt =====
-- src/polymarket/client.ts: the price levels of one side of an order book, `setLevel`, `bestBid`, `bestAsk`
-- and `sortedLevels`. A price that is no finite number is `not_finite`.
pub mod Best
use pok_poly_kalshi.Prelude.{ℕ, Bool, true, false, Option, none, some, List, [], ◌∷◌}
use pok_poly_kalshi.Prelude.Tests.{if◌then◌else◌}
use pok_poly_kalshi.Prelude.JsMap.{JsMap, set, delete}
use pok_poly_kalshi.Prelude.Int.{ℤ, pos, ltb_ℤ, leb_ℤ, int_key}
use pok_poly_kalshi.Prelude.Sort.{sort_by}
use pok_poly_kalshi.Types.{Number, finite, not_finite, BookLevel}

unfoldable pub set_level : JsMap ℤ ℤ → Number → Number → JsMap ℤ ℤ
set_level levels (finite price) (finite size) =
    if leb_ℤ size (pos 0) then delete levels price else set levels price size
set_level levels (finite price) not_finite = levels
set_level levels not_finite size = levels

-- `better` is `>` for the bids and `<` for the asks.
abbrev pub better_of : (ℤ → ℤ → Bool) → ℤ → Option ℤ → Option ℤ
better_of better price none = some price
better_of better price (some best) = if better price best then some price else some best

unfoldable pub best_from : (ℤ → ℤ → Bool) → Option ℤ → JsMap ℤ ℤ → Option ℤ
best_from better best [] = best
best_from better best ((price, size) ∷ m) =
    if leb_ℤ size (pos 0)
    then best_from better best m
    else best_from better (better_of better price best) m

abbrev pub higher_price : ℤ → ℤ → Bool
higher_price a b = ltb_ℤ b a

abbrev pub lower_price : ℤ → ℤ → Bool
lower_price a b = ltb_ℤ a b

unfoldable pub best_bid : JsMap ℤ ℤ → Option ℤ
best_bid levels = best_from higher_price none levels

unfoldable pub best_ask : JsMap ℤ ℤ → Option ℤ
best_ask levels = best_from lower_price none levels

-- `filter` and `map` of `sortedLevels`.
unfoldable pub offered_levels : JsMap ℤ ℤ → List (ℤ × ℤ)
offered_levels [] = []
offered_levels ((price, size) ∷ m) =
    if ltb_ℤ (pos 0) size then (price, size) ∷ offered_levels m else offered_levels m

-- Which of two levels goes after the other.
abbrev pub goes_after : (ℤ → ℤ → Bool) → ℤ × ℤ → ℤ × ℤ → Bool
goes_after better a b = better b.0 a.0

unfoldable pub sorted_levels : (ℤ → ℤ → Bool) → JsMap ℤ ℤ → List (ℤ × ℤ)
sorted_levels better m = sort_by (goes_after better) (offered_levels m)

abbrev pub as_level : ℤ × ℤ → BookLevel
as_level (price, size) = record { price = finite price; size = finite size }
