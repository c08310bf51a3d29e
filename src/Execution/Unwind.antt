-- ===== src/Execution/Unwind.antt =====
-- src/execution/executor.ts: the sale of what one leg has filled more than the other,
-- `attemptResidualUnwind` and `verifiedUnwoundShares`. What the adapter of a venue answers is a function
-- of the request. A product of shares and dollars is in billionths of billionths until it is rounded.
-- Reasons and timestamps are left out; `calls` keeps what is called, oldest first.
pub mod Credit
pub mod Residual
use pok_poly_kalshi.Prelude.{
  ℕ, ◌*◌, String, Bool, true, false, Option, none, some, List, [], ◌∷◌, ◌++◌, ◌&&◌, ◌||◌, not,
}
use pok_poly_kalshi.Prelude.Tests.{if◌then◌else◌, or_default, text_key, ◌==◌}
use pok_poly_kalshi.Prelude.Int.{
  ℤ, pos, pos_part, ◌+ℤ◌, ◌-ℤ◌, scale, ltb_ℤ, leb_ℤ, min_ℤ, max_ℤ, abs,
}
use pok_poly_kalshi.Prelude.Money.{money_tick, floor_div, round_dollars}
use pok_poly_kalshi.Prelude.Text.{lower, codes, includes}
use pok_poly_kalshi.Types.{Venue, kalshi, polymarket, ArbLeg}
use pok_poly_kalshi.Execution.Confirmations.{VenueOrderResult, epsilon}

pub record UnwindConfig : Type 0 where
  pub require_terminal_counter_leg : Bool
  pub max_loss_cents_per_share : ℤ

-- The fields of the result of a sale that are read.
pub record Sale : Type 0 where
  pub order_id : Option String
  pub fill_count : Option ℤ
  pub market_sell : Bool
  pub limit_price : Option ℤ

pub record VenueUnwindOutcome : Type 0 where
  pub flattened : Bool
  pub sale : Option Sale
  pub loss_dollars : Option ℤ
  pub unwound_shares : Option ℤ
  pub naked_token_id : Option String
  pub naked_residual_shares : Option ℤ
  pub naked_retained_shares : Option ℤ

pub record VenueUnwindRequest : Type 0 where
  pub leg : ArbLeg
  pub fill_count : ℤ
  pub fill_price : Option ℤ
  pub max_loss : ℤ
  pub hedged_count : ℤ
  pub total_filled : ℤ

-- What the adapter of a venue answers; `absent` is that there is none.
pub data Adapter : Type 0 where
  absent : Adapter
  sells : (VenueUnwindRequest → Option (Option VenueUnwindOutcome)) → Adapter

-- A call of `rememberUnwindOrder` or of the adapter.
pub data UnwindCall : Type 0 where
  remembered : Venue → ℤ → Option String → Option ℤ → UnwindCall
  asked : VenueUnwindRequest → UnwindCall

pub record UnwindAttempt : Type 0 where
  pub calls : List UnwindCall
  pub outcome : VenueUnwindOutcome

unfoldable pub is_timeout_or_unknown : VenueOrderResult → Bool
is_timeout_or_unknown r =
    r.status == "unknown" || includes (codes "timeout") (lower (or_default r.error ""))

abbrev pub filled : VenueOrderResult → ℤ
filled r = or_default r.fill_count (pos 0)

-- `roundPrice` of a product.
unfoldable pub round_product : ℤ → ℤ
round_product v = scale money_tick (floor_div (v +ℤ pos 50_000_000_000_000) 100_000_000_000_000)

-- The cap in billionths of billionths against a loss in billionths, with a billionth of slack.
abbrev pub over_loss : ℤ → ℤ → Bool
over_loss max_loss loss = ltb_ℤ (max_loss +ℤ pos 1_000_000_000) (scale 1_000_000_000 loss)

abbrev pub credit_at : Option ℤ → Option ℤ → ℤ → ℤ → ℤ
credit_at none limit clamped max_loss = pos 0
credit_at (some price) none clamped max_loss = pos 0
credit_at (some price) (some limit) clamped max_loss =
    if over_loss max_loss (round_product (scale (pos_part clamped) (price -ℤ limit)))
    then pos 0
    else clamped

unfoldable pub verified_unwound_shares : Option Sale → ℤ → Option ℤ → ℤ → ℤ
verified_unwound_shares none delta price max_loss = pos 0
verified_unwound_shares (some sale) delta price max_loss =
    let sold = or_default sale.fill_count (pos 0) in
    if not (ltb_ℤ (pos 0) sold)
    then pos 0
    else if sale.market_sell
    then min_ℤ sold delta
    else credit_at price sale.limit_price (min_ℤ sold delta) max_loss

abbrev pub nothing_sold : VenueUnwindOutcome
nothing_sold = record {
  flattened = false;
  sale = none;
  loss_dollars = none;
  unwound_shares = none;
  naked_token_id = none;
  naked_residual_shares = none;
  naked_retained_shares = none;
}

-- `{ ...outcome, ...recordNaked(residual) }`.
unfoldable pub record_naked : Option String → ℤ → ℤ → VenueUnwindOutcome → VenueUnwindOutcome
record_naked none residual retained o = o
record_naked (some token) residual retained o =
    if ltb_ℤ epsilon residual
    then record o {
      naked_token_id = some token;
      naked_residual_shares = some (round_dollars residual);
      naked_retained_shares = some (round_dollars retained);
    }
    else o

abbrev pub registered_again : Venue → ℤ → Option Sale → List UnwindCall
registered_again venue delta none = []
registered_again venue delta (some sale) = elim sale.order_id [
  | none ↦ []
  | some id ↦
      if id == ""
      then []
      else remembered venue delta (some id) (some (or_default sale.fill_count delta)) ∷ []
]

-- What is returned once the adapter has answered with an outcome.
unfoldable pub judge_outcome :
    Option String → VenueUnwindRequest → VenueUnwindOutcome → VenueUnwindOutcome
judge_outcome token r o =
    let unwound = verified_unwound_shares o.sale r.fill_count r.fill_price r.max_loss in
    let remaining = max_ℤ (pos 0) (r.fill_count -ℤ unwound) in
    if o.flattened
    then if leb_ℤ r.fill_count (unwound +ℤ epsilon)
      then record o { unwound_shares = some unwound }
      else record_naked token remaining r.hedged_count (record nothing_sold {
        sale = o.sale;
        loss_dollars = o.loss_dollars;
        unwound_shares = some unwound;
      })
    else record_naked token remaining r.hedged_count (record o { unwound_shares = some unwound })

-- The answer of the adapter: it throws, returns null, or returns an outcome.
abbrev pub conclude :
    Venue → Option String → VenueUnwindRequest → Option (Option VenueUnwindOutcome) → UnwindAttempt
conclude venue token r none = record {
  calls = [];
  outcome = record_naked token r.fill_count r.hedged_count nothing_sold;
}
conclude venue token r (some none) = record {
  calls = [];
  outcome = record_naked token r.fill_count r.hedged_count nothing_sold;
}
conclude venue token r (some (some o)) = record {
  calls = registered_again venue r.fill_count o.sale;
  outcome = judge_outcome token r o;
}

abbrev pub gives_up : UnwindAttempt
gives_up = record { calls = []; outcome = nothing_sold }

unfoldable pub ask_adapter : Venue → Option String → VenueUnwindRequest → Adapter → UnwindAttempt
ask_adapter venue token r absent = gives_up
ask_adapter venue token r (sells sell) =
    let a = conclude venue token r (sell r) in
    record a { calls = remembered venue r.fill_count none none ∷ asked r ∷ a.calls }

-- The request for the leg that has filled more.
unfoldable pub unwind_request :
    UnwindConfig → VenueOrderResult → VenueOrderResult → ArbLeg → VenueUnwindRequest
unwind_request o larger smaller leg =
    let delta = abs (filled larger -ℤ filled smaller) in
    record {
      leg = leg;
      fill_count = delta;
      fill_price = larger.fill_price;
      max_loss = max_ℤ (pos 0) (scale (pos_part delta) o.max_loss_cents_per_share);
      hedged_count = min_ℤ (filled larger) (filled smaller);
      total_filled = filled larger;
    }

unfoldable pub attempt_residual_unwind :
    UnwindConfig
    → VenueOrderResult
    → VenueOrderResult
    → ArbLeg
    → ArbLeg
    → Adapter
    → Adapter
    → UnwindAttempt
attempt_residual_unwind o k p kalshi_leg polymarket_leg kalshi_adapter polymarket_adapter =
    if leb_ℤ (abs (filled k -ℤ filled p)) epsilon
    then gives_up
    else if o.require_terminal_counter_leg && (is_timeout_or_unknown k || is_timeout_or_unknown p)
    then gives_up
    else if ltb_ℤ (filled k) (filled p)
    then ask_adapter polymarket polymarket_leg.token_id (unwind_request o p k polymarket_leg)
        polymarket_adapter
    else ask_adapter kalshi none (unwind_request o k p kalshi_leg) kalshi_adapter
