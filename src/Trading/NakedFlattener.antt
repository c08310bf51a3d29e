-- ===== src/Trading/NakedFlattener.antt =====
-- src/trading/naked-flattener.ts: the sweep that sells unhedged Polymarket residuals. The two venue
-- calls that it makes are parameters: `sell` is what `marketSellShares` answers and `resolve_error` what
-- `resolveNakedResidual` throws. The calls that it made are kept, newest first, in `calls`.
pub mod Plan
pub mod Safety
pub mod Cooldown
use pok_poly_kalshi.Prelude.{
  ℕ, suc, ◌+◌, String, Bool, true, false, Option, none, some, List, [], ◌∷◌, ◌&&◌, ◌||◌, not,
}
use pok_poly_kalshi.Prelude.Tests.{if◌then◌else◌, or_default, ltb, leb, ◌==◌, text_key}
use pok_poly_kalshi.Prelude.Lists.{length}
use pok_poly_kalshi.Prelude.JsMap.{JsMap, get, set}
use pok_poly_kalshi.Prelude.Int.{ℤ, pos, ◌+ℤ◌, ◌-ℤ◌, scale, ltb_ℤ, leb_ℤ, min_ℤ, max_ℤ}
use pok_poly_kalshi.Trading.Activity.{TradingPosition, TradingActivitySnapshot, is_live, is_stale}

pub record NakedResidualRow : Type 0 where
  pub id : ℕ
  pub expiry_ms : Option ℕ
  pub naked_token_id : String
  pub naked_residual_shares : ℤ
  pub kalshi_contract_id : Option String

-- DUST, 0.01 shares.
abbrev pub dust : ℤ
dust = pos 10_000_000

abbrev pub resell_cooldown_ms : ℕ
resell_cooldown_ms = 60_000

abbrev pub max_excess_residual_factor : ℕ
max_excess_residual_factor = 2

-- One share.
abbrev pub max_excess_abs_tolerance_shares : ℤ
max_excess_abs_tolerance_shares = pos 1_000_000_000

-- What `marketSellShares` answers, or the message that it throws.
pub data SellOutcome : Type 0 where
  answered : ℤ → Option String → SellOutcome
  thrown : String → SellOutcome

pub record Venue : Type 0 where
  pub sell : ℕ → NakedResidualRow → ℤ → SellOutcome
  pub resolve_error : ℕ → NakedResidualRow → Option String

-- The texts that end up in `lastError`.
pub data FlattenError : Type 0 where
  excess_too_large : ℤ → ℤ → FlattenError
  sold_nothing : FlattenError
  message : String → FlattenError

-- A call of the seller, with the shares asked for and the time, or of the store.
pub data Call : Type 0 where
  sold : NakedResidualRow → ℤ → ℕ → SellOutcome → Call
  resolved : NakedResidualRow → ℕ → Call

-- The fields of the class, and the local map `heldByToken` of the sweep.
pub record Flattener : Type 0 where
  pub enabled : Bool
  pub running : Bool
  pub flattened_total : ℕ
  pub last_tick_at_ms : Option ℕ
  pub last_error : Option FlattenError
  pub pending_residuals : ℕ
  pub recently_sold_at : JsMap String ℕ
  pub held_by_token : JsMap String ℤ
  pub calls : List Call

-- A JavaScript truth test of an optional text: "" counts as missing.
abbrev pub truthy : Option String → Option String
truthy none = none
truthy (some s) = if s == "" then none else some s

-- `(pos.outcome ?? "").toUpperCase() === "NO"`.
abbrev is_no : String → Bool
is_no s = s == "NO" || (s == "No" || (s == "nO" || s == "no"))

abbrev add_shares : JsMap String ℤ → String → ℤ → JsMap String ℤ
add_shares m k shares = set m k (or_default (get m k) (pos 0) +ℤ shares)

unfoldable pub tally_held : JsMap String ℤ → List TradingPosition → JsMap String ℤ
tally_held m [] = m
tally_held m (p ∷ ps) = tally_held (if p.id == "" then m else add_shares m p.id p.shares) ps

unfoldable pub tally_no : JsMap String ℤ → List TradingPosition → JsMap String ℤ
tally_no m [] = m
tally_no m (p ∷ ps) =
    tally_no (if not (p.market == "") && is_no p.outcome then add_shares m p.market p.shares else m)
      ps

abbrev fail_with : Flattener → FlattenError → Flattener
fail_with f e = record f { last_error = some e }

-- `await this.resolve(…)`, with the catch of the sweep around it.
unfoldable pub resolve : Venue → Flattener → NakedResidualRow → ℕ → Flattener
resolve v f r now =
    let f' = record f { calls = resolved r now ∷ f.calls } in
    elim (v.resolve_error now r) [ none ↦ f' | some text ↦ fail_with f' (message text) ]

-- The books after shares were sold.
unfoldable pub record_sale : Flattener → NakedResidualRow → ℕ → ℤ → Flattener
record_sale f r now remaining = record f {
  recently_sold_at = set f.recently_sold_at r.naked_token_id now;
  held_by_token = set f.held_by_token r.naked_token_id remaining;
  flattened_total = suc f.flattened_total;
}

-- Resolve the quarantine only when the position is reduced to the hedged floor.
unfoldable pub resolve_if_flat : Venue → Flattener → NakedResidualRow → ℕ → ℤ → ℤ → Flattener
resolve_if_flat v f r now remaining floor =
    if leb_ℤ (remaining -ℤ floor) dust then resolve v f r now else f

-- The rest of `flattenOne` after the seller answered; `held` and `floor` are those it sold by.
unfoldable pub settle : Venue → Flattener → NakedResidualRow → ℕ → ℤ → ℤ → SellOutcome → Flattener
settle v f r now held floor (thrown text) = fail_with f (message text)
settle v f r now held floor (answered sold_shares error) =
    let remaining = max_ℤ (pos 0) (held -ℤ sold_shares) in
    if leb_ℤ sold_shares dust
    then fail_with f (elim error [ none ↦ sold_nothing | some text ↦ message text ])
    else resolve_if_flat v (record_sale f r now remaining) r now remaining floor

-- The rest of `flattenOne` once the hedged floor is known.
unfoldable pub flatten_excess : Venue → Flattener → NakedResidualRow → ℕ → ℤ → ℤ → Flattener
flatten_excess v f r now held floor =
    let excess = max_ℤ (pos 0) (held -ℤ floor) in
    let max_excess =
      scale max_excess_residual_factor r.naked_residual_shares +ℤ max_excess_abs_tolerance_shares in
    let sell_shares = min_ℤ r.naked_residual_shares excess in
    let outcome = v.sell now r sell_shares in
    let f' = record f { calls = sold r sell_shares now outcome ∷ f.calls } in
    if leb_ℤ excess dust
    then resolve v f r now
    else if ltb_ℤ max_excess excess
    then fail_with f (excess_too_large excess max_excess)
    else if leb_ℤ sell_shares dust
    then f
    else settle v f' r now held floor outcome

-- `residual.expiryMs != null && now >= residual.expiryMs`.
abbrev is_expired : Option ℕ → ℕ → Bool
is_expired none now = false
is_expired (some expiry) now = leb expiry now

-- `soldAt != null && now - soldAt < RESELL_COOLDOWN_MS`.
abbrev is_cooling : Option ℕ → ℕ → Bool
is_cooling none now = false
is_cooling (some at) now = ltb now (at + resell_cooldown_ms)

unfoldable pub flatten_one :
    Venue → Flattener → NakedResidualRow → JsMap String ℤ → Bool → ℕ → Flattener
flatten_one v f r no_held kalshi_fresh now =
    let held = or_default (get f.held_by_token r.naked_token_id) (pos 0) in
    if is_expired r.expiry_ms now
      || is_cooling (get f.recently_sold_at r.naked_token_id) now
      || leb_ℤ held dust
      || not kalshi_fresh
    then f
    else elim (truthy r.kalshi_contract_id) [
      | none ↦ f
      | some ticker ↦
          flatten_excess v f r now held (max_ℤ (pos 0) (or_default (get no_held ticker) (pos 0)))
    ]

unfoldable pub sweep :
    Venue → Flattener → List NakedResidualRow → JsMap String ℤ → Bool → ℕ → Flattener
sweep v f [] no_held kalshi_fresh now = f
sweep v f (r ∷ rs) no_held kalshi_fresh now =
    sweep v (flatten_one v f r no_held kalshi_fresh now) rs no_held kalshi_fresh now

-- What the two reads of a tick return, or the message that one throws.
pub data Reads : Type 0 where
  store_failed : String → Reads
  read : List NakedResidualRow → TradingActivitySnapshot → Reads
  snapshot_failed : List NakedResidualRow → String → Reads

abbrev pub kalshi_fresh : TradingActivitySnapshot → Bool
kalshi_fresh s =
    is_live s.kalshi_activity.connection_status && not (is_stale s.kalshi_activity.portfolio.stale)

abbrev pub kalshi_no_held : TradingActivitySnapshot → JsMap String ℤ
kalshi_no_held s = tally_no [] s.kalshi_activity.positions

-- The body of the `try`.
unfoldable pub attempt : Venue → Flattener → Reads → ℕ → Flattener
attempt v f (store_failed text) now = fail_with f (message text)
attempt v f (snapshot_failed [] text) now = record f { pending_residuals = 0 }
attempt v f (snapshot_failed (r ∷ rs) text) now =
    fail_with (record f { pending_residuals = length (r ∷ rs) }) (message text)
attempt v f (read [] s) now = record f { pending_residuals = 0 }
attempt v f (read (r ∷ rs) s) now =
    let f' = record f {
      pending_residuals = length (r ∷ rs);
      held_by_token = tally_held [] s.polymarket_activity.positions;
    } in
    sweep v f' (r ∷ rs) (kalshi_no_held s) (kalshi_fresh s) now

unfoldable pub tick : Venue → Flattener → Reads → ℕ → Flattener
tick v f reads now =
    let f' = attempt v (record f { running = true; last_tick_at_ms = some now }) reads now in
    if not f.enabled || f.running then f else record f' { running = false }

-- The constructor.
unfoldable pub create : Bool → Flattener
create enabled = record {
  enabled = enabled;
  running = false;
  flattened_total = 0;
  last_tick_at_ms = none;
  last_error = none;
  pending_residuals = 0;
  recently_sold_at = [];
  held_by_token = [];
  calls = [];
}

-- One sweep after another.
unfoldable pub run : Venue → Flattener → List (ℕ × Reads) → Flattener
run v f [] = f
run v f ((now, reads) ∷ ticks) = run v (tick v f reads now) ticks
