-- ===== src/Trading/NakedFlattener/Plan.antt =====
-- Which calls one residual leads to in src/trading/naked-flattener.ts.
use pok_poly_kalshi.Prelude.{
  ℕ, String, Bool, true, false, ◌≡◌, refl, some, List, ◌∷◌, arith, inl, inr, ◌||◌, not, ◌⊎◌,
}
use pok_poly_kalshi.Prelude.Tests.{
  or_default, Bool-cases, Option-cases, text_key, or_false, not-false,
}
use pok_poly_kalshi.Prelude.JsMap.{JsMap, get}
use pok_poly_kalshi.Prelude.Int.{
  ℤ, pos, ◌+ℤ◌, ◌-ℤ◌, scale, ◌≤ℤ◌, ◌<ℤ◌, leb_ℤ, ltb_ℤ, min_ℤ, max_ℤ, +ℤ_parts, -ℤ_parts,
}
use pok_poly_kalshi.Trading.NakedFlattener.{
  NakedResidualRow, Flattener, Venue, SellOutcome, answered, thrown, Call, sold, resolved, dust,
  max_excess_residual_factor, max_excess_abs_tolerance_shares, truthy, resolve, record_sale,
  resolve_if_flat, settle, flatten_excess, flatten_one, is_expired, is_cooling,
}

-- The shares that the sweep believes are held, and the live hedge of a ticker.
abbrev pub held_of : Flattener → NakedResidualRow → ℤ
held_of f r = or_default (get f.held_by_token r.naked_token_id) (pos 0)

abbrev pub hedge_of : JsMap String ℤ → String → ℤ
hedge_of no_held ticker = max_ℤ (pos 0) (or_default (get no_held ticker) (pos 0))

-- Selling `shares` leaves at least the hedged floor, is not dust, stays within the recorded residual,
-- and the excess is not out of proportion to that residual.
pub record IsNaked (r : NakedResidualRow) (held floor shares : ℤ) : Type 0 where
  pub keeps_hedge : shares +ℤ floor ≤ℤ held
  pub above_dust : dust <ℤ shares
  pub within_residual : shares ≤ℤ r.naked_residual_shares
  pub in_proportion :
      held -ℤ floor
      ≤ℤ scale max_excess_residual_factor r.naked_residual_shares +ℤ max_excess_abs_tolerance_shares

-- The calls after one residual: none, the store alone, the seller alone, the seller and the store.
pub data Acted (v : Venue) (f : Flattener) (r : NakedResidualRow) (now : ℕ) (held floor : ℤ)
    (calls : List Call) : Type 0 where
  idle : calls ≡ f.calls → Acted v f r now held floor calls
  flat : held ≤ℤ floor +ℤ dust → calls ≡ resolved r now ∷ f.calls → Acted v f r now held floor calls
  sells :
      (shares : ℤ)
      → IsNaked r held floor shares
      → calls ≡ sold r shares now (v.sell now r shares) ∷ f.calls
      → Acted v f r now held floor calls
  sells_all :
      (shares : ℤ)
      → IsNaked r held floor shares
      → calls ≡ resolved r now ∷ sold r shares now (v.sell now r shares) ∷ f.calls
      → Acted v f r now held floor calls

pub resolve-calls :
    (v : Venue) (f : Flattener) (r : NakedResidualRow) (now : ℕ)
    → (resolve v f r now).calls ≡ resolved r now ∷ f.calls
unfolding resolve
resolve-calls v f r now = ground arith

resolve_if_flat-calls :
    (v : Venue) (f : Flattener) (r : NakedResidualRow) (now : ℕ) (remaining floor : ℤ)
    → let calls = (resolve_if_flat v f r now remaining floor).calls in
      (calls ≡ f.calls) ⊎ (calls ≡ resolved r now ∷ f.calls)
unfolding resolve_if_flat
resolve_if_flat-calls v f r now remaining floor =
    elim (Bool-cases (leb_ℤ (remaining -ℤ floor) dust)) [
      | inl e ↦ rw e (inr (resolve-calls v f r now))
      | inr e ↦ rw e (inl refl)
    ]

settle-calls :
    (v : Venue) (f : Flattener) (r : NakedResidualRow) (now : ℕ) (held floor : ℤ) (o : SellOutcome)
    → let calls = (settle v f r now held floor o).calls in
      (calls ≡ f.calls) ⊎ (calls ≡ resolved r now ∷ f.calls)
unfolding settle record_sale
settle-calls v f r now held floor (thrown text) = inl refl
settle-calls v f r now held floor (answered n e) =
    let remaining = max_ℤ (pos 0) (held -ℤ n) in
    elim (Bool-cases (leb_ℤ n dust)) [
      | inl d ↦ rw d (inl refl)
      | inr d ↦ rw d (resolve_if_flat-calls v (record_sale f r now remaining) r now remaining floor)
    ]

flat-le :
    (held floor : ℤ) → leb_ℤ (max_ℤ (pos 0) (held -ℤ floor)) dust ≡ true → held ≤ℤ floor +ℤ dust
flat-le held floor h = ground (arith, -ℤ_parts held floor, +ℤ_parts floor dust)

excess-IsNaked :
    (r : NakedResidualRow) (held floor : ℤ)
    → let excess = max_ℤ (pos 0) (held -ℤ floor) in
      let shares = min_ℤ r.naked_residual_shares excess in
      ltb_ℤ
          (scale max_excess_residual_factor r.naked_residual_shares
            +ℤ max_excess_abs_tolerance_shares)
          excess
        ≡ false
      → leb_ℤ shares dust ≡ false
      → IsNaked r held floor shares
excess-IsNaked r held floor p h =
    let shares = min_ℤ r.naked_residual_shares (max_ℤ (pos 0) (held -ℤ floor)) in
    let bound = scale max_excess_residual_factor r.naked_residual_shares in
    record {
      keeps_hedge = ground (arith, -ℤ_parts held floor, +ℤ_parts shares floor);
      above_dust = ground arith;
      within_residual = ground arith;
      in_proportion = ground arith;
    }

sale-Acted :
    (v : Venue) (f : Flattener) (r : NakedResidualRow) (now : ℕ) (held floor shares : ℤ)
    → IsNaked r held floor shares
    → let o = v.sell now r shares in
      Acted v f r now held floor
        (settle v (record f { calls = sold r shares now o ∷ f.calls }) r now held floor o).calls
sale-Acted v f r now held floor shares n =
    let o = v.sell now r shares in
    elim (settle-calls v (record f { calls = sold r shares now o ∷ f.calls }) r now held floor o) [
      | inl e ↦ sells shares n e
      | inr e ↦ sells_all shares n e
    ]

flatten_excess-Acted :
    (v : Venue) (f : Flattener) (r : NakedResidualRow) (now : ℕ) (held floor : ℤ)
    → Acted v f r now held floor (flatten_excess v f r now held floor).calls
unfolding flatten_excess
flatten_excess-Acted v f r now held floor =
    let excess = max_ℤ (pos 0) (held -ℤ floor) in
    let shares = min_ℤ r.naked_residual_shares excess in
    let limit =
      scale max_excess_residual_factor r.naked_residual_shares +ℤ max_excess_abs_tolerance_shares in
    elim (Bool-cases (leb_ℤ excess dust)) [
      | inl e ↦ rw e (flat (flat-le held floor e) (resolve-calls v f r now))
      | inr e ↦ elim (Bool-cases (ltb_ℤ limit excess)) [
        | inl g ↦ rw (e, g) (idle refl)
        | inr g ↦ elim (Bool-cases (leb_ℤ shares dust)) [
          | inl d ↦ rw (e, g, d) (idle refl)
          | inr d ↦
              rw (e, g, d)
                (sale-Acted v f r now held floor shares (excess-IsNaked r held floor g d))
        ]
      ]
    ]

-- What must hold before `flatten_one` looks at the excess of a residual.
pub record IsReady (f : Flattener) (r : NakedResidualRow) (fresh : Bool) (now : ℕ) (ticker : String)
    : Type 0 where
  pub hedge_known : fresh ≡ true
  pub mapped : truthy r.kalshi_contract_id ≡ some ticker
  pub not_expired : is_expired r.expiry_ms now ≡ false
  pub rested : is_cooling (get f.recently_sold_at r.naked_token_id) now ≡ false
  pub settled : dust <ℤ held_of f r

checks-IsReady :
    (f : Flattener) (r : NakedResidualRow) (fresh : Bool) (now : ℕ) (ticker : String)
    → truthy r.kalshi_contract_id ≡ some ticker
    → (is_expired r.expiry_ms now
        || is_cooling (get f.recently_sold_at r.naked_token_id) now
        || leb_ℤ (held_of f r) dust
        || not fresh)
      ≡ false
    → IsReady f r fresh now ticker
checks-IsReady f r fresh now ticker t e =
    let (e₁, fresh_ok) = or_false _ (not fresh) e in
    let (e₂, held_ok) = or_false _ (leb_ℤ (held_of f r) dust) e₁ in
    let (alive, rested) = or_false (is_expired r.expiry_ms now) _ e₂ in
    record {
      hedge_known = not-false fresh fresh_ok;
      mapped = t;
      not_expired = alive;
      rested = rested;
      settled = ground arith;
    }

-- One residual leads to no call, or the checks passed and, with the hedge of its ticker as the floor,
-- it is resolved because at most dust is held above the floor, or shares are sold that leave the
-- hedged floor untouched, stay within the residual and in proportion to it.
pub flatten_one-Acted :
    (v : Venue) (f : Flattener) (r : NakedResidualRow) (no_held : JsMap String ℤ) (fresh : Bool)
    (now : ℕ)
    → let calls = (flatten_one v f r no_held fresh now).calls in
      (calls ≡ f.calls)
      ⊎ ((ticker : String) × IsReady f r fresh now ticker
          × Acted v f r now (held_of f r) (hedge_of no_held ticker) calls)
unfolding flatten_one
flatten_one-Acted v f r no_held fresh now =
    let blocked =
      is_expired r.expiry_ms now
      || is_cooling (get f.recently_sold_at r.naked_token_id) now
      || leb_ℤ (held_of f r) dust
      || not fresh in
    elim (Bool-cases blocked) [
      | inl e ↦ rw e (inl refl)
      | inr e ↦ elim (Option-cases (truthy r.kalshi_contract_id)) [
        | inl t ↦ rw (e, t) (inl refl)
        | inr (ticker, t) ↦
            rw (e, t)
              (inr (
                ticker,
                checks-IsReady f r fresh now ticker t e,
                flatten_excess-Acted v f r now (held_of f r) (hedge_of no_held ticker),
              ))
      ]
    ]
