-- ===== src/Trading/NakedFlattener/Safety.antt =====
-- When a sweep of src/trading/naked-flattener.ts touches nothing.
use pok_poly_kalshi.Prelude.{
  ℕ, String, true, false, ◌≡◌, refl, ap, some, List, [], ◌∷◌, arith, inl, inr,
}
use pok_poly_kalshi.Prelude.Tests.{Bool-cases}
use pok_poly_kalshi.Prelude.JsMap.{JsMap}
use pok_poly_kalshi.Prelude.Int.{ℤ}
use pok_poly_kalshi.Trading.NakedFlattener.{
  NakedResidualRow, Flattener, Venue, Reads, store_failed, read, snapshot_failed, flatten_one,
  sweep, attempt, tick, kalshi_fresh, kalshi_no_held,
}

flatten_one-stale :
    (v : Venue) (f : Flattener) (r : NakedResidualRow) (no_held : JsMap String ℤ) (now : ℕ)
    → flatten_one v f r no_held false now ≡ f
unfolding flatten_one
flatten_one-stale v f r no_held now = ground arith

sweep-stale :
    (v : Venue) (f : Flattener) (rs : List NakedResidualRow) (no_held : JsMap String ℤ) (now : ℕ)
    → sweep v f rs no_held false now ≡ f
unfolding sweep
sweep-stale v f [] no_held now = refl
sweep-stale v f (r ∷ rs) no_held now =
    rw (flatten_one-stale v f r no_held now) (sweep-stale v f rs no_held now)

-- The reads of a tick prove the hedge: both succeeded and the Kalshi account snapshot is live and fresh.
abbrev pub ProvesHedge : Reads → Type 0
ProvesHedge (store_failed text) = ⊥
ProvesHedge (snapshot_failed rs text) = ⊥
ProvesHedge (read rs s) = kalshi_fresh s ≡ true

attempt-calls :
    (v : Venue) (f : Flattener) (reads : Reads) (now : ℕ)
    → ¬ ProvesHedge reads
    → (attempt v f reads now).calls ≡ f.calls
unfolding attempt
attempt-calls v f (store_failed text) now h = refl
attempt-calls v f (snapshot_failed [] text) now h = refl
attempt-calls v f (snapshot_failed (r ∷ rs) text) now h = refl
attempt-calls v f (read [] s) now h = refl
attempt-calls v f (read (r ∷ rs) s) now h = elim (Bool-cases (kalshi_fresh s)) [
  | inl e ↦ absurd (h e)
  | inr e ↦ rw e (ap (λ (g : Flattener). g.calls) (sweep-stale v _ (r ∷ rs) (kalshi_no_held s) now))
]

-- A tick that is disabled or already running changes nothing. Any other ends with the flag `running`
-- released, whatever threw, and calls neither the seller nor the store unless both reads succeeded
-- and the Kalshi snapshot is live and not stale.
pub tick_guarded :
    (v : Venue) (f : Flattener) (reads : Reads) (now : ℕ)
    → (f.enabled ≡ false → tick v f reads now ≡ f)
      × (f.running ≡ true → tick v f reads now ≡ f)
      × ((tick v f reads now).running ≡ f.running)
      × (¬ ProvesHedge reads → (tick v f reads now).calls ≡ f.calls)
unfolding tick
tick_guarded v f reads now = (
  λ e. ground arith,
  λ e. ground arith,
  ground arith,
  λ h.
      let quiet =
        attempt-calls v (record f { running = true; last_tick_at_ms = some now }) reads now h in
      ground arith,
)
