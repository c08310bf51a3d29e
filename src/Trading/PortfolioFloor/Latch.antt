-- ===== src/Trading/PortfolioFloor/Latch.antt =====
-- What trips the breaker of src/trading/portfolio-floor.ts, and what clears it.
use pok_poly_kalshi.Prelude.{
  ℕ, true, false, ◌≡◌, refl, ap, Option, none, some, List, [], ◌∷◌, arith, inl, inr,
}
use pok_poly_kalshi.Prelude.Tests.{Bool-cases, if◌then◌else◌}
use pok_poly_kalshi.Prelude.Int.{ℤ, ◌<ℤ◌}
use pok_poly_kalshi.Trading.Activity.{TradingActivitySnapshot}
use pok_poly_kalshi.Trading.PortfolioFloor.{
  PortfolioFloorMonitor, is_enabled, block_reason, authoritative_total, judge, observe,
  record_status, reading_at, tick, run, clear,
}

judge-trips :
    (m : PortfolioFloorMonitor) (t : Option ℤ) (at : ℕ)
    → m.latched ≡ false
    → (judge m t at).latched ≡ true
    → (total : ℤ) × (t ≡ some total)
      × (total <ℤ m.floor_dollars)
      × ((judge m t at).latch_reason
          ≡ some (record { total = total; floor_dollars = m.floor_dollars }))
unfolding judge
judge-trips m none at h e = cc
judge-trips m (some total) at h e = (total, refl, ground arith, ground arith)

-- What `observe` computes on an open and on a latched monitor.
pub observe-judge :
    (m : PortfolioFloorMonitor) (s : TradingActivitySnapshot) (now : ℕ)
    → m.latched ≡ false
    → observe m s now ≡ judge (record_status m s now) (authoritative_total s) (reading_at s now)
unfolding observe
observe-judge m s now h =
    let m' = record_status m s now in
    ap (λ b. if b then m' else judge m' (authoritative_total s) (reading_at s now)) h

observe-trips :
    (m : PortfolioFloorMonitor) (s : TradingActivitySnapshot) (now : ℕ)
    → m.latched ≡ false
    → (observe m s now).latched ≡ true
    → (total : ℤ) × (authoritative_total s ≡ some total)
      × (total <ℤ m.floor_dollars)
      × ((observe m s now).latch_reason
          ≡ some (record { total = total; floor_dollars = m.floor_dollars }))
unfolding record_status
observe-trips m s now h e = rw (observe-judge m s now h) (
    judge-trips (record_status m s now) (authoritative_total s) (reading_at s now) h
      (rw (observe-judge m s now h) at e))

-- A breaker that is not latched trips in a tick only on a snapshot that was read, whose two venues are
-- both authoritative and whose total is below the floor; the reason carries that total and the floor.
pub tick-trips :
    (m : PortfolioFloorMonitor) (s : Option TradingActivitySnapshot) (now : ℕ)
    → m.latched ≡ false
    → (tick m s now).latched ≡ true
    → (snapshot : TradingActivitySnapshot) × (total : ℤ) × (s ≡ some snapshot)
      × (authoritative_total snapshot ≡ some total)
      × (total <ℤ m.floor_dollars)
      × ((tick m s now).latch_reason
          ≡ some (record { total = total; floor_dollars = m.floor_dollars }))
unfolding tick
tick-trips m none now h e = cc
tick-trips m (some s) now h e = elim (Bool-cases (is_enabled m)) [
  | inr off ↦ cc (rw off at e)
  | inl on ↦ rw on (
    s,
    (observe-trips m s now h (rw on at e)).0,
    refl,
    (observe-trips m s now h (rw on at e)).1,
    (observe-trips m s now h (rw on at e)).2,
    (observe-trips m s now h (rw on at e)).3,
  )
]

-- Once latched a monitor stays latched, with the same reason, whatever the later ticks read.
pub tick-latched :
    (m : PortfolioFloorMonitor) (s : Option TradingActivitySnapshot) (now : ℕ)
    → m.latched ≡ true
    → ((tick m s now).latched ≡ true)
      × ((tick m s now).latch_reason ≡ m.latch_reason)
      × ((tick m s now).floor_dollars ≡ m.floor_dollars)
unfolding tick observe record_status
tick-latched m none now h = (h, refl, refl)
tick-latched m (some s) now h = ground arith

-- However many ticks follow, and whatever they read, a latched monitor blocks with the reason that it
-- blocked with before; after `clear` it blocks nothing.
pub run-latched :
    (m : PortfolioFloorMonitor) (ticks : List (ℕ × Option TradingActivitySnapshot))
    → m.latched ≡ true
    → (block_reason (run m ticks) ≡ block_reason m) × (block_reason (clear (run m ticks)) ≡ none)
unfolding run block_reason clear is_enabled
run-latched m [] h = (refl, ground arith)
run-latched m ((now, s) ∷ ticks) h =
    ground (arith, tick-latched m s now h, run-latched (tick m s now) ticks)
