-- ===== src/Trading/PortfolioFloor/Streak.antt =====
-- How many readings the breaker of src/trading/portfolio-floor.ts needs before it latches.
use pok_poly_kalshi.Prelude.{
  ℕ, suc, ◌+◌, ◌≤◌, ◌<◌, true, false, ◌≡◌, refl, ◌∙◌, ap, Option, none, some, List, [], ◌∷◌, arith,
  inl, inr,
}
use pok_poly_kalshi.Prelude.Tests.{Bool-cases, leb}
use pok_poly_kalshi.Prelude.Lists.{length}
use pok_poly_kalshi.Prelude.Int.{ℤ, pos, ◌<ℤ◌}
use pok_poly_kalshi.Trading.Activity.{TradingActivitySnapshot}
use pok_poly_kalshi.Trading.PortfolioFloor.{
  PortfolioFloorMonitor, create, is_enabled, authoritative_total, reading_at, record_status, judge,
  tick, run,
}
use pok_poly_kalshi.Trading.PortfolioFloor.Latch.{observe-judge, tick-latched}

abbrev IsBelow : ℤ → TradingActivitySnapshot → Type 0
IsBelow floor s = (total : ℤ) × (authoritative_total s ≡ some total) × (total <ℤ floor)

-- Each tick reads a total below the floor, with a newer timestamp than the one before.
abbrev pub Breaches : ℤ → ℕ → List (ℕ × Option TradingActivitySnapshot) → Type 0
Breaches floor last [] = Unit
Breaches floor last ((now, none) ∷ ticks) = ⊥
Breaches floor last ((now, some s) ∷ ticks) =
    IsBelow floor s × (last < reading_at s now) × Breaches floor (reading_at s now) ticks

tick-judge :
    (m : PortfolioFloorMonitor) (s : TradingActivitySnapshot) (now : ℕ)
    → is_enabled m ≡ true
    → m.latched ≡ false
    → {t : Option ℤ} → authoritative_total s ≡ t
    → tick m (some s) now ≡ judge (record_status m s now) t (reading_at s now)
unfolding tick
tick-judge m s now on h e =
    rw on (observe-judge m s now h ∙ ap (λ t. judge (record_status m s now) t (reading_at s now)) e)

tick_off :
    (m : PortfolioFloorMonitor) (s : Option TradingActivitySnapshot) (now : ℕ)
    → is_enabled m ≡ false
    → tick m s now ≡ m
unfolding tick
tick_off m none now off = refl
tick_off m (some s) now off = rw off

judge-below :
    (m : PortfolioFloorMonitor) (total : ℤ) (at : ℕ)
    → m.latched ≡ false
    → total <ℤ m.floor_dollars
    → m.last_counted_reading_at_ms < at
    → let m' = judge m (some total) at in
      (m'.consecutive_breaches ≡ suc m.consecutive_breaches)
      × (m'.last_counted_reading_at_ms ≡ at)
      × (m'.latched ≡ leb m.confirmations (suc m.consecutive_breaches))
      × (m'.floor_dollars ≡ m.floor_dollars)
      × (m'.confirmations ≡ m.confirmations)
unfolding judge
judge-below m total at h b l = ground arith

tick-below :
    (m : PortfolioFloorMonitor) (s : TradingActivitySnapshot) (now : ℕ)
    → is_enabled m ≡ true
    → m.latched ≡ false
    → IsBelow m.floor_dollars s
    → m.last_counted_reading_at_ms < reading_at s now
    → let m' = tick m (some s) now in
      (m'.consecutive_breaches ≡ suc m.consecutive_breaches)
      × (m'.last_counted_reading_at_ms ≡ reading_at s now)
      × (m'.latched ≡ leb m.confirmations (suc m.consecutive_breaches))
      × (m'.floor_dollars ≡ m.floor_dollars)
      × (m'.confirmations ≡ m.confirmations)
unfolding record_status
tick-below m s now on h (total, known, below) l =
    rw (tick-judge m s now on h known)
      (judge-below (record_status m s now) total (reading_at s now) h below l)

is_enabled_congr :
    (m m' : PortfolioFloorMonitor)
    → m'.floor_dollars ≡ m.floor_dollars
    → is_enabled m ≡ true
    → is_enabled m' ≡ true
unfolding is_enabled
is_enabled_congr m m' e on = rw e on

stays-latched :
    (m : PortfolioFloorMonitor) (ticks : List (ℕ × Option TradingActivitySnapshot))
    → m.latched ≡ true
    → (run m ticks).latched ≡ true
unfolding run
stays-latched m [] h = h
stays-latched m ((now, s) ∷ ticks) h = stays-latched (tick m s now) ticks (tick-latched m s now h).0

run-Breaches :
    (m : PortfolioFloorMonitor) (ticks : List (ℕ × Option TradingActivitySnapshot))
    → is_enabled m ≡ true
    → m.latched ≡ false
    → m.consecutive_breaches < m.confirmations
    → m.confirmations ≤ m.consecutive_breaches + length ticks
    → Breaches m.floor_dollars m.last_counted_reading_at_ms ticks
    → (run m ticks).latched ≡ true
unfolding run
run-Breaches m [] on h c n b = absurd (omega arith)
run-Breaches m ((now, none) ∷ ticks) on h c n b = absurd b
run-Breaches m ((now, some s) ∷ ticks) on h c n (below, newer, rest) =
    let (count, last, latch, floor, needed) = tick-below m s now on h below newer in
    elim (Bool-cases (leb m.confirmations (suc m.consecutive_breaches))) [
      | inl yet ↦ stays-latched (tick m (some s) now) ticks (latch ∙ yet)
      | inr more ↦
          run-Breaches (tick m (some s) now) ticks
            (is_enabled_congr m (tick m (some s) now) floor on) (latch ∙ more) (ground arith)
            (ground arith) (rw (floor, last) rest)
    ]

enabled : (floor : ℤ) (n : ℕ) → pos 0 <ℤ floor → is_enabled (create floor n) ≡ true
unfolding is_enabled create
enabled floor n p = ground arith

-- Under a positive floor, a new monitor that needs `n` confirmations (at least one) has latched after
-- at least `n` ticks that each read an authoritative total below the floor with a newer timestamp.
pub create-latches :
    (floor : ℤ) (n : ℕ) (ticks : List (ℕ × Option TradingActivitySnapshot))
    → pos 0 <ℤ floor
    → 0 < n
    → n ≤ length ticks
    → Breaches floor 0 ticks
    → (run (create floor n) ticks).latched ≡ true
unfolding create
create-latches floor n ticks p h k b =
    run-Breaches (create floor n) ticks (enabled floor n p) refl h (omega arith) b

tick-none-streak :
    (m : PortfolioFloorMonitor) (now : ℕ)
    → m.latched ≡ false
    → let m' = tick m none now in
      (m'.consecutive_breaches ≤ suc m.consecutive_breaches)
      × (m'.confirmations ≡ m.confirmations)
      × (m'.latched ≡ true → m.confirmations ≤ m'.consecutive_breaches)
unfolding tick
tick-none-streak m now h = (omega arith, refl, λ e. cc)

judge-streak :
    (m : PortfolioFloorMonitor) (t : Option ℤ) (at : ℕ)
    → m.latched ≡ false
    → let m' = judge m t at in
      (m'.consecutive_breaches ≤ suc m.consecutive_breaches)
      × (m'.confirmations ≡ m.confirmations)
      × (m'.latched ≡ true → m.confirmations ≤ m'.consecutive_breaches)
unfolding judge
judge-streak m t at h = (ground arith, ground arith, λ e. ground arith)

tick-streak :
    (m : PortfolioFloorMonitor) (s : Option TradingActivitySnapshot) (now : ℕ)
    → m.latched ≡ false
    → let m' = tick m s now in
      (m'.consecutive_breaches ≤ suc m.consecutive_breaches)
      × (m'.confirmations ≡ m.confirmations)
      × (m'.latched ≡ true → m.confirmations ≤ m'.consecutive_breaches)
unfolding record_status
tick-streak m none now h = tick-none-streak m now h
tick-streak m (some s) now h = elim (Bool-cases (is_enabled m)) [
  | inr off ↦ rw (tick_off m (some s) now off) (omega arith, refl, λ e. cc)
  | inl on ↦
      rw (tick-judge m s now on h refl)
        (judge-streak (record_status m s now) (authoritative_total s) (reading_at s now) h)
]

run-streak :
    (m : PortfolioFloorMonitor) (ticks : List (ℕ × Option TradingActivitySnapshot))
    → m.latched ≡ false
    → m.consecutive_breaches + length ticks < m.confirmations
    → (run m ticks).latched ≡ false
unfolding run
run-streak m [] h l = h
run-streak m ((now, s) ∷ ticks) h l =
    let (grown, same, full) = tick-streak m s now h in
    elim (Bool-cases (tick m s now).latched) [
      | inl e ↦ absurd (omega (arith, full e))
      | inr e ↦ run-streak (tick m s now) ticks e (omega arith)
    ]

-- Fewer ticks than confirmations never latch a new monitor, whatever they read.
pub create-quiet :
    (floor : ℤ) (n : ℕ) (ticks : List (ℕ × Option TradingActivitySnapshot))
    → length ticks < n
    → (run (create floor n) ticks).latched ≡ false
unfolding create
create-quiet floor n ticks h = run-streak (create floor n) ticks refl (omega arith)

-- At most one reading is counted, and it was read at `at`.
record CountedOnce (needed at : ℕ) (m : PortfolioFloorMonitor) : Type 0 where
  latched_eq : m.latched ≡ false
  needed_eq : m.confirmations ≡ needed
  streak_le : m.consecutive_breaches ≤ 1
  counted_eq : 0 < m.consecutive_breaches → m.last_counted_reading_at_ms ≡ at

judge-CountedOnce :
    (needed : ℕ) (m : PortfolioFloorMonitor) (t : Option ℤ) (at : ℕ)
    → 1 < needed
    → CountedOnce needed at m
    → CountedOnce needed at (judge m t at)
unfolding judge
judge-CountedOnce needed m t at n c = ground arith

-- All readings carry one timestamp: the account cache answered each time with the same value.
abbrev pub SameReading : ℕ → List (ℕ × Option TradingActivitySnapshot) → Type 0
SameReading at [] = Unit
SameReading at ((now, none) ∷ ticks) = SameReading at ticks
SameReading at ((now, some s) ∷ ticks) = (reading_at s now ≡ at) × SameReading at ticks

tick-CountedOnce :
    (needed at : ℕ) (m : PortfolioFloorMonitor) (s : TradingActivitySnapshot) (now : ℕ)
    → 1 < needed
    → reading_at s now ≡ at
    → CountedOnce needed at m
    → CountedOnce needed at (tick m (some s) now)
unfolding record_status
tick-CountedOnce needed at m s now n e c = elim (Bool-cases (is_enabled m)) [
  | inr off ↦ rw (tick_off m (some s) now off) c
  | inl on ↦
      rw (tick-judge m s now on c.latched_eq refl, e)
        (judge-CountedOnce needed (record_status m s now) (authoritative_total s) at n (record {
          latched_eq = c.latched_eq;
          needed_eq = c.needed_eq;
          streak_le = c.streak_le;
          counted_eq = c.counted_eq;
        }))
]

run-CountedOnce :
    (needed at : ℕ) (m : PortfolioFloorMonitor) (ticks : List (ℕ × Option TradingActivitySnapshot))
    → 1 < needed
    → SameReading at ticks
    → CountedOnce needed at m
    → (run m ticks).latched ≡ false
unfolding run tick
run-CountedOnce needed at m [] n r c = c.latched_eq
run-CountedOnce needed at m ((now, none) ∷ ticks) n r c = run-CountedOnce needed at m ticks n r c
run-CountedOnce needed at m ((now, some s) ∷ ticks) n (e, r) c =
    run-CountedOnce needed at (tick m (some s) now) ticks n r
      (tick-CountedOnce needed at m s now n e c)

-- With two or more confirmations, one cached value never latches a new monitor: ticks that all carry
-- the same reading timestamp count once, however many they are.
pub create-SameReading :
    (floor : ℤ) (n at : ℕ) (ticks : List (ℕ × Option TradingActivitySnapshot))
    → 1 < n
    → SameReading at ticks
    → (run (create floor n) ticks).latched ≡ false
unfolding create
create-SameReading floor n at ticks h r = run-CountedOnce n at (create floor n) ticks h r (record {
  latched_eq = refl;
  needed_eq = refl;
  streak_le = omega arith;
  counted_eq = λ p. absurd (omega arith);
})
