-- ===== src/Scanner/Scheduler/Coalesce.antt =====
-- Histories of the scheduler of src/scanner/scheduler.ts.
use pok_poly_kalshi.Prelude.{
  ℕ, suc, ◌+◌, ◌≤◌, ◌<◌, max, Bool, true, false, ◌≡◌, refl, ap, List, [], ◌∷◌, ◌++◌, arith, ◌⊎◌,
  inl, inr, ◌↔◌,
}
use pok_poly_kalshi.Prelude.Tests.{Bool-cases, if◌then◌else◌}
use pok_poly_kalshi.Prelude.Lists.{length}
use pok_poly_kalshi.Scanner.Scheduler.{
  CoalescedScanScheduler, run, request_scan, finish, microtask, heartbeat_requests,
}

pub requests_while_running : CoalescedScanScheduler → List ℕ → CoalescedScanScheduler
requests_while_running s [] = s
requests_while_running s (now ∷ rest) = requests_while_running (request_scan s now) rest

abbrev pub latest : ℕ → List ℕ → ℕ
latest n [] = n
latest n (now ∷ rest) = latest (max n now) rest

abbrev coalesce : CoalescedScanScheduler → ℕ → CoalescedScanScheduler
coalesce s now = record s {
  pending = true;
  pending_now = max s.pending_now now;
  coalesced = suc s.coalesced;
}

request_scan-running :
    (s : CoalescedScanScheduler) (now : ℕ) → s.running ≡ true → request_scan s now ≡ coalesce s now
unfolding request_scan run
request_scan-running s now r = ap (λ (b : Bool). if b then coalesce s now else run s now) r

requests-cons :
    (s : CoalescedScanScheduler) (now : ℕ) (rest : List ℕ)
    → s.running ≡ true
    → requests_while_running s (now ∷ rest) ≡ requests_while_running (coalesce s now) rest
unfolding requests_while_running
requests-cons s now rest r =
    ap (λ (t : CoalescedScanScheduler). requests_while_running t rest)
      (request_scan-running s now r)

requests-nil : (s : CoalescedScanScheduler) → requests_while_running s [] ≡ s
unfolding requests_while_running
requests-nil s = refl

latest-ge : (n : ℕ) (times : List ℕ) → n ≤ latest n times
latest-ge n [] = omega arith
latest-ge n (now ∷ rest) = omega (arith, latest-ge (max n now) rest)

running-coalesces :
    (s : CoalescedScanScheduler) (times : List ℕ)
    → s.running ≡ true
    → let t = requests_while_running s times in
      (t.running ≡ true)
      × (t.scans ≡ s.scans)
      × (t.queued ≡ s.queued)
      × (t.pending_now ≡ latest s.pending_now times)
      × (t.coalesced ≡ s.coalesced + length times)
      × (s.pending ≡ true → t.pending ≡ true)
running-coalesces s [] r = rw (requests-nil s) (r, refl, refl, refl, omega arith, λ p. p)
running-coalesces s (now ∷ rest) r =
    let (up, scans, queued, at, count, pending) = running-coalesces (coalesce s now) rest r in
    rw (requests-cons s now rest r) (up, scans, queued, at, omega arith, λ p. pending refl)

-- Any number of requests, at least one and the first after nought, while a run is in progress do not call
-- the target. When the run settles they have become one run, queued behind the others, at the latest of
-- their times and of those pending before.
pub burst_coalesces :
    (s : CoalescedScanScheduler) (first clock : ℕ) (rest : List ℕ)
    → s.running ≡ true
    → 0 < first
    → let t = requests_while_running s (first ∷ rest) in
      let u = finish t clock in
      (t.scans ≡ s.scans)
      × (u.running ≡ false)
      × (u.pending ≡ false)
      × (u.queued ≡ s.queued ++ latest s.pending_now (first ∷ rest) ∷ [])
unfolding finish
burst_coalesces s first clock rest r p =
    let (up, scans, queued, at, count, pending) = running-coalesces (coalesce s first) rest r in
    let late = latest-ge (max s.pending_now first) rest in
    rw (requests-cons s first rest r) (ground (arith, scans, queued, at, pending refl, late))

-- What may happen before a run settles: other requests, and microtasks that start queued runs.
pub data Unsettled (s : CoalescedScanScheduler) : CoalescedScanScheduler → Type 0 where
  at_once : Unsettled s s
  asked :
      {t : CoalescedScanScheduler} → Unsettled s t → (now : ℕ) → Unsettled s (request_scan t now)
  started :
      {t : CoalescedScanScheduler} (n : ℕ) (rest : List ℕ)
      → Unsettled s t
      → t.queued ≡ n ∷ rest
      → Unsettled s (microtask t n rest)

request_scan-busy : (s : CoalescedScanScheduler) (now : ℕ) → (request_scan s now).running ≡ true
unfolding request_scan run
request_scan-busy s now = ground arith

stays_busy : {s t : CoalescedScanScheduler} → Unsettled s t → s.running ≡ true → t.running ≡ true
unfolding microtask run
stays_busy at_once r = r
stays_busy (asked {t = t} u now) r = request_scan-busy t now
stays_busy (started n rest u q) r = refl

-- A request is pending at the time or at a later one.
abbrev IsPending : ℕ → CoalescedScanScheduler → Type 0
IsPending now s = (s.running ≡ true) × (s.pending ≡ true) × (now ≤ s.pending_now)

request_scan-IsPending :
    (now later : ℕ) (s : CoalescedScanScheduler)
    → IsPending now s
    → IsPending now (request_scan s later)
unfolding request_scan run
request_scan-IsPending now later s (r, p, le) = rw r (refl, refl, omega (arith, le))

Unsettled-IsPending :
    (now : ℕ) {s t : CoalescedScanScheduler} → Unsettled s t → IsPending now s → IsPending now t
unfolding microtask run
Unsettled-IsPending now at_once p = p
Unsettled-IsPending now (asked {t = t} u later) p =
    request_scan-IsPending now later t (Unsettled-IsPending now u p)
Unsettled-IsPending now (started n rest u q) p =
    let (r, pending, le) = Unsettled-IsPending now u p in (refl, pending, le)

finish-IsPending :
    (now clock : ℕ) (s : CoalescedScanScheduler)
    → 0 < now
    → IsPending now s
    → (n : ℕ) × (now ≤ n) × ((finish s clock).queued ≡ s.queued ++ n ∷ [])
unfolding finish
finish-IsPending now clock s some_time (r, p, le) = (s.pending_now, le, ground (arith, p, le))

first-IsPending :
    (s : CoalescedScanScheduler) (now : ℕ) → s.running ≡ true → IsPending now (request_scan s now)
unfolding request_scan run
first-IsPending s now r = rw r (refl, refl, omega arith)

idle-scans :
    (s : CoalescedScanScheduler) (now : ℕ)
    → s.running ≡ false
    → (request_scan s now).scans ≡ now ∷ s.scans
unfolding request_scan run
idle-scans s now r = rw r refl

-- The scheduler drops no request. A request, at a time after nought, either calls the target at its time
-- at once, or a run is in progress. Then, whatever other requests are made and queued runs begin before a
-- run settles, when one does a run is queued behind the others, at the time of the request or a later one.
pub request-served :
    (s t : CoalescedScanScheduler) (now clock : ℕ)
    → Unsettled (request_scan s now) t
    → 0 < now
    → (t.running ≡ true)
      × (((request_scan s now).scans ≡ now ∷ s.scans)
          ⊎ ((n : ℕ) × (now ≤ n) × ((finish t clock).queued ≡ t.queued ++ n ∷ [])))
request-served s t now clock u p = (
  stays_busy u (request_scan-busy s now),
  elim (Bool-cases s.running) [
    | inl busy ↦
        inr
          (finish-IsPending now clock t p (Unsettled-IsPending now u (first-IsPending s now busy)))
    | inr idle ↦ inl (idle-scans s now idle)
  ],
)

-- The heartbeat requests a scan exactly when none was ever made or the last is an interval ago.
pub heartbeat_iff :
    (interval last now : ℕ)
    → (heartbeat_requests interval last now ≡ true) ↔ ((last ≡ 0) ⊎ (last + interval ≤ now))
unfolding heartbeat_requests
heartbeat_iff interval last now = ground arith
