-- ===== src/Ws/Reconnect/Bounds.antt =====
-- Bounds of the reconnect delays of src/ws/reconnect.ts.
use native.Mathlib.Nat.{pow-suc}
use pok_poly_kalshi.Prelude.{
  ℕ, zero, suc, ◌+◌, ◌-◌, ◌*◌, ◌^◌, ◌≤◌, ◌<◌, min, max, ◌≡◌, true, Option, none, arith, ◌↔◌,
}
use pok_poly_kalshi.Prelude.Tests.{or_default}
use pok_poly_kalshi.Ws.Reconnect.{
  rate_limited, compute_reconnect_delay, compute_rate_limit_backoff_delay, default_max_ms,
  FeedState, should_force_feed_reconnect,
}

one-le-pow : (k : ℕ) → 1 ≤ 2 ^ k
one-le-pow zero = omega arith
one-le-pow (suc k) = omega (arith, one-le-pow k, pow-suc 2 k)

pow_mono : (j k : ℕ) → j ≤ k → 2 ^ j ≤ 2 ^ k
pow_mono zero k h = one-le-pow k
pow_mono (suc j) zero h = elim h [ ]
pow_mono (suc j) (suc k) h = omega (arith, pow_mono j k (omega arith), pow-suc 2 j, pow-suc 2 k)

-- The next attempt is never before the rate-limit deadline. It waits at least a second (if the cap is
-- at least that), and no longer than the cap or the time left to the deadline, whichever is later.
-- The reason is `rate_limited` exactly when the deadline is what decides.
pub reconnect_delay_bounds :
    (attempt now : ℕ) (max_ms until : Option ℕ)
    → let d = compute_reconnect_delay attempt now max_ms until in
      let cap = or_default max_ms default_max_ms in
      (or_default until 0 ≤ now + d.delay_ms)
      × (min cap 1000 ≤ d.delay_ms)
      × (d.delay_ms ≤ max cap (or_default until 0 - now))
      × ((d.reason ≡ rate_limited)
          ↔ (now + min cap (1000 * 2 ^ (attempt - 1)) < or_default until 0))
unfolding compute_reconnect_delay
reconnect_delay_bounds attempt now max_ms until = let one = one-le-pow (attempt - 1) in ground arith

-- Without a rate limit the delay never falls from one attempt to a later one, and from the sixth
-- attempt on it is the default cap of 30 seconds.
pub reconnect_delay_mono :
    (i j now : ℕ)
    → i ≤ j
    → let delay = λ (n : ℕ). (compute_reconnect_delay n now none none).delay_ms in
      (delay i ≤ delay j) × (6 ≤ i → delay i ≡ 30_000)
unfolding compute_reconnect_delay
reconnect_delay_mono i j now h =
    let grows = pow_mono (i - 1) (j - 1) (omega arith) in
    (ground arith, λ late. let large = pow_mono 5 (i - 1) (omega arith) in ground arith)

double-power : (base k : ℕ) → base * 2 ^ suc k ≡ 2 * (base * 2 ^ k)
double-power base k = rw (pow-suc 2 k) (grind arith)

-- The backoff of a rate limit doubles with each attempt after the first until the cap.
pub backoff_doubles :
    (attempt base cap : ℕ)
    → let delay = λ (n : ℕ). compute_rate_limit_backoff_delay n base cap in
      (delay (suc (suc attempt)) ≡ min cap (2 * delay (suc attempt))) × (delay attempt ≤ cap)
unfolding compute_rate_limit_backoff_delay
backoff_doubles attempt base cap =
    let first : suc (suc attempt) - 1 ≡ suc attempt = omega arith in
    let second : suc attempt - 1 ≡ attempt = omega arith in
    (rw (first, second) (ground (arith, double-power base attempt)), ground arith)

-- The watchdog forces a reconnect exactly when it is on, the socket is open, something is subscribed
-- and the last message is older than the allowed silence.
pub force_reconnect_iff :
    (i : FeedState)
    → (should_force_feed_reconnect i ≡ true) ↔ (
        (0 < i.feed_silence_ms)
        × (i.socket_open ≡ true)
        × (0 < i.desired_subscriptions)
        × (i.last_message_at + i.feed_silence_ms < i.now))
unfolding should_force_feed_reconnect
force_reconnect_iff i = ground arith
