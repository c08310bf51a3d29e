-- ===== src/Ws/Reconnect.antt =====
-- src/ws/reconnect.ts: the delays of a reconnect and the watchdog's test. Times are whole
-- milliseconds; a test on a difference `a - b` is written with `b` on the other side.
pub mod Bounds
use pok_poly_kalshi.Prelude.{ℕ, ◌+◌, ◌-◌, ◌*◌, ◌^◌, min, Bool, false, Option, none, some}
use pok_poly_kalshi.Prelude.Tests.{if◌then◌else◌, or_default, ltb, leb}

pub data ReconnectReason : Type 0 where
  socket_retry rate_limited : ReconnectReason

pub record ReconnectDelay : Type 0 where
  pub delay_ms : ℕ
  pub reason : ReconnectReason

-- `base * 2 ** max(0, attempt - 1)`, no more than `limit`.
unfoldable pub compute_rate_limit_backoff_delay : ℕ → ℕ → ℕ → ℕ
compute_rate_limit_backoff_delay attempt base_ms max_ms = min max_ms (base_ms * 2 ^ (attempt - 1))

abbrev pub default_max_ms : ℕ
default_max_ms = 30_000

unfoldable pub compute_reconnect_delay : ℕ → ℕ → Option ℕ → Option ℕ → ReconnectDelay
compute_reconnect_delay attempt now max_ms rate_limit_backoff_until =
    let retry_delay = min (or_default max_ms default_max_ms) (1000 * 2 ^ (attempt - 1)) in
    let rate_limit_delay = or_default rate_limit_backoff_until 0 - now in
    if ltb retry_delay rate_limit_delay
    then record { delay_ms = rate_limit_delay; reason = rate_limited }
    else record { delay_ms = retry_delay; reason = socket_retry }

pub record FeedState : Type 0 where
  pub now : ℕ
  pub last_message_at : ℕ
  pub feed_silence_ms : ℕ
  pub desired_subscriptions : ℕ
  pub socket_open : Bool

unfoldable pub should_force_feed_reconnect : FeedState → Bool
should_force_feed_reconnect i =
    if leb i.feed_silence_ms 0
    then false
    else if i.socket_open
    then (if leb i.desired_subscriptions 0
        then false
        else ltb (i.last_message_at + i.feed_silence_ms) i.now)
    else false
