-- ===== src/Scanner/Reentry.antt =====
-- src/scanner/reentry.ts: one entry per pair within the interval. Times are whole milliseconds; the
-- test on a difference is written as one on a sum.
pub mod Spacing
use pok_poly_kalshi.Prelude.{ℕ, ◌+◌, String, Bool, true, Option, none, some, List, [], ◌∷◌}
use pok_poly_kalshi.Prelude.Tests.{text_key, if◌then◌else◌, or_default, leb}
use pok_poly_kalshi.Prelude.JsMap.{JsMap, get, set}

pub record FilledAttempt : Type 0 where
  pub pair_key : String
  pub filled_at_ms : ℕ

pub record ReentryThrottle : Type 0 where
  pub interval_ms : ℕ
  pub last_entry_by_pair : JsMap String ℕ

unfoldable pub create : ℕ → ReentryThrottle
create interval = record { interval_ms = interval; last_entry_by_pair = [] }

unfoldable pub can_enter : ReentryThrottle → String → ℕ → Bool
can_enter t pair now = elim (get t.last_entry_by_pair pair) [
  | none ↦ true
  | some last ↦ leb (last + t.interval_ms) now
]

unfoldable pub record_attempt : ReentryThrottle → String → ℕ → ReentryThrottle
record_attempt t pair at =
    if leb (or_default (get t.last_entry_by_pair pair) 0) at
    then record t { last_entry_by_pair = set t.last_entry_by_pair pair at }
    else t

unfoldable pub record_fill : ReentryThrottle → String → ℕ → ReentryThrottle
unfolding record_attempt
record_fill t pair at = record_attempt t pair at

unfoldable pub hydrate : ReentryThrottle → List FilledAttempt → ReentryThrottle
hydrate t [] = t
hydrate t (a ∷ rest) = hydrate (record_fill t a.pair_key a.filled_at_ms) rest

unfoldable pub next_allowed_at : ReentryThrottle → String → Option ℕ
next_allowed_at t pair = elim (get t.last_entry_by_pair pair) [
  | none ↦ none
  | some last ↦ some (last + t.interval_ms)
]
