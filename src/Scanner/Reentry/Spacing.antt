-- ===== src/Scanner/Reentry/Spacing.antt =====
-- The throttle of src/scanner/reentry.ts against the list of the entries that were recorded.
use mathlib.Core.Path.{subst}
use pok_poly_kalshi.Prelude.{ℕ, ◌+◌, ◌≤◌, String, true, ◌≡◌, refl, sym, ◌↔◌, List, [], ◌∷◌, arith}
use pok_poly_kalshi.Prelude.Tests.{text_key, or_default}
use pok_poly_kalshi.Prelude.Lists.{All}
use pok_poly_kalshi.Prelude.JsMap.{get, get-set}
use pok_poly_kalshi.Scanner.Reentry.{
  FilledAttempt, ReentryThrottle, create, can_enter, record_fill, hydrate, next_allowed_at,
}

can_enter-record_fill :
    (t : ReentryThrottle) (pair other : String) (at now : ℕ)
    → (can_enter (record_fill t other at) pair now ≡ true)
      ↔ ((can_enter t pair now ≡ true) × (other ≡ pair → at + t.interval_ms ≤ now))
unfolding can_enter record_fill
can_enter-record_fill t pair other at now =
    ground (arith, get-set t.last_entry_by_pair other at pair, text_key.same_iff other pair)

interval-record_fill :
    (t : ReentryThrottle) (pair : String) (at : ℕ)
    → (record_fill t pair at).interval_ms ≡ t.interval_ms
unfolding record_fill
interval-record_fill t pair at = ground arith

-- The entry of another pair, or one that the interval separates from the time.
abbrev pub Allows : String → ℕ → ℕ → FilledAttempt → Type 0
Allows pair interval now a = a.pair_key ≡ pair → a.filled_at_ms + interval ≤ now

can_enter-hydrate :
    (t : ReentryThrottle) (attempts : List FilledAttempt) (pair : String) (now : ℕ)
    → (can_enter (hydrate t attempts) pair now ≡ true)
      ↔ ((can_enter t pair now ≡ true) × All (Allows pair t.interval_ms now) attempts)
unfolding hydrate
can_enter-hydrate t [] pair now = ground arith
can_enter-hydrate t (a ∷ rest) pair now =
    let later = can_enter-hydrate (record_fill t a.pair_key a.filled_at_ms) rest pair now in
    let first = can_enter-record_fill t pair a.pair_key a.filled_at_ms now in
    let same = interval-record_fill t a.pair_key a.filled_at_ms in
    let P = λ (i : ℕ). All (Allows pair i now) rest in
    (
      λ c.
          let (p, q) = later.0 c in
          let (before, own) = first.0 p in (before, (own, subst P same q)),
      λ h. later.1 (first.1 (h.0, h.1.0), subst P (sym same) h.1.1),
    )

-- In whatever order entries are recorded in a new throttle, a pair may be entered exactly when every
-- entry of that pair is at least the interval ago.
pub enter_iff :
    (interval : ℕ) (attempts : List FilledAttempt) (pair : String) (now : ℕ)
    → (can_enter (hydrate (create interval) attempts) pair now ≡ true)
      ↔ All (Allows pair interval now) attempts
unfolding create can_enter get
enter_iff interval attempts pair now =
    let all = can_enter-hydrate (create interval) attempts pair now in
    (λ c. (all.0 c).1, λ h. all.1 (refl, h))

-- `nextAllowedAt` is the first time at which the pair may be entered; without one it always may.
pub next_allowed_at_iff :
    (t : ReentryThrottle) (pair : String) (now : ℕ)
    → (can_enter t pair now ≡ true) ↔ (or_default (next_allowed_at t pair) 0 ≤ now)
unfolding can_enter next_allowed_at
next_allowed_at_iff t pair now = ground arith
