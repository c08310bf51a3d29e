-- ===== src/Execution/ExposureCache/Guards.antt =====
-- What the guards of `LiveExposureCache` in src/execution/live-hot-path.ts let through.
use pok_poly_kalshi.Prelude.{
  ℕ, ◌<◌, String, Bool, true, false, ◌≡◌, refl, ◌↔◌, Option, none, some, List, [], ◌∷◌, arith,
}
use pok_poly_kalshi.Prelude.Tests.{if◌then◌else◌, or_else, leb, text_key}
use pok_poly_kalshi.Prelude.Lists.{length, find, All, All-find}
use pok_poly_kalshi.Prelude.JsSet.{has}
use pok_poly_kalshi.Scanner.Candidate.{ArbCandidate}
use pok_poly_kalshi.Execution.Exposure.{DashboardSignal, quarantine_status}
use pok_poly_kalshi.Execution.ExposureCache.{
  LiveExposureCache, CacheBlock, over_quarantine_cap, max_trades_reached, over_cap,
  quarantine_block, exposure_at, leg_block, signal_leg_keys, candidate_leg_keys, exposed,
  exposure_block,
}

-- None of the keys of the signal is taken.
abbrev pub KeysFree : List String → DashboardSignal → Type 0
KeysFree taken s = All (λ key. has taken key ≡ false) (signal_leg_keys s)

pub or_else-none_iff : (a b : Option CacheBlock) → (or_else a b ≡ none) ↔ ((a ≡ none) × (b ≡ none))
or_else-none_iff none b = ground arith
or_else-none_iff (some r) b = ground arith

unless-none_iff :
    (b : Bool) (r : CacheBlock) (rest : Option CacheBlock)
    → ((if b then some r else rest) ≡ none) ↔ ((b ≡ false) × (rest ≡ none))
unless-none_iff true r rest = ground arith
unless-none_iff false r rest = ground arith

exposure_at-none_iff : (id : ℕ) (key : Option String) → (exposure_at id key ≡ none) ↔ (key ≡ none)
exposure_at-none_iff id none = ground arith
exposure_at-none_iff id (some key) = ground arith

none-find :
    (taken keys : List String)
    → All (λ key. has taken key ≡ false) keys
    → find (has taken) keys ≡ none
none-find taken [] a = refl
none-find taken (k ∷ ks) (free, a) = rw free (none-find taken ks a)

find-none_iff :
    (taken keys : List String)
    → (find (has taken) keys ≡ none) ↔ All (λ key. has taken key ≡ false) keys
find-none_iff taken keys = (All-find (has taken) keys, none-find taken keys)

leg_block-none_iff :
    (taken : List String) (ss : List DashboardSignal)
    → (leg_block taken ss ≡ none) ↔ All (KeysFree taken) ss
unfolding leg_block
leg_block-none_iff taken [] = (λ e. tt, λ a. refl)
leg_block-none_iff taken (s ∷ ss) =
    let keys = find (has taken) (signal_leg_keys s) in
    let split = or_else-none_iff (exposure_at s.id keys) (leg_block taken ss) in
    let first = exposure_at-none_iff s.id keys in
    let free = find-none_iff taken (signal_leg_keys s) in
    let rest = leg_block-none_iff taken ss in
    (
      λ e. (free.0 (first.0 (split.0 e).0), rest.0 (split.0 e).1),
      λ (a, others). split.1 (first.1 (free.1 a), rest.1 others),
    )

-- The exposure guard lets a candidate through exactly when the quarantined exposure is within its cap,
-- the open signals of the window are fewer than the trades it allows, and no leg of one is a leg of the
-- candidate.
pub exposure_block-none_iff :
    (c : LiveExposureCache) (candidate : ArbCandidate) (now max_trades : ℕ)
    → (exposure_block c candidate now max_trades ≡ none) ↔ (
        (over_cap c.max_unresolved_exposure (quarantine_status c.signals).0 ≡ false)
        × (length (exposed c candidate now) < max_trades)
        × All (KeysFree (candidate_leg_keys candidate)) (exposed c candidate now))
unfolding exposure_block quarantine_block
exposure_block-none_iff c candidate now max_trades =
    let open_signals = exposed c candidate now in
    let over = over_cap c.max_unresolved_exposure (quarantine_status c.signals).0 in
    let cap = if over then some over_quarantine_cap else none in
    let legs = leg_block (candidate_leg_keys candidate) open_signals in
    let late = if leb max_trades (length open_signals) then some max_trades_reached else legs in
    let split = or_else-none_iff cap late in
    let capped = unless-none_iff over over_quarantine_cap none in
    let full = leb max_trades (length open_signals) in
    let room = unless-none_iff full max_trades_reached legs in
    let free = leg_block-none_iff (candidate_leg_keys candidate) open_signals in
    (
      λ e. (
        (capped.0 (split.0 e).0).0,
        ground (arith, (room.0 (split.0 e).1).0),
        free.0 (room.0 (split.0 e).1).1,
      ),
      λ (cap_kept, below, apart).
          split.1 (capped.1 (cap_kept, refl), room.1 (ground (arith, below), free.1 apart)),
    )
