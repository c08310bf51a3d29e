-- ===== src/Examples/Signals.antt =====
-- Concrete inputs for the exposure cache of src/execution/live-hot-path.ts.
use pok_poly_kalshi.Prelude.{◌<◌, true, false, ◌≡◌, refl, ◌↔◌, some, none, [], arith}
use pok_poly_kalshi.Prelude.Lists.{length, All}
use pok_poly_kalshi.Prelude.Int.{pos}
use pok_poly_kalshi.Types.{finite}
use pok_poly_kalshi.Scanner.Candidate.{protected_candidate, candidate_from_legs}
use pok_poly_kalshi.Execution.Exposure.{
  DashboardSignal, has_live_exposure, is_submitted_live_attempt, risk_quarantined,
  quarantine_status,
}
use pok_poly_kalshi.Execution.ExposureCache.{
  LiveExposureCache, refresh_done, exact_exposure_block, reconciliation_block, observe_signal,
  ensure_fresh, serve, is_exposed, exposed, exposure_block, submitted_attempt_block,
  candidate_leg_keys, over_cap,
}
use pok_poly_kalshi.Execution.ExposureCache.Guards.{KeysFree, exposure_block-none_iff}
use pok_poly_kalshi.Execution.ExposureCache.Fresh.{
  Wait, Passes, live_submitted_attempt_block_reason, live_exact_exposure_block_reason,
  live_exposure_block_reason, live_reconciliation_block_reason, live_guards-none_iff,
}
use pok_poly_kalshi.Execution.ExposureCache.Observe.{
  without, observe_signal-blocks, observe_signal-serves,
}
use pok_poly_kalshi.Examples.Scan.{spread}
use pok_poly_kalshi.Examples.Orders.{one_sided}

-- Its window is that of the candidate.
abbrev unhedged : DashboardSignal
unhedged = record one_sided { risk_quarantined_at = none; risk_quarantine_exposure_dollars = none }

-- Nothing was read from the store.
abbrev empty : LiveExposureCache
empty = record {
  max_age_ms = 2_000;
  max_unresolved_exposure = finite (pos 5_000_000_000);
  signals = [];
  exact_exposure_signals = [];
  execution_quality_signals = [];
  submitted_attempts = [];
  refreshed_at = none;
  refreshing = false;
  refreshes = [];
  loaded_at = none;
}

unhedged-live : has_live_exposure unhedged ≡ true
unfolding has_live_exposure
unhedged-live = refl

unhedged-submitted : is_submitted_live_attempt unhedged ≡ true
unfolding is_submitted_live_attempt
unhedged-submitted = refl

unhedged-exposed : is_exposed spread 9 unhedged ≡ true
unfolding is_exposed risk_quarantined protected_candidate candidate_from_legs
unhedged-exposed = refl

-- A filled attempt of another signal of the window is in the cache before.
abbrev holding : LiveExposureCache
holding = observe_signal empty 6 (record unhedged { id = 8 })

observe_signal-blocks_example :
    let d = observe_signal holding 7 unhedged in
    let others = without holding unhedged.id in
    (submitted_attempt_block d spread 9 2 ≡ submitted_attempt_block others spread 9 1)
    × ((exposure_block d spread 9 2 ≡ none) ↔ (
        (exposure_block others spread 9 1 ≡ none) × KeysFree (candidate_leg_keys spread) unhedged))
observe_signal-blocks_example =
    observe_signal-blocks holding 7 unhedged spread 9 1 unhedged-live unhedged-submitted
      unhedged-exposed

exposure_block-none_iff_example :
    let c = observe_signal empty 7 unhedged in
    (exposure_block c spread 9 2 ≡ none) ↔ (
      (over_cap c.max_unresolved_exposure (quarantine_status c.signals).0 ≡ false)
      × (length (exposed c spread 9) < 2)
      × All (KeysFree (candidate_leg_keys spread)) (exposed c spread 9))
exposure_block-none_iff_example =
    exposure_block-none_iff (observe_signal empty 7 unhedged) spread 9 2

-- An attempt was observed at 7; a refresh that is awaited finds nothing.
abbrev refilled : Wait
refilled = record {
  cache =
      refresh_done empty 10_050
        (some (record { exposures = []; attempts = []; exact_exposures = []; quality = [] }));
  clock = 10_060;
  failed = false;
}

live_guards-none_iff_example :
    let c = observe_signal empty 7 unhedged in
    (((live_submitted_attempt_block_reason c spread 10_000 2 refilled).1 ≡ none)
      ↔ Passes c 10_000 refilled (λ d. submitted_attempt_block d spread 10_000 2))
    × (((live_exact_exposure_block_reason c 10_000 refilled).1 ≡ none)
        ↔ Passes c 10_000 refilled exact_exposure_block)
    × (((live_exposure_block_reason c spread 10_000 2 refilled).1 ≡ none)
        ↔ Passes c 10_000 refilled (λ d. exposure_block d spread 10_000 2))
    × (((live_reconciliation_block_reason c spread 10_000 refilled).1 ≡ none)
        ↔ Passes c 10_000 refilled (λ d. reconciliation_block d spread 10_000))
live_guards-none_iff_example =
    live_guards-none_iff (observe_signal empty 7 unhedged) spread 10_000 2 refilled

observe_signal-serves_example :
    let d = observe_signal empty 7 unhedged in
    (ensure_fresh d 9 ≡ (d, serve)) × (d.loaded_at ≡ none) × (d.refreshes ≡ [])
observe_signal-serves_example = observe_signal-serves empty 7 9 unhedged (omega arith)
