-- ===== src/Execution/ExposureCache.antt =====
-- src/execution/live-hot-path.ts: the class `LiveExposureCache`. A method that may await a refresh is cut
-- there: `ensure_fresh` says whether to serve at once or to wait, and `after_wait` what follows. `now` is
-- the clock. `refreshes` and `loaded_at` keep when refreshes began and when the last one filled the cache.
pub mod Fresh
pub mod Guards
pub mod Observe
use pok_poly_kalshi.Prelude.{
  ℕ, ◌+◌, ◌-◌, ◌*◌, max, String, Bool, true, false, Option, none, some, List, [], ◌∷◌, ◌&&◌, ◌||◌,
  not,
}
use pok_poly_kalshi.Prelude.Tests.{
  if◌then◌else◌, or_default, or_else, is_some, leb, ltb, nat_beq, nat_key, text_key, ◌==◌,
}
use pok_poly_kalshi.Prelude.Lists.{length, keep, find, take}
use pok_poly_kalshi.Prelude.JsMap.{JsMap, set, delete, values}
use pok_poly_kalshi.Prelude.JsSet.{has}
use pok_poly_kalshi.Prelude.Int.{ℤ, pos, ◌+ℤ◌, ltb_ℤ}
use pok_poly_kalshi.Prelude.Text.{◌+++◌, join, lower, is_one_of}
use pok_poly_kalshi.Types.{Number, finite, not_finite, ArbLeg, venue_text, direction_text}
use pok_poly_kalshi.Scanner.Candidate.{ArbCandidate}
use pok_poly_kalshi.Execution.Exposure.{
  DashboardSignal, has_live_exposure, has_exact_exposure_problem, is_submitted_live_attempt,
  risk_quarantined, is_unresolved_status, has_fill_mismatch, quarantine_status, ExposureReason,
  exact_exposure_reason,
}

pub record LiveExposureCache : Type 0 where
  pub max_age_ms : ℕ
  pub max_unresolved_exposure : Number
  pub signals : List DashboardSignal
  pub exact_exposure_signals : List DashboardSignal
  pub execution_quality_signals : List DashboardSignal
  pub submitted_attempts : JsMap ℕ ℕ
  pub refreshed_at : Option ℕ
  pub refreshing : Bool
  pub refreshes : List ℕ
  pub loaded_at : Option ℕ

-- What the four queries of a refresh answer.
pub record Answers : Type 0 where
  pub exposures : List DashboardSignal
  pub attempts : List DashboardSignal
  pub exact_exposures : List DashboardSignal
  pub quality : List DashboardSignal

unfoldable pub refresh : LiveExposureCache → ℕ → LiveExposureCache
refresh c now =
    if c.refreshing then c else record c { refreshing = true; refreshes = now ∷ c.refreshes }

-- `new Map(signals.map((signal) => [signal.id, signal.expiryMs]))`.
unfoldable pub expiries_from : JsMap ℕ ℕ → List DashboardSignal → JsMap ℕ ℕ
expiries_from m [] = m
expiries_from m (s ∷ ss) = expiries_from (set m s.id s.expiry_ms) ss

-- The refresh settles; `none` is that a query has failed.
unfoldable pub refresh_done : LiveExposureCache → ℕ → Option Answers → LiveExposureCache
refresh_done c now none = record c { refreshing = false }
refresh_done c now (some a) = record c {
  refreshing = false;
  signals = keep has_live_exposure a.exposures;
  exact_exposure_signals = keep has_exact_exposure_problem a.exact_exposures;
  execution_quality_signals = a.quality;
  submitted_attempts = expiries_from [] (keep is_submitted_live_attempt a.attempts);
  refreshed_at = some now;
  loaded_at = some now;
}

-- `signals.filter((existing) => existing.id !== signal.id)`, then `unshift` if it counts.
unfoldable pub replace : Bool → DashboardSignal → List DashboardSignal → List DashboardSignal
replace counts s ss =
    let others = keep (λ t. not (t.id == s.id)) ss in if counts then s ∷ others else others

unfoldable pub observe_attempt : JsMap ℕ ℕ → DashboardSignal → JsMap ℕ ℕ
observe_attempt m s =
    let others = delete m s.id in
    if is_submitted_live_attempt s then set others s.id s.expiry_ms else others

unfoldable pub observe_signal : LiveExposureCache → ℕ → DashboardSignal → LiveExposureCache
observe_signal c now s = record c {
  signals = replace (has_live_exposure s) s c.signals;
  exact_exposure_signals = replace (has_exact_exposure_problem s) s c.exact_exposure_signals;
  execution_quality_signals = replace (is_submitted_live_attempt s) s c.execution_quality_signals;
  submitted_attempts = observe_attempt c.submitted_attempts s;
  refreshed_at = some now;
}

-- The cache was refreshed at most so long ago.
abbrev pub is_within : Option ℕ → ℕ → ℕ → Bool
is_within none now age = false
is_within (some at) now age = leb now (at + age)

unfoldable pub is_ready : LiveExposureCache → ℕ → Bool
is_ready c now = is_within c.refreshed_at now c.max_age_ms

abbrev pub hard_max_age_ms : LiveExposureCache → ℕ
hard_max_age_ms c = max (c.max_age_ms * 3) (c.max_age_ms + 5_000)

-- Serve what is cached, or wait for a refresh.
pub data Freshness : Type 0 where
  serve wait : Freshness

unfoldable pub ensure_fresh : LiveExposureCache → ℕ → LiveExposureCache × Freshness
ensure_fresh c now =
    if is_ready c now
    then (c, serve)
    else if is_within c.refreshed_at now (hard_max_age_ms c)
    then (refresh c now, serve)
    else (refresh c now, wait)

pub data CacheBlock : Type 0 where
  refresh_failed cache_stale over_quarantine_cap max_trades_reached : CacheBlock
  attempt_limit : CacheBlock
  has_exposure : String → ℕ → CacheBlock
  not_exact : ExposureReason → CacheBlock
  is_partial mismatched unconfirmed unresolved : ℕ → CacheBlock

-- The rest of `ensureFresh` once the awaited refresh has settled.
unfoldable pub after_wait : LiveExposureCache → ℕ → Bool → Option CacheBlock
after_wait c now failed =
    if failed then some refresh_failed else if is_ready c now then none else some cache_stale

abbrev pub over_cap : Number → ℤ → Bool
over_cap not_finite total = false
over_cap (finite cap) total = ltb_ℤ (cap +ℤ pos 1) total

unfoldable pub quarantine_block : LiveExposureCache → Option CacheBlock
quarantine_block c =
    if over_cap c.max_unresolved_exposure (quarantine_status c.signals).0
    then some over_quarantine_cap
    else none

abbrev pub attempts_in_window : LiveExposureCache → ArbCandidate → ℕ → ℕ
attempts_in_window c candidate now = length (
    keep (λ expiry. nat_beq expiry candidate.expiry_ms && ltb now expiry)
      (values c.submitted_attempts))

-- `liveSubmittedAttemptBlockReason` past its wait; `max_trades` is a whole number.
unfoldable pub submitted_attempt_block :
    LiveExposureCache → ArbCandidate → ℕ → ℕ → Option CacheBlock
submitted_attempt_block c candidate now max_trades =
    if leb max_trades (attempts_in_window c candidate now) then some attempt_limit else none

abbrev not_exact_for : Option ExposureReason → Option CacheBlock
not_exact_for none = none
not_exact_for (some reason) = some (not_exact reason)

unfoldable pub exact_exposure_block : LiveExposureCache → Option CacheBlock
exact_exposure_block c = not_exact_for (exact_exposure_reason c.exact_exposure_signals)

-- The signals of the window of the candidate that are neither quarantined nor resolved.
unfoldable pub is_exposed : ArbCandidate → ℕ → DashboardSignal → Bool
is_exposed candidate now s =
    not (risk_quarantined s)
    && (not (is_some s.reconciliation_resolved_at)
        && (nat_beq s.expiry_ms candidate.expiry_ms && ltb now s.expiry_ms))

abbrev pub exposed : LiveExposureCache → ArbCandidate → ℕ → List DashboardSignal
exposed c candidate now = keep (is_exposed candidate now) c.signals

abbrev leg_text : ArbLeg → String
leg_text l = join ":" (venue_text l.venue ∷ l.contract_id ∷ direction_text l.direction ∷ [])

abbrev keys_of : ArbLeg → ArbLeg → String → String → List String
keys_of low high on_kalshi on_polymarket =
    leg_text low
    ∷ leg_text high
    ∷ ("kalshi:" +++ on_kalshi)
    ∷ ("polymarket:" +++ on_polymarket)
    ∷ []

unfoldable pub candidate_leg_keys : ArbCandidate → List String
candidate_leg_keys c = keys_of c.lower c.higher c.kalshi_contract_id c.polymarket_contract_id

unfoldable pub signal_leg_keys : DashboardSignal → List String
signal_leg_keys s = keys_of s.lower s.higher s.kalshi_contract_id s.polymarket_contract_id

abbrev exposure_at : ℕ → Option String → Option CacheBlock
exposure_at id none = none
exposure_at id (some key) = some (has_exposure key id)

-- The two loops over the exposed signals and their keys.
unfoldable pub leg_block : List String → List DashboardSignal → Option CacheBlock
leg_block taken [] = none
leg_block taken (s ∷ ss) =
    or_else (exposure_at s.id (find (has taken) (signal_leg_keys s))) (leg_block taken ss)

-- `liveExposureBlockReason` past its wait.
unfoldable pub exposure_block : LiveExposureCache → ArbCandidate → ℕ → ℕ → Option CacheBlock
exposure_block c candidate now max_trades =
    let open_signals = exposed c candidate now in
    or_else (quarantine_block c) (
      if leb max_trades (length open_signals)
      then some max_trades_reached
      else leg_block (candidate_leg_keys candidate) open_signals)

abbrev confirmed_by_user_stream : Option String → Bool
confirmed_by_user_stream none = false
confirmed_by_user_stream (some status) =
    is_one_of ("confirmed" ∷ "matched" ∷ "filled" ∷ []) (lower status)

abbrev has_any_fill : DashboardSignal → Bool
has_any_fill s =
    ltb_ℤ (pos 0) (or_default s.kalshi_fill_count (pos 0))
    || ltb_ℤ (pos 0) (or_default s.polymarket_fill_count (pos 0))

-- What is wrong with one exposed signal.
unfoldable pub reconciliation_problem : DashboardSignal → Option CacheBlock
reconciliation_problem s =
    if s.partial_fill
    then some (is_partial s.id)
    else if has_any_fill s && has_fill_mismatch s
    then some (mismatched s.id)
    else if has_any_fill s
        && (not (confirmed_by_user_stream s.kalshi_confirmation)
            || not (confirmed_by_user_stream s.polymarket_confirmation))
    then some (unconfirmed s.id)
    else if is_unresolved_status s.kalshi_status || is_unresolved_status s.polymarket_status
    then some (unresolved s.id)
    else none

unfoldable pub reconcile : List DashboardSignal → Option CacheBlock
reconcile [] = none
reconcile (s ∷ ss) = or_else (reconciliation_problem s) (reconcile ss)

-- `liveReconciliationBlockReason` past its wait.
unfoldable pub reconciliation_block : LiveExposureCache → ArbCandidate → ℕ → Option CacheBlock
reconciliation_block c candidate now =
    or_else (quarantine_block c) (reconcile (exposed c candidate now))

-- `listLiveExecutionQualitySignals` past its wait.
unfoldable pub quality_samples : LiveExposureCache → ℕ → ℕ → ℕ → List DashboardSignal
quality_samples c now lookback limit =
    take (max 1 limit) (keep (λ s. is_within s.created_at now lookback) c.execution_quality_signals)
