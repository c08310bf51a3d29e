-- ===== src/Scanner/Loop.antt =====
-- src/scanner/scanner.ts: the class `CrossVenueArbScanner`. Each method is cut where it awaits; what the
-- awaited calls answer is an argument. `executing` is what `handleCandidate` has been called with and has
-- not settled, oldest first. The latency sink, the analytics and the logs are not modelled.
pub mod Guards
pub mod Claims
pub mod Flight
pub mod Books
pub mod Spec
pub mod Keep
pub mod Refine
use pok_poly_kalshi.Prelude.{
  ℕ, suc, ◌+◌, ◌-◌, max, String, Bool, true, false, Option, none, some, List, [], ◌∷◌, ◌++◌, ◌&&◌,
  ◌||◌, not,
}
use pok_poly_kalshi.Prelude.Tests.{
  if◌then◌else◌, or_default, is_some, ltb, leb, nat_key, text_key, ◌==◌,
}
use pok_poly_kalshi.Prelude.Lists.{length}
use pok_poly_kalshi.Prelude.JsMap.{JsMap, get, set, delete}
use pok_poly_kalshi.Prelude.JsSet.{has, add, remove, add_all, remove_all}
use pok_poly_kalshi.Prelude.Sort.{sort_by}
use pok_poly_kalshi.Prelude.Text.{◌+++◌, join, decimal}
use pok_poly_kalshi.Prelude.Int.{ℤ, pos, ltb_ℤ}
use pok_poly_kalshi.Types.{
  venue_text, direction_text, Venue, kalshi, polymarket, LegDirection, yes_leg, no_leg, ArbLeg,
  BinaryContract,
}
use pok_poly_kalshi.Scanner.Candidate.{ArbCandidate, PairKey}
use pok_poly_kalshi.Scanner.Pairing.{pair_executable_candidates}
use pok_poly_kalshi.Scanner.Safety.{BlockReason, protected_candidate_block_reason}
use pok_poly_kalshi.Scanner.Reentry.{ReentryThrottle, can_enter, record_fill, record_attempt}

-- `live_execution_quality_gate_enabled` is also that its options are there.
pub record ScannerOptions : Type 0 where
  pub enabled : Bool
  pub min_profit_dollars : ℤ
  pub stale_book_ms : ℕ
  pub execution_concurrency : Option ℕ
  pub max_live_trades_per_window : Option ℕ
  pub live_auto_hardlocks_enabled : Option Bool
  pub live_reentry_skip_zero_exposure : Bool
  pub live_exact_exposure_required : Bool
  pub live_execution_quality_gate_enabled : Bool

pub record QueuedCandidate : Type 0 where
  pub candidate : ArbCandidate
  pub now : ℕ

pub data Action : Type 0 where
  filled skipped action_failed : Action

-- The fields of the result of the executor that the scanner reads.
pub record ExecutionResult : Type 0 where
  pub action : Action
  pub execution_group_id : Option String
  pub kalshi_fill_count : Option ℤ
  pub polymarket_fill_count : Option ℤ
  pub live_lock_reason : Option String

-- How `handleCandidate` ends: the executor or the store failed before the books of the scanner were
-- touched, or all went well up to them.
pub data Outcome : Type 0 where
  broke : Outcome
  executed : ExecutionResult → Outcome

pub record Scanner : Type 0 where
  pub options : ScannerOptions
  pub scanning : Bool
  pub last_scan_at : ℕ
  pub last_candidate_count : ℕ
  pub execution_queue : List QueuedCandidate
  pub active_pairs : List String
  pub active_live_expiries : JsMap ℕ ℕ
  pub active_live_legs : List String
  pub active_executions : ℕ
  pub reentry : ReentryThrottle
  pub executing : List QueuedCandidate
  -- The candidate that the loop of a scan has found free of reservations, while it awaits the guards.
  pub considering : Option ArbCandidate

-- The text of `pairKey` of src/scanner/payoff.ts.
unfoldable pub pair_text : ArbCandidate → String
pair_text c = join ":" (
    decimal c.pair_key.expiry_ms
    ∷ venue_text c.pair_key.lower_venue
    ∷ c.pair_key.lower_contract
    ∷ direction_text c.pair_key.lower_direction
    ∷ venue_text c.pair_key.higher_venue
    ∷ c.pair_key.higher_contract
    ∷ direction_text c.pair_key.higher_direction
    ∷ [])

unfoldable pub leg_key : ArbLeg → String
leg_key l = join ":" (
    venue_text l.venue ∷ l.contract_id ∷ direction_text l.direction ∷ or_default l.token_id "" ∷ [])

unfoldable pub live_leg_keys : ArbCandidate → List String
live_leg_keys c =
    leg_key c.lower
    ∷ leg_key c.higher
    ∷ ("kalshi:" +++ c.kalshi_contract_id)
    ∷ ("polymarket:" +++ c.polymarket_contract_id)
    ∷ []

abbrev pub max_trades : ScannerOptions → ℕ
max_trades o = or_default o.max_live_trades_per_window 1

abbrev pub concurrency : ScannerOptions → ℕ
concurrency o = max 1 (or_default o.execution_concurrency 1)

abbrev pub reserved_for : JsMap ℕ ℕ → ℕ → ℕ
reserved_for expiries expiry = or_default (get expiries expiry) 0

unfoldable pub reserve_expiry : JsMap ℕ ℕ → ℕ → JsMap ℕ ℕ
reserve_expiry expiries expiry = set expiries expiry (reserved_for expiries expiry + 1)

unfoldable pub release_expiry : JsMap ℕ ℕ → ℕ → JsMap ℕ ℕ
release_expiry expiries expiry =
    let count = reserved_for expiries expiry in
    if leb count 1 then delete expiries expiry else set expiries expiry (count - 1)

unfoldable pub reserve_live_candidate : Scanner → ArbCandidate → Scanner
reserve_live_candidate s c = record s {
  active_live_expiries = reserve_expiry s.active_live_expiries c.expiry_ms;
  active_live_legs = add_all s.active_live_legs (live_leg_keys c);
}

unfoldable pub release_live_candidate : Scanner → ArbCandidate → Scanner
release_live_candidate s c = record s {
  active_live_expiries = release_expiry s.active_live_expiries c.expiry_ms;
  active_live_legs = remove_all s.active_live_legs (live_leg_keys c);
}

-- One round of the loop of `drainExecutionQueue`.
unfoldable pub start : Scanner → QueuedCandidate → Scanner
start s q = record s {
  active_executions = s.active_executions + 1;
  executing = s.executing ++ q ∷ [];
}

unfoldable pub drain_from : Scanner → List QueuedCandidate → Scanner
drain_from s [] = record s { execution_queue = [] }
drain_from s (q ∷ qs) =
    if ltb s.active_executions (concurrency s.options)
    then drain_from (start s q) qs
    else record s { execution_queue = q ∷ qs }

unfoldable pub drain_execution_queue : Scanner → Scanner
drain_execution_queue s = drain_from s s.execution_queue

-- `enqueueCandidate` past its two tests.
unfoldable pub admit : Scanner → QueuedCandidate → Scanner
admit s q =
    let s' =
      reserve_live_candidate
        (record s { active_pairs = add s.active_pairs (pair_text q.candidate) }) q.candidate in
    drain_execution_queue (record s' { execution_queue = s'.execution_queue ++ q ∷ [] })

unfoldable pub enqueue_candidate : Scanner → QueuedCandidate → Scanner
enqueue_candidate s q =
    if can_enter s.reentry (pair_text q.candidate) q.now
      && not (has s.active_pairs (pair_text q.candidate))
    then admit s q
    else s

unfoldable pub should_throttle_failed_attempt : ScannerOptions → ExecutionResult → Bool
should_throttle_failed_attempt o r =
    if o.live_reentry_skip_zero_exposure
    then ltb_ℤ (pos 0) (or_default r.kalshi_fill_count (pos 0))
      || ltb_ℤ (pos 0) (or_default r.polymarket_fill_count (pos 0))
    else true

-- A text that is there and is not empty.
abbrev pub truthy : Option String → Bool
truthy none = false
truthy (some t) = not (t == "")

-- What the end of `handleCandidate` writes to the throttle.
unfoldable pub note_result :
    ScannerOptions → ReentryThrottle → QueuedCandidate → ExecutionResult → ReentryThrottle
note_result o t q r = elim r.action [
  | filled ↦ record_fill t (pair_text q.candidate) q.now
  | skipped ↦ t
  | action_failed ↦
      if truthy r.execution_group_id && should_throttle_failed_attempt o r
      then record_attempt t (pair_text q.candidate) q.now
      else t
]

abbrev pub note_outcome :
    ScannerOptions → ReentryThrottle → QueuedCandidate → Outcome → ReentryThrottle
note_outcome o t q broke = t
note_outcome o t q (executed r) = note_result o t q r

-- `handleCandidate` settles and its `finally` runs; `rest` is what is executing besides.
unfoldable pub settle : Scanner → QueuedCandidate → List QueuedCandidate → Outcome → Scanner
settle s q rest outcome =
    let s' = record s {
      reentry = note_outcome s.options s.reentry q outcome;
      executing = rest;
      active_executions = s.active_executions - 1;
      active_pairs = remove s.active_pairs (pair_text q.candidate);
    } in
    drain_execution_queue (release_live_candidate s' q.candidate)

-- `scan` up to its loop: the candidates in the order of the loop. `locked` is whether a lock is active.
unfoldable pub goes_after : ArbCandidate → ArbCandidate → Bool
goes_after x y =
    ltb_ℤ x.guaranteed_profit y.guaranteed_profit
    || (not (ltb_ℤ y.guaranteed_profit x.guaranteed_profit) && ltb y.expiry_ms x.expiry_ms)

-- `liveAutoHardlocksEnabled === false`.
abbrev pub hardlocks_off : Option Bool → Bool
hardlocks_off (some false) = true
hardlocks_off _ = false

unfoldable pub begin_scan : Scanner → ℕ → Scanner
begin_scan s now = record s { scanning = true; last_scan_at = now }

unfoldable pub scan_candidates :
    ScannerOptions → List BinaryContract → List BinaryContract → Bool → List ArbCandidate
scan_candidates o polymarket_contracts kalshi_contracts locked =
    if not (hardlocks_off o.live_auto_hardlocks_enabled) && locked
    then []
    else sort_by goes_after
        (pair_executable_candidates polymarket_contracts kalshi_contracts o.min_profit_dollars)

unfoldable pub end_scan : Scanner → ℕ → Scanner
end_scan s count = record s { scanning = false; last_candidate_count = count; considering = none }
