-- ===== src/Examples/Scan.antt =====
-- Concrete inputs for src/scanner.
use pok_poly_kalshi.Prelude.{
  ℕ, ◌≤◌, String, true, false, ◌≡◌, refl, ◌↔◌, Option, none, some, List, [], ◌∷◌, ◌++◌, arith, ◌⊎◌,
}
use pok_poly_kalshi.Prelude.Lists.{All}
use pok_poly_kalshi.Prelude.Int.{ℤ, pos, ◌+ℤ◌, ◌-ℤ◌, ◌≤ℤ◌, ◌<ℤ◌, scale}
use pok_poly_kalshi.Prelude.Money.{dollar, round_dollars, floor_div}
use pok_poly_kalshi.Prelude.JsMap.{get}
use pok_poly_kalshi.Prelude.JsSet.{has}
use pok_poly_kalshi.Prelude.Text.{decimal, digits}
use pok_poly_kalshi.Types.{Venue, kalshi, polymarket, BinaryContract, ArbLeg, yes_leg, no_leg}
use pok_poly_kalshi.Scanner.Payoff.{
  PayoffRegionKey, below_lower, between_strikes, above_higher, payoff_region, spread_profit,
  long_up_below_down_above, true_arbitrage, guaranteed_below_threshold,
}
use pok_poly_kalshi.Scanner.Risk.{build_structure_risk}
use pok_poly_kalshi.Scanner.Risk.Agreement.{risk_agrees}
use pok_poly_kalshi.Scanner.Candidate.{
  ArbCandidate, leg, protected_candidate, candidate_from_legs, guaranteed_spread_candidate,
}
use pok_poly_kalshi.Scanner.Candidate.Protected.{executable_profit}
use pok_poly_kalshi.Scanner.Pairing.{enumerate_candidates}
use pok_poly_kalshi.Scanner.Pairing.Sound.{IsSound, enumerate-IsSound}
use pok_poly_kalshi.Scanner.Reentry.{FilledAttempt, create, can_enter, hydrate}
use pok_poly_kalshi.Scanner.Reentry.Spacing.{Allows, enter_iff}
use pok_poly_kalshi.Scanner.Scheduler
use pok_poly_kalshi.Scanner.Scheduler.{CoalescedScanScheduler, request_scan, finish, microtask}
use pok_poly_kalshi.Scanner.Scheduler.Coalesce.{
  at_once, asked, requests_while_running, latest, request-served, burst_coalesces,
}
use pok_poly_kalshi.Scanner.Loop.{
  ScannerOptions, Scanner, live_leg_keys, enqueue_candidate, hardlocks_off, truthy,
}
use pok_poly_kalshi.Scanner.Loop.Guards.{
  reservation_block, GuardAnswers, guards_block, guards_block-none_iff,
}
use pok_poly_kalshi.Scanner.Loop.Flight.{in_flight}
use pok_poly_kalshi.Scanner.Loop.Spec.{Spec, Inv, considers, enqueues, new_scanner, new_scanner-Inv}
use pok_poly_kalshi.Scanner.Loop.Refine.{Step-refines}

abbrev pub contract : Venue → String → ℤ → Option ℤ → Option ℤ → BinaryContract
contract venue id strike yes_ask no_ask = record {
  venue = venue;
  contract_id = id;
  expiry_ms = 1_700_000_000_000;
  strike = strike;
  yes_ask = yes_ask;
  no_ask = no_ask;
  yes_bid = none;
  no_bid = none;
  yes_ask_levels = none;
  no_ask_levels = none;
  yes_bid_levels = none;
  no_bid_levels = none;
  sequence = none;
  book_hash = none;
  tick_size = none;
  tick_size_changed_at = none;
  yes_token_id = some "yes-token";
  no_token_id = some "no-token";
  updated_at = 0;
}

-- A YES at 40 cents on 100,000 dollars, and a NO at 55 cents on 101,000.
abbrev pub low : BinaryContract
low = contract polymarket "pm-low" (pos 100_000_000_000_000) (some (pos 400_000_000)) none

abbrev pub high : BinaryContract
high = contract kalshi "k-high" (pos 101_000_000_000_000) none (some (pos 550_000_000))

abbrev pub two_cents : ℤ
two_cents = pos 20_000_000

abbrev pub spread : ArbCandidate
spread = protected_candidate low high two_cents (pos 400_000_000) (pos 550_000_000)

abbrev below_both : ℤ
below_both = pos 1_000_000_000

spread-executable : spread.executable ≡ true
unfolding protected_candidate candidate_from_legs round_dollars floor_div ◌+ℤ◌ ◌-ℤ◌ scale
spread-executable = refl

spread-found : guaranteed_spread_candidate low high two_cents ≡ some spread
unfolding guaranteed_spread_candidate
spread-found = refl

executable_profit_example :
    (two_cents ≤ℤ spread.guaranteed_profit)
    × (spread.guaranteed_profit ≤ℤ spread_profit spread.lower spread.higher below_both)
executable_profit_example =
    executable_profit low high two_cents below_both spread (omega arith) spread-found
      spread-executable

enumerate-IsSound_example :
    All (IsSound two_cents) (enumerate_candidates (low ∷ []) (high ∷ []) two_cents).executable
enumerate-IsSound_example = enumerate-IsSound (low ∷ []) (high ∷ []) two_cents

abbrev pub lower_leg : ArbLeg
lower_leg = leg low yes_leg (pos 400_000_000)

abbrev pub higher_leg : ArbLeg
higher_leg = leg high no_leg (pos 550_000_000)

risk_agrees_example :
    let cost = round_dollars (lower_leg.ask +ℤ higher_leg.ask) in
    let outer = round_dollars (dollar -ℤ cost) in
    let r = build_structure_risk lower_leg higher_leg two_cents long_up_below_down_above in
    let profit = λ (key : PayoffRegionKey). (payoff_region key lower_leg higher_leg cost).profit in
    (r.worst_case_profit ≡ profit below_lower)
    × (r.worst_case_profit ≡ profit above_higher)
    × (r.worst_case_profit <ℤ profit between_strikes)
    × (r.worst_case_profit ≡ outer)
    × (r.guaranteed_edge ≡ some outer)
    × (r.max_loss_region ≡ none)
    × ((r.classification ≡ true_arbitrage) ↔ (two_cents ≤ℤ outer))
    × ((r.classification ≡ guaranteed_below_threshold) ↔ (outer <ℤ two_cents))
unfolding leg
risk_agrees_example =
    risk_agrees lower_leg higher_leg refl refl (omega arith) two_cents long_up_below_down_above

-- Two entries of one pair, and one of another.
abbrev attempts : List FilledAttempt
attempts =
    record { pair_key = "a"; filled_at_ms = 1000 }
    ∷ record { pair_key = "b"; filled_at_ms = 1500 }
    ∷ record { pair_key = "a"; filled_at_ms = 400 }
    ∷ []

enter_iff_example :
    (can_enter (hydrate (create 500) attempts) "a" 1500 ≡ true) ↔ All (Allows "a" 500 1500) attempts
enter_iff_example = enter_iff 500 attempts "a" 1500

abbrev busy : CoalescedScanScheduler
busy = request_scan Scheduler.create 100

busy-running : busy.running ≡ true
unfolding request_scan Scheduler.create Scheduler.run
busy-running = refl

-- A request at 110 while the first scan runs, then two others, one with an older time.
request-served_example :
    let t = request_scan (request_scan (request_scan busy 110) 130) 105 in
    (t.running ≡ true)
    × (((request_scan busy 110).scans ≡ 110 ∷ busy.scans)
        ⊎ ((n : ℕ) × (110 ≤ n) × ((finish t 120).queued ≡ t.queued ++ n ∷ [])))
request-served_example =
    request-served busy (request_scan (request_scan (request_scan busy 110) 130) 105) 110 120
      (asked (asked at_once 130) 105) (omega arith)

burst_coalesces_example :
    let t = requests_while_running busy (110 ∷ 130 ∷ 105 ∷ []) in
    let u = finish t 120 in
    (t.scans ≡ busy.scans)
    × (u.running ≡ false)
    × (u.pending ≡ false)
    × (u.queued ≡ busy.queued ++ latest busy.pending_now (110 ∷ 130 ∷ 105 ∷ []) ∷ [])
burst_coalesces_example = burst_coalesces busy 110 120 (130 ∷ 105 ∷ []) busy-running (omega arith)

abbrev options : ScannerOptions
options = record {
  enabled = true;
  min_profit_dollars = two_cents;
  stale_book_ms = 1000;
  execution_concurrency = some 2;
  max_live_trades_per_window = some 1;
  live_auto_hardlocks_enabled = none;
  live_reentry_skip_zero_exposure = true;
  live_exact_exposure_required = true;
  live_execution_quality_gate_enabled = false;
}

abbrev fresh : Scanner
fresh = new_scanner options (create 500)

fresh-free : reservation_block fresh spread ≡ none
unfolding reservation_block protected_candidate candidate_from_legs get live_leg_keys has
fresh-free = refl

abbrev ready : Scanner
ready = record fresh { considering = some spread }

ready-Inv : Inv options ready
ready-Inv =
    (Step-refines options (considers fresh spread fresh-free)
      (new_scanner-Inv options (create 500))).0

Step-refines_example :
    let t =
      enqueue_candidate
        (record ready { considering = none })
        (record { candidate = spread; now = 7 }) in
    Inv options t × Spec options (in_flight ready) (in_flight t)
Step-refines_example = Step-refines options (enqueues ready spread 7 refl) ready-Inv

abbrev answers : GuardAnswers
answers = record {
  submitted_attempt = none;
  exact_exposure = some "";
  execution_quality = some "too few exact fills";
  portfolio_floor = none;
  exposure = none;
}

guards_block-none_iff_example : (guards_block options answers ≡ none) ↔ (
    (truthy answers.submitted_attempt ≡ false)
    × (options.live_exact_exposure_required ≡ true → truthy answers.exact_exposure ≡ false)
    × (options.live_execution_quality_gate_enabled ≡ true
        → truthy answers.execution_quality ≡ false)
    × (truthy answers.portfolio_floor ≡ false)
    × (hardlocks_off options.live_auto_hardlocks_enabled ≡ false → truthy answers.exposure ≡ false))
guards_block-none_iff_example = guards_block-none_iff options answers

decimal_runs : decimal 1_700_000_000_950 ≡ "1700000000950"
unfolding decimal digits
decimal_runs = refl
