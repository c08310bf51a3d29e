-- ===== src/Scanner/Loop/Spec.antt =====
-- What the scanner of src/scanner/scanner.ts promises, what holds of it between its awaits, and what drives it.
use pok_poly_kalshi.Prelude.{
  ℕ, ◌≤◌, true, false, ◌≡◌, refl, none, some, List, [], ◌∷◌, ◌++◌, arith, ◌⊎◌, inl,
}
use pok_poly_kalshi.Prelude.Tests.{nat_key, text_key}
use pok_poly_kalshi.Prelude.Lists.{length}
use pok_poly_kalshi.Prelude.JsMap.{get}
use pok_poly_kalshi.Prelude.JsSet.{has}
use pok_poly_kalshi.Scanner.Candidate.{ArbCandidate}
use pok_poly_kalshi.Scanner.Reentry.{ReentryThrottle}
use pok_poly_kalshi.Scanner.Loop.{
  Scanner, ScannerOptions, QueuedCandidate, Outcome, concurrency, enqueue_candidate, settle,
  begin_scan, end_scan,
}
use pok_poly_kalshi.Scanner.Loop.Guards.{reservation_block}
use pok_poly_kalshi.Scanner.Loop.Flight.{in_flight}
use pok_poly_kalshi.Scanner.Loop.Books.{Admissible, Books, HasRoom}

-- What the scanner promises: an admissible candidate joins at the end, or any one leaves.
pub data Spec (o : ScannerOptions) (flight later : List QueuedCandidate) : Type 0 where
  stays : later ≡ flight → Spec o flight later
  admits :
      (q : QueuedCandidate) → Admissible o flight q → later ≡ flight ++ q ∷ [] → Spec o flight later
  completes :
      (xs : List QueuedCandidate) (q : QueuedCandidate) (ys : List QueuedCandidate)
      → flight ≡ xs ++ q ∷ ys
      → later ≡ xs ++ ys
      → Spec o flight later

pub record Inv (o : ScannerOptions) (s : Scanner) : Type 0 where
  pub options_eq : s.options ≡ o
  pub counted : s.active_executions ≡ length s.executing
  pub bounded : s.active_executions ≤ concurrency o
  pub busy : (s.execution_queue ≡ []) ⊎ (concurrency o ≤ s.active_executions)
  pub books : Books o (in_flight s) s.active_pairs s.active_live_expiries s.active_live_legs
  pub room : HasRoom o (in_flight s) s.considering

-- What drives the scanner. While the guards are awaited, executions may settle.
pub data Step : Scanner → Scanner → Type 0 where
  begins :
      (s : Scanner) (now : ℕ)
      → s.options.enabled ≡ true
      → s.scanning ≡ false
      → Step s (begin_scan s now)
  considers :
      (s : Scanner) (c : ArbCandidate)
      → reservation_block s c ≡ none
      → Step s (record s { considering = some c })
  drops : (s : Scanner) → Step s (record s { considering = none })
  enqueues :
      (s : Scanner) (c : ArbCandidate) (now : ℕ)
      → s.considering ≡ some c
      → Step s (
          enqueue_candidate (record s { considering = none }) (record { candidate = c; now = now }))
  settles :
      (s : Scanner) (xs : List QueuedCandidate) (q : QueuedCandidate) (ys : List QueuedCandidate)
      (outcome : Outcome)
      → s.executing ≡ xs ++ q ∷ ys
      → Step s (settle s q (xs ++ ys) outcome)
  ends : (s : Scanner) (count : ℕ) → Step s (end_scan s count)

-- A new scanner.
abbrev pub new_scanner : ScannerOptions → ReentryThrottle → Scanner
new_scanner o throttle = record {
  options = o;
  scanning = false;
  last_scan_at = 0;
  last_candidate_count = 0;
  execution_queue = [];
  active_pairs = [];
  active_live_expiries = [];
  active_live_legs = [];
  active_executions = 0;
  reentry = throttle;
  executing = [];
  considering = none;
}

pub new_scanner-Inv :
    (o : ScannerOptions) (throttle : ReentryThrottle) → Inv o (new_scanner o throttle)
unfolding has get
new_scanner-Inv o throttle = record {
  options_eq = refl;
  counted = refl;
  bounded = omega arith;
  busy = inl refl;
  books = record {
    pairs = λ k. refl;
    legs = λ k. refl;
    windows = λ expiry. refl;
    limited = λ expiry. omega arith;
    apart_pairs = tt;
    apart_legs = tt;
  };
  room = tt;
}
