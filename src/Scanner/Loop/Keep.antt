-- ===== src/Scanner/Loop/Keep.antt =====
-- The steps of src/scanner/scanner.ts keep its invariant.
use mathlib.Core.Path.{subst}
use mathlib.Core.List.{append_assoc}
use pok_poly_kalshi.Prelude.{
  ◌-◌, ◌≤◌, ◌<◌, ◌≡◌, sym, ap, ◌∙◌, Option, none, some, List, [], ◌∷◌, ◌++◌, arith, ◌⊎◌,
}
use pok_poly_kalshi.Prelude.Tests.{nat_key, text_key}
use pok_poly_kalshi.Prelude.Lists.{length, length-append}
use pok_poly_kalshi.Prelude.JsSet.{add, remove, add_all, remove_all}
use pok_poly_kalshi.Scanner.Candidate.{ArbCandidate}
use pok_poly_kalshi.Scanner.Loop.{
  Scanner, ScannerOptions, QueuedCandidate, Outcome, pair_text, max_trades, concurrency,
  reserved_for, reserve_live_candidate, release_live_candidate, drain_execution_queue, drain_from,
  admit, settle, note_outcome, reserve_expiry, release_expiry,
}
use pok_poly_kalshi.Scanner.Loop.Guards.{reservation_block, reservation_block-none}
use pok_poly_kalshi.Scanner.Loop.Claims.{free-Apart, All-middle}
use pok_poly_kalshi.Scanner.Loop.Flight.{in_flight, drain_from-Drained}
use pok_poly_kalshi.Scanner.Loop.Books.{
  leg_keys, Admissible, Books, HasRoom, join-Books, leave-Books, count-middle,
}
use pok_poly_kalshi.Scanner.Loop.Spec.{Inv}

-- Draining keeps the books, and what is in flight.
drained-Inv :
    (o : ScannerOptions) (s : Scanner)
    → s.options ≡ o
    → s.active_executions ≡ length s.executing
    → s.active_executions ≤ concurrency o
    → Books o (in_flight s) s.active_pairs s.active_live_expiries s.active_live_legs
    → HasRoom o (in_flight s) s.considering
    → Inv o (drain_execution_queue s) × (in_flight (drain_execution_queue s) ≡ in_flight s)
unfolding drain_execution_queue
drained-Inv o s opt counted bounded books room =
    let d = drain_from-Drained s s.execution_queue in
    let t = drain_from s s.execution_queue in
    let b : s.active_executions ≤ concurrency s.options = rw opt bounded in
    (
      record {
        options_eq = d.options_eq ∙ opt;
        counted = d.counted counted;
        bounded = subst (λ p. t.active_executions ≤ concurrency p) opt (d.bounded b);
        busy =
            subst (λ p. (t.execution_queue ≡ []) ⊎ (concurrency p ≤ t.active_executions)) opt
              d.busy;
        books = rw (d.flight_eq, d.pairs_eq, d.expiries_eq, d.legs_eq) books;
        room = rw (d.flight_eq, d.considering_eq) room;
      },
      d.flight_eq,
    )

pub consider-HasRoom :
    (o : ScannerOptions) (s : Scanner) (c : ArbCandidate)
    → Inv o s
    → reservation_block s c ≡ none
    → HasRoom o (in_flight s) (some c)
consider-HasRoom o s c i e =
    let (below, free) = reservation_block-none s c e in
    let q : QueuedCandidate = record { candidate = c; now = 0 } in
    (
      omega (
        arith,
        i.books.windows c.expiry_ms,
        subst (λ p. reserved_for s.active_live_expiries c.expiry_ms < max_trades p) i.options_eq
            below,
      ),
      free-Apart leg_keys s.active_live_legs (in_flight s) q i.books.legs free,
    )

pub admit-Inv :
    (o : ScannerOptions) (s : Scanner) (q : QueuedCandidate)
    → Inv o s
    → Admissible o (in_flight s) q
    → s.considering ≡ none
    → Inv o (admit s q) × (in_flight (admit s q) ≡ in_flight s ++ q ∷ [])
unfolding admit reserve_live_candidate
admit-Inv o s q i a idle =
    let s' : Scanner = record s {
      active_pairs = add s.active_pairs (pair_text q.candidate);
      active_live_expiries = reserve_expiry s.active_live_expiries q.candidate.expiry_ms;
      active_live_legs = add_all s.active_live_legs (leg_keys q);
      execution_queue = s.execution_queue ++ q ∷ [];
    } in
    let joined = append_assoc s.executing s.execution_queue (q ∷ []) in
    let books =
      join-Books o (in_flight s) s.active_pairs s.active_live_expiries s.active_live_legs q i.books
        a in
    let (inv, same) =
      drained-Inv o s' i.options_eq i.counted i.bounded
        (subst (λ f. Books o f s'.active_pairs s'.active_live_expiries s'.active_live_legs) joined
          books)
        (rw idle tt) in
    (inv, same ∙ sym joined)

pub flight-middle :
    (s : Scanner) (xs : List QueuedCandidate) (q : QueuedCandidate) (ys : List QueuedCandidate)
    → s.executing ≡ xs ++ q ∷ ys
    → in_flight s ≡ xs ++ q ∷ (ys ++ s.execution_queue)
flight-middle s xs q ys e =
    ap (λ l. l ++ s.execution_queue) e ∙ append_assoc xs (q ∷ ys) s.execution_queue

settle-counted :
    (s : Scanner) (xs : List QueuedCandidate) (q : QueuedCandidate) (ys : List QueuedCandidate)
    → s.executing ≡ xs ++ q ∷ ys
    → s.active_executions ≡ length s.executing
    → s.active_executions - 1 ≡ length (xs ++ ys)
settle-counted s xs q ys e c =
    omega (arith, c, ap length e, length-append {0} xs (q ∷ ys), length-append {0} xs ys)

HasRoom-leave :
    (o : ScannerOptions) (xs : List QueuedCandidate) (q : QueuedCandidate)
    (ys : List QueuedCandidate) (c : Option ArbCandidate)
    → HasRoom o (xs ++ q ∷ ys) c
    → HasRoom o (xs ++ ys) c
HasRoom-leave o xs q ys none h = tt
HasRoom-leave o xs q ys (some c) (w, a) =
    (omega (arith, count-middle c.expiry_ms xs q ys), All-middle _ xs q ys a)

pub settle-Inv :
    (o : ScannerOptions) (s : Scanner) (xs : List QueuedCandidate) (q : QueuedCandidate)
    (ys : List QueuedCandidate) (outcome : Outcome)
    → Inv o s
    → s.executing ≡ xs ++ q ∷ ys
    → Inv o (settle s q (xs ++ ys) outcome)
      × (in_flight (settle s q (xs ++ ys) outcome) ≡ xs ++ (ys ++ s.execution_queue))
unfolding settle release_live_candidate
settle-Inv o s xs q ys outcome i e =
    let s' : Scanner = record s {
      reentry = note_outcome s.options s.reentry q outcome;
      executing = xs ++ ys;
      active_executions = s.active_executions - 1;
      active_pairs = remove s.active_pairs (pair_text q.candidate);
      active_live_expiries = release_expiry s.active_live_expiries q.candidate.expiry_ms;
      active_live_legs = remove_all s.active_live_legs (leg_keys q);
    } in
    let before = flight-middle s xs q ys e in
    let after = append_assoc xs ys s.execution_queue in
    let books =
      leave-Books o xs q (ys ++ s.execution_queue) s.active_pairs s.active_live_expiries
        s.active_live_legs
        (subst (λ f. Books o f s.active_pairs s.active_live_expiries s.active_live_legs) before
          i.books) in
    let (inv, same) =
      drained-Inv o s' i.options_eq (settle-counted s xs q ys e i.counted)
        (omega (arith, i.bounded))
        (subst (λ f. Books o f s'.active_pairs s'.active_live_expiries s'.active_live_legs)
          (sym after) books)
        (subst (λ f. HasRoom o f s.considering) (sym after)
          (HasRoom-leave o xs q (ys ++ s.execution_queue) s.considering
            (subst (λ f. HasRoom o f s.considering) before i.room))) in
    (inv, same ∙ after)

pub idle-Inv :
    (o : ScannerOptions) (s : Scanner) → Inv o s → Inv o (record s { considering = none })
idle-Inv o s i = record {
  options_eq = i.options_eq;
  counted = i.counted;
  bounded = i.bounded;
  busy = i.busy;
  books = i.books;
  room = tt;
}
