-- ===== src/Scanner/Loop/Refine.antt =====
-- The scanner of src/scanner/scanner.ts against the list of what is in flight.
use mathlib.Core.Path.{subst}
use pok_poly_kalshi.Prelude.{◌≡◌, refl, none, some, ◌++◌, inl, inr, ◌&&◌, not}
use pok_poly_kalshi.Prelude.Tests.{Bool-cases, nat_key, text_key, and_true, not-true}
use pok_poly_kalshi.Prelude.JsSet.{has}
use pok_poly_kalshi.Scanner.Reentry.{can_enter}
use pok_poly_kalshi.Scanner.Loop.{
  Scanner, ScannerOptions, QueuedCandidate, pair_text, enqueue_candidate, begin_scan, end_scan,
}
use pok_poly_kalshi.Scanner.Loop.Claims.{free-Apart}
use pok_poly_kalshi.Scanner.Loop.Flight.{count, in_flight}
use pok_poly_kalshi.Scanner.Loop.Books.{pair_keys, Admissible, HasRoom}
use pok_poly_kalshi.Scanner.Loop.Spec.{
  Spec, Inv, Step, begins, considers, drops, enqueues, settles, ends,
}
use pok_poly_kalshi.Scanner.Loop.Keep.{
  flight-middle, admit-Inv, settle-Inv, idle-Inv, consider-HasRoom,
}

enqueue-Inv :
    (o : ScannerOptions) (s : Scanner) (q : QueuedCandidate)
    → Inv o s
    → HasRoom o (in_flight s) (some q.candidate)
    → s.considering ≡ none
    → Inv o (enqueue_candidate s q) × Spec o (in_flight s) (in_flight (enqueue_candidate s q))
unfolding enqueue_candidate
enqueue-Inv o s q i room idle =
    let may = can_enter s.reentry (pair_text q.candidate) q.now in
    let taken = has s.active_pairs (pair_text q.candidate) in
    elim (Bool-cases (may && not taken)) [
      | inl e ↦
          let free = not-true taken (and_true may (not taken) e).1 in
          let a : Admissible o (in_flight s) q = record {
            window = room.0;
            legs = room.1;
            pair = free-Apart pair_keys s.active_pairs (in_flight s) q i.books.pairs (free, tt);
          } in
          let (inv, joined) = admit-Inv o s q i a idle in rw e (inv, Spec.admits q a joined)
      | inr e ↦ rw e (i, Spec.stays refl)
    ]

-- The scanner implements the list of what is in flight. Each step, with the awaits of a scan and of the
-- executions interleaved in any order, keeps what its books say: the active pairs, the reserved legs and
-- the count for each window are those of the candidates in flight, no two of which share a pair or a leg
-- key, no window exceeds its limit, at most `concurrency` execute, and none waits while one more could.
-- On the list a step does nothing, appends an admissible candidate, or takes one out.
pub Step-refines :
    (o : ScannerOptions) {s t : Scanner}
    → Step s t
    → Inv o s
    → Inv o t × Spec o (in_flight s) (in_flight t)
unfolding begin_scan end_scan
Step-refines o (begins s now on idle) i = (
  record {
    options_eq = i.options_eq;
    counted = i.counted;
    bounded = i.bounded;
    busy = i.busy;
    books = i.books;
    room = i.room;
  },
  Spec.stays refl,
)
Step-refines o (considers s c free) i = (
  record {
    options_eq = i.options_eq;
    counted = i.counted;
    bounded = i.bounded;
    busy = i.busy;
    books = i.books;
    room = consider-HasRoom o s c i free;
  },
  Spec.stays refl,
)
Step-refines o (drops s) i = (idle-Inv o s i, Spec.stays refl)
Step-refines o (enqueues s c now e) i =
    enqueue-Inv o (record s { considering = none }) (record { candidate = c; now = now })
      (idle-Inv o s i) (subst (HasRoom o (in_flight s)) e i.room) refl
Step-refines o (settles s xs q ys outcome e) i =
    let (inv, left) = settle-Inv o s xs q ys outcome i e in
    (inv, Spec.completes xs q (ys ++ s.execution_queue) (flight-middle s xs q ys e) left)
Step-refines o (ends s count) i = (
  record {
    options_eq = i.options_eq;
    counted = i.counted;
    bounded = i.bounded;
    busy = i.busy;
    books = i.books;
    room = tt;
  },
  Spec.stays refl,
)
