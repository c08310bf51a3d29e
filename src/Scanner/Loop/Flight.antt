-- ===== src/Scanner/Loop/Flight.antt =====
-- The reservations of src/scanner/scanner.ts as functions of what is in flight, and what its execution
-- queue does to it.
use pok_poly_kalshi.Prelude.{
  ℕ, ◌+◌, ◌-◌, ◌≤◌, true, false, ◌≡◌, refl, ap, ◌∙◌, List, [], ◌∷◌, ◌++◌, arith, ◌⊎◌, inl, inr,
}
use mathlib.Core.List.{append_assoc}
use pok_poly_kalshi.Prelude.Tests.{if◌then◌else◌, Bool-cases, nat_beq, nat_beq_iff, nat_key, ltb}
use pok_poly_kalshi.Prelude.Lists.{length, length-append}
use pok_poly_kalshi.Prelude.JsMap.{JsMap, get-set, get-delete}
use pok_poly_kalshi.Scanner.Loop.{
  Scanner, QueuedCandidate, reserved_for, reserve_expiry, release_expiry, start, drain_from,
  concurrency,
}

-- How many of the candidates expire at this time.
abbrev pub count : ℕ → List QueuedCandidate → ℕ
count expiry [] = 0
count expiry (q ∷ qs) = (if nat_beq q.candidate.expiry_ms expiry then 1 else 0) + count expiry qs

pub count-append :
    (expiry : ℕ) (xs ys : List QueuedCandidate)
    → count expiry (xs ++ ys) ≡ count expiry xs + count expiry ys
count-append expiry [] ys = omega arith
count-append expiry (x ∷ xs) ys = omega (arith, count-append expiry xs ys)

pub reserved_for-reserve :
    (m : JsMap ℕ ℕ) (x expiry : ℕ)
    → reserved_for (reserve_expiry m x) expiry
      ≡ (if nat_beq x expiry then 1 else 0) + reserved_for m expiry
unfolding reserve_expiry
reserved_for-reserve m x expiry =
    ground (arith, get-set m x (reserved_for m x + 1) expiry, nat_beq_iff x expiry)

pub reserved_for-release :
    (m : JsMap ℕ ℕ) (x expiry : ℕ)
    → reserved_for (release_expiry m x) expiry
      ≡ reserved_for m expiry - (if nat_beq x expiry then 1 else 0)
unfolding release_expiry
reserved_for-release m x expiry =
    ground (
      arith,
      get-set m x (reserved_for m x - 1) expiry,
      get-delete m x expiry,
      nat_beq_iff x expiry,
    )

-- What is queued or executing, in the order in which it was admitted.
abbrev pub in_flight : Scanner → List QueuedCandidate
in_flight s = s.executing ++ s.execution_queue

-- Draining a queue starts its front and leaves the rest, and touches nothing else.
pub record Drained (s : Scanner) (qs : List QueuedCandidate) (t : Scanner) : Type 0 where
  pub flight_eq : in_flight t ≡ s.executing ++ qs
  pub options_eq : t.options ≡ s.options
  pub pairs_eq : t.active_pairs ≡ s.active_pairs
  pub expiries_eq : t.active_live_expiries ≡ s.active_live_expiries
  pub legs_eq : t.active_live_legs ≡ s.active_live_legs
  pub reentry_eq : t.reentry ≡ s.reentry
  pub considering_eq : t.considering ≡ s.considering
  pub counted : s.active_executions ≡ length s.executing → t.active_executions ≡ length t.executing
  pub bounded :
      s.active_executions ≤ concurrency s.options → t.active_executions ≤ concurrency s.options
  pub busy : (t.execution_queue ≡ []) ⊎ (concurrency s.options ≤ t.active_executions)

start-length :
    (s : Scanner) (q : QueuedCandidate) → length (start s q).executing ≡ length s.executing + 1
unfolding start
start-length s q = length-append s.executing (q ∷ []) ∙ omega arith

drain_from-end : (s : Scanner) → drain_from s [] ≡ record s { execution_queue = [] }
unfolding drain_from
drain_from-end s = refl

drain_from-room :
    (s : Scanner) (q : QueuedCandidate) (qs : List QueuedCandidate)
    → ltb s.active_executions (concurrency s.options) ≡ true
    → drain_from s (q ∷ qs) ≡ drain_from (start s q) qs
unfolding drain_from
drain_from-room s q qs room =
    ap (λ b. if b then drain_from (start s q) qs else record s { execution_queue = q ∷ qs }) room

drain_from-full :
    (s : Scanner) (q : QueuedCandidate) (qs : List QueuedCandidate)
    → ltb s.active_executions (concurrency s.options) ≡ false
    → drain_from s (q ∷ qs) ≡ record s { execution_queue = q ∷ qs }
unfolding drain_from
drain_from-full s q qs full =
    ap (λ b. if b then drain_from (start s q) qs else record s { execution_queue = q ∷ qs }) full

-- One round of the loop, and the rest of it.
started :
    (s : Scanner) (q : QueuedCandidate) (qs : List QueuedCandidate) (t : Scanner)
    → ltb s.active_executions (concurrency s.options) ≡ true
    → Drained (start s q) qs t
    → Drained s (q ∷ qs) t
unfolding start
started s q qs t room d = record {
  flight_eq = d.flight_eq ∙ append_assoc s.executing (q ∷ []) qs;
  options_eq = d.options_eq;
  pairs_eq = d.pairs_eq;
  expiries_eq = d.expiries_eq;
  legs_eq = d.legs_eq;
  reentry_eq = d.reentry_eq;
  considering_eq = d.considering_eq;
  counted = λ e. d.counted (omega (arith, start-length s q, e));
  bounded = λ b. d.bounded (ground (arith, room));
  busy = d.busy;
}

pub drain_from-Drained : (s : Scanner) (qs : List QueuedCandidate) → Drained s qs (drain_from s qs)
drain_from-Drained s [] = rw (drain_from-end s) (record {
  flight_eq = refl;
  options_eq = refl;
  pairs_eq = refl;
  expiries_eq = refl;
  legs_eq = refl;
  reentry_eq = refl;
  considering_eq = refl;
  counted = λ e. e;
  bounded = λ b. b;
  busy = inl refl;
})
drain_from-Drained s (q ∷ qs) =
    elim (Bool-cases (ltb s.active_executions (concurrency s.options))) [
      | inl room ↦
          rw (drain_from-room s q qs room)
            (started s q qs (drain_from (start s q) qs) room (drain_from-Drained (start s q) qs))
      | inr full ↦ rw (drain_from-full s q qs full) (record {
        flight_eq = refl;
        options_eq = refl;
        pairs_eq = refl;
        expiries_eq = refl;
        legs_eq = refl;
        reentry_eq = refl;
        considering_eq = refl;
        counted = λ e. e;
        bounded = λ b. b;
        busy = inr (ground (arith, full));
      })
    ]
