-- ===== src/Execution/Confirmations/Handling.antt =====
-- How one event is handled, src/execution/venue-confirmations.ts.
use mathlib.Core.Path.{subst}
use pok_poly_kalshi.Prelude.{
  ◌+◌, ◌-◌, ◌≤◌, String, true, false, ◌≡◌, refl, ap, ◌∙◌, Option, none, some, List, [], ◌∷◌, ◌++◌,
  arith, ◌⊎◌, inl, inr, not,
}
use pok_poly_kalshi.Prelude.Tests.{or_else, if◌then◌else◌, Bool-cases, nat_beq}
use pok_poly_kalshi.Prelude.Lists.{
  length, keep, length-drop, All, All-imp, All-keep, All-keep_of_All,
}
use pok_poly_kalshi.Prelude.Int.{ℤ}
use pok_poly_kalshi.Execution.Confirmations.{VenueOrderEvent, confirmation_from_event}
use pok_poly_kalshi.Execution.Confirmations.Coordinator.{
  Coordinator, PendingConfirmation, matches, any_matches, resolve_pending, resolve_all,
  handle_event, check_known, lock_on_unsafe_event, push_recent, KnownOrder, remember_known_order,
  confirmation_band,
}

abbrev pub IsIn : PendingConfirmation → List PendingConfirmation → Type 0
IsIn q [] = ⊥
IsIn q (p ∷ ps) = (q ≡ p) ⊎ IsIn q ps

-- Locking leaves the pending orders, the answers and the events alone.
record SameBooks (c d : Coordinator) : Type 0 where
  pending_eq : d.pending ≡ c.pending
  resolutions_eq : d.resolutions ≡ c.resolutions
  events_eq : d.recent_events ≡ c.recent_events

lock-SameBooks :
    (c : Coordinator) (e : VenueOrderEvent) (group : String) (expected accounted : ℤ)
    → SameBooks c (lock_on_unsafe_event c e group expected accounted)
unfolding lock_on_unsafe_event
lock-SameBooks c e group expected accounted = ground arith

check_known-SameBooks :
    (c : Coordinator) (e : VenueOrderEvent) (k : Option KnownOrder)
    → SameBooks c (check_known c e k)
check_known-SameBooks c e none = record {
  pending_eq = refl;
  resolutions_eq = refl;
  events_eq = refl;
}
check_known-SameBooks c e (some k) = lock-SameBooks c e k.execution_group_id k.expected_size _

-- The coordinator of a matching order before the question of a lock.
abbrev booked : Coordinator → VenueOrderEvent → PendingConfirmation → Coordinator
booked c e p =
    let confirmation =
      confirmation_from_event e p.result p.expected_size (confirmation_band c.options)
        c.options.confirmation_status_tolerant in
    let result = record p.result {
      order_id = confirmation.venue_order_id;
      client_order_id = or_else confirmation.client_order_id p.result.client_order_id;
    } in
    record c {
      pending = keep (λ q. not (nat_beq q.id p.id)) c.pending;
      known_orders =
          remember_known_order c.known_orders result p.execution_group_id p.expected_size;
      resolutions = (p.id, confirmation) ∷ c.resolutions;
    }

-- One matching order is answered and leaves.
resolve_pending-books :
    (c : Coordinator) (e : VenueOrderEvent) (p : PendingConfirmation)
    → let d = resolve_pending c e p in
      (d.pending ≡ keep (λ q. not (nat_beq q.id p.id)) c.pending)
      × (length d.resolutions ≡ length c.resolutions + 1)
      × (d.recent_events ≡ c.recent_events)
unfolding resolve_pending
resolve_pending-books c e p =
    let same = lock-SameBooks (booked c e p) e p.execution_group_id p.expected_size _ in
    (same.pending_eq, ap length same.resolutions_eq ∙ omega arith, same.events_eq)

resolve_all-end : (c : Coordinator) (e : VenueOrderEvent) → resolve_all c e [] ≡ c
unfolding resolve_all
resolve_all-end c e = refl

resolve_all-hit :
    (c : Coordinator) (e : VenueOrderEvent) (p : PendingConfirmation)
    (ps : List PendingConfirmation)
    → matches e p ≡ true
    → resolve_all c e (p ∷ ps) ≡ resolve_all (resolve_pending c e p) e ps
unfolding resolve_all
resolve_all-hit c e p ps m = ap (λ b. resolve_all (if b then resolve_pending c e p else c) e ps) m

resolve_all-miss :
    (c : Coordinator) (e : VenueOrderEvent) (p : PendingConfirmation)
    (ps : List PendingConfirmation)
    → matches e p ≡ false
    → resolve_all c e (p ∷ ps) ≡ resolve_all c e ps
unfolding resolve_all
resolve_all-miss c e p ps m = ap (λ b. resolve_all (if b then resolve_pending c e p else c) e ps) m

resolve_all-books :
    (c : Coordinator) (e : VenueOrderEvent) (ps : List PendingConfirmation)
    → let d = resolve_all c e ps in
      (length d.resolutions ≡ length c.resolutions + length (keep (matches e) ps))
      × (d.recent_events ≡ c.recent_events)
resolve_all-books c e [] = rw (resolve_all-end c e) (omega arith, refl)
resolve_all-books c e (p ∷ ps) = elim (Bool-cases (matches e p)) [
  | inl m ↦
      let (_, answered, events) = resolve_pending-books c e p in
      let (rest, kept) = resolve_all-books (resolve_pending c e p) e ps in
      rw (resolve_all-hit c e p ps m, m) (rest ∙ omega (arith, answered), kept ∙ events)
  | inr m ↦ rw (resolve_all-miss c e p ps m, m) (resolve_all-books c e ps)
]

All-both :
    (P Q : PendingConfirmation → Type 0) (ps : List PendingConfirmation)
    → All P ps
    → All Q ps
    → All (λ q. P q × Q q) ps
All-both P Q [] a b = tt
All-both P Q (p ∷ ps) (a, a_rest) (b, b_rest) = ((a, b), All-both P Q ps a_rest b_rest)

spare :
    (P : PendingConfirmation → Type 0) (c : Coordinator) (p : PendingConfirmation)
    → All P c.pending
    → All (λ q. P q × (nat_beq q.id p.id ≡ false)) (keep (λ q. not (nat_beq q.id p.id)) c.pending)
spare P c p a =
    let kept = keep (λ q. not (nat_beq q.id p.id)) c.pending in
    All-both P (λ q. nat_beq q.id p.id ≡ false) kept (All-keep_of_All P _ c.pending a)
      (All-imp kept (λ q h. ground (arith, h)) (All-keep (λ q. not (nat_beq q.id p.id)) c.pending))

-- What holds of all pending orders still holds of those that are left, and no order is left whose
-- number a matching order has.
abbrev Spared : VenueOrderEvent → List PendingConfirmation → PendingConfirmation → Type 0
Spared e ps q = All (λ p. matches e p ≡ true → nat_beq q.id p.id ≡ false) ps

resolve_all-left :
    (P : PendingConfirmation → Type 0) (c : Coordinator) (e : VenueOrderEvent)
    (ps : List PendingConfirmation)
    → All P c.pending
    → All (λ q. P q × Spared e ps q) (resolve_all c e ps).pending
resolve_all-left P c e [] a = rw (resolve_all-end c e) (All-imp c.pending (λ q h. (h, tt)) a)
resolve_all-left P c e (p ∷ ps) a = elim (Bool-cases (matches e p)) [
  | inl m ↦
      let (left, _, _) = resolve_pending-books c e p in
      let now : All (λ q. P q × (nat_beq q.id p.id ≡ false)) (resolve_pending c e p).pending =
        rw left (spare P c p a) in
      rw (resolve_all-hit c e p ps m) (
        All-imp _ (λ q h. (h.0.0, (λ _. h.0.1, h.1)))
          (resolve_all-left (λ q. P q × (nat_beq q.id p.id ≡ false)) (resolve_pending c e p) e ps
            now))
  | inr m ↦
      rw (resolve_all-miss c e p ps m)
        (All-imp _ (λ q h. (h.0, (λ t. absurd (cc (t, m)), h.1))) (resolve_all-left P c e ps a))
]

-- An order of the list that the event matches, and that has the same number, is not spared.
Spared-none :
    (e : VenueOrderEvent) (ps : List PendingConfirmation) (q : PendingConfirmation)
    → IsIn q ps
    → Spared e ps q
    → matches e q ≡ false
Spared-none e [] q i s = absurd i
Spared-none e (p ∷ ps) q (inl same) (s, rest) = elim (Bool-cases (matches e q)) [
  | inl m ↦ absurd (ground (arith, s (subst (λ x. matches e x ≡ true) same m), ap (λ x. x.id) same))
  | inr m ↦ m
]
Spared-none e (p ∷ ps) q (inr i) (s, rest) = Spared-none e ps q i rest

All-IsIn :
    (ps qs : List PendingConfirmation)
    → ((q : PendingConfirmation) → IsIn q qs → IsIn q ps)
    → All (λ q. IsIn q ps) qs
All-IsIn ps [] f = tt
All-IsIn ps (q ∷ qs) f = (f q (inl refl), All-IsIn ps qs (λ r i. f r (inr i)))

push_recent-bound :
    (es : List VenueOrderEvent) (e : VenueOrderEvent) → length (push_recent es e) ≤ 500
unfolding push_recent
push_recent-bound es e =
    let all = es ++ e ∷ [] in rw (length-drop (length all - 500) all) (omega arith)

-- The coordinator of `handleEvent` after its loop.
abbrev looped : Coordinator → VenueOrderEvent → Coordinator
looped c e = resolve_all (record c { recent_events = push_recent c.recent_events e }) e c.pending

handled-SameBooks :
    (c : Coordinator) (e : VenueOrderEvent) → SameBooks (looped c e) (handle_event c e)
unfolding handle_event
handled-SameBooks c e = elim (Bool-cases (any_matches e c.pending)) [
  | inl m ↦ rw m (record { pending_eq = refl; resolutions_eq = refl; events_eq = refl })
  | inr m ↦ rw m (check_known-SameBooks (looped c e) e _)
]

-- An event answers exactly as many promises as there are pending orders that it matches, it leaves no
-- order pending that it matches, and the coordinator remembers at most 500 events.
pub handle_event-answers :
    (c : Coordinator) (e : VenueOrderEvent)
    → let d = handle_event c e in
      (length d.resolutions ≡ length c.resolutions + length (keep (matches e) c.pending))
      × All (λ q. IsIn q c.pending × (matches e q ≡ false)) d.pending
      × (length d.recent_events ≤ 500)
handle_event-answers c e =
    let same = handled-SameBooks c e in
    let before = record c { recent_events = push_recent c.recent_events e } in
    let (answered, events) = resolve_all-books before e c.pending in
    let left =
      resolve_all-left (λ q. IsIn q c.pending) before e c.pending
        (All-IsIn c.pending c.pending (λ q i. i)) in
    (
      ap length same.resolutions_eq ∙ answered,
      rw same.pending_eq (All-imp _ (λ q h. (h.0, Spared-none e c.pending q h.0 h.1)) left),
      rw (same.events_eq ∙ events) (push_recent-bound c.recent_events e),
    )
