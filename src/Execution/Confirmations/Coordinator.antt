-- ===== src/Execution/Confirmations/Coordinator.antt =====
-- src/execution/venue-confirmations.ts: the class `LiveVenueConfirmationCoordinator`. The promises that
-- it resolves and the locks that it engages are kept, newest first, in `resolutions` and `locks`.
use pok_poly_kalshi.Prelude.{
  ℕ, ◌-◌, String, Bool, true, false, ◌≡◌, ◌↔◌, Option, none, some, List, [], ◌∷◌, ◌++◌, arith, ◌&&◌,
  ◌||◌, not,
}
use pok_poly_kalshi.Prelude.Tests.{
  MapKey, if◌then◌else◌, or_default, or_else, nat_beq, ◌==◌, text_key,
}
use pok_poly_kalshi.Prelude.Lists.{length, find, keep, drop}
use pok_poly_kalshi.Prelude.JsMap.{JsMap, get, set}
use pok_poly_kalshi.Prelude.Int.{ℤ, pos, ◌+ℤ◌, ◌-ℤ◌, ltb_ℤ, leb_ℤ, max_ℤ, abs}
use pok_poly_kalshi.Types.{Venue, same_venue, ArbLeg}
use pok_poly_kalshi.Execution.Confirmations.{
  VenueOrderResult, VenueOrderEvent, VenueConfirmationResult, epsilon, is_failure_status,
  result_needs_confirmation, event_matches_expected, confirmation_from_event, timeout_confirmation,
  rest_confirmation,
}

pub record Options : Type 0 where
  pub enabled : Bool
  pub auto_hardlocks_enabled : Option Bool
  pub flat_miss_non_blocking : Bool
  pub overfill_tolerance_shares : ℤ
  pub confirmation_overfill_tolerant : Bool
  pub confirmation_status_tolerant : Bool

-- `${venue}:client:${id}` or `${venue}:order:${id}`.
pub data OrderKey : Type 0 where
  client order : Venue → String → OrderKey

abbrev pub same_key : OrderKey → OrderKey → Bool
same_key (client v s) (client w t) = same_venue v w && s == t
same_key (order v s) (order w t) = same_venue v w && s == t
same_key (client v s) (order w t) = false
same_key (order v s) (client w t) = false

pub same_venue_iff : (v w : Venue) → (same_venue v w ≡ true) ↔ (v ≡ w)
same_venue_iff v w = ground arith

pub same_key_iff : (a b : OrderKey) → (same_key a b ≡ true) ↔ (a ≡ b)
same_key_iff (client v s) (client w t) = ground (arith, text_key.same_iff s t)
same_key_iff (order v s) (order w t) = ground (arith, text_key.same_iff s t)
same_key_iff (client v s) (order w t) = ground arith
same_key_iff (order v s) (client w t) = ground arith

instance abbrev pub order_key : MapKey OrderKey
order_key = record { same = same_key; same_iff = same_key_iff }

pub record KnownOrder : Type 0 where
  pub execution_group_id : String
  pub expected_size : ℤ
  pub venue : Venue
  pub reconciled_fill_count : Option ℤ

pub record PendingConfirmation : Type 0 where
  pub id : ℕ
  pub result : VenueOrderResult
  pub execution_group_id : String
  pub expected_size : ℤ
  pub leg : ArbLeg
  pub submitted_at_ms : ℕ

pub record LockInput : Type 0 where
  pub event : VenueOrderEvent
  pub execution_group_id : String
  pub expected_size : ℤ

pub record Coordinator : Type 0 where
  pub options : Options
  pub pending : List PendingConfirmation
  pub recent_events : List VenueOrderEvent
  pub known_orders : JsMap OrderKey KnownOrder
  pub resolutions : List (ℕ × VenueConfirmationResult)
  pub locks : List LockInput

unfoldable pub confirmation_band : Options → ℤ
confirmation_band o =
    if o.confirmation_overfill_tolerant then max_ℤ (pos 0) o.overfill_tolerance_shares else pos 0

-- `id ? key(id) : null`.
abbrev pub key_for : (String → OrderKey) → Option String → Option OrderKey
key_for key none = none
key_for key (some id) = if id == "" then none else some (key id)

-- The larger of two counts, where a missing one is minus infinity.
abbrev pub larger : Option ℤ → Option ℤ → Option ℤ
larger none b = b
larger (some a) none = some a
larger (some a) (some b) = some (max_ℤ a b)

-- The fill that an earlier entry of the same execution group has accounted for.
unfoldable pub prior_for : JsMap OrderKey KnownOrder → String → Option OrderKey → Option ℤ
prior_for known group none = none
prior_for known group (some key) = elim (get known key) [
  | none ↦ none
  | some k ↦ if k.execution_group_id == group then k.reconciled_fill_count else none
]

abbrev pub set_if :
    JsMap OrderKey KnownOrder → Option OrderKey → KnownOrder → JsMap OrderKey KnownOrder
set_if known none k = known
set_if known (some key) k = set known key k

unfoldable pub merged_fill : JsMap OrderKey KnownOrder → VenueOrderResult → String → Option ℤ
merged_fill known r group = larger r.fill_count (
    larger (prior_for known group (key_for (client r.venue) r.client_order_id))
      (prior_for known group (key_for (order r.venue) r.order_id)))

unfoldable pub remember_known_order :
    JsMap OrderKey KnownOrder → VenueOrderResult → String → ℤ → JsMap OrderKey KnownOrder
remember_known_order known r group expected =
    let k : KnownOrder = record {
      execution_group_id = group;
      expected_size = expected;
      venue = r.venue;
      reconciled_fill_count = merged_fill known r group;
    } in
    set_if (set_if known (key_for (client r.venue) r.client_order_id) k)
      (key_for (order r.venue) r.order_id) k

-- A residual-unwind SELL, registered so that its late fill is no surprise.
unfoldable pub remember_unwind_order :
    Coordinator → Venue → String → String → ℤ → Option String → Option ℤ → Coordinator
remember_unwind_order c venue client_order_id group expected venue_order_id reconciled =
    let result : VenueOrderResult = record {
      venue = venue;
      client_order_id = some client_order_id;
      order_id = venue_order_id;
      status = "pending_unwind";
      fill_count = some (or_default reconciled expected);
      fill_price = none;
      fee = none;
      exchange_timestamp_ms = none;
      error = none;
    } in
    record c { known_orders = remember_known_order c.known_orders result group expected }

abbrev lookup_key : JsMap OrderKey KnownOrder → Option OrderKey → Option KnownOrder
lookup_key known none = none
lookup_key known (some key) = get known key

unfoldable pub known_order_for : JsMap OrderKey KnownOrder → VenueOrderEvent → Option KnownOrder
known_order_for known e =
    or_else (lookup_key known (key_for (client e.venue) e.client_order_id))
      (lookup_key known (key_for (order e.venue) e.venue_order_id))

-- The two exemptions of a fill: at or below the accounted fill and the band, or about the size.
unfoldable pub is_over_accounted : ℤ → ℤ → ℤ → Bool
is_over_accounted fill accounted band =
    ltb_ℤ (pos 0) accounted && leb_ℤ fill (accounted +ℤ band +ℤ epsilon)

unfoldable pub is_filled_in_band : ℤ → ℤ → ℤ → Bool
is_filled_in_band fill expected band =
    leb_ℤ (expected -ℤ epsilon) fill && leb_ℤ fill (expected +ℤ band +ℤ epsilon)

unfoldable pub is_unsafe : Options → String → ℤ → ℤ → ℤ → Bool
is_unsafe o status fill expected accounted =
    let failure = is_failure_status status in
    let band = max_ℤ (pos 0) o.overfill_tolerance_shares in
    let moved = ltb_ℤ (pos 0) fill in
    if o.flat_miss_non_blocking
    then failure && moved
      || (moved
          && (not (is_over_accounted fill accounted band)
              && not (is_filled_in_band fill expected band)))
    else failure || (moved && ltb_ℤ epsilon (abs (fill -ℤ expected)))

-- `autoHardlocksEnabled === false`.
abbrev pub hardlocks_off : Option Bool → Bool
hardlocks_off (some false) = true
hardlocks_off _ = false

unfoldable pub lock_on_unsafe_event : Coordinator → VenueOrderEvent → String → ℤ → ℤ → Coordinator
lock_on_unsafe_event c e group expected accounted =
    let lock : LockInput = record {
      event = e;
      execution_group_id = group;
      expected_size = expected;
    } in
    if not (is_unsafe c.options e.status (or_default e.fill_count (pos 0)) expected accounted)
      || hardlocks_off c.options.auto_hardlocks_enabled
    then c
    else record c { locks = lock ∷ c.locks }

abbrev pub matches : VenueOrderEvent → PendingConfirmation → Bool
matches e p = event_matches_expected e p.result p.leg p.submitted_at_ms

-- The body of the loop of `handleEvent`, for a pending order that the event matches.
unfoldable pub resolve_pending : Coordinator → VenueOrderEvent → PendingConfirmation → Coordinator
resolve_pending c e p =
    let confirmation =
      confirmation_from_event e p.result p.expected_size (confirmation_band c.options)
        c.options.confirmation_status_tolerant in
    let result = record p.result {
      order_id = confirmation.venue_order_id;
      client_order_id = or_else confirmation.client_order_id p.result.client_order_id;
    } in
    lock_on_unsafe_event
      (record c {
        pending = keep (λ q. not (nat_beq q.id p.id)) c.pending;
        known_orders =
            remember_known_order c.known_orders result p.execution_group_id p.expected_size;
        resolutions = (p.id, confirmation) ∷ c.resolutions;
      })
      e p.execution_group_id p.expected_size (or_default p.result.fill_count (pos 0))

-- The loop over a copy of the pending orders.
unfoldable pub resolve_all : Coordinator → VenueOrderEvent → List PendingConfirmation → Coordinator
resolve_all c e [] = c
resolve_all c e (p ∷ ps) = resolve_all (if matches e p then resolve_pending c e p else c) e ps

-- `push`, and `shift` while there are more than 500.
unfoldable pub push_recent : List VenueOrderEvent → VenueOrderEvent → List VenueOrderEvent
push_recent es e = let all = es ++ e ∷ [] in drop (length all - 500) all

abbrev pub any_matches : VenueOrderEvent → List PendingConfirmation → Bool
any_matches e [] = false
any_matches e (p ∷ ps) = matches e p || any_matches e ps

abbrev pub check_known : Coordinator → VenueOrderEvent → Option KnownOrder → Coordinator
check_known c e none = c
check_known c e (some k) =
    lock_on_unsafe_event c e k.execution_group_id k.expected_size
      (or_default k.reconciled_fill_count (pos 0))

unfoldable pub handle_event : Coordinator → VenueOrderEvent → Coordinator
handle_event c e =
    let c' = resolve_all (record c { recent_events = push_recent c.recent_events e }) e c.pending in
    if any_matches e c.pending then c' else check_known c' e (known_order_for c'.known_orders e)

-- What `waitForVenueResult` does at once: it answers, or it leaves a pending order.
unfoldable pub wait_for_venue_result :
    Coordinator → PendingConfirmation → Coordinator × Option VenueConfirmationResult
wait_for_venue_result c p =
    let c' = record c {
      known_orders =
          remember_known_order c.known_orders p.result p.execution_group_id p.expected_size;
    } in
    let existing = find (λ e. matches e p) c.recent_events in
    if not c.options.enabled || not (result_needs_confirmation p.result)
    then (c, some (rest_confirmation p.result))
    else elim existing [
      | none ↦ (record c' { pending = c.pending ++ p ∷ [] }, none)
      | some e ↦ (
        c',
        some (
            confirmation_from_event e p.result p.expected_size (confirmation_band c.options)
              c.options.confirmation_status_tolerant),
      )
    ]

-- The timer of a pending order.
unfoldable pub expire : Coordinator → PendingConfirmation → Coordinator
expire c p = record c {
  pending = keep (λ q. not (nat_beq q.id p.id)) c.pending;
  resolutions = (p.id, timeout_confirmation p.result) ∷ c.resolutions;
}
