-- ===== src/Execution/Confirmations/Lock.antt =====
-- When an event of a private stream engages the safety lock, src/execution/venue-confirmations.ts.
use pok_poly_kalshi.Prelude.{
  String, Bool, true, false, ◌≡◌, ◌↔◌, Option, none, some, ◌∷◌, arith, ◌⊎◌, inl, inr,
}
use pok_poly_kalshi.Prelude.Tests.{or_default, Bool-cases}
use pok_poly_kalshi.Prelude.Int.{ℤ, pos, ◌+ℤ◌, ◌≤ℤ◌, ◌<ℤ◌, max_ℤ, +ℤ_parts, -ℤ_parts}
use pok_poly_kalshi.Execution.Confirmations.{
  VenueOrderEvent, epsilon, is_failure_status, confirmation_status, confirmed,
}
use pok_poly_kalshi.Execution.Confirmations.Classify.{IsInBand, confirmation_status_iff}
use pok_poly_kalshi.Execution.Confirmations.Coordinator.{
  Options, Coordinator, confirmation_band, is_over_accounted, is_filled_in_band, is_unsafe,
  lock_on_unsafe_event, hardlocks_off,
}

-- With flat misses tolerated an event is unsafe exactly when it moved shares, and either reports a
-- failure or a fill that is neither covered by the accounted fill and the band nor about the size.
pub is_unsafe_iff :
    (o : Options) (status : String) (fill expected accounted : ℤ)
    → o.flat_miss_non_blocking ≡ true
    → let band = max_ℤ (pos 0) o.overfill_tolerance_shares in
      (is_unsafe o status fill expected accounted ≡ true) ↔ (
        (pos 0 <ℤ fill)
        × ((is_failure_status status ≡ true)
            ⊎ ((accounted ≤ℤ pos 0) ⊎ (accounted +ℤ band +ℤ epsilon <ℤ fill))
              × ((fill +ℤ epsilon <ℤ expected) ⊎ (expected +ℤ band +ℤ epsilon <ℤ fill))))
unfolding is_unsafe is_over_accounted is_filled_in_band
is_unsafe_iff o status fill expected accounted flat =
    ground (arith, +ℤ_parts fill epsilon, -ℤ_parts expected epsilon)

band-le : (o : Options) → confirmation_band o ≤ℤ max_ℤ (pos 0) o.overfill_tolerance_shares
unfolding confirmation_band
band-le o = ground arith

not_both :
    (o : Options) (status : String) (n expected accounted : ℤ)
    → let band = max_ℤ (pos 0) o.overfill_tolerance_shares in
      (is_failure_status status ≡ true)
        ⊎ ((accounted ≤ℤ pos 0) ⊎ (accounted +ℤ band +ℤ epsilon <ℤ n))
          × ((n +ℤ epsilon <ℤ expected) ⊎ (expected +ℤ band +ℤ epsilon <ℤ n))
      → is_failure_status status ≡ false
      → IsInBand (some n) expected (confirmation_band o)
      → ⊥
not_both o status n expected accounted (inl f) sound inside = cc
not_both o status n expected accounted (inr (_, inl low)) sound inside = omega (arith, inside.0)
not_both o status n expected accounted (inr (_, inr high)) sound inside =
    let band = max_ℤ (pos 0) o.overfill_tolerance_shares in
    let narrow = max_ℤ (pos 0) (confirmation_band o) in
    ground (
      arith,
      band-le o,
      +ℤ_parts expected band,
      +ℤ_parts expected narrow,
      +ℤ_parts (expected +ℤ band) epsilon,
      +ℤ_parts (expected +ℤ narrow) epsilon,
    )

-- The two judgements of one event agree: where flat misses are tolerated, an event that confirms an
-- order never engages the lock for it, whatever fill was accounted before.
pub confirmed-safe :
    (o : Options) (status : String) (fill : Option ℤ) (expected accounted : ℤ) (tolerant : Bool)
    → o.flat_miss_non_blocking ≡ true
    → confirmation_status status fill expected (confirmation_band o) tolerant ≡ confirmed
    → is_unsafe o status (or_default fill (pos 0)) expected accounted ≡ false
confirmed-safe o status none expected accounted tolerant flat e =
    let unsafe = is_unsafe_iff o status (pos 0) expected accounted flat in
    elim (Bool-cases (is_unsafe o status (pos 0) expected accounted)) [
      | inl u ↦ absurd (omega (arith, (unsafe.0 u).0))
      | inr s ↦ s
    ]
confirmed-safe o status (some n) expected accounted tolerant flat e =
    let unsafe = is_unsafe_iff o status n expected accounted flat in
    let (sound, inside, shown) =
      (confirmation_status_iff status (some n) expected (confirmation_band o) tolerant).0.0 e in
    elim (Bool-cases (is_unsafe o status n expected accounted)) [
      | inl u ↦ absurd (not_both o status n expected accounted (unsafe.0 u).1 sound inside)
      | inr s ↦ s
    ]

-- Without failure, and with a fill that the records account for, nothing is locked; nor is anything
-- when the operator has switched the locks off. Otherwise an unsafe event adds exactly one lock, which
-- names the event and the order, and nothing else of the coordinator changes.
pub lock_effect :
    (c : Coordinator) (e : VenueOrderEvent) (group : String) (expected accounted : ℤ)
    → let fill = or_default e.fill_count (pos 0) in
      let d = lock_on_unsafe_event c e group expected accounted in
      ((is_unsafe c.options e.status fill expected accounted ≡ true)
          × (hardlocks_off c.options.auto_hardlocks_enabled ≡ false)
        → d ≡ record c {
          locks =
              record { event = e; execution_group_id = group; expected_size = expected } ∷ c.locks;
        })
      × ((is_unsafe c.options e.status fill expected accounted ≡ false)
            ⊎ (hardlocks_off c.options.auto_hardlocks_enabled ≡ true)
          → d ≡ c)
unfolding lock_on_unsafe_event
lock_effect c e group expected accounted = (λ h. ground arith, λ h. ground arith)
