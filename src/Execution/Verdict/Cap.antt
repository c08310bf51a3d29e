-- ===== src/Execution/Verdict/Cap.antt =====
-- What the quarantine of src/execution/executor.ts has checked.
use mathlib.Core.Path.{subst}
use pok_poly_kalshi.Prelude.{true, false, ◌≡◌, refl, Option, none, some, inl, inr, arith, ◌||◌, not}
use pok_poly_kalshi.Prelude.Tests.{if◌then◌else◌, Bool-cases, or_false, not-false}
use pok_poly_kalshi.Prelude.Int.{ℤ, pos, ◌+ℤ◌, ◌≤ℤ◌, ltb_ℤ}
use pok_poly_kalshi.Execution.Fills.{VerdictConfig, OrderOutcome, provably_no_exposure}
use pok_poly_kalshi.Execution.Verdict.{
  LockReason, Context, verdict, initial_lock_reason, risk_quarantine_decision,
  is_risk_quarantinable, open_order_risk, within_cap, unresolved_exposure,
}

-- The exposure of the two results is known and fits under the cap with what is quarantined already.
pub record Capped (o : VerdictConfig) (c : Context) (k p : OrderOutcome) (exposure : ℤ)
    : Type 0 where
  pub mode : o.quarantine_mode ≡ true
  pub kalshi_closed : open_order_risk k ≡ false
  pub polymarket_closed : open_order_risk p ≡ false
  pub existing : ℤ
  pub existing_eq : c.existing_exposure ≡ some existing
  pub exposure_eq : unresolved_exposure k.result p.result c.unwound_shares ≡ some exposure
  pub within : (existing +ℤ exposure) ≤ℤ (o.max_unresolved_exposure_dollars +ℤ pos 1)

within_cap-some :
    (o : VerdictConfig) (existing exposure : Option ℤ) (x : ℤ)
    → within_cap o existing exposure ≡ some x
    → (e : ℤ) × (existing ≡ some e)
      × (exposure ≡ some x)
      × ((e +ℤ x) ≤ℤ (o.max_unresolved_exposure_dollars +ℤ pos 1))
within_cap-some o none exposure x h = absurd (cc)
within_cap-some o (some e) none x h = absurd (cc)
within_cap-some o (some e) (some y) x h =
    elim (Bool-cases (ltb_ℤ (o.max_unresolved_exposure_dollars +ℤ pos 1) (e +ℤ y))) [
      | inl over ↦ absurd (ground (arith, h, over))
      | inr fits ↦
          let same : some y ≡ some x = subst (λ b. (if b then none else some y) ≡ some x) fits h in
          let bound : (e +ℤ y) ≤ℤ (o.max_unresolved_exposure_dollars +ℤ pos 1) =
            ground (arith, fits) in
          (
            e,
            refl,
            same,
            subst (λ z. (e +ℤ z) ≤ℤ (o.max_unresolved_exposure_dollars +ℤ pos 1)) (cc) bound,
          )
    ]

decision-Capped :
    (o : VerdictConfig) (c : Context) (reason : Option LockReason) (k p : OrderOutcome) (x : ℤ)
    → risk_quarantine_decision o reason k p c.unwound_shares c.existing_exposure ≡ some x
    → Capped o c k p x
unfolding risk_quarantine_decision
decision-Capped o c none k p x h = absurd (cc)
decision-Capped o c (some reason) k p x h =
    let off = not o.quarantine_mode || not (is_risk_quarantinable reason) in
    let risk = open_order_risk k || open_order_risk p in
    elim (Bool-cases off) [
      | inl e ↦ absurd (ground (arith, h, e))
      | inr e ↦ elim (Bool-cases risk) [
        | inl r ↦ absurd (ground (arith, h, e, r))
        | inr r ↦
            let exposure = unresolved_exposure k.result p.result c.unwound_shares in
            let decided : within_cap o c.existing_exposure exposure ≡ some x =
              subst (λ b. (if b then none else within_cap o c.existing_exposure exposure) ≡ some x)
                r
                (subst
                  (λ b.
                    (if b
                      then none
                      else if risk
                      then none
                      else within_cap o c.existing_exposure exposure)
                    ≡ some x)
                  e h) in
            let (existing, e_eq, x_eq, fits) =
              within_cap-some o c.existing_exposure exposure x decided in
            let (mode, quarantinable) =
              or_false (not o.quarantine_mode) (not (is_risk_quarantinable reason)) e in
            let (ek, ep) = or_false (open_order_risk k) (open_order_risk p) r in
            record {
              mode = not-false o.quarantine_mode mode;
              kalshi_closed = ek;
              polymarket_closed = ep;
              existing = existing;
              existing_eq = e_eq;
              exposure_eq = x_eq;
              within = fits;
            }
      ]
    ]

-- Exposure is quarantined in place of a lock only in quarantine mode, when no order may still be open,
-- when it is known, and when together with the quarantined exposure of the store it is within the cap,
-- up to a billionth. Then nothing is locked.
pub verdict-Capped :
    (o : VerdictConfig) (c : Context) (k p : OrderOutcome) (x : ℤ)
    → (verdict o c k p).quarantine ≡ some x
    → Capped o c k p x × ((verdict o c k p).lock ≡ none)
unfolding verdict
verdict-Capped o c k p x h = elim (Bool-cases (c.flattened || provably_no_exposure o k p)) [
  | inl e ↦ absurd (ground (arith, h, e))
  | inr e ↦ (
    decision-Capped o c (initial_lock_reason o c k p) k p x (
        subst
          (λ b.
            (if b
              then none
              else risk_quarantine_decision o (initial_lock_reason o c k p) k p c.unwound_shares
                  c.existing_exposure)
            ≡ some x)
          e h),
    rw h refl,
  )
]
