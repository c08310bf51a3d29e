-- ===== src/Execution/Verdict/Safety.antt =====
-- No exposure passes the verdict of src/execution/executor.ts unnoticed.
use pok_poly_kalshi.Prelude.{
  String, Bool, true, false, ◌≡◌, refl, Option, none, some, ◌⊎◌, inl, inr, arith, ◌&&◌, ◌||◌, not,
}
use pok_poly_kalshi.Prelude.Tests.{if◌then◌else◌, Bool-cases, or_else, is_some, or_false}
use pok_poly_kalshi.Prelude.Int.{ℤ}
use pok_poly_kalshi.Execution.Confirmations.{VenueOrderResult}
use pok_poly_kalshi.Execution.Unwind.{is_timeout_or_unknown}
use pok_poly_kalshi.Execution.Fills.{
  VerdictConfig, OrderOutcome, provably_no_exposure, partial_fill, is_exact_venue_fill,
  fill_count_mismatch, has_fill, differ,
}
use pok_poly_kalshi.Execution.Verdict.{
  LockReason, Context, verdict, initial_lock_reason, confirmation_lock_reason, live_lock_reason,
}

-- Both legs are filled for the size of the order and in step, or none is filled at all.
abbrev pub InStep : VerdictConfig → VenueOrderResult → VenueOrderResult → Type 0
InStep o k p =
    ((is_exact_venue_fill o k ≡ true)
      × (is_exact_venue_fill o p ≡ true)
      × (fill_count_mismatch o k p ≡ false))
    ⊎ ((has_fill k ≡ false) × (has_fill p ≡ false))

-- Both venues have answered, their streams report no problem, and the legs are in step.
pub record Accounted (o : VerdictConfig) (c : Context) (k p : VenueOrderResult) : Type 0 where
  pub kalshi_answered : is_timeout_or_unknown k ≡ false
  pub polymarket_answered : is_timeout_or_unknown p ≡ false
  pub streams : confirmation_lock_reason o k p c.kalshi_stream c.polymarket_stream ≡ none
  pub in_step : InStep o k p

in_step_of :
    (exact_k exact_p fill_k fill_p off : Bool)
    → (differ exact_k exact_p || ((fill_k && not exact_k) || ((fill_p && not exact_p) || off)))
      ≡ false
    → ((exact_k ≡ true) × (exact_p ≡ true) × (off ≡ false)) ⊎ ((fill_k ≡ false) × (fill_p ≡ false))
in_step_of true true fill_k fill_p off h = inl (refl, refl, ground (arith, h))
in_step_of false false fill_k fill_p off h = inr (ground (arith, h), ground (arith, h))
in_step_of true false fill_k fill_p off h = absurd (cc)
in_step_of false true fill_k fill_p off h = absurd (cc)

no_fill_of : (a b : Bool) → not (a || b) ≡ true → (a ≡ false) × (b ≡ false)
no_fill_of true b h = absurd (cc)
no_fill_of false true h = absurd (cc)
no_fill_of false false h = (refl, refl)

live_lock_reason-none :
    (o : VerdictConfig) (k p : VenueOrderResult) (risk_hedge : Bool) (hedge_failure : Option String)
    → live_lock_reason o k p risk_hedge hedge_failure ≡ none
    → (is_timeout_or_unknown k ≡ false) × (is_timeout_or_unknown p ≡ false) × InStep o k p
unfolding live_lock_reason partial_fill
live_lock_reason-none o k p risk_hedge hedge_failure h =
    let unsure = is_timeout_or_unknown k || is_timeout_or_unknown p in
    let idle = not (has_fill k || has_fill p) in
    let off = partial_fill o k p in
    elim (Bool-cases unsure) [
      | inl e ↦ absurd (ground (arith, h, e))
      | inr e ↦
          let (ek, ep) = or_false (is_timeout_or_unknown k) (is_timeout_or_unknown p) e in
          elim (Bool-cases idle) [
            | inl i ↦ (ek, ep, inr (no_fill_of (has_fill k) (has_fill p) i))
            | inr i ↦ elim (Bool-cases off) [
              | inl f ↦ absurd (ground (arith, h, e, i, f))
              | inr f ↦ (
                ek,
                ep,
                in_step_of (is_exact_venue_fill o k) (is_exact_venue_fill o p) (has_fill k)
                    (has_fill p) (fill_count_mismatch o k p) f,
              )
            ]
          ]
    ]

or_else-none : (a b : Option LockReason) → or_else a b ≡ none → (a ≡ none) × (b ≡ none)
or_else-none none b h = (refl, h)
or_else-none (some r) b h = absurd (cc)

initial-Accounted :
    (o : VerdictConfig) (c : Context) (k p : OrderOutcome)
    → initial_lock_reason o c k p ≡ none
    → (c.flattened ≡ true) ⊎ ((provably_no_exposure o k p ≡ true) ⊎ Accounted o c k.result p.result)
unfolding initial_lock_reason
initial-Accounted o c k p h = elim (Bool-cases c.flattened) [
  | inl e ↦ inl e
  | inr e ↦ elim (Bool-cases (provably_no_exposure o k p)) [
    | inl f ↦ inr (inl f)
    | inr f ↦
        let confirmation =
          confirmation_lock_reason o k.result p.result c.kalshi_stream c.polymarket_stream in
        let live = live_lock_reason o k.result p.result c.risk_hedge c.hedge_failure in
        let both : or_else confirmation live ≡ none = ground (arith, h, e, f) in
        let (streams, rest) = or_else-none confirmation live both in
        let (ek, ep, step) =
          live_lock_reason-none o k.result p.result c.risk_hedge c.hedge_failure rest in
        inr (
          inr (record {
            kalshi_answered = ek;
            polymarket_answered = ep;
            streams = streams;
            in_step = step;
          }))
  ]
]

unlocked :
    (q : Option ℤ) (initial : Option LockReason)
    → (if is_some q then none else initial) ≡ none
    → q ≡ none
    → initial ≡ none
unlocked none initial h e = h
unlocked (some x) initial h e = absurd (cc)

-- When an execution ends with neither a lock nor a quarantine, then its residual was sold off, or both
-- legs provably have no exposure, or both venues have answered without a problem and their fills are in
-- step: both for the size of the order up to the tolerance, or none at all.
pub verdict-Accounted :
    (o : VerdictConfig) (c : Context) (k p : OrderOutcome)
    → (verdict o c k p).lock ≡ none
    → (verdict o c k p).quarantine ≡ none
    → (c.flattened ≡ true) ⊎ ((provably_no_exposure o k p ≡ true) ⊎ Accounted o c k.result p.result)
unfolding verdict
verdict-Accounted o c k p lock quarantine =
    initial-Accounted o c k p
      (unlocked (verdict o c k p).quarantine (initial_lock_reason o c k p) lock quarantine)
