-- ===== src/Scanner/Loop/Guards.antt =====
-- `liveCandidateBlockReason` of src/scanner/scanner.ts: the reservations of the scanner itself, then the
-- guards that it awaits, whose answers are given.
use pok_poly_kalshi.Prelude.{
  ℕ, ◌<◌, String, true, false, ◌≡◌, refl, ◌↔◌, Option, none, some, arith, inl, inr,
}
use pok_poly_kalshi.Prelude.Tests.{if◌then◌else◌, Bool-cases, leb, text_key}
use pok_poly_kalshi.Prelude.Lists.{find, All, All-find}
use pok_poly_kalshi.Prelude.JsSet.{has}
use pok_poly_kalshi.Scanner.Candidate.{ArbCandidate}
use pok_poly_kalshi.Scanner.Loop.{
  ScannerOptions, Scanner, max_trades, reserved_for, live_leg_keys, truthy, hardlocks_off,
}

pub data LiveBlock : Type 0 where
  window_limit : ℕ → ℕ → ℕ → LiveBlock
  leg_reserved : String → LiveBlock
  guard_reason : String → LiveBlock

abbrev leg_block : Option String → Option LiveBlock
leg_block none = none
leg_block (some key) = some (leg_reserved key)

-- The part before the first `await`.
unfoldable pub reservation_block : Scanner → ArbCandidate → Option LiveBlock
reservation_block s c =
    let reserved = reserved_for s.active_live_expiries c.expiry_ms in
    if leb (max_trades s.options) reserved
    then some (window_limit c.expiry_ms reserved (max_trades s.options))
    else leg_block (find (has s.active_live_legs) (live_leg_keys c))

-- What each guard answers; one that is not there answers `none`.
pub record GuardAnswers : Type 0 where
  pub submitted_attempt : Option String
  pub exact_exposure : Option String
  pub execution_quality : Option String
  pub portfolio_floor : Option String
  pub exposure : Option String

-- `if (reason) return reason`.
abbrev pub or_reason : Option String → Option LiveBlock → Option LiveBlock
or_reason none rest = rest
or_reason (some text) rest = if truthy (some text) then some (guard_reason text) else rest

unfoldable pub guards_block : ScannerOptions → GuardAnswers → Option LiveBlock
guards_block o g = or_reason g.submitted_attempt (
    or_reason (if o.live_exact_exposure_required then g.exact_exposure else none) (
      or_reason (if o.live_execution_quality_gate_enabled then g.execution_quality else none) (
        or_reason g.portfolio_floor (
          if hardlocks_off o.live_auto_hardlocks_enabled
          then none
          else or_reason g.exposure none))))

unfoldable pub live_candidate_block_reason :
    Scanner → ArbCandidate → GuardAnswers → Option LiveBlock
live_candidate_block_reason s c g = elim (reservation_block s c) [
  | some b ↦ some b
  | none ↦ guards_block s.options g
]

or_reason-none_iff :
    (reason : Option String) (rest : Option LiveBlock)
    → (or_reason reason rest ≡ none) ↔ ((truthy reason ≡ false) × (rest ≡ none))
or_reason-none_iff none rest = ground arith
or_reason-none_iff (some text) rest = ground arith

-- The guards that apply whatever the master switch says let a candidate pass only if none of them has a
-- reason; the exposure guard is asked unless the switch is off. Nothing else blocks.
pub guards_block-none_iff :
    (o : ScannerOptions) (g : GuardAnswers)
    → (guards_block o g ≡ none) ↔ (
        (truthy g.submitted_attempt ≡ false)
        × (o.live_exact_exposure_required ≡ true → truthy g.exact_exposure ≡ false)
        × (o.live_execution_quality_gate_enabled ≡ true → truthy g.execution_quality ≡ false)
        × (truthy g.portfolio_floor ≡ false)
        × (hardlocks_off o.live_auto_hardlocks_enabled ≡ false → truthy g.exposure ≡ false))
unfolding guards_block
guards_block-none_iff o g =
    let floor =
      if hardlocks_off o.live_auto_hardlocks_enabled then none else or_reason g.exposure none in
    let quality = or_reason g.portfolio_floor floor in
    let gated = if o.live_execution_quality_gate_enabled then g.execution_quality else none in
    let exact = or_reason gated quality in
    let required = if o.live_exact_exposure_required then g.exact_exposure else none in
    ground (
      arith,
      or_reason-none_iff g.submitted_attempt (or_reason required exact),
      or_reason-none_iff required exact,
      or_reason-none_iff gated quality,
      or_reason-none_iff g.portfolio_floor floor,
      or_reason-none_iff g.exposure none,
    )

leg_block-none : (o : Option String) → leg_block o ≡ none → o ≡ none
leg_block-none none e = refl
leg_block-none (some key) e = cc

-- Free of reservations: below the limit of its window, and no key of its legs is taken.
pub reservation_block-none :
    (s : Scanner) (c : ArbCandidate)
    → reservation_block s c ≡ none
    → (reserved_for s.active_live_expiries c.expiry_ms < max_trades s.options)
      × All (λ key. has s.active_live_legs key ≡ false) (live_leg_keys c)
unfolding reservation_block
reservation_block-none s c e =
    let reserved = reserved_for s.active_live_expiries c.expiry_ms in
    elim (Bool-cases (leb (max_trades s.options) reserved)) [
      | inl full ↦ absurd (ground (arith, e, full))
      | inr free ↦ (
        ground (arith, free),
        All-find (has s.active_live_legs) (live_leg_keys c) (
            leg_block-none (find (has s.active_live_legs) (live_leg_keys c))
              (ground (arith, e, free))),
      )
    ]
