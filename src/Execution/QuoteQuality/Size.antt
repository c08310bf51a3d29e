-- ===== src/Execution/QuoteQuality/Size.antt =====
-- src/execution/quote-quality.ts: `selectExecutableSize`. A size is a number of whole shares; the cash is
-- finite when it is there.
use mathlib.Core.Path.{subst}
use pok_poly_kalshi.Prelude.{
  ℕ, zero, suc, ◌+◌, ◌-◌, ◌*◌, ◌/◌, ◌≤◌, ◌<◌, max, Bool, true, false, ◌≡◌, refl, Option, none, some,
  ◌⊎◌, inl, inr, arith, ◌&&◌, not, ◌||◌,
}
use pok_poly_kalshi.Prelude.Tests.{if◌then◌else◌, Bool-cases, Option-cases, leb, ltb}
use pok_poly_kalshi.Prelude.Int.{ℤ, pos, negsuc, ◌+ℤ◌, ◌-ℤ◌, scale, ltb_ℤ, max_ℤ}
use pok_poly_kalshi.Scanner.Candidate.{ArbCandidate}
use pok_poly_kalshi.Execution.LegQuote.{QuoteConfig, LiveQuoteBooks, QuoteSnapshotLeg}
use pok_poly_kalshi.Execution.QuoteQuality.{LiveQuoteEvaluation, evaluate_live_quote_quality}

-- `Math.floor` of an amount, nought when that is negative.
abbrev whole : ℤ → ℕ
whole (pos n) = n / 1_000_000_000
whole (negsuc n) = 0

abbrev pub shares : ℕ → ℤ
shares size = pos (1_000_000_000 * size)

abbrev pub min_size : QuoteConfig → ℕ
min_size o = max 1 (whole o.min_order_size)

abbrev pub max_size : QuoteConfig → ℕ
max_size o = max (min_size o) (whole o.max_order_size)

abbrev slips : QuoteConfig → Option ℤ → Option ℤ → Bool
slips o none worst = true
slips o (some top) none = true
slips o (some top) (some worst) =
    ltb_ℤ (scale 100 (max_ℤ (pos 0) o.dynamic_sizing_max_kalshi_slippage_cents) +ℤ pos 1)
      (scale 100 (worst -ℤ top))

abbrev kalshi_slips : QuoteConfig → Option QuoteSnapshotLeg → Bool
kalshi_slips o none = true
kalshi_slips o (some s) = slips o s.top_ask s.worst_ask

abbrev pub over_cash : QuoteConfig → ℕ → Option ℤ → Option ℤ → Bool
over_cash o size none limit = false
over_cash o size (some cash) none = false
over_cash o size (some cash) (some limit) =
    ltb_ℤ (cash +ℤ pos 1) (scale size limit +ℤ o.collateral_buffer_dollars)

-- The tests of the loop on an evaluation for a size.
unfoldable pub clears : QuoteConfig → Option ℤ → ℕ → LiveQuoteEvaluation → Bool
clears o cash size e =
    e.ok
    && (not (kalshi_slips o e.snapshot.kalshi_snapshot)
        && not (over_cash o size cash e.kalshi_max_buy_price))

-- The loop: the sizes from `low + (steps - 1)` down to `low`.
unfoldable pub largest_from : (ℕ → Bool) → ℕ → ℕ → Option ℕ
largest_from passes low zero = none
largest_from passes low (suc steps) =
    if passes (low + steps) then some (low + steps) else largest_from passes low steps

abbrev pub size_clears : ArbCandidate → LiveQuoteBooks → QuoteConfig → Option ℤ → ℕ → ℤ → ℕ → Bool
size_clears candidate books o cash now cross size =
    clears o cash size (evaluate_live_quote_quality candidate books o now cross (shares size))

abbrev picked : ℤ → Option ℕ → ℤ
picked standing none = standing
picked standing (some size) = shares size

unfoldable pub select_executable_size :
    ArbCandidate → LiveQuoteBooks → QuoteConfig → Option ℤ → ℕ → ℤ → ℤ
select_executable_size candidate books o cash now cross =
    if not o.dynamic_sizing_enabled || leb (max_size o) (min_size o)
    then o.order_size
    else picked o.order_size (
        largest_from (size_clears candidate books o cash now cross) (min_size o)
          (suc (max_size o) - min_size o))

-- The size is the largest of the band that passes, or none passes.
abbrev pub Largest : (ℕ → Bool) → ℕ → ℕ → Option ℕ → Type 0
Largest passes low steps none = (m : ℕ) → low ≤ m → m < low + steps → passes m ≡ false
Largest passes low steps (some n) =
    (low ≤ n)
    × (n < low + steps)
    × (passes n ≡ true)
    × ((m : ℕ) → n < m → m < low + steps → passes m ≡ false)

equal-or-less : (m n : ℕ) → m < suc n → (m ≡ n) ⊎ (m < n)
equal-or-less m n h = elim (Bool-cases (ltb m n)) [
  | inl e ↦ inr (ground (arith, e))
  | inr e ↦ inl (ground (arith, e, h))
]

fails-up_to :
    (passes : ℕ → Bool) (low steps m : ℕ)
    → passes (low + steps) ≡ false
    → (m < low + steps → passes m ≡ false)
    → m < low + suc steps
    → passes m ≡ false
fails-up_to passes low steps m top below h =
    elim (equal-or-less m (low + steps) (omega (arith, h))) [
      | inl e ↦ rw e top
      | inr less ↦ below less
    ]

Largest-step :
    (passes : ℕ → Bool) (low steps : ℕ) (found : Option ℕ)
    → passes (low + steps) ≡ false
    → Largest passes low steps found
    → Largest passes low (suc steps) found
Largest-step passes low steps none top h =
    λ m above below. fails-up_to passes low steps m top (h m above) below
Largest-step passes low steps (some n) top (from, upto, passed, rest) = (
  from,
  omega (arith, upto),
  passed,
  λ m above below. fails-up_to passes low steps m top (rest m above) below,
)

largest_from-Largest :
    (passes : ℕ → Bool) (low steps : ℕ) → Largest passes low steps (largest_from passes low steps)
unfolding largest_from
largest_from-Largest passes low zero = λ m above below. absurd (omega (arith, above, below))
largest_from-Largest passes low (suc steps) = elim (Bool-cases (passes (low + steps))) [
  | inl e ↦
      rw e (omega arith, omega arith, e, λ m above below. absurd (omega (arith, above, below)))
  | inr e ↦ rw e (
      Largest-step passes low steps (largest_from passes low steps) e
        (largest_from-Largest passes low steps))
]

-- With dynamic sizing on over a band of sizes, the size picked is the largest of the band for which the
-- gate admits the candidate, the Kalshi ask slips no further than allowed and the order with its buffer
-- fits the cash; when there is none, it is the fixed size.
pub select-largest :
    (candidate : ArbCandidate) (books : LiveQuoteBooks) (o : QuoteConfig) (cash : Option ℤ)
    (now : ℕ) (cross : ℤ)
    → o.dynamic_sizing_enabled ≡ true
    → min_size o < max_size o
    → let passes = size_clears candidate books o cash now cross in
      let size = select_executable_size candidate books o cash now cross in
      ((n : ℕ) × (min_size o ≤ n)
        × (n ≤ max_size o)
        × (passes n ≡ true)
        × ((m : ℕ) → n < m → m ≤ max_size o → passes m ≡ false)
        × (size ≡ shares n))
      ⊎ (((m : ℕ) → min_size o ≤ m → m ≤ max_size o → passes m ≡ false) × (size ≡ o.order_size))
unfolding select_executable_size
select-largest candidate books o cash now cross on band =
    let passes = size_clears candidate books o cash now cross in
    let low = min_size o in
    let steps = suc (max_size o) - low in
    let off : (not o.dynamic_sizing_enabled || leb (max_size o) low) ≡ false =
      ground (arith, on, band) in
    let spec = largest_from-Largest passes low steps in
    elim (Option-cases (largest_from passes low steps)) [
      | inl e ↦
          let none_passes = subst (Largest passes low steps) e spec in
          inr (λ m above below. none_passes m above (omega (arith, below, band)), rw (off, e) refl)
      | inr (n, e) ↦
          let (from, upto, passed, above_fail) = subst (Largest passes low steps) e spec in
          inl (
            n,
            from,
            omega (arith, upto, band),
            passed,
            λ m above below. above_fail m above (omega (arith, below, band)),
            rw (off, e) refl,
          )
    ]
