-- ===== src/Execution/ExposureCache/Fresh.antt =====
-- The guards of `LiveExposureCache` in src/execution/live-hot-path.ts from their call to their answer. Where
-- one awaits a refresh, `Wait` is what the wait ended with.
use pok_poly_kalshi.Prelude.{
  ℕ, ◌+◌, ◌≤◌, Bool, true, false, ◌≡◌, refl, sym, ap, ◌∙◌, ◌↔◌, Option, none, some, ◌∷◌, inl, inr,
  arith, ◌⊎◌,
}
use pok_poly_kalshi.Prelude.Tests.{if◌then◌else◌, Bool-cases, or_else}
use pok_poly_kalshi.Scanner.Candidate.{ArbCandidate}
use pok_poly_kalshi.Execution.ExposureCache.{
  LiveExposureCache, CacheBlock, Freshness, serve, wait, refresh, is_within, is_ready,
  hard_max_age_ms, ensure_fresh, after_wait, submitted_attempt_block, exact_exposure_block,
  exposure_block, quarantine_block, reconciliation_block,
}
use pok_poly_kalshi.Execution.ExposureCache.Guards.{or_else-none_iff}

-- The cache when the awaited refresh has settled, the clock then, and whether the refresh failed.
pub record Wait : Type 0 where
  pub cache : LiveExposureCache
  pub clock : ℕ
  pub failed : Bool

-- A guard is `const staleReason = await this.ensureFresh(now)`, its return if there is one, and what it
-- decides on the cache it has then.
abbrev pub decide_when :
    LiveExposureCache
    → Freshness
    → Wait
    → (LiveExposureCache → Option CacheBlock)
    → LiveExposureCache × Option CacheBlock
decide_when c serve w decide = (c, decide c)
decide_when c wait w decide =
    (w.cache, or_else (after_wait w.cache w.clock w.failed) (decide w.cache))

unfoldable pub with_fresh :
    LiveExposureCache
    → ℕ
    → Wait
    → (LiveExposureCache → Option CacheBlock)
    → LiveExposureCache × Option CacheBlock
with_fresh c now w decide =
    let (d, freshness) = ensure_fresh c now in decide_when d freshness w decide

unfoldable pub live_submitted_attempt_block_reason :
    LiveExposureCache → ArbCandidate → ℕ → ℕ → Wait → LiveExposureCache × Option CacheBlock
live_submitted_attempt_block_reason c candidate now max_trades w =
    with_fresh c now w (λ d. submitted_attempt_block d candidate now max_trades)

unfoldable pub live_exact_exposure_block_reason :
    LiveExposureCache → ℕ → Wait → LiveExposureCache × Option CacheBlock
live_exact_exposure_block_reason c now w = with_fresh c now w exact_exposure_block

unfoldable pub live_exposure_block_reason :
    LiveExposureCache → ArbCandidate → ℕ → ℕ → Wait → LiveExposureCache × Option CacheBlock
live_exposure_block_reason c candidate now max_trades w =
    with_fresh c now w (λ d. exposure_block d candidate now max_trades)

unfoldable pub live_reconciliation_block_reason :
    LiveExposureCache → ArbCandidate → ℕ → Wait → LiveExposureCache × Option CacheBlock
live_reconciliation_block_reason c candidate now w =
    with_fresh c now w (λ d. reconciliation_block d candidate now)

-- The cache was refreshed, or told of a signal, at most so long before.
abbrev pub Recent : LiveExposureCache → ℕ → ℕ → Type 0
Recent c now age = (t : ℕ) × (c.refreshed_at ≡ some t) × (now ≤ t + age)

-- A cache within the hard limit is let through by what it holds. Any other waits, and is let through by
-- what it holds after a refresh that did not fail and left it within the normal limit.
abbrev pub Passes : LiveExposureCache → ℕ → Wait → (LiveExposureCache → Option CacheBlock) → Type 0
Passes c now w decide =
    (Recent c now (hard_max_age_ms c) × (decide c ≡ none))
    ⊎ ((¬ Recent c now (hard_max_age_ms c))
        × (w.failed ≡ false)
        × Recent w.cache w.clock w.cache.max_age_ms
        × (decide w.cache ≡ none))

within_iff :
    (at : Option ℕ) (now age : ℕ)
    → (is_within at now age ≡ true) ↔ ((t : ℕ) × (at ≡ some t) × (now ≤ t + age))
within_iff none now age = (λ h. absurd (cc), λ (t, e, le). absurd (cc))
within_iff (some at_time) now age = (
  λ h. (at_time, refl, ground (arith, h)),
  λ (t, e, le). let same : at_time ≡ t = cc (e) in ground (arith, same, le),
)

after_wait-none_iff :
    (c : LiveExposureCache) (now : ℕ) (failed : Bool)
    → (after_wait c now failed ≡ none) ↔ ((failed ≡ false) × Recent c now c.max_age_ms)
unfolding after_wait is_ready
after_wait-none_iff c now true = (λ h. absurd (cc), λ (h, _). absurd (cc))
after_wait-none_iff c now false =
    let recent = within_iff c.refreshed_at now c.max_age_ms in
    elim (Bool-cases (is_within c.refreshed_at now c.max_age_ms)) [
      | inl e ↦ (λ h. (refl, recent.0 e), λ h. rw e refl)
      | inr e ↦ (λ h. absurd (ground (arith, h, e)), λ (_, h). absurd (cc (e, recent.1 h)))
    ]

Recent-normal_to_hard :
    (c : LiveExposureCache) (now : ℕ) → Recent c now c.max_age_ms → Recent c now (hard_max_age_ms c)
Recent-normal_to_hard c now (t, e, le) = (t, e, omega (arith, le))

ensure_fresh-cases :
    (c : LiveExposureCache) (now : ℕ)
    → (Recent c now (hard_max_age_ms c)
        × ((ensure_fresh c now ≡ (c, serve)) ⊎ (ensure_fresh c now ≡ (refresh c now, serve))))
      ⊎ ((¬ Recent c now (hard_max_age_ms c)) × (ensure_fresh c now ≡ (refresh c now, wait)))
unfolding ensure_fresh is_ready
ensure_fresh-cases c now =
    let normal = within_iff c.refreshed_at now c.max_age_ms in
    let hard = within_iff c.refreshed_at now (hard_max_age_ms c) in
    elim (Bool-cases (is_within c.refreshed_at now c.max_age_ms)) [
      | inl e ↦ inl (Recent-normal_to_hard c now (normal.0 e), inl (rw e refl))
      | inr e ↦ elim (Bool-cases (is_within c.refreshed_at now (hard_max_age_ms c))) [
        | inl soft ↦ inl (hard.0 soft, inr (rw (e, soft) refl))
        | inr old ↦ inr (λ h. absurd (cc (old, hard.1 h)), rw (e, old) refl)
      ]
    ]

served_iff :
    (c d : LiveExposureCache) (now : ℕ) (w : Wait) (decide : LiveExposureCache → Option CacheBlock)
    → ensure_fresh c now ≡ (d, serve)
    → decide d ≡ decide c
    → Recent c now (hard_max_age_ms c)
    → ((with_fresh c now w decide).1 ≡ none) ↔ Passes c now w decide
unfolding with_fresh
served_iff c d now w decide e same near = rw e (
  λ h. inl (near, sym same ∙ h),
  λ p. elim p [ inl (_, h) ↦ same ∙ h | inr (old, _, _, _) ↦ absurd (old near) ],
)

waited_iff :
    (c d : LiveExposureCache) (now : ℕ) (w : Wait) (decide : LiveExposureCache → Option CacheBlock)
    → ensure_fresh c now ≡ (d, wait)
    → ¬ Recent c now (hard_max_age_ms c)
    → ((with_fresh c now w decide).1 ≡ none) ↔ Passes c now w decide
unfolding with_fresh
waited_iff c d now w decide e old =
    let split = or_else-none_iff (after_wait w.cache w.clock w.failed) (decide w.cache) in
    let settled = after_wait-none_iff w.cache w.clock w.failed in
    rw e (
      λ h.
          let (fine, decided) = split.0 h in
          let (kept, near) = settled.0 fine in inr (old, kept, near, decided),
      λ p. elim p [
        | inl (near, _) ↦ absurd (old near)
        | inr (_, kept, near, decided) ↦ split.1 (settled.1 (kept, near), decided)
      ],
    )

-- A guard that reads nothing which a begun refresh changes passes exactly so.
with_fresh-none_iff :
    (c : LiveExposureCache) (now : ℕ) (w : Wait) (decide : LiveExposureCache → Option CacheBlock)
    → decide (record c { refreshing = true; refreshes = now ∷ c.refreshes }) ≡ decide c
    → ((with_fresh c now w decide).1 ≡ none) ↔ Passes c now w decide
unfolding refresh
with_fresh-none_iff c now w decide kept =
    let begun : LiveExposureCache = record c { refreshing = true; refreshes = now ∷ c.refreshes } in
    let same : decide (if c.refreshing then c else begun) ≡ decide c =
      elim (Bool-cases c.refreshing) [
        | inl e ↦ ap (λ (b : Bool). decide (if b then c else begun)) e
        | inr e ↦ ap (λ (b : Bool). decide (if b then c else begun)) e ∙ kept
      ] in
    elim (ensure_fresh-cases c now) [
      | inl (near, inl e) ↦ served_iff c c now w decide e refl near
      | inl (near, inr e) ↦ served_iff c (refresh c now) now w decide e same near
      | inr (old, e) ↦ waited_iff c (refresh c now) now w decide e old
    ]

-- The guards of submitted attempts, of exact exposure, of exposure and of reconciliation decide on recent
-- caches only. Each passes a candidate exactly when the cache was refreshed or told of a signal within the
-- hard limit and what it holds lets the candidate through; or it was not, the awaited refresh has not
-- failed and has left a cache within the normal limit, and what that one holds lets it through.
pub live_guards-none_iff :
    (c : LiveExposureCache) (candidate : ArbCandidate) (now max_trades : ℕ) (w : Wait)
    → (((live_submitted_attempt_block_reason c candidate now max_trades w).1 ≡ none)
        ↔ Passes c now w (λ d. submitted_attempt_block d candidate now max_trades))
      × (((live_exact_exposure_block_reason c now w).1 ≡ none)
          ↔ Passes c now w exact_exposure_block)
      × (((live_exposure_block_reason c candidate now max_trades w).1 ≡ none)
          ↔ Passes c now w (λ d. exposure_block d candidate now max_trades))
      × (((live_reconciliation_block_reason c candidate now w).1 ≡ none)
          ↔ Passes c now w (λ d. reconciliation_block d candidate now))
unfolding live_submitted_attempt_block_reason live_exact_exposure_block_reason
    live_exposure_block_reason live_reconciliation_block_reason submitted_attempt_block
    exact_exposure_block exposure_block reconciliation_block quarantine_block
live_guards-none_iff c candidate now max_trades w = (
  with_fresh-none_iff c now w (λ d. submitted_attempt_block d candidate now max_trades) refl,
  with_fresh-none_iff c now w exact_exposure_block refl,
  with_fresh-none_iff c now w (λ d. exposure_block d candidate now max_trades) refl,
  with_fresh-none_iff c now w (λ d. reconciliation_block d candidate now) refl,
)
