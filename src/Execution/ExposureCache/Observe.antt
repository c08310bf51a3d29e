-- ===== src/Execution/ExposureCache/Observe.antt =====
-- What `observeSignal` of src/execution/live-hot-path.ts makes the guards of the cache see.
use mathlib.Core.Path.{subst}
use pok_poly_kalshi.Prelude.{
  ℕ, suc, ◌+◌, ◌≤◌, Bool, true, false, ◌≡◌, refl, sym, ap, ◌∙◌, ◌↔◌, none, [], ◌∷◌, inl, inr, arith,
  ◌&&◌, not,
}
use pok_poly_kalshi.Prelude.Tests.{Bool-cases, leb, ltb, nat_beq, nat_key, ◌==◌, and_true, is_some}
use pok_poly_kalshi.Prelude.Lists.{length, keep, All}
use pok_poly_kalshi.Prelude.JsMap.{JsMap, set, delete, values}
use pok_poly_kalshi.Scanner.Candidate.{ArbCandidate}
use pok_poly_kalshi.Execution.Exposure.{
  DashboardSignal, quarantine_status, has_live_exposure, is_submitted_live_attempt,
  risk_quarantined,
}
use pok_poly_kalshi.Execution.ExposureCache.{
  LiveExposureCache, observe_signal, replace, observe_attempt, ensure_fresh, serve, is_ready,
  is_exposed, exposed, over_cap, exposure_block, submitted_attempt_block, attempts_in_window,
  candidate_leg_keys,
}
use pok_poly_kalshi.Execution.ExposureCache.Guards.{KeysFree, exposure_block-none_iff}

-- The cache without what it has of the signal with this number.
abbrev pub without : LiveExposureCache → ℕ → LiveExposureCache
without c id = record c {
  signals = keep (λ t. not (t.id == id)) c.signals;
  submitted_attempts = delete c.submitted_attempts id;
}

-- A key that was deleted comes last when it is set again.
count_set-delete :
    (p : ℕ → Bool) (m : JsMap ℕ ℕ) (k v : ℕ)
    → p v ≡ true
    → length (keep p (values (set (delete m k) k v))) ≡ suc (length (keep p (values (delete m k))))
unfolding set delete
count_set-delete p [] k v e = rw e refl
count_set-delete p ((j, w) ∷ m) k v e = elim (Bool-cases (nat_beq j k)) [
  | inl h ↦ rw h (count_set-delete p m k v e)
  | inr h ↦ elim (Bool-cases (p w)) [
    | inl kept ↦ rw (h, h, kept) (ap suc (count_set-delete p m k v e))
    | inr dropped ↦ rw (h, h, dropped) (count_set-delete p m k v e)
  ]
]

-- A signal that counts comes before those that the list has of the others.
observed-exposed :
    (c : LiveExposureCache) (t : ℕ) (s : DashboardSignal) (candidate : ArbCandidate) (now : ℕ)
    → has_live_exposure s ≡ true
    → is_exposed candidate now s ≡ true
    → exposed (observe_signal c t s) candidate now ≡ s ∷ exposed (without c s.id) candidate now
unfolding observe_signal replace
observed-exposed c t s candidate now live counts = rw (live, counts) refl

observed-counted :
    (c : LiveExposureCache) (t : ℕ) (s : DashboardSignal) (candidate : ArbCandidate) (now : ℕ)
    → is_submitted_live_attempt s ≡ true
    → is_exposed candidate now s ≡ true
    → attempts_in_window (observe_signal c t s) candidate now
      ≡ suc (attempts_in_window (without c s.id) candidate now)
unfolding observe_signal observe_attempt is_exposed
observed-counted c t s candidate now submitted counts =
    let p : ℕ → Bool = λ expiry. nat_beq expiry candidate.expiry_ms && ltb now expiry in
    let free = not (is_some s.reconciliation_resolved_at) in
    let unquarantined = not (risk_quarantined s) in
    let inner = (and_true unquarantined (free && p s.expiry_ms) counts).1 in
    let hit = (and_true free (p s.expiry_ms) inner).1 in
    rw submitted (count_set-delete p c.submitted_attempts s.id s.expiry_ms hit)

unquarantined :
    (candidate : ArbCandidate) (now : ℕ) (s : DashboardSignal)
    → is_exposed candidate now s ≡ true
    → risk_quarantined s ≡ false
unfolding is_exposed
unquarantined candidate now s counts = ground (arith, counts)

-- A signal that is not quarantined adds nothing to the quarantined exposure.
observed-quarantined :
    (c : LiveExposureCache) (t : ℕ) (s : DashboardSignal)
    → has_live_exposure s ≡ true
    → risk_quarantined s ≡ false
    → let d = observe_signal c t s in
      let others = without c s.id in
      over_cap d.max_unresolved_exposure (quarantine_status d.signals).0
      ≡ over_cap others.max_unresolved_exposure (quarantine_status others.signals).0
unfolding observe_signal replace quarantine_status
observed-quarantined c t s live apart = rw (live, apart, live) refl

leb-suc : (a b : ℕ) → leb (suc a) (suc b) ≡ leb a b
leb-suc a b = ground arith

-- Once a submitted attempt with open exposure was observed, its window has one trade less. Under a limit
-- of one trade or more, the guard of submitted attempts says what it says of the other signals under the
-- limit less one. The guard of exposure lets a candidate of the window through exactly when it does so
-- for the other signals under the limit less one, and the candidate shares no leg with the attempt.
pub observe_signal-blocks :
    (c : LiveExposureCache) (t : ℕ) (s : DashboardSignal) (candidate : ArbCandidate)
    (now less_one : ℕ)
    → has_live_exposure s ≡ true
    → is_submitted_live_attempt s ≡ true
    → is_exposed candidate now s ≡ true
    → let d = observe_signal c t s in
      let others = without c s.id in
      (submitted_attempt_block d candidate now (suc less_one)
        ≡ submitted_attempt_block others candidate now less_one)
      × ((exposure_block d candidate now (suc less_one) ≡ none) ↔ (
          (exposure_block others candidate now less_one ≡ none)
          × KeysFree (candidate_leg_keys candidate) s))
unfolding submitted_attempt_block
observe_signal-blocks c t s candidate now less_one live submitted counts =
    let d = observe_signal c t s in
    let others = without c s.id in
    let first = observed-exposed c t s candidate now live counts in
    let counted = observed-counted c t s candidate now submitted counts in
    let apart = unquarantined candidate now s counts in
    let quarantine = observed-quarantined c t s live apart in
    let keys = candidate_leg_keys candidate in
    let block_d = exposure_block-none_iff d candidate now (suc less_one) in
    let block_others = exposure_block-none_iff others candidate now less_one in
    (
      rw (counted, leb-suc less_one (attempts_in_window others candidate now)) refl,
      (
        λ e.
            let (capped, below, free) = block_d.0 e in
            let (key_free, rest) = subst (All (KeysFree keys)) first free in
            (
              block_others.1 (sym quarantine ∙ capped, omega (arith, below, ap length first), rest),
              key_free,
            ),
        λ (e, key_free).
            let (capped, below, free) = block_others.0 e in
            block_d.1 (
              quarantine ∙ capped,
              omega (arith, below, ap length first),
              subst (All (KeysFree keys)) (sym first) (key_free, free),
            ),
      ),
    )

-- An observed signal makes the whole cache count as fresh, though nothing was read: whatever the stored
-- signals have become, the guards serve what is cached, and no refresh begins.
pub observe_signal-serves :
    (c : LiveExposureCache) (t now : ℕ) (s : DashboardSignal)
    → now ≤ t + c.max_age_ms
    → let d = observe_signal c t s in
      (ensure_fresh d now ≡ (d, serve)) × (d.loaded_at ≡ c.loaded_at) × (d.refreshes ≡ c.refreshes)
unfolding observe_signal ensure_fresh is_ready
observe_signal-serves c t now s h = (ground (arith, h), refl, refl)
