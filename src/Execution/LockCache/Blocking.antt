-- ===== src/Execution/LockCache/Blocking.antt =====
-- When the cached lock store of src/execution/live-hot-path.ts blocks trading.
use pok_poly_kalshi.Prelude.{
  ℕ, ◌+◌, ◌≤◌, Bool, true, false, ◌≡◌, ◌≢◌, refl, ap, ◌∙◌, ◌↔◌, Option, none, some, List, [], ◌∷◌,
  arith, inl, inr,
}
use pok_poly_kalshi.Prelude.Tests.{Bool-cases, if◌then◌else◌, leb, is_some}
use pok_poly_kalshi.Execution.LockCache.{
  Lock, EngageInput, LockCache, refresh, refresh_done, get_active_lock, engage_lock, engage_done,
  active_lock_at, engage_over,
}

-- The last answer of the store is at most the age limit and the grace period old.
abbrev pub IsServed : LockCache → ℕ → Type 0
IsServed c now = (t : ℕ) × ((c.refreshed_at ≡ some t) × (now ≤ t + (c.max_age_ms + c.grace_ms)))

served-lock :
    (c : LockCache) (now t : ℕ)
    → c.refreshed_at ≡ some t
    → now ≤ t + (c.max_age_ms + c.grace_ms)
    → (get_active_lock c now).1 ≡ c.cached
unfolding get_active_lock
served-lock c now t e le = ground arith

unserved_at :
    (c : LockCache) (now : ℕ) (at_time : Option ℕ)
    → c.refreshed_at ≡ at_time
    → (active_lock_at c now at_time).1 ≡ none
    → IsServed c now × (c.cached ≡ none)
unserved_at c now none m e = cc
unserved_at c now (some t) m e = elim (Bool-cases (leb now (t + (c.max_age_ms + c.grace_ms)))) [
  | inl le ↦ ((t, (m, ground (arith, le))), ground (arith, e))
  | inr gt ↦ absurd (ground (arith, e, gt))
]

unserved-lock :
    (c : LockCache) (now : ℕ)
    → (get_active_lock c now).1 ≡ none
    → IsServed c now × (c.cached ≡ none)
unfolding get_active_lock
unserved-lock c now e = unserved_at c now c.refreshed_at refl e

asked-cached :
    (c : LockCache) (now : ℕ) (at_time : Option ℕ)
    → (active_lock_at c now at_time).0.cached ≡ c.cached
unfolding refresh
asked-cached c now none = refl
asked-cached c now (some t) = ground arith

engage_over-locked :
    (c : LockCache) (input : EngageInput) (now : ℕ) (o : Option Lock)
    → c.cached ≡ o
    → is_some (engage_over c input now o).0.cached ≡ true
engage_over-locked c input now none m = refl
engage_over-locked c input now (some lock) m = ap is_some m

-- The store reports that nothing blocks exactly when it was told so: the last answer was no lock, and it
-- is at most the age limit and the grace period old. Before the first answer, and after that time, it
-- always reports a lock.
pub get_active_lock-none_iff :
    (c : LockCache) (now : ℕ)
    → ((get_active_lock c now).1 ≡ none) ↔ (IsServed c now × (c.cached ≡ none))
get_active_lock-none_iff c now =
    (unserved-lock c now, λ h. served-lock c now h.0.0 h.0.1.0 h.0.1.1 ∙ h.1)

-- What may happen to the store after a lock was engaged, but for the answer of a refresh.
pub data Event : Type 0 where
  refreshed refresh_failed : Event
  asked : ℕ → Event
  engaging : EngageInput → ℕ → Event
  persisted : Lock → ℕ → Event

abbrev pub handle : LockCache → Event → LockCache
handle c refreshed = refresh c
handle c refresh_failed = refresh_done c none 0
handle c (asked now) = (get_active_lock c now).0
handle c (engaging input now) = (engage_lock c input now).0
handle c (persisted lock now) = (engage_done c lock now).0

abbrev pub handle_all : LockCache → List Event → LockCache
handle_all c [] = c
handle_all c (e ∷ es) = handle_all (handle c e) es

handle-locked :
    (c : LockCache) (e : Event) → is_some c.cached ≡ true → is_some (handle c e).cached ≡ true
unfolding refresh refresh_done get_active_lock engage_lock engage_done
handle-locked c refreshed h = ground arith
handle-locked c refresh_failed h = h
handle-locked c (asked now) h = ap is_some (asked-cached c now c.refreshed_at) ∙ h
handle-locked c (engaging input now) h = engage_over-locked c input now c.cached refl
handle-locked c (persisted lock now) h = refl

handle_all-locked :
    (c : LockCache) (es : List Event)
    → is_some c.cached ≡ true
    → is_some (handle_all c es).cached ≡ true
handle_all-locked c [] h = h
handle_all-locked c (e ∷ es) h = handle_all-locked (handle c e) es (handle-locked c e h)

engage-locked :
    (c : LockCache) (input : EngageInput) (t : ℕ) → is_some (engage_lock c input t).0.cached ≡ true
unfolding engage_lock
engage-locked c input t = engage_over-locked c input t c.cached refl

-- A lock blocks from the moment it is engaged, before the store has kept it: whatever happens then but
-- the answer of a refresh, also a failed refresh, at every time some lock is reported.
pub engaged-blocks :
    (c : LockCache) (input : EngageInput) (t : ℕ) (es : List Event) (now : ℕ)
    → (get_active_lock (handle_all (engage_lock c input t).0 es) now).1 ≢ none
engaged-blocks c input t es now e =
    let d = handle_all (engage_lock c input t).0 es in
    let locked = handle_all-locked (engage_lock c input t).0 es (engage-locked c input t) in
    let (_, free) = (get_active_lock-none_iff d now).0 e in absurd (cc (ap is_some free, locked))

-- The store after a refresh began, and a lock was then engaged and kept.
abbrev pub engaged_meanwhile : LockCache → EngageInput → Lock → ℕ → ℕ → LockCache
engaged_meanwhile c input lock engaged_at kept_at =
    (engage_done (engage_lock (refresh c) input engaged_at).0 lock kept_at).0

abbrev asked_store : LockCache → LockCache
asked_store c = record c { refresh_in_flight = true; queries = c.queries + 1 }

abbrev kept_meanwhile : LockCache → EngageInput → Lock → ℕ → LockCache
kept_meanwhile c input lock kept_at = record c {
  cached = some lock;
  refreshed_at = some kept_at;
  refresh_in_flight = true;
  queries = c.queries + 1;
  engaged = input ∷ c.engaged;
}

refresh-idle : (c : LockCache) → c.refresh_in_flight ≡ false → refresh c ≡ asked_store c
unfolding refresh
refresh-idle c idle = ap (λ (b : Bool). if b then c else asked_store c) idle

engaged_meanwhile-eq :
    (c : LockCache) (input : EngageInput) (lock : Lock) (engaged_at kept_at : ℕ)
    → c.refresh_in_flight ≡ false
    → c.cached ≡ none
    → engaged_meanwhile c input lock engaged_at kept_at ≡ kept_meanwhile c input lock kept_at
unfolding engage_lock engage_done
engaged_meanwhile-eq c input lock engaged_at kept_at idle free =
    let done : LockCache → LockCache = λ d. (engage_done d lock kept_at).0 in
    ap (λ (d : LockCache). done (engage_lock d input engaged_at).0) (refresh-idle c idle)
    ∙ ap (λ (o : Option Lock). done (engage_over (asked_store c) input engaged_at o).0) free

unlocked :
    (c : LockCache) (t now : ℕ)
    → now ≤ t + (c.max_age_ms + c.grace_ms)
    → (get_active_lock (refresh_done c (some none) t) now).1 ≡ none
unfolding refresh_done
unlocked c t now le = served-lock (refresh_done c (some none) t) now t refl le

-- While no lock is known and no refresh is on its way, a refresh asks the store; before its answer comes
-- a lock is engaged and kept. Until the age limit and the grace period have passed, the lock is reported.
-- If the answer then is that there is no lock, it takes the lock away: for the age limit and the grace
-- period after it nothing is reported, though nothing has cleared the lock.
pub late_refresh-unlocks :
    (c : LockCache) (input : EngageInput) (lock : Lock) (engaged_at kept_at soon t now : ℕ)
    → c.refresh_in_flight ≡ false
    → c.cached ≡ none
    → soon ≤ kept_at + (c.max_age_ms + c.grace_ms)
    → now ≤ t + (c.max_age_ms + c.grace_ms)
    → let d = engaged_meanwhile c input lock engaged_at kept_at in
      (d.refresh_in_flight ≡ true)
      × (d.queries ≡ c.queries + 1)
      × (d.engaged ≡ input ∷ c.engaged)
      × ((get_active_lock d soon).1 ≡ some lock)
      × ((get_active_lock (refresh_done d (some none) t) now).1 ≡ none)
late_refresh-unlocks c input lock engaged_at kept_at soon t now idle free le le_late =
    rw (engaged_meanwhile-eq c input lock engaged_at kept_at idle free) (
      refl,
      refl,
      refl,
      served-lock (kept_meanwhile c input lock kept_at) soon kept_at refl le,
      unlocked (kept_meanwhile c input lock kept_at) t now le_late,
    )
