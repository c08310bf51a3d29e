-- ===== src/Execution/LockCache.antt =====
-- src/execution/live-hot-path.ts: the class `CachedLiveExecutionLockStore`. The store that it caches is
-- outside: its answers are arguments of `refresh_done` and `engage_done`, and the calls of it are counted
-- in `queries` and kept, newest first, in `engaged`.
pub mod Blocking
use pok_poly_kalshi.Prelude.{
  ℕ, ◌+◌, String, Bool, true, false, Option, none, some, List, [], ◌∷◌, not,
}
use pok_poly_kalshi.Prelude.Tests.{if◌then◌else◌, or_default, is_some, leb}
use pok_poly_kalshi.Prelude.Int.{ℤ, pos, negsuc}

pub data Severity : Type 0 where
  warn critical : Severity

pub record Lock : Type 0 where
  pub id : ℤ
  pub created_at : ℕ
  pub reason : String
  pub severity : Severity
  pub source_signal_id : Option ℕ
  pub execution_group_id : Option String
  pub details : List (String × String)
  pub cleared_at : Option ℕ
  pub clear_reason : Option String

pub record EngageInput : Type 0 where
  pub reason : String
  pub severity : Option Severity
  pub source_signal_id : Option ℕ
  pub execution_group_id : Option String
  pub details : Option (List (String × String))

pub record LockCache : Type 0 where
  pub max_age_ms : ℕ
  pub grace_ms : ℕ
  pub cached : Option Lock
  pub refreshed_at : Option ℕ
  pub refresh_in_flight : Bool
  pub queries : ℕ
  pub engaged : List EngageInput

-- The constructor.
abbrev pub create_cache : ℕ → ℕ → LockCache
create_cache max_age grace = record {
  max_age_ms = max_age;
  grace_ms = grace;
  cached = none;
  refreshed_at = none;
  refresh_in_flight = false;
  queries = 0;
  engaged = [];
}

unfoldable pub refresh : LockCache → LockCache
refresh c =
    if c.refresh_in_flight
    then c
    else record c { refresh_in_flight = true; queries = c.queries + 1 }

-- The store answers a refresh, or fails, which is `none`.
unfoldable pub refresh_done : LockCache → Option (Option Lock) → ℕ → LockCache
refresh_done c none now = record c { refresh_in_flight = false }
refresh_done c (some answer) now = record c {
  cached = answer;
  refreshed_at = some now;
  refresh_in_flight = false;
}

-- `now - refreshedAt <= limit`, of a time that is known.
abbrev pub is_fresh : Option ℕ → ℕ → ℕ → Bool
is_fresh none now limit = false
is_fresh (some t) now limit = leb now (t + limit)

-- The getter `status`: whether it was hydrated, since when, and whether it is stale.
unfoldable pub cache_status : LockCache → ℕ → Bool × Option ℕ × Bool
cache_status c now =
    (is_some c.refreshed_at, c.refreshed_at, not (is_fresh c.refreshed_at now c.max_age_ms))

unfoldable pub stale_lock : String → ℕ → Lock
stale_lock reason now = record {
  id = negsuc 1;
  created_at = now;
  reason = reason;
  severity = critical;
  source_signal_id = none;
  execution_group_id = none;
  details = ("hotPathCache", "live_execution_locks") ∷ [];
  cleared_at = none;
  clear_reason = none;
}

-- What is reported, by the time of the last answer of the store.
abbrev pub active_lock_at : LockCache → ℕ → Option ℕ → LockCache × Option Lock
active_lock_at c now none =
    (c, some (stale_lock "live hot-path lock cache has not been hydrated" now))
active_lock_at c now (some t) =
    if leb now (t + c.max_age_ms)
    then (c, c.cached)
    else if leb now (t + (c.max_age_ms + c.grace_ms))
    then (refresh c, c.cached)
    else (c, some (stale_lock "live hot-path lock cache is stale" now))

unfoldable pub get_active_lock : LockCache → ℕ → LockCache × Option Lock
get_active_lock c now = active_lock_at c now c.refreshed_at

unfoldable pub provisional_lock : EngageInput → ℕ → Lock
provisional_lock input now = record {
  id = negsuc 0;
  created_at = now;
  reason = input.reason;
  severity = or_default input.severity critical;
  source_signal_id = input.source_signal_id;
  execution_group_id = input.execution_group_id;
  details = or_default input.details [];
  cleared_at = none;
  clear_reason = none;
}

-- `engageLock` up to its call of the store, by the lock that there is.
abbrev pub engage_over : LockCache → EngageInput → ℕ → Option Lock → LockCache × Option Lock
engage_over c input now (some lock) = (c, some lock)
engage_over c input now none = (
  record c {
    cached = some (provisional_lock input now);
    refreshed_at = some now;
    engaged = input ∷ c.engaged;
  },
  none,
)

-- It answers the lock that there is, or calls the store.
unfoldable pub engage_lock : LockCache → EngageInput → ℕ → LockCache × Option Lock
engage_lock c input now = engage_over c input now c.cached

-- The rest of `engageLock`, when the store has kept the lock.
unfoldable pub engage_done : LockCache → Lock → ℕ → LockCache × Lock
engage_done c persisted now =
    (record c { cached = some persisted; refreshed_at = some now }, persisted)
