-- ===== src/Scanner/Scheduler.antt =====
-- src/scanner/scheduler.ts: the coalesced scan scheduler and the scan heartbeat. A scan is a promise:
-- `run` ends with the call of the target, and `finish` is the `finally` that follows when the promise
-- settles, whether the scan failed or not. The follow-up that `queueMicrotask` starts is in `queued`.
pub mod Coalesce
use pok_poly_kalshi.Prelude.{
  ℕ, suc, ◌+◌, max, Bool, true, false, Option, none, some, List, [], ◌∷◌, ◌++◌, ◌&&◌, ◌||◌, not,
}
use pok_poly_kalshi.Prelude.Tests.{if◌then◌else◌, leb, ltb, nat_beq}

pub record CoalescedScanScheduler : Type 0 where
  pub running : Bool
  pub pending : Bool
  pub pending_now : ℕ
  -- The runs that a microtask has still to start, the oldest first.
  pub queued : List ℕ
  -- The scans that the target was asked for, newest first, and the coalesced requests.
  pub scans : List ℕ
  pub coalesced : ℕ

unfoldable pub create : CoalescedScanScheduler
create = record {
  running = false;
  pending = false;
  pending_now = 0;
  queued = [];
  scans = [];
  coalesced = 0;
}

unfoldable pub run : CoalescedScanScheduler → ℕ → CoalescedScanScheduler
run s now = record s { running = true; scans = now ∷ s.scans }

unfoldable pub request_scan : CoalescedScanScheduler → ℕ → CoalescedScanScheduler
request_scan s now =
    if s.running
    then record s {
      pending = true;
      pending_now = max s.pending_now now;
      coalesced = suc s.coalesced;
    }
    else run s now

-- The `finally` of `run`; `clock` is `Date.now()`.
unfoldable pub finish : CoalescedScanScheduler → ℕ → CoalescedScanScheduler
finish s clock =
    let next_now = if nat_beq s.pending_now 0 then clock else s.pending_now in
    if s.pending
    then record s {
      running = false;
      pending = false;
      pending_now = 0;
      queued = s.queued ++ next_now ∷ [];
    }
    else record s { running = false }

-- The oldest microtask runs, whatever has happened since.
unfoldable pub microtask : CoalescedScanScheduler → ℕ → List ℕ → CoalescedScanScheduler
microtask s now rest = run (record s { queued = rest }) now

pub record ScanHeartbeat : Type 0 where
  pub enabled : Bool
  pub interval_ms : ℕ

-- Is an interval created at all, and with which period?
unfoldable pub create_heartbeat : ScanHeartbeat → Option ℕ
create_heartbeat h =
    if not h.enabled || leb h.interval_ms 0 then none else some (max 50 h.interval_ms)

-- The body of the interval: does it request a scan?
unfoldable pub heartbeat_requests : ℕ → ℕ → ℕ → Bool
heartbeat_requests interval last_scan_at now =
    not (ltb 0 last_scan_at && ltb now (last_scan_at + interval))
