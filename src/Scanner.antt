-- ===== src/Scanner.antt =====
-- src/scanner: the payoff of a spread, the pairing of contracts, the safety check of a candidate, the
-- re-entry throttle and the coalesced scan scheduler.
pub mod Payoff
pub mod Risk
pub mod Candidate
pub mod Safety
pub mod Pairing
pub mod Reentry
pub mod Scheduler
pub mod Loop
