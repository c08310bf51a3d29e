-- ===== src/Trading.antt =====
-- src/trading: the monitors that watch the venue accounts.
pub mod Activity
pub mod PortfolioFloor
pub mod NakedFlattener
