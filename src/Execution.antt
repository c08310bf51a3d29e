-- ===== src/Execution.antt =====
-- src/execution: the confirmation of orders by the private streams, the caches of the safety lock and of
-- the exposure, the gate on the quotes, and how an execution ends.
pub mod Confirmations
pub mod LockCache
pub mod EconomicPrices
pub mod Exposure
pub mod ExposureCache
pub mod Unwind
pub mod Fills
pub mod Verdict
pub mod Depth
pub mod LegQuote
pub mod QuoteQuality
