-- ===== src/Lib.antt =====
-- A model of the trading worker of POK-Poly-Kalshi, which looks for a price difference of one Bitcoin
-- window between Kalshi and Polymarket and buys both legs.
--
-- How the parts interact. The book feeds (src/ws) keep the contracts of the two venues fresh. A book
-- update or the heartbeat asks the scheduler for a scan; the scan pairs the contracts, values each
-- spread, and hands those that pass the safety check to the executor unless a throttle, the portfolio
-- floor or the safety lock stops it. The private streams confirm the orders of the executor, and lock
-- trading when a fill is not accounted for. What is left one-sided is sold by the flattener.
--
-- Which module models what:
-- - Types: the shared records of src/types.ts.
-- - Scanner.Payoff, Scanner.Risk and Scanner.Candidate: src/scanner/payoff.ts (spreadPayoff,
--   buildSyntheticStructureRisk, guaranteedSpreadCandidate, deadZoneCandidate). Scanner.Safety:
--   src/scanner/safety.ts. Scanner.Pairing: src/scanner/pairing.ts (enumerateCandidates).
--   Scanner.Reentry: src/scanner/reentry.ts. Scanner.Scheduler: src/scanner/scheduler.ts, cut into
--   transitions where the source awaits or queues a microtask. Scanner.Loop: src/scanner/scanner.ts
--   (scan, liveCandidateBlockReason, enqueueCandidate, drainExecutionQueue, handleCandidate), cut in
--   the same way; Scanner.Loop.Spec is what it promises, and Step what drives it.
-- - Execution.Confirmations and its child Coordinator: src/execution/venue-confirmations.ts
--   (confirmationFromEvent, handleEvent, rememberKnownOrder, lockOnUnsafeEvent, waitForVenueResult).
--   Execution.LockCache: the class CachedLiveExecutionLockStore of src/execution/live-hot-path.ts.
--   Execution.EconomicPrices: src/execution/economic-prices.ts.
--   Execution.Depth, Execution.LegQuote and Execution.QuoteQuality with its child Size:
--   src/execution/quote-quality.ts (depthWeightedAsk, quoteLeg, evaluateLiveQuoteQuality,
--   selectExecutableSize).
--   Execution.Unwind, Execution.Fills and Execution.Verdict: src/execution/executor.ts
--   (attemptResidualUnwind, verifiedUnwoundShares, and of resultFromVenueOrders the lock and the
--   quarantine).
--   Execution.Exposure: hasLiveExposure, exactExposureReason and quarantineStatus of
--   src/execution/live-hot-path.ts. Execution.ExposureCache: the class LiveExposureCache of that file.
-- - Trading.Activity: types/trading.ts and venueAccountValue and buildEquitySample of
--   src/trading/equity-sampler.ts.
--   Trading.PortfolioFloor: src/trading/portfolio-floor.ts. Trading.NakedFlattener:
--   src/trading/naked-flattener.ts.
-- - Books.Store: the class BookStore of src/books/book-store.ts. Books.Levels and Books.Token: setLevel,
--   bestBid, bestAsk, sortedLevels and the class PolymarketBookParser of src/polymarket/client.ts.
-- - Ws.Reconnect: src/ws/reconnect.ts. Ws.Client: src/ws/reconnecting-websocket-client.ts.
-- - Prelude: Boolean tests, integers, lists, the JavaScript Map, money and text. Examples: concrete
--   inputs for the properties.
--
-- Conventions. Dollars, shares and strikes are integers in billionths, so the model computes with exact
-- decimals where the source computes with floating point; they are finite. Times are whole
-- milliseconds, and a test on a difference of times is written as one on a sum. A method is a function
-- from the state of its object to the next state. What a call of something outside answers (a venue, a
-- store, a socket, a clock) is an argument, and fields such as calls, effects, resolutions, locks and
-- scans keep what was called, newest first unless a file says otherwise. Where a method awaits a refresh,
-- the state after the wait is an argument, and any. Texts that are only logged or stored as a reason are
-- constructors or left out. toLowerCase and toUpperCase are those of the ASCII letters. Every loop of
-- the modelled parts runs over a list or counts down, so the model recurs on that and needs no fuel.
--
-- Limits. One call of handleEvent is one step: the events that may come between its awaits, and a lock
-- store that rejects, are not modelled. A pending confirmation has a number where the source has an
-- identity. Of the executor the placing of the orders, the venue clients, discovery, the database,
-- the dashboard and the scripts are not modelled: most of that code is requests, SQL text or wiring.
pub mod Prelude
pub mod Types
pub mod Scanner
pub mod Execution
pub mod Trading
pub mod Books
pub mod Ws
pub mod Examples
