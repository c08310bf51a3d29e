-- ===== src/Examples.antt =====
-- Concrete inputs for the properties, one module per part of the program.
mod Scan
mod Accounts
mod Sockets
mod Orders
mod Quotes
mod Signals
mod Feeds
mod Verdicts
