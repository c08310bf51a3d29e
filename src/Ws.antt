-- ===== src/Ws.antt =====
-- src/ws: the reconnect policy and the socket life cycle that the two book feeds share.
pub mod Reconnect
pub mod Client
