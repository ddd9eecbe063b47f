-- ===== src/Gateway.antt =====
-- gateway/: the edge gateway.
pub mod Processing
pub mod State
pub mod Channel
pub mod Server
pub mod Main
pub mod Threads
