-- ===== src/Cloud.antt =====
-- cloud/: the simulated cloud service.
pub mod Processing
pub mod Store
pub mod Sessions
pub mod Server
pub mod Keypair
pub mod Threads
pub mod Main
