-- ===== src/Bridge.antt =====
-- What the device, the gateway and the cloud guarantee together.
pub mod Hops
pub mod Session
pub mod Messages
pub mod Delivery
pub mod EndToEnd
pub mod Streaming
pub mod Collecting
pub mod Handshake
pub mod Binding
