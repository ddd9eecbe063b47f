-- ===== src/Examples.antt =====
-- Runs of the model and its theorems at concrete inputs, with a concrete library.
mod Toy
mod Sample
mod Gateways
mod Clouds
mod Common
mod Sealed
mod Services
mod Devices
mod Agreements
mod Handshakes
mod Deliveries
mod Loops
