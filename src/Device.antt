-- ===== src/Device.antt =====
-- device/: the simulated legacy device.
pub mod Sensor
pub mod Counter
pub mod Client
