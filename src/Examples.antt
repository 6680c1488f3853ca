-- ===== src/Examples.antt =====
-- The theorems at concrete inputs.
mod Wire
mod Runs
mod Devices
mod Services
mod Client
mod Config
mod Host
mod Described
