-- ===== src/Dpdkx/Config.antt =====
-- dpdkx/config: the configuration that a program hands to the devices.
pub mod Sockets
pub mod Options
pub mod Devices
pub mod Nics
