-- ===== src/Dpdkx/Device.antt =====
-- dpdkx/device.cpp: the parts of `dpdkx::device`, each over the fields that it reads and writes.
pub mod Ports
pub mod TxQueues
pub mod TxJob
pub mod Sinks
pub mod RxJob
pub mod Host
pub mod Address
pub mod Service
pub mod Mcast
pub mod Make
