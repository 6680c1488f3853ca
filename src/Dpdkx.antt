-- ===== src/Dpdkx.antt =====
-- The dpdkx library: frames, clocks, jobs, and the parts of `dpdkx::device`.
pub mod Proto
pub mod Mbuf
pub mod Clock
pub mod Jobs
pub mod Device
pub mod UdpTx
pub mod Config
pub mod Described
