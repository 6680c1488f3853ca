-- ===== src/SockperfCli.antt =====
-- sockperf_cli: the client that measures, with its packets, its jobs and its statistics.
pub mod Stats
pub mod Packet
pub mod Channel
pub mod TxJob
pub mod Warmup
pub mod Latency
pub mod Run
