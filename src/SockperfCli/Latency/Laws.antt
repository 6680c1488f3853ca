-- ===== src/SockperfCli/Latency/Laws.antt =====
-- The loop of `latency_test_job::process` ends.
use dpdk_tools.Common.Memory.{Memory}
use dpdk_tools.Dpdkx.Mbuf.{Mbuf}
use dpdk_tools.Sockperf.MessageType
