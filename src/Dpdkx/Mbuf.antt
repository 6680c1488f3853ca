-- ===== src/Dpdkx/Mbuf.antt =====
-- The packet buffer, `struct rte_mbuf`, as far as the library reads and writes it. The bytes are
-- those behind `rte_pktmbuf_mtod`.
pub mod L2
pub mod Build
use dpdk_tools.Common.{ℕ}
use dpdk_tools.Common.Memory.{Memory}

pub record Mbuf : Type 0 where
  pub bytes : Memory
  pub data_len : ℕ
  pub pkt_len : ℕ
  pub l2_len : ℕ
  pub l3_len : ℕ
  pub l4_len : ℕ
  pub ol_flags : ℕ
  pub nb_segs : ℕ
