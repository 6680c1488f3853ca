-- ===== src/Dpdkx/Device/Host.antt =====
-- What a device knows of itself and of its neighbours: the parts of `config_` that its own traffic
-- reads, and `arp4_`. An Ethernet address is the number that a load of its six bytes gives.
use dpdk_tools.Common.{ℕ, ◌==◌, if◌then◌else◌, Bool, Option, none, some}

pub record Host : Type 0 where
  pub mac_addr : ℕ
  pub ip4addr : ℕ
  -- `features[icmp]` and `features[arp_table]`
  pub icmp : Bool
  pub arp_table : Bool
  -- `tx_offloads() & RTE_ETH_TX_OFFLOAD_IPV4_CKSUM`
  pub ipv4_cksum_offload : Bool

-- `arp4rec`; a record with the time stamp 0 stands for a request without an answer.
pub record Neighbour : Type 0 where
  pub mac_addr : ℕ
  pub timestamp : ℕ

abbrev pub Neighbours : Type 0
Neighbours = ℕ → Option Neighbour

-- `insert_or_assign`
unfoldable pub insert_or_assign : Neighbours → ℕ → Neighbour → Neighbours
insert_or_assign table ip rec other = if other == ip then some rec else table other

-- `try_emplace`: a key that is there keeps its value.
unfoldable pub try_emplace : Neighbours → ℕ → Neighbour → Neighbours
unfolding insert_or_assign
try_emplace table ip rec = elim (table ip) [
  | none ↦ insert_or_assign table ip rec
  | some old ↦ table
]
