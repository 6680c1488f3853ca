-- ===== src/Dpdkx/Device/Mcast.antt =====
-- dpdkx/mcast.cpp: the IGMP reports that tell routers of the groups a device has joined or left.
pub mod Framed
pub mod Report
use dpdk_tools.Common.{
  ℕ, zero, suc, ◌+◌, ◌-◌, ◌*◌, ◌/◌, ◌%◌, leb, if◌then◌else◌, Bool, true, false, ◌&&◌, List, [], ◌∷◌,
  Option, none, some, bit_and, bit_or,
}
use dpdk_tools.Common.Memory.{Memory, load, store}
use dpdk_tools.Common.ByteOrder.{bswap}
use dpdk_tools.Common.Writes.{Writes, write_all}
use dpdk_tools.Dpdkx.Proto.{be16, proto_igmp, tx_ipv4, tx_ip_cksum}
use dpdk_tools.Dpdkx.Mbuf.{Mbuf}
use dpdk_tools.Dpdkx.Mbuf.Build.{make_ipv4}
use dpdk_tools.Dpdkx.Device.Host.{Host}
use dpdk_tools.Dpdkx.Device.Sinks.{
  is_ipv4_mcast, Outcome, ok, failed, bad_address, resource_unavailable_try_again, no_buffer_space,
}

-- The numbers of `igm_record::igmp_type`, and that of a report.
abbrev pub change_to_exclude_mode : ℕ
change_to_exclude_mode = 4

abbrev pub change_to_include_mode : ℕ
change_to_include_mode = 3

abbrev pub membership_report : ℕ
membership_report = 0x22

-- The Ethernet address of a group, as the value that a load of its six bytes gives.
unfoldable pub ether_addr_for_ipv4_mcast : ℕ → ℕ
ether_addr_for_ipv4_mcast addr = bswap 8 (bit_or 0x01005e000000 (bit_and addr 0x7fffff)) / 65536

-- RTE_IPV4(224, 0, 0, 22)
abbrev pub igmp_routers : ℕ
igmp_routers = 0xe0000016

-- The assignments from `ethdr->src_addr` to the first one of `ip4hdr->hdr_checksum`; `ihl` is the
-- header's first byte, and `cksum` the value of `igmp_mr->cksum`.
abbrev pub before_cksum : Host → ℕ → ℕ → ℕ → Writes
before_cksum host ip4addr type ihl =
    (6, 6, host.mac_addr)
    ∷ (6, 0, ether_addr_for_ipv4_mcast igmp_routers)
    ∷ (1, 14, ihl / 16 * 16 + (ihl % 16 + 1) % 16)
    ∷ (4, 26, host.ip4addr)
    ∷ (4, 30, bswap 4 igmp_routers)
    ∷ (1, 22, 1)
    ∷ (4, 34, 0x494)
    ∷ (1, 38, membership_report)
    ∷ (1, 39, 0)
    ∷ (2, 42, 0)
    ∷ (2, 44, be16 1)
    ∷ (1, 46, type)
    ∷ (1, 47, 0)
    ∷ (2, 48, 0)
    ∷ (4, 50, ip4addr)
    ∷ (2, 40, 0)
    ∷ []

-- sizeof(igmpv3_mem_rep) + sizeof(igm_record) + sizeof(ip4addr)
abbrev igmp_size : ℕ
igmp_size = 16

-- What is returned, and the buffer that was offered to a service ring.
pub record Reported : Type 0 where
  pub result : Outcome
  pub report : Option Mbuf

-- `raw_cksum` is `rte_raw_cksum` of a number of bytes from an offset, `cksum` is `rte_ipv4_cksum`.
module _ (raw_cksum : ℕ → ℕ → Memory → ℕ) (cksum : ℕ → Memory → ℕ) where
  unfoldable pub mcast_report : Host → ℕ → ℕ → Mbuf → Mbuf
  unfolding make_ipv4 write_all ether_addr_for_ipv4_mcast be16
  mcast_report host ip4addr type buffer =
      let b = make_ipv4 proto_igmp (4 + igmp_size) buffer in
      let l3_len = b.l3_len + 4 in
      let m = write_all (before_cksum host ip4addr type (load 1 14 b.bytes)) b.bytes in
      let m =
        write_all ((2, 40, 65535 - raw_cksum 38 (l3_len + igmp_size) m) ∷ (2, 24, 0) ∷ []) m in
      record b {
        bytes = if host.ipv4_cksum_offload then m else store 2 24 (cksum 14 m) m;
        l3_len = l3_len;
        ol_flags = if host.ipv4_cksum_offload then bit_or tx_ipv4 tx_ip_cksum else b.ol_flags;
      }

  -- `buffer` is what `rte_pktmbuf_alloc` gives, `enque` says whether the ring takes the report.
  unfoldable pub mcast_group : Host → (Mbuf → Bool) → Option Mbuf → ℕ → ℕ → Reported
  unfolding is_ipv4_mcast mcast_report
  mcast_group host enque none ip4addr type =
      if is_ipv4_mcast ip4addr
      then record { result = failed bad_address; report = none }
      else record { result = failed no_buffer_space; report = none }
  mcast_group host enque (some buffer) ip4addr type =
      let report = mcast_report host ip4addr type buffer in
      if is_ipv4_mcast ip4addr
      then record { result = failed bad_address; report = none }
      else record {
        result = if enque report then ok else failed resource_unavailable_try_again;
        report = some report;
      }
