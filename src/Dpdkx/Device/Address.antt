-- ===== src/Dpdkx/Device/Address.antt =====
-- `device::ether_address`: the Ethernet address of a neighbour, asked for by ARP.
use dpdk_tools.Common.{ℕ, ◌+◌, ◌==◌, if◌then◌else◌, Bool, [], ◌∷◌, Option, none, some, bit_and}
use dpdk_tools.Common.Writes.{write_all}
use dpdk_tools.Dpdkx.Proto.{
  be16, ether_type_arp, ether_type_ipv4, arp_hdr, arp_hrd_ether, arp_op_request,
}
use dpdk_tools.Dpdkx.Mbuf.{Mbuf}
use dpdk_tools.Dpdkx.Mbuf.Build.{make_ether}
use dpdk_tools.Dpdkx.Device.Host.{Host, Neighbours, try_emplace}
use dpdk_tools.Dpdkx.Device.Sinks.{
  Outcome, ok, failed, not_supported, resource_unavailable_try_again, no_buffer_space,
}

-- The request that asks who has `ip`, in the buffer that was allocated; the fields at the offsets of
-- `rte_ether_hdr` and `rte_arp_hdr`.
unfoldable pub arp_request : Host → ℕ → Mbuf → Mbuf
unfolding make_ether be16 write_all
arp_request host ip buffer =
    let b = make_ether (be16 ether_type_arp) arp_hdr buffer in
    let at = b.l2_len in
    record b {
      bytes =
          write_all
            ((6, 6, host.mac_addr)
              ∷ (6, 0, 0xffffffffffff)
              ∷ (2, at, be16 arp_hrd_ether)
              ∷ (2, at + 2, be16 ether_type_ipv4)
              ∷ (1, at + 4, 6)
              ∷ (1, at + 5, 4)
              ∷ (2, at + 6, be16 arp_op_request)
              ∷ (6, at + 8, host.mac_addr)
              ∷ (4, at + 14, host.ip4addr)
              ∷ (6, at + 18, 0)
              ∷ (4, at + 24, ip)
              ∷ [])
            b.bytes;
    }

-- The result, the address that is stored on success, the table, and the request that was offered to
-- a service ring.
pub record Lookup : Type 0 where
  pub result : Outcome
  pub mac_addr : Option ℕ
  pub table : Neighbours
  pub request : Option Mbuf

-- What the table says of an address.
unfoldable pub known : Neighbours → ℕ → Lookup
known table ip = elim (table ip) [
  | none ↦ record { result = failed not_supported; mac_addr = none; table = table; request = none }
  | some n ↦
      if n.timestamp == 0
      then record {
        result = failed resource_unavailable_try_again;
        mac_addr = none;
        table = table;
        request = none;
      }
      else record { result = ok; mac_addr = some n.mac_addr; table = table; request = none }
]

-- The request is sent: `enque` says whether the ring takes it.
unfoldable pub ask : Host → (Mbuf → Bool) → Option Mbuf → Neighbours → ℕ → Lookup
unfolding arp_request try_emplace
ask host enque none table ip = record {
  result = failed no_buffer_space;
  mac_addr = none;
  table = table;
  request = none;
}
ask host enque (some buffer) table ip =
    let request = arp_request host ip buffer in
    record {
      result = failed resource_unavailable_try_again;
      mac_addr = none;
      table =
          if enque request
          then try_emplace table ip (record { mac_addr = 0; timestamp = 0 })
          else table;
      request = some request;
    }

-- `buffer` is what `rte_pktmbuf_alloc` gives.
unfoldable pub ether_address : Host → (Mbuf → Bool) → Option Mbuf → Neighbours → ℕ → Lookup
unfolding known ask
ether_address host enque buffer table ip =
    if bit_and ip 0x7f == 0x7f
    then record { result = ok; mac_addr = some host.mac_addr; table = table; request = none }
    else elim (table ip) [
      | none ↦ if host.arp_table then ask host enque buffer table ip else known table ip
      | some n ↦ known table ip
    ]
