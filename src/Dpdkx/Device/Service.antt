-- ===== src/Dpdkx/Device/Service.antt =====
-- `device::process_rx_packets`: the packets that no channel took. The device answers ARP requests
-- and, if it is told to, ICMP echo requests; what it does not send goes back to the caller.
pub mod Resolve
pub mod Echo
use dpdk_tools.Common.{
  ℕ, zero, suc, ◌+◌, ◌-◌, ◌*◌, ◌/◌, ◌%◌, ltb, ◌==◌, if◌then◌else◌, Bool, true, false, not, ◌&&◌,
  List, [], ◌∷◌, bit_and,
}
use dpdk_tools.Common.Memory.{Memory, load, store}
use dpdk_tools.Common.ByteOrder.{bswap}
use dpdk_tools.Common.Writes.{write_all}
use dpdk_tools.Dpdkx.Proto.{
  be16, ether_type_arp, ether_type_ipv4, arp_hdr, arp_hrd_ether, arp_op_request, arp_op_reply,
  icmp_hdr, icmp_echo_reply, icmp_echo_request, proto_icmp, tx_ipv4, tx_ip_cksum,
}
use dpdk_tools.Dpdkx.Mbuf.{Mbuf}
use dpdk_tools.Dpdkx.Mbuf.L2.{eth_proto}
use dpdk_tools.Dpdkx.Device.Host.{Host, Neighbour, Neighbours, insert_or_assign}
use dpdk_tools.Dpdkx.Device.RxJob.{l3size, next_proto_id}

-- What is made of a packet: the packet as it is left, the table, and whether it is offered to a
-- service ring.
pub record Served : Type 0 where
  pub packet : Mbuf
  pub table : Neighbours
  pub reply : Bool

abbrev keep : Mbuf → Neighbours → Served
keep p table = record { packet = p; table = table; reply = false }

-- The sender's addresses go into the table, with the time of `read_clock`.
unfoldable pub learn : Host → ℕ → Mbuf → Neighbours → Neighbours
unfolding insert_or_assign
learn host now p table =
    if host.arp_table
    then insert_or_assign table (load 4 (p.l2_len + 14) p.bytes)
        (record { mac_addr = load 6 (p.l2_len + 8) p.bytes; timestamp = now })
    else table

-- The request is turned into its answer in place. Each field that is copied is read before it is
-- overwritten.
unfoldable pub arp_reply : Host → Mbuf → Mbuf
unfolding write_all be16
arp_reply host p =
    let at = p.l2_len in
    let src_addr = load 6 6 p.bytes in
    let sender_mac = load 6 (at + 8) p.bytes in
    let sender_ip = load 4 (at + 14) p.bytes in
    record p {
      bytes =
          write_all
            ((2, at + 6, be16 arp_op_reply)
              ∷ (6, 0, src_addr)
              ∷ (6, 6, host.mac_addr)
              ∷ (6, at + 18, sender_mac)
              ∷ (4, at + 24, sender_ip)
              ∷ (4, at + 14, host.ip4addr)
              ∷ (6, at + 8, host.mac_addr)
              ∷ [])
            p.bytes;
    }

unfoldable pub serve_arp : Host → ℕ → Mbuf → Neighbours → Served
unfolding learn arp_reply
serve_arp host now p table =
    if ltb p.data_len (p.l2_len + arp_hdr)
    then keep p table
    else if load 2 p.l2_len p.bytes == be16 arp_hrd_ether
        && load 2 (p.l2_len + 2) p.bytes == be16 ether_type_ipv4
    then (if load 2 (p.l2_len + 6) p.bytes == be16 arp_op_request
        then (if host.ip4addr == load 4 (p.l2_len + 24) p.bytes
            then record { packet = arp_reply host p; table = learn host now p table; reply = true }
            else keep p (learn host now p table))
        else if load 2 (p.l2_len + 6) p.bytes == be16 arp_op_reply
        then keep p (learn host now p table)
        else keep p table)
    else keep p table

-- The checksum of the answer, from that of the request: one's complement arithmetic on 16 bits.
abbrev fold : ℕ → ℕ
fold sum = sum % 65536 + sum / 65536

unfoldable pub icmp_reply_cksum : ℕ → ℕ
unfolding be16
icmp_reply_cksum cksum =
    let request = 65535 - be16 (icmp_echo_request * 256) in
    let reply = be16 (icmp_echo_reply * 256) in
    65535 - fold (fold (65535 - cksum + request + reply)) % 65536

unfoldable pub is_multicast_ipv4_addr : ℕ → Bool
is_multicast_ipv4_addr ipv4_addr = bit_and ipv4_addr 0x000000ff == 0xe0

-- The sender's address as it answers to a multicast: the last two bits are 2 if they are 1, else 1.
unfoldable pub reply_source : ℕ → ℕ
reply_source src =
    let ip_src = bswap 4 src in
    bswap 4 (if ip_src % 4 == 1 then ip_src / 4 * 4 + 2 else ip_src / 4 * 4 + 1)

-- What is given back, at the front of the array, what was sent, and the table.
pub record Serviced : Type 0 where
  pub used : List Mbuf
  pub sent : List Mbuf
  pub table : Neighbours

-- `cksum` is `rte_ipv4_cksum`, of the header at an offset.
module _ (cksum : ℕ → Memory → ℕ) where
  unfoldable pub swap_ip : Host → Mbuf → Mbuf
  unfolding write_all reply_source is_multicast_ipv4_addr
  swap_ip host p =
      let at = p.l2_len in
      let src = load 4 (at + 12) p.bytes in
      if is_multicast_ipv4_addr (load 4 (at + 16) p.bytes)
      then (let m =
            write_all ((4, at + 16, src) ∷ (4, at + 12, reply_source src) ∷ (2, at + 10, 0) ∷ [])
              p.bytes in
          record p {
            bytes = if host.ipv4_cksum_offload then m else store 2 (at + 10) (cksum at m) m;
            l3_len = l3size p;
            ol_flags = if host.ipv4_cksum_offload then tx_ipv4 + tx_ip_cksum else 0;
          })
      else record p {
        bytes = write_all ((4, at + 16, src) ∷ (4, at + 12, host.ip4addr) ∷ []) p.bytes;
      }

  -- The ICMP header stands behind the IPv4 header, whose length is read before the addresses change.
  unfoldable pub echo_reply : Host → Mbuf → Mbuf
  unfolding write_all swap_ip icmp_reply_cksum l3size
  echo_reply host p =
      let at = p.l2_len + l3size p in
      let addressed = swap_ip host (record p {
        bytes = write_all ((6, 0, load 6 6 p.bytes) ∷ (6, 6, host.mac_addr) ∷ []) p.bytes;
      }) in
      let typed = store 1 at icmp_echo_reply addressed.bytes in
      record addressed { bytes = store 2 (at + 2) (icmp_reply_cksum (load 2 (at + 2) typed)) typed }

  unfoldable pub is_echo_request : Host → Mbuf → Bool
  unfolding l3size
  is_echo_request host p =
      let at = p.l2_len + l3size p in
      load 1 at p.bytes == icmp_echo_request
      && load 1 (at + 1) p.bytes == 0
      && host.icmp
      && not (ltb p.data_len (at + icmp_hdr))

  unfoldable pub serve_ipv4 : Host → Mbuf → Neighbours → Served
  unfolding l3size next_proto_id is_echo_request echo_reply
  serve_ipv4 host p table =
      if ltb p.data_len (p.l2_len + l3size p)
      then keep p table
      else if next_proto_id p == proto_icmp && is_echo_request host p
      then record { packet = echo_reply host p; table = table; reply = true }
      else keep p table

  -- The `switch`; the other protocols are only logged.
  unfoldable pub serve : Host → ℕ → Mbuf → Neighbours → Served
  unfolding eth_proto serve_ipv4 serve_arp
  serve host now p table =
      if eth_proto p == be16 ether_type_ipv4
      then serve_ipv4 host p table
      else if eth_proto p == be16 ether_type_arp
      then serve_arp host now p table
      else keep p table

  -- The loop. `enque i` says whether the ring takes the `i`-th packet, and `now i` is the time then.
  unfoldable pub process_rx_packets :
      Host → (ℕ → Mbuf → Bool) → (ℕ → ℕ) → ℕ → List Mbuf → Neighbours → Serviced
  unfolding serve
  process_rx_packets host enque now i [] table = record { used = []; sent = []; table = table }
  process_rx_packets host enque now i (p ∷ ps) table =
      let s = serve host (now i) p table in
      let rest = process_rx_packets host enque now (suc i) ps s.table in
      if s.reply && enque i s.packet
      then record rest { sent = s.packet ∷ rest.sent }
      else record rest { used = s.packet ∷ rest.used }
