-- ===== src/SockperfCli/Packet.antt =====
-- sockperf_cli/utils.cpp: the packets of the client. Every buffer of the pool gets the same headers
-- once; each time it is sent, only what changes is written.
pub mod Laws
use dpdk_tools.Common.{
  ℕ, ◌+◌, ◌-◌, ◌%◌, ◌==◌, leb, ltb, ◌&&◌, if◌then◌else◌, Bool, true, false, List, [], ◌∷◌, map,
  length, bit_and, bit_or,
}
use dpdk_tools.Common.Memory.{Memory, store}
use dpdk_tools.Common.ByteOrder.{bswap}
use dpdk_tools.Common.Writes.{Writes, write_all}
use dpdk_tools.Dpdkx.Proto.{be16, ether_hdr, ipv4_hdr, udp_hdr, tx_ipv4, tx_ip_cksum, tx_udp_cksum}
use dpdk_tools.Dpdkx.Mbuf.{Mbuf}
use dpdk_tools.Dpdkx.Mbuf.Build.{make_udp}
use dpdk_tools.Dpdkx.UdpTx.{memcpy, Sender}
use dpdk_tools.Sockperf.Message.{set_seqn, set_message_type, set_message_size}
use dpdk_tools.Sockperf.MessageType

unfoldable pub packet_size : ℕ → ℕ
packet_size payload_size = ether_hdr + ipv4_hdr + udp_hdr + payload_size

-- `data_len` has 16 bits, and `pkt_len` 32; the right assignment is the first.
unfoldable pub prepare_packet_headers : ℕ → ℕ → Mbuf → Mbuf
prepare_packet_headers ol_flags payload_size b =
    let total = (ether_hdr + ipv4_hdr + udp_hdr + payload_size) % 4294967296 in
    record b {
      l2_len = ether_hdr;
      l3_len = ipv4_hdr;
      l4_len = udp_hdr;
      pkt_len = total;
      data_len = total % 65536;
      ol_flags = ol_flags;
    }

-- `rte_pktmbuf_mtod_offset(buffer, char*, l2_len + l3_len + l4_len)`: the accessors of the message
-- see the bytes from there on.
unfoldable pub sockperf_payloadf : Mbuf → ℕ
sockperf_payloadf b = b.l2_len + b.l3_len + b.l4_len

abbrev pub from : ℕ → Memory → Memory
from at m i = m (at + i)

-- A change of the bytes from an offset on.
abbrev pub at_offset : ℕ → (Memory → Memory) → Memory → Memory
at_offset at f m i = if leb at i then f (from at m) (i - at) else m i

-- The message that a pool's buffers are made with.
abbrev pub ping_message : ℕ → Memory → Memory
ping_message payload_size m =
    set_message_size payload_size (set_message_type MessageType.ping (set_seqn 0 m))

-- The checksums are the library's: of an IPv4 header, of the pseudo-header with the flags, and of the
-- datagram behind an IPv4 header.
module _ (ipv4_cksum : ℕ → Memory → ℕ) (phdr_cksum : ℕ → Memory → ℕ → ℕ)
    (udptcp_cksum : ℕ → Memory → ℕ) where
  -- The buffer that is built outside the pool, from zeroed bytes, and the flags; `src_port` is what
  -- `next_src_port` gives.
  unfoldable pub template : Sender → ℕ → ℕ → ℕ → ℕ → ℕ → ℕ → Mbuf → ℕ × Mbuf
  unfolding make_udp write_all be16 set_seqn set_message_type set_message_size sockperf_payloadf
  template dev src_port ip mac dst_port time_to_live payload_size fake_buffer =
      let b = make_udp payload_size fake_buffer in
      let m =
        write_all
          ((6, 6, dev.mac_addr)
            ∷ (6, 0, mac)
            ∷ (4, 26, dev.ip4addr)
            ∷ (4, 30, ip)
            ∷ (1, 22, time_to_live)
            ∷ (2, 36, dst_port)
            ∷ (2, 34, be16 src_port)
            ∷ [])
          b.bytes in
      let ip_flags = if dev.ipv4_cksum_offload then bit_or tx_ipv4 tx_ip_cksum else 0 in
      let m = if dev.ipv4_cksum_offload then m else store 2 24 (ipv4_cksum 14 m) m in
      let flags = if dev.udp_cksum_offload then bit_or ip_flags tx_udp_cksum else ip_flags in
      let m =
        store 2 40 (if dev.udp_cksum_offload then phdr_cksum 14 m flags else udptcp_cksum 14 m) m in
      (flags, record b { bytes = at_offset (sockperf_payloadf b) (ping_message payload_size) m })

  -- `buffers` are all the buffers of the pool. The result is the number of them, the flags, and the
  -- pool.
  unfoldable pub configure_sockperf_packet_pool :
      Sender → ℕ → ℕ → ℕ → ℕ → ℕ → ℕ → Mbuf → List Mbuf → ℕ × ℕ × List Mbuf
  unfolding template memcpy sockperf_payloadf
  configure_sockperf_packet_pool dev src_port ip mac dst_port time_to_live payload_size fake pool =
      let t = template dev src_port ip mac dst_port time_to_live payload_size fake in
      let size = sockperf_payloadf t.1 + payload_size in
      (
        length pool,
        t.0,
        map (λ (b : Mbuf). record b { bytes = memcpy size 0 0 t.1.bytes b.bytes }) pool,
      )

module _ (phdr_cksum : ℕ → Memory → ℕ → ℕ) (udptcp_cksum : ℕ → Memory → ℕ) where
  unfoldable pub prepare_packet : ℕ → ℕ → ℕ → ℕ → Mbuf → Mbuf
  unfolding prepare_packet_headers sockperf_payloadf set_seqn set_message_type
  prepare_packet seqn type ol_flags payload_size buffer =
      let b = prepare_packet_headers ol_flags payload_size buffer in
      let m =
        at_offset (sockperf_payloadf b) (λ p. set_message_type type (set_seqn seqn p)) b.bytes in
      let m = store 2 40 0 m in
      record b {
        bytes =
            store 2 40
              (if bit_and b.ol_flags tx_udp_cksum == tx_udp_cksum
                then phdr_cksum 14 m ol_flags
                else udptcp_cksum 14 m)
              m;
      }
