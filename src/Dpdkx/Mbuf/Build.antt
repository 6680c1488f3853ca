-- ===== src/Dpdkx/Mbuf/Build.antt =====
-- dpdkx/mbuf.cpp: the headers of a packet that is to be sent. The pointers that the routines return
-- are offsets that the caller knows; `next` is null, as the buffers here have one segment.
use dpdk_tools.Common.{ℕ, ◌+◌, ◌%◌}
use dpdk_tools.Common.Memory.{Memory, store}
use dpdk_tools.Common.ByteOrder.{bswap}
use dpdk_tools.Dpdkx.Proto.{
  be16, ether_type_ipv4, ether_hdr, ipv4_hdr, udp_hdr, proto_udp, default_ttl, vhl_def,
}
use dpdk_tools.Dpdkx.Mbuf.{Mbuf}

-- `pkt_len` is assigned what is cut to the 16 bits of `data_len`.
unfoldable pub make_ether : ℕ → ℕ → Mbuf → Mbuf
make_ether ether_type payload_size b =
    let total = (ether_hdr + payload_size) % 65536 in
    record b {
      nb_segs = 1;
      bytes = store 2 12 ether_type b.bytes;
      l2_len = ether_hdr;
      data_len = total;
      pkt_len = total;
      ol_flags = 0;
    }

-- The fields of `rte_ipv4_hdr` at offset `at`, in the order in which they are written.
unfoldable pub write_ipv4 : ℕ → ℕ → ℕ → Memory → Memory
write_ipv4 at next_proto_id total_length m =
    let m = store 1 at vhl_def m in
    let m = store 1 (at + 1) 0 m in
    let m = store 2 (at + 2) (bswap 2 (total_length % 65536)) m in
    let m = store 2 (at + 4) 0 m in
    let m = store 2 (at + 6) 0 m in
    let m = store 1 (at + 8) default_ttl m in
    let m = store 1 (at + 9) next_proto_id m in store 2 (at + 10) 0 m

unfoldable pub make_ipv4 : ℕ → ℕ → Mbuf → Mbuf
unfolding make_ether write_ipv4 be16
make_ipv4 next_proto_id payload_size b =
    let e = make_ether (be16 ether_type_ipv4) (ipv4_hdr + payload_size) b in
    record e {
      bytes = write_ipv4 e.l2_len next_proto_id (ipv4_hdr + payload_size) e.bytes;
      l3_len = ipv4_hdr;
    }

unfoldable pub make_udp : ℕ → Mbuf → Mbuf
unfolding make_ipv4
make_udp payload_size b =
    let ip = make_ipv4 proto_udp (udp_hdr + payload_size) b in
    let at = ip.l2_len + ip.l3_len in
    record ip {
      bytes =
          store 2 (at + 6) 0
            (store 2 (at + 4) (bswap 2 ((udp_hdr + payload_size) % 65536)) ip.bytes);
      l4_len = udp_hdr;
    }
