-- ===== src/Dpdkx/UdpTx.antt =====
-- dpdkx/udptx_channel.cpp: a channel that sends datagrams of any length, the longer ones as a chain
-- of packet buffers.
pub mod Fill
pub mod Laws
use dpdk_tools.Common.{
  ℕ, zero, suc, ◌+◌, ◌-◌, ◌%◌, ltb, leb, ◌==◌, if◌then◌else◌, Bool, true, false, ◌&&◌, List, [],
  ◌∷◌, length, Option, none, some, bit_or,
}
use dpdk_tools.Common.Memory.{Memory, store}
use dpdk_tools.Common.Writes.{Writes, write_all}
use dpdk_tools.Dpdkx.Proto.{
  be16, ether_type_ipv4, ether_hdr, ipv4_hdr, udp_hdr, proto_udp, default_ttl, vhl_def, tx_ipv4,
  tx_ip_cksum, tx_udp_cksum,
}
use dpdk_tools.Dpdkx.Mbuf.{Mbuf}

-- `std::memcpy(m + dst, src + from, n)`.
unfoldable pub memcpy : ℕ → ℕ → ℕ → Memory → Memory → Memory
memcpy n dst from src m i = if leb dst i && ltb i (dst + n) then src (from + (i - dst)) else m i

pub record UdpTxChannel : Type 0 where
  pub src_port : ℕ
  pub packet_buf_size : ℕ
  pub packet_id : ℕ

-- RTE_PKTMBUF_HEADROOM
abbrev headroom : ℕ
headroom = 128

-- The constructor, from the port that the device gives, the room of a buffer in the packet pool if
-- that was created, and whether the header pool was. `packet_buf_size_` has 16 bits.
unfoldable pub make_channel : ℕ → Option ℕ → Bool → Option UdpTxChannel
unfolding be16
make_channel port none header_pool = none
make_channel port (some room) header_pool =
    if header_pool
    then some (record {
      src_port = be16 port;
      packet_buf_size = (room + (65536 - headroom)) % 65536;
      packet_id = 0;
    })
    else none

-- Where a datagram goes, in network byte order.
pub record Destination : Type 0 where
  pub mac : ℕ
  pub ip : ℕ
  pub port : ℕ

-- The device as far as a channel reads it.
pub record Sender : Type 0 where
  pub mac_addr : ℕ
  pub ip4addr : ℕ
  pub ipv4_cksum_offload : Bool
  pub udp_cksum_offload : Bool

abbrev pub headers_size : ℕ
headers_size = 42

-- The part of the payload that a segment takes.
abbrev pub part : ℕ → ℕ → ℕ
part left packet_buf_size = if ltb packet_buf_size left then packet_buf_size else left

-- A segment, in the buffer that was allocated, when `left` bytes are left.
module _ (packet_buf_size payload_size : ℕ) (payload : Memory) where
  unfoldable pub segment : ℕ → Mbuf → Mbuf
  unfolding memcpy
  segment left b = record b {
    data_len = part left packet_buf_size;
    bytes = memcpy (part left packet_buf_size) 0 (payload_size - left) payload b.bytes;
  }

abbrev pub before : Mbuf → Option (Bool × List Mbuf) → Option (Bool × List Mbuf)
before s none = none
before s (some (got, ss)) = some (got, s ∷ ss)

-- The `do` loop on fuel; the i-th buffer of the packet pool is `alloc i`. The result says whether all
-- buffers were there, with the segments behind the head.
module _ (alloc : ℕ → Option Mbuf) (packet_buf_size payload_size : ℕ) (payload : Memory) where
  unfoldable pub fill : ℕ → ℕ → ℕ → Option (Bool × List Mbuf)
  unfolding segment
  fill zero i left = none
  fill (suc fuel) i left = elim (alloc i) [
    | none ↦ some (false, [])
    | some b ↦
        let rest = fill fuel (suc i) (left - part left packet_buf_size) in
        if left - part left packet_buf_size == 0
        then some (true, segment packet_buf_size payload_size payload left b ∷ [])
        else before (segment packet_buf_size payload_size payload left b) rest
  ]

-- The headers, in the order of the assignments.
abbrev pub headers : UdpTxChannel → Sender → Destination → ℕ → Writes
headers ch dev dst payload_size =
    let dgram_len = (udp_hdr + payload_size) % 65536 in
    (6, 6, dev.mac_addr)
    ∷ (6, 0, dst.mac)
    ∷ (2, 12, be16 ether_type_ipv4)
    ∷ (1, 14, vhl_def)
    ∷ (1, 15, 0)
    ∷ (2, 16, be16 ((ipv4_hdr + dgram_len) % 65536))
    ∷ (2, 18, be16 ch.packet_id)
    ∷ (2, 20, 0)
    ∷ (1, 22, default_ttl)
    ∷ (1, 23, proto_udp)
    ∷ (2, 24, 0)
    ∷ (4, 26, dev.ip4addr)
    ∷ (4, 30, dst.ip)
    ∷ (2, 36, dst.port)
    ∷ (2, 34, ch.src_port)
    ∷ (2, 38, be16 dgram_len)
    ∷ (2, 40, 0)
    ∷ []

-- What `send` does: it frees what it has and returns false, or it offers a chain, a head and the
-- segments behind it, to a ring and returns what that answers.
pub data Sent : Type 0 where
  no_buffers : List Mbuf → Sent
  offered : Mbuf → List Mbuf → Bool → Sent

unfoldable pub returned : Sent → Bool
returned (no_buffers bs) = false
returned (offered h ss ok) = ok

-- The short datagram stands in one buffer.
unfoldable pub single : ℕ → Memory → Mbuf → Mbuf
unfolding memcpy
single payload_size payload head = record head {
  nb_segs = 1;
  bytes = memcpy payload_size headers_size 0 payload head.bytes;
  data_len = (headers_size + payload_size) % 65536;
}

-- The head of a chain has no payload; the loop counts the segments.
abbrev pub chain_head : Mbuf → List Mbuf → Mbuf
chain_head head segs = record head { data_len = headers_size; nb_segs = (1 + length segs) % 65536 }

-- The checksums are the library's: of an IPv4 header, of the pseudo-header with the flags, and of a
-- datagram over a chain.
module _ (ipv4_cksum : ℕ → Memory → ℕ) (phdr_cksum : ℕ → Memory → ℕ → ℕ)
    (udp_cksum : Mbuf → List Mbuf → ℕ → ℕ) where
  -- From the first header to `head->ol_flags`.
  unfoldable pub address : UdpTxChannel → Sender → Destination → ℕ → List Mbuf → Mbuf → Mbuf
  unfolding write_all be16
  address ch dev dst payload_size segs head =
      let m = write_all (headers ch dev dst payload_size) head.bytes in
      let ip_flags = if dev.ipv4_cksum_offload then bit_or tx_ipv4 tx_ip_cksum else 0 in
      let flags =
        if dev.udp_cksum_offload then bit_or ip_flags (bit_or tx_ipv4 tx_udp_cksum) else ip_flags in
      let m = if dev.ipv4_cksum_offload then m else store 2 24 (ipv4_cksum 14 m) m in
      let h = record head {
        bytes = m;
        l2_len = ether_hdr;
        l3_len = ipv4_hdr;
        l4_len = udp_hdr;
        pkt_len = (headers_size + payload_size) % 4294967296;
        ol_flags = 0;
      } in
      record h {
        bytes =
            store 2 40
              (if dev.udp_cksum_offload then phdr_cksum 14 m flags else udp_cksum h segs 34) m;
        ol_flags = flags;
      }

  -- `header` is what the header pool gives, and `enque` says whether the ring takes a chain.
  module _ (header : Option Mbuf) (alloc : ℕ → Option Mbuf) (enque : Mbuf → List Mbuf → Bool) where
    abbrev pub offer : UdpTxChannel → Sender → Destination → ℕ → List Mbuf → Mbuf → Sent
    offer ch dev dst payload_size segs head =
        let h = address ch dev dst payload_size segs head in offered h segs (enque h segs)

    -- The long datagram, with the head and what the loop gave.
    abbrev pub chain :
        UdpTxChannel → Sender → Destination → ℕ → Mbuf → Option (Bool × List Mbuf) → Option Sent
    chain ch dev dst payload_size head none = none
    chain ch dev dst payload_size head (some (false, segs)) =
        some (no_buffers (chain_head head segs ∷ segs))
    chain ch dev dst payload_size head (some (true, segs)) =
        some (offer ch dev dst payload_size segs (chain_head head segs))

    -- `fuel` bounds the loop; `none` if it does not suffice.
    unfoldable pub send : ℕ → UdpTxChannel → Sender → Destination → ℕ → Memory → Option Sent
    unfolding fill address single
    send fuel ch dev dst payload_size payload =
        if ltb ch.packet_buf_size (headers_size + payload_size)
        then elim header [
          | none ↦ some (no_buffers [])
          | some head ↦
              chain ch dev dst payload_size head
                (fill alloc ch.packet_buf_size payload_size payload fuel 0 payload_size)
        ]
        else elim (alloc 0) [
          | none ↦ some (no_buffers [])
          | some head ↦ some (offer ch dev dst payload_size [] (single payload_size payload head))
        ]
