-- ===== src/Dpdkx/Proto.antt =====
-- Constants of the network protocols, as the headers that the library includes name them.
use dpdk_tools.Common.{ℕ, ◌*◌, ◌^◌}
use dpdk_tools.Common.ByteOrder.{bswap}

-- `RTE_BE16(v)` on a little-endian host.
unfoldable pub be16 : ℕ → ℕ
be16 v = bswap 2 v

abbrev pub ether_type_ipv4 : ℕ
ether_type_ipv4 = 0x0800

abbrev pub ether_type_arp : ℕ
ether_type_arp = 0x0806

abbrev pub ether_type_rarp : ℕ
ether_type_rarp = 0x8035

abbrev pub ether_type_vlan : ℕ
ether_type_vlan = 0x8100

abbrev pub ether_type_ipv6 : ℕ
ether_type_ipv6 = 0x86dd

abbrev pub ether_type_qinq : ℕ
ether_type_qinq = 0x88a8

-- The sizes of the headers.
abbrev pub ether_hdr : ℕ
ether_hdr = 14

abbrev pub vlan_hdr : ℕ
vlan_hdr = 4

abbrev pub ipv4_hdr : ℕ
ipv4_hdr = 20

abbrev pub udp_hdr : ℕ
udp_hdr = 8

abbrev pub icmp_hdr : ℕ
icmp_hdr = 8

abbrev pub arp_hdr : ℕ
arp_hdr = 28

abbrev pub proto_icmp : ℕ
proto_icmp = 1

abbrev pub proto_igmp : ℕ
proto_igmp = 2

abbrev pub proto_udp : ℕ
proto_udp = 17

-- IPDEFTTL
abbrev pub default_ttl : ℕ
default_ttl = 64

-- RTE_IPV4_VHL_DEF: version 4, a header of five words.
abbrev pub vhl_def : ℕ
vhl_def = 0x45

-- RTE_ARP_HRD_ETHER, RTE_ARP_OP_REQUEST and RTE_ARP_OP_REPLY.
abbrev pub arp_hrd_ether : ℕ
arp_hrd_ether = 1

abbrev pub arp_op_request : ℕ
arp_op_request = 1

abbrev pub arp_op_reply : ℕ
arp_op_reply = 2

-- RTE_IP_ICMP_ECHO_REPLY and RTE_IP_ICMP_ECHO_REQUEST.
abbrev pub icmp_echo_reply : ℕ
icmp_echo_reply = 0

abbrev pub icmp_echo_request : ℕ
icmp_echo_request = 8

-- RTE_MBUF_F_TX_UDP_CKSUM, RTE_MBUF_F_TX_IP_CKSUM and RTE_MBUF_F_TX_IPV4, bits 52 and 53, 54, and 55.
abbrev pub tx_udp_cksum : ℕ
tx_udp_cksum = 3 * 2 ^ 52

abbrev pub tx_ip_cksum : ℕ
tx_ip_cksum = 2 ^ 54

abbrev pub tx_ipv4 : ℕ
tx_ipv4 = 2 ^ 55
