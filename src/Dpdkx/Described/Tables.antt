-- ===== src/Dpdkx/Described/Tables.antt =====
-- dpdkx/io.hpp: the names of the flags, by their bits.
use Prim.Native.String.{String}
use dpdk_tools.Common.{List, [], ◌∷◌}
use dpdk_tools.Dpdkx.Described.{Leaf, rx_offloads, tx_offloads, rx_meta_features}

abbrev pub rx_offloads_names : List String
rx_offloads_names =
    "RTE_ETH_RX_OFFLOAD_VLAN_STRIP" ∷ "RTE_ETH_RX_OFFLOAD_IPV4_CKSUM"
    ∷ "RTE_ETH_RX_OFFLOAD_UDP_CKSUM" ∷ "RTE_ETH_RX_OFFLOAD_TCP_CKSUM" ∷ "RTE_ETH_RX_OFFLOAD_TCP_LRO"
    ∷ "RTE_ETH_RX_OFFLOAD_QINQ_STRIP" ∷ "RTE_ETH_RX_OFFLOAD_OUTER_IPV4_CKSUM"
    ∷ "RTE_ETH_RX_OFFLOAD_MACSEC_STRIP" ∷ "0x00100" ∷ "RTE_ETH_RX_OFFLOAD_VLAN_FILTER"
    ∷ "RTE_ETH_RX_OFFLOAD_VLAN_EXTEND" ∷ "0x00800" ∷ "0x01000" ∷ "RTE_ETH_RX_OFFLOAD_SCATTER"
    ∷ "RTE_ETH_RX_OFFLOAD_TIMESTAMP" ∷ "RTE_ETH_RX_OFFLOAD_SECURITY" ∷ "RTE_ETH_RX_OFFLOAD_KEEP_CRC"
    ∷ "RTE_ETH_RX_OFFLOAD_SCTP_CKSUM" ∷ "RTE_ETH_RX_OFFLOAD_OUTER_UDP_CKSUM"
    ∷ "RTE_ETH_RX_OFFLOAD_RSS_HASH" ∷ "RTE_ETH_RX_OFFLOAD_BUFFER_SPLIT" ∷ []

abbrev pub tx_offloads_names : List String
tx_offloads_names =
    "RTE_ETH_TX_OFFLOAD_VLAN_INSERT" ∷ "RTE_ETH_TX_OFFLOAD_IPV4_CKSUM"
    ∷ "RTE_ETH_TX_OFFLOAD_UDP_CKSUM" ∷ "RTE_ETH_TX_OFFLOAD_TCP_CKSUM"
    ∷ "RTE_ETH_TX_OFFLOAD_SCTP_CKSUM" ∷ "RTE_ETH_TX_OFFLOAD_TCP_TSO" ∷ "RTE_ETH_TX_OFFLOAD_UDP_TSO"
    ∷ "RTE_ETH_TX_OFFLOAD_OUTER_IPV4_CKSUM" ∷ "RTE_ETH_TX_OFFLOAD_QINQ_INSERT"
    ∷ "RTE_ETH_TX_OFFLOAD_VXLAN_TNL_TSO" ∷ "RTE_ETH_TX_OFFLOAD_GRE_TNL_TSO"
    ∷ "RTE_ETH_TX_OFFLOAD_IPIP_TNL_TSO" ∷ "RTE_ETH_TX_OFFLOAD_GENEVE_TNL_TSO"
    ∷ "RTE_ETH_TX_OFFLOAD_MACSEC_INSERT" ∷ "RTE_ETH_TX_OFFLOAD_MT_LOCKFREE"
    ∷ "RTE_ETH_TX_OFFLOAD_MULTI_SEGS" ∷ "RTE_ETH_TX_OFFLOAD_MBUF_FAST_FREE"
    ∷ "RTE_ETH_TX_OFFLOAD_SECURITY" ∷ "RTE_ETH_TX_OFFLOAD_UDP_TNL_TSO"
    ∷ "RTE_ETH_TX_OFFLOAD_IP_TNL_TSO" ∷ "RTE_ETH_TX_OFFLOAD_OUTER_UDP_CKSUM"
    ∷ "RTE_ETH_TX_OFFLOAD_SEND_ON_TIMESTAMP" ∷ []

abbrev pub rx_meta_features_names : List String
rx_meta_features_names =
    "RTE_ETH_RX_METADATA_USER_FLAG" ∷ "RTE_ETH_RX_METADATA_USER_MARK"
    ∷ "RTE_ETH_RX_METADATA_TUNNEL_ID" ∷ []

-- The names that `to_string` gives to `utils::flags::to_string`, and the parsers to
-- `make_flags_parser`.
abbrev pub names_of : Leaf → List String
names_of rx_offloads = rx_offloads_names
names_of tx_offloads = tx_offloads_names
names_of rx_meta_features = rx_meta_features_names
names_of l = []
