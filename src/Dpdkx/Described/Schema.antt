-- ===== src/Dpdkx/Described/Schema.antt =====
-- dpdkx/config/io.hpp: the members that are printed and read, in their order. The types of DPDK's own
-- members are DPDK's, by name.
use Prim.Native.String.{String}
use dpdk_tools.Common.{List, [], ◌∷◌}
use dpdk_tools.Dpdkx.Described.{
  Leaf, uint16, uint64, unsigned, rx_offloads, tx_offloads, rx_meta_features, bitset, Described,
  leaf, struct, Members, end, member,
}

module _ (type_of : String → Leaf) where
  abbrev leaves : List String → Members → Members
  leaves [] ms = ms
  leaves (name ∷ names) ms = member name (leaf (type_of name)) (leaves names ms)

  abbrev pub rte_eth_dev_portconf : Described
  rte_eth_dev_portconf = struct (leaves ("burst_size" ∷ "ring_size" ∷ "nb_queues" ∷ []) end)

  abbrev pub rte_eth_thresh : Described
  rte_eth_thresh = struct (leaves ("pthresh" ∷ "hthresh" ∷ "wthresh" ∷ []) end)

  abbrev pub rte_eth_rxconf : Described
  rte_eth_rxconf = struct (
      member "rx_thresh" rte_eth_thresh (
        leaves
          ("rx_free_thresh" ∷ "rx_drop_en" ∷ "rx_deferred_start" ∷ "rx_nseg" ∷ "share_group"
            ∷ "share_qid" ∷ "offloads" ∷ "rx_nmempool" ∷ [])
          end))

  abbrev pub rte_eth_txconf : Described
  rte_eth_txconf = struct (
      member "tx_thresh" rte_eth_thresh
        (leaves ("tx_rs_thresh" ∷ "tx_free_thresh" ∷ "tx_deferred_start" ∷ "offloads" ∷ []) end))

  abbrev pub rte_eth_desc_lim : Described
  rte_eth_desc_lim =
      struct (leaves ("nb_max" ∷ "nb_min" ∷ "nb_align" ∷ "nb_seg_max" ∷ "nb_mtu_seg_max" ∷ []) end)

  abbrev limits_and_defaults : Members → Members
  limits_and_defaults ms = leaves ("reta_size" ∷ "rss_algo_capa" ∷ "flow_type_rss_offloads" ∷ []) (
      member "default_rxconf" rte_eth_rxconf (
        member "default_txconf" rte_eth_txconf (
          leaves ("vmdq_queue_base" ∷ "vmdq_queue_num" ∷ "vmdq_pool_base" ∷ []) (
            member "rx_desc_lim" rte_eth_desc_lim (
              member "tx_desc_lim" rte_eth_desc_lim (
                leaves ("speed_capa" ∷ "nb_rx_queues" ∷ "nb_tx_queues" ∷ []) (
                  member "default_rxportconf" rte_eth_dev_portconf
                    (member "default_txportconf" rte_eth_dev_portconf ms))))))))

  abbrev pub rte_eth_dev_info : Described
  rte_eth_dev_info = struct (
      leaves
        ("min_mtu" ∷ "max_mtu" ∷ "min_rx_bufsize" ∷ "max_rx_bufsize" ∷ "max_rx_pktlen"
          ∷ "max_lro_pkt_size" ∷ "max_rx_queues" ∷ "max_tx_queues" ∷ "max_mac_addrs"
          ∷ "max_hash_mac_addrs" ∷ "max_vfs" ∷ "max_vmdq_pools" ∷ [])
        (member "rx_offload_capa" (leaf rx_offloads) (
          member "tx_offload_capa" (leaf tx_offloads) (
            member "rx_queue_offload_capa" (leaf rx_offloads) (
              member "tx_queue_offload_capa" (leaf tx_offloads)
                (limits_and_defaults (leaves ("dev_capa" ∷ []) end)))))))

  abbrev pub effective_offloads : Described
  effective_offloads = struct (member "rx" (leaf rx_offloads) (member "tx" (leaf tx_offloads) end))

  abbrev pub device : Described
  device = struct (
      member "svc_tx_n" (leaf (unsigned uint16)) (
        member "rx_flow_queues" (leaf (unsigned uint16)) (
          member "next_src_port" (leaf (unsigned uint16)) (
            member "rx_reconfig_hint" (leaf (unsigned uint16)) (
              member "clock_hz" (leaf (unsigned uint64)) (
                member "info" rte_eth_dev_info (
                  member "effective_offload" effective_offloads (
                    member "tx_rings" (leaf (unsigned uint16)) (
                      member "rx_meta_features" (leaf rx_meta_features)
                        (member "features" (leaf bitset) end))))))))))
