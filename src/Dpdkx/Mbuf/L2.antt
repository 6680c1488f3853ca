-- ===== src/Dpdkx/Mbuf/L2.antt =====
-- dpdkx/detail/utils.hpp: the length of the layer 2 header, behind any stack of VLAN tags.
pub mod Laws
use dpdk_tools.Common.{
  ℕ, zero, suc, ◌+◌, ◌-◌, ◌%◌, ltb, ◌==◌, if◌then◌else◌, Bool, ◌||◌, Option, none, some,
}
use dpdk_tools.Common.Memory.{load}
use dpdk_tools.Dpdkx.Proto.{be16, ether_type_vlan, ether_type_qinq, ether_hdr, vlan_hdr}
use dpdk_tools.Dpdkx.Mbuf.{Mbuf}

unfoldable pub eth_proto : Mbuf → ℕ
eth_proto b = load 2 (b.l2_len - 2) b.bytes

unfoldable pub is_tag : ℕ → Bool
is_tag proto = proto == be16 ether_type_vlan || proto == be16 ether_type_qinq

-- `l2_len` is a bit-field of DPDK's `rte_mbuf`: an assignment keeps the value modulo `l2_mod`.
module _ (l2_mod : ℕ) where
  -- The `while` loop; `none` means that the fuel ran out.
  unfoldable pub skip_tags : ℕ → ℕ → Mbuf → Option (ℕ × Mbuf)
  skip_tags zero proto b = none
  skip_tags (suc fuel) proto b =
      let b' = record b { l2_len = (b.l2_len + vlan_hdr) % l2_mod } in
      let rest = skip_tags fuel (load 2 (b.l2_len + 2) b.bytes) b' in
      if is_tag proto
      then if ltb b'.data_len b'.l2_len then some (0, b') else rest
      else some (proto, b)

  unfoldable pub update_l2size : ℕ → Mbuf → Option (ℕ × Mbuf)
  update_l2size fuel b =
      let b' = record b { l2_len = ether_hdr } in
      let rest = skip_tags fuel (load 2 12 b'.bytes) b' in
      if ltb b'.data_len ether_hdr then some (0, b') else rest
