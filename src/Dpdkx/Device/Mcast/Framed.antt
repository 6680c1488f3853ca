-- ===== src/Dpdkx/Device/Mcast/Framed.antt =====
-- The report of `mcast_group` as a frame: its headers, and what its checksum is made of.
use dpdk_tools.Common.{
  ℕ, ◌+◌, ◌-◌, ◌<◌, ◌≤◌, ◌≡◌, refl, ◌∙◌, if◌then◌else◌, Bool, true, false, ◌⊎◌, inl, inr, arith,
}
use dpdk_tools.Common.Memory.{Memory, load, store, load-store_apart, load-store_mod, store_out}
use dpdk_tools.Common.ByteOrder.{bswap}
use dpdk_tools.Common.Writes.{write_all, load-write_all}
use dpdk_tools.Dpdkx.Proto.{be16, proto_igmp, ether_type_ipv4}
use dpdk_tools.Dpdkx.Mbuf.{Mbuf}
use dpdk_tools.Dpdkx.Mbuf.Build.{make_ether, write_ipv4, make_ipv4}
use dpdk_tools.Dpdkx.Device.Host.{Host}
use dpdk_tools.Dpdkx.Device.Mcast.{before_cksum, mcast_report}

-- What the report's checksum is made of: the bytes from offset 38 on with none in its place, 40 of
-- them, though the message has 16.
pub record IsSummed (raw_cksum : ℕ → ℕ → Memory → ℕ) (m : Memory) : Type 0 where
  pub zeroed : Memory
  pub none_yet : load 2 40 zeroed ≡ 0
  pub others : (i : ℕ) → 26 ≤ i → (i < 40) ⊎ (42 ≤ i) → m i ≡ zeroed i
  pub igmp_cksum : load 2 40 m ≡ 65535 - raw_cksum 38 40 zeroed

-- The headers that `make_ipv4` begins, with four bytes of options behind the IPv4 header.
pub record IsFramed (p : Mbuf) : Type 0 where
  pub ether_type : load 2 12 p.bytes ≡ be16 ether_type_ipv4
  pub version_ihl : load 1 14 p.bytes ≡ 0x46
  pub total_length : load 2 16 p.bytes ≡ be16 40
  pub protocol : load 1 23 p.bytes ≡ proto_igmp
  pub router_alert : load 4 34 p.bytes ≡ 0x494
  pub data_len : p.data_len ≡ 54
  pub pkt_len : p.pkt_len ≡ 54
  pub l2_len : p.l2_len ≡ 14
  pub l3_len : p.l3_len ≡ 24

pub kept :
    (b : Bool) (w off x : ℕ) (m : Memory)
    → (off + w ≤ 24) ⊎ (26 ≤ off)
    → load w off (if b then m else store 2 24 x m) ≡ load w off m
kept true w off x m apart = refl
kept false w off x m apart = load-store_apart w off 2 24 x m apart

kept_byte :
    (b : Bool) (x : ℕ) (m : Memory) (i : ℕ) → 26 ≤ i → (if b then m else store 2 24 x m) i ≡ m i
kept_byte true x m i h = refl
kept_byte false x m i h = store_out 2 24 x m i (inr h)

either_side : (i : ℕ) → (i < 40) ⊎ (42 ≤ i) → (i < 40) ⊎ (40 + 2 ≤ i)
either_side i (inl h) = inl h
either_side i (inr h) = inr h

module _ (raw_cksum : ℕ → ℕ → Memory → ℕ) (cksum : ℕ → Memory → ℕ) (host : Host) (ip4addr type : ℕ)
    (buffer : Mbuf) where
  abbrev begun : Memory
  begun = (make_ipv4 proto_igmp 20 buffer).bytes

  abbrev written : Memory
  written = write_all (before_cksum host ip4addr type (load 1 14 begun)) begun

  abbrev summed : Memory
  summed = store 2 24 0 (store 2 40 (65535 - raw_cksum 38 40 written) written)

  pub mcast_report-IsFramed : IsFramed (mcast_report raw_cksum cksum host ip4addr type buffer)
  unfolding mcast_report write_all make_ipv4 make_ether write_ipv4 load store be16 bswap
  mcast_report-IsFramed = record {
    ether_type =
        kept host.ipv4_cksum_offload 2 12 (cksum 14 summed) summed (inl (omega arith)) ∙ refl;
    version_ihl =
        kept host.ipv4_cksum_offload 1 14 (cksum 14 summed) summed (inl (omega arith)) ∙ refl;
    total_length =
        kept host.ipv4_cksum_offload 2 16 (cksum 14 summed) summed (inl (omega arith)) ∙ refl;
    protocol =
        kept host.ipv4_cksum_offload 1 23 (cksum 14 summed) summed (inl (omega arith)) ∙ refl;
    router_alert =
        kept host.ipv4_cksum_offload 4 34 (cksum 14 summed) summed (inr (omega arith)) ∙ refl;
    data_len = refl;
    pkt_len = refl;
    l2_len = refl;
    l3_len = refl;
  }

  pub mcast_report-IsSummed :
      IsSummed raw_cksum (mcast_report raw_cksum cksum host ip4addr type buffer).bytes
  unfolding mcast_report write_all make_ipv4
  mcast_report-IsSummed = record {
    zeroed = written;
    none_yet =
        load-write_all 2 40 0 (before_cksum host ip4addr type (load 1 14 begun)) begun refl
          (omega arith);
    others = λ i low apart.
        kept_byte host.ipv4_cksum_offload (cksum 14 summed) summed i low
        ∙ store_out 2 24 0 _ i (inr low)
        ∙ store_out 2 40 _ written i (either_side i apart);
    igmp_cksum =
        kept host.ipv4_cksum_offload 2 40 (cksum 14 summed) summed (inr (omega arith))
        ∙ load-store_apart 2 40 2 24 0 _ (inr (omega arith))
        ∙ load-store_mod 2 40 (65535 - raw_cksum 38 40 written) written (omega arith);
  }
